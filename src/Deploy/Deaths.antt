-- ===== src/Deploy/Deaths.antt =====
-- modelship/deploy/deploy_coordinator.py: the counts of replica deaths, without the metrics.
pub mod Limit
use Prim.Native.Nat.{max}
use modelship.Prelude.{
  ℕ, ◌+◌, ◌*◌, String, Bool, true, false, Option, none, some, List, [], ◌∷◌, leb, if◌then◌else◌,
}
use modelship.Dict.{Dict, get, put, remove}

-- `_deaths` and `_last_deaths`
pub record Deaths : Type 0 where
  pub deaths : Dict ℕ
  pub last_deaths : Dict (ℕ × String)

abbrev pub or_no : Option ℕ → ℕ
or_no none = 0
or_no (some n) = n

-- `_DEATHS_PER_REPLICA * max(replica_ceiling, 1)`
abbrev pub limit_of : ℕ → ℕ
limit_of replica_ceiling = 3 * max replica_ceiling 1

-- `report_replica_death`
unfoldable pub report_replica_death : String → ℕ → String → Deaths → Deaths
unfolding put get
report_replica_death name replica_ceiling reason s = record {
  deaths = put name (or_no (get name s.deaths) + 1) s.deaths;
  last_deaths = put name (limit_of replica_ceiling, reason) s.last_deaths;
}

-- the reason of a deployment whose deaths reached its limit
abbrev pub past_limit : Option (ℕ × String) → ℕ → Option String
past_limit none n = none
past_limit (some (limit, reason)) n = if leb limit n then some reason else none

unfoldable pub looping : String → Deaths → Option String
looping name s = past_limit (get name s.last_deaths) (or_no (get name s.deaths))

unfoldable pub looping_into : List String → Deaths → Dict String → Dict String
looping_into [] s found = found
looping_into (name ∷ names) s found =
    looping_into names s (elim (looping name s) [ none ↦ found | some r ↦ put name r found ])

-- `crash_looping`
unfoldable pub crash_looping : List String → Deaths → Dict String
crash_looping names s = looping_into names s []

-- `forget_deaths`
unfoldable pub forget_deaths : List String → Deaths → Deaths
unfolding remove
forget_deaths [] s = s
forget_deaths (name ∷ names) s =
    forget_deaths names
      (record { deaths = remove name s.deaths; last_deaths = remove name s.last_deaths })
