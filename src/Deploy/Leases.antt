-- ===== src/Deploy/Leases.antt =====
-- modelship/deploy/deploy_coordinator.py: the deploy leases of `DeployCoordinator`. Arguments are what the
-- state store does with a write, what other calls do to the coordinator while `acquire` awaits that
-- write, and what Serve lists. A call of `_release` runs to its end here before the next begins, and
-- whether the store deleted the key has no effect on the coordinator.
pub mod Check
pub mod Holders
use modelship.Prelude.{
  ℕ, ◌+◌, String, Bool, true, false, ◌&&◌, not, Option, none, some, List, [], ◌∷◌, ltb, str_eq,
  if◌then◌else◌,
}
use modelship.Dict.{Dict, get, put, remove}

pub record Lease : Type 0 where
  pub app : String
  pub deployment : String
  pub replica : String
  pub label : String

-- `_leases`, `_unlisted`, and whether `_leases_loaded` is done
pub record Leases : Type 0 where
  pub held : Dict Lease
  pub unlisted : Dict ℕ
  pub loaded : Bool

-- `None` when granted, else what holds the node up
pub data Grant : Type 0 where
  granted : Grant
  starting : Grant
  held_by : String → Grant
  store_unavailable : Grant

unfoldable pub same_lease : Lease → Lease → Bool
same_lease a b =
    str_eq a.app b.app
    && (str_eq a.deployment b.deployment && (str_eq a.replica b.replica && str_eq a.label b.label))

abbrev pub is_lease : Lease → Option Lease → Bool
is_lease lease none = false
is_lease lease (some l) = same_lease l lease

-- `if self._leases.get(key) == lease: del self._leases[key]`
unfoldable pub drop_lease : String → Lease → Leases → Leases
unfolding same_lease get remove
drop_lease key lease s =
    if is_lease lease (get key s.held) then record s { held = remove key s.held } else s

-- the lease stands in the table before the store is asked to write it
unfoldable pub take_node : String → Lease → Leases → Leases
unfolding put remove
take_node key lease s = record s { held = put key lease s.held; unlisted = remove key s.unlisted }

-- the store's answer to the write of a new lease, in the state at that time
unfoldable pub stored_lease : Bool → String → Lease → Leases → Grant × Leases
stored_lease true key lease s = (granted, s)
stored_lease false key lease s = (store_unavailable, drop_lease key lease s)

-- `meanwhile` is what other calls do during the await of `set_async`
unfoldable pub acquire_from :
    Option Lease → Bool → (Leases → Leases) → String → Lease → Leases → Grant × Leases
unfolding same_lease
acquire_from (some l) stores meanwhile key lease s =
    if same_lease l lease then (granted, s) else (held_by l.label, s)
acquire_from none stores meanwhile key lease s =
    stored_lease stores key lease (meanwhile (take_node key lease s))

-- by whether the leases are loaded
unfoldable pub acquire_when :
    Bool → Bool → (Leases → Leases) → String → Lease → Leases → Grant × Leases
acquire_when false stores meanwhile key lease s = (starting, s)
acquire_when true stores meanwhile key lease s =
    acquire_from (get key s.held) stores meanwhile key lease s

-- `acquire`
unfoldable pub acquire : Bool → (Leases → Leases) → String → Lease → Leases → Grant × Leases
acquire stores meanwhile key lease s = acquire_when s.loaded stores meanwhile key lease s

-- `_release`
unfoldable pub release : String → Lease → Leases → Leases
release key lease s =
    let s' = drop_lease key lease s in record s' { unlisted = remove key s'.unlisted }

-- `_UNLISTED_CHECKS`
abbrev pub unlisted_checks : ℕ
unlisted_checks = 2

abbrev pub or_none : Option ℕ → ℕ
or_none none = 0
or_none (some n) = n

-- one lease, by the state in which Serve lists its replica
unfoldable pub check_lease : Option String → String → Lease → Leases → Leases
check_lease none key lease s =
    let n = or_none (get key s.unlisted) + 1 in
    let s' = record s { unlisted = put key n s.unlisted } in
    if ltb n unlisted_checks then s' else release key lease s'
check_lease (some state) key lease s =
    if not (str_eq state "RUNNING")
    then record s { unlisted = remove key s.unlisted }
    else release key lease s

-- the loop over the leases as they stood when it began
unfoldable pub check_each : (Lease → Option String) → Dict Lease → Leases → Leases
check_each states [] s = s
check_each states ((key, lease) ∷ d) s =
    check_each states d (check_lease (states lease) key lease s)

-- `_check_leases`; nothing where Serve's replicas can't be read
unfoldable pub check_leases : Option (Lease → Option String) → Leases → Leases
check_leases none s = s
check_leases (some states) s = check_each states s.held s
