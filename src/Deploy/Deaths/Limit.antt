-- ===== src/Deploy/Deaths/Limit.antt =====
-- When a deployment passes for crash-looping.
use Prim.Native.Nat.{max}
use mathlib.Core.Option.{some-injective}
use modelship.Prelude.{
  ℕ, ◌+◌, ◌*◌, ◌≤◌, String, ◌≡◌, ◌↔◌, refl, ap, ◌∙◌, Option, none, some, List, [], ◌∷◌, leb, str_eq,
  if◌then◌else◌, Bool-cases, inl, inr, arith, eq_iff, leb→le,
}
use modelship.Dict.{Dict, get, put, get-put, get-put_self}
use modelship.Deploy.Deaths.{
  Deaths, or_no, limit_of, report_replica_death, past_limit, looping, looping_into, crash_looping,
}

-- one death: the deployment, its replica ceiling and the reason
abbrev pub Death : Type 0
Death = String × (ℕ × String)

unfoldable pub reports : List Death → Deaths → Deaths
reports [] s = s
reports ((name, (ceiling, reason)) ∷ ds) s = reports ds (report_replica_death name ceiling reason s)

-- the deaths of a deployment, and the limit and reason of its last, in a list after others: three
-- deaths for each replica that it may have, and for one at least
unfoldable pub tally : String → List Death → ℕ × Option (ℕ × String) → ℕ × Option (ℕ × String)
tally name [] t = t
tally name ((n, (ceiling, reason)) ∷ ds) t =
    tally name ds (if str_eq n name then (t.0 + 1, some (3 * max ceiling 1, reason)) else t)

abbrev of_state : String → Deaths → ℕ × Option (ℕ × String)
of_state name s = (or_no (get name s.deaths), get name s.last_deaths)

report-tally :
    (name n : String) (ceiling : ℕ) (reason : String) (s : Deaths)
    → of_state name (report_replica_death n ceiling reason s) ≡ (
        if str_eq n name
        then (or_no (get name s.deaths) + 1, some (limit_of ceiling, reason))
        else of_state name s)
unfolding report_replica_death
report-tally name n ceiling reason s = elim (Bool-cases (str_eq n name)) [
  | inl i ↦
      rw (get-put, get-put, i)
        (ap (λ k. (or_no (get k s.deaths) + 1, some (limit_of ceiling, reason)))
          ((eq_iff n name).0 i))
  | inr i ↦ rw (get-put, get-put, i)
]

reports-tally :
    (name : String) (ds : List Death) (s : Deaths)
    → of_state name (reports ds s) ≡ tally name ds (of_state name s)
unfolding reports tally
reports-tally name [] s = refl
reports-tally name ((n, (ceiling, reason)) ∷ ds) s =
    reports-tally name ds (report_replica_death n ceiling reason s)
    ∙ ap (tally name ds) (report-tally name n ceiling reason s)

asked : (name : String) (s : Deaths) → get name (crash_looping (name ∷ []) s) ≡ looping name s
unfolding crash_looping looping_into get
asked name s = go (looping name s)
  where
    go :
        (o : Option String)
        → get name (elim o as (λ x. Dict String) [ none ↦ [] | some r ↦ put name r [] ]) ≡ o
    go none = refl
    go (some r) = get-put_self name r []

-- whether a count of deaths is not below the limit of the last, for which this was the reason
abbrev pub Reached : ℕ × Option (ℕ × String) → String → Type 0
Reached (n, none) why = ⊥
Reached (n, some (limit, reason)) why = (limit ≤ n) × (reason ≡ why)

past_limit-Reached :
    (t : ℕ × Option (ℕ × String)) (why : String) → (past_limit t.1 t.0 ≡ some why) ↔ Reached t why
past_limit-Reached (n, none) why = (λ e. cc e, λ r. absurd r)
past_limit-Reached (n, some (limit, reason)) why = elim (Bool-cases (leb limit n)) [
  | inl e ↦ rw e (λ h. (leb→le limit n e, some-injective _ _ h), λ r. ap some r.1)
  | inr e ↦ rw e (λ h. cc h, λ r. absurd (ground (arith, e, r.0)))
]

looping_seen :
    (name : String) (ds : List Death) (s : Deaths)
    → get name (crash_looping (name ∷ []) (reports ds s)) ≡ (
        let t = tally name ds (or_no (get name s.deaths), get name s.last_deaths) in
        past_limit t.1 t.0)
looping_seen name ds s =
    asked name (reports ds s)
    ∙ unfold looping in ap (λ t. past_limit t.1 t.0) (reports-tally name ds s)

-- After any deaths, of this deployment and others, `crash_looping` asked about a deployment names it
-- with a reason just when its deaths are at least three times its replica ceiling, with a ceiling of
-- 0 as 1, where ceiling and reason are those of its last death; the deaths before these, and the limit
-- that they left, count.
pub reports-crash_looping :
    (name : String) (ds : List Death) (s : Deaths) (why : String)
    → (get name (crash_looping (name ∷ []) (reports ds s)) ≡ some why)
      ↔ Reached (tally name ds (or_no (get name s.deaths), get name s.last_deaths)) why
reports-crash_looping name ds s why =
    rw (looping_seen name ds s)
      (past_limit-Reached (tally name ds (or_no (get name s.deaths), get name s.last_deaths)) why)
