-- ===== src/Deploy/Tests.antt =====
-- The deploy side at concrete inputs.
use modelship.Prelude.{
  ℕ, Bool, ◌==◌, String, true, false, ◌↔◌, ◌≢◌, ap, str_eq, if◌then◌else◌, ◌≡◌, refl, none, some,
  List, [], ◌∷◌, arith, eq_iff,
}
use modelship.Json.{Json, str, as_int}
use modelship.Dict.{Distinct, get as dict_get, put as dict_put, remove as dict_remove}
use modelship.State.Memory
use modelship.State.Clocked
use modelship.State.Clocked.{Clocked}
use modelship.State.Clocked.Lasting.{Lasts}
use modelship.State.Clocked.Instance.{store}
use modelship.Deploy.Ledger.{Version, versions_of, read_versions, commit_version}
use modelship.Deploy.Routing.{
  Published, generation_of, bump, bump_if, publish_as, publish, publishes,
}
use modelship.Deploy.Routing.Generations.{Alike, publishes-generation}
use modelship.Deploy.Deaths.{
  Deaths, or_no, report_replica_death, looping, looping_into, crash_looping,
}
use modelship.Deploy.Deaths.Limit.{Death, reports, tally, Reached, reports-crash_looping}
use modelship.Deploy.Leases.{
  Lease, Leases, granted, same_lease, drop_lease, take_node, release, acquire, acquire_when,
  acquire_from, stored_lease, check_leases,
}
use modelship.Deploy.Leases.Check.{outcome, judge, check_leases-judge}
use modelship.Deploy.Leases.Holders.{acquire-held, acquire-spares}
use modelship.Deploy.Ledger.Merge.{additive, enter, add_committed, add_input, add_inputs, merge}
use modelship.Deploy.Ledger.Merge.Steps.{winner, has_name, Unique}
use modelship.Deploy.Ledger.Merge.Winners.{Returned, merge-winners}
use modelship.Deploy.Ledger.Versions.{commit_version-read_versions, commit_version-other}

program : Unit {0}
unfolding Memory.get Clocked.get dict_get read_versions versions_of
program = tt

-- an empty store whose clock stands still
abbrev empty : Clocked Json
empty = record {
  memory = record { table = []; last_sweep = 0; sweep_interval = 300 };
  clock = λ n. 0;
  tick = 0;
}

empty-Lasts : Lasts none empty
empty-Lasts = record {
  distinct = tt;
  monotone = λ m n le. omega arith;
  steady = λ k n le. refl;
  lifetime = tt;
}

abbrev models : List Json
models = str "llama" ∷ []

no_versions : (read_versions (store {V = Json}) as_int "gw" empty).0 ≡ some (none, none)
unfolding program
no_versions = refl

commit_version-read_versions_example :
    let (reply, s') = commit_version store as_int "gw" models empty in
    let next : Version = record { number = 1; models = models } in
    (reply ≡ some next) × ((read_versions store as_int "gw" s').0 ≡ some (some next, none))
commit_version-read_versions_example =
    commit_version-read_versions store as_int "gw" models (none, none) empty (λ n. refl) empty-Lasts
      no_versions

commit_version-other_example :
    (read_versions store as_int "other" (commit_version store as_int "gw" models empty).1).0
    ≡ (read_versions store as_int "other" empty).0
commit_version-other_example =
    commit_version-other store as_int "gw" "other" models (none, none) empty empty-Lasts no_versions
      (λ e. ground (arith, e, eq_iff "other" "gw"))

-- a model is its app's text, and two apps are of the model "a"
abbrev owner : String → String
owner a = if str_eq a "a-1" then "a" else if str_eq a "a-2" then "a" else a

abbrev app_text : Json → String
app_text (str a) = a
app_text v = "none"

abbrev identity : Json → String × String
identity raw = (app_text raw, owner (app_text raw))

merged_models :
    merge identity (λ ms. true) (str "a-1" ∷ str "b" ∷ []) (str "a-2" ∷ []) additive
    ≡ some (str "b" ∷ str "a-2" ∷ [])
unfolding program merge add_committed add_input add_inputs enter
merged_models = refl

apart : Unique identity (str "a-1" ∷ str "b" ∷ [])
unfolding has_name
apart = (refl, (refl, tt))

merge-winners_example :
    (merge identity (λ ms. true) (str "a-1" ∷ str "b" ∷ []) (str "a-2" ∷ []) additive ≢ none)
    × (Returned
          (str "a-2")
          (merge identity (λ ms. true) (str "a-1" ∷ str "b" ∷ []) (str "a-2" ∷ []) additive)
        ↔ (winner identity
              (str "a-2" ∷ [])
              "a"
              (winner identity (str "a-1" ∷ str "b" ∷ []) "a" none)
            ≡ some (str "a-2")))
merge-winners_example =
    merge-winners identity (λ ms. true) (str "a-1" ∷ str "b" ∷ []) (str "a-2" ∷ []) (str "a-2")
      (λ x y e. ap owner e) apart refl

-- the replica "r1" holds node "n1", and was not listed on the last check
abbrev first_lease : Lease
first_lease = record { app = "a"; deployment = "a"; replica = "r1"; label = "first" }

abbrev other_lease : Lease
other_lease = record { app = "b"; deployment = "b"; replica = "r2"; label = "other" }

abbrev leases : Leases
leases = record { held = ("n1", first_lease) ∷ []; unlisted = ("n1", 1) ∷ []; loaded = true }

holder : dict_get "n1" leases.held ≡ some first_lease
unfolding dict_get
holder = refl

acquire-held_example :
    ((acquire true (λ s. s) "n1" other_lease leases).0 ≢ granted)
    × ((acquire true (λ s. s) "n1" other_lease leases).1 ≡ leases)
acquire-held_example =
    acquire-held true (λ s. s) "n1" first_lease other_lease leases holder
      (λ e. ground (arith, ap (λ l. l.app) e, eq_iff "a" "b"))

-- the check frees node "n2" while its lease is written, and another replica then gets it
abbrev overtaken : Leases → Leases
overtaken s = (acquire true (λ t. t) "n2" first_lease (release "n2" other_lease s)).1

overtaken_holder :
    dict_get "n2" (overtaken (take_node "n2" other_lease leases)).held ≡ some first_lease
unfolding take_node release drop_lease same_lease acquire acquire_when acquire_from stored_lease
    dict_get dict_put dict_remove
overtaken_holder = refl

free_node : dict_get "n2" leases.held ≡ none
unfolding dict_get
free_node = refl

acquire-spares_example :
    dict_get "n2" (acquire false overtaken "n2" other_lease leases).1.held ≡ some first_lease
acquire-spares_example =
    acquire-spares false overtaken "n2" other_lease first_lease leases refl free_node
      overtaken_holder (λ e. ground (arith, ap (λ l. l.app) e, eq_iff "b" "a"))

one_node : Distinct leases.held
unfolding dict_get
one_node = (refl, tt)

check_leases-judge_example :
    outcome "n1" (check_leases (some λ l. none) leases)
    ≡ judge (λ l. none) (dict_get "n1" leases.held) (dict_get "n1" leases.unlisted)
check_leases-judge_example = check_leases-judge (λ l. none) "n1" leases one_node

-- gateway "g" has table 1; a pass publishes it again, and another gateway's
abbrev published : Published ℕ
published = record {
  routing = ("g", 1) ∷ [];
  seqs = ("g", 7) ∷ [];
  generation = ("g", 101) ∷ [];
  first_generation = 100;
}

abbrev passes : List (String × (ℕ × ℕ))
passes = ("h", (5, 8)) ∷ ("g", (1, 7)) ∷ []

abbrev same_number : ℕ → ℕ → Bool
same_number a b = a == b

same_generation :
    generation_of same_number "g" (publishes same_number passes published)
    ≡ generation_of same_number "g" published
unfolding publishes publish publish_as bump_if bump dict_get dict_put
same_generation = refl

publishes-generation_example :
    Alike same_number
      (dict_get "g" published.routing)
      (dict_get "g" (publishes same_number passes published).routing)
    × (dict_get "g" (publishes same_number passes published).seqs ≡ dict_get "g" published.seqs)
publishes-generation_example =
    publishes-generation same_number "g" passes published (λ a. ground arith)
      (λ a b c h k. ground (arith, h, k)) same_generation

-- three deaths of "a", which has one replica, with one of "b" between them
abbrev some_deaths : List Death
some_deaths = ("a", (1, "x")) ∷ ("b", (1, "y")) ∷ ("a", (1, "z")) ∷ ("a", (0, "w")) ∷ []

abbrev no_deaths : Deaths
no_deaths = record { deaths = []; last_deaths = [] }

three_deaths : dict_get "a" (crash_looping ("a" ∷ []) (reports some_deaths no_deaths)) ≡ some "w"
unfolding crash_looping looping_into looping reports report_replica_death dict_get dict_put
three_deaths = refl

reports-crash_looping_example :
    (dict_get "a" (crash_looping ("a" ∷ []) (reports some_deaths no_deaths)) ≡ some "w")
    ↔ Reached
        (tally "a" some_deaths
          (or_no (dict_get "a" no_deaths.deaths), dict_get "a" no_deaths.last_deaths))
        "w"
reports-crash_looping_example = reports-crash_looping "a" some_deaths no_deaths "w"
