-- ===== src/Deploy/Diff/Build.antt =====
-- modelship/deploy/diff.py: `build_diff` and `Diff.lines`.
use Prim.Native.String.{compare}
use text.Mathlib.Text.{is_le}
use modelship.Prelude.{
  ℕ, zero, suc, String, Bool, true, false, ◌&&◌, ◌||◌, not, Option, none, some, List, [], ◌∷◌, map,
  leb, ◌==◌, str_eq, if◌then◌else◌, length,
}
use modelship.Dict.{Dict, get, put, keys}
use modelship.Json.{Json}
use modelship.Deploy.Ledger.Merge.{DeployMode, additive, reconcile, and_then}
use modelship.Deploy.Diff.{
  Scaling, Config, ServeApp, Note, delete_leftovers, switch_and_commit, removes, not_in_request,
  keeps, Diff, Mode, bare, merging, Request, at_leftovers, at_stop, at_commit, at_retire, noted,
  acted, retiring, decide_all,
}

-- `step[0] or _RETIRE + 1`
abbrev pub place : ℕ × Note → ℕ
place (zero, note) = 8
place (suc n, note) = suc n

unfoldable pub insert_step : ℕ × Note → List (ℕ × Note) → List (ℕ × Note)
insert_step s [] = s ∷ []
insert_step s (t ∷ ts) = if leb (place s) (place t) then s ∷ t ∷ ts else t ∷ insert_step s ts

-- `Diff.lines`, a stable sort by place
unfoldable pub lines : List (ℕ × Note) → List (ℕ × Note)
unfolding insert_step
lines [] = []
lines (s ∷ ss) = insert_step s (lines ss)

unfoldable pub insert_text : String → List String → List String
insert_text t [] = t ∷ []
insert_text t (u ∷ us) = if is_le (compare t u) then t ∷ u ∷ us else u ∷ insert_text t us

-- `sorted`
unfoldable pub sorted : List String → List String
unfolding insert_text
sorted [] = []
sorted (t ∷ ts) = insert_text t (sorted ts)

-- `{c.name: c for c in ...}`, after the entries that there are
unfoldable pub by_name : Dict Config → List Config → Dict Config
unfolding put
by_name d [] = d
by_name d (c ∷ cs) = by_name (put c.name c d) cs

abbrev pub configs : Dict Config → List Config
configs = map (λ e. e.1)

abbrev pub mem : String → List String → Bool
mem x [] = false
mem x (y ∷ ys) = str_eq y x || mem x ys

-- the names of a list for which a test holds
unfoldable pub those : (String → Bool) → List String → List String
those p [] = []
those p (x ∷ xs) = let rest = those p xs in if p x then x ∷ rest else rest

unfoldable pub deployed_from : Dict (String × Scaling) → List Config → Dict (String × Scaling)
unfolding put
deployed_from d [] = d
deployed_from d (c ∷ cs) = deployed_from (put c.name (c.app, c.scaling) d) cs

module _ (same : Scaling → Scaling → Bool) where
  -- the entries of a dict are all in another, with the same app and replica-count fields
  unfoldable pub entries_in : Dict (String × Scaling) → Dict (String × Scaling) → Bool
  unfolding get
  entries_in [] e = true
  entries_in ((k, (app, scaling)) ∷ d) e = matches (get k e) && entries_in d e
    where
      matches : Option (String × Scaling) → Bool
      matches none = false
      matches (some (other, set)) = str_eq app other && same scaling set

  -- `_deployed(proposed) == _deployed(committed)`
  unfoldable pub same_deployed : List Config → List Config → Bool
  unfolding deployed_from entries_in
  same_deployed cs ds =
      let d = deployed_from [] cs in
      let e = deployed_from [] ds in length d == length e && entries_in d e

abbrev pub is_empty {ℓ} : {A : Type ℓ} → List A → Bool
is_empty [] = true
is_empty (x ∷ xs) = false

abbrev pub note_names : (List String → Note) → ℕ → List String → Diff → Diff
note_names note step [] d = d
note_names note step (x ∷ xs) d = noted step (note (x ∷ xs)) d

abbrev pub empty_diff : Option (List Json) → List String → Diff
empty_diff committed leftovers = record {
  actions = [];
  leftovers = leftovers;
  scale_downs = [];
  deploys = [];
  scale_ups = [];
  retired = [];
  models = committed;
  commits = false;
  steps = [];
}

-- the removal of the models that a reconciling request leaves out
unfoldable pub remove_each : Bool → Dict Config → List String → Diff → Diff
unfolding acted get
remove_each stop_start current [] d = d
remove_each stop_start current (name ∷ names) d = remove_each stop_start current names (
    noted (if stop_start then at_stop else at_retire) (removes name)
      (retire_of (get name current) (acted name "remove" d)))
  where
    retire_of : Option Config → Diff → Diff
    retire_of none d = d
    retire_of (some c) d = retiring c.app d

unfoldable pub leave_out : Mode → Bool → Dict Config → List String → Diff → Diff
unfolding remove_each
leave_out (merging reconcile) stop_start current others d = remove_each stop_start current others d
leave_out bare stop_start current others d = note_names not_in_request 0 others d
leave_out (merging additive) stop_start current others d = note_names not_in_request 0 others d

-- the models with an action
unfoldable pub with_action : String → Dict String → List String
with_action action [] = []
with_action action ((model, other) ∷ actions) =
    let rest = with_action action actions in if str_eq other action then model ∷ rest else rest

-- what follows the decisions
unfoldable pub finish : Request → Dict Config → List String → Diff → Diff
unfolding leave_out with_action sorted
finish request current others d =
    let d' = leave_out request.mode request.stop_start current others d in
    let d'' = note_names keeps 0 (sorted (with_action "keep" d'.actions)) d' in
    record d'' { retired = sorted d''.retired }

module _ (same : Scaling → Scaling → Bool) (validate : List Json → Option (List Config))
    (merge : List Json → List Json → DeployMode → Option (List Json))
    (of_gateway : String → Bool) where
  abbrev pub current_of : Option (List Json) → Option (Dict Config)
  unfolding by_name
  current_of none = some []
  current_of (some []) = some []
  current_of (some (m ∷ ms)) = and_then (λ cs. some (by_name [] cs)) (validate (m ∷ ms))

  abbrev pub committed_models : Option (List Json) → List Json
  committed_models none = []
  committed_models (some ms) = ms

  -- `committed is None or _deployed(proposed, ...) != _deployed(committed, ...)`
  abbrev pub commits_of : Option (List Json) → List Json → Option Bool
  unfolding same_deployed
  commits_of none proposed = some true
  commits_of (some ms) proposed =
      and_then (λ cs. and_then (λ ds. some (not (same_deployed same cs ds))) (validate ms))
        (validate proposed)

  abbrev pub proposing : List Json → Bool → Diff → Diff
  proposing proposed false d = d
  proposing proposed true d =
      noted at_commit switch_and_commit (record d { commits = true; models = some proposed })

  -- the request's models, and the diff with what it commits
  unfoldable pub wanted_of :
      Request → Option (List Json) → Dict Config → Diff → Option (List Config × Diff)
  unfolding commits_of
  wanted_of request committed current d = by_mode request.mode request.models
    where
      propose : List Json → DeployMode → Option (List Config × Diff)
      propose models mode =
          and_then
            (λ wanted.
              and_then
                (λ proposed.
                  and_then (λ commits. some (wanted, proposing proposed commits d))
                    (commits_of committed proposed))
                (merge (committed_models committed) models mode))
            (validate models)

      by_mode : Mode → Option (List Json) → Option (List Config × Diff)
      by_mode bare models = some (configs current, d)
      by_mode (merging mode) none = some (configs current, d)
      by_mode (merging mode) (some models) = propose models mode

  unfoldable pub leftovers_of : Dict Config → Dict ServeApp → List String
  unfolding those sorted
  leftovers_of current apps = sorted (
      those (λ name. of_gateway name && not (mem name (map (λ c. c.app) (configs current))))
        (keys apps))

  abbrev pub others_of : List Config → Dict Config → List String
  unfolding those sorted
  others_of wanted current =
      sorted (those (λ name. not (mem name (map (λ c. c.name) wanted))) (keys current))

  -- `build_diff`, from the committed models by name
  unfoldable pub build_from :
      Request → Option (List Json) → Dict ServeApp → Dict Config → Option Diff
  unfolding wanted_of leftovers_of finish decide_all others_of
  build_from request committed apps current =
      let leftovers = leftovers_of current apps in
      and_then
        (λ r. some (
          finish request current (others_of r.0 current)
            (decide_all same request.stop_start apps current r.0 r.1)))
        (wanted_of request committed current
          (note_names delete_leftovers at_leftovers leftovers (empty_diff committed leftovers)))

  -- `build_diff`, `none` where it raises
  unfoldable pub build_diff : Request → Option (List Json) → Dict ServeApp → Option Diff
  unfolding build_from current_of
  build_diff request committed apps =
      and_then (build_from request committed apps) (current_of committed)
