-- ===== src/Deploy/Diff/Tests.antt =====
-- Diffs at concrete inputs.
use modelship.Prelude.{
  ℕ, String, ◌≡◌, refl, Bool, true, false, not, Option, none, some, List, [], ◌∷◌, All,
}
use modelship.Dict.{Dict, get}
use modelship.Json.{Json, str}
use modelship.Deploy.Ledger.Merge.{DeployMode}
use modelship.Deploy.Diff.{
  Scaling, replicas, Config, ServeApp, Rescale, Diff, bare, Request, other_limits,
}
use modelship.Deploy.Diff.Build.{build_diff}
use modelship.Deploy.Diff.Settled.{Idle, Held, build_diff-Idle}

abbrev same : Scaling → Scaling → Bool
same a b = not (other_limits a b)

abbrev model : Config
model = record { name = "a"; app = "gw.a-1"; scaling = replicas 2; want = replicas 2 }

abbrev validate : List Json → Option (List Config)
validate models = some (model ∷ [])

abbrev merge : List Json → List Json → DeployMode → Option (List Json)
merge committed models mode = some models

abbrev of_gateway : String → Bool
of_gateway name = true

abbrev apps : ℕ → Dict ServeApp
apps n = ("gw.a-1", record { status = "RUNNING"; scaling = some (replicas n) }) ∷ []

abbrev bare_request : Request
bare_request = record { mode = bare; models = none; stop_start = false }

held : All (Held same (apps 2)) (model ∷ [])
unfolding get
held = ((record { status = "RUNNING"; scaling = some (replicas 2) }, refl, refl, refl), tt)

build_diff-Idle_example :
    (d : Diff) × (build_diff same validate merge of_gateway bare_request
        (some (str "a" ∷ []))
        (apps 2)
      ≡ some d)
    × Idle d
build_diff-Idle_example =
    build_diff-Idle same validate merge of_gateway (apps 2) false none (str "a") [] (model ∷ [])
      refl held

scale_ups_of : Option Diff → Option ℕ
scale_ups_of none = none
scale_ups_of (some d) = count d.scale_ups
  where
    count : List Rescale → Option ℕ
    count [] = some 0
    count (r ∷ []) = some 1
    count _ = none

-- an app that was set to one replica goes back to the two of its model
rescaled :
    scale_ups_of
      (build_diff same validate merge of_gateway bare_request (some (str "a" ∷ [])) (apps 1))
    ≡ some 1
unfolding build_diff scale_ups_of
rescaled = refl
