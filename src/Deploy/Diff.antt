-- ===== src/Deploy/Diff.antt =====
-- modelship/deploy/diff.py: what a request changes on its gateway. A model's config is what the code
-- reads of it; `same` is Python's `==` of replica-count fields, `validate` is `to_config`, `none` where it
-- raises, and `of_gateway` tells the gateway's apps by their names. The texts of the steps are left out,
-- their kinds and their places are not.
pub mod Build
pub mod Settled
mod Tests
use modelship.Prelude.{
  ℕ, zero, suc, ◌≡◌, refl, String, Bool, true, false, ◌&&◌, ◌||◌, not, Option, none, some, List, [],
  ◌∷◌, ◌++◌, map, ltb, leb, ◌==◌, str_eq, if◌then◌else◌, length,
}
use modelship.Dict.{Dict, get, put, keys}
use modelship.Json.{Json}
use modelship.Deploy.Ledger.Merge.{DeployMode, additive, reconcile, and_then, is_some}

-- the replica-count fields of an app: `num_replicas` alone, or the autoscaling fields
pub data Scaling : Type 0 where
  replicas : ℕ → Scaling
  autoscaling : ℕ → ℕ → List (String × Json) → Scaling

-- a `ModelshipModelConfig` on the gateway: its name, its `deployment_name`, `scaling()` and
-- `serve_scaling`
pub record Config : Type 0 where
  pub name : String
  pub app : String
  pub scaling : Scaling
  pub want : Scaling

-- `ServeApp`
pub record ServeApp : Type 0 where
  pub status : String
  pub scaling : Option Scaling

pub record Rescale : Type 0 where
  pub model : String
  pub app : String
  pub scaling : Scaling

-- what a step's text says
pub data Note : Type 0 where
  delete_leftovers : List String → Note
  switch_and_commit : Note
  adds : String → Note
  replaces : String → Note
  rescales_replaced : String → Note
  redeploys : String → Note
  rescales : String → Note
  removes : String → Note
  not_in_request : List String → Note
  keeps : List String → Note

-- `Diff`
pub record Diff : Type 0 where
  pub actions : Dict String
  pub leftovers : List String
  pub scale_downs : List Rescale
  pub deploys : List Config
  pub scale_ups : List Rescale
  pub retired : List String
  pub models : Option (List Json)
  pub commits : Bool
  pub steps : List (ℕ × Note)

-- the request's mode; a bare one has no models
pub data Mode : Type 0 where
  bare : Mode
  merging : DeployMode → Mode

pub record Request : Type 0 where
  pub mode : Mode
  pub models : Option (List Json)
  pub stop_start : Bool

-- `_LEFTOVERS` to `_RETIRE`
abbrev pub at_leftovers : ℕ
at_leftovers = 1

abbrev pub at_scale_down : ℕ
at_scale_down = 2

abbrev pub at_stop : ℕ
at_stop = 3

abbrev pub at_deploy : ℕ
at_deploy = 4

abbrev pub at_scale_up : ℕ
at_scale_up = 5

abbrev pub at_commit : ℕ
at_commit = 6

abbrev pub at_retire : ℕ
at_retire = 7

-- `_limits`
abbrev pub limits : Scaling → ℕ × ℕ
limits (replicas n) = (n, n)
limits (autoscaling low high rest) = (low, high)

-- `_rises`
unfoldable pub rises : Scaling → Scaling → Bool
rises have want = ltb (limits have).0 (limits want).0 || ltb (limits have).1 (limits want).1

-- `_limits(a) != _limits(b)`
abbrev pub other_limits : Scaling → Scaling → Bool
other_limits a b = not ((limits a).0 == (limits b).0 && (limits a).1 == (limits b).1)

-- `status in _NOT_LIVE`
abbrev pub not_live : String → Bool
not_live status = str_eq status "DEPLOY_FAILED" || str_eq status "DELETING"

abbrev pub lowers : Option Scaling → Scaling → Bool
unfolding rises
lowers none want = false
lowers (some have) want = other_limits want have && not (rises have want)

-- `_shrinks` of an app that may be missing
unfoldable pub shrinks : Option ServeApp → Scaling → Bool
unfolding rises
shrinks none want = false
shrinks (some old) want = if not_live old.status then false else lowers old.scaling want

abbrev pub noted : ℕ → Note → Diff → Diff
noted step note d = record d { steps = d.steps ++ (step, note) ∷ [] }

unfoldable pub acted : String → String → Diff → Diff
unfolding put
acted model action d = record d { actions = put model action d.actions }

abbrev pub deploying : Config → Diff → Diff
deploying config d = record d { deploys = d.deploys ++ config ∷ [] }

abbrev pub retiring : String → Diff → Diff
retiring app d = record d { retired = d.retired ++ app ∷ [] }

abbrev pub scaling_down : String → String → Scaling → Diff → Diff
scaling_down model app scaling d = record d {
  scale_downs = d.scale_downs ++ record { model = model; app = app; scaling = scaling } ∷ [];
}

abbrev pub scaling_up : String → String → Scaling → Diff → Diff
scaling_up model app scaling d = record d {
  scale_ups = d.scale_ups ++ record { model = model; app = app; scaling = scaling } ∷ [];
}

unfoldable pub add : Config → Diff → Diff
unfolding acted
add config d = noted at_deploy (adds config.name) (deploying config (acted config.name "add" d))

unfoldable pub replace : Bool → Option ServeApp → Config → Config → Diff → Diff
unfolding acted shrinks
replace stop_start old before config d =
    let d' =
      noted at_deploy (replaces config.name)
        (retiring before.app (deploying config (acted config.name "replace" d))) in
    if not stop_start && shrinks old config.want
    then noted at_scale_down (rescales_replaced config.name)
        (scaling_down config.name before.app config.scaling d')
    else d'

unfoldable pub redeploy : Config → Diff → Diff
unfolding acted
redeploy config d =
    noted at_deploy (redeploys config.name) (deploying config (acted config.name "redeploy" d))

-- `held.scaling is None or _rises(held.scaling, want)`
abbrev pub raises : Option Scaling → Scaling → Bool
unfolding rises
raises none want = true
raises (some have) want = rises have want

unfoldable pub rescale : Bool → Config → Diff → Diff
unfolding acted
rescale true config d =
    noted at_scale_up (rescales config.name)
      (scaling_up config.name config.app config.scaling (acted config.name "rescale" d))
rescale false config d =
    noted at_scale_down (rescales config.name)
      (scaling_down config.name config.app config.scaling (acted config.name "rescale" d))

module _ (same : Scaling → Scaling → Bool) where
  abbrev pub scaled_so : Option Scaling → Scaling → Bool
  scaled_so none want = false
  scaled_so (some have) want = same have want

  -- an app of the model's config, in Serve or not
  unfoldable pub decide_held : Option ServeApp → Config → Diff → Diff
  unfolding redeploy rescale acted rises
  decide_held none config d = redeploy config d
  decide_held (some held) config d =
      if not_live held.status
      then redeploy config d
      else if not (scaled_so held.scaling config.want)
      then rescale (raises held.scaling config.want) config d
      else acted config.name "keep" d

  unfoldable pub decide_from : Bool → Dict ServeApp → Option Config → Config → Diff → Diff
  unfolding add replace decide_held get
  decide_from stop_start apps none config d = add config d
  decide_from stop_start apps (some before) config d =
      if not (str_eq before.app config.app)
      then replace stop_start (get before.app apps) before config d
      else decide_held (get config.app apps) config d

  -- `_decide`, with the models that are committed
  unfoldable pub decide : Bool → Dict ServeApp → Dict Config → Config → Diff → Diff
  unfolding decide_from get
  decide stop_start apps current config d =
      decide_from stop_start apps (get config.name current) config d

  unfoldable pub decide_all : Bool → Dict ServeApp → Dict Config → List Config → Diff → Diff
  unfolding decide
  decide_all stop_start apps current [] d = d
  decide_all stop_start apps current (c ∷ cs) d =
      decide_all stop_start apps current cs (decide stop_start apps current c d)
