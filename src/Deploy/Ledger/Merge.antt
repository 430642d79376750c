-- ===== src/Deploy/Ledger/Merge.antt =====
-- modelship/deploy/ledger.py: `merge`. `identity` stands for `_identity` on the gateway at hand, the app
-- and the name of a raw model that validates; `valid` tells whether `to_config` lets a list of models
-- pass. A merge that raises returns nothing.
pub mod Views
pub mod Steps
pub mod Winners
use modelship.Prelude.{
  String, Bool, true, false, Option, none, some, List, [], ◌∷◌, map, if◌then◌else◌,
}
use modelship.Dict.{Dict, get, put, remove}
use modelship.Json.{Json}

pub data DeployMode : Type 0 where
  additive : DeployMode
  reconcile : DeployMode

-- `merged`, and `dep_name_by_model_name`
pub record Merging : Type 0 where
  pub merged : Dict Json
  pub app_of : Dict String

abbrev pub is_some {ℓ} : {A : Type ℓ} → Option A → Bool
is_some none = false
is_some (some a) = true

abbrev pub and_then {ℓ κ} : {A : Type ℓ} {B : Type κ} → (A → Option B) → Option A → Option B
and_then f none = none
and_then f (some a) = f a

-- `merged[dep_name] = d` and `dep_name_by_model_name[model_name] = dep_name`
unfoldable pub enter : String → String → Json → Merging → Merging
unfolding put
enter app name d st = record { merged = put app d st.merged; app_of = put name app st.app_of }

-- `merged.pop(prior_dep_name)`, which raises without the key
unfoldable pub popped : String → Option Json → Merging → Option Merging
unfolding remove
popped app none st = none
popped app (some prior) st = some (record st { merged = remove app st.merged })

unfoldable pub drop_prior : Option String → Merging → Option Merging
unfolding popped get
drop_prior none st = some st
drop_prior (some app) st = popped app (get app st.merged) st

abbrev pub values : Dict Json → List Json
values = map (λ e. e.1)

abbrev pub finish : Option Merging → Option (List Json)
finish none = none
finish (some st) = some (values st.merged)

module _ (identity : Json → String × String) where
  abbrev pub app : Json → String
  app raw = (identity raw).0

  abbrev pub name : Json → String
  name raw = (identity raw).1

  unfoldable pub add_committed : List Json → Merging → Merging
  add_committed [] st = st
  add_committed (m ∷ ms) st = add_committed ms (enter (app m) (name m) m st)

  -- one round of the loop over the input
  unfoldable pub add_input : Json → Merging → Option Merging
  unfolding drop_prior put get
  add_input d st =
      if is_some (get (app d) st.merged)
      then some (record st { merged = put (app d) d st.merged })
      else and_then (λ st'. some (enter (app d) (name d) d st'))
          (drop_prior (get (name d) st.app_of) st)

  unfoldable pub add_inputs : List Json → Merging → Option Merging
  add_inputs [] st = some st
  add_inputs (d ∷ ds) st = and_then (add_inputs ds) (add_input d st)

  -- `merge`
  unfoldable pub merge :
      (List Json → Bool) → List Json → List Json → DeployMode → Option (List Json)
  merge valid committed input reconcile = if valid input then some input else none
  merge valid committed input additive =
      if valid input
      then finish (add_inputs input (add_committed committed (record { merged = []; app_of = [] })))
      else none
