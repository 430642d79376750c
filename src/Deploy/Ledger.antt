-- ===== src/Deploy/Ledger.antt =====
-- modelship/deploy/ledger.py: the committed version of each gateway and the one before it. `int_of` is
-- Python's `int` on a JSON value, with nothing where it raises; a read that raises returns nothing.
pub mod Versions
pub mod Merge
use Prim.Native.String.{◌++◌ as text_append}
use modelship.Prelude.{ℕ, zero, suc, ◌+◌, String, Option, none, some, List, [], ◌∷◌}
use modelship.Json.{Json, Fields, int, obj, end, field, field_of, as_obj, as_arr, list_json}
use modelship.State.Memory.{Stored, document, log}
use modelship.State.Store.{StateStore, Action, ◌>>=◌, ◌>>◌, pure}

pub record Version : Type 0 where
  pub number : ℕ
  pub models : List Json

-- the committed version and the one before it
abbrev pub Versions : Type 0
Versions = Option Version × Option Version

-- `f"{_NAMESPACE}/{gateway_name}"`
unfoldable pub version_key : String → String
version_key gateway = text_append "effective/" gateway

pub numbered : Option ℕ → List Json → Option (Option Version)
numbered none models = none
numbered (some n) models = some (some (record { number = n; models = models }))

abbrev pub or_zero : Option Json → Json
or_zero none = int 0
or_zero (some v) = v

pub version_in : (Json → Option ℕ) → Fields → Option (List Json) → Option (Option Version)
unfolding numbered field_of
version_in int_of d none = some none
version_in int_of d (some models) = numbered (int_of (or_zero (field_of "version" d))) models

abbrev pub list_of : Option Json → Option (List Json)
list_of none = none
list_of (some v) = as_arr v

-- `_version`
unfoldable pub version : (Json → Option ℕ) → Option Json → Option (Option Version)
unfolding version_in field_of
version int_of (some (obj d)) = version_in int_of d (list_of (field_of "models" d))
version int_of _ = some none

-- what the store replies, as a JSON value; a log is not one, nor is it a dict
abbrev pub data_of : Option (Stored Json) → Option Json
data_of (some (document v)) = some v
data_of (some (log es)) = none
data_of none = none

abbrev pub previous_in : Option Json → Option Json
previous_in (some (obj d)) = field_of "previous" d
previous_in _ = none

abbrev pub paired : Option Version → Option (Option Version) → Option Versions
paired committed none = none
paired committed (some previous) = some (committed, previous)

pub with_previous : (Json → Option ℕ) → Option Json → Option (Option Version) → Option Versions
unfolding version
with_previous int_of d none = none
with_previous int_of d (some none) = some (none, none)
with_previous int_of d (some (some v)) = paired (some v) (version int_of (previous_in d))

-- both versions in what the store holds
unfoldable pub versions_of : (Json → Option ℕ) → Option Json → Option Versions
unfolding with_previous version
versions_of int_of d = with_previous int_of d (version int_of d)

abbrev pub next_number : Option Version → ℕ
next_number none = 1
next_number (some v) = v.number + 1

unfoldable pub version_json : ℕ → List Json → Fields → Fields
version_json n models rest = field "version" (int n) (field "models" (list_json models) rest)

-- `{"version": ..., "models": ...}`, with the committed version as `previous`
unfoldable pub next_json : Option Version → List Json → Fields
next_json none models = version_json 1 models end
next_json (some v) models =
    version_json (v.number + 1) models
      (field "previous" (obj (version_json v.number v.models end)) end)

module _ (store : StateStore Json) (int_of : Json → Option ℕ) where
  open store use {State, get, set}

  -- `read_versions`
  unfoldable pub read_versions : String → Action State (Option Versions)
  read_versions gateway = do
    found ← get (version_key gateway)
    pure (versions_of int_of (data_of found))

  unfoldable pub commit_next : String → List Json → Option Versions → Action State (Option Version)
  commit_next gateway models none = pure none
  commit_next gateway models (some (committed, previous)) = do
    set (version_key gateway) (document (obj (next_json committed models))) none
    pure (some (record { number = next_number committed; models = models }))

  -- `commit_version`
  unfoldable pub commit_version : String → List Json → Action State (Option Version)
  commit_version gateway models = do
    versions ← read_versions gateway
    commit_next gateway models versions
