-- ===== src/Conversations/History.antt =====
-- modelship/openai/state/responses.py: reading a turn and the turns before it. `identity` is the
-- caller's, and `ttl` what `ttl_seconds()` returns. The loop of `_entries` takes fuel; it says so when
-- the fuel runs out.
pub mod Chain
pub mod Termination
pub mod Reads
use mathlib.Core.List.{flatten, flat_map}
use modelship.Prelude.{
  ℕ, zero, suc, ◌+◌, String, ◌≡◌, refl, Bool, true, false, Option, none, some, List, [], ◌∷◌, ◌++◌,
  ◌==◌, length, if◌then◌else◌,
}
use modelship.Json.{Json, Fields, list_json, with_field, field_of, present, as_obj, obj}
use modelship.State.Memory.{Stored}
use modelship.State.Store.{StateStore, Action, ◌>>=◌, ◌>>◌, pure}
use modelship.Conversations.Keys.{key, log_key}
use modelship.Conversations.Records.{
  Position, Entry, Record, Turn, finished, waiting, misplaced, unparented, bind, position,
  entries_of, entry, record_of,
}

-- `base = entries[0].get("base")`: none, or a position; nothing for any other value
pub data Base : Type 0 where
  no_base : Base
  based_on : Position → Base
  malformed : Base

pub base_from : Option Position → Base
base_from none = malformed
base_from (some p) = based_on p

unfoldable pub base_of : Fields → Base
unfolding field_of position base_from
base_of d = elim (present (field_of "base" d)) [
  | none ↦ no_base
  | some v ↦ base_from (bind (as_obj v) position)
]

pub data Chained : Type 0 where
  out_of_fuel : Chained
  gone : Chained
  found : List Entry → Chained

-- what one round of the loop makes of what it read: the whole conversation, a base to go on with, or
-- nothing
pub data Round : Type 0 where
  stop : Chained → Round
  go_on : List Entry → Position → Round

unfoldable pub round_from : Base → ℕ → List Entry → Round
round_from malformed depth es = stop gone
round_from no_base depth es = if length es == depth then stop (found es) else stop gone
round_from (based_on p) depth es = if length es + p.depth == depth then go_on es p else stop gone

unfoldable pub round : Option (List Entry) → ℕ → Round
unfolding round_from base_of
round none depth = stop gone
round (some []) depth = stop gone
round (some (e ∷ es)) depth = round_from (base_of e.fields) depth (e ∷ es)

-- `[item for entry in entries for item in (*entry["input"], *entry["output"])]`
unfoldable pub items : List Entry → List Json
items [] = []
items (e ∷ es) = e.input ++ (e.output ++ items es)

-- `[*_items(entries[:-1]), *entries[-1]["input"]]`
unfoldable pub into_last : List Entry → List Json
into_last [] = []
into_last (e ∷ []) = e.input
into_last (e ∷ f ∷ es) = e.input ++ (e.output ++ into_last (f ∷ es))

-- the segments that were read, the last read first, behind what `es` holds
abbrev pub together : List (List Entry) → List Entry → List Entry
together [] es = es
together (segment ∷ segments) es = together segments (es ++ segment)

abbrev pub complete : List (List Entry) → Chained → Chained
complete segments out_of_fuel = out_of_fuel
complete segments gone = gone
complete segments (found es) = found (together segments es)

module _ (store : StateStore Json) (ttl : Option ℕ) (identity : String) where
  open store use {State, get, read_range, expire}

  -- `if ttl is not None: await store.expire_async(...)`
  unfoldable pub extend : Option ℕ → String → Action State (Unit {0})
  extend none k = pure tt
  extend (some t) k = expire k t

  -- `_refresh`
  unfoldable pub refresh : String → Action State (Unit {0})
  unfolding extend
  refresh log = extend ttl (log_key identity log)

  unfoldable pub proceed :
      (List (List Entry) → Position → Action State Chained)
      → List (List Entry)
      → Round
      → Action State Chained
  unfolding refresh
  proceed rest segments (stop c) = pure (complete segments c)
  proceed rest segments (go_on es base) = do refresh base.log; rest (es ∷ segments) base

  -- the `while True` loop of `_entries`; `segments` are those read so far, the last read first
  unfoldable pub entries_loop : ℕ → List (List Entry) → Position → Action State Chained
  unfolding proceed round
  entries_loop zero segments p = pure out_of_fuel
  entries_loop (suc fuel) segments p = do
    values ← read_range (log_key identity p.log) 1 (some p.depth)
    proceed (entries_loop fuel) segments (round (entries_of values) p.depth)

  -- `_entries`
  unfoldable pub entries : Position → Action State Chained
  unfolding entries_loop
  entries p = entries_loop (suc p.depth) [] p

  -- `_read_record`
  unfoldable pub read_record : String → Action State (Option Record)
  unfolding record_of
  read_record response_id = do value ← get (key identity response_id); pure (record_of value)

  -- the record with its response's `output` read from the log
  pub with_output : Record → List Json → Option Record
  unfolding entry with_field
  with_output r [] = none
  with_output r (v ∷ vs) =
      bind (entry v)
        λ e. some (record r { response = with_field "output" (list_json e.output) r.response })

  -- nothing for a turn whose position the code does not find: a KeyError there
  pub read_turn : Record → Turn → Action State (Option Record)
  unfolding with_output
  read_turn r (waiting input parent) = pure (some r)
  read_turn r unparented = pure (some r)
  read_turn r misplaced = pure none
  read_turn r (finished p) = do
    values ← read_range (log_key identity p.log) p.depth (some p.depth)
    pure (with_output r values)

  -- `read_async`
  unfoldable pub read : String → Bool → Action State (Option Record)
  unfolding read_turn read_record
  read response_id with_output = do
    found_record ← read_record response_id
    elim found_record [
      | none ↦ pure none
      | some r ↦ if with_output then read_turn r r.turn else pure (some r)
    ]

  -- nothing, where the code raises a KeyError
  pub input_of_turn : Turn → Action State (Option (List Json))
  unfolding entries
  input_of_turn misplaced = pure none
  input_of_turn unparented = pure none
  input_of_turn (waiting input none) = pure (some input)
  input_of_turn (waiting input (some parent)) = do
    before ← entries parent
    pure (elim before [ found es ↦ some (items es ++ input) | _ ↦ none ])
  input_of_turn (finished p) = do
    turns ← entries p
    pure (elim turns [ found es ↦ some (into_last es) | _ ↦ none ])

  -- `input_items_async`
  unfoldable pub input_items : Record → Action State (Option (List Json))
  unfolding input_of_turn
  input_items r = input_of_turn r.turn
