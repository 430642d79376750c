-- ===== src/Conversations/Turns.antt =====
-- modelship/openai/state/responses.py: storing a turn, its placeholder and its end. `uuids` stands for
-- `random_uuid`, and `ttl` for what `ttl_seconds()` returns.
pub mod Content
pub mod Keeps
pub mod Writes
pub mod Growth
pub mod Continues
pub mod Terminal
use Prim.Native.String.{◌++◌ as text_append}
use modelship.Prelude.{
  ℕ, zero, suc, ◌+◌, String, Bool, true, false, ◌&&◌, ◌||◌, not, Option, none, some, List, [], ◌∷◌,
  str_eq, if◌then◌else◌,
}
use modelship.Json.{
  Json, Fields, null, int, str, obj, end, field, field_of, with_field, as_obj, as_str, truthy,
  present, list_json,
}
use modelship.State.Memory.{Stored, document}
use modelship.State.Store.{StateStore, Action, ◌>>=◌, ◌>>◌, pure}
use modelship.Conversations.Keys.{key, log_key}
use modelship.Conversations.Records.{
  Position, Record, Turn, finished, waiting, misplaced, unparented, bind, position_json, list_at,
}
use modelship.Conversations.History.{read_record}

-- the id prefix of an item's type; an item without one is a message
unfoldable pub id_prefix : String → Option String
id_prefix type =
    if str_eq type "message"
    then some "msg"
    else if str_eq type "function_call"
    then some "fc"
    else if str_eq type "function_call_output"
    then some "fco"
    else if str_eq type "reasoning"
    then some "rs"
    else if str_eq type "mcp_call"
    then some "mcp"
    else if str_eq type "mcp_list_tools"
    then some "mcpl"
    else if str_eq type "mcp_approval_request"
    then some "mcpr"
    else if str_eq type "mcp_approval_response"
    then some "mcpr"
    else if str_eq type "compaction"
    then some "cmp"
    else none

-- `prefixes.get(item.get("type", "message"))`
unfoldable pub prefix_of : Fields → Option String
unfolding id_prefix field_of
prefix_of item = elim (field_of "type" item) [
  | none ↦ id_prefix "message"
  | some v ↦ bind (as_str v) id_prefix
]

abbrev pub is_set : Option Json → Bool
is_set none = false
is_set (some v) = truthy v

pub with_id : String → Option String → Fields → Fields
unfolding with_field field_of
with_id uuid none item = item
with_id uuid (some prefix) item =
    if is_set (field_of "id" item)
    then item
    else with_field "id" (str (text_append prefix (text_append "_" uuid))) item

-- `_with_ids`
unfoldable pub with_ids : (ℕ → String) → List Json → List Json
unfolding with_id prefix_of
with_ids uuids [] = []
with_ids uuids (obj item ∷ items) =
    obj (with_id (uuids 0) (prefix_of item) item) ∷ with_ids (λ n. uuids (n + 1)) items
with_ids uuids (v ∷ items) = v ∷ with_ids (λ n. uuids (n + 1)) items

-- `response.get("output") or []`
unfoldable pub output_of : Fields → List Json
unfolding list_at
output_of response = elim (list_at "output" response) [ none ↦ [] | some xs ↦ xs ]

-- `{"response_id": response_id, "input": input_items, "output": ...}`
unfoldable pub entry_fields : String → List Json → List Json → Fields
entry_fields response_id input output =
    field "response_id" (str response_id)
      (field "input" (list_json input) (field "output" (list_json output) end))

-- `{"response": {**response, "output": []}, "log": ..., "depth": ...}`
unfoldable pub record_fields : Fields → Position → Fields
unfolding with_field
record_fields response p =
    field "response" (obj (with_field "output" (list_json []) response))
      (field "log" (str p.log) (field "depth" (int p.depth) end))

-- `taken and isinstance(taken[0], dict) and taken[0].get("response_id") == response_id`
unfoldable pub ours : String → List Json → Bool
unfolding field_of
ours response_id (obj d ∷ taken) = elim (bind (field_of "response_id" d) as_str) [
  | none ↦ false
  | some id ↦ str_eq id response_id
]
ours response_id _ = false

-- the first position of a log of the response's own
abbrev pub own : String → ℕ → Position
own response_id depth = record { log = response_id; depth = depth }

-- `{**entry, "base": parent}`
unfoldable pub forked : Fields → Position → Fields
unfolding with_field position_json
forked entry parent = with_field "base" (obj (position_json parent)) entry

-- `TERMINAL_STATUSES`
unfoldable pub terminal_status : Option Json → Bool
terminal_status (some (str s)) =
    str_eq s "completed" || (str_eq s "incomplete" || (str_eq s "failed" || str_eq s "cancelled"))
terminal_status _ = false

abbrev pub parent_json : Option Position → Json
parent_json none = null
parent_json (some p) = obj (position_json p)

module _ (store : StateStore Json) (ttl : Option ℕ) (identity : String) where
  open store use {State, set, delete, append_and_set, read_range}

  -- `append_and_set_async` of an entry and its record at a position
  unfoldable pub put_turn : String → Fields → Position → Fields → Bool → Action State Bool
  put_turn response_id entry p response if_exists =
      append_and_set (log_key identity p.log) p.depth (obj entry) (key identity response_id)
        (document (obj (record_fields response p))) ttl if_exists

  unfoldable pub after_refusal :
      String → Fields → Position → Fields → Bool → List Json → Action State (Unit {0})
  after_refusal response_id entry parent response if_exists taken =
      if ours response_id taken then pure tt else (do
        put_turn response_id (forked entry parent) (own response_id (suc parent.depth)) response
            if_exists
        pure tt)

  -- `_store_turn`
  unfoldable pub store_turn :
      String → Fields → Option Position → List Json → Bool → Action State (Unit {0})
  store_turn response_id response none input if_exists = do
    put_turn response_id (entry_fields response_id input (output_of response)) (own response_id 1)
        response if_exists
    pure tt
  store_turn response_id response (some parent) input if_exists = do
    let entry = entry_fields response_id input (output_of response)
    accepted ←
        put_turn response_id entry (record { log = parent.log; depth = suc parent.depth }) response
          if_exists
    if accepted then pure tt else (do
      taken ← read_range (log_key identity parent.log) (suc parent.depth) (some (suc parent.depth))
      after_refusal response_id entry parent response if_exists taken)

  -- `write_async`
  unfoldable pub write :
      (ℕ → String) → String → Fields → Option Position → List Json → Action State (Unit {0})
  write uuids response_id response parent input =
      store_turn response_id response parent (with_ids uuids input) false

  -- `delete_async`
  unfoldable pub remove : String → Action State (Unit {0})
  remove response_id = delete (key identity response_id)

  -- `write_background`
  unfoldable pub write_background :
      (ℕ → String) → String → Fields → Option Position → List Json → Action State (Unit {0})
  unfolding position_json with_ids
  write_background uuids response_id response parent input =
      set (key identity response_id)
        (document (
          obj (
            field "response" (obj response) (
              field "parent" (parent_json parent)
                (field "input" (list_json (with_ids uuids input)) end)))))
        ttl

  -- the record of an `unparented` turn is a KeyError before anything is written
  unfoldable pub end_waiting : String → Fields → Turn → Action State (Unit {0})
  end_waiting response_id response (finished p) = pure tt
  end_waiting response_id response misplaced = pure tt
  end_waiting response_id response unparented = pure tt
  end_waiting response_id response (waiting input parent) =
      store_turn response_id response parent input true

  unfoldable pub end_turn : String → Fields → Option Record → Action State (Unit {0})
  end_turn response_id response none = pure tt
  end_turn response_id response (some r) =
      if terminal_status (field_of "status" r.response)
      then pure tt
      else end_waiting response_id response r.turn

  -- `write_terminal_if_not_terminal`
  unfoldable pub write_terminal_if_not_terminal : String → Fields → Action State (Unit {0})
  write_terminal_if_not_terminal response_id response = do
    found ← read_record store ttl identity response_id
    end_turn response_id response found
