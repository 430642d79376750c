-- ===== src/Responses/Messages.antt =====
-- modelship/openai/protocol/responses/adapter.py: the chat messages of a Responses input. Call ids and
-- names are texts, as in the API's schema: any other value passes for a missing one. `decrypt` stands for
-- `compaction_crypto.decrypt_items`, with nothing for an `InvalidToken`.
pub mod Steps
pub mod Roles
pub mod Calls
use Prim.Native.String.{◌++◌ as text_append}
use modelship.Prelude.{
  String, Bool, true, false, ◌&&◌, ◌||◌, not, Option, none, some, List, [], ◌∷◌, ◌++◌, str_eq,
  if◌then◌else◌,
}
use modelship.Json.{
  Json, Fields, null, str, arr, obj, end, field, field_of, list_json, to_list, truthy, present,
}
use modelship.Responses.Result.{Result, returned, raised, unsupported, python_error, ◌>>=◌}
use modelship.Responses.Content.{text_of, content_to_chat, type_in, text_json, some_text}

-- a chat message; `Option String` is the reasoning that it carries
pub data Message : Type 0 where
  system : String → Message
  said : Json → Json → Option String → Message
  called : String → String → Json → Option String → Message
  answered : String → Option String → Message

abbrev pub reasoning_json : Option String → Fields
reasoning_json none = end
reasoning_json (some t) = field "reasoning" (str t) end

unfoldable pub message_json : Message → Fields
unfolding list_json
message_json (system t) = field "role" (str "system") (field "content" (str t) end)
message_json (said role content reasoning) =
    field "role" role (field "content" content (reasoning_json reasoning))
message_json (called id name arguments reasoning) = field "role" (str "assistant") (
    field "content" null (
      field "tool_calls"
        (list_json (
          obj (
            field "id" (str id) (
              field "type" (str "function") (
                field "function" (obj (field "name" (str name) (field "arguments" arguments end)))
                  end)))
          ∷ []))
        (reasoning_json reasoning)))
message_json (answered id content) =
    field "role" (str "tool")
      (field "tool_call_id" (str id) (field "content" (text_json content) end))

-- the loop's variables; `system` is the caller's list of system parts
pub record Walk : Type 0 where
  pub messages : List Message
  pub seen : List String
  pub carried : Option String
  pub system : List String

abbrev pub mem : String → List String → Bool
mem k [] = false
mem k (j ∷ js) = str_eq j k || mem k js

-- a truthy text
abbrev pub named : Option Json → Option String
named (some (str t)) = if str_eq t "" then none else some t
named _ = none

abbrev pub or_named : Option String → Option String → Option String
or_named none b = b
or_named (some a) b = some a

abbrev pub arguments_of : Option Json → Json
arguments_of none = str ""
arguments_of (some v) = v

abbrev pub add : Message → Walk → Walk
add m w = record w { messages = w.messages ++ m ∷ [] }

-- `function_call`
unfoldable pub on_call : Option String → Option String → Json → Option String → Walk → Result Walk
on_call (some id) (some name) arguments reasoning w =
    returned (add (called id name arguments reasoning) (record w { seen = id ∷ w.seen }))
on_call _ _ arguments reasoning w =
    raised (unsupported "function_call input items require both 'call_id' (or 'id') and 'name'.")

-- the result of an `mcp_call`: its error, or else its output
unfoldable pub mcp_content : Option Json → Option Json → Result (Option String)
unfolding text_of
mcp_content none none =
    raised (unsupported "mcp_call input items require one of 'output' or 'error'.")
mcp_content (some e) output = text_of (some e)
mcp_content none (some o) = text_of (some o)

-- `mcp_call`
unfoldable pub on_mcp_call :
    Option String
    → Option String
    → Json
    → Option Json
    → Option Json
    → Option String
    → Walk
    → Result Walk
on_mcp_call (some id) (some name) arguments error output reasoning w =
    mcp_content error output >>= λ content.
    returned (add (answered id content) (add (called id name arguments reasoning) w))
on_mcp_call _ _ arguments error output reasoning w =
    raised (unsupported "mcp_call input items require both 'id' and 'name'.")

-- `function_call_output`
unfoldable pub on_output : Option String → Option Json → Walk → Result Walk
on_output none output w = raised (unsupported "function_call_output input items require 'call_id'.")
on_output (some id) output w = text_of output >>= λ content.
    (if mem id w.seen
      then returned (add (answered id content) w)
      else raised (unsupported "function_call_output references unknown call_id"))

-- `a or b` on two texts, the second read only if needed
unfoldable pub first_text : Option Json → Option Json → Result (Option String)
first_text content summary =
    text_of content >>= λ t. (if some_text t then returned t else text_of summary)

-- `reasoning`
unfoldable pub on_reasoning : Option Json → Option Json → Walk → Result Walk
on_reasoning content summary w = first_text content summary >>= λ t.
    returned (if some_text t then record w { carried = t } else w)

abbrev pub is_compaction : Json → Bool
is_compaction (obj d) = type_in ("compaction" ∷ []) (field_of "type" d)
is_compaction _ = false

unfoldable pub any_compaction : List Json → Bool
unfolding field_of
any_compaction [] = false
any_compaction (d ∷ ds) = is_compaction d || any_compaction ds

abbrev pub is_truthy : Option Json → Bool
is_truthy none = false
is_truthy (some v) = truthy v

abbrev pub or_null : Option Json → Json
or_null none = null
or_null (some v) = v

abbrev pub Walked : Type 0
Walked = List Message × List String

-- the messages that an inner list of items adds, and the system parts after it
abbrev pub extended : Walk → Walked → Walk
extended w (ms, parts) = record w { messages = w.messages ++ ms; system = parts }

unfoldable pub on_decoded :
    (List Json → List String → Result Walked) → Option (List Json) → Walk → Result Walk
unfolding any_compaction
on_decoded nested none w = raised (unsupported "compaction item could not be decoded.")
on_decoded nested (some items) w =
    if any_compaction items
    then raised (unsupported "compaction items cannot nest another compaction item.")
    else nested items w.system >>= λ r. returned (extended w r)

-- `role in ("system", "developer")`
abbrev pub is_system : Json → Bool
is_system role = type_in ("system" ∷ "developer" ∷ []) (some role)

abbrev pub is_assistant : Json → Bool
is_assistant role = type_in ("assistant" ∷ []) (some role)

abbrev pub with_part : Option String → Walk → Walk
with_part none w = w
with_part (some t) w = if str_eq t "" then w else record w { system = w.system ++ t ∷ [] }

-- `message`
unfoldable pub on_message : Json → Option Json → Option String → Walk → Result Walk
on_message role content reasoning w =
    if is_system role
    then (text_of content >>= λ t. returned (with_part t w))
    else content_to_chat content >>= λ c.
        returned (add (said role c (if is_assistant role then reasoning else none)) w)

abbrev pub role_of : Option Json → Json
role_of none = str "user"
role_of (some v) = v

abbrev pub is_some {ℓ} : {A : Type ℓ} → Option A → Bool
is_some none = false
is_some (some a) = true

-- the branch that an item takes
pub data Kind : Type 0 where
  function_call mcp_call skipped function_call_output reasoning compaction message unknown : Kind

unfoldable pub kind_of : Fields → Kind
unfolding field_of
kind_of item =
    let itype = field_of "type" item in
    if type_in ("function_call" ∷ []) itype
    then function_call
    else if type_in ("mcp_call" ∷ []) itype
    then mcp_call
    else if type_in ("mcp_list_tools" ∷ "mcp_approval_request" ∷ "mcp_approval_response" ∷ []) itype
    then skipped
    else if type_in ("function_call_output" ∷ []) itype
    then function_call_output
    else if type_in ("reasoning" ∷ []) itype
    then reasoning
    else if type_in ("compaction" ∷ []) itype
    then compaction
    else if type_in ("message" ∷ []) itype || is_some (field_of "role" item)
    then message
    else unknown

module _ (decrypt : Json → Option (List Json)) where
  unfoldable pub on_compaction :
      (List Json → List String → Result Walked) → Option Json → Walk → Result Walk
  on_compaction nested content w =
      if is_truthy content
      then on_decoded nested (decrypt (or_null content)) w
      else raised (unsupported "compaction input items require 'encrypted_content'.")

  -- one round of the loop, the reasoning carried so far taken out of `w`
  unfoldable pub on_item :
      (List Json → List String → Result Walked) → Kind → Fields → Option String → Walk → Result Walk
  unfolding field_of
  on_item nested function_call item carried w =
      on_call (or_named (named (field_of "call_id" item)) (named (field_of "id" item)))
        (named (field_of "name" item)) (arguments_of (field_of "arguments" item)) carried w
  on_item nested mcp_call item carried w =
      on_mcp_call (named (field_of "id" item)) (named (field_of "name" item))
        (arguments_of (field_of "arguments" item)) (present (field_of "error" item))
        (present (field_of "output" item)) carried w
  on_item nested skipped item carried w = returned w
  on_item nested function_call_output item carried w =
      on_output (named (field_of "call_id" item)) (field_of "output" item) w
  on_item nested reasoning item carried w =
      on_reasoning (field_of "content" item) (field_of "summary" item) w
  on_item nested compaction item carried w =
      on_compaction nested (field_of "encrypted_content" item) w
  on_item nested message item carried w =
      on_message (role_of (field_of "role" item)) (field_of "content" item) carried w
  on_item nested unknown item carried w = raised (unsupported "unsupported input item type")

  unfoldable pub step : (List Json → List String → Result Walked) → Json → Walk → Result Walk
  unfolding on_item kind_of
  step nested (obj item) w =
      on_item nested (kind_of item) item w.carried (record w { carried = none })
  step nested v w = raised python_error

  unfoldable pub walk : (List Json → List String → Result Walked) → List Json → Walk → Result Walk
  walk nested [] w = returned w
  walk nested (item ∷ items) w = step nested item w >>= walk nested items

  -- the loop of `_messages_from_items` over a list
  unfoldable pub items_with :
      (List Json → List String → Result Walked) → List Json → List String → Result Walked
  unfolding walk
  items_with nested items parts =
      walk nested items (record { messages = []; seen = []; carried = none; system = parts })
      >>= λ w. returned (w.messages, w.system)

  -- the items of a compaction, which hold no compaction: the call is made at most one deep
  unfoldable pub inner_items : List Json → List String → Result Walked
  inner_items = items_with λ items parts. raised python_error

  unfoldable pub messages_from_items : Json → List String → Result Walked
  unfolding inner_items items_with
  messages_from_items (str t) parts = returned (said (str "user") (str t) none ∷ [], parts)
  messages_from_items (arr items) parts = items_with inner_items (to_list items) parts
  messages_from_items v parts = raised python_error

  abbrev pub joined_parts : List String → String
  joined_parts [] = ""
  joined_parts (t ∷ []) = t
  joined_parts (t ∷ u ∷ ts) = text_append t (text_append "\n\n" (joined_parts (u ∷ ts)))

  abbrev pub with_system : Walked → List Message
  with_system (ms, []) = ms
  with_system (ms, part ∷ parts) = system (joined_parts (part ∷ parts)) ∷ ms

  abbrev pub first_parts : Option String → List String
  first_parts none = []
  first_parts (some t) = if str_eq t "" then [] else t ∷ []

  -- `messages_from_input`
  unfoldable pub messages_from_input : Json → Option String → Result (List Message)
  unfolding messages_from_items
  messages_from_input input instructions =
      messages_from_items input (first_parts instructions) >>= λ r. returned (with_system r)
