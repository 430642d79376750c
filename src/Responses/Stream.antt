-- ===== src/Responses/Stream.antt =====
-- modelship/openai/protocol/responses/streaming.py: the state of `ResponsesStreamTranslator` and the
-- helpers that make its events. A generator's events are the list `sent` in the state: the generators
-- run to their ends here, one after another.
pub mod Channels
pub mod Translate
pub mod Frames
pub mod Walks
pub mod Reads
pub mod Numbers
pub mod Quiet
pub mod Texts
pub mod Items
mod Tests
use Prim.Native.String.{◌++◌ as text_append}
use modelship.Prelude.{
  ℕ, suc, String, Bool, true, false, Option, none, some, List, [], ◌∷◌, ◌++◌, map, ◌==◌, leb,
  str_eq, if◌then◌else◌,
}
use modelship.Json.{Json, Fields, null, str, int, arr, nil, obj, end, field, list_json}
use modelship.Responses.Chat.{Request}
use modelship.Responses.Envelope.{Usage, Outcome, build_response_object}

-- an event dict: `type`, `sequence_number`, and what the payload adds
pub record Event : Type 0 where
  pub kind : String
  pub sequence_number : ℕ
  pub payload : Fields

-- the reasoning item, with `_reasoning_oi` and `_reasoning_text`
pub record Reasoning : Type 0 where
  pub id : String
  pub summary : List String
  pub output_index : ℕ
  pub text : String

-- the message item, with `_message_oi` and `_message_text`
pub record Answer : Type 0 where
  pub id : String
  pub status : String
  pub content : List String
  pub output_index : ℕ
  pub text : String

-- a tool call's item under its index in the chat stream, with `_tool_args` and `_tool_oi`
pub record Tool : Type 0 where
  pub index : ℕ
  pub id : String
  pub call_id : String
  pub name : String
  pub arguments : String
  pub status : String
  pub args : String
  pub output_index : ℕ

-- `ResponsesStreamTranslator`; `minted` counts the calls of `random_uuid`
pub record Translator : Type 0 where
  pub request : Request
  pub response_id : String
  pub created_at : Option ℕ
  pub model : String
  pub seq : ℕ
  pub next_oi : ℕ
  pub usage : Option Usage
  pub finish_reason : Option String
  pub reasoning : Option Reasoning
  pub message : Option Answer
  pub tools : List Tool
  pub minted : ℕ
  pub sent : List Event

-- What Python gives: the floats 1.0 and 0.0 as JSON, what the calls of `random_uuid` return, and what
-- `int(time.time())` is when the event of a number is made.
pub record World : Type 0 where
  pub one : Json
  pub nought : Json
  pub uuid : ℕ → String
  pub clock : ℕ → ℕ

-- `_event`, with the `yield` of what it returns
unfoldable pub emit : String → Fields → Translator → Translator
emit kind payload t = record t {
  seq = suc t.seq;
  sent = t.sent ++ record { kind = kind; sequence_number = t.seq; payload = payload } ∷ [];
}

-- `_take_oi`, which returns the index that the state has before
unfoldable pub take_oi : Translator → Translator
take_oi t = record t { next_oi = suc t.next_oi }

-- the id that the next `random_uuid` makes, and the state after it
abbrev pub minted_id : World → String → Translator → String
minted_id world prefix t = text_append prefix (world.uuid t.minted)

unfoldable pub mint : Translator → Translator
mint t = record t { minted = suc t.minted }

abbrev pub summary_json : String → Json
summary_json text = obj (field "type" (str "summary_text") (field "text" (str text) end))

unfoldable pub part_json : String → Json
part_json text =
    obj (
      field "type" (str "output_text")
        (field "text" (str text) (field "annotations" (arr nil) end)))

-- the items' `model_dump`
unfoldable pub reasoning_json : Reasoning → Json
unfolding list_json
reasoning_json r = obj (
    field "type" (str "reasoning") (
      field "id" (str r.id)
        (field "summary" (list_json (map summary_json r.summary)) (field "content" (arr nil) end))))

unfoldable pub answer_json : Answer → Json
unfolding list_json part_json
answer_json m = obj (
    field "type" (str "message") (
      field "id" (str m.id) (
        field "role" (str "assistant") (
          field "status" (str m.status)
            (field "content" (list_json (map part_json m.content)) end)))))

unfoldable pub tool_json : Tool → Json
tool_json c = obj (
    field "type" (str "function_call") (
      field "id" (str c.id) (
        field "call_id" (str c.call_id) (
          field "name" (str c.name)
            (field "arguments" (str c.arguments) (field "status" (str c.status) end))))))

-- `sorted(self._tools)`, as an insertion sort of the calls by their index
unfoldable pub insert_tool : Tool → List Tool → List Tool
insert_tool c [] = c ∷ []
insert_tool c (d ∷ ds) = if leb c.index d.index then c ∷ d ∷ ds else d ∷ insert_tool c ds

unfoldable pub sorted_tools : List Tool → List Tool
unfolding insert_tool
sorted_tools [] = []
sorted_tools (c ∷ cs) = insert_tool c (sorted_tools cs)

-- `_collect_output`
abbrev pub reasoning_output : Option Reasoning → List Json
unfolding reasoning_json
reasoning_output none = []
reasoning_output (some r) = reasoning_json r ∷ []

abbrev pub answer_output : Option Answer → List Json
unfolding answer_json
answer_output none = []
answer_output (some m) = answer_json m ∷ []

unfoldable pub collect_output : Translator → List Json
unfolding tool_json sorted_tools
collect_output t =
    reasoning_output t.reasoning ++ answer_output t.message ++ map tool_json (sorted_tools t.tools)

abbrev pub or_now : ℕ → Option ℕ → ℕ
or_now now none = now
or_now now (some n) = n

-- `_envelope`
unfoldable pub envelope : World → String → Outcome → Translator → Translator
unfolding emit build_response_object
envelope world kind outcome t =
    let created_at = or_now (world.clock t.seq) t.created_at in
    let response =
      build_response_object world.one world.nought t.request outcome t.model t.response_id
        created_at t.request.background in
    emit kind (field "response" (obj response) end) (record t { created_at = some created_at })
