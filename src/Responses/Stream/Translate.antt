-- ===== src/Responses/Stream/Translate.antt =====
-- modelship/openai/protocol/responses/streaming.py: `start`, `process`, `finish` and `fail` of
-- `ResponsesStreamTranslator`.
use modelship.Prelude.{String, Option, none, some, List, [], ◌∷◌, str_eq, if◌then◌else◌, Bool}
use modelship.Json.{Json, null, str, int, obj, end, field}
use modelship.Responses.Chat.{Request}
use modelship.Responses.Envelope.{Usage, Outcome, usage_from_chat, status_for, reason_json}
use modelship.Responses.Stream.{Translator, World, collect_output, envelope}
use modelship.Responses.Stream.Channels.{
  ToolDelta, non_empty, on_reasoning, on_content, on_tool_call, close_reasoning, close_message,
  close_tools,
}

-- `ChatCompletionResponseStreamChoice`, with the fields of its delta
pub record Choice : Type 0 where
  pub reasoning : Option String
  pub content : Option String
  pub tool_calls : List ToolDelta
  pub finish_reason : Option String

-- `ChatCompletionStreamResponse`
pub record Chunk : Type 0 where
  pub model : String
  pub usage : Option Usage
  pub choices : List Choice

abbrev pub model_of : Json → String
model_of (str t) = t
model_of _ = ""

-- `__init__`, with the response's id
unfoldable pub translator : Request → String → Translator
translator request response_id = record {
  request = request;
  response_id = response_id;
  created_at = none;
  model = model_of request.model;
  seq = 0;
  next_oi = 0;
  usage = none;
  finish_reason = none;
  reasoning = none;
  message = none;
  tools = [];
  minted = 0;
  sent = [];
}

abbrev pub in_progress : Outcome
in_progress = record {
  status = "in_progress";
  output = [];
  usage = null;
  incomplete = null;
  completed_at = null;
  error = null;
}

-- `_close_all`
unfoldable pub close_all : Translator → Translator
unfolding close_reasoning close_message close_tools
close_all t = close_tools (close_message (close_reasoning t))

abbrev pub with_model : Option String → Translator → Translator
with_model none t = t
with_model (some model) t = record t { model = model }

abbrev pub with_usage : Option Usage → Translator → Translator
with_usage none t = t
with_usage (some usage) t = record t { usage = some usage }

abbrev pub with_reason : Option String → Translator → Translator
with_reason none t = t
with_reason (some reason) t = record t { finish_reason = some reason }

abbrev pub usage_json : Option Usage → Json
unfolding usage_from_chat
usage_json none = null
usage_json (some usage) = obj (usage_from_chat usage)

abbrev pub is_incomplete : String → Bool
is_incomplete status = str_eq status "incomplete"

abbrev pub terminal_kind : String → String
terminal_kind status = if is_incomplete status then "response.incomplete" else "response.completed"

abbrev pub failure : String → String → Json
failure message code = obj (field "code" (str code) (field "message" (str message) end))

module _ (world : World) where
  -- `start`
  unfoldable pub start : Translator → Translator
  unfolding envelope
  start t =
      envelope world "response.in_progress" in_progress
        (envelope world "response.created" in_progress t)

  unfoldable pub reasoning_part : Option String → Translator → Translator
  unfolding on_reasoning
  reasoning_part none t = t
  reasoning_part (some text) t = on_reasoning world text t

  unfoldable pub content_part : Option String → Translator → Translator
  unfolding on_content
  content_part none t = t
  content_part (some text) t = on_content world text t

  unfoldable pub tool_calls_part : List ToolDelta → Translator → Translator
  unfolding on_tool_call
  tool_calls_part [] t = t
  tool_calls_part (tc ∷ tcs) t = tool_calls_part tcs (on_tool_call world tc t)

  unfoldable pub on_choice : Choice → Translator → Translator
  unfolding reasoning_part content_part tool_calls_part
  on_choice choice t = with_reason choice.finish_reason (
      tool_calls_part choice.tool_calls
        (content_part (non_empty choice.content) (reasoning_part (non_empty choice.reasoning) t)))

  unfoldable pub on_choices : List Choice → Translator → Translator
  unfolding on_choice
  on_choices [] t = t
  on_choices (c ∷ cs) t = on_choices cs (on_choice c t)

  -- `process`
  unfoldable pub process : Chunk → Translator → Translator
  unfolding on_choices
  process chunk t =
      on_choices chunk.choices
        (with_usage chunk.usage (with_model (non_empty (some chunk.model)) t))

  unfoldable pub process_all : List Chunk → Translator → Translator
  unfolding process
  process_all [] t = t
  process_all (c ∷ cs) t = process_all cs (process c t)

  -- what `finish` does once the items are closed
  unfoldable pub finish_closed : Translator → Translator
  unfolding envelope collect_output status_for
  finish_closed t =
      let ending = status_for t.finish_reason in
      envelope world (terminal_kind ending.0)
        (record {
          status = ending.0;
          output = collect_output t;
          usage = usage_json t.usage;
          incomplete = reason_json ending.1;
          completed_at = if is_incomplete ending.0 then null else int (world.clock t.seq);
          error = null;
        })
        t

  -- `finish`
  unfoldable pub finish : Translator → Translator
  unfolding close_all finish_closed
  finish t = finish_closed (close_all t)

  -- `fail`
  unfoldable pub fail_closed : String → String → Translator → Translator
  unfolding envelope collect_output
  fail_closed message code t =
      envelope world "response.failed"
        (record {
          status = "failed";
          output = collect_output t;
          usage = null;
          incomplete = null;
          completed_at = null;
          error = failure message code;
        })
        t

  unfoldable pub fail : String → String → Translator → Translator
  unfolding close_all fail_closed
  fail message code t = fail_closed message code (close_all t)

  -- a request's events: `start`, then `process` of each chunk
  unfoldable pub streamed : Request → String → List Chunk → Translator
  unfolding start process_all translator
  streamed request response_id chunks = process_all chunks (start (translator request response_id))
