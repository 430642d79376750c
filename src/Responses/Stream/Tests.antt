-- ===== src/Responses/Stream/Tests.antt =====
-- The events of a response at concrete inputs.
use modelship.Prelude.{String, ◌≡◌, refl, true, false, none, some, List, [], ◌∷◌, map}
use modelship.Json.{Json, Fields, null, str, end, field, field_of}
use modelship.Responses.Stream.Frames.{
  event, other, frame, passed, frame_sse, framed, frame_sse-map,
}
use modelship.Responses.Chat.{Request}
use modelship.Responses.Stream.{Translator, World, emit}
use modelship.Responses.Stream.Channels.{ToolDelta}
use modelship.Responses.Stream.Translate.{Choice, Chunk, finish, fail, streamed}
use mathlib.Core.List.{Perm}
use modelship.Responses.Stream.Reads.{upto}
use modelship.Responses.Stream.Items.{opened, closed}
use modelship.Responses.Stream.Items.Closing.{finish-Perm}
use modelship.Responses.Stream.Numbers.{Numbered, finish-Numbered, fail-Numbered}
use modelship.Responses.Stream.Texts.{Agreed, finish-Agreed}

abbrev world : World
world = record { one = str "1.0"; nought = str "0.0"; uuid = λ n. "abc"; clock = λ n. 7 }

abbrev request : Request
request = record {
  input = str "Add.";
  model = str "qwen";
  instructions = none;
  max_output_tokens = null;
  temperature = null;
  top_p = null;
  tools = [];
  tool_choice = none;
  parallel_tool_calls = null;
  text = none;
  reasoning = none;
  stream = true;
  metadata = none;
  prompt_cache_key = null;
  user = null;
  store = none;
  previous_response_id = null;
  background = false;
  max_tool_calls = null;
}

abbrev call : ToolDelta
call = record { index = 0; id = some "c1"; name = some "add"; arguments = some "{}" }

abbrev chunk : Choice → Chunk
chunk choice = record { model = ""; usage = none; choices = choice ∷ [] }

-- reasoning, a word, a call, another word
abbrev chunks : List Chunk
chunks =
    chunk (record {
      reasoning = some "Sum.";
      content = some "So ";
      tool_calls = [];
      finish_reason = none;
    })
    ∷ chunk (record {
      reasoning = none;
      content = some "three.";
      tool_calls = call ∷ [];
      finish_reason = some "stop";
    })
    ∷ []

finish-Numbered_example : Numbered (finish world (streamed world request "resp_1" chunks))
finish-Numbered_example = finish-Numbered world request "resp_1" chunks

fail-Numbered_example :
    Numbered (fail world "out of memory" "server_error" (streamed world request "resp_1" chunks))
fail-Numbered_example = fail-Numbered world request "resp_1" chunks "out of memory" "server_error"

finish-Agreed_example : Agreed (finish world (streamed world request "resp_1" chunks)).sent
finish-Agreed_example = finish-Agreed world request "resp_1" chunks

abbrev ended : Translator
ended = finish world (streamed world request "resp_1" chunks)

kinds :
    map (λ e. e.kind) ended.sent
    ≡ "response.created" ∷ "response.in_progress" ∷ "response.output_item.added"
      ∷ "response.reasoning_summary_part.added" ∷ "response.reasoning_summary_text.delta"
      ∷ "response.output_item.added" ∷ "response.content_part.added" ∷ "response.output_text.delta"
      ∷ "response.output_text.delta" ∷ "response.output_item.added"
      ∷ "response.function_call_arguments.delta" ∷ "response.reasoning_summary_text.done"
      ∷ "response.reasoning_summary_part.done" ∷ "response.output_item.done"
      ∷ "response.output_text.done" ∷ "response.content_part.done" ∷ "response.output_item.done"
      ∷ "response.function_call_arguments.done" ∷ "response.output_item.done" ∷ "response.completed"
      ∷ []
unfolding finish streamed emit
kinds = refl

abbrev dumps : Json → String
dumps _ = "{}"

abbrev created : Fields
created = field "type" (str "response.created") end

frame_sse_example :
    frame_sse dumps (event created ∷ other null ∷ [])
    ≡ framed dumps (event created) ∷ passed null ∷ frame "data: [DONE]\n\n" ∷ []
frame_sse_example = frame_sse-map dumps (event created ∷ other null ∷ [])

finish-Perm_example :
    (opened (finish world (streamed world request "resp_1" chunks)).sent
      ≡ upto (streamed world request "resp_1" chunks).next_oi)
    × Perm
        (closed (finish world (streamed world request "resp_1" chunks)).sent)
        (opened (finish world (streamed world request "resp_1" chunks)).sent)
finish-Perm_example = finish-Perm world request "resp_1" chunks

opened_example : opened ended.sent ≡ 0 ∷ 1 ∷ 2 ∷ []
unfolding finish streamed emit field_of
opened_example = refl
