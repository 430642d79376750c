-- ===== src/Responses/Chat.antt =====
-- modelship/openai/protocol/responses/adapter.py: `responses_request_to_chat`. A field that may be `None`
-- and is only copied is a JSON value, `null` where it is `None`. The result is the keyword arguments of
-- `ChatCompletionRequest`, whose own validation is pydantic's.
pub mod Turns
use modelship.Prelude.{
  ℕ, zero, suc, ◌+◌, String, ◌≡◌, Bool, true, false, not, Option, none, some, List, [], ◌∷◌, ◌++◌,
  map, str_eq, if◌then◌else◌,
}
use modelship.Json.{
  Json, Fields, null, bool, str, obj, end, field, field_of, with_field, list_json, present,
}
use modelship.Responses.Result.{Result, returned, raised, unsupported, ◌>>=◌}
use modelship.Responses.Content.{type_in}
use modelship.Responses.Messages.{
  Message, system, said, called, answered, message_json, messages_from_input,
}
use modelship.Responses.Tools.{tools_to_chat, tool_choice_to_chat, response_format_from_text}

-- `ResponsesRequest`
pub record Request : Type 0 where
  pub input : Json
  pub model : Json
  pub instructions : Option String
  pub max_output_tokens : Json
  pub temperature : Json
  pub top_p : Json
  pub tools : List Fields
  pub tool_choice : Option Json
  pub parallel_tool_calls : Json
  pub text : Option Fields
  pub reasoning : Option Fields
  pub stream : Bool
  pub metadata : Option Fields
  pub prompt_cache_key : Json
  pub user : Json
  pub store : Option Bool
  pub previous_response_id : Json
  pub background : Bool
  pub max_tool_calls : Json

-- `m["role"] == "user"`
abbrev pub is_user : Message → Bool
is_user (said role content r) = type_in ("user" ∷ []) (some role)
is_user _ = false

-- `message.pop("reasoning", None)`
abbrev pub strip : Message → Message
strip (said role content r) = said role content none
strip (called id name arguments r) = called id name arguments none
strip m = m

-- the greatest index of a user message, counted from `i`, or else `last`
unfoldable pub last_user : ℕ → ℕ → List Message → ℕ
last_user i last [] = last
last_user i last (m ∷ ms) = last_user (i + 1) (if is_user m then i else last) ms

-- the loop over `messages[:n]`
unfoldable pub strip_first : ℕ → List Message → List Message
strip_first zero ms = ms
strip_first (suc n) [] = []
strip_first (suc n) (m ∷ ms) = strip m ∷ strip_first n ms

-- the messages when `context` is `current_turn`
unfoldable pub current_turn : List Message → List Message
unfolding strip_first last_user
current_turn ms = strip_first (last_user 0 0 ms) ms

abbrev pub reasoning_of : Option Fields → Fields
reasoning_of none = end
reasoning_of (some d) = d

-- `context in (None, "auto", "current_turn", "all_turns")`
abbrev pub known_context : Option Json → Bool
known_context none = true
known_context v = type_in ("auto" ∷ "current_turn" ∷ "all_turns" ∷ []) v

-- `d[k] = v` if `v` is not `None`
abbrev pub set_some : String → Option Json → Fields → Fields
set_some k none d = d
set_some k (some v) d = field k v d

abbrev pub given : Json → Option Json
given v = present (some v)

abbrev pub tools_json : Option (List Json) → Option Json
tools_json none = none
tools_json (some ts) = some (list_json ts)

abbrev pub choice_is_none : Option Json → Bool
choice_is_none v = type_in ("none" ∷ []) v

-- the arguments, in the order in which the code sets them
unfoldable pub chat_arguments :
    Request → List Message → Option (List Json) → Option Json → Option Json → Option Json → Fields
unfolding message_json
chat_arguments request messages tools choice format effort = field "model" request.model (
    field "messages" (list_json (map (λ m. obj (message_json m)) messages)) (
      field "stream" (bool request.stream) (
        set_some "stream_options"
          (if request.stream then some (obj (field "include_usage" (bool true) end)) else none)
          (set_some "max_completion_tokens" (given request.max_output_tokens) (
            set_some "temperature" (given request.temperature) (
              set_some "top_p" (given request.top_p) (
                set_some "parallel_tool_calls" (given request.parallel_tool_calls) (
                  set_some "user" (given request.user) (
                    set_some "tools"
                      (if choice_is_none request.tool_choice then none else tools_json tools)
                      (set_some "tool_choice" choice (
                        set_some "response_format" format
                          (set_some "reasoning_effort" effort end))))))))))))

module _ (decrypt : Json → Option (List Json)) where
  unfoldable pub chat_messages : Request → Option Json → Result (List Message)
  chat_messages request context =
      messages_from_input decrypt request.input request.instructions >>= λ ms.
      returned (if type_in ("current_turn" ∷ []) context then current_turn ms else ms)

  unfoldable pub arguments_for : Request → Option Json → Option Json → Result Fields
  arguments_for request context effort = chat_messages request context >>= λ ms.
      tools_to_chat request.tools >>= λ tools. tool_choice_to_chat request.tool_choice >>= λ choice.
      response_format_from_text request.text >>= λ format.
      returned (chat_arguments request ms tools choice format effort)

  -- `responses_request_to_chat`
  unfoldable pub responses_request_to_chat : Request → Result Fields
  unfolding field_of
  responses_request_to_chat request =
      let reasoning = reasoning_of request.reasoning in
      let context = present (field_of "context" reasoning) in
      if known_context context
      then arguments_for request context (present (field_of "effort" reasoning))
      else raised
          (unsupported "reasoning.context must be one of 'auto', 'current_turn', 'all_turns'")
