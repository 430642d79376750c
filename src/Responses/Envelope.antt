-- ===== src/Responses/Envelope.antt =====
-- modelship/openai/protocol/responses/adapter.py: the response object, and what goes into it. `one` and
-- `nought` stand for the floats 1.0 and 0.0; `id` and `now` for the id and the time that a new
-- `ResponseObject` takes when it is given none. The result is the object's JSON dump.
use modelship.Prelude.{
  ℕ, String, Bool, true, false, Option, none, some, List, map, str_eq, if◌then◌else◌,
}
use modelship.Json.{Json, Fields, null, bool, int, str, obj, end, field, list_json, truthy}
use modelship.Responses.Tools.{echo_tools}
use modelship.Responses.Chat.{Request}

-- `UsageInfo`; the details are `None` where they are missing, as are the numbers in them
pub record Usage : Type 0 where
  pub prompt_tokens : ℕ
  pub total_tokens : ℕ
  pub completion_tokens : Option ℕ
  pub cached_tokens : Option (Option ℕ)
  pub reasoning_tokens : Option (Option ℕ)

abbrev pub or_zero : Option ℕ → ℕ
or_zero none = 0
or_zero (some n) = n

abbrev pub detail : Option (Option ℕ) → ℕ
detail none = 0
detail (some n) = or_zero n

-- `_usage_from_chat`
unfoldable pub usage_from_chat : Usage → Fields
usage_from_chat usage = field "input_tokens" (int usage.prompt_tokens) (
    field "output_tokens" (int (or_zero usage.completion_tokens)) (
      field "total_tokens" (int usage.total_tokens) (
        field "input_tokens_details"
          (obj (field "cached_tokens" (int (detail usage.cached_tokens)) end))
          (field "output_tokens_details"
            (obj (field "reasoning_tokens" (int (detail usage.reasoning_tokens)) end)) end))))

-- `_status_for`: the status, and the reason of an incomplete response
unfoldable pub status_for : Option String → String × Option String
status_for none = ("completed", none)
status_for (some reason) =
    if str_eq reason "length"
    then ("incomplete", some "max_output_tokens")
    else if str_eq reason "content_filter"
    then ("incomplete", some "content_filter")
    else ("completed", none)

abbrev pub reason_json : Option String → Json
reason_json none = null
reason_json (some r) = obj (field "reason" (str r) end)

abbrev pub text_or_null : Option String → Json
text_or_null none = null
text_or_null (some t) = str t

abbrev pub dict_or : Json → Option Fields → Json
dict_or v none = v
dict_or v (some end) = v
dict_or v (some (field k w d)) = obj (field k w d)

abbrev pub dict_or_null : Option Fields → Json
dict_or_null none = null
dict_or_null (some d) = obj d

abbrev pub json_or : Json → Json → Json
json_or v null = v
json_or v w = w

abbrev pub choice_or_auto : Option Json → Json
choice_or_auto none = str "auto"
choice_or_auto (some v) = json_or (str "auto") v

-- `model or request.model or ""`
abbrev pub model_or : String → Json → Json
model_or model requested =
    if str_eq model "" then (if truthy requested then requested else str "") else str model

abbrev pub not_false : Option Bool → Bool
not_false (some false) = false
not_false _ = true

-- what varies between the envelopes of one request
pub record Outcome : Type 0 where
  pub status : String
  pub output : List Json
  pub usage : Json
  pub incomplete : Json
  pub completed_at : Json
  pub error : Json

module _ (one nought : Json) where
  -- `build_response_object`
  unfoldable pub build_response_object : Request → Outcome → String → String → ℕ → Bool → Fields
  unfolding echo_tools list_json
  build_response_object request outcome model id created_at background = field "id" (str id) (
      field "object" (str "response") (
        field "created_at" (int created_at) (
          field "completed_at" outcome.completed_at (
            field "status" (str outcome.status) (
              field "model" (model_or model request.model) (
                field "output" (list_json outcome.output)
                  (field "usage" outcome.usage (settings request outcome background))))))))
    where
      ending : Request → Outcome → Bool → Fields
      ending request outcome background = field "truncation" (str "disabled") (
          field "background" (bool background) (
            field "service_tier" (str "default") (
              field "safety_identifier" null (
                field "prompt_cache_key" request.prompt_cache_key (
                  field "metadata" (dict_or (obj end) request.metadata) (
                    field "previous_response_id" request.previous_response_id (
                      field "store" (bool (not_false request.store)) (
                        field "error" outcome.error
                          (field "incomplete_details" outcome.incomplete end)))))))))

      settings : Request → Outcome → Bool → Fields
      settings request outcome background =
          field "instructions" (text_or_null request.instructions) (
            field "max_output_tokens" request.max_output_tokens (
              field "max_tool_calls" null (
                field "temperature" (json_or one request.temperature) (
                  field "top_p" (json_or one request.top_p) (
                    field "top_logprobs" (int 0) (
                      field "presence_penalty" nought (
                        field "frequency_penalty" nought (
                          field "tools" (list_json (map obj (echo_tools request.tools))) (
                            field "tool_choice" (choice_or_auto request.tool_choice) (
                              field "parallel_tool_calls"
                                (json_or (bool true) request.parallel_tool_calls)
                                (field "text"
                                  (dict_or
                                    (obj (field "format" (obj (field "type" (str "text") end)) end))
                                    request.text)
                                  (field "reasoning" (dict_or_null request.reasoning)
                                    (ending request outcome background)))))))))))))
