-- ===== src/Responses/Tests.antt =====
-- The translations at concrete inputs.
use modelship.Prelude.{All, ◌≡◌, refl, none, some, Option, List, [], ◌∷◌, ◌++◌, map}
use modelship.Json.{Json, Fields, str, obj, end, field, list_json, of_list, to_list, field_of}
use modelship.Responses.Result.{returned, raised, unsupported}
use modelship.Responses.Content.{text_of, content_to_chat}
use modelship.Responses.Messages.{
  Message, system, said, called, answered, message_json, on_call, mcp_content, on_mcp_call,
  on_output, first_text, on_reasoning, any_compaction, on_decoded, on_message, kind_of,
  on_compaction, on_item, step, walk, items_with, inner_items, messages_from_items,
  messages_from_input,
}
use modelship.Responses.Messages.Roles.{SystemFirst, messages_from_input-SystemFirst}
use modelship.Responses.Chat.{current_turn}
use modelship.Responses.Chat.Turns.{current_turn-without_field}
use modelship.Responses.Tools.{without_field, echo_tools, Scrubbed, echo_tools-Scrubbed}
use modelship.Responses.Messages.Calls.{Answered, messages_from_input-Answered}

messages : Unit {0}
unfolding text_of content_to_chat on_call mcp_content on_mcp_call on_output first_text on_reasoning
    any_compaction on_decoded on_message kind_of on_compaction on_item step walk items_with
    inner_items messages_from_items messages_from_input list_json of_list to_list field_of
messages = tt

-- a compacted list of one system item
abbrev decrypt : Json → Option (List Json)
decrypt blob = some (obj (field "role" (str "system") (field "content" (str "Be brief.") end)) ∷ [])

abbrev call : Json
call = obj (
    field "type" (str "function_call")
      (field "call_id" (str "c1") (field "name" (str "add") (field "arguments" (str "{}") end))))

abbrev output : Json
output = obj (
    field "type" (str "function_call_output")
      (field "call_id" (str "c1") (field "output" (str "3") end)))

abbrev thought : Json
thought = obj (field "type" (str "reasoning") (field "content" (str "Sum.") end))

abbrev blob : Json
blob = obj (field "type" (str "compaction") (field "encrypted_content" (str "x") end))

abbrev input : Json
input = list_json (thought ∷ call ∷ output ∷ blob ∷ [])

abbrev chat : List Message
chat =
    system "Hi.\n\nBe brief."
    ∷ called "c1" "add" (str "{}") (some "Sum.")
    ∷ answered "c1" (some "3")
    ∷ []

chat_messages : messages_from_input decrypt input (some "Hi.") ≡ returned chat
unfolding messages
chat_messages = refl

orphaned :
    messages_from_input decrypt (list_json (output ∷ call ∷ [])) none
    ≡ raised (unsupported "function_call_output references unknown call_id")
unfolding messages
orphaned = refl

messages_from_input-SystemFirst_example : SystemFirst chat
messages_from_input-SystemFirst_example =
    messages_from_input-SystemFirst decrypt input (some "Hi.") chat chat_messages

messages_from_input-Answered_example : Answered [] chat
messages_from_input-Answered_example =
    messages_from_input-Answered decrypt input (some "Hi.") chat chat_messages

abbrev server : Fields
server = field "type" (str "mcp") (field "authorization" (str "secret") end)

echo_tools-Scrubbed_example : All Scrubbed (echo_tools (server ∷ []))
echo_tools-Scrubbed_example = echo_tools-Scrubbed (server ∷ [])

abbrev question : Message
question = said (str "user") (str "Why?") none

abbrev answer : Message
answer = said (str "assistant") (str "So.") (some "Sum.")

-- a tool call that carries its reasoning
abbrev looked_up : Message
looked_up = called "c1" "look" (str "{}") (some "Sum.")

current_turn-without_field_example :
    map message_json (current_turn (looked_up ∷ answer ∷ question ∷ answer ∷ []))
    ≡ map (λ m. without_field "reasoning" (message_json m)) (looked_up ∷ answer ∷ [])
      ++ map message_json (question ∷ answer ∷ [])
current_turn-without_field_example =
    current_turn-without_field (looked_up ∷ answer ∷ []) (answer ∷ []) question refl refl
