-- ===== src/Responses/Tools.antt =====
-- modelship/openai/protocol/responses/adapter.py: `_tools_to_chat`, `_tool_choice_to_chat`,
-- `_response_format_from_text` and `_echo_tools`. A tool is a dict, as in the request's schema.
use modelship.Prelude.{
  String, ◌≡◌, refl, ◌⊎◌, inl, inr, Bool, false, not, Option, none, some, List, [], ◌∷◌, str_eq,
  if◌then◌else◌, Bool-cases, arith, eq_iff, All,
}
use modelship.Json.{
  Json, Fields, null, str, obj, end, field, field_of, with_field, field_of-with_field, truthy,
}
use modelship.Responses.Result.{Result, returned, raised, unsupported, ◌>>=◌}
use modelship.Responses.Content.{type_in, or_null}

abbrev pub type_is : String → Fields → Bool
type_is t d = type_in (t ∷ []) (field_of "type" d)

-- `{k: d[k] for k in keys if k in d}`
unfoldable pub pick : List String → Fields → Fields
unfolding field_of
pick [] d = end
pick (k ∷ ks) d = elim (field_of k d) [ none ↦ pick ks d | some v ↦ field k v (pick ks d) ]

unfoldable pub function_tool : Fields → Json
unfolding pick
function_tool tool = obj (
    field "type" (str "function") (
      field "function" (obj (pick ("name" ∷ "description" ∷ "parameters" ∷ "strict" ∷ []) tool))
        end))

-- the loop of `_tools_to_chat`
unfoldable pub chat_tools : List Fields → Result (List Json)
unfolding function_tool field_of
chat_tools [] = returned []
chat_tools (tool ∷ tools) =
    if type_is "mcp" tool
    then raised
        (unsupported "mcp tools are handled at the gateway and must not reach the loader directly.")
    else if not (type_is "function" tool)
    then chat_tools tools
    else (chat_tools tools >>= λ out. returned (function_tool tool ∷ out))

abbrev pub or_none : List Json → Option (List Json)
or_none [] = none
or_none (t ∷ ts) = some (t ∷ ts)

-- `_tools_to_chat`; no tools and an empty list of them are the same to it
unfoldable pub tools_to_chat : List Fields → Result (Option (List Json))
unfolding chat_tools
tools_to_chat tools = chat_tools tools >>= λ out. returned (or_none out)

-- `_tool_choice_to_chat`
unfoldable pub tool_choice_to_chat : Option Json → Result (Option Json)
unfolding field_of
tool_choice_to_chat (some (obj d)) =
    if type_is "function" d
    then returned (
        some (
          obj (
            field "type" (str "function")
              (field "function" (obj (field "name" (or_null (field_of "name" d)) end)) end))))
    else raised (unsupported "tool_choice type is not supported.")
tool_choice_to_chat v = returned v

unfoldable pub format_of : Fields → Result (Option Json)
unfolding pick field_of
format_of fmt =
    if type_is "json_schema" fmt
    then returned (
        some (
          obj (
            field "type" (str "json_schema") (
              field "json_schema"
                (obj (pick ("name" ∷ "schema" ∷ "strict" ∷ "description" ∷ []) fmt)) end))))
    else if type_in ("json_object" ∷ "text" ∷ []) (field_of "type" fmt)
    then returned (some (obj (field "type" (or_null (field_of "type" fmt)) end)))
    else raised (unsupported "text.format type is not supported.")

unfoldable pub format_from : Json → Result (Option Json)
unfolding format_of
format_from (obj (field k v fmt)) = format_of (field k v fmt)
format_from v =
    if truthy v
    then raised (unsupported "text.format must be an object with a 'type' field")
    else returned none

-- `_response_format_from_text`
unfoldable pub response_format_from_text : Option Fields → Result (Option Json)
unfolding format_from field_of
response_format_from_text none = returned none
response_format_from_text (some text) = format_from (or_null (field_of "format" text))

-- `d.pop(k, None)`
unfoldable pub without_field : String → Fields → Fields
without_field k end = end
without_field k (field j v d) =
    let rest = without_field k d in if str_eq j k then rest else field j v rest

-- `{**tool, "headers": None}`, less `authorization`
unfoldable pub scrubbed : Fields → Fields
unfolding with_field without_field
scrubbed tool = without_field "authorization" (with_field "headers" null tool)

unfoldable pub echo_tool : Fields → Fields
unfolding scrubbed field_of
echo_tool tool =
    if type_is "mcp" tool
    then scrubbed tool
    else if not (type_is "function" tool)
    then tool
    else field "type" (str "function") (
        field "name" (or_null (field_of "name" tool)) (
          field "description" (or_null (field_of "description" tool)) (
            field "parameters" (or_null (field_of "parameters" tool))
              (field "strict" (or_null (field_of "strict" tool)) end))))

-- `_echo_tools`
unfoldable pub echo_tools : List Fields → List Fields
unfolding echo_tool
echo_tools [] = []
echo_tools (tool ∷ tools) = echo_tool tool ∷ echo_tools tools

field_of-without_field :
    (j k : String) (d : Fields)
    → field_of j (without_field k d) ≡ (if str_eq k j then none else field_of j d)
unfolding field_of without_field
field_of-without_field j k end = ground arith
field_of-without_field j k (field i w d) =
    ground (arith, eq_iff k j, eq_iff i k, eq_iff i j, field_of-without_field j k d)

-- a tool that is not an MCP tool, or holds no credentials
abbrev pub Scrubbed : Fields → Type 0
Scrubbed tool =
    (type_is "mcp" tool ≡ false)
    ⊎ ((field_of "authorization" tool ≡ none) × (field_of "headers" tool ≡ some null))

scrubbed-Scrubbed : (tool : Fields) → Scrubbed (scrubbed tool)
unfolding scrubbed
scrubbed-Scrubbed tool =
    inr (rw field_of-without_field, rw (field_of-without_field, field_of-with_field))

echo_tool-Scrubbed : (tool : Fields) → Scrubbed (echo_tool tool)
unfolding echo_tool
echo_tool-Scrubbed tool = elim (Bool-cases (type_is "mcp" tool)) [
  | inl i ↦ rw i (scrubbed-Scrubbed tool)
  | inr i ↦ elim (Bool-cases (type_is "function" tool)) [
    | inl j ↦ rw (i, j) (inl (unfold field_of in refl))
    | inr j ↦ rw (i, j) (inl i)
  ]
]

-- No MCP tool that is echoed holds the request's `authorization` or `headers`.
pub echo_tools-Scrubbed : (tools : List Fields) → All Scrubbed (echo_tools tools)
unfolding echo_tools
echo_tools-Scrubbed [] = tt
echo_tools-Scrubbed (tool ∷ tools) = (echo_tool-Scrubbed tool, echo_tools-Scrubbed tools)
