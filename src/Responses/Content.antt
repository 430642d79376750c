-- ===== src/Responses/Content.antt =====
-- modelship/openai/protocol/responses/adapter.py: `_text_of` and `_content_to_chat`.
use Prim.Native.String.{◌++◌ as text_append}
use modelship.Prelude.{
  String, Bool, true, false, ◌||◌, Option, none, some, List, [], ◌∷◌, str_eq, if◌then◌else◌, all,
  map,
}
use modelship.Json.{Json, null, str, arr, obj, end, field, field_of, to_list, list_json, truthy}
use modelship.Responses.Result.{Result, returned, raised, unsupported, python_error, ◌>>=◌}

-- `"".join(texts)`
abbrev pub concat : List String → String
concat [] = ""
concat (t ∷ ts) = text_append t (concat ts)

abbrev pub or_null : Option Json → Json
or_null none = null
or_null (some v) = v

abbrev pub text_json : Option String → Json
text_json none = null
text_json (some t) = str t

-- a text that is there and not empty
abbrev pub some_text : Option String → Bool
some_text none = false
some_text (some t) = if str_eq t "" then false else true

-- `p["text"]` of a part that has a text
abbrev pub part_text : Json → Option String
part_text (obj p) = elim (field_of "text" p) [ some (str t) ↦ some t | _ ↦ none ]
part_text _ = none

abbrev pub texts_in : List Json → List String
texts_in [] = []
texts_in (p ∷ ps) = elim (part_text p) [ none ↦ texts_in ps | some t ↦ t ∷ texts_in ps ]

abbrev pub joined : List String → Option String
joined [] = none
joined (t ∷ ts) = some (concat (t ∷ ts))

-- `_text_of`
unfoldable pub text_of : Option Json → Result (Option String)
unfolding field_of to_list
text_of none = returned none
text_of (some null) = returned none
text_of (some (str t)) = returned (some t)
text_of (some (arr ps)) = returned (joined (texts_in (to_list ps)))
text_of (some v) = raised (unsupported "unsupported content shape")

-- a part of a chat message: a text, or an image's URL
pub data Part : Type 0 where
  text : Json → Part
  image : Json → Part

abbrev pub among : List String → String → Bool
among [] s = false
among (t ∷ ts) s = str_eq s t || among ts s

-- whether a `type` is one of some texts
abbrev pub type_in : List String → Option Json → Bool
type_in ts (some (str s)) = among ts s
type_in ts _ = false

abbrev pub image_url : Json → Json
image_url (str u) = obj (field "url" (str u) end)
image_url v = v

unfoldable pub part_of : Json → Result Part
unfolding field_of
part_of (obj p) =
    if type_in ("input_text" ∷ "output_text" ∷ "text" ∷ []) (field_of "type" p)
    then returned (text (or_null (field_of "text" p)))
    else if type_in ("input_image" ∷ "image_url" ∷ []) (field_of "type" p)
    then returned (image (image_url (or_null (field_of "image_url" p))))
    else raised (unsupported "unsupported content part type")
part_of v = raised (unsupported "unsupported content part")

unfoldable pub parts_of : List Json → Result (List Part)
unfolding part_of
parts_of [] = returned []
parts_of (p ∷ ps) = part_of p >>= λ q. parts_of ps >>= λ qs. returned (q ∷ qs)

abbrev pub is_text : Part → Bool
is_text (text v) = true
is_text (image v) = false

-- `part["text"] or ""`, which `join` takes only if it is a text
abbrev pub plain : Part → Result String
plain (image v) = raised python_error
plain (text (str t)) = returned t
plain (text v) = if truthy v then raised python_error else returned ""

unfoldable pub plains : List Part → Result String
plains [] = returned ""
plains (p ∷ ps) = plain p >>= λ t. plains ps >>= λ ts. returned (text_append t ts)

abbrev pub part_json : Part → Json
part_json (text v) = obj (field "type" (str "text") (field "text" v end))
part_json (image v) = obj (field "type" (str "image_url") (field "image_url" v end))

unfoldable pub chat_content : List Part → Result Json
unfolding plains list_json
chat_content ps =
    if all is_text ps
    then (plains ps >>= λ t. returned (str t))
    else returned (list_json (map part_json ps))

-- `_content_to_chat`
unfoldable pub content_to_chat : Option Json → Result Json
unfolding parts_of chat_content to_list
content_to_chat none = returned null
content_to_chat (some null) = returned null
content_to_chat (some (str t)) = returned (str t)
content_to_chat (some (arr ps)) = parts_of (to_list ps) >>= chat_content
content_to_chat (some v) = raised (unsupported "unsupported content shape")
