-- ===== src/Responses/Stream/Frames.antt =====
-- modelship/openai/protocol/responses/streaming.py: the wire format of events, and the `response.failed`
-- events that are made without a translator. `json.dumps`, `json.loads` (`none` for a `ValueError`) and
-- `str.splitlines` are arguments, and so are the id and the time that a new response would take. A
-- frame that is no text is `none`, and a `response` that is there is a dict.
use Prim.Native.String.{◌++◌ as text_append, slice, len}
use text.Mathlib.Text.{starts_with}
use modelship.Prelude.{
  ℕ, suc, ◌≡◌, refl, ap, String, Bool, true, false, ◌||◌, Option, none, some, List, [], ◌∷◌, ◌++◌,
  map, if◌then◌else◌,
}
use modelship.Json.{Json, Fields, str, int, obj, arr, nil, end, field, field_of, with_field, as_int}

abbrev pub dict_in : Option Json → Fields
dict_in (some (obj d)) = d
dict_in _ = end

abbrev pub or_nought : Option Json → Json
or_nought none = int 0
or_nought (some n) = n

abbrev pub server_error : String → Json
server_error message = obj (field "code" (str "server_error") (field "message" (str message) end))

abbrev pub failed_event : Json → Fields → Fields
failed_event seq response =
    field "type" (str "response.failed")
      (field "sequence_number" seq (field "response" (obj response) end))

-- `store_failure_event`
unfoldable pub store_failure_event : Fields → String → Fields
unfolding field_of with_field
store_failure_event terminal message =
    failed_event (or_nought (field_of "sequence_number" terminal)) (
      with_field "error" (server_error message)
        (with_field "status" (str "failed") (dict_in (field_of "response" terminal))))

-- `d.setdefault(k, v)`
abbrev pub set_default : String → Json → Fields → Fields
unfolding field_of with_field
set_default k v d = elim (field_of k d) [ none ↦ with_field k v d | some w ↦ d ]

module _ (splitlines : String → List String) (loads : String → Option Json) where
  -- what the first line of data holds
  unfoldable pub payload_in : List String → Fields
  payload_in [] = end
  payload_in (line ∷ lines) =
      let rest = payload_in lines in
      if starts_with line "data: " then dict_in (loads (slice line 6 (len line))) else rest

  -- `_frame_payload`
  unfoldable pub frame_payload : Option String → Fields
  unfolding payload_in
  frame_payload none = end
  frame_payload (some frame) = payload_in (splitlines frame)

  abbrev pub next_seq : Option Json → ℕ
  next_seq none = 0
  next_seq (some v) = elim (as_int v) [ none ↦ 0 | some n ↦ suc n ]

  -- `failure_event_from_frames`
  unfoldable pub failure_event_from_frames :
      String → ℕ → Option String → Option String → String → String → Fields
  unfolding frame_payload field_of with_field set_default
  failure_event_from_frames id now created last message model =
      failed_event (int (next_seq (field_of "sequence_number" (frame_payload last)))) (
        set_default "model" (str model) (
          set_default "created_at" (int now) (
            set_default "id" (str id) (
              set_default "object" (str "response") (
                with_field "output" (arr nil) (
                  with_field "error" (server_error message) (
                    with_field "status" (str "failed")
                      (dict_in (field_of "response" (frame_payload created))))))))))

-- what a generator yields: an event, or anything else
pub data Yielded {ℓ} (A : Type ℓ) : Type ℓ where
  event : Fields → Yielded A
  other : A → Yielded A

-- what goes to the transport: a frame, or what is passed through
pub data Framed {ℓ} (A : Type ℓ) : Type ℓ where
  frame : String → Framed A
  passed : A → Framed A

module _ (dumps : Json → String) where
  abbrev pub type_text : Option Json → String
  type_text (some (str t)) = t
  type_text (some v) = dumps v
  type_text none = ""

  -- `encode_sse_event`
  unfoldable pub encode_sse_event : Fields → String
  unfolding field_of
  encode_sse_event e = text_append "event: " (
      text_append (type_text (field_of "type" e))
        (text_append "\ndata: " (text_append (dumps (obj e)) "\n\n")))

  -- the loop of `frame_sse`, with `framed_any`, and what follows it
  unfoldable pub frame_from {ℓ} : {A : Type ℓ} → Bool → List (Yielded A) → List (Framed A)
  unfolding encode_sse_event
  frame_from framed_any [] = if framed_any then frame "data: [DONE]\n\n" ∷ [] else []
  frame_from framed_any (event e ∷ ys) = frame (encode_sse_event e) ∷ frame_from true ys
  frame_from framed_any (other a ∷ ys) = passed a ∷ frame_from framed_any ys

  -- `frame_sse`
  unfoldable pub frame_sse {ℓ} : {A : Type ℓ} → List (Yielded A) → List (Framed A)
  unfolding frame_from
  frame_sse ys = frame_from false ys

  -- an item's frame, or the item itself
  abbrev pub framed {ℓ} : {A : Type ℓ} → Yielded A → Framed A
  framed (event e) = frame (encode_sse_event e)
  framed (other a) = passed a

  abbrev pub is_event {ℓ} : {A : Type ℓ} → Yielded A → Bool
  is_event (event e) = true
  is_event (other a) = false

  abbrev pub any_event {ℓ} : {A : Type ℓ} → List (Yielded A) → Bool
  any_event [] = false
  any_event (y ∷ ys) = is_event y || any_event ys

  abbrev pub done_if {ℓ} : {A : Type ℓ} → Bool → List (Framed A)
  done_if b = if b then frame "data: [DONE]\n\n" ∷ [] else []

  frame_from-map {ℓ} :
      {A : Type ℓ} (b : Bool) (ys : List (Yielded A))
      → frame_from b ys ≡ map framed ys ++ done_if (b || any_event ys)
  unfolding frame_from
  frame_from-map true [] = refl
  frame_from-map false [] = refl
  frame_from-map true (event e ∷ ys) =
      ap (◌∷◌ (frame (encode_sse_event e))) (frame_from-map true ys)
  frame_from-map false (event e ∷ ys) =
      ap (◌∷◌ (frame (encode_sse_event e))) (frame_from-map true ys)
  frame_from-map true (other a ∷ ys) = ap (◌∷◌ (passed a)) (frame_from-map true ys)
  frame_from-map false (other a ∷ ys) = ap (◌∷◌ (passed a)) (frame_from-map false ys)

  -- `frame_sse` sends a frame for each event and anything else as it is, in order, and closes with the
  -- terminator just when there was an event.
  pub frame_sse-map {ℓ} :
      {A : Type ℓ} (ys : List (Yielded A)) → frame_sse ys ≡ map framed ys ++ done_if (any_event ys)
  unfolding frame_sse
  frame_sse-map ys = frame_from-map false ys
