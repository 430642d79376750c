-- ===== src/Responses/Stream/Quiet.antt =====
-- The events that say nothing of the message, and what they keep.
use mathlib.Core.List.{append-nil as list_append-nil}
use modelship.Prelude.{
  ℕ, ◌≡◌, refl, ◌∙◌, String, Bool, false, ◌||◌, Option, none, some, List, [], ◌∷◌, str_eq,
  Bool-cases, inl, inr,
}
use modelship.Json.{Fields}
use modelship.Responses.Envelope.{Outcome}
use modelship.Responses.Stream.{
  Event, Reasoning, Tool, Translator, World, emit, take_oi, mint, envelope,
}
use modelship.Responses.Stream.Channels.{
  ToolDelta, non_empty, reasoning_from, open_reasoning, reasoning_delta, close_reasoning_of,
  minted_call, open_tool, arguments_delta, tool_call_from, close_tool, close_each,
}
use modelship.Responses.Stream.Reads.{collect, collect-emit, text_in}

-- the texts of the message's deltas, and of the event that ends it
abbrev pub deltas : List Event → List String
deltas es = collect (text_in "response.output_text.delta" "delta") es

abbrev pub finals : List Event → List String
finals es = collect (text_in "response.output_text.done" "text") es

abbrev pub is_text : String → Bool
is_text kind = str_eq kind "response.output_text.delta" || str_eq kind "response.output_text.done"

-- `P` holds through every event that says nothing of the message, and whatever is no event
module _ (world : World) (P : Translator → Type 0)
    (quiet : (kind : String) (payload : Fields) (t : Translator)
      → is_text kind ≡ false
      → P t
      → P (emit kind payload t))
    (aside : (t t' : Translator) → t'.sent ≡ t.sent → t'.message ≡ t.message → P t → P t') where
  pub reasoning_from-quiet :
      (text : String) (o : Option Reasoning) (t : Translator)
      → P t
      → P (reasoning_from world text o t)
  unfolding reasoning_from open_reasoning reasoning_delta take_oi mint
  reasoning_from-quiet text none t h = quiet _ _ _ refl (
      aside _ _ refl refl
        (quiet _ _ _ refl (quiet _ _ _ refl (aside t (take_oi (mint t)) refl refl h))))
  reasoning_from-quiet text (some r) t h = quiet _ _ _ refl (aside t _ refl refl h)

  arguments_delta-quiet :
      (text : Option String) (c : Tool) (t : Translator) → P t → P (arguments_delta text c t)
  unfolding arguments_delta
  arguments_delta-quiet none c t h = h
  arguments_delta-quiet (some text) c t h = quiet _ _ _ refl (aside t _ refl refl h)

  minted_call-quiet : (id : Option String) (t : Translator) → P t → P (minted_call id t)
  unfolding mint
  minted_call-quiet none t h = aside t _ refl refl h
  minted_call-quiet (some id) t h = h

  pub tool_call_from-quiet :
      (tc : ToolDelta) (o : Option Tool) (t : Translator) → P t → P (tool_call_from world tc o t)
  unfolding tool_call_from open_tool mint take_oi
  tool_call_from-quiet tc none t h =
      arguments_delta-quiet (non_empty tc.arguments) _ _
        (quiet _ _ _ refl (aside _ _ refl refl (minted_call-quiet (non_empty tc.id) t h)))
  tool_call_from-quiet tc (some c) t h =
      arguments_delta-quiet (non_empty tc.arguments) _ _ (aside t _ refl refl h)

  pub close_reasoning_of-quiet :
      (o : Option Reasoning) (t : Translator) → P t → P (close_reasoning_of o t)
  unfolding close_reasoning_of
  close_reasoning_of-quiet none t h = h
  close_reasoning_of-quiet (some r) t h =
      quiet _ _ _ refl (aside _ _ refl refl (quiet _ _ _ refl (quiet _ _ t refl h)))

  pub close_each-quiet : (cs : List Tool) (t : Translator) → P t → P (close_each cs t)
  unfolding close_each close_tool
  close_each-quiet [] t h = h
  close_each-quiet (c ∷ cs) t h =
      close_each-quiet cs _ (quiet _ _ _ refl (quiet _ _ _ refl (aside t _ refl refl h)))

  pub envelope-quiet :
      (kind : String) (outcome : Outcome) (t : Translator)
      → is_text kind ≡ false
      → P t
      → P (envelope world kind outcome t)
  unfolding envelope
  envelope-quiet kind outcome t q h = quiet _ _ _ q (aside t _ refl refl h)

text_in-quiet :
    (kind : String) (payload : Fields) (n : ℕ)
    → is_text kind ≡ false
    → (text_in "response.output_text.delta" "delta"
          (record { kind = kind; sequence_number = n; payload = payload })
        ≡ [])
      × (text_in "response.output_text.done" "text"
            (record { kind = kind; sequence_number = n; payload = payload })
          ≡ [])
text_in-quiet kind payload n q = elim (Bool-cases (str_eq kind "response.output_text.delta")) [
  | inl e ↦ absurd (cc (rw e at q))
  | inr e ↦ elim (Bool-cases (str_eq kind "response.output_text.done")) [
    | inl f ↦ absurd (cc (rw (e, f) at q))
    | inr f ↦ (rw e refl, rw f refl)
  ]
]

pub emit-quiet :
    (kind : String) (payload : Fields) (t : Translator)
    → is_text kind ≡ false
    → (deltas (emit kind payload t).sent ≡ deltas t.sent)
      × (finals (emit kind payload t).sent ≡ finals t.sent)
emit-quiet kind payload t q = (
  collect-emit (text_in "response.output_text.delta" "delta") kind payload t
      ∙ rw (text_in-quiet kind payload t.seq q).0 (list_append-nil _),
  collect-emit (text_in "response.output_text.done" "text") kind payload t
      ∙ rw (text_in-quiet kind payload t.seq q).1 (list_append-nil _),
)
