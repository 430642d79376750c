-- ===== src/Responses/Stream/Texts.antt =====
-- The text of a response's message, as its events say it.
use Prim.Native.String.{◌++◌ as text_append}
use text.Mathlib.TextLemmas.{append-nil}
use mathlib.Core.List.{append-nil as list_append-nil}
use modelship.Prelude.{
  ◌≡◌, refl, sym, ap, ◌∙◌, String, false, Option, none, some, List, [], Bool-cases, inl, inr,
}
use modelship.Json.{Fields, str, field_of}
use modelship.Responses.Chat.{Request}
use modelship.Responses.Content.{concat}
use modelship.Responses.Envelope.{status_for}
use modelship.Responses.Stream.{Event, Answer, Translator, World, emit, take_oi, mint, sorted_tools}
use modelship.Responses.Stream.Channels.{
  on_reasoning, close_reasoning, new_answer, content_from, on_content, open_message, content_delta,
  close_message_of, close_message, tool_at, on_tool_call, close_tools,
}
use modelship.Responses.Stream.Translate.{
  Chunk, is_incomplete, translator, close_all, start, process_all, finish_closed, finish,
  terminal_kind, streamed,
}
use modelship.Responses.Stream.Reads.{collect-emit, text_in, concat-append}
use modelship.Responses.Stream.Walks.{process_all-keeps}
use modelship.Responses.Stream.Quiet.{
  deltas, finals, is_text, reasoning_from-quiet, tool_call_from-quiet, close_reasoning_of-quiet,
  close_each-quiet, envelope-quiet, emit-quiet,
}

abbrev text_so_far : Option Answer → String
text_so_far none = ""
text_so_far (some m) = m.text

-- the deltas make up the text of the message `o`, and no event has ended it
abbrev Said : Option Answer → List Event → Type 0
Said o es = (concat (deltas es) ≡ text_so_far o) × (finals es ≡ [])

-- what the message says now
SaidSoFar : Translator → Type 0
SaidSoFar t = Said t.message t.sent

-- what the message `o` says, that the state may not hold yet
SaidAs : Option Answer → Translator → Type 0
SaidAs o t = Said o t.sent

message-emit :
    (kind : String) (payload : Fields) (t : Translator) → (emit kind payload t).message ≡ t.message
unfolding emit
message-emit kind payload t = refl

emit-Said :
    (o : Option Answer) (kind : String) (payload : Fields) (t : Translator)
    → is_text kind ≡ false
    → SaidAs o t
    → SaidAs o (emit kind payload t)
unfolding SaidAs
emit-Said o kind payload t q h =
    (ap concat (emit-quiet kind payload t q).0 ∙ h.0, (emit-quiet kind payload t q).1 ∙ h.1)

quiet-Said :
    (kind : String) (payload : Fields) (t : Translator)
    → is_text kind ≡ false
    → SaidSoFar t
    → SaidSoFar (emit kind payload t)
unfolding SaidSoFar SaidAs
quiet-Said kind payload t q h = rw message-emit (emit-Said t.message kind payload t q h)

aside-Said :
    (t t' : Translator) → t'.sent ≡ t.sent → t'.message ≡ t.message → SaidSoFar t → SaidSoFar t'
unfolding SaidSoFar
aside-Said t t' s m h = rw (s, m) h

emit_delta-Said :
    (payload : Fields) (text : String) (m : Answer) (t : Translator)
    → field_of "delta" payload ≡ some (str text)
    → SaidAs (some m) t
    → t.message ≡ some (record m { text = text_append m.text text })
    → SaidSoFar (emit "response.output_text.delta" payload t)
unfolding SaidSoFar SaidAs
emit_delta-Said payload text m t p h e =
    rw
      (
        message-emit,
        collect-emit (text_in "response.output_text.delta" "delta"),
        collect-emit (text_in "response.output_text.done" "text"),
        concat-append,
        e,
        p,
      )
      (
        ap (λ s. text_append s (text_append text "")) h.0
            ∙ ap (text_append m.text) (append-nil text),
        list_append-nil _ ∙ h.1,
      )

as-SaidAs :
    (m : Answer) (t t' : Translator) → t'.sent ≡ t.sent → SaidAs (some m) t → SaidAs (some m) t'
unfolding SaidAs
as-SaidAs m t t' s h = rw s h

content_delta-Said :
    (text : String) (m : Answer) (t : Translator)
    → SaidAs (some m) t
    → SaidSoFar (content_delta text m t)
unfolding content_delta field_of
content_delta-Said text m t h = emit_delta-Said _ text m _ refl (as-SaidAs m t _ refl h) refl

opening-Said :
    (m : Answer) (t t' : Translator)
    → t'.sent ≡ t.sent
    → m.text ≡ ""
    → SaidAs none t
    → SaidAs (some m) t'
unfolding SaidAs
opening-Said m t t' s e h = rw (s, e) h

content_from-Said :
    (world : World) (text : String) (o : Option Answer) (t : Translator)
    → SaidAs o t
    → SaidSoFar (content_from world text o t)
unfolding content_from open_message take_oi mint
content_from-Said world text none t h = content_delta-Said text (new_answer world t) _ (
    emit-Said _ _ _ _ refl
      (emit-Said _ _ _ _ refl (opening-Said (new_answer world t) t (take_oi (mint t)) refl refl h)))
content_from-Said world text (some m) t h = content_delta-Said text m t h

so_far-SaidAs : (t : Translator) → SaidSoFar t → SaidAs t.message t
unfolding SaidSoFar SaidAs
so_far-SaidAs t h = h

-- the deltas and the event that ends the message say the same
abbrev pub Agreed : List Event → Type 0
Agreed es = concat (deltas es) ≡ concat (finals es)

AgreedNow : Translator → Type 0
AgreedNow t = Agreed t.sent

quiet-Agreed :
    (kind : String) (payload : Fields) (t : Translator)
    → is_text kind ≡ false
    → AgreedNow t
    → AgreedNow (emit kind payload t)
unfolding AgreedNow
quiet-Agreed kind payload t q h =
    ap concat (emit-quiet kind payload t q).0 ∙ h ∙ sym (ap concat (emit-quiet kind payload t q).1)

aside-Agreed :
    (t t' : Translator) → t'.sent ≡ t.sent → t'.message ≡ t.message → AgreedNow t → AgreedNow t'
unfolding AgreedNow
aside-Agreed t t' s m h = rw s h

same-Agreed : (t t' : Translator) → t'.sent ≡ t.sent → AgreedNow t → AgreedNow t'
unfolding AgreedNow
same-Agreed t t' s h = rw s h

text_done-Agreed :
    (payload : Fields) (text : String) (t : Translator)
    → field_of "text" payload ≡ some (str text)
    → concat (deltas t.sent) ≡ text
    → finals t.sent ≡ []
    → AgreedNow (emit "response.output_text.done" payload t)
unfolding AgreedNow
text_done-Agreed payload text t p d f =
    rw
      (
        collect-emit (text_in "response.output_text.delta" "delta"),
        collect-emit (text_in "response.output_text.done" "text"),
        p,
        f,
      )
      (ap concat (list_append-nil _) ∙ d ∙ sym (append-nil text))

none-Agreed : (t : Translator) → SaidAs none t → AgreedNow t
unfolding AgreedNow SaidAs
none-Agreed t h = h.0 ∙ sym (ap concat h.1)

close_message_of-Agreed :
    (o : Option Answer) (t : Translator) → SaidAs o t → AgreedNow (close_message_of o t)
unfolding close_message_of field_of
close_message_of-Agreed none t h = none-Agreed t h
close_message_of-Agreed (some m) t h = quiet-Agreed _ _ _ refl (
    same-Agreed _ _ refl (
      quiet-Agreed _ _ _ refl
        (text_done-Agreed _ m.text t refl (unfold SaidAs in h.0) (unfold SaidAs in h.1))))

translator-Said : (request : Request) (id : String) → SaidSoFar (translator request id)
unfolding translator SaidSoFar
translator-Said request id = (refl, refl)

terminal-quiet : (status : String) → is_text (terminal_kind status) ≡ false
terminal-quiet status = elim (Bool-cases (is_incomplete status)) [
  | inl e ↦ rw e refl
  | inr e ↦ rw e refl
]

module _ (world : World) where
  process_all-Said :
      (chunks : List Chunk) (t : Translator) → SaidSoFar t → SaidSoFar (process_all world chunks t)
  unfolding on_reasoning on_content on_tool_call
  process_all-Said =
      process_all-keeps world SaidSoFar
        (λ text t. reasoning_from-quiet world SaidSoFar quiet-Said aside-Said text t.reasoning t)
        (λ text t h. content_from-Said world text t.message t (so_far-SaidAs t h))
        (λ tc t.
          tool_call_from-quiet world SaidSoFar quiet-Said aside-Said tc (tool_at tc.index t.tools)
            t)
        (λ t model usage reason. aside-Said t _ refl refl)

  streamed-Said :
      (request : Request) (id : String) (chunks : List Chunk)
      → SaidSoFar (streamed world request id chunks)
  unfolding streamed start
  streamed-Said request id chunks = process_all-Said chunks _ (
      envelope-quiet world SaidSoFar quiet-Said aside-Said _ _ _ refl (
        envelope-quiet world SaidSoFar quiet-Said aside-Said _ _ _ refl
          (translator-Said request id)))

  close_all-Agreed : (t : Translator) → SaidSoFar t → AgreedNow (close_all t)
  unfolding close_all close_reasoning close_message close_tools
  close_all-Agreed t h =
      close_each-quiet world AgreedNow quiet-Agreed aside-Agreed
        (sorted_tools (close_message (close_reasoning t)).tools) _
        (close_message_of-Agreed (close_reasoning t).message _ (
          so_far-SaidAs _
            (close_reasoning_of-quiet world SaidSoFar quiet-Said aside-Said t.reasoning t h)))

  finish-AgreedNow : (t : Translator) → SaidSoFar t → AgreedNow (finish world t)
  unfolding finish finish_closed
  finish-AgreedNow t h =
      envelope-quiet world AgreedNow quiet-Agreed aside-Agreed _ _ _
        (terminal-quiet (status_for (close_all t).finish_reason).0) (close_all-Agreed t h)

  -- In the events of a response that is finished, the deltas of the message, joined, are the text of the
  -- event that ends it, with the empty text where there is no such event.
  pub finish-Agreed :
      (request : Request) (id : String) (chunks : List Chunk)
      → Agreed (finish world (streamed world request id chunks)).sent
  unfolding AgreedNow
  finish-Agreed request id chunks = finish-AgreedNow _ (streamed-Said request id chunks)
