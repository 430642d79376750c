-- ===== src/Responses/Stream/Items/Closing.antt =====
-- That each item of a response is opened once and closed once.
use mathlib.Core.List.{Perm, append_assoc, append-nil}
use mathlib.Core.List.Perm
use mathlib.Core.Path.{subst}
use modelship.Prelude.{
  ℕ, ◌≡◌, refl, sym, ◌∙◌, String, false, Option, none, some, List, [], ◌∷◌, ◌++◌, Bool-cases, inl,
  inr,
}
use modelship.Json.{field_of}
use modelship.Responses.Chat.{Request}
use modelship.Responses.Envelope.{Outcome, status_for}
use modelship.Responses.Stream.{
  Reasoning, Answer, Tool, Translator, World, emit, sorted_tools, envelope,
}
use modelship.Responses.Stream.Channels.{
  on_reasoning, close_reasoning_of, close_reasoning, on_content, close_message_of, close_message,
  tool_at, on_tool_call, close_tool, close_each, close_tools,
}
use modelship.Responses.Stream.Translate.{
  Chunk, is_incomplete, translator, close_all, start, process_all, finish_closed, finish,
  terminal_kind, streamed,
}
use modelship.Responses.Stream.Reads.{upto}
use modelship.Responses.Stream.Walks.{process_all-keeps}
use modelship.Responses.Stream.Items.{
  opened, closed, is_bracket, of_reasoning, of_answer, of_tools, OpenAs, ClosedAs, quiet-ClosedAs,
  aside-OpenAs, aside-ClosedAs, done-ClosedAs,
}
use modelship.Responses.Stream.Items.Tools.{sorted_tools-Perm}
use modelship.Responses.Stream.Items.Opening.{
  held_now, OpenHeld, emit-OpenHeld, reasoning_from-OpenHeld, content_from-OpenHeld, aside-OpenHeld,
}
use modelship.Responses.Stream.Items.Calls.{tool_call_from-OpenHeld}

close_reasoning_of-ClosedAs :
    (n : ℕ) (is : List ℕ) (o : Option Reasoning) (t : Translator)
    → ClosedAs n is t
    → ClosedAs n (is ++ of_reasoning o) (close_reasoning_of o t)
unfolding close_reasoning_of field_of
close_reasoning_of-ClosedAs n is none t h = subst (λ js. ClosedAs n js t) (sym (append-nil is)) h
close_reasoning_of-ClosedAs n is (some r) t h = done-ClosedAs n is r.output_index _ _ refl (
    aside-ClosedAs n is _ _ refl
      (quiet-ClosedAs n is _ _ _ refl (quiet-ClosedAs n is _ _ t refl h)))

close_message_of-ClosedAs :
    (n : ℕ) (is : List ℕ) (o : Option Answer) (t : Translator)
    → ClosedAs n is t
    → ClosedAs n (is ++ of_answer o) (close_message_of o t)
unfolding close_message_of field_of
close_message_of-ClosedAs n is none t h = subst (λ js. ClosedAs n js t) (sym (append-nil is)) h
close_message_of-ClosedAs n is (some m) t h = done-ClosedAs n is m.output_index _ _ refl (
    aside-ClosedAs n is _ _ refl
      (quiet-ClosedAs n is _ _ _ refl (quiet-ClosedAs n is _ _ t refl h)))

close_tool-ClosedAs :
    (n : ℕ) (is : List ℕ) (c : Tool) (t : Translator)
    → ClosedAs n is t
    → ClosedAs n (is ++ c.output_index ∷ []) (close_tool c t)
unfolding close_tool field_of
close_tool-ClosedAs n is c t h =
    done-ClosedAs n is c.output_index _ _ refl
      (quiet-ClosedAs n is _ _ _ refl (aside-ClosedAs n is t _ refl h))

close_each-ClosedAs :
    (n : ℕ) (is : List ℕ) (cs : List Tool) (t : Translator)
    → ClosedAs n is t
    → ClosedAs n (is ++ of_tools cs) (close_each cs t)
unfolding close_each
close_each-ClosedAs n is [] t h = subst (λ js. ClosedAs n js t) (sym (append-nil is)) h
close_each-ClosedAs n is (c ∷ cs) t h =
    subst (λ js. ClosedAs n js (close_each cs (close_tool c t)))
      (append_assoc is (c.output_index ∷ []) (of_tools cs))
      (close_each-ClosedAs n (is ++ c.output_index ∷ []) cs _ (close_tool-ClosedAs n is c t h))

reasoning_closed :
    (o : Option Reasoning) (t : Translator)
    → ((close_reasoning_of o t).message ≡ t.message) × ((close_reasoning_of o t).tools ≡ t.tools)
unfolding close_reasoning_of emit
reasoning_closed none t = (refl, refl)
reasoning_closed (some r) t = (refl, refl)

message_closed : (o : Option Answer) (t : Translator) → (close_message_of o t).tools ≡ t.tools
unfolding close_message_of emit
message_closed none t = refl
message_closed (some m) t = refl

-- the indexes of the items in the order in which they are closed
abbrev closing : Translator → List ℕ
closing t = (of_reasoning t.reasoning ++ of_answer t.message) ++ of_tools (sorted_tools t.tools)

close_all-ClosedAs :
    (n : ℕ) (t : Translator) → ClosedAs n [] t → ClosedAs n (closing t) (close_all t)
unfolding close_all close_reasoning close_message close_tools
close_all-ClosedAs n t h =
    subst
      (λ ds.
        ClosedAs n ((of_reasoning t.reasoning ++ of_answer t.message) ++ of_tools (sorted_tools ds))
          (close_all t))
      (message_closed (close_reasoning t).message (close_reasoning t)
        ∙ (reasoning_closed t.reasoning t).1)
      (close_each-ClosedAs n _ (sorted_tools (close_message (close_reasoning t)).tools) _ (
        subst
          (λ m.
            ClosedAs n (of_reasoning t.reasoning ++ of_answer m)
              (close_message (close_reasoning t)))
          (reasoning_closed t.reasoning t).0
          (close_message_of-ClosedAs n _ (close_reasoning t).message _
            (close_reasoning_of-ClosedAs n [] t.reasoning t h))))

closing-Perm : (t : Translator) → Perm (closing t) (held_now t)
unfolding held_now
closing-Perm t =
    subst (λ is. Perm (closing t) is)
      (append_assoc (of_reasoning t.reasoning) (of_answer t.message) (of_tools t.tools))
      (Perm.append (Perm.refl (of_reasoning t.reasoning ++ of_answer t.message))
        (Perm.map (λ c. c.output_index) (sorted_tools-Perm t.tools)))

open-ClosedAs :
    (t : Translator) → OpenHeld t → ClosedAs t.next_oi [] t × Perm (held_now t) (upto t.next_oi)
unfolding OpenHeld OpenAs ClosedAs
open-ClosedAs t (o, c, k) = ((o, c), k)

terminal-quiet : (status : String) → is_bracket (terminal_kind status) ≡ false
terminal-quiet status = elim (Bool-cases (is_incomplete status)) [
  | inl e ↦ rw e refl
  | inr e ↦ rw e refl
]

module _ (world : World) where
  process_all-OpenHeld :
      (chunks : List Chunk) (t : Translator) → OpenHeld t → OpenHeld (process_all world chunks t)
  unfolding on_reasoning on_content on_tool_call
  process_all-OpenHeld =
      process_all-keeps world OpenHeld
        (λ text t h.
          reasoning_from-OpenHeld world text t.reasoning t (unfold OpenHeld held_now in h))
        (λ text t h. content_from-OpenHeld world text t.message t (unfold OpenHeld held_now in h))
        (λ tc t h. tool_call_from-OpenHeld world tc (tool_at tc.index t.tools) t refl h)
        (λ t model usage reason h. aside-OpenHeld t _ refl refl (unfold held_now in refl) h)

  envelope-OpenHeld :
      (kind : String) (outcome : Outcome) (t : Translator)
      → is_bracket kind ≡ false
      → OpenHeld t
      → OpenHeld (envelope world kind outcome t)
  unfolding envelope
  envelope-OpenHeld kind outcome t q h =
      emit-OpenHeld _ _ _ (held_now t) q (unfold held_now in refl)
        (aside-OpenAs (held_now t) (held_now t) t _ refl refl refl (unfold OpenHeld in h))

  translator-OpenHeld : (request : Request) (id : String) → OpenHeld (translator request id)
  unfolding translator OpenHeld OpenAs held_now
  translator-OpenHeld request id = (refl, refl, Perm.refl [])

  streamed-OpenHeld :
      (request : Request) (id : String) (chunks : List Chunk)
      → OpenHeld (streamed world request id chunks)
  unfolding streamed start
  streamed-OpenHeld request id chunks =
      process_all-OpenHeld chunks _ (
        envelope-OpenHeld _ _ _ refl
          (envelope-OpenHeld _ _ _ refl (translator-OpenHeld request id)))

  envelope-ClosedAs :
      (n : ℕ) (is : List ℕ) (kind : String) (outcome : Outcome) (t : Translator)
      → is_bracket kind ≡ false
      → ClosedAs n is t
      → ClosedAs n is (envelope world kind outcome t)
  unfolding envelope
  envelope-ClosedAs n is kind outcome t q h =
      quiet-ClosedAs n is _ _ _ q (aside-ClosedAs n is t _ refl h)

  finish-ClosedAs : (t : Translator) → OpenHeld t → ClosedAs t.next_oi (closing t) (finish world t)
  unfolding finish finish_closed
  finish-ClosedAs t h =
      envelope-ClosedAs _ _ _ _ _ (terminal-quiet (status_for (close_all t).finish_reason).0)
        (close_all-ClosedAs t.next_oi t (open-ClosedAs t h).0)

  bracketed :
      (n : ℕ) (is : List ℕ) (t : Translator)
      → ClosedAs n is t
      → Perm is (upto n)
      → (opened t.sent ≡ upto n) × Perm (closed t.sent) (opened t.sent)
  unfolding ClosedAs
  bracketed n is t (o, c) k = (o, rw (o, c) k)

  -- The items that the events of a finished response open have the output indexes 0, 1, 2 and so on, and
  -- those that they close are the same, each once.
  pub finish-Perm :
      (request : Request) (id : String) (chunks : List Chunk)
      → (opened (finish world (streamed world request id chunks)).sent
          ≡ upto (streamed world request id chunks).next_oi)
        × Perm
            (closed (finish world (streamed world request id chunks)).sent)
            (opened (finish world (streamed world request id chunks)).sent)
  finish-Perm request id chunks =
      bracketed _ _ _ (finish-ClosedAs _ (streamed-OpenHeld request id chunks)) (
        Perm.trans (closing-Perm (streamed world request id chunks))
          (open-ClosedAs _ (streamed-OpenHeld request id chunks)).1)
