-- ===== src/Responses/Stream/Numbers.antt =====
-- The sequence numbers of a response's events.
use modelship.Prelude.{suc, ◌≡◌, refl, ap, String, Option, none, some, List, [], ◌∷◌, ◌++◌}
use modelship.Json.{Fields}
use modelship.Responses.Chat.{Request}
use modelship.Responses.Envelope.{Outcome}
use modelship.Responses.Stream.{
  Reasoning, Answer, Tool, Translator, World, emit, take_oi, mint, sorted_tools, envelope,
}
use modelship.Responses.Stream.Channels.{
  ToolDelta, non_empty, reasoning_from, on_reasoning, open_reasoning, reasoning_delta,
  close_reasoning_of, close_reasoning, content_from, on_content, open_message, content_delta,
  close_message_of, close_message, tool_at, minted_call, open_tool, arguments_delta, tool_call_from,
  on_tool_call, close_tool, close_each, close_tools,
}
use modelship.Responses.Stream.Translate.{
  Chunk, translator, close_all, start, process_all, finish_closed, finish, fail_closed, fail,
  streamed,
}
use modelship.Responses.Stream.Reads.{collect, collect-emit, number, upto}
use modelship.Responses.Stream.Walks.{process_all-keeps}

-- `P` holds through every event and whatever is no event
module _ (world : World) (P : Translator → Type 0)
    (emits : (kind : String) (payload : Fields) (t : Translator) → P t → P (emit kind payload t))
    (silent : (t t' : Translator) → t'.seq ≡ t.seq → t'.sent ≡ t.sent → P t → P t') where
  reasoning_from-P :
      (text : String) (o : Option Reasoning) (t : Translator)
      → P t
      → P (reasoning_from world text o t)
  unfolding reasoning_from open_reasoning reasoning_delta take_oi mint
  reasoning_from-P text none t h =
      emits _ _ _
        (silent _ _ refl refl (emits _ _ _ (emits _ _ _ (silent t (take_oi (mint t)) refl refl h))))
  reasoning_from-P text (some r) t h = emits _ _ _ (silent t _ refl refl h)

  content_from-P :
      (text : String) (o : Option Answer) (t : Translator) → P t → P (content_from world text o t)
  unfolding content_from open_message content_delta take_oi mint
  content_from-P text none t h =
      emits _ _ _
        (silent _ _ refl refl (emits _ _ _ (emits _ _ _ (silent t (take_oi (mint t)) refl refl h))))
  content_from-P text (some m) t h = emits _ _ _ (silent t _ refl refl h)

  arguments_delta-P :
      (text : Option String) (c : Tool) (t : Translator) → P t → P (arguments_delta text c t)
  unfolding arguments_delta
  arguments_delta-P none c t h = h
  arguments_delta-P (some text) c t h = emits _ _ _ (silent t _ refl refl h)

  minted_call-P : (id : Option String) (t : Translator) → P t → P (minted_call id t)
  unfolding mint
  minted_call-P none t h = silent t _ refl refl h
  minted_call-P (some id) t h = h

  tool_call_from-P :
      (tc : ToolDelta) (o : Option Tool) (t : Translator) → P t → P (tool_call_from world tc o t)
  unfolding tool_call_from open_tool mint take_oi
  tool_call_from-P tc none t h =
      arguments_delta-P (non_empty tc.arguments) _ _
        (emits _ _ _ (silent _ _ refl refl (minted_call-P (non_empty tc.id) t h)))
  tool_call_from-P tc (some c) t h =
      arguments_delta-P (non_empty tc.arguments) _ _ (silent t _ refl refl h)

  close_reasoning_of-P : (o : Option Reasoning) (t : Translator) → P t → P (close_reasoning_of o t)
  unfolding close_reasoning_of
  close_reasoning_of-P none t h = h
  close_reasoning_of-P (some r) t h =
      emits _ _ _ (silent _ _ refl refl (emits _ _ _ (emits _ _ t h)))

  close_message_of-P : (o : Option Answer) (t : Translator) → P t → P (close_message_of o t)
  unfolding close_message_of
  close_message_of-P none t h = h
  close_message_of-P (some m) t h = emits _ _ _ (silent _ _ refl refl (emits _ _ _ (emits _ _ t h)))

  close_each-P : (cs : List Tool) (t : Translator) → P t → P (close_each cs t)
  unfolding close_each close_tool
  close_each-P [] t h = h
  close_each-P (c ∷ cs) t h = close_each-P cs _ (emits _ _ _ (emits _ _ _ (silent t _ refl refl h)))

  pub close_all-P : (t : Translator) → P t → P (close_all t)
  unfolding close_all close_reasoning close_message close_tools
  close_all-P t h =
      close_each-P (sorted_tools (close_message (close_reasoning t)).tools) _
        (close_message_of-P _ _ (close_reasoning_of-P t.reasoning t h))

  envelope-P :
      (kind : String) (outcome : Outcome) (t : Translator) → P t → P (envelope world kind outcome t)
  unfolding envelope
  envelope-P kind outcome t h = emits _ _ _ (silent t _ refl refl h)

  pub finish-P : (t : Translator) → P t → P (finish world t)
  unfolding finish finish_closed
  finish-P t h = envelope-P _ _ _ (close_all-P t h)

  pub fail-P : (message code : String) (t : Translator) → P t → P (fail world message code t)
  unfolding fail fail_closed
  fail-P message code t h = envelope-P _ _ _ (close_all-P t h)

  pub process_all-P : (chunks : List Chunk) (t : Translator) → P t → P (process_all world chunks t)
  unfolding on_reasoning on_content on_tool_call
  process_all-P =
      process_all-keeps world P (λ text t. reasoning_from-P text t.reasoning t)
        (λ text t. content_from-P text t.message t)
        (λ tc t. tool_call_from-P tc (tool_at tc.index t.tools) t)
        (λ t model usage reason. silent t _ refl refl)

  pub streamed-P :
      (request : Request) (id : String) (chunks : List Chunk)
      → P (translator request id)
      → P (streamed world request id chunks)
  unfolding streamed start
  streamed-P request id chunks h = process_all-P chunks _ (envelope-P _ _ _ (envelope-P _ _ _ h))

-- the numbers of the events so far are 0, 1, 2 and so on, and the next comes after them
abbrev pub Numbered : Translator → Type 0
Numbered t = collect number t.sent ≡ upto t.seq

seq-emit :
    (kind : String) (payload : Fields) (t : Translator) → (emit kind payload t).seq ≡ suc t.seq
unfolding emit
seq-emit kind payload t = refl

emit-Numbered :
    (kind : String) (payload : Fields) (t : Translator)
    → Numbered t
    → Numbered (emit kind payload t)
emit-Numbered kind payload t h = rw (seq-emit, collect-emit number) (ap (λ ns. ns ++ t.seq ∷ []) h)

same-Numbered : (t t' : Translator) → t'.seq ≡ t.seq → t'.sent ≡ t.sent → Numbered t → Numbered t'
same-Numbered t t' e s h = rw (e, s) h

translator-Numbered : (request : Request) (id : String) → Numbered (translator request id)
unfolding translator
translator-Numbered request id = refl

module _ (world : World) (request : Request) (id : String) (chunks : List Chunk) where
  -- The events of a response that is finished are numbered 0, 1, 2 and so on, in the order in which they
  -- are sent.
  pub finish-Numbered : Numbered (finish world (streamed world request id chunks))
  finish-Numbered = finish-P world Numbered emit-Numbered same-Numbered _ (
      streamed-P world Numbered emit-Numbered same-Numbered request id chunks
        (translator-Numbered request id))

  -- So are the events of a response that fails after some chunks.
  pub fail-Numbered :
      (message code : String)
      → Numbered (fail world message code (streamed world request id chunks))
  fail-Numbered message code = fail-P world Numbered emit-Numbered same-Numbered message code _ (
      streamed-P world Numbered emit-Numbered same-Numbered request id chunks
        (translator-Numbered request id))
