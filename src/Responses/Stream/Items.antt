-- ===== src/Responses/Stream/Items.antt =====
-- The output items of a response, as the events that open and close them say.
pub mod Tools
pub mod Opening
pub mod Calls
pub mod Closing
use mathlib.Core.List.{Perm, perm_middle, append_assoc, append-nil, map-append}
use mathlib.Core.List.Perm
use mathlib.Core.Path.{subst}
use modelship.Prelude.{
  ℕ, suc, ◌≡◌, refl, sym, ap, ◌∙◌, String, Bool, true, false, ◌||◌, Option, none, some, List, [],
  ◌∷◌, ◌++◌, map, leb, ◌==◌, str_eq, arith, Bool-cases, inl, inr, if◌then◌else◌,
}
use modelship.Json.{Json, Fields, str, int, field_of}
use modelship.Responses.Chat.{Request}
use modelship.Responses.Envelope.{Outcome, status_for}
use modelship.Responses.Stream.{
  Event, Reasoning, Answer, Tool, Translator, World, emit, take_oi, mint, insert_tool, sorted_tools,
  envelope,
}
use modelship.Responses.Stream.Channels.{
  ToolDelta, non_empty, new_reasoning, reasoning_from, on_reasoning, open_reasoning,
  reasoning_delta, close_reasoning_of, close_reasoning, new_answer, content_from, on_content,
  open_message, content_delta, close_message_of, close_message, tool_at, put_tool, call_of,
  minted_call, new_tool, named_tool, open_tool, arguments_delta, tool_call_from, on_tool_call,
  close_tool, close_each, close_tools,
}
use modelship.Responses.Stream.Translate.{
  Chunk, is_incomplete, translator, close_all, start, process_all, finish_closed, finish,
  terminal_kind, streamed,
}
use modelship.Responses.Stream.Reads.{collect, collect-emit, index_in, int_in, upto}
use modelship.Responses.Stream.Walks.{process_all-keeps}

-- the output indexes of the events that open items, and of those that close them
abbrev pub opened : List Event → List ℕ
opened es = collect (index_in "response.output_item.added") es

abbrev pub closed : List Event → List ℕ
closed es = collect (index_in "response.output_item.done") es

abbrev is_bracket : String → Bool
is_bracket kind =
    str_eq kind "response.output_item.added" || str_eq kind "response.output_item.done"

-- the output indexes of the items that the state holds
abbrev of_reasoning : Option Reasoning → List ℕ
of_reasoning none = []
of_reasoning (some r) = r.output_index ∷ []

abbrev of_answer : Option Answer → List ℕ
of_answer none = []
of_answer (some m) = m.output_index ∷ []

abbrev of_tools : List Tool → List ℕ
of_tools = map (λ c. c.output_index)

abbrev held : Option Reasoning → Option Answer → List Tool → List ℕ
held r m cs = of_reasoning r ++ (of_answer m ++ of_tools cs)

-- The items opened so far have the indexes 0, 1, 2 and so on, none is closed, and `is` are theirs.
unfoldable pub OpenAs : List ℕ → Translator → Type 0
OpenAs is t = (opened t.sent ≡ upto t.next_oi) × (closed t.sent ≡ []) × Perm is (upto t.next_oi)

abbrev OpenNow : Translator → Type 0
OpenNow t = OpenAs (held t.reasoning t.message t.tools) t

-- `n` items are opened so far, and those of `is` are closed
unfoldable pub ClosedAs : ℕ → List ℕ → Translator → Type 0
ClosedAs n is t = (opened t.sent ≡ upto n) × (closed t.sent ≡ is)

pub index_in-quiet :
    (kind : String) (payload : Fields) (n : ℕ)
    → is_bracket kind ≡ false
    → (index_in "response.output_item.added"
          (record { kind = kind; sequence_number = n; payload = payload })
        ≡ [])
      × (index_in "response.output_item.done"
            (record { kind = kind; sequence_number = n; payload = payload })
          ≡ [])
index_in-quiet kind payload n q = elim (Bool-cases (str_eq kind "response.output_item.added")) [
  | inl e ↦ absurd (cc (rw e at q))
  | inr e ↦ elim (Bool-cases (str_eq kind "response.output_item.done")) [
    | inl f ↦ absurd (cc (rw (e, f) at q))
    | inr f ↦ (rw e refl, rw f refl)
  ]
]

pub next_oi-emit :
    (kind : String) (payload : Fields) (t : Translator) → (emit kind payload t).next_oi ≡ t.next_oi
unfolding emit
next_oi-emit kind payload t = refl

pub emit-quiet :
    (kind : String) (payload : Fields) (t : Translator)
    → is_bracket kind ≡ false
    → (opened (emit kind payload t).sent ≡ opened t.sent)
      × (closed (emit kind payload t).sent ≡ closed t.sent)
emit-quiet kind payload t q = (
  collect-emit (index_in "response.output_item.added") kind payload t
      ∙ rw (index_in-quiet kind payload t.seq q).0 (append-nil _),
  collect-emit (index_in "response.output_item.done") kind payload t
      ∙ rw (index_in-quiet kind payload t.seq q).1 (append-nil _),
)

pub quiet-OpenAs :
    (is : List ℕ) (kind : String) (payload : Fields) (t : Translator)
    → is_bracket kind ≡ false
    → OpenAs is t
    → OpenAs is (emit kind payload t)
unfolding OpenAs
quiet-OpenAs is kind payload t q h =
    rw (next_oi-emit, (emit-quiet kind payload t q).0, (emit-quiet kind payload t q).1) h

pub quiet-ClosedAs :
    (n : ℕ) (is : List ℕ) (kind : String) (payload : Fields) (t : Translator)
    → is_bracket kind ≡ false
    → ClosedAs n is t
    → ClosedAs n is (emit kind payload t)
unfolding ClosedAs
quiet-ClosedAs n is kind payload t q h =
    rw ((emit-quiet kind payload t q).0, (emit-quiet kind payload t q).1) h

pub aside-OpenAs :
    (is is' : List ℕ) (t t' : Translator)
    → t'.sent ≡ t.sent
    → t'.next_oi ≡ t.next_oi
    → is' ≡ is
    → OpenAs is t
    → OpenAs is' t'
unfolding OpenAs
aside-OpenAs is is' t t' s n e h = rw (s, n, e) h

pub aside-ClosedAs :
    (n : ℕ) (is : List ℕ) (t t' : Translator)
    → t'.sent ≡ t.sent
    → ClosedAs n is t
    → ClosedAs n is t'
unfolding ClosedAs
aside-ClosedAs n is t t' s h = rw s h

-- an item that is opened has the next index
pub added-OpenAs :
    (is is' : List ℕ) (payload : Fields) (t t' : Translator)
    → t'.sent ≡ t.sent
    → t'.next_oi ≡ suc t.next_oi
    → field_of "output_index" payload ≡ some (int t.next_oi)
    → Perm is' (is ++ t.next_oi ∷ [])
    → OpenAs is t
    → OpenAs is' (emit "response.output_item.added" payload t')
unfolding OpenAs
added-OpenAs is is' payload t t' s n p e (o, c, k) =
    rw
      (
        next_oi-emit,
        collect-emit (index_in "response.output_item.added"),
        collect-emit (index_in "response.output_item.done"),
        p,
        s,
        n,
        o,
        c,
      )
      (refl, refl, Perm.trans e (Perm.append k (Perm.refl (t.next_oi ∷ []))))

pub done-ClosedAs :
    (n : ℕ) (is : List ℕ) (i : ℕ) (payload : Fields) (t : Translator)
    → field_of "output_index" payload ≡ some (int i)
    → ClosedAs n is t
    → ClosedAs n (is ++ i ∷ []) (emit "response.output_item.done" payload t)
unfolding ClosedAs
done-ClosedAs n is i payload t p (o, c) =
    rw
      (
        collect-emit (index_in "response.output_item.added"),
        collect-emit (index_in "response.output_item.done"),
        p,
        o,
        c,
      )
      (append-nil _, refl)
