-- ===== src/Responses/Stream/Items/Calls.antt =====
-- Through the deltas of the tool calls, the open items are those that the state holds.
use mathlib.Core.List.{append_assoc}
use mathlib.Core.List.Perm
use modelship.Prelude.{
  suc, ◌≡◌, refl, sym, ap, ◌∙◌, String, Option, none, some, [], ◌∷◌, ◌++◌, str_eq, Bool-cases, inl,
  inr,
}
use modelship.Json.{int, field_of}
use modelship.Responses.Stream.{Tool, Translator, World, emit, take_oi, mint}
use modelship.Responses.Stream.Channels.{
  ToolDelta, non_empty, tool_at, put_tool, minted_call, new_tool, named_tool, open_tool,
  arguments_delta, tool_call_from,
}
use modelship.Responses.Stream.Items.{of_reasoning, of_answer, of_tools, aside-OpenAs, added-OpenAs}
use modelship.Responses.Stream.Items.Tools.{
  put_tool-new, put_tool-same, tool_at-put_tool, tool_at-index,
}
use modelship.Responses.Stream.Items.Opening.{
  held_now, held-emit, OpenHeld, as_held, emit-OpenHeld, aside-OpenHeld,
}

same_tools :
    (t : Translator) (c : Tool)
    → of_tools (put_tool c t.tools) ≡ of_tools t.tools
    → held_now (record t { tools = put_tool c t.tools }) ≡ held_now t
unfolding held_now
same_tools t c e = ap (λ is. of_reasoning t.reasoning ++ (of_answer t.message ++ is)) e

arguments_delta-OpenHeld :
    (text : Option String) (c d : Tool) (t : Translator)
    → tool_at c.index t.tools ≡ some d
    → d.output_index ≡ c.output_index
    → OpenHeld t
    → OpenHeld (arguments_delta text c t)
unfolding arguments_delta OpenHeld
arguments_delta-OpenHeld none c d t g e h = h
arguments_delta-OpenHeld (some text) c d t g e h =
    emit-OpenHeld _ _ _ (held_now t) refl (same_tools t _ (put_tool-same _ d t.tools g e))
      (aside-OpenAs _ _ t _ refl refl refl h)

new_tools :
    (t : Translator) (c : Tool)
    → tool_at c.index t.tools ≡ none
    → c.output_index ≡ t.next_oi
    → held_now (record t { next_oi = suc t.next_oi; tools = put_tool c t.tools })
      ≡ held_now t ++ t.next_oi ∷ []
unfolding held_now
new_tools t c g i =
    ap (λ is. of_reasoning t.reasoning ++ (of_answer t.message ++ is))
      (put_tool-new c t.tools g ∙ ap (λ k. of_tools t.tools ++ k ∷ []) i)
    ∙ ap (λ is. of_reasoning t.reasoning ++ is)
        (sym (append_assoc (of_answer t.message) (of_tools t.tools) (t.next_oi ∷ [])))
    ∙ sym (
        append_assoc (of_reasoning t.reasoning) (of_answer t.message ++ of_tools t.tools)
          (t.next_oi ∷ []))

open_tool-OpenHeld :
    (c : Tool) (t : Translator)
    → tool_at c.index t.tools ≡ none
    → c.output_index ≡ t.next_oi
    → OpenHeld t
    → OpenHeld (open_tool c t)
unfolding open_tool take_oi field_of OpenHeld
open_tool-OpenHeld c t g i h =
    as_held _ _ (held-emit _ _ _ ∙ new_tools t c g i)
      (added-OpenAs (held_now t) _ _ t _ refl refl (ap (λ k. some (int k)) i) (Perm.refl _) h)

tools-open_tool : (c : Tool) (t : Translator) → (open_tool c t).tools ≡ put_tool c t.tools
unfolding open_tool take_oi emit
tools-open_tool c t = refl

new_call-OpenHeld :
    (world : World) (tc : ToolDelta) (call_id : String) (t : Translator)
    → tool_at tc.index t.tools ≡ none
    → OpenHeld t
    → OpenHeld (
        arguments_delta
          (non_empty tc.arguments)
          (new_tool world tc call_id t)
          (open_tool (new_tool world tc call_id t) (mint t)))
unfolding mint
new_call-OpenHeld world tc call_id t g h =
    arguments_delta-OpenHeld (non_empty tc.arguments) (new_tool world tc call_id t)
      (new_tool world tc call_id t) _
      (rw tools-open_tool (tool_at-put_tool (new_tool world tc call_id t) t.tools)) refl
      (open_tool-OpenHeld (new_tool world tc call_id t) (mint t) g refl
        (aside-OpenHeld t (mint t) refl refl (unfold held_now in refl) h))

minted_call-OpenHeld :
    (id : Option String) (t : Translator)
    → OpenHeld t
    → OpenHeld (minted_call id t) × ((minted_call id t).tools ≡ t.tools)
unfolding mint
minted_call-OpenHeld (some id) t h = (h, refl)
minted_call-OpenHeld none t h = (aside-OpenHeld t _ refl refl (unfold held_now in refl) h, refl)

named_tool-same :
    (name : Option String) (c : Tool)
    → ((named_tool name c).index ≡ c.index) × ((named_tool name c).output_index ≡ c.output_index)
named_tool-same none c = (refl, refl)
named_tool-same (some name) c = elim (Bool-cases (str_eq c.name "")) [
  | inl e ↦ rw e (refl, refl)
  | inr e ↦ rw e (refl, refl)
]

known_call-OpenHeld :
    (text : Option String) (c d : Tool) (t : Translator)
    → tool_at d.index t.tools ≡ some c
    → d.output_index ≡ c.output_index
    → OpenHeld t
    → OpenHeld (arguments_delta text d (record t { tools = put_tool d t.tools }))
known_call-OpenHeld text c d t g e h =
    arguments_delta-OpenHeld text d d _ (tool_at-put_tool d t.tools) refl
      (aside-OpenHeld t _ refl refl (same_tools t d (put_tool-same d c t.tools g (sym e))) h)

pub tool_call_from-OpenHeld :
    (world : World) (tc : ToolDelta) (o : Option Tool) (t : Translator)
    → tool_at tc.index t.tools ≡ o
    → OpenHeld t
    → OpenHeld (tool_call_from world tc o t)
unfolding tool_call_from
tool_call_from-OpenHeld world tc none t g h =
    new_call-OpenHeld world tc _ (minted_call (non_empty tc.id) t)
      (rw (minted_call-OpenHeld (non_empty tc.id) t h).1 g)
      (minted_call-OpenHeld (non_empty tc.id) t h).0
tool_call_from-OpenHeld world tc (some c) t g h =
    known_call-OpenHeld (non_empty tc.arguments) c (named_tool (non_empty tc.name) c) t
      (ap (λ i. tool_at i t.tools)
          ((named_tool-same (non_empty tc.name) c).0 ∙ tool_at-index tc.index c t.tools g)
        ∙ g)
      (named_tool-same (non_empty tc.name) c).1 h
