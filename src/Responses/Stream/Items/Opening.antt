-- ===== src/Responses/Stream/Items/Opening.antt =====
-- Through the deltas of the reasoning and the message, the open items are those that the state holds.
use mathlib.Core.List.{Perm, perm_middle, append-nil}
use mathlib.Core.List.Perm
use mathlib.Core.Path.{subst}
use modelship.Prelude.{
  ℕ, suc, ◌≡◌, refl, ap, ◌∙◌, String, false, Option, none, some, List, [], ◌∷◌, ◌++◌,
}
use modelship.Json.{Fields, int, field_of}
use modelship.Responses.Stream.{Reasoning, Answer, Translator, World, emit, take_oi, mint}
use modelship.Responses.Stream.Channels.{
  new_reasoning, reasoning_from, open_reasoning, reasoning_delta, new_answer, content_from,
  open_message, content_delta,
}
use modelship.Responses.Stream.Items.{
  is_bracket, of_reasoning, of_answer, of_tools, held, OpenAs, quiet-OpenAs, aside-OpenAs,
  added-OpenAs,
}

-- the items that an event leaves, and the items of the state after a delta
unfoldable pub held_now : Translator → List ℕ
held_now t = held t.reasoning t.message t.tools

pub held-emit :
    (kind : String) (payload : Fields) (t : Translator)
    → held_now (emit kind payload t) ≡ held_now t
unfolding emit held_now
held-emit kind payload t = refl

unfoldable pub OpenHeld : Translator → Type 0
OpenHeld t = OpenAs (held_now t) t

pub as_held : (is : List ℕ) (t : Translator) → held_now t ≡ is → OpenAs is t → OpenHeld t
unfolding OpenHeld
as_held is t e h = aside-OpenAs is (held_now t) t t refl refl e h

pub emit-OpenHeld :
    (kind : String) (payload : Fields) (t : Translator) (is : List ℕ)
    → is_bracket kind ≡ false
    → held_now t ≡ is
    → OpenAs is t
    → OpenHeld (emit kind payload t)
emit-OpenHeld kind payload t is q e h =
    as_held is _ (held-emit kind payload t ∙ e) (quiet-OpenAs is kind payload t q h)

reasoning_delta-OpenHeld :
    (text : String) (r : Reasoning) (is : List ℕ) (t : Translator)
    → held (some r) t.message t.tools ≡ is
    → OpenAs is t
    → OpenHeld (reasoning_delta text r t)
unfolding reasoning_delta held_now
reasoning_delta-OpenHeld text r is t e h =
    emit-OpenHeld _ _ _ is refl e (aside-OpenAs is is t _ refl refl refl h)

content_delta-OpenHeld :
    (text : String) (m : Answer) (is : List ℕ) (t : Translator)
    → held t.reasoning (some m) t.tools ≡ is
    → OpenAs is t
    → OpenHeld (content_delta text m t)
unfolding content_delta held_now
content_delta-OpenHeld text m is t e h =
    emit-OpenHeld _ _ _ is refl e (aside-OpenAs is is t _ refl refl refl h)

last_first : (n : ℕ) (is : List ℕ) → Perm (n ∷ is) (is ++ n ∷ [])
last_first n is =
    Perm.symm (subst (λ js. Perm (is ++ n ∷ []) (n ∷ js)) (append-nil is) (perm_middle is []))

-- the indexes once a message is opened between the reasoning and the tools
middle_last : (n : ℕ) (is js : List ℕ) → Perm (is ++ n ∷ js) ((is ++ js) ++ n ∷ [])
middle_last n is js = Perm.trans (perm_middle is js) (last_first n (is ++ js))

open_reasoning-OpenAs :
    (r : Reasoning) (t t' : Translator) (is : List ℕ)
    → t'.sent ≡ t.sent
    → t'.next_oi ≡ suc t.next_oi
    → r.output_index ≡ t.next_oi
    → OpenAs is t
    → OpenAs (t.next_oi ∷ is) (open_reasoning r t')
unfolding open_reasoning field_of
open_reasoning-OpenAs r t t' is s n i h = quiet-OpenAs _ _ _ _ refl (
    added-OpenAs is (t.next_oi ∷ is) _ t t' s n (ap (λ k. some (int k)) i) (last_first t.next_oi is)
      h)

open_message-OpenAs :
    (m : Answer) (t t' : Translator) (is js : List ℕ)
    → t'.sent ≡ t.sent
    → t'.next_oi ≡ suc t.next_oi
    → m.output_index ≡ t.next_oi
    → OpenAs (is ++ js) t
    → OpenAs (is ++ t.next_oi ∷ js) (open_message m t')
unfolding open_message field_of
open_message-OpenAs m t t' is js s n i h = quiet-OpenAs _ _ _ _ refl (
    added-OpenAs (is ++ js) (is ++ t.next_oi ∷ js) _ t t' s n (ap (λ k. some (int k)) i)
      (middle_last t.next_oi is js) h)

open_reasoning-held :
    (r : Reasoning) (t : Translator)
    → held (some r) (open_reasoning r t).message (open_reasoning r t).tools
      ≡ r.output_index ∷ (of_answer t.message ++ of_tools t.tools)
unfolding open_reasoning emit
open_reasoning-held r t = refl

open_message-held :
    (m : Answer) (t : Translator)
    → held (open_message m t).reasoning (some m) (open_message m t).tools
      ≡ of_reasoning t.reasoning ++ m.output_index ∷ of_tools t.tools
unfolding open_message emit
open_message-held m t = refl

pub reasoning_from-OpenHeld :
    (world : World) (text : String) (o : Option Reasoning) (t : Translator)
    → OpenAs (held o t.message t.tools) t
    → OpenHeld (reasoning_from world text o t)
unfolding reasoning_from take_oi mint
reasoning_from-OpenHeld world text (some r) t h =
    reasoning_delta-OpenHeld text r (held (some r) t.message t.tools) t refl h
reasoning_from-OpenHeld world text none t h =
    reasoning_delta-OpenHeld text (new_reasoning world t) _ _
      (open_reasoning-held (new_reasoning world t) (take_oi (mint t)))
      (open_reasoning-OpenAs (new_reasoning world t) t (take_oi (mint t))
        (held none t.message t.tools) refl refl refl h)

pub content_from-OpenHeld :
    (world : World) (text : String) (o : Option Answer) (t : Translator)
    → OpenAs (held t.reasoning o t.tools) t
    → OpenHeld (content_from world text o t)
unfolding content_from take_oi mint
content_from-OpenHeld world text (some m) t h =
    content_delta-OpenHeld text m (held t.reasoning (some m) t.tools) t refl h
content_from-OpenHeld world text none t h =
    content_delta-OpenHeld text (new_answer world t) _ _
      (open_message-held (new_answer world t) (take_oi (mint t)))
      (open_message-OpenAs (new_answer world t) t (take_oi (mint t)) (of_reasoning t.reasoning)
        (of_tools t.tools) refl refl refl h)

pub aside-OpenHeld :
    (t t' : Translator)
    → t'.sent ≡ t.sent
    → t'.next_oi ≡ t.next_oi
    → held_now t' ≡ held_now t
    → OpenHeld t
    → OpenHeld t'
unfolding OpenHeld
aside-OpenHeld t t' s n e h = aside-OpenAs (held_now t) (held_now t') t t' s n e h
