-- ===== src/Responses/Messages/Roles.antt =====
-- A chat has at most one system message, and it is the first.
use modelship.Prelude.{String, ◌≡◌, refl, true, false, Option, List, [], ◌∷◌, All, All-append}
use modelship.Json.{Json, str, arr, to_list}
use modelship.Responses.Result.{returned, >>=-returned}
use modelship.Responses.Messages.{
  Message, system, said, Walk, Walked, is_system, walk, items_with, inner_items,
  messages_from_items, messages_from_input, with_system,
}
use modelship.Responses.Messages.Steps.{Nested, Adds, walk-keeps, returned-inj}
use mathlib.Core.Path.{subst}

-- not a system message, nor one with a role of the same rank
abbrev pub Plain : Message → Type 0
Plain (system t) = true ≡ false
Plain (said role content r) = is_system role ≡ false
Plain _ = Unit

-- only the first may be a system message
abbrev pub SystemFirst : List Message → Type 0
SystemFirst [] = Unit
SystemFirst (system t ∷ ms) = All Plain ms
SystemFirst (m ∷ ms) = Plain m × All Plain ms

module _ (nested : Nested)
    (inner-Plain : (items : List Json) (parts : List String) (r : Walked)
      → nested items parts ≡ returned r
      → All Plain r.0) where
  Adds-Plain : (w w' : Walk) → Adds nested w w' → All Plain w.messages → All Plain w'.messages
  Adds-Plain w w' (Adds.nothing e s) h = rw e h
  Adds-Plain w w' (Adds.a_call id name arguments r e s) h =
      rw e (All-append Plain w.messages _ h (tt, tt))
  Adds-Plain w w' (Adds.a_pair id name arguments r c e s) h =
      rw e (All-append Plain _ _ (All-append Plain w.messages _ h (tt, tt)) (tt, tt))
  Adds-Plain w w' (Adds.an_answer id c m e s) h = rw e (All-append Plain w.messages _ h (tt, tt))
  Adds-Plain w w' (Adds.a_saying role c r plain e s) h =
      rw e (All-append Plain w.messages _ h (plain, tt))
  Adds-Plain w w' (Adds.inner items parts r n e s) h =
      rw e (All-append Plain w.messages _ h (inner-Plain items parts r n))

  items-Plain :
      (decrypt : Json → Option (List Json)) (items : List Json) (parts : List String) (r : Walked)
      → items_with decrypt nested items parts ≡ returned r
      → All Plain r.0
  unfolding items_with
  items-Plain decrypt items parts r h =
      let (w, walked, e) = >>=-returned (walk decrypt nested items _) _ h in
      subst (λ m. All Plain m.0) (returned-inj _ r e)
        (walk-keeps decrypt nested (λ ms seen. All Plain ms) Adds-Plain items _ w walked tt)

module _ (decrypt : Json → Option (List Json)) where
  messages-Plain :
      (input : Json) (parts : List String) (r : Walked)
      → messages_from_items decrypt input parts ≡ returned r
      → All Plain r.0
  unfolding messages_from_items inner_items
  messages-Plain (str t) parts r h = subst (λ m. All Plain m.0) (returned-inj _ r h) (refl, tt)
  messages-Plain (arr items) parts r h =
      items-Plain _ (items-Plain _ (λ items parts r e. absurd (cc e)) decrypt) decrypt
        (to_list items) parts r h
  messages-Plain _ parts r h = absurd (cc h)

  first_Plain : (ms : List Message) → All Plain ms → SystemFirst ms
  first_Plain [] h = tt
  first_Plain (system t ∷ ms) h = absurd (cc h.0)
  first_Plain (_ ∷ ms) h = h

  with_system-SystemFirst : (r : Walked) → All Plain r.0 → SystemFirst (with_system decrypt r)
  with_system-SystemFirst (ms, []) h = first_Plain ms h
  with_system-SystemFirst (ms, p ∷ ps) h = h

  -- Whatever system and developer items stand where in the input, compacted ones included, the chat
  -- messages hold a system message at most in the first place.
  pub messages_from_input-SystemFirst :
      (input : Json) (instructions : Option String) (ms : List Message)
      → messages_from_input decrypt input instructions ≡ returned ms
      → SystemFirst ms
  unfolding messages_from_input
  messages_from_input-SystemFirst input instructions ms h =
      let (r, e, k) = >>=-returned (messages_from_items decrypt input _) _ h in
      subst SystemFirst (returned-inj _ ms k)
        (with_system-SystemFirst r (messages-Plain input _ r e))
