-- ===== src/Responses/Messages/Calls.antt =====
-- Every tool result of a chat answers a call that stands before it.
use mathlib.Core.Path.{subst}
use modelship.Prelude.{String, ◌≡◌, refl, true, Option, List, [], ◌∷◌, ◌++◌, str_eq_self, arith}
use modelship.Json.{Json, str, arr, to_list}
use modelship.Responses.Result.{returned, >>=-returned}
use modelship.Responses.Messages.{
  Message, system, said, called, answered, Walk, Walked, mem, walk, items_with, inner_items,
  messages_from_items, messages_from_input, with_system,
}
use modelship.Responses.Messages.Steps.{Nested, Adds, walk-keeps, returned-inj}

-- the call ids behind some messages, which stand behind `ids`
unfoldable pub ids_after : List String → List Message → List String
ids_after ids [] = ids
ids_after ids (called id name arguments r ∷ ms) = ids_after (id ∷ ids) ms
ids_after ids (_ ∷ ms) = ids_after ids ms

-- every tool result has the id of an earlier call, or one of `ids`
abbrev pub Answered : List String → List Message → Type 0
Answered ids [] = Unit
Answered ids (called id name arguments r ∷ ms) = Answered (id ∷ ids) ms
Answered ids (answered id content ∷ ms) = (mem id ids ≡ true) × Answered ids ms
Answered ids (_ ∷ ms) = Answered ids ms

abbrev Within : List String → List String → Type 0
Within ids js = (k : String) → mem k ids ≡ true → mem k js ≡ true

Within-cons : (id : String) (ids js : List String) → Within ids js → Within (id ∷ ids) (id ∷ js)
Within-cons id ids js h k e = ground (arith, e, h k)

Answered-mono :
    (ms : List Message) (ids js : List String) → Within ids js → Answered ids ms → Answered js ms
Answered-mono [] ids js w h = tt
Answered-mono (called id name arguments r ∷ ms) ids js w h =
    Answered-mono ms (id ∷ ids) (id ∷ js) (Within-cons id ids js w) h
Answered-mono (answered id content ∷ ms) ids js w h = (w id h.0, Answered-mono ms ids js w h.1)
Answered-mono (system t ∷ ms) ids js w h = Answered-mono ms ids js w h
Answered-mono (said role content r ∷ ms) ids js w h = Answered-mono ms ids js w h

Answered-append :
    (ms ns : List Message) (ids : List String)
    → Answered ids ms
    → Answered (ids_after ids ms) ns
    → Answered ids (ms ++ ns)
unfolding ids_after
Answered-append [] ns ids h k = k
Answered-append (called id name arguments r ∷ ms) ns ids h k = Answered-append ms ns (id ∷ ids) h k
Answered-append (answered id content ∷ ms) ns ids h k = (h.0, Answered-append ms ns ids h.1 k)
Answered-append (system t ∷ ms) ns ids h k = Answered-append ms ns ids h k
Answered-append (said role content r ∷ ms) ns ids h k = Answered-append ms ns ids h k

ids_after-append :
    (ms ns : List Message) (ids : List String)
    → ids_after ids (ms ++ ns) ≡ ids_after (ids_after ids ms) ns
unfolding ids_after
ids_after-append [] ns ids = refl
ids_after-append (called id name arguments r ∷ ms) ns ids = ids_after-append ms ns (id ∷ ids)
ids_after-append (answered id content ∷ ms) ns ids = ids_after-append ms ns ids
ids_after-append (system t ∷ ms) ns ids = ids_after-append ms ns ids
ids_after-append (said role content r ∷ ms) ns ids = ids_after-append ms ns ids

ids_after-Within : (ms : List Message) (ids : List String) → Within ids (ids_after ids ms)
unfolding ids_after
ids_after-Within [] ids k e = e
ids_after-Within (called id name arguments r ∷ ms) ids k e =
    ids_after-Within ms (id ∷ ids) k (ground (arith, e))
ids_after-Within (answered id content ∷ ms) ids k e = ids_after-Within ms ids k e
ids_after-Within (system t ∷ ms) ids k e = ids_after-Within ms ids k e
ids_after-Within (said role content r ∷ ms) ids k e = ids_after-Within ms ids k e

last_id :
    (ms : List Message) (id name : String) (arguments : Json) (r : Option String)
    → mem id (ids_after [] (ms ++ called id name arguments r ∷ [])) ≡ true
unfolding ids_after
last_id ms id name arguments r = rw (ids_after-append, str_eq_self)

-- the messages are answered, and the ids seen are ids of their calls
record Inv (ms : List Message) (seen : List String) : Type 0 where
  answers : Answered [] ms
  known : Within seen (ids_after [] ms)

-- messages that are added behind, with the ids seen then
Inv-append :
    (ms ns : List Message) (seen seen' : List String)
    → Inv ms seen
    → Answered (ids_after [] ms) ns
    → Within seen' (ids_after (ids_after [] ms) ns)
    → Inv (ms ++ ns) seen'
Inv-append ms ns seen seen' v a k = record {
  answers = Answered-append ms ns [] v.answers a;
  known = rw (ids_after-append ms ns []) k;
}

module _ (nested : Nested)
    (inner-Answered : (items : List Json) (parts : List String) (r : Walked)
      → nested items parts ≡ returned r
      → Answered [] r.0) where
  Adds-Inv : (w w' : Walk) → Adds nested w w' → Inv w.messages w.seen → Inv w'.messages w'.seen
  unfolding ids_after
  Adds-Inv w w' (Adds.nothing e s) v = rw (e, s) v
  Adds-Inv w w' (Adds.a_call id name arguments r e s) v =
      rw (e, s)
        (Inv-append w.messages _ w.seen _ v tt
          (Within-cons id w.seen (ids_after [] w.messages) v.known))
  Adds-Inv w w' (Adds.a_pair id name arguments r c e s) v =
      let one =
        Inv-append w.messages (called id name arguments r ∷ []) w.seen w.seen v tt
          (λ k i. ground (arith, v.known k i)) in
      rw (e, s)
        (Inv-append _ (answered id c ∷ []) w.seen _ one (last_id w.messages id name arguments r, tt)
          one.known)
  Adds-Inv w w' (Adds.an_answer id c m e s) v =
      rw (e, s) (Inv-append w.messages _ w.seen _ v (v.known id m, tt) v.known)
  Adds-Inv w w' (Adds.a_saying role c r plain e s) v =
      rw (e, s) (Inv-append w.messages _ w.seen _ v tt v.known)
  Adds-Inv w w' (Adds.inner items parts r n e s) v =
      rw (e, s)
        (Inv-append w.messages r.0 w.seen _ v
          (Answered-mono r.0 [] (ids_after [] w.messages) (λ k i. absurd (cc i))
            (inner-Answered items parts r n))
          λ k i. ids_after-Within r.0 (ids_after [] w.messages) k (v.known k i))

  items-Answered :
      (decrypt : Json → Option (List Json)) (items : List Json) (parts : List String) (r : Walked)
      → items_with decrypt nested items parts ≡ returned r
      → Answered [] r.0
  unfolding items_with
  items-Answered decrypt items parts r h =
      let (w, walked, e) = >>=-returned (walk decrypt nested items _) _ h in
      subst (λ m. Answered [] m.0) (returned-inj _ r e)
        (walk-keeps decrypt nested Inv Adds-Inv items _ w walked
          (record { answers = tt; known = λ k i. absurd (cc i) })).answers

module _ (decrypt : Json → Option (List Json)) where
  messages-Answered :
      (input : Json) (parts : List String) (r : Walked)
      → messages_from_items decrypt input parts ≡ returned r
      → Answered [] r.0
  unfolding messages_from_items inner_items
  messages-Answered (str t) parts r h = subst (λ m. Answered [] m.0) (returned-inj _ r h) tt
  messages-Answered (arr items) parts r h =
      items-Answered _ (items-Answered _ (λ items parts r e. absurd (cc e)) decrypt) decrypt
        (to_list items) parts r h
  messages-Answered _ parts r h = absurd (cc h)

  with_system-Answered : (r : Walked) → Answered [] r.0 → Answered [] (with_system decrypt r)
  with_system-Answered (ms, []) h = h
  with_system-Answered (ms, p ∷ ps) h = h

  -- Every tool result in the chat messages of an input, compacted items included, has the id of a call
  -- in a message before it.
  pub messages_from_input-Answered :
      (input : Json) (instructions : Option String) (ms : List Message)
      → messages_from_input decrypt input instructions ≡ returned ms
      → Answered [] ms
  unfolding messages_from_input
  messages_from_input-Answered input instructions ms h =
      let (r, e, k) = >>=-returned (messages_from_items decrypt input _) _ h in
      subst (Answered []) (returned-inj _ ms k)
        (with_system-Answered r (messages-Answered input _ r e))
