-- ===== src/Conversations/Turns/Growth.antt =====
-- Appending an entry behind the last one of a conversation extends it by that entry.
use mathlib.Core.List.{append_assoc}
use mathlib.Core.Option.{some-injective}
use modelship.Prelude.{
  ℕ, suc, String, ◌≡◌, refl, ap, sym, true, false, Option, none, some, List, [], ◌∷◌, ◌++◌, arith,
  length-append,
}
use modelship.Json.{Json, Fields, obj, as_arr-list_json}
use modelship.State.Memory.{taken, values_in}
use modelship.State.Memory.Logs.{Above, Increasing}
use modelship.State.Store.{Content}
use modelship.Conversations.Keys.{log_key}
use modelship.Conversations.Records.{Position, Entry, bind, entry, entries_of}
use modelship.Conversations.History.{
  found, Base, no_base, based_on, malformed, base_of, stop, go_on, round, round_from,
}
use modelship.Conversations.History.Chain.{
  Chain, root, fork, held_at, log_at, segment, first-lt, Grows, Ascending, Chain-kept,
}
use modelship.Conversations.Turns.{forked, entry_fields}

-- the entry as it is read back
abbrev pub turn_entry : Fields → List Json → List Json → Entry
turn_entry fields input output = record { fields = fields; input = input; output = output }

pub entry-entry_fields :
    (response_id : String) (input output : List Json)
    → entry (obj (entry_fields response_id input output))
      ≡ some (turn_entry (entry_fields response_id input output) input output)
unfolding entry entry_fields
entry-entry_fields response_id input output = rw (as_arr-list_json, as_arr-list_json)

pub entry-forked :
    (response_id : String) (input output : List Json) (p : Position)
    → entry (obj (forked (entry_fields response_id input output) p))
      ≡ some (turn_entry (forked (entry_fields response_id input output) p) input output)
unfolding entry entry_fields forked
entry-forked response_id input output p = rw (as_arr-list_json, as_arr-list_json)

pub base_of-entry_fields :
    (response_id : String) (input output : List Json)
    → base_of (entry_fields response_id input output) ≡ no_base
unfolding base_of entry_fields
base_of-entry_fields response_id input output = refl

pub base_of-forked :
    (response_id : String) (input output : List Json) (p : Position)
    → base_of (forked (entry_fields response_id input output) p) ≡ based_on p
unfolding base_of entry_fields forked
base_of-forked response_id input output p = refl

pub held-last : (d : ℕ) (v : Json) (es : List (ℕ × Json)) → held_at d (es ++ (d, v) ∷ []) ≡ true
unfolding held_at
held-last d v [] = ground arith
held-last d v ((n, w) ∷ es) = rw (held-last d v es) (ground arith)

values-Above :
    (n d : ℕ) (u v : Json) (es : List (ℕ × Json))
    → Above n es
    → taken ((n, u) ∷ es) (suc d) ≡ false
    → values_in 1 (some (suc d)) (es ++ (suc d, v) ∷ []) ≡ values_in 1 (some d) es ++ v ∷ []
unfolding values_in taken
values-Above n d u v [] h f = ground arith
values-Above n d u v ((m, w) ∷ es) h f =
    let lt = first-lt m w es (suc d) h.1 f in
    rw (values-Above m d w v es h.1 f) (ground (arith, lt))

pub values-last :
    (d : ℕ) (v : Json) (es : List (ℕ × Json))
    → Increasing es
    → taken es (suc d) ≡ false
    → values_in 1 (some (suc d)) (es ++ (suc d, v) ∷ []) ≡ values_in 1 (some d) es ++ v ∷ []
values-last d v [] h f = unfold values_in in ground arith
values-last d v ((n, u) ∷ es) h f =
    let lt = first-lt n u es (suc d) h f in
    let rest = values-Above n d u v es h f in unfold values_in in rw rest (ground (arith, lt))

bind-eq-some {ℓ κ} :
    {A : Type ℓ} {B : Type κ} (m : Option A) (f : A → Option B) {b : B}
    → bind m f ≡ some b
    → (a : A) × (m ≡ some a) × (f a ≡ some b)
bind-eq-some none f h = cc
bind-eq-some (some a) f h = (a, refl, h)

entries_of-append :
    (vs : List Json) (v : Json) (es : List Entry) (e : Entry)
    → entries_of vs ≡ some es
    → entry v ≡ some e
    → entries_of (vs ++ v ∷ []) ≡ some (es ++ e ∷ [])
unfolding entries_of
entries_of-append [] v es e h k = rw k (ap (λ x. some (x ++ e ∷ [])) (some-injective _ _ h))
entries_of-append (w ∷ vs) v es e h k =
    let (e1, first, more) = bind-eq-some (entry w) _ h in
    let (es1, others, whole) = bind-eq-some (entries_of vs) _ more in
    rw (first, entries_of-append vs v es1 e others k)
      (ap (λ x. some (x ++ e ∷ [])) (some-injective _ _ whole))

round_from-append :
    (b : Base) (d : ℕ) (es : List Entry) (e : Entry) (fs : List Entry)
    → round_from b d es ≡ stop (found fs)
    → (fs ≡ es) × (round_from b (suc d) (es ++ e ∷ []) ≡ stop (found (es ++ e ∷ [])))
unfolding round_from
round_from-append no_base d es e fs h = ground (arith, length-append es (e ∷ []))
round_from-append (based_on q) d es e fs h = ground arith
round_from-append malformed d es e fs h = ground arith

round_from-append_go :
    (b : Base) (d : ℕ) (es : List Entry) (e : Entry) (fs : List Entry) (q : Position)
    → round_from b d es ≡ go_on fs q
    → (fs ≡ es) × (round_from b (suc d) (es ++ e ∷ []) ≡ go_on (es ++ e ∷ []) q)
unfolding round_from
round_from-append_go no_base d es e fs q h = ground arith
round_from-append_go (based_on r) d es e fs q h = ground (arith, length-append es (e ∷ []))
round_from-append_go malformed d es e fs q h = ground arith

round-append :
    (o : Option (List Entry)) (d : ℕ) (e : Entry) (fs : List Entry)
    → round o d ≡ stop (found fs)
    → (o ≡ some fs) × (round (some (fs ++ e ∷ [])) (suc d) ≡ stop (found (fs ++ e ∷ [])))
round-append none d e fs h = absurd (unfold round in cc h)
round-append (some []) d e fs h = absurd (unfold round in cc h)
round-append (some (a ∷ as')) d e fs h =
    let (eq, r) = round_from-append (base_of a.fields) d (a ∷ as') e fs (unfold round in h) in
    (ap some (sym eq), rw eq (unfold round in r))

round-append_go :
    (o : Option (List Entry)) (d : ℕ) (e : Entry) (fs : List Entry) (q : Position)
    → round o d ≡ go_on fs q
    → (o ≡ some fs) × (round (some (fs ++ e ∷ [])) (suc d) ≡ go_on (fs ++ e ∷ []) q)
round-append_go none d e fs q h = absurd (unfold round in cc h)
round-append_go (some []) d e fs q h = absurd (unfold round in cc h)
round-append_go (some (a ∷ as')) d e fs q h =
    let (eq, r) = round_from-append_go (base_of a.fields) d (a ∷ as') e fs q (unfold round in h) in
    (ap some (sym eq), rw eq (unfold round in r))

-- Where the entries up to `p` make a conversation, one entry more at the next depth extends it.
module _ (c c' : Content Json) (identity : String) (p : Position) (v : Json) (e : Entry)
    (grows : Grows c c') (asc : Ascending c)
    (free : taken (log_at c identity p.log) (suc p.depth) ≡ false) (read : entry v ≡ some e)
    (grown : log_at c' identity p.log ≡ log_at c identity p.log ++ (suc p.depth, v) ∷ []) where
  segment-next :
      (fs : List Entry)
      → segment c identity p ≡ some fs
      → segment c' identity (record { log = p.log; depth = suc p.depth }) ≡ some (fs ++ e ∷ [])
  segment-next fs h =
      rw
        (grown, values-last p.depth v (log_at c identity p.log) (asc (log_key identity p.log)) free)
        (entries_of-append (values_in 1 (some p.depth) (log_at c identity p.log)) v fs e h read)

  pub Chain-extended :
      (es : List Entry)
      → Chain c identity p es
      → Chain c' identity (record { log = p.log; depth = suc p.depth }) (es ++ e ∷ [])
  Chain-extended es (root _ _ t r) =
      let (is_segment, r') = round-append (segment c identity p) p.depth e es r in
      Chain.root _ _ (rw grown (held-last (suc p.depth) v (log_at c identity p.log)))
        (rw (segment-next es is_segment) r')
  Chain-extended es (fork _ q gs fs _ t r rest whole) =
      let (is_segment, r') = round-append_go (segment c identity p) p.depth e gs q r in
      Chain.fork _ q (gs ++ e ∷ []) fs _
        (rw grown (held-last (suc p.depth) v (log_at c identity p.log)))
        (rw (segment-next gs is_segment) r') (Chain-kept c c' grows asc identity rest)
        (rw whole (append_assoc fs gs (e ∷ [])))
