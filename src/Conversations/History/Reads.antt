-- ===== src/Conversations/History/Reads.antt =====
-- Reading a conversation returns it, and changes nothing.
use modelship.Prelude.{
  ℕ, zero, suc, ◌<◌, String, ◌≡◌, refl, ap, ◌∙◌, Option, none, some, List, [], ◌∷◌, arith,
}
use modelship.Json.{Json}
use modelship.State.Memory.{values_in}
use modelship.State.Memory.Spec.{entries_in}
use modelship.State.Store.{StateStore, Action, Content}
use modelship.Conversations.Keys.{log_key}
use modelship.Conversations.Records.{Position, Entry, entries_of}
use modelship.Conversations.History.{
  Chained, found, go_on, round, together, extend, refresh, proceed, entries_loop, entries,
}
use modelship.Conversations.History.Chain.{Chain, root, fork, segment}
use modelship.Conversations.History.Termination.{round-go_on}

module _ (store : StateStore Json) (ttl : Option ℕ) (identity : String) where
  open store use {State, read_range, content, Lasting}

  -- a state that may replace `s`: it shows the same, and still nothing expires
  pub record Same (c : Content Json) (s : State) : Type 0 where
    pub shows : (k : String) → content s k ≡ c k
    pub lasting : Lasting ttl s

  extend-Same :
      (c : Content Json) (k : String) (s : State) (t : Option ℕ)
      → Lasting t s
      → ((j : String) → content (extend store ttl identity t k s).1 j ≡ content s j)
        × Lasting t (extend store ttl identity t k s).1
  unfolding extend
  extend-Same c k s none l = (λ j. refl, l)
  extend-Same c k s (some t) l = (λ j. store.expire-content t k j s l, store.expire-Lasting t k s l)

  pub refresh-Same :
      (c : Content Json) (log : String) (s : State)
      → Same c s
      → Same c (refresh store ttl identity log s).1
  refresh-Same c log s h =
      let (shown, lasts) = extend-Same c (log_key identity log) s ttl h.lasting in
      unfold refresh in record { shows = λ j. shown j ∙ h.shows j; lasting = lasts }

  pub read_range-Same :
      (c : Content Json) (k : String) (a : ℕ) (b : Option ℕ) (s : State)
      → Same c s
      → Same c (read_range k a b s).1
  read_range-Same c k a b s h = record {
    shows = λ j. store.read_range-content ttl k a b j s h.lasting ∙ h.shows j;
    lasting = store.read_range-Lasting ttl k a b s h.lasting;
  }

  segment-read :
      (c : Content Json) (p : Position) (s : State)
      → Same c s
      → entries_of (read_range (log_key identity p.log) 1 (some p.depth) s).0 ≡ segment c identity p
  segment-read c p s h = ap entries_of (
      store.read_range-reply ttl (log_key identity p.log) 1 (some p.depth) s h.lasting
      ∙ ap (λ o. values_in 1 (some p.depth) (entries_in o)) (h.shows (log_key identity p.log)))

  loop-step :
      (fuel : ℕ) (segments : List (List Entry)) (p : Position) (s : State)
      → entries_loop store ttl identity (suc fuel) segments p s ≡ (
          let (values, s1) = read_range (log_key identity p.log) 1 (some p.depth) s in
          proceed store ttl identity
            (entries_loop store ttl identity fuel)
            segments
            (round (entries_of values) p.depth)
            s1)
  unfolding entries_loop
  loop-step fuel segments p s = refl

  proceed-go_on :
      (rest : List (List Entry) → Position → Action State Chained) (segments : List (List Entry))
      (es : List Entry) (q : Position) (s : State)
      → proceed store ttl identity rest segments (go_on es q) s
        ≡ rest (es ∷ segments) q (refresh store ttl identity q.log s).1
  unfolding proceed
  proceed-go_on rest segments es q s = refl

  loop-found :
      (c : Content Json) (fuel : ℕ) (segments : List (List Entry)) (p : Position) (es : List Entry)
      (s : State)
      → p.depth < fuel
      → Same c s
      → Chain c identity p es
      → ((entries_loop store ttl identity fuel segments p s).0 ≡ found (together segments es))
        × Same c (entries_loop store ttl identity fuel segments p s).1
  loop-found c zero segments p es s le h ch = absurd (omega arith)
  loop-found c (suc fuel) segments p es s le h (root _ _ t r) =
      let h1 = read_range-Same c (log_key identity p.log) 1 (some p.depth) s h in
      rw (loop-step, segment-read c p s h, r) (unfold proceed in (refl, h1))
  loop-found c (suc fuel) segments p es s le h (fork _ q gs fs _ t r rest e) =
      let s1 = (read_range (log_key identity p.log) 1 (some p.depth) s).1 in
      let h1 = read_range-Same c (log_key identity p.log) 1 (some p.depth) s h in
      let s2 = (refresh store ttl identity q.log s1).1 in
      let h2 = refresh-Same c q.log s1 h1 in
      let lt = round-go_on (segment c identity p) p.depth gs q r in
      let ih = loop-found c fuel (gs ∷ segments) q fs s2 (omega arith) h2 rest in
      rw (loop-step, segment-read c p s h, r, e, proceed-go_on) ih

  -- From a state that shows `c`, reading a conversation of `c` returns it and changes nothing seen.
  pub entries-found :
      (c : Content Json) (p : Position) (es : List Entry) (s : State)
      → Same c s
      → Chain c identity p es
      → ((entries store ttl identity p s).0 ≡ found es) × Same c (entries store ttl identity p s).1
  entries-found c p es s h ch =
      unfold entries in loop-found c (suc p.depth) [] p es s (omega arith) h ch
