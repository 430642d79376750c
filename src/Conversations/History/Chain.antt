-- ===== src/Conversations/History/Chain.antt =====
-- A conversation as the store holds it: the entries of a log up to a position, behind those of the
-- position that its first entry names as base, and so on.
use modelship.Prelude.{
  ℕ, ◌<◌, String, ◌≡◌, refl, ap, Bool, true, false, ◌||◌, Option, some, List, [], ◌∷◌, ◌++◌, arith,
  ◌==◌, inl, inr, Bool-cases,
}
use modelship.Json.{Json}
use modelship.State.Memory.{taken, values_in}
use modelship.State.Memory.Spec.{entries_in}
use modelship.State.Memory.Logs.{Above, Increasing}
use modelship.State.Store.{Content}
use modelship.Conversations.Keys.{log_key}
use modelship.Conversations.Records.{Position, Entry, entries_of}
use modelship.Conversations.History.{stop, go_on, found, round}

-- whether an entry stands at a position
unfoldable pub held_at : ℕ → List (ℕ × Json) → Bool
held_at d [] = false
held_at d ((p, v) ∷ es) = p == d || held_at d es

abbrev pub log_at : Content Json → String → String → List (ℕ × Json)
log_at c identity log = entries_in (c (log_key identity log))

-- the entries of a log up to a position, as the loop reads them
abbrev pub segment : Content Json → String → Position → Option (List Entry)
segment c identity p = entries_of (values_in 1 (some p.depth) (log_at c identity p.log))

pub data Chain (c : Content Json) (identity : String) : Position → List Entry → Type 0 where
  root :
      (p : Position) (es : List Entry)
      → held_at p.depth (log_at c identity p.log) ≡ true
      → round (segment c identity p) p.depth ≡ stop (found es)
      → Chain c identity p es
  fork :
      (p q : Position) (es fs whole : List Entry)
      → held_at p.depth (log_at c identity p.log) ≡ true
      → round (segment c identity p) p.depth ≡ go_on es q
      → Chain c identity q fs
      → whole ≡ fs ++ es
      → Chain c identity p whole

-- every log's positions increase
abbrev pub Ascending : Content Json → Type 0
Ascending c = (k : String) → Increasing (entries_in (c k))

-- what writing a turn does to a log: nothing, or one more entry behind the last
pub data Grown (before : List (ℕ × Json)) : List (ℕ × Json) → Type 0 where
  same : (after : List (ℕ × Json)) → after ≡ before → Grown before after
  longer :
      (after : List (ℕ × Json)) (q : ℕ) (v : Json)
      → taken before q ≡ false
      → after ≡ before ++ (q, v) ∷ []
      → Grown before after

abbrev pub Grows : Content Json → Content Json → Type 0
Grows c c' = (identity log : String) → Grown (log_at c identity log) (log_at c' identity log)

pub first-lt :
    (n : ℕ) (v : Json) (es : List (ℕ × Json)) (q : ℕ)
    → Above n es
    → taken ((n, v) ∷ es) q ≡ false
    → n < q
unfolding taken
first-lt n v [] q h f = ground arith
first-lt n v ((m, w) ∷ es) q h f = omega (arith, first-lt m w es q h.1 f, h.0)

held-Above :
    (n d : ℕ) (v : Json) (es : List (ℕ × Json)) (q : ℕ)
    → Above n es
    → taken ((n, v) ∷ es) q ≡ false
    → held_at d ((n, v) ∷ es) ≡ true
    → d < q
unfolding held_at taken
held-Above n d v [] q h f t = ground arith
held-Above n d v ((m, w) ∷ es) q h f t = elim (Bool-cases (n == d)) [
  | inl e ↦ let lt = first-lt m w es q h.1 f in ground (arith, lt, h.0)
  | inr e ↦ held-Above m d w es q h.1 f (rw e at t)
]

-- an entry that stands in an increasing log lies before every position that is free
held-lt :
    (d : ℕ) (es : List (ℕ × Json)) (q : ℕ)
    → Increasing es
    → taken es q ≡ false
    → held_at d es ≡ true
    → d < q
held-lt d [] q h f t = unfold held_at in cc t
held-lt d ((n, v) ∷ es) q h f t = held-Above n d v es q h f t

held-append : (d : ℕ) (es fs : List (ℕ × Json)) → held_at d es ≡ true → held_at d (es ++ fs) ≡ true
unfolding held_at
held-append d [] fs t = cc t
held-append d ((n, v) ∷ es) fs t = ground (arith, held-append d es fs)

values_in-append :
    (d q : ℕ) (v : Json) (es : List (ℕ × Json))
    → d < q
    → values_in 1 (some d) (es ++ (q, v) ∷ []) ≡ values_in 1 (some d) es
unfolding values_in
values_in-append d q v [] lt = ground arith
values_in-append d q v ((n, w) ∷ es) lt = rw (values_in-append d q v es lt)

module _ (c c' : Content Json) (grows : Grows c c') (ascending : Ascending c) where
  log-kept :
      (identity : String) (p : Position)
      → held_at p.depth (log_at c identity p.log) ≡ true
      → (held_at p.depth (log_at c' identity p.log) ≡ true)
        × (segment c' identity p ≡ segment c identity p)
  log-kept identity p t = go (log_at c' identity p.log) (grows identity p.log)
    where
      before : List (ℕ × Json)
      before = log_at c identity p.log

      go :
          (after : List (ℕ × Json))
          → Grown before after
          → (held_at p.depth after ≡ true)
            × (entries_of (values_in 1 (some p.depth) after) ≡ segment c identity p)
      go after (same _ e) = rw e (t, refl)
      go after (longer _ q v f e) = rw e (
        held-append p.depth before ((q, v) ∷ []) t,
        ap entries_of (
            values_in-append p.depth q v before
              (held-lt p.depth before q (ascending (log_key identity p.log)) f t)),
      )

  -- No conversation is changed by a turn that is written, in any log.
  pub Chain-kept :
      (identity : String) {p : Position} {es : List Entry}
      → Chain c identity p es
      → Chain c' identity p es
  Chain-kept identity (root p es t r) =
      let (t', r') = log-kept identity p t in Chain.root p es t' (rw r' r)
  Chain-kept identity (fork p q es fs whole t r rest e) =
      let (t', r') = log-kept identity p t in
      Chain.fork p q es fs whole t' (rw r' r) (Chain-kept identity rest) e
