-- ===== src/Deploy/Router.antt =====
-- modelship/deploy/request_router.py: `AffinityRouter.choose_replicas`. `score` is the digest of a key and
-- a replica as a number, which orders as its bytes do; `two_random` is what `_two_random` gives. The
-- balance factor is a fraction of naturals.
mod Tests
use mathlib.Core.List.{Perm, perm_middle, append_assoc}
use mathlib.Core.List.Perm
use modelship.Prelude.{
  ℕ, zero, suc, ◌+◌, ◌*◌, ◌≤◌, ◌≡◌, refl, sym, ap, ◌∙◌, String, Bool, true, false, not, Option,
  none, some, List, [], ◌∷◌, ◌++◌, map, leb, str_eq, if◌then◌else◌, length, All, Bool-cases, inl,
  inr,
}

-- a candidate: its id, and its queue length in the cache, or `None`
pub record Candidate : Type 0 where
  pub replica_id : String
  pub cached : Option ℕ

-- `_balance_factor`, as a fraction, and `_spare_requests`
pub record Settings : Type 0 where
  pub factor_over : ℕ
  pub factor_under : ℕ
  pub spare_requests : ℕ

-- `_load`
abbrev pub load : Candidate → ℕ
load c = or_zero c.cached
  where
    or_zero : Option ℕ → ℕ
    or_zero none = 0
    or_zero (some n) = n

abbrev pub sum_loads : List Candidate → ℕ
sum_loads [] = 0
sum_loads (c ∷ cs) = load c + sum_loads cs

-- `load <= balance_factor * mean + spare_requests`, times the denominators
abbrev pub is_within : Settings → List Candidate → Candidate → Bool
is_within s candidates c =
    leb (load c * (length candidates * s.factor_under)) (
      s.factor_over * sum_loads candidates
      + s.spare_requests * (length candidates * s.factor_under))

-- `[r for r in ... if p(r)]`
unfoldable pub selected : (Candidate → Bool) → List Candidate → List Candidate
selected p [] = []
selected p (c ∷ cs) = let rest = selected p cs in if p c then c ∷ rest else rest

split-Perm :
    (p : Candidate → Bool) (cs : List Candidate)
    → Perm (selected p cs ++ selected (λ c. not (p c)) cs) cs
unfolding selected
split-Perm p [] = Perm.refl []
split-Perm p (c ∷ cs) = elim (Bool-cases (p c)) [
  | inl q ↦ rw q (Perm.cons c (split-Perm p cs))
  | inr q ↦ rw q (
      Perm.trans (perm_middle (selected p cs) (selected (λ d. not (p d)) cs))
        (Perm.cons c (split-Perm p cs)))
]

selected-All : (p : Candidate → Bool) (cs : List Candidate) → All (λ c. p c ≡ true) (selected p cs)
unfolding selected
selected-All p [] = tt
selected-All p (c ∷ cs) = elim (Bool-cases (p c)) [
  | inl q ↦ rw q (q, selected-All p cs)
  | inr q ↦ rw q (selected-All p cs)
]

module _ (score : String → String → ℕ) where
  -- `sorted(..., key=..., reverse=True)`, which keeps the order of equals
  unfoldable pub insert_ranked : String → Candidate → List Candidate → List Candidate
  insert_ranked key c [] = c ∷ []
  insert_ranked key c (d ∷ ds) =
      if leb (score key d.replica_id) (score key c.replica_id)
      then c ∷ d ∷ ds
      else d ∷ insert_ranked key c ds

  unfoldable pub ranked : String → List Candidate → List Candidate
  unfolding insert_ranked
  ranked key [] = []
  ranked key (c ∷ cs) = insert_ranked key c (ranked key cs)

  -- `within + over`
  unfoldable pub preferred : Settings → String → List Candidate → List Candidate
  unfolding ranked selected
  preferred s key candidates =
      selected (is_within s candidates) (ranked key candidates)
      ++ selected (λ c. not (is_within s candidates c)) (ranked key candidates)

  -- `choose_replicas`, by the request's session id, empty where it has none
  unfoldable pub choose_replicas :
      Settings → List (List Candidate) → Option String → List Candidate → List (List Candidate)
  unfolding preferred
  choose_replicas s two_random none candidates = two_random
  choose_replicas s two_random (some key) [] = two_random
  choose_replicas s two_random (some key) (c ∷ cs) =
      if str_eq key "" then two_random else map (λ r. r ∷ []) (preferred s key (c ∷ cs))

  insert_ranked-Perm :
      (key : String) (c : Candidate) (ds : List Candidate) → Perm (insert_ranked key c ds) (c ∷ ds)
  unfolding insert_ranked
  insert_ranked-Perm key c [] = Perm.refl (c ∷ [])
  insert_ranked-Perm key c (d ∷ ds) =
      elim (Bool-cases (leb (score key d.replica_id) (score key c.replica_id))) [
        | inl q ↦ rw q (Perm.refl (c ∷ d ∷ ds))
        | inr q ↦ rw q (Perm.trans (Perm.cons d (insert_ranked-Perm key c ds)) (Perm.swap c d ds))
      ]

  ranked-Perm : (key : String) (cs : List Candidate) → Perm (ranked key cs) cs
  unfolding ranked
  ranked-Perm key [] = Perm.refl []
  ranked-Perm key (c ∷ cs) =
      Perm.trans (insert_ranked-Perm key c (ranked key cs)) (Perm.cons c (ranked-Perm key cs))

  -- For a request with a session, the choices are the candidates, one each and none left out, and those
  -- whose load is within the limit stand before the others.
  pub choose_replicas-Perm :
      (s : Settings) (two_random : List (List Candidate)) (key : String) (c : Candidate)
      (cs : List Candidate)
      → str_eq key "" ≡ false
      → (within over : List Candidate) × (choose_replicas s two_random (some key) (c ∷ cs)
          ≡ map (λ r. r ∷ []) (within ++ over))
        × Perm (within ++ over) (c ∷ cs)
        × All (λ r. is_within s (c ∷ cs) r ≡ true) within
        × All (λ r. not (is_within s (c ∷ cs) r) ≡ true) over
  unfolding choose_replicas preferred
  choose_replicas-Perm s two_random key c cs k = (
    selected (is_within s (c ∷ cs)) (ranked key (c ∷ cs)),
    selected (λ r. not (is_within s (c ∷ cs) r)) (ranked key (c ∷ cs)),
    rw k refl,
    Perm.trans (split-Perm (is_within s (c ∷ cs)) (ranked key (c ∷ cs))) (ranked-Perm key (c ∷ cs)),
    selected-All (is_within s (c ∷ cs)) (ranked key (c ∷ cs)),
    selected-All (λ r. not (is_within s (c ∷ cs) r)) (ranked key (c ∷ cs)),
  )
