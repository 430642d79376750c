-- ===== src/Dict.antt =====
-- Python's `dict` with text keys, in insertion order: a write to a key that is there keeps its
-- place, and a new key goes to the end.
use modelship.Prelude.{
  Bool-cases, inl, inr, String, ◌≡◌, refl, Option, none, some, List, [], ◌∷◌, map, arith, eq_iff,
  str_eq, str_eq_self, if◌then◌else◌,
}

abbrev pub Dict {ℓ} : Type ℓ → Type ℓ
Dict V = List (String × V)

module _ {ℓ} {V : Type ℓ} where
  -- d.get(k)
  unfoldable pub get : String → Dict V → Option V
  get k [] = none
  get k ((j, v) ∷ d) = if str_eq j k then some v else get k d

  -- d[k] = v
  unfoldable pub put : String → V → Dict V → Dict V
  put k v [] = (k, v) ∷ []
  put k v ((j, w) ∷ d) = if str_eq j k then (j, v) ∷ d else (j, w) ∷ put k v d

  -- d.pop(k, None)
  unfoldable pub remove : String → Dict V → Dict V
  remove k [] = []
  remove k ((j, w) ∷ d) = let rest = remove k d in if str_eq j k then rest else (j, w) ∷ rest

  abbrev pub keys : Dict V → List String
  keys = map (λ e. e.0)

  pub get-put :
      (j k : String) (v : V) (d : Dict V)
      → get j (put k v d) ≡ (if str_eq k j then some v else get j d)
  unfolding get put
  get-put j k v [] = refl
  get-put j k v ((i, w) ∷ d) = ground (arith, eq_iff k j, eq_iff i k, eq_iff i j, get-put j k v d)

  pub get-remove :
      (j k : String) (d : Dict V) → get j (remove k d) ≡ (if str_eq k j then none else get j d)
  unfolding get remove
  get-remove j k [] = ground arith
  get-remove j k ((i, w) ∷ d) = ground (arith, eq_iff k j, eq_iff i k, eq_iff i j, get-remove j k d)

  pub get-remove-none : (j k : String) (d : Dict V) → get j d ≡ none → get j (remove k d) ≡ none
  get-remove-none j k d h = rw get-remove (ground (arith, h))

  pub get-put_self : (k : String) (v : V) (d : Dict V) → get k (put k v d) ≡ some v
  get-put_self k v d = simp (get-put, str_eq_self)

pub ruleset dict_laws = (get-put, get-remove)

-- No key stands twice, as in every `dict`.
abbrev pub Distinct {ℓ} : {V : Type ℓ} → Dict V → Type ℓ
Distinct [] = Unit
Distinct ((k, v) ∷ d) = (get k d ≡ none) × Distinct d

module _ {ℓ} {V : Type ℓ} where
  pub put-Distinct : (k : String) (v : V) (d : Dict V) → Distinct d → Distinct (put k v d)
  unfolding put get
  put-Distinct k v [] h = (refl, tt)
  put-Distinct k v ((j, w) ∷ d) h = elim (Bool-cases (str_eq j k)) [
    | inl e ↦ rw e h
    | inr e ↦
        rw e (rw get-put (ground (arith, h.0, eq_iff j k, eq_iff k j)), put-Distinct k v d h.1)
  ]

  pub remove-Distinct : (k : String) (d : Dict V) → Distinct d → Distinct (remove k d)
  unfolding remove
  remove-Distinct k [] h = tt
  remove-Distinct k ((j, w) ∷ d) h = elim (Bool-cases (str_eq j k)) [
    | inl e ↦ rw e (remove-Distinct k d h.1)
    | inr e ↦ rw e (get-remove-none j k d h.0, remove-Distinct k d h.1)
  ]
