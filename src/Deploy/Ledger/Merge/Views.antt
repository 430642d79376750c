-- ===== src/Deploy/Ledger/Merge/Views.antt =====
-- What the two dictionaries of `merge` hold, as functions: the models by app, and the apps by name.
use mathlib.Core.Path.{subst}
use mathlib.Core.Option.{some-injective}
use modelship.Prelude.{
  String, ◌≡◌, refl, ap, sym, ◌∙◌, false, Option, none, some, if◌then◌else◌, str_eq, str_eq_self,
  Bool-cases, inl, inr, arith, eq_iff,
}
use modelship.Json.{Json}
use modelship.Deploy.Ledger.Merge.{and_then}

module _ {ℓ} {A : Type ℓ} where
  abbrev pub with_key : String → A → (String → Option A) → String → Option A
  with_key k v f j = if str_eq k j then some v else f j

  abbrev pub without : String → (String → Option A) → String → Option A
  without k f j = if str_eq k j then none else f j

  with_key-free :
      (k j : String) (w v : A) (f : String → Option A)
      → f k ≡ none
      → f j ≡ some v
      → with_key k w f j ≡ some v
  with_key-free k j w v f free e = ground (arith, free, e, eq_iff k j)

with_key-and_then :
    {A : Type 0} (k j n : String) (w : A) (f : String → Option A) (g : A → Option String)
    → f k ≡ none
    → and_then g (f j) ≡ some n
    → and_then g (with_key k w f j) ≡ some n
with_key-and_then k j n w f g free e = ground (arith, free, e, eq_iff k j)

without-other :
    (n j a b : String) (f : String → Option String)
    → f n ≡ some a
    → f j ≡ some b
    → str_eq a b ≡ false
    → without n f j ≡ some b
without-other n j a b f h e i = ground (arith, h, e, i, eq_iff n j, eq_iff a b)

without-and_then :
    {A : Type 0} (a b n m : String) (f : String → Option A) (g : A → Option String)
    → and_then g (f a) ≡ some n
    → and_then g (f b) ≡ some m
    → str_eq n m ≡ false
    → without a f b ≡ f b
without-and_then a b n m f g h e i = ground (arith, h, e, i, eq_iff a b, eq_iff n m)

with_key-other :
    {A : Type 0} (k j n : String) (w : A) (f : String → Option A) (g : A → Option String)
    → f k ≡ none
    → and_then g (f j) ≡ some n
    → with_key k w f j ≡ f j
with_key-other k j n w f g free e = ground (arith, free, e, eq_iff k j)

with_key-apart :
    {A : Type 0} (k j n m : String) (w : A) (f : String → Option A) (g : A → Option String)
    → and_then g (f k) ≡ some n
    → and_then g (f j) ≡ some m
    → str_eq n m ≡ false
    → with_key k w f j ≡ f j
with_key-apart k j n m w f g h e i = ground (arith, h, e, i, eq_iff k j, eq_iff n m)

-- two ways to go on from an option agree where it holds something
and_then-agree :
    {A B : Type 0} (f g : A → Option B) (o : Option A)
    → ((a : A) → o ≡ some a → f a ≡ g a)
    → and_then f o ≡ and_then g o
and_then-agree f g none h = refl
and_then-agree f g (some a) h = h a refl

-- the model of a name
abbrev pub model_of : (String → Option Json) → (String → Option String) → String → Option Json
model_of models app_of n = and_then models (app_of n)

module _ (app name : Json → String) where
  abbrev name_of : Json → Option String
  name_of raw = some (name raw)

  -- each app's model, and each model's app, lead to each other
  pub record Sound (models : String → Option Json) (app_of : String → Option String) : Type 0 where
    pub named :
        (a : String) (raw : Json)
        → models a ≡ some raw
        → (app raw ≡ a) × (app_of (name raw) ≡ some a)
    pub held :
        (n a : String) → app_of n ≡ some a → and_then (λ raw. some (name raw)) (models a) ≡ some n

  module _ (models : String → Option Json) (app_of : String → Option String)
      (s : Sound models app_of) where
    -- a new app and a new name
    pub enter-Sound :
        (d : Json)
        → models (app d) ≡ none
        → app_of (name d) ≡ none
        → Sound (with_key (app d) d models) (with_key (name d) (app d) app_of)
    enter-Sound d fresh free = record {
      named = λ a raw e. elim (Bool-cases (str_eq (app d) a)) [
        | inl i ↦
            subst (λ r. (app r ≡ a) × (with_key (name d) (app d) app_of (name r) ≡ some a))
              (some-injective _ _ (rw i at e))
              ((eq_iff _ _).0 i, rw str_eq_self (ap some ((eq_iff _ _).0 i)))
        | inr i ↦
            let (x, y) = s.named a raw (rw i at e) in
            (x, with_key-free (name d) (name raw) (app d) a app_of free y)
      ];
      held = λ n a e. elim (Bool-cases (str_eq (name d) n)) [
        | inl i ↦
            subst (λ b. and_then (λ raw. some (name raw)) (with_key (app d) d models b) ≡ some n)
              (some-injective _ _ (rw i at e)) (rw str_eq_self (ap some ((eq_iff _ _).0 i)))
        | inr i ↦
            with_key-and_then (app d) a n d models (λ raw. some (name raw)) fresh
              (s.held n a (rw i at e))
      ];
    }

    -- a name's app and model are dropped together
    pub drop-Sound :
        (n a : String) → app_of n ≡ some a → Sound (without a models) (without n app_of)
    drop-Sound n a h = record {
      named = λ b raw e. elim (Bool-cases (str_eq a b)) [
        | inl i ↦ absurd (ground (arith, rw i at e))
        | inr i ↦
            let (x, y) = s.named b raw (rw i at e) in
            (x, without-other n (name raw) a b app_of h y i)
      ];
      held = λ m b e. elim (Bool-cases (str_eq n m)) [
        | inl i ↦ absurd (ground (arith, rw i at e))
        | inr i ↦
            rw (without-and_then a b n m models name_of (s.held n a h) (s.held m b (rw i at e)) i)
              (s.held m b (rw i at e))
      ];
    }

    -- an app's model is replaced by one of its name
    pub replace-Sound :
        (d old : Json)
        → models (app d) ≡ some old
        → name old ≡ name d
        → Sound (with_key (app d) d models) app_of
    replace-Sound d old h same = record {
      named = λ a raw e. elim (Bool-cases (str_eq (app d) a)) [
        | inl i ↦
            subst (λ r. (app r ≡ a) × (app_of (name r) ≡ some a)) (some-injective _ _ (rw i at e))
              (
                (eq_iff _ _).0 i,
                ap app_of (sym same) ∙ (s.named (app d) old h).1 ∙ ap some ((eq_iff _ _).0 i),
              )
        | inr i ↦ s.named a raw (rw i at e)
      ];
      held = λ n a e. elim (Bool-cases (str_eq (app d) a)) [
        | inl i ↦ rw i (
            ap some (sym same)
            ∙ sym (ap (and_then name_of) (ap models (sym ((eq_iff _ _).0 i)) ∙ h))
            ∙ s.held n a e)
        | inr i ↦ rw i (s.held n a e)
      ];
    }

    pub enter-model :
        (d : Json) (n : String)
        → models (app d) ≡ none
        → model_of (with_key (app d) d models) (with_key (name d) (app d) app_of) n
          ≡ (if str_eq (name d) n then some d else model_of models app_of n)
    enter-model d n fresh = elim (Bool-cases (str_eq (name d) n)) [
      | inl i ↦ rw (i, str_eq_self)
      | inr i ↦ rw i (
          and_then-agree _ _ (app_of n)
            λ a e. with_key-other (app d) a n d models name_of fresh (s.held n a e))
    ]

    pub drop-model :
        (n a m : String)
        → app_of n ≡ some a
        → model_of (without a models) (without n app_of) m
          ≡ (if str_eq n m then none else model_of models app_of m)
    drop-model n a m h = elim (Bool-cases (str_eq n m)) [
      | inl i ↦ rw i
      | inr i ↦ rw i (
          and_then-agree _ _ (app_of m)
            λ b e. without-and_then a b n m models name_of (s.held n a h) (s.held m b e) i)
    ]

    pub replace-model :
        (d old : Json) (n : String)
        → models (app d) ≡ some old
        → name old ≡ name d
        → model_of (with_key (app d) d models) app_of n
          ≡ (if str_eq (name d) n then some d else model_of models app_of n)
    replace-model d old n h same = elim (Bool-cases (str_eq (name d) n)) [
      | inl i ↦
          rw (i, sym (ap app_of (same ∙ (eq_iff _ _).0 i)) ∙ (s.named (app d) old h).1, str_eq_self)
      | inr i ↦ rw i (
          and_then-agree _ _ (app_of n) λ a e.
            with_key-apart (app d) a (name d) n d models name_of
              (ap (and_then name_of) h ∙ ap some same) (s.held n a e) i)
    ]
