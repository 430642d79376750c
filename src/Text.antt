-- ===== src/Text.antt =====
-- Texts of segments between slashes, as keys and prefixes of the state store are.
pub mod Prefixes
use Prim.Native.Char.{Char, code}
use Prim.Native.String.{◌++◌}
use mathlib.Core.Logic.{◌≢◌}
use text.Mathlib.TextLemmas.{
  nil-append, cons-append, append_cancel_left, head-eq_of_cons-eq, tail-eq_of_cons-eq,
}
use modelship.Prelude.{
  ℕ, String, ◌≡◌, ◌≢◌, refl, sym, ap, ◌∙◌, Bool, true, false, List, [], ◌∷◌, arith, ◌==◌, str_eq,
  if◌then◌else◌, keep_if, All, not, Bool-cases, inl, inr,
}

abbrev pub slash : ℕ
slash = b'/'

abbrev pub NoSlash : String → Type 0
NoSlash String.[] = Unit
NoSlash (String.◌∷◌ c s) = (code c ≢ slash) × NoSlash s

abbrev pub slash_char : Char
slash_char = "/"

pub after_slash : (x : String) → "/" ++ x ≡ String.◌∷◌ slash_char x
after_slash x = cons-append slash_char "" x ∙ ap (String.◌∷◌ slash_char) (nil-append x)

-- Two keys whose first segments hold no slash are equal only segment by segment.
pub segment_inj :
    (a b x y : String)
    → NoSlash a
    → NoSlash b
    → a ++ ("/" ++ x) ≡ b ++ ("/" ++ y)
    → (a ≡ b) × (x ≡ y)
segment_inj String.[] String.[] x y ha hb e =
    (refl, append_cancel_left "/" x y (sym (nil-append _) ∙ e ∙ nil-append _))
segment_inj String.[] (String.◌∷◌ c b) x y ha hb e = absurd (
    hb.0 (
      ap code (
        sym (
          head-eq_of_cons-eq
            (sym (after_slash x) ∙ sym (nil-append _) ∙ e ∙ cons-append c b ("/" ++ y))))))
segment_inj (String.◌∷◌ c a) String.[] x y ha hb e = absurd (
    ha.0 (
      ap code
        (head-eq_of_cons-eq (sym (cons-append c a ("/" ++ x)) ∙ e ∙ nil-append _ ∙ after_slash y))))
segment_inj (String.◌∷◌ c a) (String.◌∷◌ d b) x y ha hb e =
    let conses : String.◌∷◌ c (a ++ ("/" ++ x)) ≡ String.◌∷◌ d (b ++ ("/" ++ y)) =
      sym (cons-append c a _) ∙ e ∙ cons-append d b _ in
    let (same, rest) = segment_inj a b x y ha.1 hb.1 (tail-eq_of_cons-eq conses) in
    (λ i. String.◌∷◌ (head-eq_of_cons-eq conses i) (same i), rest)

-- text.split("/")
pub add_to_first : Char → List String → List String
add_to_first c [] = (String.◌∷◌ c "") ∷ []
add_to_first c (p ∷ ps) = (String.◌∷◌ c p) ∷ ps

unfoldable pub split : String → List String
unfolding add_to_first
split String.[] = "" ∷ []
split (String.◌∷◌ c s) =
    let parts = split s in if code c == slash then "" ∷ parts else add_to_first c parts

-- "/".join(parts)
unfoldable pub join : List String → String
join [] = ""
join (p ∷ []) = p
join (p ∷ q ∷ ps) = p ++ ("/" ++ join (q ∷ ps))

-- no part is empty or holds a slash
abbrev pub Good : List String → Type 0
Good = All (λ p. NoSlash p × (not (str_eq p "") ≡ true))

pub split_char :
    (c : Char) (s : String)
    → (code c == slash) ≡ false
    → split (String.◌∷◌ c s) ≡ add_to_first c (split s)
unfolding split
split_char c s e = rw e

add_to_first-NoSlash :
    (c : Char) (ps : List String)
    → (code c == slash) ≡ false
    → All NoSlash ps
    → All NoSlash (add_to_first c ps)
unfolding add_to_first
add_to_first-NoSlash c [] e h = ((ground arith, tt), tt)
add_to_first-NoSlash c (p ∷ ps) e h = ((ground arith, h.0), h.1)

split-NoSlash : (s : String) → All NoSlash (split s)
unfolding split
split-NoSlash String.[] = (tt, tt)
split-NoSlash (String.◌∷◌ c s) = elim (Bool-cases (code c == slash)) [
  | inl e ↦ rw e (tt, split-NoSlash s)
  | inr e ↦ rw e (add_to_first-NoSlash c (split s) e (split-NoSlash s))
]

unfoldable pub parts : String → List String
unfolding split
parts s = keep_if (λ p. not (str_eq p "")) (split s)

parts_of-Good : (ps : List String) → All NoSlash ps → Good (keep_if (λ p. not (str_eq p "")) ps)
parts_of-Good [] h = tt
parts_of-Good (p ∷ ps) h = elim (Bool-cases (not (str_eq p ""))) [
  | inl e ↦ rw e ((h.0, e), parts_of-Good ps h.1)
  | inr e ↦ rw e (parts_of-Good ps h.1)
]

pub parts-Good : (s : String) → Good (parts s)
unfolding parts
parts-Good s = parts_of-Good (split s) (split-NoSlash s)

pub split-append : (a r : String) → NoSlash a → split (a ++ ("/" ++ r)) ≡ a ∷ split r
split-append String.[] r h = rw (nil-append, after_slash) (unfold split in refl)
split-append (String.◌∷◌ c a) r h =
    ap split (cons-append c a ("/" ++ r))
    ∙ split_char c (a ++ ("/" ++ r)) (ground arith)
    ∙ ap (add_to_first c) (split-append a r h.1)
    ∙ (unfold add_to_first in refl)

split_one : (a : String) → NoSlash a → split a ≡ a ∷ []
split_one String.[] h = unfold split in refl
split_one (String.◌∷◌ c a) h =
    split_char c a (ground arith)
    ∙ ap (add_to_first c) (split_one a h.1)
    ∙ (unfold add_to_first in refl)

pub split-join : (p : String) (ps : List String) → Good (p ∷ ps) → split (join (p ∷ ps)) ≡ p ∷ ps
unfolding join
split-join p [] h = split_one p h.0.0
split-join p (q ∷ ps) h = split-append p (join (q ∷ ps)) h.0.0 ∙ ap (◌∷◌ p) (split-join q ps h.1)
