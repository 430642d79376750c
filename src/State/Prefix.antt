-- ===== src/State/Prefix.antt =====
-- modelship/state/base.py: `normalize_prefix`, and the test by which `MemoryStoreActor.list` of memory.py
-- compares a key with a normalized prefix.
use Prim.Native.String.{◌++◌}
use text.Mathlib.Text.{starts_with}
use modelship.Prelude.{
  String, ◌≡◌, refl, sym, ap, ◌∙◌, Bool, true, false, ◌||◌, not, List, [], ◌∷◌, str_eq, eq_iff,
  keep_if, Bool-cases, inl, inr, arith,
}
use modelship.Text.{Good, split, join, split-join, parts, parts-Good}
use modelship.Text.Prefixes.{begins, join-ne-blank, begins-joined, begins-longer, joined-begins}

-- `"/".join(p for p in prefix.split("/") if p)`
unfoldable pub normalize_prefix : String → String
unfolding split join
normalize_prefix prefix = join (keep_if (λ p. not (str_eq p "")) (split prefix))

-- `not prefix or k == prefix or k.startswith(f"{prefix}/")`
unfoldable pub covers : String → String → Bool
covers prefix key = str_eq prefix "" || (str_eq key prefix || starts_with key (prefix ++ "/"))

normalize_prefix-join : (prefix : String) → normalize_prefix prefix ≡ join (parts prefix)
normalize_prefix-join prefix = unfold normalize_prefix parts in refl

-- the segments of a text without empty ones; the empty text has one, which is empty
abbrev pub or_blank : List String → List String
or_blank [] = "" ∷ []
or_blank (p ∷ ps) = p ∷ ps

split-joined : (ps : List String) → Good ps → split (join ps) ≡ or_blank ps
split-joined [] h = unfold join split in refl
split-joined (p ∷ ps) h = split-join p ps h

-- Split at its slashes, a normalized prefix has the non-empty segments of the prefix, in order, and
-- no others; where there are none, it is the empty text.
pub normalize_prefix-split :
    (prefix : String) → split (normalize_prefix prefix) ≡ or_blank (parts prefix)
normalize_prefix-split prefix =
    ap split (normalize_prefix-join prefix) ∙ split-joined (parts prefix) (parts-Good prefix)

same_bool : (a b : Bool) → (a ≡ true → b ≡ true) → (b ≡ true → a ≡ true) → a ≡ b
same_bool true b f g = sym (f refl)
same_bool false true f g = g refl
same_bool false false f g = refl

covered :
    (p : String) (ps : List String) (key : String)
    → Good (p ∷ ps)
    → covers (join (p ∷ ps)) key ≡ true
    → begins (p ∷ ps) (split key) ≡ true
unfolding covers
covered p ps key h e = elim (Bool-cases (str_eq (join (p ∷ ps)) "")) [
  | inl b ↦ absurd (join-ne-blank p ps h ((eq_iff _ _).0 b))
  | inr b ↦ elim (Bool-cases (str_eq key (join (p ∷ ps)))) [
    | inl s ↦ begins-joined p ps key h ((eq_iff _ _).0 s)
    | inr s ↦ begins-longer p ps key h (rw (b, s) at e)
  ]
]

covering :
    (p : String) (ps : List String) (key : String)
    → begins (p ∷ ps) (split key) ≡ true
    → covers (join (p ∷ ps)) key ≡ true
unfolding covers
covering p ps key e = elim (joined-begins p ps key e) [
  | inl s ↦ ground (arith, (eq_iff key (join (p ∷ ps))).1 s)
  | inr s ↦ ground (arith, s)
]

covers-join :
    (ps : List String) (key : String) → Good ps → covers (join ps) key ≡ begins ps (split key)
covers-join [] key h = unfold covers join begins in refl
covers-join (p ∷ ps) key h = same_bool _ _ (covered p ps key h) (covering p ps key)

-- A key is under a normalized prefix when the key's segments begin with the prefix's.
pub covers-begins :
    (prefix key : String) → covers (normalize_prefix prefix) key ≡ begins (parts prefix) (split key)
covers-begins prefix key =
    ap (λ p. covers p key) (normalize_prefix-join prefix)
    ∙ covers-join (parts prefix) key (parts-Good prefix)
