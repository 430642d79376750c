-- ===== src/Text/Prefixes.antt =====
-- Texts that begin with the segments of another, in code `k == p or k.startswith(f"{p}/")`.
use mathlib.Core.List.{append-nil}
use Prim.Native.Char.{Char, code}
use Prim.Native.String.{◌++◌ as text_append}
use text.Mathlib.Text.{starts_with}
use text.Mathlib.TextLemmas.{nil-append, cons-append, append_assoc}
use text.Mathlib.TextEquality.{starts_with_iff, Char-path}
use modelship.Prelude.{
  String, ◌≡◌, ◌≢◌, ◌⊎◌, refl, sym, ap, ◌∙◌, Bool, true, false, ◌&&◌, List, [], ◌∷◌, ◌++◌, arith,
  ◌==◌, str_eq, eq_iff, Bool-cases, inl, inr,
}
use modelship.Text.{
  Good, slash, slash_char, after_slash, add_to_first, split, join, split_char, split-append,
  split-join,
}

-- whether the second list of segments begins with the first
unfoldable pub begins : List String → List String → Bool
begins [] qs = true
begins (p ∷ ps) [] = false
begins (p ∷ ps) (q ∷ qs) = str_eq p q && begins ps qs

begins-append : (ps qs : List String) → begins ps (ps ++ qs) ≡ true
unfolding begins
begins-append [] qs = refl
begins-append (p ∷ ps) qs = ground (arith, eq_iff p p, begins-append ps qs)

-- what follows the segments that a list begins with
begins-split : (ps qs : List String) → begins ps qs ≡ true → (rs : List String) × (ps ++ rs ≡ qs)
unfolding begins
begins-split [] qs h = (qs, refl)
begins-split (p ∷ ps) [] h = absurd (cc h)
begins-split (p ∷ ps) (q ∷ qs) h =
    let (rs, e) = begins-split ps qs (ground (arith, h)) in
    let same : p ≡ q = ground (arith, h, eq_iff p q) in (rs, λ i. same i ∷ e i)

abbrev first_of : List String → String
first_of [] = ""
first_of (p ∷ ps) = p

split-slash :
    (c : Char) (s : String) → (code c == slash) ≡ true → split (String.◌∷◌ c s) ≡ "" ∷ split s
unfolding split
split-slash c s e = rw e

split_cons : (s : String) → (q : String) × ((qs : List String) × (split s ≡ q ∷ qs))
unfolding split add_to_first
split_cons String.[] = ("", ([], refl))
split_cons (String.◌∷◌ c s) = elim (Bool-cases (code c == slash)) [
  | inl e ↦ ("", (split s, rw e refl))
  | inr e ↦ let (q, (qs, same)) = split_cons s in (String.◌∷◌ c q, (qs, rw (e, same) refl))
]

join-add_to_first :
    (c : Char) (q : String) (qs : List String)
    → join (add_to_first c (q ∷ qs)) ≡ String.◌∷◌ c (join (q ∷ qs))
unfolding add_to_first join
join-add_to_first c q [] = refl
join-add_to_first c q (r ∷ qs) = cons-append c q (text_append "/" (join (r ∷ qs)))

join_blank :
    (q : String) (qs : List String) → join ("" ∷ q ∷ qs) ≡ String.◌∷◌ slash_char (join (q ∷ qs))
unfolding join
join_blank q qs = nil-append _ ∙ after_slash (join (q ∷ qs))

-- joining what a split gives is the text
join-split : (s : String) → join (split s) ≡ s
join-split String.[] = unfold split join in refl
join-split (String.◌∷◌ c s) =
    let (q, (qs, same)) = split_cons s in
    let rest : join (q ∷ qs) ≡ s = ap join (sym same) ∙ join-split s in
    elim (Bool-cases (code c == slash)) [
      | inl e ↦
          ap join (split-slash c s e ∙ ap (◌∷◌ "") same)
          ∙ join_blank q qs
          ∙ ap (String.◌∷◌ slash_char) rest
          ∙ ap (λ d. String.◌∷◌ d s) (Char-path slash_char c (ground (arith, e)))
      | inr e ↦
          ap join (split_char c s e ∙ ap (add_to_first c) same)
          ∙ join-add_to_first c q qs
          ∙ ap (String.◌∷◌ c) rest
    ]

join-append :
    (p : String) (ps : List String) (r : String) (rs : List String)
    → join ((p ∷ ps) ++ r ∷ rs) ≡ text_append (join (p ∷ ps)) (text_append "/" (join (r ∷ rs)))
unfolding join
join-append p [] r rs = refl
join-append p (q ∷ ps) r rs =
    ap (λ x. text_append p (text_append "/" x)) (join-append q ps r rs)
    ∙ ap (text_append p) (sym (append_assoc "/" _ _))
    ∙ sym (append_assoc p _ _)

split-join_append :
    (p : String) (ps : List String) (r : String)
    → Good (p ∷ ps)
    → split (text_append (join (p ∷ ps)) (text_append "/" r)) ≡ (p ∷ ps) ++ split r
unfolding join
split-join_append p [] r h = split-append p r h.0.0
split-join_append p (q ∷ ps) r h =
    ap split (
      append_assoc p _ _
      ∙ ap (text_append p) (append_assoc "/" (join (q ∷ ps)) (text_append "/" r)))
    ∙ split-append p _ h.0.0
    ∙ ap (◌∷◌ p) (split-join_append q ps r h.1)

begins_self : (ps : List String) → begins ps ps ≡ true
unfolding begins
begins_self [] = refl
begins_self (p ∷ ps) = ground (arith, eq_iff p p, begins_self ps)

pub join-ne-blank : (p : String) (ps : List String) → Good (p ∷ ps) → join (p ∷ ps) ≢ ""
join-ne-blank p ps h e =
    let blank : p ∷ ps ≡ "" ∷ [] = sym (split-join p ps h) ∙ ap split e ∙ (unfold split in refl) in
    ground (arith, ap first_of blank, h.0.1, eq_iff p "")

-- a text that is the joined segments, or goes on with a slash behind them, begins with them
pub begins-joined :
    (p : String) (ps : List String) (k : String)
    → Good (p ∷ ps)
    → k ≡ join (p ∷ ps)
    → begins (p ∷ ps) (split k) ≡ true
begins-joined p ps k h e =
    ap (begins (p ∷ ps)) (ap split e ∙ split-join p ps h) ∙ begins_self (p ∷ ps)

pub begins-longer :
    (p : String) (ps : List String) (k : String)
    → Good (p ∷ ps)
    → starts_with k (text_append (join (p ∷ ps)) "/") ≡ true
    → begins (p ∷ ps) (split k) ≡ true
begins-longer p ps k h e =
    let (u, longer) = (starts_with_iff k (text_append (join (p ∷ ps)) "/")).0 e in
    ap (begins (p ∷ ps))
      (ap split (sym longer ∙ append_assoc (join (p ∷ ps)) "/" u) ∙ split-join_append p ps u h)
    ∙ begins-append (p ∷ ps) (split u)

-- and only such a text does
pub joined-begins :
    (p : String) (ps : List String) (k : String)
    → begins (p ∷ ps) (split k) ≡ true
    → (k ≡ join (p ∷ ps)) ⊎ (starts_with k (text_append (join (p ∷ ps)) "/") ≡ true)
joined-begins p ps k h =
    let (rs, e) = begins-split (p ∷ ps) (split k) h in go rs (sym (join-split k) ∙ ap join (sym e))
  where
    go :
        (rs : List String)
        → k ≡ join ((p ∷ ps) ++ rs)
        → (k ≡ join (p ∷ ps)) ⊎ (starts_with k (text_append (join (p ∷ ps)) "/") ≡ true)
    go [] e = inl (e ∙ ap join (append-nil (p ∷ ps)))
    go (r ∷ rs) e = inr (
        (starts_with_iff k (text_append (join (p ∷ ps)) "/")).1 (
          join (r ∷ rs),
          append_assoc (join (p ∷ ps)) "/" (join (r ∷ rs)) ∙ sym (e ∙ join-append p ps r rs),
        ))
