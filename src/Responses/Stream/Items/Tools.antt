-- ===== src/Responses/Stream/Items/Tools.antt =====
-- The output indexes of the tool calls.
use mathlib.Core.List.{Perm}
use mathlib.Core.List.Perm
use modelship.Prelude.{
  ℕ, ◌≡◌, refl, ap, sym, ◌∙◌, true, none, some, List, [], ◌∷◌, ◌++◌, leb, ◌==◌, arith, Bool-cases,
  inl, inr,
}
use modelship.Responses.Stream.{Tool, insert_tool, sorted_tools}
use modelship.Responses.Stream.Channels.{tool_at, put_tool}
use modelship.Responses.Stream.Items.{of_tools}

pub put_tool-new :
    (c : Tool) (ds : List Tool)
    → tool_at c.index ds ≡ none
    → of_tools (put_tool c ds) ≡ of_tools ds ++ c.output_index ∷ []
unfolding put_tool tool_at
put_tool-new c [] h = refl
put_tool-new c (d ∷ ds) h = elim (Bool-cases (d.index == c.index)) [
  | inl e ↦ absurd (cc (rw e at h))
  | inr e ↦ rw e (ap (◌∷◌ d.output_index) (put_tool-new c ds (rw e at h)))
]

pub put_tool-same :
    (c e : Tool) (ds : List Tool)
    → tool_at c.index ds ≡ some e
    → e.output_index ≡ c.output_index
    → of_tools (put_tool c ds) ≡ of_tools ds
unfolding put_tool tool_at
put_tool-same c e [] h k = absurd (cc h)
put_tool-same c e (d ∷ ds) h k = elim (Bool-cases (d.index == c.index)) [
  | inl q ↦ rw q (
      ap (λ i. i ∷ of_tools ds)
        (sym k ∙ ap {A = Tool} (λ x. x.output_index) (sym (found (rw q at h)))))
  | inr q ↦ rw q (ap (◌∷◌ d.output_index) (put_tool-same c e ds (rw q at h) k))
]
  where
    found : some d ≡ some e → d ≡ e
    found p = cc p

pub tool_at-put_tool : (c : Tool) (ds : List Tool) → tool_at c.index (put_tool c ds) ≡ some c
unfolding put_tool tool_at
tool_at-put_tool c [] = rw (self c.index) refl
  where
    self : (n : ℕ) → (n == n) ≡ true
    self n = ground arith
tool_at-put_tool c (d ∷ ds) = elim (Bool-cases (d.index == c.index)) [
  | inl q ↦ rw q (rw (self c.index) refl)
  | inr q ↦ rw q (rw q (tool_at-put_tool c ds))
]
  where
    self : (n : ℕ) → (n == n) ≡ true
    self n = ground arith

pub tool_at-index : (i : ℕ) (c : Tool) (ds : List Tool) → tool_at i ds ≡ some c → c.index ≡ i
unfolding tool_at
tool_at-index i c [] h = absurd (cc h)
tool_at-index i c (d ∷ ds) h = elim (Bool-cases (d.index == i)) [
  | inl q ↦ ap {A = Tool} (λ x. x.index) (sym (found (rw q at h))) ∙ equal d.index i q
  | inr q ↦ tool_at-index i c ds (rw q at h)
]
  where
    found : some d ≡ some c → d ≡ c
    found p = cc p

    equal : (m n : ℕ) → (m == n) ≡ true → m ≡ n
    equal m n p = ground (arith, p)

insert_tool-Perm : (c : Tool) (ds : List Tool) → Perm (insert_tool c ds) (c ∷ ds)
unfolding insert_tool
insert_tool-Perm c [] = Perm.refl (c ∷ [])
insert_tool-Perm c (d ∷ ds) = elim (Bool-cases (leb c.index d.index)) [
  | inl q ↦ rw q (Perm.refl (c ∷ d ∷ ds))
  | inr q ↦ rw q (Perm.trans (Perm.cons d (insert_tool-Perm c ds)) (Perm.swap c d ds))
]

pub sorted_tools-Perm : (ds : List Tool) → Perm (sorted_tools ds) ds
unfolding sorted_tools
sorted_tools-Perm [] = Perm.refl []
sorted_tools-Perm (d ∷ ds) =
    Perm.trans (insert_tool-Perm d (sorted_tools ds)) (Perm.cons d (sorted_tools-Perm ds))
