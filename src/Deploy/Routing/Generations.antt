-- ===== src/Deploy/Routing/Generations.antt =====
-- A gateway's generation tells its tables apart.
use mathlib.Core.Path.{subst}
use native.Mathlib.Nat.{le_trans, le_refl}
use modelship.Prelude.{
  ℕ, ◌≤◌, String, ◌≡◌, refl, sym, ◌∙◌, Bool, true, false, ◌||◌, not, Option, none, some, List, [],
  ◌∷◌, str_eq, Bool-cases, inl, inr, arith, eq_iff,
}
use modelship.Dict.{get, get-put, get-put_self}
use modelship.Deploy.Routing.{
  Published, is_seq, generation_of, bump, changed, bump_if, publish_as, publish, publishes,
}

module _ {Table : Type 0} (same : Table → Table → Bool) where
  -- two tables of which a replica need not be told apart
  abbrev pub Alike : Option Table → Option Table → Type 0
  Alike none none = Unit
  Alike none (some b) = true ≡ false
  Alike (some a) none = true ≡ false
  Alike (some a) (some b) = same a b ≡ true

  -- from one state to the next, a gateway's generation grows, or table and routing seq stay
  record Advances (g : String) (st st' : Published Table) : Type 0 where
    grows : generation_of same g st ≤ generation_of same g st'
    stays :
        generation_of same g st' ≡ generation_of same g st
        → Alike (get g st.routing) (get g st'.routing) × (get g st'.seqs ≡ get g st.seqs)

  module _ (reflexive : (a : Table) → same a a ≡ true)
      (transitive : (a b c : Table) → same a b ≡ true → same b c ≡ true → same a c ≡ true) where
    Alike-refl : (o : Option Table) → Alike o o
    Alike-refl none = tt
    Alike-refl (some a) = reflexive a

    Alike-trans : (o p q : Option Table) → Alike o p → Alike p q → Alike o q
    Alike-trans none none q h k = k
    Alike-trans none (some b) q h k = absurd (ground (arith, h))
    Alike-trans (some a) none q h k = absurd (ground (arith, h))
    Alike-trans (some a) (some b) none h k = absurd (ground (arith, k))
    Alike-trans (some a) (some b) (some c) h k = transitive a b c h k

    other-Advances :
        (bumps : Bool) (g gateway : String) (table : Table) (seq : ℕ) (st : Published Table)
        → str_eq gateway g ≡ false
        → Advances g st (publish_as same bumps gateway table seq st)
    unfolding publish_as bump_if bump
    other-Advances true g gateway table seq st i = record {
      grows = rw (get-put, i) (le_refl _);
      stays = λ e. (rw (get-put, i) (Alike-refl (get g st.routing)), rw (get-put, i));
    }
    other-Advances false g gateway table seq st i = record {
      grows = le_refl _;
      stays = λ e. (rw (get-put, i) (Alike-refl (get g st.routing)), rw (get-put, i));
    }

    unchanged-Alike :
        (o : Option Table) (table : Table) → changed same o table ≡ false → Alike o (some table)
    unchanged-Alike none table h = absurd (ground (arith, h))
    unchanged-Alike (some a) table h = ground (arith, h)

    is_seq_eq : (seq : ℕ) (o : Option ℕ) → is_seq seq o ≡ true → some seq ≡ o
    is_seq_eq seq none h = absurd (ground (arith, h))
    is_seq_eq seq (some q) h = ground (arith, h)

    own-Advances :
        (bumps : Bool) (g : String) (table : Table) (seq : ℕ) (st : Published Table)
        → (changed same (get g st.routing) table || not (is_seq seq (get g st.seqs))) ≡ bumps
        → Advances g st (publish_as same bumps g table seq st)
    unfolding publish_as bump_if bump
    own-Advances true g table seq st h = record {
      grows = rw get-put_self (omega arith);
      stays = λ e. absurd (omega (arith, rw get-put_self at e));
    }
    own-Advances false g table seq st h = record {
      grows = le_refl _;
      stays = λ e. (
        rw get-put_self (unchanged-Alike (get g st.routing) table (ground (arith, h))),
        rw get-put_self (is_seq_eq seq (get g st.seqs) (ground (arith, h))),
      );
    }

    publish-Advances :
        (g gateway : String) (table : Table) (seq : ℕ) (st : Published Table)
        → Advances g st (publish same gateway table seq st)
    unfolding publish
    publish-Advances g gateway table seq st = elim (Bool-cases (str_eq gateway g)) [
      | inl i ↦
          subst (λ k. Advances g st (publish same k table seq st)) (sym ((eq_iff gateway g).0 i))
            (own-Advances _ g table seq st refl)
      | inr i ↦ other-Advances _ g gateway table seq st i
    ]

    publishes-Advances :
        (g : String) (ps : List (String × (Table × ℕ))) (st : Published Table)
        → Advances g st (publishes same ps st)
    unfolding publishes
    publishes-Advances g [] st = record {
      grows = le_refl _;
      stays = λ e. (Alike-refl (get g st.routing), refl);
    }
    publishes-Advances g ((gateway, (table, seq)) ∷ ps) st =
        let one = publish-Advances g gateway table seq st in
        let rest = publishes-Advances g ps (publish same gateway table seq st) in
        record {
          grows = le_trans one.grows rest.grows;
          stays = λ e.
              let (t1, s1) = one.stays (omega (arith, e, one.grows, rest.grows)) in
              let (t2, s2) = rest.stays (omega (arith, e, one.grows, rest.grows)) in
              (Alike-trans _ _ _ t1 t2, s2 ∙ s1);
        }

  -- Where equality of tables is reflexive and transitive, whatever is published in between, for this
  -- gateway or others: as long as a gateway's generation is the same, so are its table and routing seq.
  pub publishes-generation :
      (g : String) (ps : List (String × (Table × ℕ))) (st : Published Table)
      → ((a : Table) → same a a ≡ true)
      → ((a b c : Table) → same a b ≡ true → same b c ≡ true → same a c ≡ true)
      → generation_of same g (publishes same ps st) ≡ generation_of same g st
      → Alike (get g st.routing) (get g (publishes same ps st).routing)
        × (get g (publishes same ps st).seqs ≡ get g st.seqs)
  publishes-generation g ps st reflexive transitive e =
      (publishes-Advances reflexive transitive g ps st).stays e
