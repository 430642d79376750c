-- ===== src/State/Clocked/Laws.antt =====
-- What each call of the memory store replies and leaves to be seen, while nothing expires.
use modelship.Prelude.{
  ℕ, ◌+◌, ◌≤◌, String, ◌≡◌, sym, refl, eq_iff, Bool, not, Option, none, some, [], ◌∷◌, ◌++◌, arith,
  str_eq, if◌then◌else◌, Bool-cases, inl, inr,
}
use modelship.State.Memory.{Time, Stored, log, expires_at, taken, values_in}
use modelship.State.Memory.View.{view}
use native.Mathlib.Nat.{le_refl}
use modelship.State.Memory.Spec.{
  Call, Spec, call, spec_call, Ordered, write, spec_append, spec_append_and_set, spec_expire,
  entries_in, refused,
}
use modelship.State.Store.{Content, accepts, written}
use modelship.State.Clocked.{
  Clocked, now, content, get, set, delete, append, append_and_set, read_range, expire,
}
use mathlib.Core.Path.{subst}
use modelship.State.Clocked.Lasting.{Lasts, until-lasting, after-content, after-Lasts, after-reply}

module _ {V : Type 0} where
  spec_append-reply :
      (key : String) (position : ℕ) (value : V) (ttl : Option ℕ) (u : Time) (s : Spec V)
      → (spec_append key position value ttl u s).0 ≡ not (taken (entries_in (s key u)) position)
  spec_append-reply key position value ttl u s =
      elim (Bool-cases (taken (entries_in (s key u)) position)) [ inl e ↦ rw e | inr e ↦ rw e ]

  module _ (t : Option ℕ) (w : Clocked V) (h : Lasts t w) where
    read_later : (j : String) (n : ℕ) → w.tick + 1 ≤ n → view (w.clock n) j w.memory ≡ content w j
    read_later j n le = h.steady j n (omega arith)

    next : now w ≤ w.clock (w.tick + 1)
    next = h.monotone w.tick (w.tick + 1) (omega arith)

    pub get_law :
        (k : String)
        → ((get k w).0 ≡ content w k)
          × Lasts t (get k w).1
          × ((j : String) → content (get k w).1 j ≡ content w j)
    unfolding get call spec_call
    get_law k =
        let c : Call V = Call.get_call k (now w) in
        (
          cc (after-reply t c 1 (content w) w h (le_refl _) next read_later),
          after-Lasts t c 1 (content w) w h (le_refl _) next read_later,
          after-content t c 1 (content w) w h (le_refl _) next read_later,
        )

    set_later :
        (k : String) (v : Stored V) (j : String) (n : ℕ)
        → w.tick + 1 ≤ n
        → write k v (expires_at (now w) t) (λ i u. view u i w.memory) j (w.clock n)
          ≡ (if str_eq k j then some v else content w j)
    set_later k v j n le = rw (until-lasting t v w.tick n w h, h.steady j n (omega arith))

    pub set_law :
        (k : String) (v : Stored V)
        → Lasts t (set k v t w).1
          × ((j : String)
              → content (set k v t w).1 j ≡ (if str_eq k j then some v else content w j))
    unfolding set call spec_call
    set_law k v =
        let c : Call V = Call.set_call k v t (now w) in
        let F : Content V = λ j. if str_eq k j then some v else content w j in
        (
          after-Lasts t c 1 F w h (le_refl _) next (set_later k v),
          after-content t c 1 F w h (le_refl _) next (set_later k v),
        )

    delete_later :
        (k j : String) (n : ℕ)
        → view (w.clock n) j w.memory ≡ content w j
        → (if str_eq k j then none else view (w.clock n) j w.memory)
          ≡ (if str_eq k j then none else content w j)
    delete_later k j n e = rw e

    pub delete_law :
        (k : String)
        → Lasts t (delete k w).1
          × ((j : String) → content (delete k w).1 j ≡ (if str_eq k j then none else content w j))
    unfolding delete call spec_call
    delete_law k =
        let c : Call V = Call.delete_call k (now w) in
        let F : Content V = λ j. if str_eq k j then none else content w j in
        let kept = h.monotone w.tick (w.tick + 0) (omega arith) in
        let gone = λ (j : String) (n : ℕ) (le : w.tick + 0 ≤ n).
          delete_later k j n (h.steady j n (omega arith)) in
        (
          after-Lasts t c 0 F w h (le_refl _) kept gone,
          after-content t c 0 F w h (le_refl _) kept gone,
        )

    pub read_range_law :
        (k : String) (a : ℕ) (b : Option ℕ)
        → ((read_range k a b w).0 ≡ values_in a b (entries_in (content w k)))
          × Lasts t (read_range k a b w).1
          × ((j : String) → content (read_range k a b w).1 j ≡ content w j)
    unfolding read_range call spec_call
    read_range_law k a b =
        let c : Call V = Call.read_range_call k a b (now w) in
        (
          cc (after-reply t c 1 (content w) w h (le_refl _) next read_later),
          after-Lasts t c 1 (content w) w h (le_refl _) next read_later,
          after-content t c 1 (content w) w h (le_refl _) next read_later,
        )

    abbrev pub appended : String → ℕ → V → Content V
    appended k p e j =
        if not (taken (entries_in (content w k)) p)
        then (if str_eq k j
            then some (log (entries_in (content w k) ++ (p, e) ∷ []))
            else content w j)
        else content w j

    append_later :
        (k : String) (p : ℕ) (e : V) (j : String) (n : ℕ)
        → w.tick + 1 ≤ n
        → (spec_append k p e t (now w) (λ i u. view u i w.memory)).1 j (w.clock n)
          ≡ appended k p e j
    append_later k p e j n le = elim (Bool-cases (taken (entries_in (content w k)) p)) [
      | inl x ↦ rw (x, h.steady j n (omega arith))
      | inr x ↦ rw (x, until-lasting t _ w.tick n w h, h.steady j n (omega arith))
    ]

    pub append_law :
        (k : String) (p : ℕ) (e : V)
        → ((append k p e t w).0 ≡ not (taken (entries_in (content w k)) p))
          × Lasts t (append k p e t w).1
          × ((j : String) → content (append k p e t w).1 j ≡ appended k p e j)
    unfolding append call spec_call
    append_law k p e =
        let c : Call V = Call.append_call k p e t (now w) in
        (
          cc (
            after-reply t c 1 (appended k p e) w h (le_refl _) next (append_later k p e),
            spec_append-reply k p e t (now w) (λ i u. view u i w.memory),
          ),
          after-Lasts t c 1 (appended k p e) w h (le_refl _) next (append_later k p e),
          after-content t c 1 (appended k p e) w h (le_refl _) next (append_later k p e),
        )

    seen_at : (j : String) (i : ℕ) → view (w.clock (w.tick + i)) j w.memory ≡ content w j
    seen_at j i = h.steady j (w.tick + i) (omega arith)

    abbrev pub both : String → ℕ → V → String → Stored V → Bool → Content V
    both l p e k v x j =
        if accepts (content w) l p k x then written (content w) l p e k v j else content w j

    append_and_set_step :
        (l : String) (p : ℕ) (e : V) (k : String) (v : Stored V) (x : Bool) (j : String) (n : ℕ)
        → w.tick + 3 ≤ n
        → (spec_call
              (Call.append_and_set_call l p e k v t x
                (now w)
                (w.clock (w.tick + 1))
                (w.clock (w.tick + 2)))
              (λ i u. view u i w.memory)).1
            j
            (w.clock n)
          ≡ both l p e k v x j
    unfolding spec_call accepts written
    append_and_set_step l p e k v x j n le = elim (Bool-cases (refused x (content w k))) [
      | inl a ↦ rw (a, h.steady j n (omega arith))
      | inr a ↦ elim (Bool-cases (taken (entries_in (content w l)) p)) [
        | inl b ↦ rw (a, seen_at l 1, b, h.steady j n (omega arith))
        | inr b ↦ rw (
          a,
          seen_at l 1,
          b,
          until-lasting t v (w.tick + 2) n w h,
          until-lasting t _ (w.tick + 1) n w h,
          h.steady j n (omega arith),
        )
      ]
    ]

    append_and_set-spec_reply :
        (l : String) (p : ℕ) (e : V) (k : String) (v : Stored V) (x : Bool)
        → (spec_append_and_set l p e k v t x
            (now w)
            (w.clock (w.tick + 1))
            (w.clock (w.tick + 2))
            (λ i u. view u i w.memory)).0
          ≡ accepts (content w) l p k x
    unfolding accepts
    append_and_set-spec_reply l p e k v x = elim (Bool-cases (refused x (content w k))) [
      | inl a ↦ rw a
      | inr a ↦ elim (Bool-cases (taken (entries_in (content w l)) p)) [
        | inl b ↦ rw (a, seen_at l 1, b)
        | inr b ↦ rw (a, seen_at l 1, b)
      ]
    ]

    pub append_and_set_law :
        (l : String) (p : ℕ) (e : V) (k : String) (v : Stored V) (x : Bool)
        → ((append_and_set l p e k v t x w).0 ≡ accepts (content w) l p k x)
          × Lasts t (append_and_set l p e k v t x w).1
          × ((j : String) → content (append_and_set l p e k v t x w).1 j ≡ both l p e k v x j)
    unfolding append_and_set call spec_call
    append_and_set_law l p e k v x =
        let t2 = w.clock (w.tick + 1) in
        let t3 = w.clock (w.tick + 2) in
        let c : Call V = Call.append_and_set_call l p e k v t x (now w) t2 t3 in
        let mono = λ (i j : ℕ) (le : i ≤ j). h.monotone (w.tick + i) (w.tick + j) (omega arith) in
        let ordered : Ordered (now w) c = (le_refl _, next, mono 1 2 (omega arith)) in
        let ends = mono 2 3 (omega arith) in
        let F = both l p e k v x in
        let step = append_and_set_step l p e k v x in
        (
          cc (after-reply t c 3 F w h ordered ends step, append_and_set-spec_reply l p e k v x),
          after-Lasts t c 3 F w h ordered ends step,
          after-content t c 3 F w h ordered ends step,
        )

  module _ (t : ℕ) (w : Clocked V) (h : Lasts (some t) w) where
    renewed :
        (k : String) (o : Option (Stored V)) (j : String) (n : ℕ)
        → w.tick + 1 ≤ n
        → content w k ≡ o
        → spec_expire o k t (now w) (λ i u. view u i w.memory) j (w.clock n) ≡ content w j
    renewed k none j n le e = h.steady j n (omega arith)
    renewed k (some v) j n le e = elim (Bool-cases (str_eq k j)) [
      | inl x ↦
          rw (x, until-lasting (some t) v w.tick n w h)
            (sym (subst (λ i. content w i ≡ some v) ((eq_iff k j).0 x) e))
      | inr x ↦ rw (x, h.steady j n (omega arith))
    ]

    pub expire_law :
        (k : String)
        → Lasts (some t) (expire k t w).1
          × ((j : String) → content (expire k t w).1 j ≡ content w j)
    unfolding expire call spec_call
    expire_law k =
        let c : Call V = Call.expire_call k t (now w) in
        let next' = h.monotone w.tick (w.tick + 1) (omega arith) in
        let later =
          λ (j : String) (n : ℕ) (le : w.tick + 1 ≤ n). renewed k (content w k) j n le refl in
        (
          after-Lasts (some t) c 1 (content w) w h (le_refl _) next' later,
          after-content (some t) c 1 (content w) w h (le_refl _) next' later,
        )
