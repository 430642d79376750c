-- ===== src/State/Clocked/Lasting.antt =====
-- A call of the memory store while nothing expires: its reply, and what is seen after it.
use modelship.Prelude.{ℕ, ◌+◌, ◌≤◌, ◌<◌, String, ◌≡◌, ◌∙◌, sym, refl, Option, none, some, arith}
use modelship.State.Memory.{Time, Stored, expires_at}
use modelship.State.Memory.View.{view}
use native.Mathlib.Nat.{le_trans}
use modelship.Dict.{Distinct}
use modelship.State.Memory.Spec.{Call, call, spec_call, Ordered, end_of, until}
use modelship.State.Memory.Refinement.{Refines, call-Refines}
use modelship.State.Store.{Content}
use modelship.State.Clocked.{Clocked, now, content, advance}

abbrev pub Outlasts : Option ℕ → (ℕ → Time) → Type 0
Outlasts none clock = Unit
Outlasts (some t) clock = (m n : ℕ) → clock n < clock m + t

-- Every reading is within the lifetime of every other, and nothing stored expires at one to come.
pub record Lasts {ℓ} {V : Type ℓ} (t : Option ℕ) (w : Clocked V) : Type ℓ where
  pub distinct : Distinct w.memory.table
  pub monotone : (m n : ℕ) → m ≤ n → w.clock m ≤ w.clock n
  pub steady :
      (k : String) (n : ℕ)
      → w.tick ≤ n
      → view (w.clock n) k w.memory ≡ view (w.clock w.tick) k w.memory
  pub lifetime : Outlasts t w.clock

module _ {ℓ} {V : Type ℓ} where
  pub until-lasting :
      (t : Option ℕ) (v : Stored V) (m n : ℕ) (w : Clocked V)
      → Lasts t w
      → until (expires_at (w.clock m) t) v (w.clock n) ≡ some v
  until-lasting none v m n w h = refl
  until-lasting (some t) v m n w h = ground (arith, h.lifetime m n)

  -- A call of `r` readings, whose effect on later readers is that each sees `after`.
  module _ (t : Option ℕ) (c : Call V) (r : ℕ) (after : Content V) (w : Clocked V) (h : Lasts t w)
      (ordered : Ordered (now w) c) (ends : end_of c ≤ w.clock (w.tick + r))
      (later : (j : String) (n : ℕ)
        → w.tick + r ≤ n
        → (spec_call c (λ k u. view u k w.memory)).1 j (w.clock n) ≡ after j) where
    refined : Refines (end_of c) (spec_call c (λ k u. view u k w.memory)).1 (call c w.memory).1
    refined =
        (call-Refines c (now w) (λ k u. view u k w.memory) w.memory ordered
          (record { distinct = h.distinct; agrees = λ j u le. refl })).1

    sees : (j : String) (n : ℕ) → w.tick + r ≤ n → view (w.clock n) j (call c w.memory).1 ≡ after j
    sees j n le =
        refined.agrees j (w.clock n) (le_trans ends (h.monotone (w.tick + r) n le)) ∙ later j n le

    pub after-content : (j : String) → content (advance r (call c w.memory).1 w) j ≡ after j
    after-content j = sees j (w.tick + r) (omega arith)

    pub after-Lasts : Lasts t (advance r (call c w.memory).1 w)
    after-Lasts = record {
      distinct = refined.distinct;
      monotone = h.monotone;
      steady = λ k n le. sees k n le ∙ sym (after-content k);
      lifetime = h.lifetime;
    }

    -- nor does the reply depend on what was dropped
    pub after-reply : (call c w.memory).0 ≡ (spec_call c (λ k u. view u k w.memory)).0
    after-reply =
        (call-Refines c (now w) (λ k u. view u k w.memory) w.memory ordered
          (record { distinct = h.distinct; agrees = λ j u le. refl })).0
