-- ===== src/State/Store.antt =====
-- modelship/state/base.py: `StateStore`, as the layers above it use it. `content` is what a reader of
-- a key sees, and `Lasting ttl` that nothing stored, or stored from now on for `ttl`, expires while
-- the calls run. The laws are what the docstrings of the abstract methods promise.
use modelship.Prelude.{
  ℕ, String, ◌≡◌, Bool, false, not, Option, none, some, List, [], ◌∷◌, ◌++◌, str_eq, if◌then◌else◌,
}
use modelship.State.Memory.{Stored, log, taken, values_in}
use modelship.State.Memory.Spec.{entries_in, refused}

-- an action on a store
abbrev pub Action {ℓ} : Type ℓ → Type ℓ → Type ℓ
Action S A = S → A × S

infixl 5 ◌>>=◌ ◌>>◌
abbrev pub ◌>>=◌ {ℓ} : {S A B : Type ℓ} → Action S A → (A → Action S B) → Action S B
◌>>=◌ m f s = let (a, s') = m s in f a s'

abbrev pub ◌>>◌ {ℓ} : {S A B : Type ℓ} → Action S A → Action S B → Action S B
m >> k = m >>= λ _. k

abbrev pub pure {ℓ} : {S A : Type ℓ} → A → Action S A
pure a s = (a, s)

-- what a reader sees at each key
abbrev pub Content {ℓ} : Type ℓ → Type ℓ
Content V = String → Option (Stored V)

module _ {ℓ} {V : Type ℓ} where
  -- an append is refused at a position that is not past the last, and for a key that must exist
  unfoldable pub accepts : Content V → String → ℕ → String → Bool → Bool
  accepts c log_key position key if_exists =
      if refused if_exists (c key) then false else not (taken (entries_in (c log_key)) position)

  -- both keys are written, the log's first
  unfoldable pub written : Content V → String → ℕ → V → String → Stored V → Content V
  written c log_key position entry key value j =
      if str_eq key j
      then some value
      else if str_eq log_key j
      then some (log (entries_in (c log_key) ++ (position, entry) ∷ []))
      else c j

pub record StateStore (V : Type 0) : Type 1 where
  pub State : Type 0
  pub get : String → Action State (Option (Stored V))
  pub set : String → Stored V → Option ℕ → Action State (Unit {0})
  pub delete : String → Action State (Unit {0})
  pub append : String → ℕ → V → Option ℕ → Action State Bool
  pub append_and_set : String → ℕ → V → String → Stored V → Option ℕ → Bool → Action State Bool
  pub read_range : String → ℕ → Option ℕ → Action State (List V)
  pub expire : String → ℕ → Action State (Unit {0})
  pub content : State → Content V
  pub Lasting : Option ℕ → State → Type 0
  pub get-reply : (t : Option ℕ) (k : String) (s : State) → Lasting t s → (get k s).0 ≡ content s k
  pub get-content :
      (t : Option ℕ) (k j : String) (s : State) → Lasting t s → content (get k s).1 j ≡ content s j
  pub get-Lasting : (t : Option ℕ) (k : String) (s : State) → Lasting t s → Lasting t (get k s).1
  pub set-content :
      (t : Option ℕ) (k j : String) (v : Stored V) (s : State)
      → Lasting t s
      → content (set k v t s).1 j ≡ (if str_eq k j then some v else content s j)
  pub set-Lasting :
      (t : Option ℕ) (k : String) (v : Stored V) (s : State)
      → Lasting t s
      → Lasting t (set k v t s).1
  pub delete-content :
      (t : Option ℕ) (k j : String) (s : State)
      → Lasting t s
      → content (delete k s).1 j ≡ (if str_eq k j then none else content s j)
  pub delete-Lasting :
      (t : Option ℕ) (k : String) (s : State) → Lasting t s → Lasting t (delete k s).1
  pub append-reply :
      (t : Option ℕ) (k : String) (p : ℕ) (e : V) (s : State)
      → Lasting t s
      → (append k p e t s).0 ≡ not (taken (entries_in (content s k)) p)
  pub append-content :
      (t : Option ℕ) (k : String) (p : ℕ) (e : V) (j : String) (s : State)
      → Lasting t s
      → content (append k p e t s).1 j ≡ (
          if not (taken (entries_in (content s k)) p)
          then (if str_eq k j
              then some (log (entries_in (content s k) ++ (p, e) ∷ []))
              else content s j)
          else content s j)
  pub append-Lasting :
      (t : Option ℕ) (k : String) (p : ℕ) (e : V) (s : State)
      → Lasting t s
      → Lasting t (append k p e t s).1
  pub append_and_set-reply :
      (t : Option ℕ) (l : String) (p : ℕ) (e : V) (k : String) (v : Stored V) (x : Bool) (s : State)
      → Lasting t s
      → (append_and_set l p e k v t x s).0 ≡ accepts (content s) l p k x
  pub append_and_set-content :
      (t : Option ℕ) (l : String) (p : ℕ) (e : V) (k : String) (v : Stored V) (x : Bool)
      (j : String) (s : State)
      → Lasting t s
      → content (append_and_set l p e k v t x s).1 j
        ≡ (if accepts (content s) l p k x then written (content s) l p e k v j else content s j)
  pub append_and_set-Lasting :
      (t : Option ℕ) (l : String) (p : ℕ) (e : V) (k : String) (v : Stored V) (x : Bool) (s : State)
      → Lasting t s
      → Lasting t (append_and_set l p e k v t x s).1
  pub read_range-reply :
      (t : Option ℕ) (k : String) (a : ℕ) (b : Option ℕ) (s : State)
      → Lasting t s
      → (read_range k a b s).0 ≡ values_in a b (entries_in (content s k))
  pub read_range-content :
      (t : Option ℕ) (k : String) (a : ℕ) (b : Option ℕ) (j : String) (s : State)
      → Lasting t s
      → content (read_range k a b s).1 j ≡ content s j
  pub read_range-Lasting :
      (t : Option ℕ) (k : String) (a : ℕ) (b : Option ℕ) (s : State)
      → Lasting t s
      → Lasting t (read_range k a b s).1
  pub expire-content :
      (t : ℕ) (k j : String) (s : State)
      → Lasting (some t) s
      → content (expire k t s).1 j ≡ content s j
  pub expire-Lasting :
      (t : ℕ) (k : String) (s : State) → Lasting (some t) s → Lasting (some t) (expire k t s).1
