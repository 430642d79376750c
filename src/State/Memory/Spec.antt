-- ===== src/State/Memory/Spec.antt =====
-- The store as its callers know it, `StateStore` of modelship/state/base.py: a key has a value until
-- the value expires or is replaced. Nothing here is ever dropped or swept.
use modelship.Prelude.{
  ℕ, ◌≤◌, String, Bool, true, false, Option, none, some, List, [], ◌∷◌, ◌++◌, str_eq, if◌then◌else◌,
}
use modelship.State.Memory.{
  Time, Stored, document, log, Memory, expired, expires_at, taken, values_in, get, set, delete,
  append, append_and_set, read_range, expire,
}

-- the calls of `StateStore`, with the clock readings that each of them takes
pub data Call {ℓ} (V : Type ℓ) : Type ℓ where
  get_call : String → Time → Call V
  set_call : String → Stored V → Option ℕ → Time → Call V
  delete_call : String → Time → Call V
  append_call : String → ℕ → V → Option ℕ → Time → Call V
  append_and_set_call :
      String → ℕ → V → String → Stored V → Option ℕ → Bool → Time → Time → Time → Call V
  read_range_call : String → ℕ → Option ℕ → Time → Call V
  expire_call : String → ℕ → Time → Call V

pub data Reply {ℓ} (V : Type ℓ) : Type ℓ where
  done : Reply V
  found : Option (Stored V) → Reply V
  accepted : Bool → Reply V
  values : List V → Reply V

-- what a reader of a key sees at a time
abbrev pub Spec {ℓ} : Type ℓ → Type ℓ
Spec V = String → Time → Option (Stored V)

module _ {ℓ} {V : Type ℓ} where
  unfoldable pub call : Call V → Memory V → Reply V × Memory V
  call (get_call key now) m = let (r, m') = get key now m in (found r, m')
  call (set_call key value ttl now) m = (done, set key value ttl now m)
  call (delete_call key now) m = (done, delete key m)
  call (append_call key position value ttl now) m =
      let (r, m') = append key position value ttl now m in (accepted r, m')
  call (append_and_set_call log_key position entry key value ttl if_exists t1 t2 t3) m =
      let (r, m') = append_and_set log_key position entry key value ttl if_exists t1 t2 t3 m in
      (accepted r, m')
  call (read_range_call key start end now) m =
      let (r, m') = read_range key start end now m in (values r, m')
  call (expire_call key ttl now) m = (done, expire key ttl now m)

  unfoldable pub calls : List (Call V) → Memory V → List (Reply V) × Memory V
  calls [] m = ([], m)
  calls (c ∷ cs) m = let (r, m1) = call c m in let (rs, m2) = calls cs m1 in (r ∷ rs, m2)

  abbrev pub until : Option Time → Stored V → Time → Option (Stored V)
  until e v u = if expired e u then none else some v

  abbrev pub write : String → Stored V → Option Time → Spec V → Spec V
  write key v e s j u = if str_eq key j then until e v u else s j u

  abbrev pub entries_in : Option (Stored V) → List (ℕ × V)
  entries_in (some (log entries)) = entries
  entries_in (some (document _)) = []
  entries_in none = []

  abbrev pub spec_append : String → ℕ → V → Option ℕ → Time → Spec V → Bool × Spec V
  spec_append key position value ttl now s =
      let entries = entries_in (s key now) in
      if taken entries position
      then (false, s)
      else (true, write key (log (entries ++ (position, value) ∷ [])) (expires_at now ttl) s)

  abbrev pub absent : Option (Stored V) → Bool
  absent none = true
  absent (some _) = false

  abbrev pub refused : Bool → Option (Stored V) → Bool
  refused if_exists v = if if_exists then absent v else false

  -- neither key is written if the call is refused
  abbrev pub spec_append_and_set :
      String
      → ℕ
      → V
      → String
      → Stored V
      → Option ℕ
      → Bool
      → Time
      → Time
      → Time
      → Spec V
      → Bool × Spec V
  spec_append_and_set log_key position entry key value ttl if_exists t1 t2 t3 s =
      if refused if_exists (s key t1)
      then (false, s)
      else let (appended, s') = spec_append log_key position entry ttl t2 s in
        (appended, if appended then write key value (expires_at t3 ttl) s' else s)

  abbrev pub spec_expire : Option (Stored V) → String → ℕ → Time → Spec V → Spec V
  spec_expire none key ttl now s = s
  spec_expire (some v) key ttl now s = write key v (expires_at now (some ttl)) s

  unfoldable pub spec_call : Call V → Spec V → Reply V × Spec V
  spec_call (get_call key now) s = (found (s key now), s)
  spec_call (set_call key value ttl now) s = (done, write key value (expires_at now ttl) s)
  spec_call (delete_call key now) s = (done, λ j u. if str_eq key j then none else s j u)
  spec_call (append_call key position value ttl now) s =
      let (r, s') = spec_append key position value ttl now s in (accepted r, s')
  spec_call (append_and_set_call log_key position entry key value ttl if_exists t1 t2 t3) s =
      let (r, s') = spec_append_and_set log_key position entry key value ttl if_exists t1 t2 t3 s in
      (accepted r, s')
  spec_call (read_range_call key start end now) s =
      (values (values_in start end (entries_in (s key now))), s)
  spec_call (expire_call key ttl now) s = (done, spec_expire (s key now) key ttl now s)

  unfoldable pub spec_calls : List (Call V) → Spec V → List (Reply V) × Spec V
  spec_calls [] s = ([], s)
  spec_calls (c ∷ cs) s =
      let (r, s1) = spec_call c s in let (rs, s2) = spec_calls cs s1 in (r ∷ rs, s2)

  -- the clock does not run backwards in a call that starts at `t` or later
  abbrev pub Ordered : Time → Call V → Type 0
  Ordered t (get_call _ now) = t ≤ now
  Ordered t (set_call _ _ _ now) = t ≤ now
  Ordered t (delete_call _ now) = t ≤ now
  Ordered t (append_call _ _ _ _ now) = t ≤ now
  Ordered t (append_and_set_call _ _ _ _ _ _ _ t1 t2 t3) = (t ≤ t1) × (t1 ≤ t2) × (t2 ≤ t3)
  Ordered t (read_range_call _ _ _ now) = t ≤ now
  Ordered t (expire_call _ _ now) = t ≤ now

  abbrev pub end_of : Call V → Time
  end_of (get_call _ now) = now
  end_of (set_call _ _ _ now) = now
  end_of (delete_call _ now) = now
  end_of (append_call _ _ _ _ now) = now
  end_of (append_and_set_call _ _ _ _ _ _ _ t1 t2 t3) = t3
  end_of (read_range_call _ _ _ now) = now
  end_of (expire_call _ _ now) = now

  abbrev pub AllOrdered : Time → List (Call V) → Type 0
  AllOrdered t [] = Unit
  AllOrdered t (c ∷ cs) = Ordered t c × AllOrdered (end_of c) cs
