-- ===== src/State/Memory/Logs.antt =====
-- The entries of every log stand at strictly increasing positions.
use modelship.Prelude.{
  ℕ, ◌+◌, ◌<◌, String, ◌≡◌, Bool, true, false, Option, none, some, List, [], ◌∷◌, ◌++◌, arith,
  str_eq, All, Bool-cases, inl, inr, ltb, ◌==◌, ◌||◌, ◌-◌,
}
use modelship.Dict.{Dict, get as dict_get, put, remove}
use modelship.State.Memory.{
  Time, Stored, document, log, Cell, Memory, expired, expires_at, expired_keys, remove_all,
  maybe_sweep, live, live_cell, entries_of, log_of, taken, missing, renew, get, set, delete, append,
  append_and_set, read_range, expire,
}
use modelship.State.Memory.Spec.{Call, call}

module _ {ℓ} {V : Type ℓ} where
  -- strictly increasing, and all above `n`
  abbrev pub Above : ℕ → List (ℕ × V) → Type 0
  Above n [] = Unit
  Above n ((p, v) ∷ es) = (n < p) × Above p es

  abbrev pub Increasing : List (ℕ × V) → Type 0
  Increasing [] = Unit
  Increasing ((p, v) ∷ es) = Above p es

  abbrev pub Positioned : Stored V → Type 0
  Positioned (document v) = Unit
  Positioned (log es) = Increasing es

  -- every log in the table
  abbrev pub Sorted : Dict (Cell V) → Type 0
  Sorted = All (λ e. Positioned e.1.0)

  Above-append :
      (n : ℕ) (u : V) (es : List (ℕ × V)) (p : ℕ) (v : V)
      → Above n es
      → taken ((n, u) ∷ es) p ≡ false
      → Above n (es ++ (p, v) ∷ [])
  unfolding taken
  Above-append n u [] p v h f = (ground arith, tt)
  Above-append n u ((q, w) ∷ es) p v h f = (h.0, Above-append q w es p v h.1 f)

  pub append-Increasing :
      (es : List (ℕ × V)) (p : ℕ) (v : V)
      → Increasing es
      → taken es p ≡ false
      → Increasing (es ++ (p, v) ∷ [])
  append-Increasing [] p v h f = tt
  append-Increasing ((q, w) ∷ es) p v h f = Above-append q w es p v h f

  put-Sorted :
      (k : String) (c : Cell V) (d : Dict (Cell V)) → Positioned c.0 → Sorted d → Sorted (put k c d)
  unfolding put
  put-Sorted k c [] h hs = (h, tt)
  put-Sorted k c ((j, w) ∷ d) h hs = elim (Bool-cases (str_eq j k)) [
    | inl e ↦ rw e (h, hs.1)
    | inr e ↦ rw e (hs.0, put-Sorted k c d h hs.1)
  ]

  remove-Sorted : (k : String) (d : Dict (Cell V)) → Sorted d → Sorted (remove k d)
  unfolding remove
  remove-Sorted k [] hs = tt
  remove-Sorted k ((j, w) ∷ d) hs = elim (Bool-cases (str_eq j k)) [
    | inl e ↦ rw e (remove-Sorted k d hs.1)
    | inr e ↦ rw e (hs.0, remove-Sorted k d hs.1)
  ]

  remove_all-Sorted : (ks : List String) (d : Dict (Cell V)) → Sorted d → Sorted (remove_all ks d)
  unfolding remove_all
  remove_all-Sorted [] d hs = hs
  remove_all-Sorted (k ∷ ks) d hs = remove_all-Sorted ks (remove k d) (remove-Sorted k d hs)

  maybe_sweep-Sorted :
      (now : Time) (m : Memory V) → Sorted m.table → Sorted (maybe_sweep now m).table
  unfolding maybe_sweep
  maybe_sweep-Sorted now m h =
      elim (Bool-cases (m.sweep_interval == 0 || ltb (now - m.last_sweep) m.sweep_interval)) [
        | inl e ↦ rw e h
        | inr e ↦ rw e (remove_all-Sorted (expired_keys now m.table) m.table h)
      ]

  live_cell-Sorted :
      (key : String) (now : Time) (c : Option (Cell V)) (m : Memory V)
      → Sorted m.table
      → Sorted (live_cell key now c m).1.table
  unfolding live_cell
  live_cell-Sorted key now none m h = h
  live_cell-Sorted key now (some (v, e)) m h = elim (Bool-cases (expired e now)) [
    | inl p ↦ rw p (remove-Sorted key m.table h)
    | inr p ↦ rw p h
  ]

  live-Sorted :
      (key : String) (now : Time) (m : Memory V) → Sorted m.table → Sorted (live key now m).1.table
  unfolding live
  live-Sorted key now m h = live_cell-Sorted key now (dict_get key m.table) m h

  Fits : Option (Cell V) → Type 0
  Fits none = Unit
  Fits (some c) = Positioned c.0

  live_cell-Fits :
      (key : String) (now : Time) (c : Option (Cell V)) (m : Memory V)
      → Fits c
      → Fits (live_cell key now c m).0
  unfolding live_cell Fits
  live_cell-Fits key now none m h = tt
  live_cell-Fits key now (some (v, e)) m h = elim (Bool-cases (expired e now)) [
    | inl p ↦ rw p tt
    | inr p ↦ rw p h
  ]

  dict_get-Fits : (k : String) (d : Dict (Cell V)) → Sorted d → Fits (dict_get k d)
  unfolding dict_get Fits
  dict_get-Fits k [] h = tt
  dict_get-Fits k ((j, w) ∷ d) h = elim (Bool-cases (str_eq j k)) [
    | inl p ↦ rw p h.0
    | inr p ↦ rw p (dict_get-Fits k d h.1)
  ]

  live-Fits : (key : String) (now : Time) (m : Memory V) → Sorted m.table → Fits (live key now m).0
  unfolding live
  live-Fits key now m h =
      live_cell-Fits key now (dict_get key m.table) m (dict_get-Fits key m.table h)

  entries_of-Increasing : (c : Option (Cell V)) → Fits c → Increasing (entries_of c)
  unfolding entries_of Fits
  entries_of-Increasing none h = tt
  entries_of-Increasing (some (log es, e)) h = h
  entries_of-Increasing (some (document v, e)) h = tt

  set-Sorted :
      (key : String) (value : Stored V) (ttl : Option ℕ) (now : Time) (m : Memory V)
      → Positioned value
      → Sorted m.table
      → Sorted (set key value ttl now m).table
  set-Sorted key value ttl now m p h =
      unfold set in
      maybe_sweep-Sorted now _ (put-Sorted key (value, expires_at now ttl) m.table p h)

  append-Sorted :
      (key : String) (position : ℕ) (value : V) (ttl : Option ℕ) (now : Time) (m : Memory V)
      → Sorted m.table
      → Sorted (append key position value ttl now m).1.table
  append-Sorted key position value ttl now m h =
      let m' = (live key now m).1 in
      let es = entries_of (live key now m).0 in
      let kept = live-Sorted key now m h in
      let sorted = entries_of-Increasing (live key now m).0 (live-Fits key now m h) in
      elim (Bool-cases (taken es position)) [
        | inl e ↦ unfold append in rw e kept
        | inr e ↦
            let grown = append-Increasing es position value sorted e in
            unfold append in
            rw e (
              maybe_sweep-Sorted now _ (
                put-Sorted key (log (es ++ (position, value) ∷ []), expires_at now ttl) m'.table
                  grown kept))
      ]

  missing-Sorted :
      (if_exists : Bool) (key : String) (now : Time) (m : Memory V)
      → Sorted m.table
      → Sorted (missing if_exists key now m).1.table
  missing-Sorted false key now m h = unfold missing in h
  missing-Sorted true key now m h = unfold missing in live-Sorted key now m h

  append_and_set-Sorted :
      (log_key : String) (position : ℕ) (entry : V) (key : String) (value : Stored V)
      (ttl : Option ℕ) (if_exists : Bool) (t1 t2 t3 : Time) (m : Memory V)
      → Positioned value
      → Sorted m.table
      → Sorted (append_and_set log_key position entry key value ttl if_exists t1 t2 t3 m).1.table
  append_and_set-Sorted log_key position entry key value ttl if_exists t1 t2 t3 m p h =
      let m1 = (missing if_exists key t1 m).1 in
      let h1 = missing-Sorted if_exists key t1 m h in
      let h2 = append-Sorted log_key position entry ttl t2 m1 h1 in
      let m2 = (append log_key position entry ttl t2 m1).1 in
      elim (Bool-cases (missing if_exists key t1 m).0) [
        | inl e ↦ unfold append_and_set in rw e h1
        | inr e ↦ elim (Bool-cases (append log_key position entry ttl t2 m1).0) [
          | inl f ↦ unfold append_and_set in rw (e, f) (set-Sorted key value ttl t3 m2 p h2)
          | inr f ↦ unfold append_and_set in rw (e, f) h2
        ]
      ]

  renew-Sorted :
      (key : String) (ttl : ℕ) (now : Time) (c : Option (Cell V)) (m : Memory V)
      → Fits c
      → Sorted m.table
      → Sorted (renew key ttl now c m).table
  unfolding renew Fits
  renew-Sorted key ttl now none m f h = h
  renew-Sorted key ttl now (some (v, e)) m f h = put-Sorted key (v, some (now + ttl)) m.table f h

  -- a value that a call stores as it is holds a log only if its positions increase
  abbrev pub Brings : Call V → Type 0
  Brings (Call.set_call _ v _ _) = Positioned v
  Brings (Call.append_and_set_call _ _ _ _ v _ _ _ _ _) = Positioned v
  Brings (Call.get_call _ _) = Unit
  Brings _ = Unit

  -- Every call keeps each log of the store at strictly increasing positions.
  pub call-Sorted :
      (c : Call V) (m : Memory V) → Brings c → Sorted m.table → Sorted (call c m).1.table
  unfolding call
  call-Sorted (Call.get_call key now) m b h = unfold get in live-Sorted key now m h
  call-Sorted (Call.set_call key value ttl now) m b h = set-Sorted key value ttl now m b h
  call-Sorted (Call.delete_call key now) m b h = unfold delete in remove-Sorted key m.table h
  call-Sorted (Call.append_call key position value ttl now) m b h =
      append-Sorted key position value ttl now m h
  call-Sorted (Call.append_and_set_call log_key position entry key value ttl if_exists t1 t2 t3) m b
        h =
      append_and_set-Sorted log_key position entry key value ttl if_exists t1 t2 t3 m b h
  call-Sorted (Call.read_range_call key start end now) m b h =
      unfold read_range log_of in live-Sorted key now m h
  call-Sorted (Call.expire_call key ttl now) m b h =
      unfold expire in
      renew-Sorted key ttl now (live key now m).0 (live key now m).1 (live-Fits key now m h)
        (live-Sorted key now m h)
