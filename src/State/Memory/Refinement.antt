-- ===== src/State/Memory/Refinement.antt =====
-- The memory store implements the store that its callers know.
use modelship.Prelude.{
  ℕ, ◌+◌, ◌≤◌, String, ◌≡◌, ◌∙◌, sym, ap, refl, Bool, true, false, Option, none, some, List, [],
  ◌∷◌, ◌++◌, arith, str_eq, if◌then◌else◌, Bool-cases, inl, inr,
}
use mathlib.Core.Option
use mathlib.Core.Path.{subst}
use modelship.Dict.{
  Distinct, get as dict_get, put, get-put, get-remove, put-Distinct, remove-Distinct,
}
use modelship.State.Memory.{
  Time, Stored, log, Cell, Memory, expires_at, maybe_sweep, live, live_cell, entries_of, log_of,
  taken, missing, values_in, init, get, set, delete, append, append_and_set, read_range, expire,
}
use modelship.State.Memory.View.{
  view, view-maybe_sweep, maybe_sweep-Distinct, view-live, live-Distinct,
}
use modelship.State.Memory.Spec.{
  Call, Reply, Spec, call, calls, spec_call, spec_calls, write, entries_in, spec_append,
  spec_append_and_set, spec_expire, refused, Ordered, end_of, AllOrdered,
}

-- from `t` on, every reader of `m` sees what `s` holds
pub record Refines {ℓ} {V : Type ℓ} (t : Time) (s : Spec V) (m : Memory V) : Type ℓ where
  pub distinct : Distinct m.table
  pub agrees : (j : String) (u : Time) → t ≤ u → view u j m ≡ s j u

module _ {ℓ} {V : Type ℓ} where
  later-Refines : (t u : Time) (s : Spec V) (m : Memory V) → t ≤ u → Refines t s m → Refines u s m
  later-Refines t u s m le r = record {
    distinct = r.distinct;
    agrees = λ j v h. r.agrees j v (omega arith);
  }

  live-Refines :
      (key : String) (now : Time) (s : Spec V) (m : Memory V)
      → Refines now s m
      → Refines now s (live key now m).1
  live-Refines key now s m r = record {
    distinct = live-Distinct key now m r.distinct;
    agrees = λ j u le. view-live key now u j m le ∙ r.agrees j u le;
  }

  sweep-Refines :
      (now : Time) (s : Spec V) (m : Memory V) → Refines now s m → Refines now s (maybe_sweep now m)
  sweep-Refines now s m r = record {
    distinct = maybe_sweep-Distinct now m r.distinct;
    agrees = λ j u le. view-maybe_sweep now u j m r.distinct le ∙ r.agrees j u le;
  }

  write-Refines :
      (key : String) (v : Stored V) (e : Option Time) (now : Time) (s : Spec V) (m : Memory V)
      → Refines now s m
      → Refines now (write key v e s) (record m { table = put key (v, e) m.table })
  write-Refines key v e now s m r = record {
    distinct = put-Distinct key (v, e) m.table r.distinct;
    agrees = λ j u le. rw get-put (ground (arith, r.agrees j u le));
  }

  delete-Refines :
      (key : String) (now : Time) (s : Spec V) (m : Memory V)
      → Refines now s m
      → Refines now (λ j u. if str_eq key j then none else s j u) (delete key m)
  unfolding delete
  delete-Refines key now s m r = record {
    distinct = remove-Distinct key m.table r.distinct;
    agrees = λ j u le. rw get-remove (ground (arith, r.agrees j u le));
  }

  live-view :
      (key : String) (now : Time) (m : Memory V)
      → Option.map (λ c. c.0) (live key now m).0 ≡ view now key m
  unfolding live live_cell
  live-view key now m = ground arith

  entries_of-seen :
      (key : String) (now : Time) (m : Memory V)
      → entries_of (live key now m).0 ≡ entries_in (view now key m)
  unfolding live live_cell entries_of
  entries_of-seen key now m = ground arith

  log-view :
      (key : String) (now : Time) (s : Spec V) (m : Memory V)
      → Refines now s m
      → (log_of key now m).0 ≡ entries_in (s key now)
  unfolding log_of
  log-view key now s m r =
      entries_of-seen key now m ∙ ap entries_in (r.agrees key now (omega arith))

  missing-view :
      (if_exists : Bool) (key : String) (now : Time) (s : Spec V) (m : Memory V)
      → Refines now s m
      → (missing if_exists key now m).0 ≡ refused if_exists (s key now)
  unfolding missing live live_cell
  missing-view false key now s m r = refl
  missing-view true key now s m r = ground (arith, r.agrees key now)

  missing-Refines :
      (if_exists : Bool) (key : String) (now : Time) (s : Spec V) (m : Memory V)
      → Refines now s m
      → Refines now s (missing if_exists key now m).1
  unfolding missing
  missing-Refines false key now s m r = r
  missing-Refines true key now s m r = live-Refines key now s m r

  -- an operation replies as the specification does, and refines it again
  record Simulates (u : Time) (a : Reply V × Spec V) (c : Reply V × Memory V) : Type ℓ where
    pub replies : c.0 ≡ a.0
    pub refines : Refines u a.1 c.1

  append-Refines :
      (key : String) (position : ℕ) (value : V) (ttl : Option ℕ) (now : Time) (s : Spec V)
      (m : Memory V)
      → Refines now s m
      → ((append key position value ttl now m).0 ≡ (spec_append key position value ttl now s).0)
        × Refines now
            (spec_append key position value ttl now s).1
            (append key position value ttl now m).1
  append-Refines key position value ttl now s m r =
      let m' = (live key now m).1 in
      elim (Bool-cases (taken (entries_in (s key now)) position)) [
        | inl e ↦ unfold append in rw (log-view key now s m r, e) (refl, live-Refines key now s m r)
        | inr e ↦
            unfold append in
            rw (log-view key now s m r, e)
              (
                refl,
                sweep-Refines now _ _ (
                    write-Refines key (log (entries_in (s key now) ++ (position, value) ∷ []))
                      (expires_at now ttl) now s m' (live-Refines key now s m r)),
              )
      ]

  set-Refines :
      (key : String) (value : Stored V) (ttl : Option ℕ) (now : Time) (s : Spec V) (m : Memory V)
      → Refines now s m
      → Refines now (write key value (expires_at now ttl) s) (set key value ttl now m)
  unfolding set
  set-Refines key value ttl now s m r =
      sweep-Refines now _ _ (write-Refines key value (expires_at now ttl) now s m r)

  expire-Refines :
      (key : String) (ttl : ℕ) (now : Time) (s : Spec V) (m : Memory V)
      → Refines now s m
      → Refines now (spec_expire (s key now) key ttl now s) (expire key ttl now m)
  expire-Refines key ttl now s m r = go (live key now m).0 refl
    where
      seen_as : s key now ≡ Option.map (λ c. c.0) (live key now m).0
      seen_as = sym (live-view key now m ∙ r.agrees key now (omega arith))

      go :
          (c : Option (Cell V))
          → (live key now m).0 ≡ c
          → Refines now (spec_expire (s key now) key ttl now s) (expire key ttl now m)
      go none e = unfold expire in rw (seen_as, e) (live-Refines key now s m r)
      go (some (v, x)) e =
          unfold expire in
          rw (seen_as, e)
            (write-Refines key v (some (now + ttl)) now s _ (live-Refines key now s m r))

  spec_append_refused :
      (key : String) (position : ℕ) (value : V) (ttl : Option ℕ) (now : Time) (s : Spec V)
      → (spec_append key position value ttl now s).0 ≡ false
      → (spec_append key position value ttl now s).1 ≡ s
  spec_append_refused key position value ttl now s h =
      elim (Bool-cases (taken (entries_in (s key now)) position)) [
        | inl e ↦ rw e
        | inr e ↦ cc (rw e at h)
      ]

  append_and_set-Refines :
      (log_key : String) (position : ℕ) (entry : V) (key : String) (value : Stored V)
      (ttl : Option ℕ) (if_exists : Bool) (t1 t2 t3 : Time) (s : Spec V) (m : Memory V)
      → t1 ≤ t2
      → t2 ≤ t3
      → Refines t1 s m
      → ((append_and_set log_key position entry key value ttl if_exists t1 t2 t3 m).0
          ≡ (spec_append_and_set log_key position entry key value ttl if_exists t1 t2 t3 s).0)
        × Refines t3
            (spec_append_and_set log_key position entry key value ttl if_exists t1 t2 t3 s).1
            (append_and_set log_key position entry key value ttl if_exists t1 t2 t3 m).1
  append_and_set-Refines log_key position entry key value ttl if_exists t1 t2 t3 s m le1 le2 r =
      let m1 = (missing if_exists key t1 m).1 in
      let m2 = (append log_key position entry ttl t2 m1).1 in
      let r1 = later-Refines t1 t2 s m1 le1 (missing-Refines if_exists key t1 s m r) in
      let (same, r2) = append-Refines log_key position entry ttl t2 s m1 r1 in
      elim (Bool-cases (refused if_exists (s key t1))) [
        | inl e ↦
            unfold append_and_set in
            rw (missing-view if_exists key t1 s m r, e) (refl, later-Refines t2 t3 s m1 le2 r1)
        | inr e ↦ elim (Bool-cases (spec_append log_key position entry ttl t2 s).0) [
          | inl f ↦
              unfold append_and_set in
              rw (missing-view if_exists key t1 s m r, e, same ∙ f, f)
                (refl, set-Refines key value ttl t3 _ _ (later-Refines t2 t3 _ _ le2 r2))
          | inr f ↦
              let kept =
                subst (λ x. Refines t2 x m2) (spec_append_refused log_key position entry ttl t2 s f)
                  r2 in
              unfold append_and_set in
              rw (missing-view if_exists key t1 s m r, e, same ∙ f, f)
                (refl, later-Refines t2 t3 s m2 le2 kept)
        ]
      ]

  pub call-Refines :
      (c : Call V) (t : Time) (s : Spec V) (m : Memory V)
      → Ordered t c
      → Refines t s m
      → ((call c m).0 ≡ (spec_call c s).0) × Refines (end_of c) (spec_call c s).1 (call c m).1
  unfolding call spec_call read_range values_in
  call-Refines (Call.get_call key now) t s m le r =
      let r' = later-Refines t now s m le r in
      (
        ap Reply.found (unfold get in live-view key now m ∙ r'.agrees key now (omega arith)),
        unfold get in live-Refines key now s m r',
      )
  call-Refines (Call.set_call key value ttl now) t s m le r =
      (refl, set-Refines key value ttl now s m (later-Refines t now s m le r))
  call-Refines (Call.delete_call key now) t s m le r =
      (refl, delete-Refines key now s m (later-Refines t now s m le r))
  call-Refines (Call.append_call key position value ttl now) t s m le r =
      let (same, r') =
        append-Refines key position value ttl now s m (later-Refines t now s m le r) in
      (ap Reply.accepted same, r')
  call-Refines (Call.append_and_set_call log_key position entry key value ttl if_exists t1 t2 t3) t
        s m le r =
      let (same, r') =
        append_and_set-Refines log_key position entry key value ttl if_exists t1 t2 t3 s m le.1 le.2
          (later-Refines t t1 s m le.0 r) in
      (ap Reply.accepted same, r')
  call-Refines (Call.read_range_call key start end now) t s m le r =
      let r' = later-Refines t now s m le r in
      (
        ap (λ (es : List (ℕ × V)). Reply.values (values_in start end es))
            (unfold read_range in log-view key now s m r'),
        unfold read_range log_of in live-Refines key now s m r',
      )
  call-Refines (Call.expire_call key ttl now) t s m le r =
      (refl, expire-Refines key ttl now s m (later-Refines t now s m le r))

  -- Whatever the calls of `get`, `set`, `delete`, `append`, `append_and_set`, `read_range` and `expire`,
  -- as long as the clock does not run backwards, the memory store replies as a store that drops and
  -- sweeps nothing, if it shows at every later time what that store shows.
  pub calls-refine :
      (cs : List (Call V)) (t : Time) (s : Spec V) (m : Memory V)
      → AllOrdered t cs
      → Refines t s m
      → (calls cs m).0 ≡ (spec_calls cs s).0
  unfolding calls spec_calls
  calls-refine [] t s m le r = refl
  calls-refine (c ∷ cs) t s m le r =
      let (same, r') = call-Refines c t s m le.0 r in
      rw (same, calls-refine cs (end_of c) (spec_call c s).1 (call c m).1 le.1 r')

  pub init-Refines : (t : Time) (interval : ℕ) → Refines t (λ j u. none) (init {V = V} t interval)
  unfolding init dict_get
  init-Refines t interval = record { distinct = tt; agrees = λ j u le. refl }
