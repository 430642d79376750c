-- ===== src/State/Memory/View.antt =====
-- What a reader of the memory store sees at a time, and that what the store drops was seen by nobody.
use modelship.Prelude.{
  ◌≤◌, String, ◌≡◌, refl, Bool, true, false, ◌||◌, Option, none, some, List, [], ◌∷◌, arith, eq_iff,
  str_eq, if◌then◌else◌,
}
use modelship.Dict.{Dict, Distinct, get as dict_get, remove, get-remove, remove-Distinct}
use modelship.State.Memory.{
  Time, Stored, Cell, Memory, expired, expired_keys, remove_all, maybe_sweep, live_cell, live,
}

abbrev pub seen {ℓ} : {V : Type ℓ} → Time → Option (Cell V) → Option (Stored V)
seen u none = none
seen u (some (v, e)) = if expired e u then none else some v

unfoldable pub among : String → List String → Bool
among j [] = false
among j (k ∷ ks) = str_eq k j || among j ks

module _ {ℓ} {V : Type ℓ} where
  abbrev pub view : Time → String → Memory V → Option (Stored V)
  view u j m = seen u (dict_get j m.table)

  get-remove_all :
      (j : String) (ks : List String) (d : Dict (Cell V))
      → dict_get j (remove_all ks d) ≡ (if among j ks then none else dict_get j d)
  unfolding remove_all among
  get-remove_all j [] d = refl
  get-remove_all j (k ∷ ks) d = ground (arith, get-remove_all j ks (remove k d), get-remove j k d)

  remove_all-Distinct :
      (ks : List String) (d : Dict (Cell V)) → Distinct d → Distinct (remove_all ks d)
  unfolding remove_all
  remove_all-Distinct [] d h = h
  remove_all-Distinct (k ∷ ks) d h = remove_all-Distinct ks (remove k d) (remove-Distinct k d h)

  due : Time → Option (Cell V) → Bool
  due now none = false
  due now (some (v, e)) = expired e now

  among-expired_keys :
      (now : Time) (j : String) (d : Dict (Cell V))
      → Distinct d
      → among j (expired_keys now d) ≡ due now (dict_get j d)
  unfolding among expired_keys due dict_get
  among-expired_keys now j [] h = refl
  among-expired_keys now j ((k, (v, e)) ∷ d) h =
      ground (arith, among-expired_keys now j d h.1, h.0, eq_iff k j)

  seen-due : (now u : Time) (c : Option (Cell V)) → now ≤ u → due now c ≡ true → seen u c ≡ none
  unfolding due
  seen-due now u c le h = ground arith

  -- a sweep drops nothing that a later reader would see
  pub view-maybe_sweep :
      (now u : Time) (j : String) (m : Memory V)
      → Distinct m.table
      → now ≤ u
      → view u j (maybe_sweep now m) ≡ view u j m
  unfolding maybe_sweep
  view-maybe_sweep now u j m h le = ground (
    arith,
    get-remove_all j (expired_keys now m.table) m.table,
    among-expired_keys now j m.table h,
    seen-due now u (dict_get j m.table) le,
  )

  pub maybe_sweep-Distinct :
      (now : Time) (m : Memory V) → Distinct m.table → Distinct (maybe_sweep now m).table
  unfolding maybe_sweep
  maybe_sweep-Distinct now m h =
      ground (arith, remove_all-Distinct (expired_keys now m.table) m.table h)

  -- nor does a read
  pub view-live :
      (key : String) (now u : Time) (j : String) (m : Memory V)
      → now ≤ u
      → view u j (live key now m).1 ≡ view u j m
  unfolding live live_cell
  view-live key now u j m le = ground (arith, get-remove j key m.table, eq_iff key j)

  pub live-Distinct :
      (key : String) (now : Time) (m : Memory V)
      → Distinct m.table
      → Distinct (live key now m).1.table
  unfolding live live_cell
  live-Distinct key now m h = ground (arith, remove-Distinct key m.table h)
