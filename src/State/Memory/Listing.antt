-- ===== src/State/Memory/Listing.antt =====
-- modelship/state/memory.py: `MemoryStoreActor.list`.
use modelship.Prelude.{
  ◌≡◌, refl, ap, ◌∙◌, String, Bool, true, false, ◌&&◌, not, Option, none, some, List, [], ◌∷◌,
  arith, eq_iff, if◌then◌else◌,
}
use modelship.Dict.{Dict, Distinct, get as dict_get}
use modelship.Text.{parts, split}
use modelship.Text.Prefixes.{begins}
use modelship.State.Prefix.{normalize_prefix, covers, covers-begins}
use modelship.State.Memory.{Time, Stored, Cell, Memory, expired}
use modelship.State.Memory.View.{view, among, seen}

module _ {ℓ} {V : Type ℓ} where
  pub list_table : String → Time → Dict (Cell V) → List String
  list_table prefix now [] = []
  list_table prefix now ((k, (_, e)) ∷ d) =
      let rest = list_table prefix now d in
      if covers prefix k && not (expired e now) then k ∷ rest else rest

  unfoldable pub list : String → Time → Memory V → List String
  unfolding list_table normalize_prefix
  list prefix now m = list_table (normalize_prefix prefix) now m.table

  abbrev pub held : Option (Stored V) → Bool
  held none = false
  held (some v) = true

  list_table-seen :
      (prefix : String) (now : Time) (k : String) (d : Dict (Cell V))
      → Distinct d
      → among k (list_table prefix now d) ≡ (held (seen now (dict_get k d)) && covers prefix k)
  unfolding among list_table dict_get
  list_table-seen prefix now k [] h = refl
  list_table-seen prefix now k ((j, (v, e)) ∷ d) h =
      ground (arith, eq_iff j k, list_table-seen prefix now k d h.1, h.0)

  -- A key is listed under a prefix exactly when a `get` would find it and its segments, cut at each
  -- slash, begin with the segments of the prefix that are not empty.
  pub among-list :
      (prefix : String) (now : Time) (k : String) (m : Memory V)
      → Distinct m.table
      → among k (list prefix now m) ≡ (held (view now k m) && begins (parts prefix) (split k))
  unfolding list
  among-list prefix now k m h =
      list_table-seen (normalize_prefix prefix) now k m.table h
      ∙ ap (λ b. held (view now k m) && b) (covers-begins prefix k)
