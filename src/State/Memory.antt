-- ===== src/State/Memory.antt =====
-- modelship/state/memory.py: `MemoryStoreActor`. Each call of `time.time()` is an argument, a number
-- of ticks; a sweep interval of 0 stands for every interval that disables sweeping. A stored value
-- is a document, or a log of positions and documents. Documents are dicts, as all that callers `set`
-- are: a list that is set would count as a log, and does not here.
pub mod View
pub mod Spec
pub mod Refinement
pub mod Listing
pub mod Logs
use mathlib.Core.Option
use modelship.Prelude.{
  ℕ, ◌+◌, ◌-◌, String, Bool, true, false, ◌&&◌, ◌||◌, not, Option, none, some, List, [], ◌∷◌, ◌++◌,
  map, ltb, leb, ◌==◌, str_eq, if◌then◌else◌, keep_if, last?,
}
use modelship.Dict.{Dict, get as dict_get, put, remove}

abbrev pub Time : Type 0
Time = ℕ

pub data Stored {ℓ} (V : Type ℓ) : Type ℓ where
  document : V → Stored V
  log : List (ℕ × V) → Stored V

-- a value and the time at which it expires, if any
abbrev pub Cell {ℓ} : Type ℓ → Type ℓ
Cell V = Stored V × Option Time

pub record Memory {ℓ} (V : Type ℓ) : Type ℓ where
  pub table : Dict (Cell V)
  pub last_sweep : Time
  pub sweep_interval : ℕ

-- `expires_at is not None and now >= expires_at`
abbrev pub expired : Option Time → Time → Bool
expired none now = false
expired (some t) now = leb t now

-- `now + ttl_seconds if ttl_seconds is not None else None`
abbrev pub expires_at : Time → Option ℕ → Option Time
expires_at now none = none
expires_at now (some ttl) = some (now + ttl)

-- `start <= position and (end is None or position <= end)`
abbrev pub in_range : ℕ → Option ℕ → ℕ → Bool
in_range start none position = leb start position
in_range start (some end) position = leb start position && leb position end

module _ {ℓ} {V : Type ℓ} where
  unfoldable pub init : Time → ℕ → Memory V
  init now interval = record { table = []; last_sweep = now; sweep_interval = interval }

  pub expired_keys : Time → Dict (Cell V) → List String
  expired_keys now [] = []
  expired_keys now ((k, (_, e)) ∷ d) =
      let rest = expired_keys now d in if expired e now then k ∷ rest else rest

  pub remove_all : List String → Dict (Cell V) → Dict (Cell V)
  remove_all [] d = d
  remove_all (k ∷ ks) d = remove_all ks (remove k d)

  pub maybe_sweep : Time → Memory V → Memory V
  unfolding expired_keys remove_all remove
  maybe_sweep now m =
      if m.sweep_interval == 0 || ltb (now - m.last_sweep) m.sweep_interval
      then m
      else record m { last_sweep = now; table = remove_all (expired_keys now m.table) m.table }

  pub live_cell : String → Time → Option (Cell V) → Memory V → Option (Cell V) × Memory V
  live_cell key now none m = (none, m)
  live_cell key now (some (v, e)) m =
      if expired e now then (none, record m { table = remove key m.table }) else (some (v, e), m)

  -- `_live`: an expired entry is dropped when it is read
  pub live : String → Time → Memory V → Option (Cell V) × Memory V
  unfolding live_cell dict_get remove
  live key now m = live_cell key now (dict_get key m.table) m

  unfoldable pub get : String → Time → Memory V → Option (Stored V) × Memory V
  unfolding live
  get key now m = let (entry, m') = live key now m in (Option.map (λ c. c.0) entry, m')

  unfoldable pub set : String → Stored V → Option ℕ → Time → Memory V → Memory V
  unfolding put maybe_sweep
  set key value ttl now m =
      maybe_sweep now (record m { table = put key (value, expires_at now ttl) m.table })

  unfoldable pub delete : String → Memory V → Memory V
  unfolding remove
  delete key m = record m { table = remove key m.table }

  pub entries_of : Option (Cell V) → List (ℕ × V)
  entries_of (some (log entries, _)) = entries
  entries_of (some (document _, _)) = []
  entries_of none = []

  -- `_log`
  pub log_of : String → Time → Memory V → List (ℕ × V) × Memory V
  unfolding live entries_of
  log_of key now m = let (entry, m') = live key now m in (entries_of entry, m')

  -- `entries and entries[-1][0] >= position`
  unfoldable pub taken : List (ℕ × V) → ℕ → Bool
  taken entries position = elim (last? entries) [ none ↦ false | some (p, _) ↦ leb position p ]

  unfoldable pub append : String → ℕ → V → Option ℕ → Time → Memory V → Bool × Memory V
  unfolding log_of taken put maybe_sweep
  append key position value ttl now m =
      let (entries, m') = log_of key now m in
      if taken entries position then (false, m') else (
        true,
        maybe_sweep now (record m' {
          table = put key (log (entries ++ (position, value) ∷ []), expires_at now ttl) m'.table;
        }),
      )

  -- whether `if_exists` refuses; the key is looked up, and an expired entry dropped, only then
  unfoldable pub missing : Bool → String → Time → Memory V → Bool × Memory V
  unfolding live
  missing false key now m = (false, m)
  missing true key now m =
      let (entry, m') = live key now m in (elim entry [ none ↦ true | some _ ↦ false ], m')

  unfoldable pub append_and_set :
      String
      → ℕ
      → V
      → String
      → Stored V
      → Option ℕ
      → Bool
      → Time
      → Time
      → Time
      → Memory V
      → Bool × Memory V
  append_and_set log_key position entry key value ttl if_exists t1 t2 t3 m =
      let (absent, m1) = missing if_exists key t1 m in
      if absent
      then (false, m1)
      else let (done, m2) = append log_key position entry ttl t2 m1 in
        if done then (true, set key value ttl t3 m2) else (false, m2)

  unfoldable pub values_in : ℕ → Option ℕ → List (ℕ × V) → List V
  values_in start end [] = []
  values_in start end ((p, v) ∷ entries) =
      let rest = values_in start end entries in if in_range start end p then v ∷ rest else rest

  unfoldable pub read_range : String → ℕ → Option ℕ → Time → Memory V → List V × Memory V
  unfolding log_of values_in
  read_range key start end now m =
      let (entries, m') = log_of key now m in (values_in start end entries, m')

  -- the entry keeps its value, and expires anew
  pub renew : String → ℕ → Time → Option (Cell V) → Memory V → Memory V
  renew key ttl now none m = m
  renew key ttl now (some (v, _)) m = record m { table = put key (v, some (now + ttl)) m.table }

  unfoldable pub expire : String → ℕ → Time → Memory V → Memory V
  unfolding renew
  expire key ttl now m = let (entry, m') = live key now m in renew key ttl now entry m'
