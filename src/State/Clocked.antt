-- ===== src/State/Clocked.antt =====
-- The memory store with the clock that it reads, as a `StateStore`.
pub mod Lasting
pub mod Laws
pub mod Instance
use modelship.Prelude.{
  ℕ, suc, ◌+◌, ◌≤◌, ◌<◌, String, ◌≡◌, ◌∙◌, sym, refl, Bool, true, false, not, Option, none, some,
  List, [], ◌∷◌, ◌++◌, arith, str_eq, if◌then◌else◌, Bool-cases, inl, inr,
}
use modelship.State.Memory
use modelship.State.Memory.{Time, Stored, log, Memory, expired, expires_at, taken, values_in}
use modelship.State.Memory.View.{view}
use native.Mathlib.Nat.{le_trans, le_refl}
use modelship.Dict.{Distinct}
use modelship.State.Memory.Spec.{
  Call, Spec, call, spec_call, Ordered, end_of, write, until, spec_append, spec_append_and_set,
  spec_expire, entries_in, refused,
}
use modelship.State.Memory.Refinement.{Refines, call-Refines}
use modelship.State.Store.{StateStore, Action, Content, accepts, written}

-- `clock n` is the n-th reading of the clock, and `tick` the readings so far
pub record Clocked {ℓ} (V : Type ℓ) : Type ℓ where
  pub memory : Memory V
  pub clock : ℕ → Time
  pub tick : ℕ

module _ {ℓ} {V : Type ℓ} where
  abbrev pub now : Clocked V → Time
  now w = w.clock w.tick

  abbrev pub content : Clocked V → Content V
  content w k = view (w.clock w.tick) k w.memory

  abbrev pub advance : ℕ → Memory V → Clocked V → Clocked V
  advance r m w = record { memory = m; clock = w.clock; tick = w.tick + r }

module _ {V : Type 0} where
  unfoldable pub get : String → Action (Clocked V) (Option (Stored V))
  get key w = let (r, m) = Memory.get key (now w) w.memory in (r, advance 1 m w)

  unfoldable pub set : String → Stored V → Option ℕ → Action (Clocked V) (Unit {0})
  set key value ttl w = (tt, advance 1 (Memory.set key value ttl (now w) w.memory) w)

  unfoldable pub delete : String → Action (Clocked V) (Unit {0})
  delete key w = (tt, advance 0 (Memory.delete key w.memory) w)

  unfoldable pub append : String → ℕ → V → Option ℕ → Action (Clocked V) Bool
  append key position value ttl w =
      let (r, m) = Memory.append key position value ttl (now w) w.memory in (r, advance 1 m w)

  unfoldable pub append_and_set :
      String → ℕ → V → String → Stored V → Option ℕ → Bool → Action (Clocked V) Bool
  append_and_set log_key position entry key value ttl if_exists w =
      let t1 = w.clock w.tick in
      let t2 = w.clock (w.tick + 1) in
      let t3 = w.clock (w.tick + 2) in
      let (r, m) =
        Memory.append_and_set log_key position entry key value ttl if_exists t1 t2 t3 w.memory in
      (r, advance 3 m w)

  unfoldable pub read_range : String → ℕ → Option ℕ → Action (Clocked V) (List V)
  read_range key start end w =
      let (r, m) = Memory.read_range key start end (now w) w.memory in (r, advance 1 m w)

  unfoldable pub expire : String → ℕ → Action (Clocked V) (Unit {0})
  expire key ttl w = (tt, advance 1 (Memory.expire key ttl (now w) w.memory) w)
