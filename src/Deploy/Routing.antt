-- ===== src/Deploy/Routing.antt =====
-- modelship/deploy/gateway_coordinator.py: the tables that `GatewayCoordinator` publishes and their
-- generations. `same` is Python's equality of two tables' models and expected models.
pub mod Generations
use modelship.Prelude.{
  ℕ, ◌+◌, String, Bool, true, false, ◌||◌, not, Option, none, some, List, [], ◌∷◌, ◌==◌,
  if◌then◌else◌,
}
use modelship.Dict.{Dict, get, put}

-- `_routing`, `_seqs`, `_generation` and `_first_generation`
pub record Published (Table : Type 0) : Type 0 where
  pub routing : Dict Table
  pub seqs : Dict ℕ
  pub generation : Dict ℕ
  pub first_generation : ℕ

abbrev pub or_else : ℕ → Option ℕ → ℕ
or_else n none = n
or_else n (some m) = m

abbrev pub is_seq : ℕ → Option ℕ → Bool
is_seq seq none = false
is_seq seq (some q) = q == seq

module _ {Table : Type 0} (same : Table → Table → Bool) where
  -- `self._generation.get(gateway_name, self._first_generation)`
  abbrev pub generation_of : String → Published Table → ℕ
  generation_of gateway st = or_else st.first_generation (get gateway st.generation)

  -- `_bump`, without the waiting replicas that it wakes
  unfoldable pub bump : String → Published Table → Published Table
  unfolding put
  bump gateway st = record st {
    generation = put gateway (generation_of gateway st + 1) st.generation;
  }

  -- `previous is None or (previous.models, previous.expected) != (...)`
  abbrev pub changed : Option Table → Table → Bool
  changed none table = true
  changed (some previous) table = not (same previous table)

  unfoldable pub bump_if : Bool → String → Published Table → Published Table
  bump_if true gateway st = bump gateway st
  bump_if false gateway st = st

  -- by whether the generation advances
  unfoldable pub publish_as : Bool → String → Table → ℕ → Published Table → Published Table
  unfolding put bump_if bump
  publish_as bumps gateway table seq st =
      let st' = bump_if bumps gateway (record st { routing = put gateway table st.routing }) in
      record st' { seqs = put gateway seq st'.seqs }

  -- `_publish`
  unfoldable pub publish : String → Table → ℕ → Published Table → Published Table
  publish gateway table seq st =
      publish_as (changed (get gateway st.routing) table || not (is_seq seq (get gateway st.seqs)))
        gateway table seq st

  -- what one pass after another publishes
  unfoldable pub publishes : List (String × (Table × ℕ)) → Published Table → Published Table
  publishes [] st = st
  publishes ((gateway, (table, seq)) ∷ ps) st = publishes ps (publish gateway table seq st)
