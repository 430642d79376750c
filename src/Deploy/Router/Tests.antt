-- ===== src/Deploy/Router/Tests.antt =====
-- Choices of replicas at concrete inputs.
use mathlib.Core.List.{Perm}
use modelship.Prelude.{
  ℕ, String, ◌≡◌, refl, true, not, none, some, List, [], ◌∷◌, ◌++◌, map, All, str_eq, if◌then◌else◌,
}
use modelship.Deploy.Router.{Candidate, Settings, is_within, choose_replicas, choose_replicas-Perm}

-- the digest puts "b" before "a" before any other
abbrev score : String → String → ℕ
score key replica = if str_eq replica "b" then 9 else if str_eq replica "a" then 5 else 1

abbrev settings : Settings
settings = record { factor_over = 5; factor_under = 4; spare_requests = 2 }

abbrev idle : String → Candidate
idle id = record { replica_id = id; cached = none }

abbrev busy : Candidate
busy = record { replica_id = "b"; cached = some 9 }

-- the busy replica is the session's first, and over the limit
spilled :
    choose_replicas score settings [] (some "s1") (idle "c" ∷ busy ∷ idle "a" ∷ [])
    ≡ (idle "a" ∷ []) ∷ (idle "c" ∷ []) ∷ (busy ∷ []) ∷ []
unfolding choose_replicas
spilled = refl

choose_replicas-Perm_example :
    (within over : List Candidate) × (choose_replicas score settings []
        (some "s1")
        (idle "c" ∷ busy ∷ idle "a" ∷ [])
      ≡ map (λ r. r ∷ []) (within ++ over))
    × Perm (within ++ over) (idle "c" ∷ busy ∷ idle "a" ∷ [])
    × All (λ r. is_within settings (idle "c" ∷ busy ∷ idle "a" ∷ []) r ≡ true) within
    × All (λ r. not (is_within settings (idle "c" ∷ busy ∷ idle "a" ∷ []) r) ≡ true) over
choose_replicas-Perm_example =
    choose_replicas-Perm score settings [] "s1" (idle "c") (busy ∷ idle "a" ∷ []) refl
