-- ===== src/Deploy/Requests/Steps.antt =====
-- The stretches of the coordinator's coroutines, one after another, in any order that the guards of the
-- code allow.
use modelship.Prelude.{ℕ, String, ◌≡◌, Bool, true, false, Option, none, some, List}
use modelship.Dict.{Dict, get}
use modelship.Json.{Json}
use modelship.Deploy.Requests.{
  Coordinator, Commit, Result, submit, collect, cancel, is_cancelled, rolling_back, switch,
  begin_commit, writes, end_commit, reset_routing, ensure_routing, drain, worker_died, drained,
}

-- whether a commit goes on to write
abbrev pub goes_on : Commit → Bool
goes_on (writes s) = true
goes_on _ = false

module _ (apps : List Json → Dict String)
    (same : Option (List Json) → Option (List Json) → Bool) where
  -- One stretch. The ids of submitted requests are new, and a gateway's next request starts when none
  -- of its requests runs.
  pub data Step (s : Coordinator) : Coordinator → Type 0 where
    submits : (id gateway : String) → get id s.entries ≡ none → Step s (submit id gateway s).1
    collects : (id : String) → Step s (collect id s)
    cancels : (id : String) → Step s (cancel id s).1
    asks : (id : String) → Step s (is_cancelled id s).1
    rolls_back : (id gateway : String) → Step s (rolling_back id gateway s)
    switches :
        (id gateway : String) (models : List Json) (n : ℕ) (s' : Coordinator)
        → switch apps id gateway models s ≡ some (n, s')
        → Step s s'
    begins :
        (id gateway : String) (s' : Coordinator) → begin_commit id gateway s ≡ writes s' → Step s s'
    ends : (id gateway : String) → get gateway s.running ≡ some id → Step s (end_commit id s)
    resets :
        (gateway : String) (models : Option (List Json))
        → Step s (reset_routing apps same gateway models s)
    ensures :
        (gateway : String) (models : Option (List Json))
        → Step s (ensure_routing apps gateway models s)
    drains : (gateway : String) → get gateway s.running ≡ none → Step s (drain gateway s)
    dies : (id gateway : String) → get gateway s.running ≡ some id → Step s (worker_died id s)
    finishes :
        (outcome : Result) (id gateway : String)
        → get gateway s.running ≡ some id
        → Step s (drained outcome id gateway s)

  -- any number of stretches
  pub data Steps (s : Coordinator) : Coordinator → Type 0 where
    stop : Steps s s
    then : (s' s'' : Coordinator) → Steps s s' → Step s' s'' → Steps s s''
