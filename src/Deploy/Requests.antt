-- ===== src/Deploy/Requests.antt =====
-- modelship/deploy/deploy_coordinator.py: the deploy requests of `DeployCoordinator`, from `submit` to
-- the outcome, and the routing that they switch. A coroutine that awaits is one function for each stretch
-- between two awaits. An `_Entry` is one object that the request table, a queue and the running table
-- share: `entries` holds the objects by request id, and the tables hold ids.
pub mod Steps
pub mod Commits
mod Tests
use modelship.Prelude.{
  ℕ, suc, String, Bool, true, false, ◌&&◌, ◌||◌, not, Option, none, some, List, [], ◌∷◌, ◌++◌,
  str_eq, if◌then◌else◌, last?,
}
use modelship.Dict.{Dict, get, put, remove}
use modelship.Json.{Json}

-- `_Entry.state`
pub data Phase : Type 0 where
  queued applying switching committing retiring rolling : Phase

-- the `state` of an outcome
pub data Result : Type 0 where
  succeeded failed cancelled : Result

-- `_Entry`, with its request's gateway; `done` holds the future's result, and `has_worker` tells whether
-- `worker` is set
pub record Entry : Type 0 where
  pub gateway : String
  pub state : Phase
  pub is_cancelled : Bool
  pub cancel_seen : Bool
  pub switched : Bool
  pub has_worker : Bool
  pub done : Option Result

-- `_Routing`
pub record Routing : Type 0 where
  pub seq : ℕ
  pub models : Option (List Json)
  pub apps : Dict String

-- `DeployCoordinator`: `_requests`, `_queues`, `_running`, `_routing` and `_seq`
pub record Coordinator : Type 0 where
  pub entries : Dict Entry
  pub requests : List String
  pub queues : Dict (List String)
  pub running : Dict String
  pub routing : Dict Routing
  pub seq : ℕ

abbrev pub mem : String → List String → Bool
mem x [] = false
mem x (y ∷ ys) = str_eq y x || mem x ys

-- `xs.remove(x)`: the first of its equals
unfoldable pub remove_first : String → List String → List String
remove_first x [] = []
remove_first x (y ∷ ys) = let rest = remove_first x ys in if str_eq y x then ys else y ∷ rest

-- `[x for x in xs if x != y]`
unfoldable pub without : String → List String → List String
without x [] = []
without x (y ∷ ys) = let rest = without x ys in if str_eq y x then rest else y ∷ rest

abbrev pub queue_of : Option (List String) → List String
queue_of none = []
queue_of (some q) = q

abbrev pub or_else : Option String → Option String → Option String
or_else none other = other
or_else (some x) other = some x

abbrev pub is_done : Option Result → Bool
is_done none = false
is_done (some r) = true

-- a write to the object of an id
unfoldable pub set_entry : String → Entry → Coordinator → Coordinator
unfolding put
set_entry id e s = record s { entries = put id e s.entries }

-- `self._requests.get(request_id)`
unfoldable pub requested : String → Coordinator → Option Entry
unfolding get
requested id s = if mem id s.requests then get id s.entries else none

abbrev pub new_entry : String → Entry
new_entry gateway = record {
  gateway = gateway;
  state = queued;
  is_cancelled = false;
  cancel_seen = false;
  switched = false;
  has_worker = false;
  done = none;
}

-- what a new request waits behind
unfoldable pub behind : String → Coordinator → Option String
unfolding get
behind gateway s = or_else (last? (queue_of (get gateway s.queues))) (get gateway s.running)

-- `submit`, with the new request's id
unfoldable pub submit : String → String → Coordinator → Option String × Coordinator
unfolding behind get put set_entry
submit id gateway s = (
  behind gateway s,
  set_entry id (new_entry gateway) (record s {
    requests = id ∷ s.requests;
    queues = put gateway (queue_of (get gateway s.queues) ++ id ∷ []) s.queues;
  }),
)

-- the end of `wait`
unfoldable pub collect : String → Coordinator → Coordinator
unfolding without
collect id s = record s { requests = without id s.requests }

-- what `cancel` answers
pub data Cancelling : Type 0 where
  unknown : Cancelling
  dropped : Cancelling
  committed : Cancelling
  failing : Cancelling
  rolled_back : Cancelling

-- whether the answer's `cancelled` is true
abbrev pub accepted : Cancelling → Bool
accepted dropped = true
accepted rolled_back = true
accepted _ = false

unfoldable pub drop_queued : String → Entry → Coordinator → Coordinator
unfolding get put remove_first set_entry
drop_queued id e s =
    set_entry id (record e { done = some cancelled })
      (record s {
        queues = put e.gateway (remove_first id (queue_of (get e.gateway s.queues))) s.queues;
      })

unfoldable pub cancel_running : String → Entry → Coordinator → Cancelling × Coordinator
unfolding set_entry
cancel_running id e s = (rolled_back, set_entry id (record e { is_cancelled = true }) s)

-- `cancel` of an entry that is not finished, by its state
unfoldable pub cancel_in : Phase → String → Entry → Coordinator → Cancelling × Coordinator
unfolding drop_queued cancel_running
cancel_in queued id e s = (dropped, drop_queued id e s)
cancel_in committing id e s = (committed, s)
cancel_in retiring id e s = (committed, s)
cancel_in rolling id e s = if e.is_cancelled then (rolled_back, s) else (failing, s)
cancel_in applying id e s = cancel_running id e s
cancel_in switching id e s = cancel_running id e s

unfoldable pub cancel_entry : Option Entry → String → Coordinator → Cancelling × Coordinator
unfolding cancel_in
cancel_entry none id s = (unknown, s)
cancel_entry (some e) id s = if is_done e.done then (unknown, s) else cancel_in e.state id e s

-- `cancel`
unfoldable pub cancel : String → Coordinator → Cancelling × Coordinator
unfolding cancel_entry requested
cancel id s = cancel_entry (requested id s) id s

unfoldable pub seen_by : Option Entry → String → Coordinator → Bool × Coordinator
unfolding set_entry
seen_by none id s = (true, s)
seen_by (some e) id s =
    if e.is_cancelled then (true, set_entry id (record e { cancel_seen = true }) s) else (false, s)

-- `is_cancelled`
unfoldable pub is_cancelled : String → Coordinator → Bool × Coordinator
unfolding seen_by requested
is_cancelled id s = seen_by (requested id s) id s

-- `self._running.get(gateway_name)`, if it is the request of an id
abbrev pub is_request : String → Option String → Bool
is_request id none = false
is_request id (some other) = str_eq other id

unfoldable pub running_here : String → String → Coordinator → Option Entry
unfolding get
running_here id gateway s = if is_request id (get gateway s.running) then get id s.entries else none

unfoldable pub in_phase : Phase → String → Option Entry → Coordinator → Coordinator
unfolding set_entry
in_phase phase id none s = s
in_phase phase id (some e) s = set_entry id (record e { state = phase }) s

-- `rolling_back`
unfoldable pub rolling_back : String → String → Coordinator → Coordinator
unfolding in_phase running_here
rolling_back id gateway s = in_phase rolling id (running_here id gateway s) s

abbrev pub is_rolling : Phase → Bool
is_rolling rolling = true
is_rolling _ = false

abbrev pub unless_rolling : Option Entry → Option Entry
unless_rolling none = none
unless_rolling (some e) = if is_rolling e.state then none else some e

-- `_running_entry`, `none` where it raises
unfoldable pub running_entry : String → String → Coordinator → Option Entry
unfolding running_here
running_entry id gateway s = unless_rolling (running_here id gateway s)

abbrev pub apps_in : (List Json → Dict String) → Option (List Json) → Dict String
apps_in apps none = []
apps_in apps (some models) = apps models

-- `_routing(self._next_seq(), models, gateway_name)`, stored
unfoldable pub route :
    (List Json → Dict String) → String → Option (List Json) → Coordinator → Coordinator
unfolding put
route apps gateway models s = record s {
  seq = suc s.seq;
  routing =
      put gateway (record { seq = suc s.seq; models = models; apps = apps_in apps models })
        s.routing;
}

unfoldable pub switch_entry :
    (List Json → Dict String)
    → Option Entry
    → String
    → String
    → List Json
    → Coordinator
    → Option (ℕ × Coordinator)
unfolding set_entry route
switch_entry apps none id gateway models s = none
switch_entry apps (some e) id gateway models s =
    let s' =
      route apps gateway (some models)
        (set_entry id (record e { state = switching; switched = true }) s) in
    some (s'.seq, s')

-- `switch`, `none` where it raises
unfoldable pub switch :
    (List Json → Dict String) → String → String → List Json → Coordinator → Option (ℕ × Coordinator)
unfolding switch_entry running_entry
switch apps id gateway models s = switch_entry apps (running_entry id gateway s) id gateway models s

-- what a commit comes to before it writes: it raises, it answers `None`, or it goes on
pub data Commit : Type 0 where
  raises : Commit
  refused : Commit
  writes : Coordinator → Commit

unfoldable pub begin_entry : Option Entry → String → Coordinator → Commit
unfolding set_entry
begin_entry none id s = raises
begin_entry (some e) id s =
    if e.is_cancelled then refused else writes (set_entry id (record e { state = committing }) s)

-- `commit`, up to the lock
unfoldable pub begin_commit : String → String → Coordinator → Commit
unfolding begin_entry running_entry
begin_commit id gateway s = begin_entry (running_entry id gateway s) id s

-- `commit`, once the version is written
unfoldable pub end_commit : String → Coordinator → Coordinator
unfolding in_phase get
end_commit id s = in_phase retiring id (get id s.entries) s

-- `current is None or current.models != committed`, by what compares two lists of models
abbrev pub differs :
    (Option (List Json) → Option (List Json) → Bool) → Option (List Json) → Option Routing → Bool
differs same models none = true
differs same models (some current) = not (same current.models models)

-- `reset_routing`, with the committed models that it has read
unfoldable pub reset_routing :
    (List Json → Dict String)
    → (Option (List Json) → Option (List Json) → Bool)
    → String
    → Option (List Json)
    → Coordinator
    → Coordinator
unfolding route get
reset_routing apps same gateway models s =
    if differs same models (get gateway s.routing) then route apps gateway models s else s

abbrev pub is_none {ℓ} : {A : Type ℓ} → Option A → Bool
is_none none = true
is_none (some a) = false

-- one gateway of `routing_versions`, with its committed models
unfoldable pub ensure_routing :
    (List Json → Dict String) → String → Option (List Json) → Coordinator → Coordinator
unfolding route get
ensure_routing apps gateway models s =
    if is_none (get gateway s.routing) then route apps gateway models s else s

unfoldable pub start_next : Option Entry → String → String → List String → Coordinator → Coordinator
unfolding put set_entry
start_next none id gateway rest s = s
start_next (some e) id gateway rest s =
    set_entry id (record e { state = applying; has_worker = true })
      (record s { queues = put gateway rest s.queues; running = put gateway id s.running })

unfoldable pub next_of : List String → String → Coordinator → Coordinator
unfolding start_next get
next_of [] gateway s = s
next_of (id ∷ rest) gateway s = start_next (get id s.entries) id gateway rest s

-- a round of `_drain` up to the call of the worker, where nothing runs on the gateway
unfoldable pub drain : String → Coordinator → Coordinator
unfolding next_of get
drain gateway s = next_of (queue_of (get gateway s.queues)) gateway s

abbrev pub past_commit : Phase → Bool
past_commit committing = true
past_commit retiring = true
past_commit _ = false

unfoldable pub died_in : Option Entry → String → Coordinator → Coordinator
unfolding in_phase
died_in none id s = s
died_in (some e) id s = if past_commit e.state then s else in_phase rolling id (some e) s

-- `_apply` once its worker has died, up to the rollback
unfoldable pub worker_died : String → Coordinator → Coordinator
unfolding died_in get
worker_died id s = died_in (get id s.entries) id s

-- the outcome of a request whose worker has died, after the rollback
abbrev pub died_outcome : Entry → Result
died_outcome e =
    if is_retiring e.state then succeeded else if e.is_cancelled then cancelled else failed
  where
    is_retiring : Phase → Bool
    is_retiring retiring = true
    is_retiring _ = false

unfoldable pub finish_entry : Result → Option Entry → String → String → Coordinator → Coordinator
unfolding remove set_entry
finish_entry outcome none id gateway s = record s { running = remove gateway s.running }
finish_entry outcome (some e) id gateway s =
    set_entry id (record e { done = some outcome })
      (record s { running = remove gateway s.running })

-- the end of a round of `_drain`
unfoldable pub drained : Result → String → String → Coordinator → Coordinator
unfolding finish_entry get
drained outcome id gateway s = finish_entry outcome (get id s.entries) id gateway s

-- whether `_kill_unless_seen` kills the worker, after the grace period
unfoldable pub kills : Entry → Bool
kills e = not e.cancel_seen && (not (is_rolling e.state) && (not (is_done e.done) && e.has_worker))
