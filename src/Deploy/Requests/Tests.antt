-- ===== src/Deploy/Requests/Tests.antt =====
-- A deploy request at concrete inputs.
use modelship.Prelude.{String, ◌≡◌, refl, Bool, true, false, Option, List, []}
use modelship.Dict.{Dict}
use modelship.Json.{Json}
use modelship.Deploy.Requests.{
  Coordinator, submit, drain, cancel, rolled_back, is_cancelled, begin_commit,
}
use modelship.Deploy.Requests.Steps.{Step, Steps, goes_on}
use modelship.Deploy.Requests.Commits.{cancel-goes_on}

abbrev apps : List Json → Dict String
apps models = []

abbrev same : Option (List Json) → Option (List Json) → Bool
same a b = true

abbrev idle : Coordinator
idle = record { entries = []; requests = []; queues = []; running = []; routing = []; seq = 41 }

-- one request, submitted and started
running : Coordinator
unfolding drain submit
running = drain "gw" (submit "r1" "gw" idle).1

cancel_accepted : (cancel "r1" running).0 ≡ rolled_back
unfolding running cancel
cancel_accepted = refl

commit_without_cancel : goes_on (begin_commit "r1" "gw" running) ≡ true
unfolding running begin_commit
commit_without_cancel = refl

-- the worker asks, and commits all the same
abbrev asked : Coordinator
asked = (is_cancelled "r1" (cancel "r1" running).1).1

cancel-goes_on_example : goes_on (begin_commit "r1" "gw" asked) ≡ false
cancel-goes_on_example =
    cancel-goes_on "r1" apps same "gw" running asked cancel_accepted
      (Steps.then (cancel "r1" running).1 asked Steps.stop (Step.asks "r1"))
