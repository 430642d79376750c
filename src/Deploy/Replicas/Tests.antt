-- ===== src/Deploy/Replicas/Tests.antt =====
-- Tables and switches at concrete inputs.
use modelship.Prelude.{String, ◌≡◌, refl, if◌then◌else◌, true, false, not, none, some, [], ◌∷◌}
use modelship.Dict.{Dict, get}
use modelship.Deploy.Tables.{
  Details, Overview, Table, can_serve, status_overview, running_replica_ids, is_empty, serves,
  compute_routing, model_of, can_serve-running, compute_routing-models,
}
use modelship.Deploy.Replicas.{Gateways, switched}
use modelship.Deploy.Replicas.Switches.{Holding, switched-Holding}

abbrev starting : Details
starting = record {
  status = "DEPLOYING";
  deployments =
      (
        "d",
        record { replica_id = "r1"; state = "STARTING" }
            ∷ record { replica_id = "r2"; state = "RUNNING" }
            ∷ [],
      )
      ∷ [];
}

can_serve-running_example :
    can_serve (status_overview starting) ≡ not (is_empty (running_replica_ids starting))
can_serve-running_example = can_serve-running starting refl refl

one_running : can_serve (status_overview starting) ≡ true
unfolding can_serve status_overview
one_running = refl

abbrev targets : Dict String
targets = ("old", "gw.a") ∷ ("new", "gw.a") ∷ ("gone", "gw.b") ∷ []

apps : Dict Overview
unfolding status_overview
apps = ("gw", status_overview starting) ∷ ("gw.a", status_overview starting) ∷ []

abbrev table : Table
table = record { models = ("gw.a", "new") ∷ []; expected = "old" ∷ "new" ∷ "gone" ∷ [] }

computed_table : compute_routing "gw" targets apps ≡ some table
unfolding compute_routing apps
computed_table = refl

compute_routing-models_example :
    get "gw.b" table.models ≡ (if serves (get "gw.b" apps) then model_of "gw.b" targets else none)
compute_routing-models_example =
    compute_routing-models "gw" "gw.b" targets apps table computed_table

abbrev gateways : Gateways
gateways = record {
  published = record {
    routing = ("gw", table) ∷ [];
    seqs = ("gw", 7) ∷ [];
    generation = ("gw", 101) ∷ [];
    first_generation = 100;
  };
  versions = ("gw", (7, targets)) ∷ [];
  watched = "gw" ∷ [];
  replicas = ("gw", "r2" ∷ []) ∷ [];
  reports = ("gw", ("r2", record { routing = 7; generation = 101; time = 50 }) ∷ []) ∷ [];
  computed = true;
}

reported : (switched 110 "gw" 7 gateways).0 ≡ true
unfolding switched
reported = refl

-- a minute later the report has expired
expired : (switched 111 "gw" 7 gateways).0 ≡ false
unfolding switched
expired = refl

switched-Holding_example :
    Holding 110 7 "r2" (("r2", record { routing = 7; generation = 101; time = 50 }) ∷ [])
unfolding get
switched-Holding_example = switched-Holding 110 7 "gw" "r2" gateways (refl, tt) refl reported
