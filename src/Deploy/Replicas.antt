-- ===== src/Deploy/Replicas.antt =====
-- modelship/deploy/gateway_coordinator.py: what gateway replicas report of the tables that they hold,
-- what they are answered, and when a switch is complete. Times are those of `time.monotonic()`.
pub mod Switches
mod Tests
use modelship.Prelude.{
  ℕ, ◌+◌, ◌-◌, ◌≤◌, ◌≡◌, refl, ap, sym, ◌∙◌, ◌⊎◌, inl, inr, String, Bool, true, false, ◌&&◌, ◌||◌,
  not, Option, none, some, List, [], ◌∷◌, ltb, ◌==◌, str_eq, arith, eq_iff, if◌then◌else◌,
  Bool-cases,
}
use modelship.Dict.{Dict, get, put, keys, Distinct}
use modelship.Deploy.Tables.{
  Table, Details, Overview, status_overview, running_replica_ids, compute_routing,
}
use modelship.Deploy.Routing.{Published, publish, generation_of}

-- a replica's report: the routing seq and the generation that it holds, and the time
pub record Report : Type 0 where
  pub routing : ℕ
  pub generation : ℕ
  pub time : ℕ

-- `GatewayCoordinator`: `_routing`, `_seqs` and `_generation` as published, `_versions`, `_watched`,
-- `_replicas`, `_reports`, and whether `_computed` is set
pub record Gateways : Type 0 where
  pub published : Published Table
  pub versions : Dict (ℕ × Dict String)
  pub watched : List String
  pub replicas : Dict (List String)
  pub reports : Dict (Dict Report)
  pub computed : Bool

-- `_REPORT_TTL_S`
abbrev pub report_ttl : ℕ
report_ttl = 60

abbrev pub reports_of : Option (Dict Report) → Dict Report
reports_of none = []
reports_of (some reports) = reports

-- `now - at > _REPORT_TTL_S` does not hold
abbrev pub is_fresh : ℕ → Report → Bool
is_fresh now r = not (ltb report_ttl (now - r.time))

-- `self._versions.update(versions)`
unfoldable pub updated : Dict (ℕ × Dict String) → Dict (ℕ × Dict String) → Dict (ℕ × Dict String)
unfolding put
updated [] d = d
updated ((gateway, version) ∷ versions) d = updated versions (put gateway version d)

-- `_fetch_versions`, with what the deploy coordinator answered, or `none` without an answer
unfoldable pub fetch_versions : Option (Dict (ℕ × Dict String)) → Gateways → Gateways
unfolding updated
fetch_versions none s = s
fetch_versions (some versions) s = record s { versions = updated versions s.versions }

-- the reports that are not deleted
unfoldable pub fresh_among : ℕ → Dict Report → Dict Report
fresh_among now [] = []
fresh_among now ((replica, r) ∷ d) =
    let rest = fresh_among now d in if is_fresh now r then (replica, r) ∷ rest else rest

-- the state without the reports that are deleted
unfoldable pub kept_reports : ℕ → String → Option (Dict Report) → Gateways → Gateways
unfolding fresh_among put
kept_reports now gateway none s = s
kept_reports now gateway (some reports) s = record s {
  reports = put gateway (fresh_among now reports) s.reports;
}

-- `_fresh_reports`
unfoldable pub fresh_reports : ℕ → String → Gateways → Dict Report × Gateways
unfolding fresh_among get kept_reports
fresh_reports now gateway s = (
  fresh_among now (reports_of (get gateway s.reports)),
  kept_reports now gateway (get gateway s.reports) s,
)

-- whether a replica is among those that hold a routing seq
unfoldable pub holds : ℕ → String → Dict Report → Bool
holds routing replica [] = false
holds routing replica ((other, r) ∷ d) =
    (str_eq other replica && r.routing == routing) || holds routing replica d

-- `holding >= self._replicas.get(...)`
unfoldable pub all_hold : ℕ → List String → Dict Report → Bool
unfolding holds
all_hold routing [] reports = true
all_hold routing (replica ∷ replicas) reports =
    holds routing replica reports && all_hold routing replicas reports

abbrev pub members : Option (List String) → List String
members none = []
members (some replicas) = replicas

abbrev pub is_seq : ℕ → Option ℕ → Bool
is_seq routing none = false
is_seq routing (some seq) = seq == routing

-- `_switched`
unfoldable pub switched : ℕ → String → ℕ → Gateways → Bool × Gateways
unfolding fresh_reports all_hold get
switched now gateway routing s =
    if not s.computed || not (is_seq routing (get gateway s.published.seqs))
    then (false, s)
    else let fresh = fresh_reports now gateway s in
      (all_hold routing (members (get gateway s.replicas)) fresh.0, fresh.1)

unfoldable pub watch : String → Gateways → Gateways
watch gateway s = record s { watched = gateway ∷ s.watched }

-- the report of `wait_for_change`, if the replica gives its id and its routing seq
unfoldable pub report : ℕ → String → ℕ → Option (String × ℕ) → Gateways → Gateways
unfolding put get
report now gateway since none s = s
report now gateway since (some (replica, routing)) s = record s {
  reports =
      put gateway
        (put replica (record { routing = routing; generation = since; time = now })
          (reports_of (get gateway s.reports)))
        s.reports;
}

-- what `wait_for_change` does without waiting: it waits for the first pass, answers, or waits for the
-- gateway's next change
pub data Poll : Type 0 where
  waits_for_pass : Poll
  answers : ℕ → Poll
  waits_for_change : Poll

module _ (same : Table → Table → Bool) where
  unfoldable pub answer : String → ℕ → Gateways → Poll
  answer gateway since s =
      if not s.computed
      then waits_for_pass
      else let current = generation_of same gateway s.published in
        if current == since then waits_for_change else answers current

  -- `wait_for_change`, up to the first wait
  unfoldable pub wait_for_change : ℕ → String → ℕ → Option (String × ℕ) → Gateways → Poll × Gateways
  unfolding report watch answer
  wait_for_change now gateway since replica s =
      let s' = report now gateway since replica (watch gateway s) in (answer gateway since s', s')

  abbrev pub table_of : Option Table → Table
  table_of none = record { models = []; expected = [] }
  table_of (some t) = t

  -- `get_routing`, once the first pass is done: the table, the generation and the routing seq
  unfoldable pub get_routing : String → Gateways → (Table × ℕ × Option ℕ) × Gateways
  unfolding watch get
  get_routing gateway s = (
    (
      table_of (get gateway s.published.routing),
      generation_of same gateway s.published,
      get gateway s.published.seqs,
    ),
    watch gateway s,
  )

  abbrev pub or_no_replicas : Option Details → List String
  unfolding running_replica_ids
  or_no_replicas none = []
  or_no_replicas (some app) = running_replica_ids app

  unfoldable pub publish_table : ℕ → Dict Details → String → ℕ → Option Table → Gateways → Gateways
  unfolding publish get put running_replica_ids fresh_reports
  publish_table now apps gateway seq none s = s
  publish_table now apps gateway seq (some table) s =
      (fresh_reports now gateway (record s {
        replicas = put gateway (or_no_replicas (get gateway apps)) s.replicas;
        published = publish same gateway table seq s.published;
      })).1

  -- the overviews of the apps that Serve lists
  unfoldable pub overviews : Dict Details → Dict Overview
  unfolding status_overview
  overviews [] = []
  overviews ((name, app) ∷ apps) = (name, status_overview app) ∷ overviews apps

  unfoldable pub compute_version :
      ℕ → Dict Details → String → Option (ℕ × Dict String) → Gateways → Gateways
  unfolding publish_table compute_routing overviews
  compute_version now apps gateway none s = s
  compute_version now apps gateway (some (seq, targets)) s =
      publish_table now apps gateway seq (compute_routing gateway targets (overviews apps)) s

  -- one gateway of `_compute`, without the metrics
  unfoldable pub compute_one : ℕ → Dict Details → String → Gateways → Gateways
  unfolding compute_version get
  compute_one now apps gateway s = compute_version now apps gateway (get gateway s.versions) s

  unfoldable pub compute_all : ℕ → Dict Details → List String → Gateways → Gateways
  unfolding compute_one
  compute_all now apps [] s = s
  compute_all now apps (gateway ∷ gateways) s =
      compute_all now apps gateways (compute_one now apps gateway s)

  -- `_compute` once the versions are fetched, for the watched gateways and those with apps
  unfoldable pub compute : ℕ → Dict Details → List String → Gateways → Gateways
  unfolding compute_all
  compute now apps gateways s = record (compute_all now apps gateways s) { computed = true }
