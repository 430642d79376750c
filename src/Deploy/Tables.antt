-- ===== src/Deploy/Tables.antt =====
-- modelship/deploy/routing.py: which apps can serve, and a gateway's model table. Statuses and replica
-- states are the texts of Serve's enumerations; an app's details are what the code reads of them.
use modelship.Prelude.{
  ℕ, suc, ◌≡◌, refl, ap, sym, ◌∙◌, String, Bool, true, false, ◌&&◌, ◌||◌, not, Option, none, some,
  List, [], ◌∷◌, ◌++◌, map, ltb, str_eq, arith, eq_iff, if◌then◌else◌, Bool-cases, inl, inr,
}
use modelship.Dict.{Dict, get, put, get-put, keys}

-- a replica in Serve's details: `replica_id` and `state`
pub record Replica : Type 0 where
  pub replica_id : String
  pub state : String

-- an app in Serve's details: its status, and its deployments' replicas
pub record Details : Type 0 where
  pub status : String
  pub deployments : Dict (List Replica)

-- `ApplicationStatusOverview`: its status, and its deployments' `replica_states`
pub record Overview : Type 0 where
  pub status : String
  pub deployments : Dict (Dict ℕ)

-- `Routing`
pub record Table : Type 0 where
  pub models : Dict String
  pub expected : List String

abbrev pub running : String
running = "RUNNING"

-- `state == _RUNNING and count > 0` for some entry
unfoldable pub any_running : Dict ℕ → Bool
any_running [] = false
any_running ((state, count) ∷ d) = (str_eq state running && ltb 0 count) || any_running d

unfoldable pub any_deployment : Dict (Dict ℕ) → Bool
unfolding any_running
any_deployment [] = false
any_deployment ((name, states) ∷ d) = any_running states || any_deployment d

-- `can_serve`
unfoldable pub can_serve : Overview → Bool
unfolding any_deployment
can_serve app =
    if str_eq app.status "DELETING"
    then false
    else if str_eq app.status running
    then true
    else any_deployment app.deployments

abbrev pub or_nought : Option ℕ → ℕ
or_nought none = 0
or_nought (some n) = n

-- `Counter` of the replicas' states, after the counts that there are
unfoldable pub count_from : Dict ℕ → List Replica → Dict ℕ
unfolding get put
count_from d [] = d
count_from d (r ∷ rs) = count_from (put r.state (suc (or_nought (get r.state d))) d) rs

-- `status_overview`
unfoldable pub status_overview : Details → Overview
unfolding count_from
status_overview app = record {
  status = app.status;
  deployments = map (λ e. (e.0, count_from [] e.1)) app.deployments;
}

unfoldable pub running_in : List Replica → List String
running_in [] = []
running_in (r ∷ rs) =
    let rest = running_in rs in if str_eq r.state running then r.replica_id ∷ rest else rest

unfoldable pub running_among : Dict (List Replica) → List String
unfolding running_in
running_among [] = []
running_among ((name, rs) ∷ d) = running_in rs ++ running_among d

-- `running_replica_ids`, a set, as a list
unfoldable pub running_replica_ids : Details → List String
unfolding running_among
running_replica_ids app = running_among app.deployments

unfoldable pub serves : Option Overview → Bool
unfolding can_serve
serves none = false
serves (some app) = can_serve app

-- the comprehension over `targets`, after the entries that there are
unfoldable pub models_from : Dict Overview → Dict String → Dict String → Dict String
unfolding get put serves
models_from apps d [] = d
models_from apps d ((model, app) ∷ targets) =
    models_from apps (if serves (get app apps) then put app model d else d) targets

unfoldable pub table_if : Option Overview → Dict String → Dict Overview → Option Table
unfolding models_from
table_if none targets apps = none
table_if (some own) targets apps =
    some (record { models = models_from apps [] targets; expected = keys targets })

-- `compute_routing`
unfoldable pub compute_routing : String → Dict String → Dict Overview → Option Table
unfolding table_if get
compute_routing gateway targets apps = table_if (get gateway apps) targets apps

abbrev pub is_empty {ℓ} : {A : Type ℓ} → List A → Bool
is_empty [] = true
is_empty (x ∷ xs) = false

any_running-put :
    (k : String) (n : ℕ) (d : Dict ℕ)
    → any_running (put k (suc n) d) ≡ (str_eq k running || any_running d)
unfolding any_running put
any_running-put k n [] = ground arith
any_running-put k n ((j, m) ∷ d) =
    ground (arith, eq_iff j k, eq_iff j running, eq_iff k running, any_running-put k n d)

any_running-count_from :
    (d : Dict ℕ) (rs : List Replica)
    → any_running (count_from d rs) ≡ (any_running d || not (is_empty (running_in rs)))
unfolding count_from running_in
any_running-count_from d [] = ground arith
any_running-count_from d (r ∷ rs) =
    any_running-count_from (put r.state (suc (or_nought (get r.state d))) d) rs
    ∙ rw any_running-put (ground arith)

is_empty-append {ℓ} :
    {A : Type ℓ} (xs ys : List A) → is_empty (xs ++ ys) ≡ (is_empty xs && is_empty ys)
is_empty-append [] ys = refl
is_empty-append (x ∷ xs) ys = refl

any_running-nil : any_running [] ≡ false
unfolding any_running
any_running-nil = refl

status-overview : (app : Details) → (status_overview app).status ≡ app.status
unfolding status_overview
status-overview app = refl

any_deployment-count :
    (d : Dict (List Replica))
    → any_deployment (map (λ e. (e.0, count_from [] e.1)) d) ≡ not (is_empty (running_among d))
unfolding any_deployment running_among
any_deployment-count [] = refl
any_deployment-count ((name, rs) ∷ d) =
    rw (any_running-count_from, any_deployment-count d, is_empty-append)
      (ground (arith, any_running-nil))

any_deployment_iff :
    (app : Details)
    → any_deployment (status_overview app).deployments ≡ not (is_empty (running_replica_ids app))
unfolding status_overview running_replica_ids
any_deployment_iff app = any_deployment-count app.deployments

-- Of an app that Serve neither runs nor deletes, the table's view and its replicas' agree: it can serve
-- exactly when some replica of it is running.
pub can_serve-running :
    (app : Details)
    → str_eq app.status "DELETING" ≡ false
    → str_eq app.status running ≡ false
    → can_serve (status_overview app) ≡ not (is_empty (running_replica_ids app))
unfolding can_serve
can_serve-running app d r = rw (status-overview, d, r) (any_deployment_iff app)

abbrev pub or_before : Option String → Option String → Option String
or_before (some later) before = some later
or_before none before = before

-- the last of the models whose app this is
abbrev pub model_of : String → Dict String → Option String
model_of app [] = none
model_of app ((model, other) ∷ targets) =
    or_before (model_of app targets) (if str_eq other app then some model else none)

or_before-choice :
    (later : Option String) (c : Bool) (model : String) (before : Option String)
    → or_before later (if c then some model else before)
      ≡ or_before (or_before later (if c then some model else none)) before
or_before-choice (some later) c model before = refl
or_before-choice none true model before = refl
or_before-choice none false model before = refl

entered :
    (apps : Dict Overview) (app model other : String) (d : Dict String)
    → get app (if serves (get other apps) then put other model d else d) ≡ (
        if serves (get app apps)
        then if str_eq other app then some model else get app d
        else get app d)
entered apps app model other d = elim (Bool-cases (str_eq other app)) [
  | inl e ↦ rw ((eq_iff other app).0 e) (entered_self (serves (get app apps)))
  | inr e ↦ rw e (entered_other e (serves (get other apps)) (serves (get app apps)))
]
  where
    entered_self :
        (b : Bool)
        → get app (if b then put app model d else d)
          ≡ (if b then if str_eq app app then some model else get app d else get app d)
    entered_self true = get-put app app model d
    entered_self false = refl

    entered_other :
        str_eq other app ≡ false
        → (b c : Bool)
        → get app (if b then put other model d else d) ≡ (if c then get app d else get app d)
    entered_other e true true = get-put app other model d ∙ rw e refl
    entered_other e true false = get-put app other model d ∙ rw e refl
    entered_other e false true = refl
    entered_other e false false = refl

-- what an app's entry becomes over some targets
models_from-get :
    (apps : Dict Overview) (app : String) (targets d : Dict String)
    → get app (models_from apps d targets)
      ≡ (if serves (get app apps) then or_before (model_of app targets) (get app d) else get app d)
unfolding models_from
models_from-get apps app [] d = elim (Bool-cases (serves (get app apps))) [
  | inl e ↦ rw e refl
  | inr e ↦ rw e refl
]
models_from-get apps app ((model, other) ∷ targets) d =
    models_from-get apps app targets _
    ∙ rw entered (elim (Bool-cases (serves (get app apps))) [
      | inl e ↦ rw e (or_before-choice (model_of app targets) (str_eq other app) model (get app d))
      | inr e ↦ rw e refl
    ])

or_before-none : (later : Option String) → or_before later none ≡ later
or_before-none (some later) = refl
or_before-none none = refl

some_table : (a b : Table) → some a ≡ some b → a ≡ b
some_table a b p = cc p

table_if-models :
    (app : String) (targets : Dict String) (apps : Dict Overview) (table : Table)
    (own : Option Overview)
    → table_if own targets apps ≡ some table
    → get app table.models ≡ (if serves (get app apps) then model_of app targets else none)
unfolding table_if
table_if-models app targets apps table none p = absurd (cc p)
table_if-models app targets apps table (some own) p =
    ap {A = Table} (λ t. get app t.models) (sym (some_table _ table p))
    ∙ models_from-get apps app targets []
    ∙ rw or_before-none refl

-- The table that `compute_routing` gives has an app exactly when the app can serve and is some model's
-- target; its model is then the last such.
pub compute_routing-models :
    (gateway app : String) (targets : Dict String) (apps : Dict Overview) (table : Table)
    → compute_routing gateway targets apps ≡ some table
    → get app table.models ≡ (if serves (get app apps) then model_of app targets else none)
unfolding compute_routing
compute_routing-models gateway app targets apps table h =
    table_if-models app targets apps table (get gateway apps) h
