-- ===== src/Deploy/Diff/Settled.antt =====
-- The diff of a request that sends no models, where Serve holds what is committed.
use modelship.Prelude.{
  ℕ, ◌≡◌, refl, sym, ap, ◌∙◌, String, Bool, true, false, Option, none, some, List, [], ◌∷◌, All,
  str_eq, str_eq_self, eq_iff, Bool-cases, inl, inr,
}
use mathlib.Core.Path.{subst}
use modelship.Dict.{Dict, get, put, Distinct, put-Distinct}
use modelship.Json.{Json}
use modelship.Deploy.Ledger.Merge.{DeployMode}
use modelship.Deploy.Diff.{
  Scaling, Config, ServeApp, Note, delete_leftovers, not_in_request, keeps, Diff, bare, not_live,
  acted, scaled_so, decide_held, decide_from, decide, decide_all,
}
use modelship.Deploy.Diff.Build.{
  sorted, with_action, by_name, configs, note_names, empty_diff, leave_out, finish, wanted_of,
  leftovers_of, others_of, build_from, build_diff,
}

-- Nothing is deployed, rescaled, retired or committed.
abbrev pub Idle : Diff → Type 0
Idle d =
    (d.deploys ≡ [])
    × (d.scale_downs ≡ [])
    × (d.scale_ups ≡ [])
    × (d.retired ≡ [])
    × (d.commits ≡ false)

note_names-Idle :
    (note : List String → Note) (step : ℕ) (xs : List String) (d : Diff)
    → Idle d
    → Idle (note_names note step xs d)
note_names-Idle note step [] d h = h
note_names-Idle note step (x ∷ xs) d h = h

module _ (same : Scaling → Scaling → Bool) (apps : Dict ServeApp) where
  -- Serve holds the model's app, live and with the replica-count fields that it wants.
  abbrev pub Held : Config → Type 0
  Held c =
      (app : ServeApp) × (get c.app apps ≡ some app)
      × (not_live app.status ≡ false)
      × (scaled_so same app.scaling c.want ≡ true)

  -- an entry under its own name, of a model that Serve holds
  abbrev Right : String × Config → Type 0
  Right e = (e.0 ≡ e.1.name) × Held e.1

  put-Right : (c : Config) (d : Dict Config) → Held c → All Right d → All Right (put c.name c d)
  unfolding put
  put-Right c [] h r = ((refl, h), tt)
  put-Right c ((k, e) ∷ d) h r = elim (Bool-cases (str_eq k c.name)) [
    | inl q ↦ rw q (((eq_iff k c.name).0 q, h), r.1)
    | inr q ↦ rw q (r.0, put-Right c d h r.1)
  ]

  by_name-Right :
      (cs : List Config) (d : Dict Config)
      → All Held cs
      → All Right d × Distinct d
      → All Right (by_name d cs) × Distinct (by_name d cs)
  unfolding by_name
  by_name-Right [] d h r = r
  by_name-Right (c ∷ cs) d h r =
      by_name-Right cs (put c.name c d) h.1 (put-Right c d h.0 r.0, put-Distinct c.name c d r.1)

  -- a committed model that is its own before, and that Serve holds
  abbrev Settled : Dict Config → Config → Type 0
  Settled current c = (get c.name current ≡ some c) × Held c

  skipped :
      (current : Dict Config) (k : String) (e : Config) (cs : List Config)
      → get k current ≡ none
      → All (Settled current) cs
      → All (Settled ((k, e) ∷ current)) cs
  unfolding get
  skipped current k e [] n h = tt
  skipped current k e (c ∷ cs) n h = elim (Bool-cases (str_eq k c.name)) [
    | inl q ↦ absurd (clash q)
    | inr q ↦ ((rw q h.0.0, h.0.1), skipped current k e cs n h.1)
  ]
    where
      clash : str_eq k c.name ≡ true → ⊥
      clash q = cc (sym n ∙ ap (λ j. get j current) ((eq_iff k c.name).0 q) ∙ h.0.0)

  Right-Settled :
      (current : Dict Config)
      → All Right current
      → Distinct current
      → All (Settled current) (configs current)
  unfolding get
  Right-Settled [] r u = tt
  Right-Settled ((k, c) ∷ current) r u = (
    (rw ((eq_iff k c.name).1 r.0.0) refl, r.0.1),
    skipped current k c (configs current) u.0 (Right-Settled current r.1 u.1),
  )

  decide-keep :
      (stop_start : Bool) (current : Dict Config) (c : Config) (d : Diff)
      → Settled current c
      → decide same stop_start apps current c d ≡ acted c.name "keep" d
  unfolding decide decide_from decide_held
  decide-keep stop_start current c d (b, (app, g, l, s)) = rw (b, str_eq_self, g, l, s) refl

  decide_all-Idle :
      (stop_start : Bool) (current : Dict Config) (cs : List Config) (d : Diff)
      → All (Settled current) cs
      → Idle d
      → Idle (decide_all same stop_start apps current cs d)
  unfolding decide_all acted
  decide_all-Idle stop_start current [] d h i = i
  decide_all-Idle stop_start current (c ∷ cs) d h i =
      decide_all-Idle stop_start current cs _ h.1
        (subst Idle (sym (decide-keep stop_start current c d h.0)) i)

finish-Idle :
    (stop_start : Bool) (models : Option (List Json)) (current : Dict Config) (others : List String)
    (d : Diff)
    → Idle d
    → Idle
        (finish (record { mode = bare; models = models; stop_start = stop_start }) current others d)
unfolding finish leave_out
finish-Idle stop_start models current others d h =
    sort_retired (note_names keeps 0 (sorted (with_action "keep" left.actions)) left)
      (note_names-Idle keeps 0 _ left (note_names-Idle not_in_request 0 others d h))
  where
    left : Diff
    left = note_names not_in_request 0 others d

    sorted_none : (xs : List String) → xs ≡ [] → sorted xs ≡ []
    sorted_none xs e = rw e (unfold sorted in refl)

    sort_retired : (d' : Diff) → Idle d' → Idle (record d' { retired = sorted d'.retired })
    sort_retired d' (a, b, c, r, e) = (a, b, c, sorted_none d'.retired r, e)

-- Where Serve holds every committed model's app, live and with the replica-count fields that the model
-- wants, the diff of a request without models deploys, rescales, retires and commits nothing.
pub build_diff-Idle :
    (same : Scaling → Scaling → Bool) (validate : List Json → Option (List Config))
    (merge : List Json → List Json → DeployMode → Option (List Json)) (of_gateway : String → Bool)
    (apps : Dict ServeApp) (stop_start : Bool) (models : Option (List Json)) (m : Json)
    (ms : List Json) (cs : List Config)
    → validate (m ∷ ms) ≡ some cs
    → All (Held same apps) cs
    → (d : Diff) × (build_diff same validate merge of_gateway
          (record { mode = bare; models = models; stop_start = stop_start })
          (some (m ∷ ms))
          apps
        ≡ some d)
      × Idle d
unfolding build_diff build_from wanted_of
build_diff-Idle same validate merge of_gateway apps stop_start models m ms cs v h =
    (result, rw v refl, finish-Idle stop_start models current others decided idle)
  where
    current : Dict Config
    current = by_name [] cs

    leftovers : List String
    leftovers = leftovers_of same validate merge of_gateway current apps

    right : All (Right same apps) current × Distinct current
    right = by_name-Right same apps cs [] h (tt, tt)

    decided : Diff
    decided =
        decide_all same stop_start apps current (configs current)
          (note_names delete_leftovers 1 leftovers (empty_diff (some (m ∷ ms)) leftovers))

    others : List String
    others = others_of same validate merge of_gateway (configs current) current

    result : Diff
    result =
        finish (record { mode = bare; models = models; stop_start = stop_start }) current others
          decided

    idle : Idle decided
    idle =
        decide_all-Idle same apps stop_start current (configs current) _
          (Right-Settled same apps current right.0 right.1)
          (note_names-Idle delete_leftovers 1 leftovers (empty_diff (some (m ∷ ms)) leftovers)
            (refl, refl, refl, refl, refl))
