-- ===== src/Deploy/Requests/Commits.antt =====
-- Cancelled requests and commits.
use modelship.Prelude.{
  ℕ, String, ◌≡◌, refl, ap, sym, ◌∙◌, ◌⊎◌, inl, inr, Bool, true, false, Option, none, some, List,
  [], ◌∷◌, eq_iff, str_eq, str_eq_self, Bool-cases, if◌then◌else◌,
}
use mathlib.Core.Path.{subst}
use modelship.Dict.{Dict, get, get-put}
use modelship.Json.{Json}
use modelship.Deploy.Requests.{
  Phase, Entry, Coordinator, Result, mem, queue_of, is_done, set_entry, requested, submit, collect,
  rolled_back, drop_queued, cancel_running, cancel_in, cancel_entry, cancel, seen_by, is_cancelled,
  is_request, running_here, in_phase, rolling_back, is_rolling, unless_rolling, running_entry,
  route, switch_entry, switch, refused, writes, begin_entry, begin_commit, end_commit, differs,
  reset_routing, is_none, ensure_routing, start_next, next_of, drain, past_commit, died_in,
  worker_died, finish_entry, drained,
}
use modelship.Deploy.Requests.Phase.{queued, applying, switching, committing, retiring, rolling}
use modelship.Deploy.Requests.Steps.{Step, Steps, goes_on}

-- the request of an id is there and has been cancelled
abbrev Flagged : String → Coordinator → Type 0
Flagged id s = (e : Entry) × (get id s.entries ≡ some e) × (e.is_cancelled ≡ true)

-- nothing, or the object of an id
abbrev From : String → Option Entry → Coordinator → Type 0
From id o s = (o ≡ none) ⊎ (get id s.entries ≡ o)

some_inj : (a b : Entry) → some a ≡ some b → a ≡ b
some_inj a b h = cc h

written :
    (b : Bool) (s : Coordinator) {s' : Coordinator}
    → (if b then refused else writes s) ≡ writes s'
    → s ≡ s'
written true s p = cc p
written false s p = cc p

module _ (id : String) where
  -- a write to an object that leaves its flag, or sets it
  write-Flagged :
      (j : String) (e e' : Entry) (s : Coordinator)
      → get j s.entries ≡ some e
      → (e'.is_cancelled ≡ e.is_cancelled) ⊎ (e'.is_cancelled ≡ true)
      → Flagged id s
      → Flagged id (set_entry j e' s)
  unfolding set_entry
  write-Flagged j e e' s g k (f, h, c) = elim (Bool-cases (str_eq j id)) [
    | inl q ↦ (e', rw (get-put, q) refl, flag (same q) k)
    | inr q ↦ (f, rw (get-put, q) h, c)
  ]
    where
      same : str_eq j id ≡ true → e ≡ f
      same q = some_inj e f (sym g ∙ ap (λ i. get i s.entries) ((eq_iff j id).0 q) ∙ h)

      flag :
          e ≡ f
          → (e'.is_cancelled ≡ e.is_cancelled) ⊎ (e'.is_cancelled ≡ true)
          → e'.is_cancelled ≡ true
      flag p (inl l) = l ∙ ap (λ x. x.is_cancelled) p ∙ c
      flag p (inr r) = r

  in_phase-Flagged :
      (phase : Phase) (j : String) (o : Option Entry) (s : Coordinator)
      → From j o s
      → Flagged id s
      → Flagged id (in_phase phase j o s)
  unfolding in_phase
  in_phase-Flagged phase j none s f h = h
  in_phase-Flagged phase j (some e) s (inl p) h = absurd (cc p)
  in_phase-Flagged phase j (some e) s (inr g) h = write-Flagged j e _ s g (inl refl) h

  running_here-From : (j gateway : String) (s : Coordinator) → From j (running_here j gateway s) s
  unfolding running_here
  running_here-From j gateway s = elim (Bool-cases (is_request j (get gateway s.running))) [
    | inl e ↦ rw e (inr refl)
    | inr e ↦ rw e (inl refl)
  ]

  unless_rolling-From :
      (j : String) (o : Option Entry) (s : Coordinator) → From j o s → From j (unless_rolling o) s
  unless_rolling-From j none s f = inl refl
  unless_rolling-From j (some e) s f = elim (Bool-cases (is_rolling e.state)) [
    | inl r ↦ rw r (inl refl)
    | inr r ↦ rw r f
  ]

  requested-From : (j : String) (s : Coordinator) → From j (requested j s) s
  unfolding requested
  requested-From j s = elim (Bool-cases (mem j s.requests)) [
    | inl e ↦ rw e (inr refl)
    | inr e ↦ rw e (inl refl)
  ]

  submit-Flagged :
      (j gateway : String) (s : Coordinator)
      → get j s.entries ≡ none
      → Flagged id s
      → Flagged id (submit j gateway s).1
  unfolding submit set_entry
  submit-Flagged j gateway s n (f, h, c) = elim (Bool-cases (str_eq j id)) [
    | inl q ↦ absurd (absent (sym n ∙ ap (λ i. get i s.entries) ((eq_iff j id).0 q) ∙ h))
    | inr q ↦ (f, rw (get-put, q) h, c)
  ]
    where
      absent : none ≡ some f → ⊥
      absent p = cc p

  cancel_in-Flagged :
      (phase : Phase) (j : String) (e : Entry) (s : Coordinator)
      → get j s.entries ≡ some e
      → Flagged id s
      → Flagged id (cancel_in phase j e s).1
  unfolding cancel_in cancel_running drop_queued set_entry
  cancel_in-Flagged queued j e s g h = write-Flagged j e _ s g (inl refl) h
  cancel_in-Flagged committing j e s g h = h
  cancel_in-Flagged retiring j e s g h = h
  cancel_in-Flagged rolling j e s g h = elim (Bool-cases e.is_cancelled) [
    | inl c ↦ rw c h
    | inr c ↦ rw c h
  ]
  cancel_in-Flagged applying j e s g h = write-Flagged j e _ s g (inr refl) h
  cancel_in-Flagged switching j e s g h = write-Flagged j e _ s g (inr refl) h

  cancel_entry-Flagged :
      (o : Option Entry) (j : String) (s : Coordinator)
      → From j o s
      → Flagged id s
      → Flagged id (cancel_entry o j s).1
  unfolding cancel_entry
  cancel_entry-Flagged none j s f h = h
  cancel_entry-Flagged (some e) j s (inl p) h = absurd (cc p)
  cancel_entry-Flagged (some e) j s (inr g) h = elim (Bool-cases (is_done e.done)) [
    | inl d ↦ rw d h
    | inr d ↦ rw d (cancel_in-Flagged e.state j e s g h)
  ]

  seen_by-Flagged :
      (o : Option Entry) (j : String) (s : Coordinator)
      → From j o s
      → Flagged id s
      → Flagged id (seen_by o j s).1
  unfolding seen_by
  seen_by-Flagged none j s f h = h
  seen_by-Flagged (some e) j s (inl p) h = absurd (cc p)
  seen_by-Flagged (some e) j s (inr g) h = elim (Bool-cases e.is_cancelled) [
    | inl c ↦
        rw c (
          write-Flagged j e (record e { is_cancelled = true; cancel_seen = true }) s g (inr refl) h)
    | inr c ↦ rw c h
  ]

  begin_entry-Flagged :
      (o : Option Entry) (j : String) (s s' : Coordinator)
      → From j o s
      → begin_entry o j s ≡ writes s'
      → Flagged id s
      → Flagged id s'
  unfolding begin_entry
  begin_entry-Flagged none j s s' f w h = absurd (cc w)
  begin_entry-Flagged (some e) j s s' (inl p) w h = absurd (cc p)
  begin_entry-Flagged (some e) j s s' (inr g) w h =
      subst (Flagged id) (written e.is_cancelled _ w)
        (write-Flagged j e (record e { state = committing }) s g (inl refl) h)

  start_next-Flagged :
      (o : Option Entry) (j gateway : String) (rest : List String) (s : Coordinator)
      → get j s.entries ≡ o
      → Flagged id s
      → Flagged id (start_next o j gateway rest s)
  unfolding start_next set_entry
  start_next-Flagged none j gateway rest s g h = h
  start_next-Flagged (some e) j gateway rest s g h = write-Flagged j e _ s g (inl refl) h

  next_of-Flagged :
      (q : List String) (gateway : String) (s : Coordinator)
      → Flagged id s
      → Flagged id (next_of q gateway s)
  unfolding next_of
  next_of-Flagged [] gateway s h = h
  next_of-Flagged (j ∷ rest) gateway s h = start_next-Flagged _ j gateway rest s refl h

  died_in-Flagged :
      (o : Option Entry) (j : String) (s : Coordinator)
      → get j s.entries ≡ o
      → Flagged id s
      → Flagged id (died_in o j s)
  unfolding died_in
  died_in-Flagged none j s g h = h
  died_in-Flagged (some e) j s g h = elim (Bool-cases (past_commit e.state)) [
    | inl c ↦ rw c h
    | inr c ↦ rw c (in_phase-Flagged rolling j (some e) s (inr g) h)
  ]

  finish_entry-Flagged :
      (outcome : Result) (o : Option Entry) (j gateway : String) (s : Coordinator)
      → get j s.entries ≡ o
      → Flagged id s
      → Flagged id (finish_entry outcome o j gateway s)
  unfolding finish_entry set_entry
  finish_entry-Flagged outcome none j gateway s g h = h
  finish_entry-Flagged outcome (some e) j gateway s g h = write-Flagged j e _ s g (inl refl) h

  module _ (apps : List Json → Dict String)
      (same : Option (List Json) → Option (List Json) → Bool) where
    switch_entry-Flagged :
        (o : Option Entry) (j gateway : String) (models : List Json) (n : ℕ) (s s' : Coordinator)
        → From j o s
        → switch_entry apps o j gateway models s ≡ some (n, s')
        → Flagged id s
        → Flagged id s'
    unfolding switch_entry route
    switch_entry-Flagged none j gateway models n s s' f w h = absurd (cc w)
    switch_entry-Flagged (some e) j gateway models n s s' (inl p) w h = absurd (cc p)
    switch_entry-Flagged (some e) j gateway models n s s' (inr g) w h =
        subst (Flagged id) (second_eq w) (write-Flagged j e _ s g (inl refl) h)
      where
        second_eq : {a b : ℕ × Coordinator} → some a ≡ some b → a.1 ≡ b.1
        second_eq p = cc p

    reset_routing-Flagged :
        (gateway : String) (models : Option (List Json)) (s : Coordinator)
        → Flagged id s
        → Flagged id (reset_routing apps same gateway models s)
    unfolding reset_routing route
    reset_routing-Flagged gateway models s h =
        elim (Bool-cases (differs same models (get gateway s.routing))) [
          | inl d ↦ rw d h
          | inr d ↦ rw d h
        ]

    ensure_routing-Flagged :
        (gateway : String) (models : Option (List Json)) (s : Coordinator)
        → Flagged id s
        → Flagged id (ensure_routing apps gateway models s)
    unfolding ensure_routing route
    ensure_routing-Flagged gateway models s h =
        elim (Bool-cases (is_none (get gateway s.routing))) [ inl d ↦ rw d h | inr d ↦ rw d h ]

    moved-Flagged : (s s' : Coordinator) → Step apps same s s' → Flagged id s → Flagged id s'
    unfolding collect cancel is_cancelled rolling_back switch running_entry begin_commit end_commit
        drain worker_died drained
    moved-Flagged s _ (Step.submits j gateway n) h = submit-Flagged j gateway s n h
    moved-Flagged s _ (Step.collects j) h = h
    moved-Flagged s _ (Step.cancels j) h = cancel_entry-Flagged _ j s (requested-From j s) h
    moved-Flagged s _ (Step.asks j) h = seen_by-Flagged _ j s (requested-From j s) h
    moved-Flagged s _ (Step.rolls_back j gateway) h =
        in_phase-Flagged rolling j _ s (running_here-From j gateway s) h
    moved-Flagged s s' (Step.switches j gateway models n _ w) h =
        switch_entry-Flagged _ j gateway models n s s'
          (unless_rolling-From j _ s (running_here-From j gateway s)) w h
    moved-Flagged s s' (Step.begins j gateway _ w) h =
        begin_entry-Flagged _ j s s' (unless_rolling-From j _ s (running_here-From j gateway s)) w h
    moved-Flagged s _ (Step.ends j gateway r) h = in_phase-Flagged retiring j _ s (inr refl) h
    moved-Flagged s _ (Step.resets gateway models) h = reset_routing-Flagged gateway models s h
    moved-Flagged s _ (Step.ensures gateway models) h = ensure_routing-Flagged gateway models s h
    moved-Flagged s _ (Step.drains gateway r) h =
        next_of-Flagged (queue_of (get gateway s.queues)) gateway s h
    moved-Flagged s _ (Step.dies j gateway r) h = died_in-Flagged _ j s refl h
    moved-Flagged s _ (Step.finishes outcome j gateway r) h =
        finish_entry-Flagged outcome _ j gateway s refl h

    reached-Flagged : (s s' : Coordinator) → Steps apps same s s' → Flagged id s → Flagged id s'
    reached-Flagged s _ Steps.stop h = h
    reached-Flagged s s'' (Steps.then s' _ before last) h =
        moved-Flagged s' s'' last (reached-Flagged s s' before h)

  cancel_in-rolled_back :
      (phase : Phase) (e : Entry) (s : Coordinator)
      → get id s.entries ≡ some e
      → (cancel_in phase id e s).0 ≡ rolled_back
      → Flagged id (cancel_in phase id e s).1
  unfolding cancel_in cancel_running set_entry
  cancel_in-rolled_back queued e s g a = absurd (cc a)
  cancel_in-rolled_back committing e s g a = absurd (cc a)
  cancel_in-rolled_back retiring e s g a = absurd (cc a)
  cancel_in-rolled_back rolling e s g a = elim (Bool-cases e.is_cancelled) [
    | inl c ↦ rw c (e, g, c)
    | inr c ↦ absurd (cc (rw c at a))
  ]
  cancel_in-rolled_back applying e s g a =
      (record e { is_cancelled = true }, rw (get-put, str_eq_self) refl, refl)
  cancel_in-rolled_back switching e s g a =
      (record e { is_cancelled = true }, rw (get-put, str_eq_self) refl, refl)

  cancel_entry-rolled_back :
      (o : Option Entry) (s : Coordinator)
      → From id o s
      → (cancel_entry o id s).0 ≡ rolled_back
      → Flagged id (cancel_entry o id s).1
  unfolding cancel_entry
  cancel_entry-rolled_back none s f a = absurd (cc a)
  cancel_entry-rolled_back (some e) s (inl p) a = absurd (cc p)
  cancel_entry-rolled_back (some e) s (inr g) a = elim (Bool-cases (is_done e.done)) [
    | inl d ↦ absurd (cc (rw d at a))
    | inr d ↦ rw d (cancel_in-rolled_back e.state e s g (rw d at a))
  ]

  begin_entry-Flagged_stops :
      (o : Option Entry) (s : Coordinator)
      → From id o s
      → Flagged id s
      → goes_on (begin_entry o id s) ≡ false
  unfolding begin_entry
  begin_entry-Flagged_stops none s f h = refl
  begin_entry-Flagged_stops (some e) s (inl p) h = absurd (cc p)
  begin_entry-Flagged_stops (some e) s (inr g) (f, k, c) =
      rw (ap (λ x. x.is_cancelled) (some_inj e f (sym g ∙ k)) ∙ c) refl

  -- Once a running request's cancel has been accepted, no commit of it goes on to write, whatever the
  -- coordinator does in between.
  pub cancel-goes_on :
      (apps : List Json → Dict String) (same : Option (List Json) → Option (List Json) → Bool)
      (gateway : String) (s s' : Coordinator)
      → (cancel id s).0 ≡ rolled_back
      → Steps apps same (cancel id s).1 s'
      → goes_on (begin_commit id gateway s') ≡ false
  unfolding cancel begin_commit running_entry
  cancel-goes_on apps same gateway s s' a steps =
      begin_entry-Flagged_stops _ s' (unless_rolling-From id _ s' (running_here-From id gateway s'))
        (reached-Flagged apps same _ s' steps
          (cancel_entry-rolled_back _ s (requested-From id s) a))
