-- ===== src/Deploy/Replicas/Switches.antt =====
-- When a gateway counts as switched.
use modelship.Prelude.{
  ℕ, ◌+◌, ◌≤◌, ◌≡◌, refl, ap, sym, ◌∙◌, inl, inr, String, true, false, ◌&&◌, ◌||◌, not, none, some,
  List, [], ◌∷◌, str_eq, arith, eq_iff, Bool-cases,
}
use mathlib.Core.Path.{subst}
use modelship.Dict.{Dict, get, Distinct}
use modelship.Deploy.Requests.{mem}
use modelship.Deploy.Replicas.{
  Report, Gateways, reports_of, is_fresh, fresh_among, fresh_reports, holds, all_hold, members,
  is_seq, switched,
}

-- the replica's report is there, says that it holds the routing seq, and is at most a minute old
abbrev pub Holding : ℕ → ℕ → String → Dict Report → Type 0
Holding now routing replica d =
    (r : Report) × (get replica d ≡ some r) × (r.routing ≡ routing) × (now ≤ r.time + 60)

fresh-within : (now : ℕ) (r : Report) → is_fresh now r ≡ true → now ≤ r.time + 60
fresh-within now r h = ground (arith, h)

fresh_among-none :
    (now : ℕ) (replica : String) (d : Dict Report)
    → get replica d ≡ none
    → get replica (fresh_among now d) ≡ none
unfolding fresh_among get
fresh_among-none now replica [] h = refl
fresh_among-none now replica ((other, r) ∷ d) h = elim (Bool-cases (str_eq other replica)) [
  | inl e ↦ absurd (cc (rw e at h))
  | inr e ↦ elim (Bool-cases (is_fresh now r)) [
    | inl f ↦ rw (f, e) (fresh_among-none now replica d (rw e at h))
    | inr f ↦ rw f (fresh_among-none now replica d (rw e at h))
  ]
]

holds-none :
    (routing : ℕ) (replica : String) (d : Dict Report)
    → get replica d ≡ none
    → holds routing replica d ≡ false
unfolding holds get
holds-none routing replica [] h = refl
holds-none routing replica ((other, r) ∷ d) h = elim (Bool-cases (str_eq other replica)) [
  | inl e ↦ absurd (cc (rw e at h))
  | inr e ↦ rw e (holds-none routing replica d (rw e at h))
]

holds-Holding :
    (now routing : ℕ) (replica : String) (d : Dict Report)
    → Distinct d
    → holds routing replica (fresh_among now d) ≡ true
    → Holding now routing replica d
unfolding holds fresh_among get
holds-Holding now routing replica [] u h = absurd (cc h)
holds-Holding now routing replica ((other, r) ∷ d) u h = elim (Bool-cases (str_eq other replica)) [
  | inl e ↦ elim (Bool-cases (is_fresh now r)) [
    | inl f ↦ (r, rw e refl, here e f, fresh-within now r f)
    | inr f ↦ absurd (nowhere e (rw f at h))
  ]
  | inr e ↦ elim (Bool-cases (is_fresh now r)) [
    | inl f ↦ later e (holds-Holding now routing replica d u.1 (rw (f, e) at h))
    | inr f ↦ later e (holds-Holding now routing replica d u.1 (rw f at h))
  ]
]
  where
    absent : str_eq other replica ≡ true → get replica d ≡ none
    absent e = ap (λ k. get k d) (sym ((eq_iff other replica).0 e)) ∙ u.0

    nowhere : str_eq other replica ≡ true → holds routing replica (fresh_among now d) ≡ true → ⊥
    nowhere e p = cc (holds-none routing replica _ (fresh_among-none now replica d (absent e)), p)

    here : str_eq other replica ≡ true → is_fresh now r ≡ true → r.routing ≡ routing
    here e f = ground (
      arith,
      e,
      rw (f, e) at h,
      holds-none routing replica _ (fresh_among-none now replica d (absent e)),
    )

    later :
        str_eq other replica ≡ false
        → Holding now routing replica d
        → Holding now routing replica ((other, r) ∷ d)
    later e (q, g, k, l) = (q, rw e g, k, l)

all_hold-each :
    (routing : ℕ) (replica : String) (replicas : List String) (d : Dict Report)
    → mem replica replicas ≡ true
    → all_hold routing replicas d ≡ true
    → holds routing replica d ≡ true
unfolding all_hold
all_hold-each routing replica [] d m h = absurd (cc m)
all_hold-each routing replica (other ∷ replicas) d m h = elim (Bool-cases (str_eq other replica)) [
  | inl e ↦ subst (λ k. holds routing k d ≡ true) ((eq_iff other replica).0 e) (first h)
  | inr e ↦ all_hold-each routing replica replicas d (rw e at m) (rest h)
]
  where
    first :
        (holds routing other d && all_hold routing replicas d) ≡ true → holds routing other d ≡ true
    first p = ground (arith, p)

    rest :
        (holds routing other d && all_hold routing replicas d) ≡ true
        → all_hold routing replicas d ≡ true
    rest p = ground (arith, p)

-- Where the reports of a gateway are by distinct replicas, a gateway that counts as switched to a routing
-- seq has a report from each of its replicas, at most a minute old, that holds that seq.
pub switched-Holding :
    (now routing : ℕ) (gateway replica : String) (s : Gateways)
    → Distinct (reports_of (get gateway s.reports))
    → mem replica (members (get gateway s.replicas)) ≡ true
    → (switched now gateway routing s).0 ≡ true
    → Holding now routing replica (reports_of (get gateway s.reports))
unfolding switched fresh_reports
switched-Holding now routing gateway replica s u m h =
    elim (Bool-cases (not s.computed || not (is_seq routing (get gateway s.published.seqs)))) [
      | inl e ↦ absurd (cc (rw e at h))
      | inr e ↦
          holds-Holding now routing replica _ u
            (all_hold-each routing replica (members (get gateway s.replicas)) _ m (rw e at h))
    ]
