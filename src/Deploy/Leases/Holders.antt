-- ===== src/Deploy/Leases/Holders.antt =====
-- A node's deploy lease has one holder, also where calls overlap.
use modelship.Prelude.{
  String, ◌≡◌, ◌≢◌, refl, sym, ap, ◌∙◌, Bool, true, false, none, some, str_eq_self, Bool-cases, inl,
  inr, arith, eq_iff,
}
use modelship.Dict.{get}
use modelship.Deploy.Leases.{
  Lease, Leases, granted, take_node, drop_lease, same_lease, stored_lease, acquire_from,
  acquire_when, acquire,
}

abbrev lease_of : String → String → String → String → Lease
lease_of app deployment replica label = record {
  app = app;
  deployment = deployment;
  replica = replica;
  label = label;
}

pub same_lease_eq : (a b : Lease) → same_lease a b ≡ true → a ≡ b
unfolding same_lease
same_lease_eq a b h =
    ap (λ x. lease_of x a.deployment a.replica a.label) {y = b.app}
      (ground (arith, h, eq_iff a.app b.app))
    ∙ ap (λ x. lease_of b.app x a.replica a.label) {y = b.deployment}
        (ground (arith, h, eq_iff a.deployment b.deployment))
    ∙ ap (λ x. lease_of b.app b.deployment x a.label) {y = b.replica}
        (ground (arith, h, eq_iff a.replica b.replica))
    ∙ ap (lease_of b.app b.deployment b.replica) {y = b.label}
        (ground (arith, h, eq_iff a.label b.label))

pub same_lease_self : (a : Lease) → same_lease a a ≡ true
unfolding same_lease
same_lease_self a = rw (str_eq_self, str_eq_self, str_eq_self, str_eq_self)

held_from :
    (l : Lease) (stores : Bool) (meanwhile : Leases → Leases) (key : String) (other : Lease)
    (s : Leases)
    → l ≢ other
    → ((acquire_from (some l) stores meanwhile key other s).0 ≢ granted)
      × ((acquire_from (some l) stores meanwhile key other s).1 ≡ s)
unfolding acquire_from
held_from l stores meanwhile key other s ne = elim (Bool-cases (same_lease l other)) [
  | inl i ↦ absurd (ne (same_lease_eq l other i))
  | inr i ↦ rw i (λ e. ground (arith, e), refl)
]

held_when :
    (b stores : Bool) (meanwhile : Leases → Leases) (key : String) (lease other : Lease)
    (s : Leases)
    → get key s.held ≡ some lease
    → lease ≢ other
    → ((acquire_when b stores meanwhile key other s).0 ≢ granted)
      × ((acquire_when b stores meanwhile key other s).1 ≡ s)
unfolding acquire_when
held_when true stores meanwhile key lease other s h ne =
    rw h (held_from lease stores meanwhile key other s ne)
held_when false stores meanwhile key lease other s h ne = (λ e. ground (arith, e), refl)

-- While a node's lease is held, `acquire` by any other holder is not granted and changes nothing.
pub acquire-held :
    (stores : Bool) (meanwhile : Leases → Leases) (key : String) (lease other : Lease) (s : Leases)
    → get key s.held ≡ some lease
    → lease ≢ other
    → ((acquire stores meanwhile key other s).0 ≢ granted)
      × ((acquire stores meanwhile key other s).1 ≡ s)
unfolding acquire
acquire-held stores meanwhile key lease other s h ne =
    held_when s.loaded stores meanwhile key lease other s h ne

stored-spares :
    (stores : Bool) (key : String) (lease other : Lease) (s : Leases)
    → get key s.held ≡ some other
    → lease ≢ other
    → get key (stored_lease stores key lease s).1.held ≡ some other
unfolding stored_lease drop_lease
stored-spares true key lease other s h ne = h
stored-spares false key lease other s h ne = elim (Bool-cases (same_lease other lease)) [
  | inl i ↦ absurd (ne (sym (same_lease_eq other lease i)))
  | inr i ↦ rw (h, i, h)
]

spares_when :
    (b stores : Bool) (meanwhile : Leases → Leases) (key : String) (lease other : Lease)
    (s : Leases)
    → get key s.held ≡ none
    → get key (meanwhile (take_node key lease s)).held ≡ some other
    → lease ≢ other
    → b ≡ true
    → get key (acquire_when b stores meanwhile key lease s).1.held ≡ some other
unfolding acquire_when acquire_from
spares_when true stores meanwhile key lease other s free h ne e =
    rw free (stored-spares stores key lease other (meanwhile (take_node key lease s)) h ne)
spares_when false stores meanwhile key lease other s free h ne e = absurd (cc e)

-- Once the leases are loaded: where a free node's new lease is given to another while the store
-- writes it, it is not taken from the other when the write ends, whether it succeeded or failed.
pub acquire-spares :
    (stores : Bool) (meanwhile : Leases → Leases) (key : String) (lease other : Lease) (s : Leases)
    → s.loaded ≡ true
    → get key s.held ≡ none
    → get key (meanwhile (take_node key lease s)).held ≡ some other
    → lease ≢ other
    → get key (acquire stores meanwhile key lease s).1.held ≡ some other
unfolding acquire
acquire-spares stores meanwhile key lease other s loaded free h ne =
    spares_when s.loaded stores meanwhile key lease other s free h ne loaded
