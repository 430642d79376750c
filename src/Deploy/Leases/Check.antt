-- ===== src/Deploy/Leases/Check.antt =====
-- What a check of the leases frees.
use modelship.Prelude.{
  ℕ, ◌+◌, String, ◌≡◌, refl, ap, sym, ◌∙◌, true, false, not, Option, none, some, [], ◌∷◌, ltb,
  str_eq, str_eq_self, if◌then◌else◌, Bool-cases, inl, inr, arith, eq_iff,
}
use modelship.Dict.{Dict, Distinct, get, put, remove, get-put, get-remove}
use modelship.Deploy.Leases.{
  Lease, Leases, drop_lease, release, check_lease, check_each, check_leases, unlisted_checks,
  or_none,
}
use modelship.Deploy.Leases.Holders.{same_lease_self}

-- what becomes of a lease and of its count of checks that did not list its replica
abbrev pub Outcome : Type 0
Outcome = Option Lease × Option ℕ

abbrev pub judged : Option String → Lease → Option ℕ → Outcome
judged none lease n =
    if ltb (or_none n + 1) unlisted_checks then (some lease, some (or_none n + 1)) else (none, none)
judged (some state) lease n =
    if not (str_eq state "RUNNING") then (some lease, none) else (none, none)

abbrev pub judge : (Lease → Option String) → Option Lease → Option ℕ → Outcome
judge states none n = (none, n)
judge states (some lease) n = judged (states lease) lease n

abbrev pub outcome : String → Leases → Outcome
outcome key s = (get key s.held, get key s.unlisted)

released :
    (key k : String) (lease : Lease) (s : Leases)
    → get key s.held ≡ some lease
    → outcome k (release key lease s) ≡ (if str_eq key k then (none, none) else outcome k s)
unfolding release drop_lease
released key k lease s h = elim (Bool-cases (str_eq key k)) [
  | inl i ↦ rw (h, same_lease_self, get-remove, get-remove, i)
  | inr i ↦ rw (h, same_lease_self, get-remove, get-remove, i)
]

stays :
    (key k : String) (lease : Lease) (d : Dict Lease)
    → get key d ≡ some lease
    → str_eq key k ≡ true
    → get k d ≡ some lease
stays key k lease d h i = ap (λ j. get j d) (sym ((eq_iff key k).0 i)) ∙ h

-- a lease whose count is written
counted :
    (key k : String) (lease : Lease) (n : ℕ) (s : Leases)
    → get key s.held ≡ some lease
    → outcome k (record s { unlisted = put key n s.unlisted })
      ≡ (if str_eq key k then (some lease, some n) else outcome k s)
counted key k lease n s h = elim (Bool-cases (str_eq key k)) [
  | inl i ↦ rw (get-put, i, stays key k lease s.held h i)
  | inr i ↦ rw (get-put, i)
]

-- a lease whose count is dropped
uncounted :
    (key k : String) (lease : Lease) (s : Leases)
    → get key s.held ≡ some lease
    → outcome k (record s { unlisted = remove key s.unlisted })
      ≡ (if str_eq key k then (some lease, none) else outcome k s)
uncounted key k lease s h = elim (Bool-cases (str_eq key k)) [
  | inl i ↦ rw (get-remove, i, stays key k lease s.held h i)
  | inr i ↦ rw (get-remove, i)
]

-- a lease that is freed after its count is written
freed :
    (key k : String) (lease : Lease) (n : ℕ) (s : Leases)
    → get key s.held ≡ some lease
    → outcome k (release key lease (record s { unlisted = put key n s.unlisted }))
      ≡ (if str_eq key k then (none, none) else outcome k s)
freed key k lease n s h =
    released key k lease (record s { unlisted = put key n s.unlisted }) h
    ∙ elim (Bool-cases (str_eq key k)) [ inl i ↦ rw i | inr i ↦ rw (i, get-put, i) ]

checked :
    (state : Option String) (key k : String) (lease : Lease) (s : Leases)
    → get key s.held ≡ some lease
    → outcome k (check_lease state key lease s)
      ≡ (if str_eq key k then judged state lease (get key s.unlisted) else outcome k s)
unfolding check_lease
checked none key k lease s h =
    let n = or_none (get key s.unlisted) + 1 in
    elim (Bool-cases (ltb n unlisted_checks)) [
      | inl i ↦ rw i (counted key k lease n s h)
      | inr i ↦ rw i (freed key k lease n s h)
    ]
checked (some state) key k lease s h = elim (Bool-cases (str_eq state "RUNNING")) [
  | inl i ↦ rw i (released key k lease s h)
  | inr i ↦ rw i (uncounted key k lease s h)
]

unchecked :
    (state : Option String) (key k : String) (lease : Lease) (s : Leases)
    → get key s.held ≡ some lease
    → str_eq key k ≡ false
    → outcome k (check_lease state key lease s) ≡ outcome k s
unchecked state key k lease s h i = checked state key k lease s h ∙ rw i

abbrev verdict : (Lease → Option String) → Option Lease → Outcome → Outcome
verdict states none o = o
verdict states (some l) o = judged (states l) l o.1

-- two keys of a dictionary without duplicates
apart :
    (key j : String) (l : Lease) (d : Dict Lease)
    → get key d ≡ none
    → get j d ≡ some l
    → str_eq key j ≡ false
apart key j l d h e = ground (arith, h, e, eq_iff key j)

-- the loop, over leases that are all held, judges each of them once
checked_each :
    (states : Lease → Option String) (d : Dict Lease) (k : String) (s : Leases)
    → Distinct d
    → ((j : String) (l : Lease) → get j d ≡ some l → get j s.held ≡ some l)
    → outcome k (check_each states d s) ≡ verdict states (get k d) (outcome k s)
unfolding check_each get
checked_each states [] k s u all = refl
checked_each states ((key, lease) ∷ d) k s u all =
    let s1 = check_lease (states lease) key lease s in
    let held = all key lease (rw str_eq_self) in
    let one = λ (j : String). checked (states lease) key j lease s held in
    let rest = checked_each states d k s1 u.1 λ j l e.
      ap (λ o. o.0) (unchecked (states lease) key j lease s held (apart key j l d u.0 e))
      ∙ all j l (rw (apart key j l d u.0 e) e) in
    elim (Bool-cases (str_eq key k)) [
      | inl i ↦
          rest
          ∙ ap (λ o. verdict states o (outcome k s1))
              (sym (ap (λ j. get j d) ((eq_iff key k).0 i)) ∙ u.0)
          ∙ one k
          ∙ rw i (ap (λ j. judged (states lease) lease (get j s.unlisted)) ((eq_iff key k).0 i))
      | inr i ↦ rest ∙ ap (verdict states (get k d)) (one k) ∙ rw i
    ]

-- A check of the leases that can read Serve's replicas leaves each lease whose replica is listed in
-- another state than RUNNING, with its count at zero; frees one that is RUNNING; and one that is not
-- listed it counts, and frees at the second check in a row. Nodes without a lease are not touched.
pub check_leases-judge :
    (states : Lease → Option String) (k : String) (s : Leases)
    → Distinct s.held
    → outcome k (check_leases (some states) s) ≡ judge states (get k s.held) (get k s.unlisted)
unfolding check_leases
check_leases-judge states k s u =
    checked_each states s.held k s u (λ j l e. e) ∙ go (get k s.held) refl
  where
    go :
        (o : Option Lease)
        → get k s.held ≡ o
        → verdict states o (outcome k s) ≡ judge states o (get k s.unlisted)
    go none e = ap (λ l. (l, get k s.unlisted)) e
    go (some l) e = refl
