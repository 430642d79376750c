-- ===== src/Conversations/Heartbeats.antt =====
-- modelship/openai/state/responses.py: `_HeartbeatStore` and `HeartbeatRegistry`, the liveness of
-- background runs. A method takes the time that `time.monotonic()` returned.
use modelship.Prelude.{
  ℕ, ◌+◌, ◌-◌, ◌≤◌, ◌≡◌, refl, sym, ap, ◌∙◌, String, Bool, true, false, ◌||◌, Option, none, some,
  List, [], ◌∷◌, ltb, leb, str_eq, eq_iff, arith, if◌then◌else◌, All, Bool-cases, inl, inr,
}
use modelship.Dict.{
  Dict, get, put, remove, get-put, get-remove, Distinct, put-Distinct, remove-Distinct,
}

-- an entry: the request's id, and the deadline
abbrev pub Beat : Type 0
Beat = String × ℕ

abbrev pub is_over : ℕ → Beat → Bool
is_over now beat = leb beat.1 now

-- `_evict_expired`
unfoldable pub evict_expired : ℕ → Dict Beat → Dict Beat
evict_expired now [] = []
evict_expired now ((key, beat) ∷ d) =
    let rest = evict_expired now d in if is_over now beat then rest else (key, beat) ∷ rest

-- `_HeartbeatStore.heartbeat`
unfoldable pub beat : ℕ → ℕ → String → String → Dict Beat → Dict Beat
unfolding evict_expired put
beat ttl now key req_id d = put key (req_id, now + ttl) (evict_expired now d)

unfoldable pub live_of : ℕ → String → Option Beat → Dict Beat → Option Beat × Dict Beat
unfolding remove
live_of now key none d = (none, d)
live_of now key (some b) d = if is_over now b then (none, remove key d) else (some b, d)

-- `_live_entry`, with the deletion of an entry that is over
unfoldable pub live_entry : ℕ → String → Dict Beat → Option Beat × Dict Beat
unfolding live_of get
live_entry now key d = live_of now key (get key d) d

abbrev pub id_of : Option Beat → Option String
id_of none = none
id_of (some b) = some b.0

abbrev pub is_there : Option Beat → Bool
is_there none = false
is_there (some b) = true

-- `req_id` of the store and of the registry
unfoldable pub req_id : ℕ → String → Dict Beat → Option String × Dict Beat
unfolding live_entry
req_id now key d = let r = live_entry now key d in (id_of r.0, r.1)

-- `HeartbeatRegistry.is_alive`, by when the registry started
unfoldable pub is_alive : ℕ → ℕ → ℕ → String → Dict Beat → Bool × Dict Beat
unfolding live_entry
is_alive ttl started now key d =
    let r = live_entry now key d in (is_there r.0 || ltb (now - started) ttl, r.1)

-- a call: a heartbeat, or a question about a key
pub data Call : Type 0 where
  beats : String → String → Call
  asks : String → Call

-- the store after the calls, the last of which stands first, each with its time
unfoldable pub after_calls : ℕ → List (ℕ × Call) → Dict Beat
unfolding beat live_entry
after_calls ttl [] = []
after_calls ttl ((now, beats key req) ∷ calls) = beat ttl now key req (after_calls ttl calls)
after_calls ttl ((now, asks key) ∷ calls) = (live_entry now key (after_calls ttl calls)).1

-- the id of a key's last heartbeat, if that was less than `ttl` ago
abbrev pub last_within : ℕ → ℕ → String → List (ℕ × Call) → Option String
last_within ttl now key [] = none
last_within ttl now key ((t, beats other req) ∷ calls) =
    if str_eq other key
    then if leb (t + ttl) now then none else some req
    else last_within ttl now key calls
last_within ttl now key ((t, asks other) ∷ calls) = last_within ttl now key calls

-- a key's request id where its entry is not over
abbrev seen : ℕ → Option Beat → Option String
seen now none = none
seen now (some b) = if is_over now b then none else some b.0

get-evicted :
    (now : ℕ) (key : String) (d : Dict Beat)
    → get key d ≡ none
    → get key (evict_expired now d) ≡ none
unfolding evict_expired get
get-evicted now key [] h = refl
get-evicted now key ((j, b) ∷ d) h = elim (Bool-cases (str_eq j key)) [
  | inl e ↦ absurd (cc (rw e at h))
  | inr e ↦ elim (Bool-cases (is_over now b)) [
    | inl f ↦ rw f (get-evicted now key d (rw e at h))
    | inr f ↦ rw (f, e) (get-evicted now key d (rw e at h))
  ]
]

evict_expired-Distinct : (now : ℕ) (d : Dict Beat) → Distinct d → Distinct (evict_expired now d)
unfolding evict_expired
evict_expired-Distinct now [] h = tt
evict_expired-Distinct now ((j, b) ∷ d) h = elim (Bool-cases (is_over now b)) [
  | inl f ↦ rw f (evict_expired-Distinct now d h.1)
  | inr f ↦ rw f (get-evicted now j d h.0, evict_expired-Distinct now d h.1)
]

still_over : (t now : ℕ) (b : Beat) → t ≤ now → is_over t b ≡ true → is_over now b ≡ true
still_over t now b l h = ground (arith, l, h)

seen-evicted :
    (t now : ℕ) (key : String) (d : Dict Beat)
    → t ≤ now
    → Distinct d
    → seen now (get key (evict_expired t d)) ≡ seen now (get key d)
unfolding evict_expired get
seen-evicted t now key [] l u = refl
seen-evicted t now key ((j, b) ∷ d) l u = elim (Bool-cases (is_over t b)) [
  | inl f ↦ elim (Bool-cases (str_eq j key)) [
    | inl e ↦
        rw
          (
            f,
            e,
            get-evicted t key d (ap (λ k. get k d) (sym ((eq_iff j key).0 e)) ∙ u.0),
            still_over t now b l f,
          )
          refl
    | inr e ↦ rw (f, e) (seen-evicted t now key d l u.1)
  ]
  | inr f ↦ elim (Bool-cases (str_eq j key)) [
    | inl e ↦ rw (f, e) refl
    | inr e ↦ rw (f, e) (seen-evicted t now key d l u.1)
  ]
]

seen-asked :
    (t now : ℕ) (key other : String) (o : Option Beat) (d : Dict Beat)
    → t ≤ now
    → get other d ≡ o
    → seen now (get key (live_of t other o d).1) ≡ seen now (get key d)
unfolding live_of
seen-asked t now key other none d l g = refl
seen-asked t now key other (some b) d l g = elim (Bool-cases (is_over t b)) [
  | inl f ↦ rw (f, get-remove) (dropped f)
  | inr f ↦ rw f refl
]
  where
    dropped :
        is_over t b ≡ true
        → seen now (if str_eq other key then none else get key d) ≡ seen now (get key d)
    dropped f = elim (Bool-cases (str_eq other key)) [
      | inl e ↦
          rw (e, ap (λ k. get k d) (sym ((eq_iff other key).0 e)) ∙ g, still_over t now b l f) refl
      | inr e ↦ rw e refl
    ]

asked-Distinct :
    (t : ℕ) (key : String) (o : Option Beat) (d : Dict Beat)
    → Distinct d
    → Distinct (live_of t key o d).1
unfolding live_of
asked-Distinct t key none d u = u
asked-Distinct t key (some b) d u = elim (Bool-cases (is_over t b)) [
  | inl f ↦ rw f (remove-Distinct key d u)
  | inr f ↦ rw f u
]

after_calls-Distinct : (ttl : ℕ) (calls : List (ℕ × Call)) → Distinct (after_calls ttl calls)
unfolding after_calls beat live_entry
after_calls-Distinct ttl [] = tt
after_calls-Distinct ttl ((t, beats key req) ∷ calls) =
    put-Distinct key (req, t + ttl) _ (evict_expired-Distinct t _ (after_calls-Distinct ttl calls))
after_calls-Distinct ttl ((t, asks key) ∷ calls) =
    asked-Distinct t key _ _ (after_calls-Distinct ttl calls)

after_calls-seen :
    (ttl now : ℕ) (key : String) (calls : List (ℕ × Call))
    → All (λ c. c.0 ≤ now) calls
    → seen now (get key (after_calls ttl calls)) ≡ last_within ttl now key calls
unfolding after_calls beat live_entry get
after_calls-seen ttl now key [] h = refl
after_calls-seen ttl now key ((t, beats other req) ∷ calls) h =
    rw get-put (elim (Bool-cases (str_eq other key)) [
      | inl e ↦ rw e refl
      | inr e ↦ rw e (
          seen-evicted t now key (after_calls ttl calls) h.0 (after_calls-Distinct ttl calls)
          ∙ after_calls-seen ttl now key calls h.1)
    ])
after_calls-seen ttl now key ((t, asks other) ∷ calls) h =
    seen-asked t now key other _ (after_calls ttl calls) h.0 refl
    ∙ after_calls-seen ttl now key calls h.1

live_of-seen :
    (now : ℕ) (key : String) (o : Option Beat) (d : Dict Beat)
    → id_of (live_of now key o d).0 ≡ seen now o
unfolding live_of
live_of-seen now key none d = refl
live_of-seen now key (some b) d = elim (Bool-cases (is_over now b)) [
  | inl f ↦ rw f refl
  | inr f ↦ rw f refl
]

-- After any heartbeats and questions up to now, the store answers the request id of a key's last heartbeat
-- where that was less than the lifetime ago, and none otherwise.
pub req_id-last_within :
    (ttl now : ℕ) (key : String) (calls : List (ℕ × Call))
    → All (λ c. c.0 ≤ now) calls
    → (req_id now key (after_calls ttl calls)).0 ≡ last_within ttl now key calls
unfolding req_id live_entry
req_id-last_within ttl now key calls h =
    live_of-seen now key (get key (after_calls ttl calls)) (after_calls ttl calls)
    ∙ after_calls-seen ttl now key calls h
