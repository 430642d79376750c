-- ===== src/Conversations/Turns/Content.antt =====
-- What storing a turn leaves to be seen.
use mathlib.Core.Path.{subst, fun_ext}
use modelship.Prelude.{
  ℕ, suc, String, ◌≡◌, refl, ap, ◌∙◌, Bool, true, false, Option, none, some, List, [], ◌∷◌, ◌++◌,
  arith, eq_iff, str_eq, str_eq_ne, if◌then◌else◌, Bool-cases, inl, inr,
}
use modelship.Json.{Json, Fields, obj}
use modelship.State.Memory.{Stored, document, taken, values_in}
use modelship.State.Memory.Spec.{entries_in}
use modelship.State.Memory.Logs.{Increasing, append-Increasing}
use modelship.State.Store.{StateStore, Content, accepts, written}
use modelship.Conversations.Keys.{key, log_key, key-ne-log_key}
use modelship.Conversations.Records.{Position}
use modelship.Conversations.History.Chain.{log_at, same, longer, Grows, Ascending}
use modelship.Conversations.History.Reads.{Same, read_range-Same}
use modelship.Conversations.Turns.{
  forked, ours, output_of, entry_fields, record_fields, put_turn, after_refusal, store_turn,
}

-- the content after an attempt to put a turn at a position
abbrev pub put_content :
    String → Content Json → String → Fields → Position → Fields → Bool → Content Json
put_content identity c response_id entry p response if_exists =
    if accepts c (log_key identity p.log) p.depth (key identity response_id) if_exists
    then written c (log_key identity p.log) p.depth (obj entry) (key identity response_id)
        (document (obj (record_fields response p)))
    else c

pub accepts-taken :
    (c : Content Json) (l : String) (q : ℕ) (k : String) (x : Bool)
    → accepts c l q k x ≡ true
    → taken (entries_in (c l)) q ≡ false
unfolding accepts
accepts-taken c l q k x h = ground arith

-- at a log's key, a turn that is put adds its entry or nothing
pub written-log :
    (identity response_id : String) (c : Content Json) (p : Position) (e : Json) (v : Stored Json)
    (i l : String)
    → entries_in
        (written c (log_key identity p.log) p.depth e (key identity response_id) v (log_key i l))
      ≡ (if str_eq (log_key identity p.log) (log_key i l)
          then log_at c identity p.log ++ (p.depth, e) ∷ []
          else log_at c i l)
unfolding written
written-log identity response_id c p e v i l =
    rw (str_eq_ne _ _ (key-ne-log_key identity response_id i l)) (ground arith)

pub put_content-Grows :
    (identity : String) (c : Content Json) (response_id : String) (entry : Fields) (p : Position)
    (response : Fields) (if_exists : Bool)
    → Grows c (put_content identity c response_id entry p response if_exists)
put_content-Grows identity c response_id entry p response x i l =
    let v = document (obj (record_fields response p)) in
    elim (Bool-cases (accepts c (log_key identity p.log) p.depth (key identity response_id) x)) [
      | inr e ↦ rw e (same _ refl)
      | inl e ↦ elim (Bool-cases (str_eq (log_key identity p.log) (log_key i l))) [
        | inr d ↦ rw e (same _ (rw (written-log, d)))
        | inl d ↦ rw e (
            longer _ p.depth (obj entry)
              (subst (λ k. taken (entries_in (c k)) p.depth ≡ false) ((eq_iff _ _).0 d)
                (accepts-taken c (log_key identity p.log) p.depth (key identity response_id) x e))
              (rw (written-log, d)
                (ap (λ k. entries_in (c k) ++ (p.depth, obj entry) ∷ []) ((eq_iff _ _).0 d))))
      ]
    ]

written-Increasing :
    (c : Content Json) (l : String) (q : ℕ) (e : Json) (k : String) (d : Json) (j : String)
    → Ascending c
    → taken (entries_in (c l)) q ≡ false
    → Increasing (entries_in (written c l q e k (document d) j))
unfolding written
written-Increasing c l q e k d j h f = elim (Bool-cases (str_eq k j)) [
  | inl a ↦ rw a tt
  | inr a ↦ elim (Bool-cases (str_eq l j)) [
    | inl b ↦ rw (a, b) (append-Increasing (entries_in (c l)) q e (h l) f)
    | inr b ↦ rw (a, b) (h j)
  ]
]

pub put_content-Ascending :
    (identity : String) (c : Content Json) (response_id : String) (entry : Fields) (p : Position)
    (response : Fields) (if_exists : Bool)
    → Ascending c
    → Ascending (put_content identity c response_id entry p response if_exists)
put_content-Ascending identity c response_id entry p response x h j =
    elim (Bool-cases (accepts c (log_key identity p.log) p.depth (key identity response_id) x)) [
      | inr e ↦ rw e (h j)
      | inl e ↦ rw e (
          written-Increasing c (log_key identity p.log) p.depth (obj entry)
            (key identity response_id) (obj (record_fields response p)) j h
            (accepts-taken c (log_key identity p.log) p.depth (key identity response_id) x e))
    ]

-- the position behind a turn's parent
abbrev pub next_position : Position → Position
next_position parent = record { log = parent.log; depth = suc parent.depth }

-- what the code reads at that position when it was refused there
abbrev pub taken_at : String → Content Json → Position → List Json
taken_at identity c p = values_in p.depth (some p.depth) (log_at c identity p.log)

-- the content after `_store_turn`: the turn behind its parent, or in a log of its own
abbrev pub stored :
    String → Content Json → String → Fields → Option Position → List Json → Bool → Content Json
stored identity c response_id response none input x =
    put_content identity c response_id (entry_fields response_id input (output_of response))
      (record { log = response_id; depth = 1 }) response x
stored identity c response_id response (some parent) input x =
    let p = next_position parent in
    let entry = entry_fields response_id input (output_of response) in
    if accepts c (log_key identity p.log) p.depth (key identity response_id) x
    then put_content identity c response_id entry p response x
    else if ours response_id (taken_at identity c p)
    then c
    else put_content identity c response_id (forked entry parent)
        (record { log = response_id; depth = suc parent.depth }) response x

if_at :
    (b : Bool) (f g : Content Json) (j : String) → (if b then f j else g j) ≡ (if b then f else g) j
if_at true f g j = refl
if_at false f g j = refl

module _ (store : StateStore Json) (ttl : Option ℕ) (identity : String) where
  open store use {State, read_range, content, Lasting}

  put_turn-accepted :
      (c : Content Json) (response_id : String) (entry : Fields) (p : Position) (response : Fields)
      (x : Bool) (s : State)
      → Same store ttl identity c s
      → (put_turn store ttl identity response_id entry p response x s).0
        ≡ accepts c (log_key identity p.log) p.depth (key identity response_id) x
  put_turn-accepted c response_id entry p response x s h =
      let l = log_key identity p.log in
      let k = key identity response_id in
      let v = document (obj (record_fields response p)) in
      unfold put_turn in
      store.append_and_set-reply ttl l p.depth (obj entry) k v x s h.lasting
      ∙ ap (λ d. accepts d l p.depth k x) (fun_ext h.shows)

  put_turn-Same :
      (c : Content Json) (response_id : String) (entry : Fields) (p : Position) (response : Fields)
      (x : Bool) (s : State)
      → Same store ttl identity c s
      → Same store ttl identity
          (put_content identity c response_id entry p response x)
          (put_turn store ttl identity response_id entry p response x s).1
  put_turn-Same c response_id entry p response x s h =
      let l = log_key identity p.log in
      let k = key identity response_id in
      let v = document (obj (record_fields response p)) in
      let after = λ (j : String).
        store.append_and_set-content ttl l p.depth (obj entry) k v x j s h.lasting
        ∙ ap (λ d. if accepts d l p.depth k x then written d l p.depth (obj entry) k v j else d j)
            (fun_ext h.shows)
        ∙ if_at (accepts c l p.depth k x) (written c l p.depth (obj entry) k v) c j in
      unfold put_turn in
      record {
        shows = after;
        lasting = store.append_and_set-Lasting ttl l p.depth (obj entry) k v x s h.lasting;
      }

  taken-read :
      (c : Content Json) (p : Position) (s : State)
      → Same store ttl identity c s
      → (read_range (log_key identity p.log) p.depth (some p.depth) s).0 ≡ taken_at identity c p
  taken-read c p s h =
      store.read_range-reply ttl (log_key identity p.log) p.depth (some p.depth) s h.lasting
      ∙ ap (λ d. values_in p.depth (some p.depth) (entries_in (d (log_key identity p.log))))
          (fun_ext h.shows)

  after_refusal-Same :
      (c : Content Json) (response_id : String) (entry : Fields) (parent : Position)
      (response : Fields) (x : Bool) (taken_values : List Json) (s : State)
      → Same store ttl identity c s
      → Same store ttl identity
          (if ours response_id taken_values
            then c
            else put_content identity c response_id
                (forked entry parent)
                (record { log = response_id; depth = suc parent.depth })
                response
                x)
          (after_refusal store ttl identity response_id entry parent response x taken_values s).1
  after_refusal-Same c response_id entry parent response x vs s h =
      elim (Bool-cases (ours response_id vs)) [
        | inl e ↦ unfold after_refusal in rw e h
        | inr e ↦
            let q : Position = record { log = response_id; depth = suc parent.depth } in
            let put = put_turn-Same c response_id (forked entry parent) q response x s h in
            unfold after_refusal in rw e put
      ]

  module _ (c : Content Json) (response_id : String) (response : Fields) (parent : Position)
      (input : List Json) (x : Bool) (s : State) where
    abbrev first_try : Bool × State
    first_try =
        put_turn store ttl identity response_id
          (entry_fields response_id input (output_of response)) (next_position parent) response x s

    store_turn-accepted :
        first_try.0 ≡ true
        → (store_turn store ttl identity response_id response (some parent) input x s).1
          ≡ first_try.1
    unfolding store_turn
    store_turn-accepted e = rw e

    store_turn-refused :
        first_try.0 ≡ false
        → (store_turn store ttl identity response_id response (some parent) input x s).1 ≡ (
            let p = next_position parent in
            let (vs, s2) = read_range (log_key identity p.log) p.depth (some p.depth) first_try.1 in
            (after_refusal store ttl identity response_id
              (entry_fields response_id input (output_of response))
              parent
              response
              x
              vs
              s2).1)
    unfolding store_turn
    store_turn-refused e = rw e

  -- Storing a turn leaves exactly `stored` to be seen.
  pub store_turn-Same :
      (c : Content Json) (response_id : String) (response : Fields) (parent : Option Position)
      (input : List Json) (x : Bool) (s : State)
      → Same store ttl identity c s
      → Same store ttl identity
          (stored identity c response_id response parent input x)
          (store_turn store ttl identity response_id response parent input x s).1
  store_turn-Same c response_id response none input x s h =
      let q : Position = record { log = response_id; depth = 1 } in
      let entry = entry_fields response_id input (output_of response) in
      unfold store_turn in put_turn-Same c response_id entry q response x s h
  store_turn-Same c response_id response (some parent) input x s h =
      elim (Bool-cases (accepts c (log_key identity p.log) p.depth (key identity response_id) x)) [
        | inl e ↦
            rw (e, store_turn-accepted c response_id response parent input x s (accepted ∙ e))
              (rw e at put)
        | inr e ↦
            rw
              (
                e,
                store_turn-refused c response_id response parent input x s (accepted ∙ e),
                taken-read c p s1 (rw e at put),
              )
              (after_refusal-Same c response_id entry parent response x (taken_at identity c p) s2 (
                read_range-Same store ttl identity c (log_key identity p.log) p.depth (some p.depth)
                  s1 (rw e at put)))
      ]
    where
      p : Position
      p = next_position parent

      entry : Fields
      entry = entry_fields response_id input (output_of response)

      s1 : State
      s1 = (put_turn store ttl identity response_id entry p response x s).1

      s2 : State
      s2 = (read_range (log_key identity p.log) p.depth (some p.depth) s1).1

      accepted :
          (put_turn store ttl identity response_id entry p response x s).0
          ≡ accepts c (log_key identity p.log) p.depth (key identity response_id) x
      accepted = put_turn-accepted c response_id entry p response x s h

      put : Same store ttl identity (put_content identity c response_id entry p response x) s1
      put = put_turn-Same c response_id entry p response x s h
