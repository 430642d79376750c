-- ===== src/Conversations/Turns/Continues.antt =====
-- A stored turn's conversation is its parent's with the turn behind it, in the parent's log or, where
-- another turn holds the place, in a log of its own that is based on the parent.
use modelship.Prelude.{
  ℕ, suc, String, ◌≡◌, refl, ap, ◌∙◌, Bool, true, false, none, some, List, [], ◌∷◌, ◌++◌, arith,
  str_eq_self, Bool-cases, inl, inr,
}
use modelship.Json.{Json, Fields, obj, with_field, list_json}
use modelship.State.Memory.{document, taken, values_in}
use modelship.State.Memory.Spec.{entries_in, refused}
use modelship.State.Store.{Content, accepts, written}
use modelship.Conversations.Keys.{key, log_key}
use modelship.Conversations.Records.{Position, Entry, finished, entry, entries_of, record_of}
use modelship.Conversations.History.{round}
use modelship.Conversations.History.Chain.{Chain, held_at, log_at, segment, Ascending, Chain-kept}
use modelship.Conversations.Turns.{forked, ours, output_of, entry_fields, record_fields}
use modelship.Conversations.Turns.Content.{
  put_content, put_content-Grows, next_position, taken_at, stored, written-log, accepts-taken,
}
use modelship.Conversations.Turns.Growth.{
  turn_entry, entry-entry_fields, entry-forked, base_of-entry_fields, base_of-forked, held-last,
  Chain-extended,
}

-- the record of a turn at `at`, whose conversation is `before` and then the turn
pub record Continued (c : Content Json) (identity response_id : String) (response : Fields)
    (before : List Entry) (input : List Json) : Type 0 where
  pub at : Position
  pub turn : Entry
  pub named :
      record_of (c (key identity response_id))
      ≡ some (record { response = with_field "output" (list_json []) response; turn = finished at })
  pub chain : Chain c identity at (before ++ turn ∷ [])
  pub asked : turn.input ≡ input
  pub answered : turn.output ≡ output_of response

record_of-record_fields :
    (response : Fields) (p : Position)
    → record_of (some (document (obj (record_fields response p))))
      ≡ some (record { response = with_field "output" (list_json []) response; turn = finished p })
unfolding record_of record_fields
record_of-record_fields response p = refl

accepted_of_free :
    (c : Content Json) (l : String) (q : ℕ) (k : String) (x : Bool)
    → refused x (c k) ≡ false
    → taken (entries_in (c l)) q ≡ false
    → accepts c l q k x ≡ true
unfolding accepts
accepted_of_free c l q k x h f = rw (h, f)

module _ (identity : String) (c : Content Json) (response_id : String) (fields : Fields)
    (p : Position) (response : Fields) (x : Bool)
    (accepted : accepts c (log_key identity p.log) p.depth (key identity response_id) x
      ≡ true) where
  put-named :
      record_of (put_content identity c response_id fields p response x (key identity response_id))
      ≡ some (record { response = with_field "output" (list_json []) response; turn = finished p })
  put-named = rw accepted (
      unfold written in
      rw (str_eq_self (key identity response_id)) (record_of-record_fields response p))

  put-log :
      log_at (put_content identity c response_id fields p response x) identity p.log
      ≡ log_at c identity p.log ++ (p.depth, obj fields) ∷ []
  put-log = rw (accepted, written-log, str_eq_self (log_key identity p.log))

values_in_one : (n : ℕ) (v : Json) → values_in 1 (some (suc n)) ((suc n, v) ∷ []) ≡ v ∷ []
unfolding values_in
values_in_one n v = ground arith

-- the first entry of a log of the response's own
module _ (identity : String) (c : Content Json) (response_id : String) (fields : Fields) (n : ℕ)
    (response : Fields) (x : Bool) (e : Entry) (empty : log_at c identity response_id ≡ [])
    (allowed : refused x (c (key identity response_id)) ≡ false)
    (read : entry (obj fields) ≡ some e) where
  abbrev own : Position
  own = record { log = response_id; depth = suc n }

  abbrev after : Content Json
  after = put_content identity c response_id fields own response x

  own_free : taken (log_at c identity response_id) (suc n) ≡ false
  own_free = rw empty (unfold taken in refl)

  own_accepted :
      accepts c (log_key identity response_id) (suc n) (key identity response_id) x ≡ true
  own_accepted =
      accepted_of_free c (log_key identity response_id) (suc n) (key identity response_id) x allowed
        own_free

  own_log : log_at after identity response_id ≡ (suc n, obj fields) ∷ []
  own_log =
      put-log identity c response_id fields own response x own_accepted
      ∙ ap (λ es. es ++ (suc n, obj fields) ∷ []) empty

  own_held : held_at (suc n) (log_at after identity response_id) ≡ true
  own_held = rw own_log (held-last (suc n) (obj fields) [])

  own-segment : segment after identity own ≡ some (e ∷ [])
  own-segment = rw (own_log, values_in_one) (unfold entries_of in rw read refl)

pub stored-first :
    (identity : String) (c : Content Json) (response_id : String) (response : Fields)
    (input : List Json) (x : Bool)
    → log_at c identity response_id ≡ []
    → refused x (c (key identity response_id)) ≡ false
    → Continued
        (stored identity c response_id response none input x)
        identity
        response_id
        response
        []
        input
stored-first identity c response_id response input x empty allowed =
    let fields = entry_fields response_id input (output_of response) in
    let e = turn_entry fields input (output_of response) in
    let read = entry-entry_fields response_id input (output_of response) in
    let base = base_of-entry_fields response_id input (output_of response) in
    let accepted = own_accepted identity c response_id fields 0 response x e empty allowed read in
    record {
      at = own identity c response_id fields 0 response x e empty allowed read;
      turn = e;
      named = put-named identity c response_id fields _ response x accepted;
      chain =
          Chain.root _ (e ∷ [])
            (own_held identity c response_id fields 0 response x e empty allowed read)
            (rw (own-segment identity c response_id fields 0 response x e empty allowed read)
              (unfold round in rw base refl));
      asked = refl;
      answered = refl;
    }

-- in the parent's log, where the place behind the parent is free
stored_in_place :
    (identity : String) (c : Content Json) (response_id : String) (response : Fields)
    (parent : Position) (es : List Entry) (input : List Json) (x : Bool)
    → Ascending c
    → Chain c identity parent es
    → accepts c (log_key identity parent.log) (suc parent.depth) (key identity response_id) x ≡ true
    → Continued
        (put_content identity c response_id
          (entry_fields response_id input (output_of response))
          (next_position parent)
          response
          x)
        identity
        response_id
        response
        es
        input
stored_in_place identity c response_id response parent es input x asc ch accepted =
    let fields = entry_fields response_id input (output_of response) in
    let p = next_position parent in
    let after = put_content identity c response_id fields p response x in
    record {
      at = p;
      turn = turn_entry fields input (output_of response);
      named = put-named identity c response_id fields p response x accepted;
      chain =
          Chain-extended c after identity parent (obj fields)
            (turn_entry fields input (output_of response))
            (put_content-Grows identity c response_id fields p response x) asc
            (accepts-taken c (log_key identity parent.log) (suc parent.depth)
              (key identity response_id) x accepted)
            (entry-entry_fields response_id input (output_of response))
            (put-log identity c response_id fields p response x accepted) es ch;
      asked = refl;
      answered = refl;
    }

-- in a log of its own, based on the parent
stored_forked :
    (identity : String) (c : Content Json) (response_id : String) (response : Fields)
    (parent : Position) (es : List Entry) (input : List Json) (x : Bool)
    → Ascending c
    → Chain c identity parent es
    → log_at c identity response_id ≡ []
    → refused x (c (key identity response_id)) ≡ false
    → Continued
        (put_content identity c response_id
          (forked (entry_fields response_id input (output_of response)) parent)
          (record { log = response_id; depth = suc parent.depth })
          response
          x)
        identity
        response_id
        response
        es
        input
stored_forked identity c response_id response parent es input x asc ch empty allowed =
    let n = parent.depth in
    let fields = forked (entry_fields response_id input (output_of response)) parent in
    let e = turn_entry fields input (output_of response) in
    let read = entry-forked response_id input (output_of response) parent in
    let base = base_of-forked response_id input (output_of response) parent in
    let accepted = own_accepted identity c response_id fields n response x e empty allowed read in
    let p = own identity c response_id fields n response x e empty allowed read in
    record {
      at = p;
      turn = e;
      named = put-named identity c response_id fields p response x accepted;
      chain =
          Chain.fork p parent (e ∷ []) es _
            (own_held identity c response_id fields n response x e empty allowed read)
            (rw (own-segment identity c response_id fields n response x e empty allowed read)
              (unfold round in rw base (ground arith)))
            (Chain-kept c _ (put_content-Grows identity c response_id fields p response x) asc
              identity ch)
            refl;
      asked = refl;
      answered = refl;
    }

pub stored-behind :
    (identity : String) (c : Content Json) (response_id : String) (response : Fields)
    (parent : Position) (es : List Entry) (input : List Json) (x : Bool)
    → Ascending c
    → Chain c identity parent es
    → log_at c identity response_id ≡ []
    → ours response_id (taken_at identity c (next_position parent)) ≡ false
    → refused x (c (key identity response_id)) ≡ false
    → Continued
        (stored identity c response_id response (some parent) input x)
        identity
        response_id
        response
        es
        input
stored-behind identity c response_id response parent es input x asc ch empty other allowed =
    let p = next_position parent in
    elim (Bool-cases (accepts c (log_key identity p.log) p.depth (key identity response_id) x)) [
      | inl e ↦
          rw e
            (rw e at (stored_in_place identity c response_id response parent es input x asc ch e))
      | inr e ↦
          rw (e, other)
            (stored_forked identity c response_id response parent es input x asc ch empty allowed)
    ]
