-- ===== src/Conversations/Turns/Terminal.antt =====
-- A record that is gone, finished or terminal is never written again by its run's end.
use modelship.Prelude.{
  ℕ, suc, String, ◌≡◌, refl, ap, ◌∙◌, Bool, true, false, ◌||◌, Option, none, some, List, Bool-cases,
  inl, inr,
}
use modelship.Json.{Json, Fields, field_of}
use modelship.State.Store.{StateStore, Content, accepts}
use modelship.Conversations.Keys.{key, log_key}
use modelship.Conversations.Records.{
  Position, Record, Turn, finished, waiting, misplaced, unparented, record_of,
}
use modelship.Conversations.History.{read_record}
use modelship.Conversations.Turns.{
  forked, ours, output_of, entry_fields, terminal_status, end_waiting, end_turn,
  write_terminal_if_not_terminal, store_turn,
}
use modelship.Conversations.Turns.Content.{
  put_content, next_position, taken_at, stored, store_turn-Same,
}

put_content-missing :
    (identity : String) (c : Content Json) (response_id : String) (fields : Fields) (p : Position)
    (response : Fields) (j : String)
    → c (key identity response_id) ≡ none
    → put_content identity c response_id fields p response true j ≡ c j
put_content-missing identity c response_id fields p response j gone = unfold accepts in rw gone

-- a turn whose record must exist is not stored for a record that is gone
stored-missing :
    (identity : String) (c : Content Json) (response_id : String) (response : Fields)
    (parent : Option Position) (input : List Json) (j : String)
    → c (key identity response_id) ≡ none
    → stored identity c response_id response parent input true j ≡ c j
stored-missing identity c response_id response none input j gone =
    put_content-missing identity c response_id _ _ response j gone
stored-missing identity c response_id response (some parent) input j gone =
    let p = next_position parent in
    let entry = entry_fields response_id input (output_of response) in
    elim (Bool-cases (accepts c (log_key identity p.log) p.depth (key identity response_id) true)) [
      | inl e ↦ rw e (rw e at (put_content-missing identity c response_id entry p response j gone))
      | inr e ↦ elim (Bool-cases (ours response_id (taken_at identity c p))) [
        | inl o ↦ rw (e, o)
        | inr o ↦
            rw (e, o)
              (put_content-missing identity c response_id (forked entry parent)
                (record { log = response_id; depth = suc parent.depth }) response j gone)
      ]
    ]

-- whether a turn names a log, or else has no parent to be stored behind
is_finished : Turn → Bool
is_finished (finished p) = true
is_finished misplaced = true
is_finished unparented = true
is_finished (waiting input parent) = false

-- whether a record is gone, finished or terminal, or lacks what a turn needs to be stored
unfoldable pub settled : Option Record → Bool
unfolding is_finished
settled none = true
settled (some r) = terminal_status (field_of "status" r.response) || is_finished r.turn

module _ (store : StateStore Json) (ttl : Option ℕ) (identity : String) where
  open store use {State, get, content, Lasting}

  end_waiting-unchanged :
      (response_id : String) (response : Fields) (t : Turn) (s : State)
      → is_finished t ≡ true
      → (end_waiting store ttl identity response_id response t s).1 ≡ s
  unfolding end_waiting is_finished
  end_waiting-unchanged response_id response (finished p) s h = refl
  end_waiting-unchanged response_id response misplaced s h = refl
  end_waiting-unchanged response_id response unparented s h = refl
  end_waiting-unchanged response_id response (waiting input parent) s h = cc h

  end_turn-unchanged :
      (response_id : String) (response : Fields) (r : Option Record) (s : State)
      → settled r ≡ true
      → (end_turn store ttl identity response_id response r s).1 ≡ s
  end_turn-unchanged response_id response none s h = unfold end_turn in refl
  end_turn-unchanged response_id response (some r) s h =
      elim (Bool-cases (terminal_status (field_of "status" r.response))) [
        | inl e ↦ unfold end_turn in rw e
        | inr e ↦
            let over =
              end_waiting-unchanged response_id response r.turn s (unfold settled in (rw e at h)) in
            unfold end_turn in rw e over
      ]

  -- Ending a run whose record is gone, finished or already terminal, or is malformed such that no
  -- turn of it can be stored, changes nothing that any caller can see, so no terminal status is ever
  -- overwritten.
  pub settled-unchanged :
      (response_id : String) (response : Fields) (s : State)
      → Lasting ttl s
      → settled (record_of (content s (key identity response_id))) ≡ true
      → (k : String)
      → content (write_terminal_if_not_terminal store ttl identity response_id response s).1 k
        ≡ content s k
  settled-unchanged response_id response s h over k =
      let r = get (key identity response_id) s in
      let same = store.get-reply ttl (key identity response_id) s h in
      let over' = ap (λ o. settled (record_of o)) same ∙ over in
      unfold write_terminal_if_not_terminal read_record in
      ap (λ s'. content s' k) (end_turn-unchanged response_id response (record_of r.0) r.1 over')
      ∙ store.get-content ttl (key identity response_id) k s h

  -- So does ending a run whose record is deleted between the check and the write.
  pub deleted-unchanged :
      (response_id : String) (response : Fields) (parent : Option Position) (input : List Json)
      (s : State)
      → Lasting ttl s
      → content s (key identity response_id) ≡ none
      → (k : String)
      → content (store_turn store ttl identity response_id response parent input true s).1 k
        ≡ content s k
  deleted-unchanged response_id response parent input s h gone k =
      (store_turn-Same store ttl identity (content s) response_id response parent input true s
          (record { shows = λ j. refl; lasting = h })).shows
        k
      ∙ stored-missing identity (content s) response_id response parent input k gone
