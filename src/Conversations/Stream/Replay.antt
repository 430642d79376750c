-- ===== src/Conversations/Stream/Replay.antt =====
-- What is replayed of a run's events.
use modelship.Prelude.{
  ℕ, zero, suc, ◌+◌, String, ◌≡◌, refl, ap, ◌∙◌, Bool, true, false, Option, none, some, List, [],
  ◌∷◌, ◌++◌, arith, ltb, leb, str_eq_self, if◌then◌else◌, Bool-cases, inl, inr,
}
use modelship.Json.{Json, Fields, obj}
use modelship.State.Memory.{taken, values_in}
use modelship.State.Memory.Spec.{entries_in}
use modelship.State.Store.{StateStore}
use modelship.Conversations.Keys.{stream_key}
use modelship.Conversations.Stream.{
  ℤ, pos, negsuc, start_after, sequence_number, append_numbered, append_stream_event,
  read_stream_events_after, discard_stream_buffer,
}

-- whether a natural is greater than an integer
abbrev pub past : ℤ → ℕ → Bool
past (pos a) n = ltb a n
past (negsuc a) n = true

-- the events behind a number, of those that `before` replays and one more
abbrev pub replayed : Option ℕ → Bool → ℤ → Json → List Json → List Json
replayed none is_taken after event before = before
replayed (some n) is_taken after event before =
    if is_taken then before else if past after n then before ++ event ∷ [] else before

abbrev pub position_taken : Option ℕ → List (ℕ × Json) → Bool
position_taken none es = false
position_taken (some n) es = taken es (n + 1)

values_in-append :
    (start p : ℕ) (v : Json) (es : List (ℕ × Json))
    → values_in start none (es ++ (p, v) ∷ [])
      ≡ (if leb start p then values_in start none es ++ v ∷ [] else values_in start none es)
unfolding values_in
values_in-append start p v [] = ground arith
values_in-append start p v ((q, w) ∷ es) = rw (values_in-append start p v es) (ground arith)

-- an event's position is in range just when its number is past the one read after
start-past : (after : ℤ) (n : ℕ) → leb (start_after after) (n + 1) ≡ past after n
start-past (pos a) n = ground arith
start-past (negsuc zero) n = ground arith
start-past (negsuc (suc a)) n = ground arith

values_in-past :
    (after : ℤ) (n : ℕ) (v : Json) (es : List (ℕ × Json))
    → values_in (start_after after) none (es ++ (n + 1, v) ∷ []) ≡ (
        if past after n
        then values_in (start_after after) none es ++ v ∷ []
        else values_in (start_after after) none es)
values_in-past after n v es =
    rw (values_in-append (start_after after) (n + 1) v es, start-past after n)

nothing : (start : ℕ) → values_in {V = Json} start none [] ≡ []
unfolding values_in
nothing start = refl

module _ (store : StateStore Json) (ttl : ℕ) (identity : String) where
  open store use {State, append, content, Lasting}

  abbrev pub buffer : String → State → List (ℕ × Json)
  buffer response_id s = entries_in (content s (stream_key identity response_id))

  read-buffer :
      (response_id : String) (after : ℤ) (s : State)
      → Lasting (some ttl) s
      → (read_stream_events_after store ttl identity response_id after s).0
        ≡ values_in (start_after after) none (buffer response_id s)
  unfolding read_stream_events_after
  read-buffer response_id after s h = store.read_range-reply (some ttl) _ _ _ s h

  append-buffer :
      (response_id : String) (n : ℕ) (event : Fields) (s : State)
      → Lasting (some ttl) s
      → buffer response_id (append_numbered store ttl identity (some n) response_id event s).1 ≡ (
          if taken (buffer response_id s) (n + 1)
          then buffer response_id s
          else buffer response_id s ++ (n + 1, obj event) ∷ [])
  unfolding append_numbered
  append-buffer response_id n event s h =
      let k = stream_key identity response_id in
      elim (Bool-cases (taken (buffer response_id s) (n + 1))) [
        | inl i ↦ ap entries_in (store.append-content (some ttl) k (n + 1) (obj event) k s h) ∙ rw i
        | inr i ↦
            ap entries_in (store.append-content (some ttl) k (n + 1) (obj event) k s h)
            ∙ rw (i, str_eq_self)
      ]

  emptied :
      (response_id : String) (s : State)
      → Lasting (some ttl) s
      → content
          (discard_stream_buffer store ttl identity response_id s).1
          (stream_key identity response_id)
        ≡ none
  unfolding discard_stream_buffer
  emptied response_id s h =
      let k = stream_key identity response_id in
      store.delete-content (some ttl) k k s h ∙ rw str_eq_self

  discard-Lasting :
      (response_id : String) (s : State)
      → Lasting (some ttl) s
      → Lasting (some ttl) (discard_stream_buffer store ttl identity response_id s).1
  unfolding discard_stream_buffer
  discard-Lasting response_id s h =
      store.delete-Lasting (some ttl) (stream_key identity response_id) s h

  numbered-replayed :
      (number : Option ℕ) (response_id : String) (after : ℤ) (event : Fields) (s : State)
      → Lasting (some ttl) s
      → (read_stream_events_after store ttl identity response_id after
          (append_numbered store ttl identity number response_id event s).1).0
        ≡ replayed number
            (position_taken number (buffer response_id s))
            after
            (obj event)
            (read_stream_events_after store ttl identity response_id after s).0
  numbered-replayed none response_id after event s h = unfold append_numbered in refl
  numbered-replayed (some n) response_id after event s h =
      read-buffer response_id after _ lasting
      ∙ ap (values_in (start_after after) none) (append-buffer response_id n event s h)
      ∙ elim (Bool-cases (taken (buffer response_id s) (n + 1))) [
        | inl i ↦ rw (i, read-buffer response_id after s h)
        | inr i ↦
            rw (i, read-buffer response_id after s h)
              (values_in-past after n (obj event) (buffer response_id s))
      ]
    where
      lasting :
          Lasting (some ttl) (append_numbered store ttl identity (some n) response_id event s).1
      lasting =
          unfold append_numbered in
          store.append-Lasting (some ttl) (stream_key identity response_id) (n + 1) (obj event) s h

  -- While nothing expires, buffering an event adds it at the end of what is replayed after a number,
  -- negative or not, if its own is greater; nothing is added for an event without a number, or whose number is not
  -- past the last one buffered.
  pub append_stream_event-replayed :
      (response_id : String) (after : ℤ) (event : Fields) (s : State)
      → Lasting (some ttl) s
      → (read_stream_events_after store ttl identity response_id after
          (append_stream_event store ttl identity response_id event s).1).0
        ≡ replayed
            (sequence_number event)
            (position_taken (sequence_number event) (buffer response_id s))
            after
            (obj event)
            (read_stream_events_after store ttl identity response_id after s).0
  append_stream_event-replayed response_id after event s h =
      unfold append_stream_event in
      numbered-replayed (sequence_number event) response_id after event s h

  -- While nothing expires, nothing is replayed once a buffer is discarded.
  pub discard_stream_buffer-empty :
      (response_id : String) (after : ℤ) (s : State)
      → Lasting (some ttl) s
      → (read_stream_events_after store ttl identity response_id after
          (discard_stream_buffer store ttl identity response_id s).1).0
        ≡ []
  discard_stream_buffer-empty response_id after s h =
      read-buffer response_id after _ (discard-Lasting response_id s h)
      ∙ ap (λ o. values_in (start_after after) none (entries_in o)) (emptied response_id s h)
      ∙ nothing (start_after after)
