-- ===== src/Conversations/Stream.antt =====
-- modelship/openai/state/responses.py: the event buffer of a background run. `ttl` is what
-- `stream_buffer_ttl_seconds()` returns. The numbers of events are naturals, as the positions they
-- give; the number after which events are read is any `int`, as its callers start from -1.
pub mod Replay
use modelship.Prelude.{ℕ, zero, suc, ◌+◌, String, Option, none, some, List}
use modelship.Json.{Json, Fields, obj, field_of, as_int}
use modelship.State.Store.{StateStore, Action, ◌>>=◌, ◌>>◌, pure}
use modelship.Conversations.Keys.{stream_key}
use modelship.Conversations.Records.{bind}

-- `event.get("sequence_number")`, where it is a number
unfoldable pub sequence_number : Fields → Option ℕ
unfolding field_of
sequence_number event = bind (field_of "sequence_number" event) as_int

-- an `int`; `negsuc n` is -(n + 1)
pub data ℤ : Type 0 where
  pos : ℕ → ℤ
  negsuc : ℕ → ℤ

-- `after_sequence + 2`, with 0 for every negative sum: positions are naturals
abbrev pub start_after : ℤ → ℕ
start_after (pos n) = n + 2
start_after (negsuc zero) = 1
start_after (negsuc (suc n)) = 0

module _ (store : StateStore Json) (ttl : ℕ) (identity : String) where
  open store use {State, append, read_range, delete}

  unfoldable pub append_numbered : Option ℕ → String → Fields → Action State (Unit {0})
  append_numbered none response_id event = pure tt
  append_numbered (some n) response_id event = do
    append (stream_key identity response_id) (n + 1) (obj event) (some ttl)
    pure tt

  -- `append_stream_event`
  unfoldable pub append_stream_event : String → Fields → Action State (Unit {0})
  append_stream_event response_id event = append_numbered (sequence_number event) response_id event

  -- `read_stream_events_after`
  unfoldable pub read_stream_events_after : String → ℤ → Action State (List Json)
  read_stream_events_after response_id after_sequence =
      read_range (stream_key identity response_id) (start_after after_sequence) none

  -- `discard_stream_buffer`
  unfoldable pub discard_stream_buffer : String → Action State (Unit {0})
  discard_stream_buffer response_id = delete (stream_key identity response_id)
