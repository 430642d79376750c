-- ===== src/Conversations/Tests.antt =====
-- Conversations over the memory store, at concrete inputs.
use modelship.Prelude.{
  ℕ, ◌≤◌, All, leb, leb→le, String, ◌≡◌, ◌≢◌, refl, true, false, none, some, List, [], ◌∷◌, arith,
  eq_iff,
}
use modelship.Json.{
  int, Json, Fields, str, obj, end, field, list_json, of_list, field_of, with_field, as_arr,
}
use modelship.Text.{NoSlash}
use modelship.Dict.{get as dict_get, put as dict_put, remove as dict_remove}
use modelship.State.Memory
use modelship.State.Memory.{Stored, Memory}
use modelship.State.Clocked.{Clocked, content}
use modelship.State.Clocked
use modelship.State.Clocked.Lasting.{Lasts}
use modelship.State.Clocked.Instance.{store}
use modelship.Conversations.Keys.{stream_key, key, log_key}
use modelship.Conversations.Heartbeats.{
  Call, beats, asks, req_id, after_calls, last_within, req_id-last_within,
}
use modelship.Conversations.Stream.{
  pos, negsuc, sequence_number, append_numbered, append_stream_event, read_stream_events_after,
  discard_stream_buffer,
}
use modelship.Conversations.Stream.Replay.{
  replayed, position_taken, buffer, append_stream_event-replayed, discard_stream_buffer-empty,
}
use modelship.Conversations.Settings.{Setting, ttl_seconds, ttl_seconds_day}
use modelship.Conversations.Records.{
  Position, Entry, entry, entries_of, record_of, list_at, position, position_json,
}
use modelship.Conversations.History.{out_of_fuel, found, entries, base_of, round, round_from}
use modelship.Conversations.History.Termination.{entries-ne-out_of_fuel}
use modelship.Conversations.History.Chain.{Chain, root, held_at, log_at, Ascending}
use modelship.Conversations.History.Reads.{Same, entries-found}
use modelship.Conversations.Turns.{
  with_ids, id_prefix, prefix_of, output_of, entry_fields, record_fields, ours, forked,
  terminal_status, put_turn, after_refusal, store_turn, write, write_terminal_if_not_terminal,
}
use modelship.Conversations.Turns.Content.{next_position, taken_at}
use modelship.Conversations.Turns.Keeps.{
  store_turn-keeps, store_turn-Ascending, store_turn-isolated,
}
use modelship.Conversations.Turns.Writes.{ReadBack, write-first, write-continues}
use modelship.Conversations.Turns.Terminal.{settled, settled-unchanged, deleted-unchanged}

program : Unit {0}
unfolding Memory.init Memory.get Memory.set Memory.delete Memory.append Memory.append_and_set
    Memory.missing Memory.read_range Memory.expire Clocked.get Clocked.set Clocked.append_and_set
    Clocked.read_range Clocked.expire dict_get dict_put dict_remove list_json of_list field_of
    with_field as_arr key log_key entry entries_of record_of list_at position position_json base_of
    round round_from held_at with_ids id_prefix prefix_of output_of entry_fields record_fields ours
    forked terminal_status put_turn after_refusal store_turn write
program = tt

-- an empty store whose clock stands still
abbrev empty : Clocked Json
empty = record {
  memory = record { table = []; last_sweep = 0; sweep_interval = 300 };
  clock = λ n. 0;
  tick = 0;
}

abbrev uuids : ℕ → String
uuids n = "id"

abbrev hello : List Json
hello = obj (field "type" (str "message") (field "role" (str "user") end)) ∷ []

abbrev answer : Fields
answer =
    field "status" (str "completed")
      (field "output" (list_json (obj (field "type" (str "message") end) ∷ [])) end)

abbrev first : Position
first = record { log = "r1"; depth = 1 }

abbrev after : Clocked Json
after = (write store none "u" uuids "r1" answer none hello empty).1

abbrev turn : Entry
turn = record {
  input = with_ids uuids hello;
  output = obj (field "type" (str "message") end) ∷ [];
  fields = entry_fields "r1" (with_ids uuids hello) (output_of answer);
}

ttl_seconds_day_example : 86400 ≤ 86400
ttl_seconds_day_example = ttl_seconds_day (Setting.number 5) 86400 (unfold ttl_seconds in refl)

entries-ne-out_of_fuel_example : (entries store none "u" first after).0 ≢ out_of_fuel
entries-ne-out_of_fuel_example = entries-ne-out_of_fuel store none "u" first after

empty-Lasts : Lasts none empty
empty-Lasts = record {
  distinct = tt;
  monotone = λ m n le. omega arith;
  steady = λ k n le. refl;
  lifetime = tt;
}

empty-Ascending : Ascending (content empty)
unfolding program
empty-Ascending k = tt

after-Lasts : Lasts none after
unfolding program
after-Lasts = record {
  distinct = (refl, (refl, tt));
  monotone = λ m n le. omega arith;
  steady = λ k n le. refl;
  lifetime = tt;
}

turn-Chain : Chain (content after) "u" first (turn ∷ [])
unfolding program
turn-Chain = root first (turn ∷ []) refl refl

u-NoSlash : NoSlash "u"
u-NoSlash = omega arith

v-NoSlash : NoSlash "v"
v-NoSlash = omega arith

empty_log : log_at (content empty) "u" "r1" ≡ []
unfolding program
empty_log = refl

no_second : log_at (content after) "u" "r2" ≡ []
unfolding program
no_second = refl

free : ours "r2" (taken_at "u" (content after) (next_position first)) ≡ false
unfolding program
free = refl

over : settled (record_of (content after (key "u" "r1"))) ≡ true
unfolding program settled
over = refl

missing : content after (key "u" "r9") ≡ none
unfolding program
missing = refl

entries-found_example :
    ((entries store none "u" first after).0 ≡ found (turn ∷ []))
    × Same store none "u" (content after) (entries store none "u" first after).1
entries-found_example =
    entries-found store none "u" (content after) first (turn ∷ []) after
      (record { shows = λ k. refl; lasting = after-Lasts }) turn-Chain

-- a second turn behind the first
abbrev second : Clocked Json
second = (store_turn store none "u" "r2" answer (some first) hello false after).1

after-Ascending : Ascending (content after)
after-Ascending =
    unfold write in
    (store_turn-Ascending store none "u" "r1" answer none (with_ids uuids hello) false empty
      empty-Lasts empty-Ascending)

store_turn-keeps_example : Chain (content second) "u" first (turn ∷ [])
store_turn-keeps_example =
    store_turn-keeps store none "u" "r2" answer (some first) hello false after after-Lasts
      after-Ascending "u" first (turn ∷ []) turn-Chain

store_turn-isolated_example :
    (content second (key "v" "r2") ≡ content after (key "v" "r2"))
    × (content second (log_key "v" "r2") ≡ content after (log_key "v" "r2"))
store_turn-isolated_example =
    store_turn-isolated store none "u" "r2" answer (some first) hello false after "v" "r2"
      after-Lasts u-NoSlash v-NoSlash (λ e. ground (arith, e, eq_iff "u" "v"))

write-first_example : ReadBack store none "u" "r1" answer [] (with_ids uuids hello) after
write-first_example = write-first store none "u" uuids "r1" answer hello empty empty-Lasts empty_log

write-continues_example :
    ReadBack store none "u" "r2" answer
      (turn ∷ [])
      (with_ids uuids hello)
      (write store none "u" uuids "r2" answer (some first) hello after).1
write-continues_example =
    write-continues store none "u" uuids "r2" answer hello after after-Lasts no_second first
      (turn ∷ []) after-Ascending turn-Chain free

settled-unchanged_example :
    content (write_terminal_if_not_terminal store none "u" "r1" answer after).1 "k"
    ≡ content after "k"
settled-unchanged_example = settled-unchanged store none "u" "r1" answer after after-Lasts over "k"

deleted-unchanged_example :
    content (store_turn store none "u" "r9" answer none hello true after).1 "k" ≡ content after "k"
deleted-unchanged_example =
    deleted-unchanged store none "u" "r9" answer none hello after after-Lasts missing "k"

-- the first event of a run, buffered for ten minutes and read after -1
abbrev event : Fields
event = field "sequence_number" (int 0) end

empty-Lasts_buffer : Lasts (some 600) empty
empty-Lasts_buffer = record {
  distinct = tt;
  monotone = λ m n le. omega arith;
  steady = λ k n le. refl;
  lifetime = λ m n. omega arith;
}

append_stream_event-replayed_example :
    (read_stream_events_after store 600 "u" "r1"
      (negsuc 0)
      (append_stream_event store 600 "u" "r1" event empty).1).0
    ≡ replayed
        (sequence_number event)
        (position_taken (sequence_number event) (buffer store 600 "u" "r1" empty))
        (negsuc 0)
        (obj event)
        (read_stream_events_after store 600 "u" "r1" (negsuc 0) empty).0
append_stream_event-replayed_example =
    append_stream_event-replayed store 600 "u" "r1" (negsuc 0) event empty empty-Lasts_buffer

abbrev buffered : Clocked Json
buffered = (append_stream_event store 600 "u" "r1" event empty).1

-- read after -1, event 0 is replayed; read after 0, it is not
first_event :
    ((read_stream_events_after store 600 "u" "r1" (negsuc 0) buffered).0 ≡ obj event ∷ [])
    × ((read_stream_events_after store 600 "u" "r1" (pos 0) buffered).0 ≡ [])
unfolding program Clocked.append append_stream_event append_numbered sequence_number stream_key
    read_stream_events_after
first_event = (refl, refl)

buffered-Lasts : Lasts (some 600) buffered
unfolding append_stream_event append_numbered sequence_number field_of
buffered-Lasts =
    store.append-Lasting (some 600) (stream_key "u" "r1") 1 (obj event) empty empty-Lasts_buffer

discard_stream_buffer-empty_example :
    (read_stream_events_after store 600 "u" "r1"
      (negsuc 0)
      (discard_stream_buffer store 600 "u" "r1" buffered).1).0
    ≡ []
discard_stream_buffer-empty_example =
    discard_stream_buffer-empty store 600 "u" "r1" (negsuc 0) buffered buffered-Lasts

abbrev heartbeats : List (ℕ × Call)
heartbeats = (20, asks "u/r2") ∷ (12, beats "u/r1" "req_b") ∷ (0, beats "u/r1" "req_a") ∷ []

up_to_now : All (λ c. c.0 ≤ 21) heartbeats
up_to_now = (the_past 20 refl, (the_past 12 refl, (the_past 0 refl, tt)))
  where
    the_past : (n : ℕ) → leb n 21 ≡ true → n ≤ 21
    the_past n h = leb→le n 21 h

req_id-last_within_example :
    (req_id 21 "u/r1" (after_calls 10 heartbeats)).0 ≡ last_within 10 21 "u/r1" heartbeats
req_id-last_within_example = req_id-last_within 10 21 "u/r1" heartbeats up_to_now

alive_at : (req_id 21 "u/r1" (after_calls 10 heartbeats)).0 ≡ some "req_b"
unfolding req_id after_calls
alive_at = refl

over_at : (req_id 22 "u/r1" (after_calls 10 heartbeats)).0 ≡ none
unfolding req_id after_calls
over_at = refl
