-- ===== src/Lib.antt =====
-- modelship: a verification library for the state kept by a cluster of model servers.
--
-- modelship serves models on Ray behind an OpenAI-compatible gateway. Of its parts, these are modelled.
-- The state store (modelship/state) holds JSON documents and append-only logs under slash-separated
-- keys, with expiry. The conversations of /v1/responses (modelship/openai/state/responses.py) are
-- written to it: one record per response, and the turns' items in logs that fork when two turns
-- continue the same parent. A request to /v1/responses becomes a chat request before a model's loader
-- runs it, and the chunks of its answer become a stream of events
-- (modelship/openai/protocol/responses). The deploy side (modelship/deploy) keeps each gateway's
-- versions in the state store. Its deploy coordinator queues the requests that change a gateway, asks
-- diff.py what each changes, and leases nodes to replicas that load; its gateway coordinator computes
-- the tables by which gateway replicas route, and tells when they hold a version.
--
-- The files, and the code that they model:
--   Prelude, Text, Dict, Json   shared names; lists and numbers; strings split at slashes; Python's
--                               insertion-ordered dict; JSON values
--   State/Prefix                modelship/state/base.py, normalize_prefix, and the test of prefixes in
--                               the list of modelship/state/memory.py. Text/Prefixes has its lemmas
--   State/Memory                modelship/state/memory.py, MemoryStoreActor: each method is a function
--                               of the state and of the time that time.time() returned. Spec is the
--                               abstract store (a function of key and time), Refinement relates the
--                               two, Logs and Listing are about positions in logs and about list
--   State/Store                 modelship/state/base.py, StateStore: the operations that clients use,
--                               with laws for what they promise while nothing expires
--   State/Clocked               the memory store with a clock, as an instance of State/Store
--   Conversations/Keys,         modelship/openai/state/responses.py: the keys, the settings, the
--   Settings, Records           shapes that records and entries must have
--   Conversations/History       _entries, _read_record, read_async, input_items_async
--   Conversations/Turns         _store_turn and its callers: write_async, delete_async,
--                               write_background, write_terminal_if_not_terminal
--   Conversations/Heartbeats    _HeartbeatStore and HeartbeatRegistry
--   Conversations/Stream        append_stream_event, read_stream_events_after, discard_stream_buffer
--   Responses/Content,          modelship/openai/protocol/responses/adapter.py: messages_from_input and
--   Messages, Tools, Chat,      what it calls, the tools, the chat request, build_response_object. The
--   Envelope, Result            keyword arguments of ChatCompletionRequest are the result of the last;
--                               the decryption of a compaction item is a parameter
--   Responses/Stream            modelship/openai/protocol/responses/streaming.py:
--                               ResponsesStreamTranslator. Channels has the three channels, Translate
--                               start, process, finish and fail, Frames the framing and the failure
--                               events. The state holds the events yielded so far
--   Deploy/Ledger               modelship/deploy/ledger.py: read_versions, commit_version;
--                               Deploy/Ledger/Merge: merge
--   Deploy/Leases               modelship/deploy/deploy_coordinator.py: the deploy leases, acquire,
--                               _release and _check_leases. What other calls do while acquire awaits the
--                               store is an argument
--   Deploy/Deaths               the same file: report_replica_death, crash_looping, forget_deaths
--   Deploy/Requests             the same file: submit, wait, cancel, is_cancelled, rolling_back, switch,
--                               commit, reset_routing, routing_versions, _drain and _apply. Steps is the
--                               relation of any such calls, each cut at its awaits
--   Deploy/Routing              modelship/deploy/gateway_coordinator.py: _publish and _bump
--   Deploy/Diff                 modelship/deploy/diff.py: _decide; Deploy/Diff/Build: build_diff and
--                               Diff.lines, without the texts of the steps
--   Deploy/Router               modelship/deploy/request_router.py: choose_replicas
--   Deploy/Tables               modelship/deploy/routing.py
--   Deploy/Replicas             modelship/deploy/gateway_coordinator.py: the replicas' reports, get_routing,
--                               wait_for_change, _switched, _fresh_reports, _fetch_versions, _compute
--
-- Time and numbers. Times, lifetimes and positions are natural numbers, where Python has floats and
-- unbounded integers; the number after which stream events are read is an integer; JSON numbers other than naturals, and floats, are left out. A sweep interval of 0
-- stands for any that disables sweeping. Values are immutable here, which is what the deep copies of
-- the memory store provide.
--
-- Fuel. The loop of _entries runs on fuel, one more than the depth asked for, which is enough because
-- each round goes on at a smaller depth.
--
-- The conversation theorems hold over any StateStore whose laws hold, for calls during which nothing
-- stored expires (Lasting). The calls of one function run without another client's in between, except
-- where a theorem speaks of any state that such calls could leave.
--
-- Not modelled: the Redis backend and the instrumented wrapper of modelship/state (I/O), the actors'
-- RPC, the serving of models (modelship/infer), the HTTP API, pydantic's validation, MCP, the
-- preflight checks, the launcher and the command line; of modelship/deploy, the texts of a diff's steps,
-- the recovery at start-up and the worker. The readback of stored leases (_load_leases) only sets the
-- state that the lease operations start from.
pub mod Prelude
pub mod Text
pub mod Dict
pub mod Json
pub mod State
pub mod Conversations
pub mod Responses
pub mod Deploy
