-- ===== src/Lib.antt =====
-- memory-bridge: the shared bridge between a coding agent and a memory backend.
--
-- The agent (shared-bridge/src/shared_bridge/agent.py) drives one backend per instance. The
-- backend (shared-bridge/src/shared_bridge/backend.py) keeps all the counters, schedules, caches
-- and breakers, calls an integration's search and extraction through a few hooks, and reports
-- what it does to an annotation recorder over HTTP (shared-bridge/src/shared_bridge/annotate.py).
-- Its configuration is shared-bridge/src/shared_bridge/config.py.
--
-- Three integrations stand on it, each under integration/: cure_memory is a store of its own over
-- SQLite, with an extractor and a search; mem0 reaches a hosted platform, a server of its own or the
-- engine in the process through one interface of a store; tencentdb has a client of its gateway. The
-- scripts under utils/ merge what the runs leave.
--
-- Files and what they model
--   Base/Lists, Base/Members, Base/Strings, Base/Sublists, Base/Tests: lists and texts over the
--     native numbers. A text is the list of its code points, as Python slices it.
--   Shared/Truncate: _truncate and the per-line recall caps of backend.py.
--   Shared/Ids: _new_session_id, _origin_instance, _repo_of, effective_user_id,
--     _sanitize_error_code.
--   Shared/Chunk: _chunk_events; Shared/Chunk/Batches its batches.
--   Shared/Config: the fields of MemoryConfig that the modelled code reads, and the validator
--     _validate_identity_and_output.
--   Shared/Integration: the rendering hooks a backend class overrides, as a record; every model of
--     the backend takes it as an argument.
--   Shared/Recall: the floor, the slice and the rank-then-fill loop inside recall_context;
--     Shared/Recall/Raised: where its hooks raise; Shared/Recall/Budget and Shared/Recall/Order are
--     about its bounds and its order.
--   Shared/Annotate: PostResult and Annotator (attempts, retries, the breaker, durations);
--     Shared/Annotate/Breaker is about sequences of requests.
--   Shared/Backend/State: the fields of BaseMemoryBackend and of its trace objects, the event log,
--     _mark_store_changed.
--   Shared/Backend/Trace: the search half of the annotation protocol (_bind_start_result,
--     _recall_search, _search_finish, _recall_rendered).
--   Shared/Backend/Recall: recall_context with its cache; Shared/Backend/Recall/Cache is about it.
--   Shared/Backend/Extract: maybe_extract, _extract and the extraction breaker;
--     Shared/Backend/Extract/Schedule and Shared/Backend/Extract/Breaker are about them.
--   Shared/Backend/Generation: _post_generation and _abandon_operation;
--     Shared/Backend/Generation/Closing is about the posts.
--   Shared/Backend/Generation/Lifecycle: _generation_begin, _generation_finish and
--     _generation_finish_exception.
--   Shared/Backend/Generation/Diff: _change_payload and the generic _attribute_changes;
--     Shared/Backend/Generation/Faithful is about it.
--   Shared/Backend/Rewrite: maybe_rewrite and _rewrite_query; Shared/Backend/Rewrite/Outcomes is
--     about what a tick leaves.
--   Shared/Backend/Delivery: main_lane_cursor, deliver_recall, note_recall,
--     consume_annotation_duration; Shared/Backend/Delivery/Once and
--     Shared/Backend/Delivery/Refusals are about sequences of them.
--   Shared/Backend/Record: record and _message_text; Shared/Backend/Record/Bounded is about them.
--   Shared/Backend/Finalize: finalize and stats; Shared/Backend/Finalize/Dormant and
--     Shared/Backend/Finalize/Contained are about the backend's operations together.
--   Shared/Backend/Start: start, _resolve_rewrite_settings, _trace_setup and set_task;
--     Shared/Backend/Start/Fresh is about the cache after a change, Shared/Backend/Start/Failed about
--     a start that fails.
--   Shared/Json: JSON values; Shared/SideModel: call_structured and the envelope RewrittenQuery of
--     shared-bridge/src/shared_bridge/side_model.py; Shared/SideModel/Envelope is about them.
--   Cure/Model: the records of integration/cure_memory/src/cure_memory/models.py.
--   Cure/Db, Cure/Store: SQLiteMemoryStore of store.py there: its two tables, its statements, and
--     their commits, rollbacks and atomic blocks; Cure/Store/Atomic is about a block as a unit.
--   Cure/System: the upsert and the replacement of CUREMemorySystem, system.py there;
--     Cure/System/Slots and Cure/System/Unique are about the active rows of a slot.
--   Cure/Session: sessions, recording and the extraction with its checkpoints;
--     Cure/Session/Checkpoint is about them.
--   Cure/Search: memory_search and memory_add; Cure/Search/Ranked is about the results.
--   Cure/Client: ChatGPTMemoryDecisionClient: the call with its retries, and the validation of the
--     decision; Cure/Client/Sound is about its result, Cure/Client/Escaped about the exceptions that
--     leave it.
--   Cure/Extractor, Cure/Extractor/Candidate: BasicMemoryExtractor.extract and what it calls;
--     Cure/Extractor/Admitted and Cure/Extractor/Screened are about what it lets through.
--   Cure/Bridge: _perform_extraction of integration/cure_memory/src/cure_memory_bridge/backend.py, which
--     joins the shared backend, its generation tracing and the CURE system; Cure/Bridge/Ticks is about
--     a tick.
--   Shared/Poll: the polling loop that the two clients share; it runs on fuel.
--   Mem0/Client, Mem0/Client/Calls: Mem0PlatformClient and the plumbing of
--     integration/mem0/src/mem0_bridge/client.py; Mem0/Client/Added is about an add.
--   Mem0/Stores: the interface of a store and the server mode (stores/__init__.py and
--     stores/server.py there); Mem0/Stores/Library: stores/library.py over an engine that is an
--     argument; Mem0/Stores/Platform: the listing of stores/platform.py, with
--     Mem0/Stores/Platform/Listing about its walk; Mem0/Stores/Drift is about bodies without the
--     expected shape.
--   Mem0/Settings: _resolve_settings and _embedding_quartet of
--     integration/mem0/src/mem0_bridge/backend.py, without the polling settings that it copies;
--     Mem0/Settings/Usable is about settings that resolve.
--   Mem0/Hits: the mem0 integration of integration/mem0/src/mem0_bridge/backend.py: what it reads off
--     a hit. Mem0/Bridge: its recording, extraction tick and search; Mem0/Bridge/Flushed is about a
--     tick, Mem0/Bridge/Heard about recording, Mem0/Bridge/Kept about sequences of both.
--     Mem0/Bridge/Receipts: its snapshot, the attribution of changes and their audit;
--     Mem0/Bridge/Receipts/Keyed and Mem0/Bridge/Receipts/Explained are about them.
--   TencentDb/Utf16, TencentDb/Client, TencentDb/Client/Calls: TencentDBClient of
--     integration/tencentdb/src/tencentdb_bridge/client.py; TencentDb/Client/Chunks,
--     TencentDb/Client/Paged and TencentDb/Client/Idle are about the chunked add, the paginated query
--     and the wait.
--   Utils/Merge: utils/merge_predictions.py; Utils/Merge/Models and Utils/Merge/Gated are about its
--     gate.
--   Shared/Agent: query and step of agent.py; Shared/Agent/Transient is about the messages,
--     Shared/Agent/Accounting about the recall counters.
--   The Frame files say which fields an operation leaves alone.
--   Tests: concrete configurations, integrations and networks, and the results applied to them.
--
-- How state and errors correspond
--   A statement of the CURE store is an action on its state, which comes back beside a failure: which
--   statements fail is an argument, a commit does not fail, and the database has a committed and a
--   working value. Time stamps are numbers; JSON values that are only carried are kept as texts.
--   A method of BaseMemoryBackend is a function from the state record to the state record and the
--   method's result. An exception of the integration is a value of the result type, and the
--   containing `try` is a match on it; under `strict` the result says that the call raised. A hook on
--   a hit has a value and, where it raises, an exception; the hooks on a message's text and role and
--   _recall_query return. The
--   event log is kept as the list of the entries appended. Sessions' clocks, locks and the logger
--   have no effect on the modelled fields and are left out, except the durations that are counted.
--
-- Bounds
--   Numbers are the natural numbers, as Python's integers here are never negative. The fuels of an
--   annotation request and of a decision call are the retries, which the code fixes itself. The fuel of
--   a polling loop is a number of requests: one for each unit of the budget and one more are enough
--   where the sleeps last as long as they are asked to. The fuel of a listing is a number of pages. The
--   chunks of an add are cut on fuel for its messages.
--
-- Arguments of the model
--   In the shared backend, the integration's search, extraction, start, storing, dump, close, snapshot
--   and audit hooks; the agent framework's query and step, the answers of the mem0 platform, of its
--   server and of the TencentDB gateway by the number of requests before, the engine of mem0ai, the
--   monotonic clock of a polling loop, the side model's answer, the network's reply to the k-th
--   attempt, the write of memory.json, the JSON size of an event, the JSON text of a message's
--   actions, Python's isdigit, lower casing, float and int, the hexadecimal digits of a uuid,
--   json.loads, the environment and the regular expressions are arguments. Where a result needs
--   something of them, it is a named hypothesis.
--
-- Not modelled
--   The settings dictionary of memory.json, the resolution of annotation URLs, the agent's run and
--   serialization, the HTTP endpoints, the prompts, the request that the CURE extractor builds with its
--   policy hints, the rest of the CURE bridge, the final dump and end context of the mem0 bridge,
--   the TencentDB backend over its client, and the other scripts under utils/. The state
--   that a store has after a listing for a snapshot is not kept, since a snapshot is a reading of the
--   backend.

pub mod Base
pub mod Shared
pub mod Cure
pub mod Mem0
pub mod TencentDb
pub mod Utils
mod Tests
