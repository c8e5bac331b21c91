-- ===== src/Shared/Backend/Start.antt =====
-- The start of an episode, shared-bridge/src/shared_bridge/backend.py: `start`,
-- `_resolve_rewrite_settings`, `_trace_setup` and `set_task`. The integration's `_resolve_settings`
-- with its `_startup`, `_reset_extras`, `_close` and the write of memory.json are arguments, and so
-- is whether both annotation endpoints resolve and agree.
pub mod Fresh
pub mod Failed
use memory_bridge.Base.{
  ℕ, ◌+◌, Bool, true, false, ◌&&◌, ◌||◌, not, List, [], ◌∷◌, Option, none, some, Str, codes,
  if◌then◌else◌, ltb, is_empty,
}
use memory_bridge.Shared.Config.{MemoryConfig}
use memory_bridge.Shared.Integration.{Integration}
use memory_bridge.Shared.Annotate.{Net, new_annotator}
use memory_bridge.Shared.Backend.State.{
  main, memory, task, Exn, Outcome, returned, raised, start, error, started, zero_counts,
  AnnotationEvent, memory_session, memory_role_bind, TraceState, Backend, log_event,
}
use memory_bridge.Shared.Backend.Trace.{post_to}

-- The rewriter's connection: off, resolved, or incomplete.
pub data Rewriting : Type 0 where
  rewriting_off : Rewriting
  rewriting_on : Rewriting
  incomplete : Rewriting

-- `_BackendUnavailable` of `_resolve_rewrite_settings`
abbrev pub incomplete_rewrite_settings : Exn
incomplete_rewrite_settings = record {
  class_name = codes "_BackendUnavailable";
  message =
      codes
        "incomplete rewrite settings with rewrite_every_n_steps > 0: need model/base_url/api_key via agent.memory.rewrite_* or the MEMORY_QUERY_MODEL/MEMORY_QUERY_MODEL_URL/MEMORY_QUERY_API_KEY env";
}

-- From the interval, and the rewriter's model, URL and key.
unfoldable pub resolve_rewrite_settings : ℕ → Str → Str → Str → Rewriting
resolve_rewrite_settings interval model base_url api_key =
    if not (ltb 0 interval)
    then rewriting_off
    else if is_empty model || is_empty base_url || is_empty api_key
    then incomplete
    else rewriting_on

-- The trace of a session that is not open yet.
abbrev pub new_trace : {I : Integration} → TraceState I
new_trace = record {
  annotator = new_annotator;
  trace_session_id = none;
  session_open = false;
  memory_lane_enabled = true;
  delivery_enabled = true;
  pending_inputs = [];
  pending_search = none;
  outbox = [];
}

module _ {I : Integration} where
  -- The reset of `start`: the task, the id counter and what the integration keeps are left.
  unfoldable pub reset : (I.Native → I.Native) → Backend I → Backend I
  reset reset_extras b = record {
    available = false;
    session_id = none;
    task_text = b.task_text;
    current_query = none;
    query_source = task;
    search_dirty = true;
    cached_recall = none;
    cached_anchor = none;
    events = [];
    counts = zero_counts;
    last_extract_bucket = 0;
    consecutive_errors = 0;
    extract_breaker = false;
    finalized = false;
    trace = none;
    io_duration = 0;
    recent_messages = [];
    last_rewrite_bucket = 0;
    rewrite_enabled = false;
    rewrite_consecutive_errors = 0;
    rewrite_breaker = false;
    next_id = b.next_id;
    native = reset_extras b.native;
  }

  unfoldable pub open_trace : Option (TraceState I) → Option (TraceState I)
  open_trace none = none
  open_trace (some t) = some (record t { session_open = true })

  -- The end of `set_task`: the session is open, or tracing stops.
  unfoldable pub open_session : Bool → Backend I → Backend I
  open_session accepted b = record b { trace = if accepted then open_trace b.trace else none }

module _ {I : Integration} (c : MemoryConfig I.Score) where
  -- `_trace_setup`: a trace where annotation is on and both endpoints resolve.
  unfoldable pub trace_setup : Bool → Backend I → Backend I
  trace_setup endpoints b =
      if c.annotate && endpoints then record b { trace = some new_trace } else b

  -- The success half of `start`.
  unfoldable pub begin_episode : Bool → Bool → Backend I → Backend I
  begin_episode endpoints rewrites b =
      trace_setup endpoints (
        log_event (started b.session_id)
          (record b { rewrite_enabled = rewrites; available = true }))

  -- The `except` of `start`.
  unfoldable pub start_failed :
      (Backend I → Outcome × Backend I) → Exn → Backend I → Outcome × Backend I
  start_failed close e b =
      let b' = log_event (error start none e.message) (record b { available = false }) in
      (if c.strict then raised e else returned, (close b').1)

  -- After `_startup`.
  unfoldable pub settle_rewrite :
      (Backend I → Outcome × Backend I) → Bool → Rewriting → Backend I → Outcome × Backend I
  settle_rewrite close endpoints rewriting_off b = (returned, begin_episode endpoints false b)
  settle_rewrite close endpoints rewriting_on b = (returned, begin_episode endpoints true b)
  settle_rewrite close endpoints incomplete b = start_failed close incomplete_rewrite_settings b

  unfoldable pub settle_startup :
      (Backend I → Outcome × Backend I)
      → Bool
      → Rewriting
      → Outcome × Backend I
      → Outcome × Backend I
  settle_startup close endpoints connection (returned, b) =
      settle_rewrite close endpoints connection b
  settle_startup close endpoints connection (raised e, b) = start_failed close e b

  unfoldable pub start_backend :
      (I.Native → I.Native)
      → (Backend I → Outcome × Backend I)
      → (Backend I → Outcome × Backend I)
      → Bool
      → Rewriting
      → Backend I
      → Outcome × Backend I
  start_backend reset_extras close startup endpoints connection b =
      settle_startup close endpoints connection (startup (reset reset_extras (close b).1))

module _ {I : Integration} (c : MemoryConfig I.Score) (net : Net)
    (serializable : List (AnnotationEvent I) → Bool) where
  bind_memory : ℕ → Option (TraceState I) → Backend I → Bool × Backend I
  bind_memory id none b = (false, b)
  bind_memory id (some t) b =
      let (result, b') = post_to c net serializable memory (memory_role_bind id memory ∷ []) t b in
      (result.ok, b')

  -- The two posts that open the trace session.
  unfoldable pub announce : Str → TraceState I → Backend I → Backend I
  unfolding bind_memory
  announce text t b =
      let id = b.next_id in
      let session = memory_session id text in
      let (result, b') =
        post_to c net serializable main (session ∷ memory_role_bind id main ∷ [])
          (record t { trace_session_id = some id }) (record b { next_id = id + 1 }) in
      let (accepted, b'') = bind_memory id b'.trace b' in
      if result.ok then open_session accepted b'' else open_session false b'

  announce_on : Str → Option (TraceState I) → Backend I → Backend I
  announce_on text none b = b
  announce_on text (some t) b = if b.available then announce text t b else b

  unfoldable pub set_task : Str → Backend I → Backend I
  unfolding announce_on
  set_task text b = announce_on text b.trace (record b {
    task_text = some text;
    current_query = some text;
    query_source = task;
    cached_recall = none;
    cached_anchor = none;
    search_dirty = true;
  })
