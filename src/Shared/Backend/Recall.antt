-- ===== src/Shared/Backend/Recall.antt =====
-- `recall_context` of shared-bridge/src/shared_bridge/backend.py: the guards, the dirty-flag cache,
-- the search with its trace, and what is memoized. `search` is the integration's `_search`, with the
-- seconds that it took.
pub mod Frame
pub mod Cache
use memory_bridge.Base.{
  ℕ, ◌+◌, Bool, true, false, ◌&&◌, ◌||◌, not, List, [], ◌∷◌, Option, none, some, Str, strip,
  if◌then◌else◌, is_empty, length, keep_if, ◌==◌,
}
use memory_bridge.Shared.Config.{MemoryConfig}
use memory_bridge.Shared.Integration.{Integration}
use memory_bridge.Shared.Annotate.{Net}
use memory_bridge.Shared.Recall.Raised.{rendering_raises}
use memory_bridge.Shared.Recall.{Fill, Payload, no_lines, select_hits, fill, payload_of}
use memory_bridge.Shared.Backend.State.{
  Exn, Op, recall_op, error, OperationTrace, SearchStatus, completed, failed, AnnotationEvent,
  TraceState, Backend, log_event, count_backend_error,
}
use memory_bridge.Shared.Backend.Trace.{recall_query, or_blank, recall_search, recall_rendered}

pub data Searched (I : Integration) : Type 0 where
  found : List I.Hit → Searched I
  search_raised : Exn → Searched I

-- The payload, with its "cached" flag; None; or an exception under `strict`.
pub data Recalled (I : Integration) : Type 0 where
  nothing : Recalled I
  injected : Payload I → Bool → Recalled I
  recall_raised : Exn → Recalled I

abbrev pub is_none {ℓ} : {A : Type ℓ} → Option A → Bool
is_none none = true
is_none (some a) = false

-- The guards: dormant after `finalize`, recall switched on, a task, and a query that is not blank.
abbrev pub ready_of : Bool → Bool → Bool → Option Str → Option Str → Bool
ready_of inject_recall available finalized task_text query =
    available
    && not finalized
    && inject_recall
    && not (is_none task_text)
    && not (is_empty (strip (or_blank query)))

module _ {I : Integration} where
  -- The answer of a clean cache.
  unfoldable pub serve_cached : Backend I → Recalled I
  serve_cached b = elim b.cached_recall [ some payload ↦ injected payload true | none ↦ nothing ]

  -- An empty answer is memoized like any other.
  unfoldable pub memoize_empty : Backend I → Backend I
  memoize_empty b = record b { cached_recall = none; cached_anchor = none; search_dirty = false }

  -- The anchor is the token if this search armed it.
  unfoldable pub anchor_of : Option OperationTrace → Option (TraceState I) → Option OperationTrace
  anchor_of none trace = none
  anchor_of (some token) none = none
  anchor_of (some token) (some t) = elim t.pending_search [
    | none ↦ none
    | some pending ↦ if pending.operation_id == token.operation_id then some token else none
  ]

  unfoldable pub memoize : Option OperationTrace → Payload I → Backend I → Backend I
  memoize token payload b = record b {
    cached_recall = some payload;
    cached_anchor = anchor_of token b.trace;
    search_dirty = false;
  }

  -- `self._io_duration += time.monotonic() - started`
  abbrev pub spend : ℕ → Backend I → Backend I
  spend seconds b = record b { io_duration = b.io_duration + seconds }

  -- `if self.config.strict: raise`, else None
  unfoldable pub gate : Bool → Exn → Backend I → Recalled I × Backend I
  gate true e b = (recall_raised e, b)
  gate false e b = (nothing, b)

  -- What is memoized and returned, by the delivered hits.
  unfoldable pub conclude :
      Option OperationTrace → List I.Hit → Fill I → Backend I → Recalled I × Backend I
  conclude token [] acc b = (nothing, memoize_empty b)
  conclude token (hit ∷ hits) acc b =
      (injected (payload_of I acc) false, memoize token (payload_of I acc) b)

module _ {I : Integration} (c : MemoryConfig I.Score) where
  unfoldable pub recall_ready : Backend I → Bool
  recall_ready b = ready_of c.inject_recall b.available b.finalized b.task_text (recall_query b)

module _ {I : Integration} (c : MemoryConfig I.Score) (net : Net)
    (serializable : List (AnnotationEvent I) → Bool) where
  -- From the hits of a search that returned.
  unfoldable pub deliver_hits :
      Option OperationTrace → List I.Hit → Backend I → Recalled I × Backend I
  deliver_hits token hits b =
      let matched = length (keep_if I.hit_is_match hits) in
      let selected = select_hits I c hits in
      let acc = fill I c b.session_id (no_lines I) selected in
      let b' =
        recall_rendered c net serializable token (completed matched) acc.rendered (length selected)
          b in
      conclude token acc.rendered acc b'

  -- The `except` of the search: never cached, counted, and raised under `strict`.
  unfoldable pub recall_failed : Option OperationTrace → Exn → Backend I → Recalled I × Backend I
  recall_failed token e b =
      let b' = recall_rendered c net serializable token (failed e.class_name) [] 0 b in
      let b'' = log_event (error recall_op none e.message) (count_backend_error b') in
      gate c.strict e b''

  -- The hits are rendered in the same `try`.
  unfoldable pub render_hits :
      Option OperationTrace → Option Exn → List I.Hit → Backend I → Recalled I × Backend I
  render_hits token none hits b = deliver_hits token hits b
  render_hits token (some e) hits b = recall_failed token e b

  -- The two ends of the search.
  unfoldable pub settle_search :
      Option OperationTrace → Searched I → Backend I → Recalled I × Backend I
  settle_search token (found hits) b =
      render_hits token (rendering_raises I c b.session_id hits) hits b
  settle_search token (search_raised e) b = recall_failed token e b

  module _ (search : Backend I → Searched I × ℕ × Backend I) where
    unfoldable pub search_anew : ℕ → Backend I → Recalled I × Backend I
    search_anew planned_step b =
        let (token, b') = recall_search c net serializable planned_step b in
        let (reply, seconds, b'') = search b' in settle_search token reply (spend seconds b'')

    unfoldable pub recall_context : ℕ → Backend I → Recalled I × Backend I
    recall_context planned_step b =
        if recall_ready c b
        then (if b.search_dirty then search_anew planned_step b else (serve_cached b, b))
        else (nothing, b)
