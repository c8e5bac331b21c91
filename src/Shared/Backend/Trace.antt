-- ===== src/Shared/Backend/Trace.antt =====
-- Search tracing of shared-bridge/src/shared_bridge/backend.py: `_recall_search`,
-- `_bind_start_result`, `_search_finish` and `_recall_rendered`. A hook that raises posts nothing,
-- as the containment of the source has it.
pub mod Frame
use memory_bridge.Base.{
  ℕ, ◌+◌, Bool, true, false, ◌&&◌, not, List, [], ◌∷◌, ◌++◌, Option, none, some, Str, if◌then◌else◌,
  is_empty, ◌==◌,
}
use memory_bridge.Shared.Config.{MemoryConfig}
use memory_bridge.Shared.Integration.{Integration}
use memory_bridge.Shared.Annotate.{Net, PostResult, post, cursor}
use memory_bridge.Shared.Backend.State.{
  Lane, memory, Step, at, AnnotationOp, search, search_start, transport, Reason, start_oversize,
  recovery_conflict, search_unconfirmed, transport_disabled, annotation, OperationTrace,
  new_operation, SearchStatus, completed, failed, AnnotationEvent, memory_search_start,
  memory_search_end, TraceState, Backend, log_event,
}

-- `[self._memory_ref(memory) for memory in rendered]`; `none` where one raises
unfoldable pub memory_refs : (I : Integration) → List I.Hit → Option (List I.Ref)
memory_refs I [] = some []
memory_refs I (hit ∷ hits) = elim (I.memory_ref hit) [
  | none ↦ none
  | some ref ↦ elim (memory_refs I hits) [ none ↦ none | some refs ↦ some (ref ∷ refs) ]
]

abbrev pub or_else : Option Str → Option Str → Option Str
or_else (some query) task_text = some query
or_else none task_text = task_text

-- `self._current_query if self._current_query is not None else self._task`
unfoldable pub recall_query : {I : Integration} → Backend I → Option Str
recall_query b = or_else b.current_query b.task_text

-- `text or ""`
abbrev pub or_blank : Option Str → Str
or_blank none = []
or_blank (some s) = s

module _ {I : Integration} where
  -- Memory-lane tracing stops for the session.
  unfoldable pub stop_memory_lane : Backend I → Backend I
  stop_memory_lane b = elim b.trace [
    | none ↦ b
    | some t ↦ record b {
      trace = some (record t { memory_lane_enabled = false; pending_inputs = [] });
    }
  ]

  -- `self._trace.pending_search = token`
  unfoldable pub arm_delivery : OperationTrace → Backend I → Backend I
  arm_delivery token b = elim b.trace [
    | none ↦ b
    | some t ↦ record b { trace = some (record t { pending_search = some token }) }
  ]

  -- The end of `_recall_rendered`, after the post.
  unfoldable pub close_search :
      OperationTrace → SearchStatus → List I.Hit → Option PostResult → Backend I → Backend I
  close_search token (failed e) rendered result b = b
  close_search token (completed matched) rendered result b =
      let landed : Bool = elim result [ none ↦ false | some r ↦ r.ok && token.start_accepted ] in
      let unconfirmed = annotation search search_unconfirmed none (some token.operation_id) none in
      if is_empty rendered
      then b
      else if landed
      then arm_delivery token b
      else if token.disabled
      then b
      else log_event unconfirmed b

  unfoldable pub bind_start_result :
      OperationTrace → PostResult → Step → AnnotationOp → Backend I → OperationTrace × Backend I
  bind_start_result operation result step op_name b =
      let started : OperationTrace = record operation { start_accepted = result.ok } in
      let rejected : OperationTrace = record started { disabled = true } in
      let oversize =
        annotation op_name start_oversize (some step) (some operation.operation_id) none in
      let conflict =
        annotation op_name recovery_conflict (some step) (some operation.operation_id) none in
      let by_status : OperationTrace × Backend I = elim result.status [
        | none ↦ (started, b)
        | some code ↦
            if code == 413
            then (rejected, log_event oversize b)
            else if code == 409
            then (rejected, log_event conflict (stop_memory_lane b))
            else (started, b)
      ] in
      if result.ok
      then (elim (cursor result) [
        | some n ↦ (record started { cursor = some n }, b)
        | none ↦ by_status
      ])
      else by_status

module _ {I : Integration} (c : MemoryConfig I.Score) (net : Net)
    (serializable : List (AnnotationEvent I) → Bool) where
  -- `trace.annotator.post`, with the `on_breaker` callback that `_trace_setup` gives it
  unfoldable pub post_to :
      Lane → List (AnnotationEvent I) → TraceState I → Backend I → PostResult × Backend I
  post_to lane events t b =
      let (result, a, tripped) =
        post net c.annotate_retries c.annotate_max_consecutive_errors (serializable events)
          t.annotator in
      let t' : TraceState I = record t {
        annotator = a;
        outbox = t.outbox ++ (lane, events) ∷ [];
      } in
      let b' : Backend I = record b { trace = some t' } in
      (
        result,
        if tripped
            then log_event (annotation transport transport_disabled none none none) b'
            else b',
      )

  -- `_recall_search` past its guard.
  unfoldable pub begin_search : ℕ → TraceState I → Backend I → Option OperationTrace × Backend I
  begin_search planned_step t b =
      let t' : TraceState I = record t { pending_search = none } in
      let event =
        memory_search_start t.trace_session_id b.next_id (or_blank (recall_query b)) b.query_source
          planned_step in
      let (result, b') = post_to memory (event ∷ []) t' (record b { next_id = b.next_id + 1 }) in
      let (token, b'') =
        bind_start_result (new_operation b.next_id) result (at planned_step) search_start b' in
      (some token, b'')

  search_from : ℕ → Option (TraceState I) → Backend I → Option OperationTrace × Backend I
  search_from planned_step none b = (none, b)
  search_from planned_step (some t) b =
      if t.session_open && t.memory_lane_enabled then begin_search planned_step t b else (none, b)

  unfoldable pub recall_search : ℕ → Backend I → Option OperationTrace × Backend I
  unfolding search_from
  recall_search planned_step b = search_from planned_step b.trace b

  -- `_search_finish` from the trace and the refs on: `none` where a ref raises; else the result, if
  -- anything was posted.
  finish_from :
      OperationTrace
      → SearchStatus
      → ℕ
      → Option (TraceState I)
      → Option (List I.Ref)
      → Backend I
      → Option (Option PostResult × Backend I)
  finish_from token status selected none refs b = some (none, b)
  finish_from token status selected (some t) none b = none
  finish_from token status selected (some t) (some refs) b =
      let event =
        memory_search_end t.trace_session_id token.operation_id status refs selected token.cursor in
      let (result, b') = post_to memory (event ∷ []) t b in some (some result, b')

  unfoldable pub search_finish :
      OperationTrace
      → SearchStatus
      → List I.Hit
      → ℕ
      → Backend I
      → Option (Option PostResult × Backend I)
  unfolding finish_from
  search_finish token status rendered selected b =
      if token.disabled
      then some (none, b)
      else finish_from token status selected b.trace (memory_refs I rendered) b

  -- `_recall_rendered` under `_recall_rendered_contained`: where a ref raises, nothing happens.
  close_from :
      OperationTrace
      → SearchStatus
      → List I.Hit
      → Option (Option PostResult × Backend I)
      → Backend I
      → Backend I
  close_from token status rendered none b = b
  close_from token status rendered (some (result, b')) b =
      close_search token status rendered result b'

  unfoldable pub recall_rendered :
      Option OperationTrace → SearchStatus → List I.Hit → ℕ → Backend I → Backend I
  unfolding close_from
  recall_rendered none status rendered selected b = b
  recall_rendered (some token) status rendered selected b =
      close_from token status rendered (search_finish token status rendered selected b) b
