-- ===== src/Shared/Backend/Generation.antt =====
-- Generation tracing of shared-bridge/src/shared_bridge/backend.py: the records of an operation,
-- `_post_generation` and `_abandon_operation`. `size_of` is `len(json.dumps(event))`.
pub mod Lifecycle
pub mod Diff
pub mod Returned
pub mod Faithful
pub mod Located
pub mod Frame
pub mod Closing
use memory_bridge.Base.{
  ℕ, ◌+◌, Bool, true, false, ◌&&◌, not, List, [], ◌∷◌, ◌++◌, map, Option, none, some, Str,
  if◌then◌else◌, ltb, ◌==◌, is_empty, length, take,
}
use memory_bridge.Shared.Ids.{sanitize_error_code}
use memory_bridge.Shared.Chunk.{max_post_bytes, chunk_events}
use memory_bridge.Shared.Config.{MemoryConfig}
use memory_bridge.Shared.Integration.{Integration}
use memory_bridge.Shared.Annotate.{Net, PostResult}
use memory_bridge.Shared.Backend.State.{
  memory, Step, Exn, AnnotationEvent, memory_generate_start, memory_change, memory_generate_end,
  generate_start, change, change_rejected, inputs_degraded, annotation, OperationTrace,
  new_operation, TextRef, inline, oversize, PendingInput, GenerationInput, Change, Completeness,
  part, GenerationStatus, all_done, some_done, none_done, StateEvidence, unknown, seen_in_part,
  seen, Checkpoint, held, advanced, unchanged, Audit, GenerationEnd, TraceState, Backend, log_event,
}
use memory_bridge.Shared.Backend.Trace.{stop_memory_lane, bind_start_result, post_to}

-- An operation with the two fields that only a generation uses.
pub record Generation (Snapshot : Type 0) : Type 0 where
  pub operation : OperationTrace
  pub before : Option Snapshot
  pub input_count : ℕ

-- `(changes, produced, unexplained)`
pub record Attribution (I : Integration) : Type 0 where
  pub changes : List (Change I)
  pub produced : List I.Ref
  pub unexplained : List Str

-- `inline_text_ref(item["content"])` with the other fields of the item
unfoldable pub input_of : (Str → Str) → PendingInput → GenerationInput
input_of digest item = record {
  message_id = item.message_id;
  role = item.role;
  step = item.step;
  content = inline item.content (digest item.content);
}

abbrev pub digest_only : TextRef → TextRef
digest_only (inline text sha) = oversize sha
digest_only (oversize sha) = oversize sha

unfoldable pub degrade : GenerationInput → GenerationInput
degrade item = record item { content = digest_only item.content }

-- `payload["completeness"] = "partial"`
abbrev pub mark_partial : {I : Integration} → Change I → Change I
mark_partial payload = record payload { completeness = part }

-- A definitive rejection of a chunk, with its status.
unfoldable pub rejection : PostResult → Option ℕ
rejection posted =
    if posted.ok
    then none
    else elim posted.status [ none ↦ none | some code ↦ if ltb code 500 then some code else none ]

-- The change events, with their place in the series.
unfoldable pub change_events :
    {I : Integration}
    → Option ℕ
    → OperationTrace
    → ℕ
    → ℕ
    → List (Change I)
    → List (AnnotationEvent I)
change_events session operation index count [] = []
change_events session operation index count (payload ∷ changes) =
    memory_change session operation.operation_id payload index count operation.cursor
    ∷ change_events session operation (index + 1) count changes

unfoldable pub abandon_operation :
    {I : Integration} → OperationTrace → Step → ℕ → Backend I → OperationTrace × Backend I
abandon_operation operation step status b = (
  record operation { disabled = true },
  log_event
      (annotation change change_rejected (some step) (some operation.operation_id) (some status))
      (stop_memory_lane b),
)

abbrev pub both_known : {Snapshot : Type 0} → Option Snapshot → Option Snapshot → Bool
both_known (some before) (some after) = true
both_known before after = false

module _ {I : Integration} (c : MemoryConfig I.Score) (net : Net)
    (serializable : List (AnnotationEvent I) → Bool) (size_of : AnnotationEvent I → ℕ) where
  -- The chunks in their order, up to a definitive rejection.
  unfoldable pub post_chunks :
      List (List (AnnotationEvent I)) → Option (TraceState I) → Backend I → Option ℕ × Backend I
  post_chunks [] trace b = (none, b)
  post_chunks (chunk ∷ chunks) none b = (none, b)
  post_chunks (chunk ∷ chunks) (some t) b =
      let (posted, b') = post_to c net serializable memory chunk t b in
      let rest = post_chunks chunks b'.trace b' in
      elim (rejection posted) [ some code ↦ (some code, b') | none ↦ rest ]

  -- `trace.annotator.post(trace.memory_url, [end])`
  unfoldable pub post_end : AnnotationEvent I → Option (TraceState I) → Backend I → Backend I
  post_end event none b = b
  post_end event (some t) b = (post_to c net serializable memory (event ∷ []) t b).1

  unfoldable pub settle_chunks :
      OperationTrace → Step → AnnotationEvent I → Option ℕ × Backend I → OperationTrace × Backend I
  settle_chunks operation step event (some code, b) = abandon_operation operation step code b
  settle_chunks operation step event (none, b) = (operation, post_end event b.trace b)

  unfoldable pub post_series :
      OperationTrace
      → Step
      → List (Change I)
      → GenerationEnd I
      → Option (TraceState I)
      → Backend I
      → OperationTrace × Backend I
  post_series operation step changes report none b = (operation, b)
  post_series operation step changes report (some t) b =
      settle_chunks operation step
        (memory_generate_end t.trace_session_id operation.operation_id report operation.cursor)
        (post_chunks
          (chunk_events size_of
            (change_events t.trace_session_id operation 0 (length changes) changes))
          (some t) b)

  unfoldable pub post_generation :
      OperationTrace
      → Step
      → List (Change I)
      → GenerationEnd I
      → Backend I
      → OperationTrace × Backend I
  post_generation operation step changes report b =
      post_series operation step changes report b.trace b
