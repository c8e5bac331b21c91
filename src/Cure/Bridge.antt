-- ===== src/Cure/Bridge.antt =====
-- `_perform_extraction` of integration/cure_memory/src/cure_memory_bridge/backend.py over the shared
-- backend and the CURE system. The rendering hooks are those of any integration `I`; the snapshot and
-- the attribution of changes are arguments, as in the shared backend, and so is the exception that a
-- failure of the store is.
pub mod Ticks
use memory_bridge.Base.{
  ℕ, ◌+◌, Bool, true, false, not, List, [], ◌∷◌, Option, none, some, Str, codes, str_eq, join,
  if◌then◌else◌, is_empty, keep_if, length,
}
use memory_bridge.Shared.Config.{MemoryConfig}
use memory_bridge.Shared.Integration.{Integration}
use memory_bridge.Shared.Annotate.{Net}
use memory_bridge.Shared.Backend.State.{
  Step, Exn, Outcome, returned, raised, AnnotationEvent, Audit, Backend, TraceState, log_event,
  extraction_noted,
}
use memory_bridge.Shared.Backend.Extract.{count_extraction_error, register_extraction_failure}
use memory_bridge.Shared.Backend.Generation.{Generation, Attribution}
use memory_bridge.Shared.Backend.Generation.Lifecycle.{
  generation_begin, generation_finish, generation_finish_exception,
}
use memory_bridge.Cure.Model.{
  SessionMessage, Memory, Rejection, ExtractionResult, ReviewStatus, approved, pending_review,
  status_eq,
}
use memory_bridge.Cure.Store.{Env, Failure, Tried, done, failed}
use memory_bridge.Cure.Session.{System, has_unextracted_messages, extract_runtime_memories}

-- `_COUNTERS`
pub record MemoryCounts : Type 0 where
  pub memories_candidates : ℕ
  pub memories_approved : ℕ
  pub memories_pending : ℕ
  pub memories_rejected : ℕ
  pub memories_rejected_sensitive : ℕ
  pub memories_deleted : ℕ

pub record Native : Type 0 where
  pub system : Option System
  pub memory_counts : MemoryCounts

-- The integration with CURE's own state.
abbrev pub cure : Integration → Integration
cure I = record {
  Hit = I.Hit;
  Score = I.Score;
  Ref = I.Ref;
  Native = Native;
  score_ge = I.score_ge;
  render_line = I.render_line;
  hit_score = I.hit_score;
  hit_origin = I.hit_origin;
  hit_budget_exempt = I.hit_budget_exempt;
  hit_is_match = I.hit_is_match;
  memory_ref = I.memory_ref;
  recall_header = I.recall_header;
  hit_raises = I.hit_raises;
  header_raises = I.header_raises;
}

-- `result.approved` and `result.pending_review` are the candidates with that status.
abbrev pub with_status : ReviewStatus → List Memory → ℕ
with_status status ms = length (keep_if (λ m. status_eq m.review_status status) ms)

-- `rejected_by_reason.get(reason, 0)`
abbrev pub rejected_by : Str → List Rejection → ℕ
rejected_by reason rejections = length (keep_if (λ r. str_eq r.reason reason) rejections)

unfoldable pub count_memories : ExtractionResult → MemoryCounts → MemoryCounts
count_memories result n = record {
  memories_candidates = n.memories_candidates + length result.candidates;
  memories_approved = n.memories_approved + with_status approved result.candidates;
  memories_pending = n.memories_pending + with_status pending_review result.candidates;
  memories_rejected = n.memories_rejected + length result.rejections;
  memories_rejected_sensitive =
      n.memories_rejected_sensitive + rejected_by (codes "sensitive_information") result.rejections;
  memories_deleted = n.memories_deleted + length result.to_delete;
}

module _ (I : Integration) where
  abbrev pub count_call : Backend (cure I) → Backend (cure I)
  count_call b = record b {
    counts = record b.counts { extraction_calls = b.counts.extraction_calls + 1 };
  }

  abbrev pub set_system : System → Backend (cure I) → Backend (cure I)
  set_system sys b = record b { native = record b.native { system = some sys } }

  -- `self._trace.pending_inputs.clear()`
  unfoldable pub clear_inputs : Backend (cure I) → Backend (cure I)
  clear_inputs b = elim b.trace [
    | none ↦ b
    | some t ↦ record b { trace = some (record t { pending_inputs = [] }) }
  ]

  -- The counters and the log entry, which is kept with its totals and errors.
  unfoldable pub note_extraction : Step → ExtractionResult → Backend (cure I) → Backend (cure I)
  note_extraction step result b =
      log_event
        (extraction_noted step (length result.candidates) (length result.to_delete)
          (length result.rejections) result.errors)
        (record b {
          native = record b.native { memory_counts = count_memories result b.native.memory_counts };
        })

module _ (I : Integration) (c : MemoryConfig I.Score) where
  -- A result with errors is a failure that does not raise.
  unfoldable pub settle_result : Step → ExtractionResult → Backend (cure I) → Backend (cure I)
  settle_result step result b =
      if is_empty result.errors
      then clear_inputs I (record (note_extraction I step result b) { consecutive_errors = 0 })
      else register_extraction_failure c step (join (codes "; ") result.errors) false
          (count_extraction_error (note_extraction I step result b))

  module _ (net : Net) (serializable : List (AnnotationEvent (cure I)) → Bool)
      (size_of : AnnotationEvent (cure I) → ℕ) (digest : Str → Str) {Snapshot : Type 0}
      (snapshot : Backend (cure I) → Option Snapshot)
      (attribute : Generation Snapshot
        → Option ExtractionResult
        → Option Snapshot
        → Backend (cure I)
        → Option (Attribution (cure I)))
      (end_context : Step → Option ExtractionResult → Audit → Str) (exn_of : Failure → Exn) where
    -- The rest of the tick, once the native call has ended.
    unfoldable pub close_tick :
        Option (Generation Snapshot)
        → Step
        → Tried ExtractionResult
        → Backend (cure I)
        → Outcome × Backend (cure I)
    close_tick g step (failed e) b = (
      raised (exn_of e),
      generation_finish_exception c net serializable size_of digest snapshot attribute end_context g
          step (exn_of e) b,
    )
    close_tick g step (done result) b = (
      returned,
      generation_finish c net serializable size_of digest snapshot attribute end_context g step
          result result.errors (settle_result step result b),
    )

    module _ (env : Env)
        (extract : List SessionMessage → List Memory → Option Str → ExtractionResult) where
      unfoldable pub tick : Step → System → Backend (cure I) → Outcome × Backend (cure I)
      tick step sys b =
          let (g, b') =
            generation_begin c net serializable size_of digest snapshot step (count_call I b) in
          let (r, sys') = extract_runtime_memories env extract sys in
          close_tick g step r (set_system I sys' b')

      unfoldable pub perform_on :
          Step → Option System → Backend (cure I) → Outcome × Backend (cure I)
      perform_on step none b = (returned, b)
      perform_on step (some sys) b =
          if has_unextracted_messages sys then tick step sys b else (returned, b)

      unfoldable pub perform_extraction : Step → Backend (cure I) → Outcome × Backend (cure I)
      perform_extraction step b = perform_on step b.native.system b
