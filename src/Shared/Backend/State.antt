-- ===== src/Shared/Backend/State.antt =====
-- The state of `BaseMemoryBackend` (`__init__` of shared-bridge/src/shared_bridge/backend.py), its
-- event log, counters, trace state and operation tokens. Ids of `uuid4` are numbers that a counter
-- hands out; durations are in units of the monotonic clock.
use memory_bridge.Base.{ℕ, ◌+◌, Bool, true, false, List, [], ◌∷◌, ◌++◌, Option, none, Str}
pub use memory_bridge.Shared.Integration.{Exn}
use memory_bridge.Shared.Integration.{Integration}
use memory_bridge.Shared.Recall.{Payload}
use memory_bridge.Shared.Annotate.{Annotator}

pub data Lane : Type 0 where
  main memory : Lane

pub data QuerySource : Type 0 where
  task rewritten : QuerySource

-- `step`: a step number, or "final" for the flush of `finalize`
pub data Step : Type 0 where
  at : ℕ → Step
  final : Step

-- How a call that returns nothing ends.
pub data Outcome : Type 0 where
  returned : Outcome
  raised : Exn → Outcome

pub data Op : Type 0 where
  start record_op extract recall_op finalize_dump : Op

pub data AnnotationOp : Type 0 where
  search search_start generate_start change delivery transport : AnnotationOp

pub data Reason : Type 0 where
  start_oversize recovery_conflict change_rejected search_unconfirmed inputs_degraded : Reason
  delivery_no_cursor delivery_rejected delivery_unconfirmed : Reason
  delivery_no_call delivery_probe_unreadable transport_disabled : Reason

-- One entry of `self._events`, by its "kind" and fields. The text of the two breaker events is
-- their count.
pub data LogEvent : Type 0 where
  started : Option Str → LogEvent
  error : Op → Option Step → Str → LogEvent
  extract_breaker_tripped : Step → ℕ → LogEvent
  rewrite_breaker_tripped : ℕ → ℕ → LogEvent
  rewrite_done : ℕ → Str → LogEvent
  rewrite_failed : ℕ → Str → LogEvent
  extraction_noted : Step → ℕ → ℕ → ℕ → List Str → LogEvent
  batch_noted : Step → ℕ → ℕ → ℕ → ℕ → LogEvent
  recall_noted : ℕ → ℕ → ℕ → List (Option Str) → LogEvent
  annotation : AnnotationOp → Reason → Option Step → Option ℕ → Option ℕ → LogEvent

-- `_CORE_COUNTERS`
pub record Counts : Type 0 where
  pub messages_recorded : ℕ
  pub extraction_calls : ℕ
  pub extraction_errors : ℕ
  pub recall_injections : ℕ
  pub backend_errors : ℕ
  pub search_errors : ℕ
  pub recall_cache_hits : ℕ
  pub rewrite_calls : ℕ
  pub rewrite_successes : ℕ
  pub rewrite_failures : ℕ

abbrev pub zero_counts : Counts
zero_counts = record {
  messages_recorded = 0;
  extraction_calls = 0;
  extraction_errors = 0;
  recall_injections = 0;
  backend_errors = 0;
  search_errors = 0;
  recall_cache_hits = 0;
  rewrite_calls = 0;
  rewrite_successes = 0;
  rewrite_failures = 0;
}

-- The native message id, or the recorded-message count where the integration has none.
pub data MessageId : Type 0 where
  native_id : Str → MessageId
  counted : ℕ → MessageId

pub record PendingInput : Type 0 where
  pub message_id : MessageId
  pub role : Str
  pub step : ℕ
  pub content : Str

-- `_OperationTrace`; tokens are told apart by their operation id.
pub record OperationTrace : Type 0 where
  pub operation_id : ℕ
  pub cursor : Option ℕ
  pub disabled : Bool
  pub start_accepted : Bool

abbrev pub new_operation : ℕ → OperationTrace
new_operation operation_id = record {
  operation_id = operation_id;
  cursor = none;
  disabled = false;
  start_accepted = false;
}

pub data SearchStatus : Type 0 where
  completed : ℕ → SearchStatus
  failed : Str → SearchStatus

-- A text as a ContentRef: with its digest, or, where the start event is too large, the digest alone.
pub data TextRef : Type 0 where
  inline : Str → Str → TextRef
  oversize : Str → TextRef

-- One entry of "inputs" of a generation's start.
pub record GenerationInput : Type 0 where
  pub message_id : MessageId
  pub role : Str
  pub step : ℕ
  pub content : TextRef

pub data ChangeAction : Type 0 where
  create update delete : ChangeAction
  native_action : Str → ChangeAction

pub data Completeness : Type 0 where
  whole part : Completeness

-- A `_change_payload`, without its fresh id; a relationship is a pair of version ids.
pub record Change (I : Integration) : Type 0 where
  pub action : ChangeAction
  pub before : List I.Ref
  pub after : List I.Ref
  pub relationships : List (Str × Str)
  pub evidence : Str
  pub completeness : Completeness
  pub extensions : Str

pub data GenerationStatus : Type 0 where
  all_done some_done none_done : GenerationStatus

pub data StateEvidence : Type 0 where
  unknown seen_in_part seen : StateEvidence

pub data Checkpoint : Type 0 where
  held advanced unchanged : Checkpoint

pub record Audit : Type 0 where
  pub clean : Bool
  pub unexplained : List Str
  pub checkpoint : Checkpoint

-- What `memory_generate_end` reports, the adapter's own context as its text.
pub record GenerationEnd (I : Integration) : Type 0 where
  pub status : GenerationStatus
  pub produced : List I.Ref
  pub change_count : ℕ
  pub state_evidence : StateEvidence
  pub error_codes : List Str
  pub context : Str

-- The posted events, by their type and the fields of their payload and binding.
pub data AnnotationEvent (I : Integration) : Type 0 where
  memory_session : ℕ → Str → AnnotationEvent I
  memory_role_bind : ℕ → Lane → AnnotationEvent I
  memory_search_start : Option ℕ → ℕ → Str → QuerySource → ℕ → AnnotationEvent I
  memory_search_end : Option ℕ → ℕ → SearchStatus → List I.Ref → ℕ → Option ℕ → AnnotationEvent I
  memory_generate_start :
      Option ℕ → ℕ → Step → List GenerationInput → Option Str → AnnotationEvent I
  memory_change : Option ℕ → ℕ → Change I → ℕ → ℕ → Option ℕ → AnnotationEvent I
  memory_generate_end : Option ℕ → ℕ → GenerationEnd I → Option ℕ → AnnotationEvent I
  memory_delivery : Option ℕ → ℕ → ℕ → ℕ → Str → List I.Ref → Bool → ℕ → ℕ → AnnotationEvent I

-- `_TraceState`, without the two URLs, and `outbox`: the requests given to the annotator, in order.
pub record TraceState (I : Integration) : Type 0 where
  pub annotator : Annotator
  pub trace_session_id : Option ℕ
  pub session_open : Bool
  pub memory_lane_enabled : Bool
  pub delivery_enabled : Bool
  pub pending_inputs : List PendingInput
  pub pending_search : Option OperationTrace
  pub outbox : List (Lane × List (AnnotationEvent I))

pub record Backend (I : Integration) : Type 0 where
  pub available : Bool
  pub session_id : Option Str
  pub task_text : Option Str
  pub current_query : Option Str
  pub query_source : QuerySource
  pub search_dirty : Bool
  pub cached_recall : Option (Payload I)
  pub cached_anchor : Option OperationTrace
  pub events : List LogEvent
  pub counts : Counts
  pub last_extract_bucket : ℕ
  pub consecutive_errors : ℕ
  pub extract_breaker : Bool
  pub finalized : Bool
  pub trace : Option (TraceState I)
  pub io_duration : ℕ
  pub recent_messages : List (Str × Str)
  pub last_rewrite_bucket : ℕ
  pub rewrite_enabled : Bool
  pub rewrite_consecutive_errors : ℕ
  pub rewrite_breaker : Bool
  pub next_id : ℕ
  pub native : I.Native

module _ {I : Integration} where
  -- `_log_event`
  abbrev pub log_event : LogEvent → Backend I → Backend I
  log_event event b = record b { events = b.events ++ event ∷ [] }

  -- `_mark_store_changed`
  abbrev pub mark_store_changed : Backend I → Backend I
  mark_store_changed b = record b { search_dirty = true }

  abbrev pub count_backend_error : Backend I → Backend I
  count_backend_error b = record b {
    counts = record b.counts { backend_errors = b.counts.backend_errors + 1 };
  }
