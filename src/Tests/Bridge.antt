-- ===== src/Tests/Bridge.antt =====
-- An extraction tick of the CURE integration at a concrete backend.
use memory_bridge.Base.{ℕ, Bool, true, false, List, [], Option, none, some, Str, codes}
use memory_bridge.Shared.Annotate.{new_annotator}
use memory_bridge.Shared.Backend.State.{
  Step, Exn, AnnotationEvent, Audit, Backend, TraceState, task, zero_counts,
}
use memory_bridge.Shared.Backend.Generation.{Generation, Attribution}
use memory_bridge.Cure.Model.{Memory, ExtractionResult}
use memory_bridge.Cure.Store.{Failure}
use memory_bridge.Cure.Bridge.{cure, MemoryCounts}
use memory_bridge.Cure.Bridge.Ticks
use memory_bridge.Tests.Fixture.{notes}
use memory_bridge.Tests.Cure.{spoken}

abbrev no_memories : MemoryCounts
no_memories = record {
  memories_candidates = 0;
  memories_approved = 0;
  memories_pending = 0;
  memories_rejected = 0;
  memories_rejected_sensitive = 0;
  memories_deleted = 0;
}

abbrev cure_traced : TraceState (cure notes)
cure_traced = record {
  annotator = new_annotator;
  trace_session_id = some 0;
  session_open = true;
  memory_lane_enabled = true;
  delivery_enabled = true;
  pending_inputs = [];
  pending_search = none;
  outbox = [];
}

abbrev cure_backend : Backend (cure notes)
cure_backend = record {
  available = true;
  session_id = some (codes "s");
  task_text = some (codes "fix the bug");
  current_query = some (codes "fix the bug");
  query_source = task;
  search_dirty = true;
  cached_recall = none;
  cached_anchor = none;
  events = [];
  counts = zero_counts;
  last_extract_bucket = 0;
  consecutive_errors = 2;
  extract_breaker = false;
  finalized = false;
  trace = some cure_traced;
  io_duration = 0;
  recent_messages = [];
  last_rewrite_bucket = 0;
  rewrite_enabled = false;
  rewrite_consecutive_errors = 0;
  rewrite_breaker = false;
  next_id = 1;
  native = record { system = some spoken; memory_counts = no_memories };
}

abbrev any_cure_events : List (AnnotationEvent (cure notes)) → Bool
any_cure_events events = true

abbrev small : AnnotationEvent (cure notes) → ℕ
small event = 100

abbrev no_snapshot : Backend (cure notes) → Option (List Memory)
no_snapshot b = none

abbrev nothing_attributed :
    Generation (List Memory)
    → Option ExtractionResult
    → Option (List Memory)
    → Backend (cure notes)
    → Option (Attribution (cure notes))
nothing_attributed g result after b =
    some (record { changes = []; produced = []; unexplained = [] })

abbrev no_context : Step → Option ExtractionResult → Audit → Str
no_context step result audit = codes "{}"

abbrev store_error : Failure → Exn
store_error e = record { class_name = codes "OperationalError"; message = codes "disk full" }
