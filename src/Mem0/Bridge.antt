-- ===== src/Mem0/Bridge.antt =====
-- `Mem0Backend` of integration/mem0/src/mem0_bridge/backend.py over the shared backend and a store:
-- recording, the extraction tick and the search.
pub mod Flushed
pub mod Heard
pub mod Kept
pub mod Receipts
use memory_bridge.Base.{
  ℕ, ◌+◌, max, Bool, true, false, not, List, [], ◌∷◌, ◌++◌, Option, none, some, Str, codes, str_eq,
  if◌then◌else◌, is_empty, keep_if, length,
}
use memory_bridge.Shared.Config.{MemoryConfig}
use memory_bridge.Shared.Annotate.{Net}
use memory_bridge.Shared.Json.{
  Json, null, text, object, Items, no_items, item, Fields, no_fields, field, get_or_null,
}
use memory_bridge.Shared.Backend.State.{
  Step, Outcome, returned, raised, AnnotationEvent, Audit, Backend, TraceState, log_event,
  batch_noted,
}
use memory_bridge.Shared.Backend.Trace.{recall_query}
use memory_bridge.Shared.Backend.Recall.{Searched, found, search_raised}
use memory_bridge.Shared.Backend.Record.{Stored, stored}
use memory_bridge.Shared.Backend.Generation.{Generation, Attribution}
use memory_bridge.Shared.Backend.Generation.Lifecycle.{
  generation_begin, generation_finish, generation_finish_exception,
}
use memory_bridge.Mem0.Client.{Result, ok, err, Receipt, truthy, text_of}
use memory_bridge.Mem0.Client.Calls.{AddCall, SearchCall, given_text}
use memory_bridge.Mem0.Hits.{Mem0, MemoryCounts, Native, mem0}

-- The messages of a batch as the body of an add has them.
unfoldable pub batch_items : List (Str × Str) → Items
batch_items [] = no_items
batch_items ((role, content) ∷ batch) =
    item
      (object (field (codes "role") (text role) (field (codes "content") (text content) no_fields)))
      (batch_items batch)

-- `receipt["event"]`, how often it is a given one
abbrev pub count_events : (Receipt → Str) → Str → List Receipt → ℕ
count_events name event rs = length (keep_if (λ r. str_eq (name r) event) rs)

module _ {S : Type 0} (M : Mem0 S) where
  -- `str(item.get("event") or "").upper()`
  unfoldable pub event_of : Receipt → Str
  event_of r = M.python.upper (if truthy M.python r.event then text_of M.python r.event else [])

  unfoldable pub count_receipts : List Receipt → MemoryCounts → MemoryCounts
  count_receipts rs n = record n {
    memories_added = n.memories_added + count_events event_of (codes "ADD") rs;
    memories_updated = n.memories_updated + count_events event_of (codes "UPDATE") rs;
    memories_deleted = n.memories_deleted + count_events event_of (codes "DELETE") rs;
  }

  unfoldable pub store_message : Str → Str → ℕ → Backend (mem0 M) → Stored × Backend (mem0 M)
  store_message role content step b = (
    stored none,
    record b { native = record b.native { pending = b.native.pending ++ (role, content) ∷ [] } },
  )

  abbrev pub count_call : Backend (mem0 M) → Backend (mem0 M)
  count_call b = record b {
    counts = record b.counts { extraction_calls = b.counts.extraction_calls + 1 };
  }

  abbrev pub set_store : S → Backend (mem0 M) → Backend (mem0 M)
  set_store s b = record b { native = record b.native { store = some s } }

  -- `self._trace.pending_inputs.clear()`
  unfoldable pub clear_inputs : Backend (mem0 M) → Backend (mem0 M)
  clear_inputs b = elim b.trace [
    | none ↦ b
    | some t ↦ record b { trace = some (record t { pending_inputs = [] }) }
  ]

  -- From the receipts to the log entry: the counters, and the batch that is flushed.
  unfoldable pub flush : Step → ℕ → List Receipt → Backend (mem0 M) → Backend (mem0 M)
  flush step n_messages rs b =
      log_event
        (batch_noted step n_messages (count_events event_of (codes "ADD") rs)
          (count_events event_of (codes "UPDATE") rs) (count_events event_of (codes "DELETE") rs))
        (clear_inputs (record b {
          native = record b.native {
            pending = [];
            memory_counts = count_receipts rs b.native.memory_counts;
          };
          consecutive_errors = 0;
        }))

  unfoldable pub add_call : Backend (mem0 M) → AddCall
  add_call b = record {
    messages = batch_items b.native.pending;
    user_id = M.user_id;
    run_id = b.session_id;
    infer = M.infer;
    metadata = none;
    guidelines = if is_empty (given_text M.guidelines) then none else M.guidelines;
  }

  -- `[hit for hit in hits if not isinstance(hit, dict) or hit.get("id")]`
  unfoldable pub has_id : Json → Bool
  has_id (object hit) = truthy M.python (get_or_null (codes "id") hit)
  has_id hit = true

  abbrev pub hits_of : List Fields → List Json
  hits_of [] = []
  hits_of (d ∷ rows) = object d ∷ hits_of rows

  abbrev pub count_search : Backend (mem0 M) → Backend (mem0 M)
  count_search b = record b {
    native = record b.native {
      memory_counts = record b.native.memory_counts {
        search_calls = b.native.memory_counts.search_calls + 1;
      };
    };
  }

  abbrev pub count_search_error : Backend (mem0 M) → Backend (mem0 M)
  count_search_error b = record b {
    counts = record b.counts { search_errors = b.counts.search_errors + 1 };
  }

  unfoldable pub settle_hits :
      Result (List Fields) × S → Backend (mem0 M) → Searched (mem0 M) × Backend (mem0 M)
  settle_hits (ok rows, s) b = (found (keep_if has_id (hits_of rows)), set_store s b)
  settle_hits (err e, s) b = (search_raised (M.exn_of e), count_search_error (set_store s b))

module _ {S : Type 0} (M : Mem0 S) (c : MemoryConfig M.Score) where
  -- A wider pool where a floor filters it.
  unfoldable pub top_k : ℕ
  top_k = elim c.recall_min_score [ some floor ↦ max 50 c.max_memories | none ↦ c.max_memories ]

  unfoldable pub search_call : Backend (mem0 M) → SearchCall
  search_call b = record {
    query = given_text (recall_query b);
    user_id = M.user_id;
    top_k = M.numeral top_k;
    threshold = M.search_threshold;
    timeout = M.search_timeout;
  }

  unfoldable pub search_on : Option S → Backend (mem0 M) → Searched (mem0 M) × Backend (mem0 M)
  search_on none b = (found [], b)
  search_on (some s) b = settle_hits M (M.store.search (search_call b) s) (count_search M b)

  unfoldable pub search : Backend (mem0 M) → Searched (mem0 M) × Backend (mem0 M)
  search b = search_on b.native.store b

  module _ (net : Net) (serializable : List (AnnotationEvent (mem0 M)) → Bool)
      (size_of : AnnotationEvent (mem0 M) → ℕ) {Snapshot : Type 0}
      (snapshot : Backend (mem0 M) → Option Snapshot)
      (attribute : Generation Snapshot
        → Option (List Receipt)
        → Option Snapshot
        → Backend (mem0 M)
        → Option (Attribution (mem0 M)))
      (end_context : Step → Option (List Receipt) → Audit → Str) where
    -- The rest of the tick, once the add has ended.
    unfoldable pub close_add :
        Option (Generation Snapshot)
        → Step
        → ℕ
        → Result (List Receipt)
        → Backend (mem0 M)
        → Outcome × Backend (mem0 M)
    close_add g step n_messages (err e) b = (
      raised (M.exn_of e),
      generation_finish_exception c net serializable size_of M.digest snapshot attribute end_context
          g step (M.exn_of e) b,
    )
    close_add g step n_messages (ok rs) b = (
      returned,
      generation_finish c net serializable size_of M.digest snapshot attribute end_context g step rs
          [] (flush M step n_messages rs b),
    )

    unfoldable pub tick : Step → S → Backend (mem0 M) → Outcome × Backend (mem0 M)
    tick step s b =
        let (g, b') =
          generation_begin c net serializable size_of M.digest snapshot step (count_call M b) in
        let (r, s') = M.store.add (add_call M b') s in
        close_add g step (length b.native.pending) r (set_store M s' b')

    unfoldable pub perform_on : Step → Option S → Backend (mem0 M) → Outcome × Backend (mem0 M)
    perform_on step none b = (returned, b)
    perform_on step (some s) b = if is_empty b.native.pending then (returned, b) else tick step s b

    unfoldable pub perform_extraction : Step → Backend (mem0 M) → Outcome × Backend (mem0 M)
    perform_extraction step b = perform_on step b.native.store b
