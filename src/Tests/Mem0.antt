-- ===== src/Tests/Mem0.antt =====
-- The mem0 integration over a store that fails its first adds.
use memory_bridge.Base.{
  ℕ, zero, suc, ◌≡◌, refl, ap, ◌∙◌, Bool, true, false, List, [], ◌∷◌, ◌++◌, Option, none, some, Str,
  codes, str_eq, leb, ◌⊎◌, inl, All,
}
use memory_bridge.Base.Sublists.{Sub-empty}
use memory_bridge.Shared.Annotate.{new_annotator}
use memory_bridge.Shared.Json.{
  Json, text, object, Items, no_items, item, Fields, no_fields, field, get, get_or_null, truth,
}
use memory_bridge.Shared.Backend.State.{
  Step, at, AnnotationEvent, Audit, Backend, TraceState, task, zero_counts,
}
use memory_bridge.Shared.Backend.Record.{Entry, dict, plain}
use memory_bridge.Shared.Backend.Generation.{Attribution}
use memory_bridge.Shared.Backend.Generation.Diff.{
  row_at, written_rows, diff_row, deleted_rows, change_payload, relate, same_content,
  update_payload, attribute_changes,
}
use memory_bridge.Shared.Backend.Trace.{memory_refs}
use memory_bridge.Mem0.Client.{Mem0Error, other_error, Result, ok, err, Receipt}
use memory_bridge.Mem0.Client.Calls.{AddCall}
use memory_bridge.Mem0.Stores.{Store}
use memory_bridge.Mem0.Hits.{Mem0, MemoryCounts, mem0, memory_ref, given_among}
use memory_bridge.Mem0.Bridge.{batch_items, event_of, perform_extraction}
use memory_bridge.Mem0.Bridge.Flushed
use memory_bridge.Mem0.Bridge.Flushed.{IsFlush}
use memory_bridge.Mem0.Bridge.Kept
use memory_bridge.Mem0.Bridge.Kept.{IsDurable, Act, say, ask, run, all_heard, Kept}
use memory_bridge.Mem0.Bridge.Receipts.{
  Listing, snapshot, snapshot_on, read_listing, keyed_rows, put_row, attribute, attribute_receipts,
  claim_all, claim_step, claim_receipt, receipt_payload, note_claim, claim, add_claim, claims_of,
  claims_action, action_of, receipt_hit, audit_against_state, observed_lines, observed_line,
  refs_of, receipt_lines,
}
use memory_bridge.Mem0.Bridge.Receipts.Explained
use memory_bridge.Mem0.Bridge.Receipts.Explained.{Same, cites}
use memory_bridge.Tests.Fixture.{config, accepting}
use memory_bridge.Tests.Platform.{python}

-- The adds that still fail, what is held, and the rows of a listing.
record Shelf : Type 0 where
  failing : ℕ
  held : List (Str × Str)
  rows : List Fields

abbrev text_or_none : Json → Str
text_or_none (text s) = s
text_or_none x = []

unfoldable decoded : Items → List (Str × Str)
decoded no_items = []
decoded (item (object d) items) =
    (text_or_none (get_or_null (codes "role") d), text_or_none (get_or_null (codes "content") d))
    ∷ decoded items
decoded (item x items) = decoded items

decoded-batch_items : (batch : List (Str × Str)) → decoded (batch_items batch) ≡ batch
unfolding decoded batch_items get get_or_null str_eq
decoded-batch_items [] = refl
decoded-batch_items ((role, content) ∷ batch) =
    ap (λ (l : List (Str × Str)). (role, content) ∷ l) (decoded-batch_items batch)

abbrev down : Mem0Error
down = other_error (record { class_name = codes "ConnectError"; message = codes "down" })

abbrev receive : ℕ → AddCall → Shelf → Result (List Receipt) × Shelf
receive zero call s = (ok [], record s { held = s.held ++ decoded call.messages })
receive (suc n) call s = (err down, record s { failing = n })

abbrev shelves : Store Shelf
shelves = record {
  add = λ call s. receive s.failing call s;
  search = λ call s. (ok s.rows, s);
  get_all = λ user_id limit s. (ok s.rows, s);
}

abbrev held_by : Shelf → List (Str × Str)
held_by s = s.held

receive-added :
    (n : ℕ) (batch : List (Str × Str)) (call : AddCall) (s : Shelf)
    → call.messages ≡ batch_items batch
    → (rs : List Receipt) (s' : Shelf) → receive n call s ≡ (ok rs, s')
    → held_by s' ≡ held_by s ++ batch
receive-added zero batch call s same rs s' e =
    let kept : held_by s' ≡ held_by s ++ decoded call.messages = cc in
    kept
    ∙ ap (λ (l : Items). held_by s ++ decoded l) same
    ∙ ap (λ (l : List (Str × Str)). held_by s ++ l) (decoded-batch_items batch)
receive-added (suc n) batch call s same rs s' e = cc

receive-failed :
    (n : ℕ) (batch : List (Str × Str)) (call : AddCall) (s : Shelf)
    → (e : Mem0Error) (s' : Shelf) → receive n call s ≡ (err e, s')
    → (held_by s' ≡ held_by s) ⊎ (held_by s' ≡ held_by s ++ batch)
receive-failed zero batch call s e s' h = cc
receive-failed (suc n) batch call s e s' h = inl cc

shelves-IsDurable : IsDurable shelves held_by
shelves-IsDurable = record {
  added = λ batch call s same rs s' e. receive-added s.failing batch call s same rs s' e;
  failed = λ batch call s same e s' h. receive-failed s.failing batch call s e s' h;
}

abbrev settings : Mem0 Shelf
settings = record {
  store = shelves;
  user_id = codes "u";
  infer = true;
  guidelines = none;
  server_mode = false;
  search_threshold = codes "0.0";
  search_timeout = none;
  recall_header = codes "## Memory";
  python = python;
  numeral = λ n. n ∷ [];
  digest = λ s. s;
  Score = ℕ;
  score_ge = λ score floor. leb floor score;
  normalize_score = λ x. none;
  exn_of = λ e. record { class_name = codes "Mem0ApiError"; message = codes "down" };
  event_extensions = λ event. event;
}

abbrev no_memories : MemoryCounts
no_memories = record {
  memories_added = 0;
  memories_updated = 0;
  memories_deleted = 0;
  search_calls = 0;
}

abbrev row : Str → Fields
row id = field (codes "id") (text id) (field (codes "memory") (text (codes "fact")) no_fields)

abbrev shelf : ℕ → List Fields → Shelf
shelf failing rows = record { failing = failing; held = []; rows = rows }

abbrev traced : TraceState (mem0 settings)
traced = record {
  annotator = new_annotator;
  trace_session_id = some 0;
  session_open = true;
  memory_lane_enabled = true;
  delivery_enabled = true;
  pending_inputs = [];
  pending_search = none;
  outbox = [];
}

abbrev backend : Shelf → List (Str × Str) → Backend (mem0 settings)
backend s pending = record {
  available = true;
  session_id = some (codes "s");
  task_text = some (codes "fix the bug");
  current_query = some (codes "fix the bug");
  query_source = task;
  search_dirty = true;
  cached_recall = none;
  cached_anchor = none;
  events = [];
  counts = zero_counts;
  last_extract_bucket = 0;
  consecutive_errors = 1;
  extract_breaker = false;
  finalized = false;
  trace = some traced;
  io_duration = 0;
  recent_messages = [];
  last_rewrite_bucket = 0;
  rewrite_enabled = false;
  rewrite_consecutive_errors = 0;
  rewrite_breaker = false;
  next_id = 1;
  native = record { store = some s; pending = pending; memory_counts = no_memories };
}

abbrev any_events : List (AnnotationEvent (mem0 settings)) → Bool
any_events events = true

abbrev small : AnnotationEvent (mem0 settings) → ℕ
small event = 100

abbrev no_context : Step → Option (List Receipt) → Audit → Str
no_context step result audit = codes "{}"

perform_extraction-IsFlush_example :
    IsFlush settings config accepting any_events small
      (snapshot settings)
      (attribute settings)
      no_context
      (backend (shelf 0 []) ((codes "user", codes "hi") ∷ []))
      (shelf 0 [])
      (perform_extraction settings config accepting any_events small
        (snapshot settings)
        (attribute settings)
        no_context
        (at 10)
        (backend (shelf 0 []) ((codes "user", codes "hi") ∷ [])))
perform_extraction-IsFlush_example =
    Flushed.perform_extraction-IsFlush settings config accepting any_events small
      (snapshot settings) (attribute settings) no_context (at 10) (shelf 0 [])
      (backend (shelf 0 []) ((codes "user", codes "hi") ∷ [])) refl refl

abbrev message : Str → Entry
message content = dict (record {
  content = plain content;
  actions = none;
  transient_recall = false;
  role = some (codes "tool");
})

abbrev acts : List (
    Act settings config accepting any_events small
      (snapshot settings)
      (attribute settings)
      no_context)
acts =
    say (message (codes "one") ∷ []) 1 ∷ ask 10 ∷ say (message (codes "two") ∷ []) 11 ∷ ask 20 ∷ []

run-Kept_example :
    Kept settings config accepting any_events small
      (snapshot settings)
      (attribute settings)
      no_context
      held_by
      (all_heard settings config accepting any_events small
        (snapshot settings)
        (attribute settings)
        no_context
        acts
        (backend (shelf 1 []) []))
      (run settings config accepting any_events small
        (snapshot settings)
        (attribute settings)
        no_context
        acts
        (backend (shelf 1 []) []))
run-Kept_example =
    Kept.run-Kept settings config accepting any_events small (snapshot settings)
      (attribute settings) no_context held_by shelves-IsDurable acts (backend (shelf 1 []) []) []
      (shelf 1 [], refl, Sub-empty [])

abbrev old_rows : List Fields
old_rows = row (codes "m1") ∷ []

abbrev new_rows : List Fields
new_rows = row (codes "m1") ∷ row (codes "m2") ∷ []

abbrev before : Listing settings
before = (codes "m1", object (row (codes "m1"))) ∷ []

abbrev after : Listing settings
after = (codes "m1", object (row (codes "m1"))) ∷ (codes "m2", object (row (codes "m2"))) ∷ []

abbrev receipt : Receipt
receipt = record {
  id = text (codes "m2");
  memory = text (codes "fact");
  event = text (codes "ADD");
}

taken : snapshot settings (backend (shelf 0 old_rows) []) ≡ some before
unfolding snapshot snapshot_on read_listing keyed_rows put_row get get_or_null truth str_eq
taken = refl

taken_later : snapshot settings (backend (shelf 0 new_rows) []) ≡ some after
unfolding snapshot snapshot_on read_listing keyed_rows put_row get get_or_null truth str_eq
taken_later = refl

attributed :
    (a : Attribution (mem0 settings)) × (attribute_receipts settings
        (some before)
        (some (receipt ∷ []))
        (some after)
      ≡ some a)
    × (a.unexplained ≡ [])
unfolding attribute_receipts claim_all claim_step claim_receipt receipt_payload note_claim claim
    add_claim claims_of claims_action action_of receipt_hit audit_against_state observed_lines
    observed_line refs_of receipt_lines event_of memory_ref given_among get get_or_null truth str_eq
    row_at written_rows diff_row deleted_rows change_payload relate same_content update_payload
    attribute_changes memory_refs
attributed = (_, refl, refl)

uncited : All (λ r. cites settings (codes "m1") r ≡ false) (receipt ∷ [])
unfolding cites truth str_eq event_of action_of
uncited = (refl, tt)

attribute_receipts-explained_example : Same settings before after (codes "m1")
attribute_receipts-explained_example =
    let (a, e, quiet) = attributed in
    Explained.attribute_receipts-explained settings before after (receipt ∷ []) a (codes "m1")
      (backend (shelf 0 old_rows) []) (backend (shelf 0 new_rows) []) e quiet taken taken_later
      uncited
