-- ===== src/Tests/Generation.antt =====
-- Generation tracing at concrete inputs.
use memory_bridge.Base.{
  true, ℕ, ◌<◌, ◌≡◌, refl, ◌⊎◌, false, List, [], ◌∷◌, map, Option, none, some, codes, length,
  str_eq,
}
use memory_bridge.Shared.Backend.State.{
  at, Change, ChangeAction, create, update, delete, whole, GenerationEnd, all_done, seen,
  AnnotationEvent, memory_generate_end, OperationTrace,
}
use memory_bridge.Shared.Backend.Generation.{Attribution, change_events, post_generation}
use memory_bridge.Shared.Backend.Generation.Closing
use memory_bridge.Shared.Backend.Generation.Closing.{Closed}
use memory_bridge.Shared.Backend.Generation.Diff.{
  attribute_changes, Rows, written_rows, deleted_rows, diff_row, row_at, change_payload, relate,
  same_content,
}
use memory_bridge.Shared.Backend.Trace.{memory_refs}
use memory_bridge.Shared.Backend.Generation.Faithful
use memory_bridge.Shared.Backend.Generation.Faithful.{Agrees}
use memory_bridge.Shared.Chunk.{chunk_events}
use memory_bridge.Tests.Fixture.{
  notes, note, config, accepting, any_events, traced, started_backend,
}

abbrev size_of : AnnotationEvent notes → ℕ
size_of event = 100

abbrev operation : OperationTrace
operation = record { operation_id = 5; cursor = some 7; disabled = false; start_accepted = true }

abbrev created : Change notes
created = record {
  action = create;
  before = [];
  after = codes "use tabs" ∷ [];
  relationships = [];
  evidence = codes "observed_diff";
  completeness = whole;
  extensions = codes "{}";
}

abbrev report : GenerationEnd notes
report = record {
  status = all_done;
  produced = codes "use tabs" ∷ [];
  change_count = 1;
  state_evidence = seen;
  error_codes = [];
  context = codes "{}";
}

post_generation-Closed_example :
    Closed traced operation
      (chunk_events size_of (change_events (some 0) operation 0 1 (created ∷ [])))
      (memory_generate_end (some 0) 5 report (some 7))
      (post_generation config accepting any_events size_of operation
        (at 10)
        (created ∷ [])
        report
        started_backend)
post_generation-Closed_example =
    Closing.post_generation-Closed config accepting any_events size_of operation (at 10)
      (created ∷ []) report traced started_backend refl

abbrev before : Rows notes some (λ r. r)
before = (codes "1", note (codes "use tabs") 1) ∷ (codes "2", note (codes "run make") 1) ∷ []

abbrev after : Rows notes some (λ r. r)
after = (codes "1", note (codes "use spaces") 1) ∷ (codes "3", note (codes "run ninja") 1) ∷ []

attribute_changes-Returns_example :
    (a : Attribution notes) × (attribute_changes notes some (λ r. r) (some before) (some after)
      ≡ some a)
    × ((0 < length a.changes) ⊎ Agrees notes some (λ r. r) before after)
attribute_changes-Returns_example =
    Faithful.attribute_changes-Returns notes some (λ r. r) (λ row. (row.line, refl)) before after

abbrev actions : Option (Attribution notes) → List ChangeAction
actions none = []
actions (some a) = map (λ (x : Change notes). x.action) a.changes

-- One note was reworded, one is new and one is gone.
finds_each_change :
    actions (attribute_changes notes some (λ r. r) (some before) (some after))
    ≡ update ∷ create ∷ delete ∷ []
unfolding attribute_changes written_rows deleted_rows diff_row row_at change_payload relate
    memory_refs same_content str_eq
finds_each_change = refl
