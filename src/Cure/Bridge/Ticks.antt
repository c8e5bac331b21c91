-- ===== src/Cure/Bridge/Ticks.antt =====
-- What an extraction tick of the CURE integration comes to
-- (integration/cure_memory/src/cure_memory_bridge/backend.py, `_perform_extraction`).
use memory_bridge.Base.{ℕ, ◌+◌, ◌≡◌, Bool, List, Option, some, Str, if◌then◌else◌, is_empty}
use memory_bridge.Shared.Config.{MemoryConfig}
use memory_bridge.Shared.Integration.{Integration}
use memory_bridge.Shared.Annotate.{Net}
use memory_bridge.Shared.Backend.State.{
  Step, Exn, Outcome, returned, raised, AnnotationEvent, Audit, Backend,
}
use memory_bridge.Shared.Backend.Generation.{Generation, Attribution}
use memory_bridge.Cure.Model.{SessionMessage, Memory, ExtractionResult}
use memory_bridge.Cure.Store.{Env, Failure, Tried, done, failed}
use memory_bridge.Cure.Session.{System, extract_runtime_memories}
use memory_bridge.Cure.Session.Checkpoint.{Moves}
use memory_bridge.Cure.Bridge.{cure}

-- The failures in a row after a result.
abbrev pub failures_after : ExtractionResult → ℕ → ℕ
failures_after result n = if is_empty result.errors then 0 else n + 1

module _ (I : Integration) (c : MemoryConfig I.Score) where
  module _ (net : Net) (serializable : List (AnnotationEvent (cure I)) → Bool)
      (size_of : AnnotationEvent (cure I) → ℕ) (digest : Str → Str) {Snapshot : Type 0}
      (snapshot : Backend (cure I) → Option Snapshot)
      (attribute : Generation Snapshot
        → Option ExtractionResult
        → Option Snapshot
        → Backend (cure I)
        → Option (Attribution (cure I)))
      (end_context : Step → Option ExtractionResult → Audit → Str) (exn_of : Failure → Exn) where
    -- How the tick ends, by how the native extraction ended.
    abbrev pub Reported :
        Backend (cure I) → Tried ExtractionResult → Outcome × Backend (cure I) → Type 0
    Reported b (failed e) (o, b') =
        (o ≡ raised (exn_of e)) × (b'.consecutive_errors ≡ b.consecutive_errors)
    Reported b (done result) (o, b') =
        (o ≡ returned) × (b'.consecutive_errors ≡ failures_after result b.consecutive_errors)

    module _ (env : Env)
        (extract : List SessionMessage → List Memory → Option Str → ExtractionResult) where
      -- One counted tick that leaves the system as the native extraction left it.
      pub record IsTick (b : Backend (cure I)) (sys : System) (ended : Outcome × Backend (cure I))
          : Type 0 where
        pub reported : Reported b (extract_runtime_memories env extract sys).0 ended
        pub system : ended.1.native.system ≡ some (extract_runtime_memories env extract sys).1
        pub calls : ended.1.counts.extraction_calls ≡ b.counts.extraction_calls + 1
        pub moves : Moves sys (extract_runtime_memories env extract sys)
