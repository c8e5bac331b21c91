-- ===== src/Tests/Transport.antt =====
-- The annotation transport and its batches at concrete inputs.
use memory_bridge.Base.{ℕ, ◌*◌, ◌≡◌, refl, Bool, true, List, [], ◌∷◌, arith, All}
use memory_bridge.Shared.Annotate.{Net, connection_failed, new_annotator}
use memory_bridge.Shared.Annotate.Breaker
use memory_bridge.Shared.Annotate.Breaker.{IsSound}
use memory_bridge.Shared.Chunk.{chunk_events}
use memory_bridge.Shared.Chunk.Batches
use memory_bridge.Shared.Chunk.Batches.{concat, IsBatch}

-- No attempt gets through.
abbrev dead : Net
dead = record { reply = λ k. connection_failed; clock = λ k. 5 * k }

abbrev five : List Bool
five = true ∷ true ∷ true ∷ true ∷ true ∷ []

run-new_annotator-IsSound_example : IsSound dead 1 3 (Breaker.run dead 1 3 five new_annotator)
run-new_annotator-IsSound_example = Breaker.run-new_annotator-IsSound dead 1 3 five (omega arith)

abbrev sizes : List ℕ
sizes = 10 ∷ 1_000_000 ∷ 100_000 ∷ 2_000_000 ∷ 5 ∷ []

chunk_run :
    chunk_events (λ (n : ℕ). n) sizes
    ≡ (10 ∷ 1_000_000 ∷ []) ∷ (100_000 ∷ []) ∷ (2_000_000 ∷ []) ∷ (5 ∷ []) ∷ []
unfolding chunk_events
chunk_run = refl

concat-chunk_events_example : concat (chunk_events (λ (n : ℕ). n) sizes) ≡ sizes
concat-chunk_events_example = Batches.concat-chunk_events (λ n. n) sizes

chunk_events-IsBatch_example : All (IsBatch (λ (n : ℕ). n)) (chunk_events (λ (n : ℕ). n) sizes)
chunk_events-IsBatch_example = Batches.chunk_events-IsBatch (λ n. n) sizes
