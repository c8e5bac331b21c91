-- ===== src/Tests/Queries.antt =====
-- The task, the rewriter and the recall cache at concrete inputs.
use memory_bridge.Base.{ℕ, ◌+◌, ◌≡◌, refl, true, false, List, [], Str, codes, arith}
use memory_bridge.Shared.Config.{MemoryConfig}
use memory_bridge.Shared.Backend.State.{Backend, Step, at, Outcome, raised}
use memory_bridge.Shared.Backend.Recall.{Searched, found}
use memory_bridge.Shared.Backend.Extract.{extract_once}
use memory_bridge.Shared.Backend.Rewrite.{Structured, value, rewrite_due, maybe_rewrite}
use memory_bridge.Shared.Backend.Rewrite.Outcomes
use memory_bridge.Shared.Backend.Rewrite.Outcomes.{Rewritten}
use memory_bridge.Shared.Backend.Start.{
  start_backend, reset, settle_startup, settle_rewrite, begin_episode, trace_setup,
  resolve_rewrite_settings,
}
use memory_bridge.Shared.Backend.Start.Fresh
use memory_bridge.Shared.Backend.Start.Fresh.{SearchesAnew}
use memory_bridge.Tests.Fixture.{notes, config, hits, accepting, any_events, started_backend}

abbrev answering : Backend notes → Searched notes × ℕ × Backend notes
answering b = (found hits, 2, b)

-- An extraction that is counted and raises.
abbrev half_written : Step → Backend notes → Outcome × Backend notes
half_written step b = (
  raised (record { class_name = codes "TimeoutError"; message = codes "poll timed out" }),
  record b { counts = record b.counts { extraction_calls = b.counts.extraction_calls + 1 } },
)

abbrev rewriting_config : MemoryConfig ℕ
rewriting_config = record config { rewrite_every_n_steps = 5 }

abbrev rewriting_backend : Backend notes
rewriting_backend = record started_backend { rewrite_enabled = true; search_dirty = false }

abbrev narrowed : Str → List (Str × Str) → Structured × ℕ
narrowed task recent = (value (codes "toolchain version"), 1)

-- A start that takes over nothing of the previous episode.
start_run :
    (start_backend config
      (λ x. x)
      (λ b. (Outcome.returned, b))
      (λ b. (Outcome.returned, b))
      true
      (resolve_rewrite_settings 0 [] [] [])
      (record started_backend { finalized = true; consecutive_errors = 7 })).1.consecutive_errors
    ≡ 0
unfolding start_backend reset settle_startup settle_rewrite begin_episode trace_setup
    resolve_rewrite_settings
start_run = refl

recall-extract_once_example :
    SearchesAnew config accepting any_events answering 1
      (extract_once config half_written (at 10) started_backend).1
recall-extract_once_example =
    Fresh.recall-extract_once config accepting any_events answering half_written (at 10) 1
      started_backend refl (omega arith)

maybe_rewrite-Rewritten_example :
    Rewritten rewriting_config
      (value (codes "toolchain version"))
      rewriting_backend
      (maybe_rewrite rewriting_config narrowed 5 rewriting_backend).1
unfolding rewrite_due
maybe_rewrite-Rewritten_example =
    Outcomes.maybe_rewrite-Rewritten rewriting_config narrowed 5 rewriting_backend refl refl
