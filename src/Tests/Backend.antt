-- ===== src/Tests/Backend.antt =====
-- The backend's schedules and its search cache at concrete inputs.
use memory_bridge.Base.{
  ℕ, ◌+◌, ◌≤◌, ◌≡◌, refl, true, false, List, [], ◌∷◌, none, strip, arith, codes,
}
use memory_bridge.Shared.Annotate.{cursor, post}
use memory_bridge.Shared.Recall.{payload_of, fill, select_hits}
use memory_bridge.Shared.Backend.State.{Backend, Step, Outcome, raised, Exn}
use memory_bridge.Shared.Backend.Trace.{
  memory_refs, recall_query, recall_search, begin_search, search_finish, recall_rendered, post_to,
  bind_start_result, close_search, arm_delivery,
}
use memory_bridge.Shared.Backend.Trace.Frame.{SameRecall-refl}
use memory_bridge.Shared.Recall.Raised.{
  rendering_raises, first_raise, floor_raises, round_raises, content_raises,
}
use memory_bridge.Shared.Backend.Recall.{
  render_hits, Searched, found, search_raised, nothing, recall_ready, recall_context, search_anew,
  settle_search, deliver_hits, conclude, memoize, memoize_empty, recall_failed, gate, serve_cached,
  anchor_of,
}
use memory_bridge.Shared.Backend.Recall.Frame.{as_cached}
use memory_bridge.Shared.Backend.Recall.Cache
use memory_bridge.Shared.Backend.Extract.Schedule.{attempts}
use memory_bridge.Shared.Backend.Extract.Breaker
use memory_bridge.Tests.Fixture.{notes, config, hits, accepting, any_events, started_backend}

recall_program : Unit {0}
unfolding render_hits rendering_raises first_raise floor_raises round_raises content_raises strip
    cursor memory_refs recall_context recall_ready recall_query search_anew settle_search
    deliver_hits conclude memoize memoize_empty recall_failed gate serve_cached anchor_of
    recall_search begin_search search_finish recall_rendered post_to bind_start_result close_search
    arm_delivery post fill select_hits payload_of
recall_program = tt

abbrev boom : Exn
boom = record { class_name = codes "TimeoutError"; message = codes "timed out" }

-- A search that returns the fixture's hits after 3 units, and one that raises.
abbrev finding : Backend notes → Searched notes × ℕ × Backend notes
finding b = (found hits, 3, b)

abbrev raising : Backend notes → Searched notes × ℕ × Backend notes
raising b = (search_raised boom, 3, b)

abbrev after_one : Backend notes
after_one = (recall_context config accepting any_events finding 1 started_backend).1

one_recall :
    (after_one.search_dirty ≡ false) × (after_one.io_duration ≡ 3) × (after_one.next_id ≡ 2)
unfolding recall_program
one_recall = (refl, refl, refl)

recall_context-again_example : recall_context config accepting any_events finding 2 after_one ≡ (
  as_cached (recall_context config accepting any_events finding 1 started_backend).0,
  after_one,
)
unfolding recall_program
recall_context-again_example =
    Cache.recall_context-again config accepting any_events finding 1 2 started_backend
      (record { same = λ b. SameRecall-refl b }) refl refl

recall_context_failed_example :
    ((recall_context config accepting any_events raising 1 started_backend).0 ≡ nothing)
    × ((recall_context config accepting any_events raising 1 started_backend).1.search_dirty ≡ true)
    × ((recall_context config accepting any_events raising 1 started_backend).1.cached_recall
        ≡ none)
unfolding recall_program
recall_context_failed_example =
    Cache.recall_context_failed config accepting any_events raising 1 started_backend boom
      (record { same = λ b. SameRecall-refl b }) refl refl refl

-- An extraction that is counted and raises.
abbrev failing : Step → Backend notes → Outcome × Backend notes
failing step b = (
  raised boom,
  record b { counts = record b.counts { extraction_calls = b.counts.extraction_calls + 1 } },
)

abbrev ticks : List ℕ
ticks = 3 ∷ 10 ∷ 11 ∷ 25 ∷ 29 ∷ 40 ∷ 50 ∷ 60 ∷ []

attempts-le-limit_example : attempts config failing ticks started_backend ≤ 3
attempts-le-limit_example =
    Breaker.attempts-le-limit config failing ticks started_backend
      (record { raises = λ s b. (boom, refl); errors = λ s b. refl; breaker = λ s b. refl })
      (omega arith) refl
