-- ===== src/Shared/Backend/Rewrite.antt =====
-- The query rewriter of shared-bridge/src/shared_bridge/backend.py: `maybe_rewrite`,
-- `_rewrite_query`, `_register_rewrite_failure` and the task half of `_rewrite_messages`. `call` is
-- the side-model call on the capped task and the recent messages, with the seconds that it took.
pub mod Outcomes
use memory_bridge.Base.{
  ℕ, ◌+◌, ◌/◌, Bool, true, ◌&&◌, not, List, some, Str, if◌then◌else◌, ltb, leb,
}
use memory_bridge.Shared.Config.{MemoryConfig}
use memory_bridge.Shared.Integration.{Integration}
use memory_bridge.Shared.Truncate.{truncate}
use memory_bridge.Shared.Backend.State.{
  Exn, Outcome, returned, raised, rewrite_done, rewrite_failed, rewrite_breaker_tripped, rewritten,
  Backend, log_event, mark_store_changed,
}
use memory_bridge.Shared.Backend.Trace.{or_blank}

-- `StructuredResult`, or an exception out of the call.
pub data Structured : Type 0 where
  value : Str → Structured
  no_value : Str → Structured
  call_raised : Exn → Structured

module _ {I : Integration} where
  -- The success half: the query is replaced and the search cache marked dirty.
  unfoldable pub adopt_query : ℕ → Str → Backend I → Backend I
  adopt_query step query b = mark_store_changed (
      log_event (rewrite_done step query) (record b {
        current_query = some query;
        query_source = rewritten;
        counts = record b.counts { rewrite_successes = b.counts.rewrite_successes + 1 };
        rewrite_consecutive_errors = 0;
      }))

module _ {I : Integration} (c : MemoryConfig I.Score) where
  unfoldable pub register_rewrite_failure : ℕ → Backend I → Backend I
  register_rewrite_failure step b =
      let errors = b.rewrite_consecutive_errors + 1 in
      let b' : Backend I = record b { rewrite_consecutive_errors = errors } in
      let limit = c.rewrite_max_consecutive_errors in
      if ltb 0 limit && leb limit errors && not b.rewrite_breaker
      then log_event (rewrite_breaker_tripped step errors) (record b' { rewrite_breaker = true })
      else b'

  abbrev count_rewrite_failure : Backend I → Backend I
  count_rewrite_failure b = record b {
    counts = record b.counts { rewrite_failures = b.counts.rewrite_failures + 1 };
  }

  unfoldable pub rewrite_failure : ℕ → Str → Backend I → Backend I
  rewrite_failure step message b =
      register_rewrite_failure step
        (log_event (rewrite_failed step message) (count_rewrite_failure b))

  unfoldable pub rewrite_due : ℕ → Backend I → Bool
  rewrite_due step b =
      b.available
      && not b.finalized
      && ltb 0 c.rewrite_every_n_steps
      && not b.rewrite_breaker
      && ltb b.last_rewrite_bucket (step / c.rewrite_every_n_steps)

  -- The `except` of `maybe_rewrite`.
  unfoldable pub contain_rewrite : ℕ → Outcome × Backend I → Outcome × Backend I
  contain_rewrite step (returned, b) = (returned, b)
  contain_rewrite step (raised e, b) =
      (if c.strict then raised e else returned, rewrite_failure step e.message b)

  -- What follows the call.
  unfoldable pub settle_call : ℕ → Structured → Backend I → Outcome × Backend I
  settle_call step (value query) b = (returned, adopt_query step query b)
  settle_call step (no_value message) b = (returned, rewrite_failure step message b)
  settle_call step (call_raised e) b = (raised e, b)

  module _ (call : Str → List (Str × Str) → Structured × ℕ) where
    -- The input of the rewriter: `_rewrite_messages` without the prompt text around it.
    abbrev pub rewrite_call : Backend I → Structured × ℕ
    rewrite_call b = call (truncate (or_blank b.task_text) c.max_message_chars) b.recent_messages

    unfoldable pub rewrite_query : ℕ → Backend I → Outcome × Backend I
    rewrite_query step b =
        let (result, seconds) = rewrite_call b in
        let called : Backend I = record b {
          counts = record b.counts { rewrite_calls = b.counts.rewrite_calls + 1 };
          io_duration = b.io_duration + seconds;
        } in
        if b.rewrite_enabled then settle_call step result called else (returned, b)

    unfoldable pub maybe_rewrite : ℕ → Backend I → Outcome × Backend I
    maybe_rewrite step b =
        if rewrite_due step b
        then contain_rewrite step
            (rewrite_query step (record b { last_rewrite_bucket = step / c.rewrite_every_n_steps }))
        else (returned, b)
