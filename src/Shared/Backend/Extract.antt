-- ===== src/Shared/Backend/Extract.antt =====
-- The extraction schedule of shared-bridge/src/shared_bridge/backend.py: `maybe_extract`, `_extract`
-- and `_register_extraction_failure`. `perform` is the integration's `_perform_extraction`.
pub mod Frame
pub mod Schedule
pub mod Breaker
use memory_bridge.Base.{
  ℕ, ◌+◌, ◌/◌, Bool, true, false, ◌&&◌, ◌||◌, not, Option, none, some, Str, if◌then◌else◌, ltb, leb,
  ◌==◌,
}
use memory_bridge.Shared.Config.{MemoryConfig}
use memory_bridge.Shared.Integration.{Integration}
use memory_bridge.Shared.Backend.State.{
  Step, at, Exn, Outcome, returned, raised, extract, error, extract_breaker_tripped, Backend,
  log_event, mark_store_changed,
}

module _ {I : Integration} where
  -- The store may have changed on a counted tick, whatever its outcome.
  unfoldable pub mark_if_counted : ℕ → Backend I → Backend I
  mark_if_counted calls_before b =
      if ltb calls_before b.counts.extraction_calls then mark_store_changed b else b

  abbrev pub count_extraction_error : Backend I → Backend I
  count_extraction_error b = record b {
    counts = record b.counts { extraction_errors = b.counts.extraction_errors + 1 };
  }

module _ {I : Integration} (c : MemoryConfig I.Score) where
  -- The breaker half of `_register_extraction_failure`.
  unfoldable pub trip_extract_breaker : Step → Backend I → Backend I
  trip_extract_breaker step b =
      let limit = c.extract_max_consecutive_errors in
      if ltb 0 limit && leb limit b.consecutive_errors && not b.extract_breaker
      then log_event (extract_breaker_tripped step b.consecutive_errors)
          (record b { extract_breaker = true })
      else b

  unfoldable pub register_extraction_failure : Step → Str → Bool → Backend I → Backend I
  register_extraction_failure step message log b =
      let b' : Backend I = record b { consecutive_errors = b.consecutive_errors + 1 } in
      trip_extract_breaker step
        (if log then log_event (error extract (some step) message) b' else b')

  -- `step // interval > self._last_extract_bucket`, under the guards
  unfoldable pub extract_due : ℕ → Backend I → Bool
  extract_due step b =
      b.available
      && not b.finalized
      && ltb 0 c.extract_every_n_steps
      && not b.extract_breaker
      && ltb b.last_extract_bucket (step / c.extract_every_n_steps)

  -- `_extract` from the end of `_perform_extraction` on: the `except` block, and what follows a
  -- return.
  unfoldable pub settle_extraction : Step → ℕ → Outcome × Backend I → Outcome × Backend I
  settle_extraction step calls_before (returned, b) = (returned, mark_if_counted calls_before b)
  settle_extraction step calls_before (raised e, b) = (
    if c.strict then raised e else returned,
    register_extraction_failure step e.message true
        (mark_if_counted calls_before (count_extraction_error b)),
  )

  -- `self._last_extract_bucket = bucket`
  abbrev pub enter_bucket : ℕ → Backend I → Backend I
  enter_bucket step b = record b { last_extract_bucket = step / c.extract_every_n_steps }

  module _ (perform : Step → Backend I → Outcome × Backend I) where
    unfoldable pub extract_once : Step → Backend I → Outcome × Backend I
    extract_once step b =
        if b.available
        then settle_extraction step b.counts.extraction_calls (perform step b)
        else (returned, b)

    unfoldable pub maybe_extract : ℕ → Backend I → Outcome × Backend I
    maybe_extract step b =
        if extract_due step b then extract_once (at step) (enter_bucket step b) else (returned, b)
