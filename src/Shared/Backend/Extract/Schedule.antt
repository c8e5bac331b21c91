-- ===== src/Shared/Backend/Extract/Schedule.antt =====
-- When the extraction of Shared/Backend/Extract.antt is attempted, and what an attempt leaves.
use memory_bridge.Base.{
  ◌∙◌, ap, ℕ, ◌+◌, ◌/◌, ◌≤◌, ◌<◌, ◌≡◌, inl, inr, Bool, true, false, List, [], ◌∷◌, All, arith,
  if◌then◌else◌, Bool-cases,
}
use memory_bridge.Shared.Config.{MemoryConfig}
use memory_bridge.Shared.Integration.{Integration}
use memory_bridge.Shared.Backend.State.{Step, at, Outcome, returned, Backend}
use memory_bridge.Shared.Backend.Extract.Frame.{SameSchedule, settle-SameSchedule, settle-dirty}
use memory_bridge.Shared.Backend.Extract.{
  settle_extraction, enter_bucket, extract_once, extract_due, maybe_extract,
}

module _ {I : Integration} (c : MemoryConfig I.Score)
    (perform : Step → Backend I → Outcome × Backend I) where
  pub extract_once_on :
      (step : Step) (b : Backend I)
      → b.available ≡ true
      → extract_once c perform step b
        ≡ settle_extraction c step b.counts.extraction_calls (perform step b)
  unfolding extract_once
  extract_once_on step b h =
      ap
        (λ (a : Bool).
          if a
          then settle_extraction c step b.counts.extraction_calls (perform step b)
          else (returned, b))
        h

  pub extract_once_off :
      (step : Step) (b : Backend I)
      → b.available ≡ false
      → extract_once c perform step b ≡ (returned, b)
  unfolding extract_once
  extract_once_off step b h =
      ap
        (λ (a : Bool).
          if a
          then settle_extraction c step b.counts.extraction_calls (perform step b)
          else (returned, b))
        h

  -- On an available backend a tick that the integration counted as a call marks the recall cache
  -- dirty, whether it returned or raised, and under `strict` too.
  pub search_dirty-extract_once :
      (step : Step) (b : Backend I)
      → b.available ≡ true
      → b.counts.extraction_calls < (perform step b).1.counts.extraction_calls
      → (extract_once c perform step b).1.search_dirty ≡ true
  search_dirty-extract_once step b a h =
      ap (λ (r : Outcome × Backend I). r.1.search_dirty) (extract_once_on step b a)
      ∙ settle-dirty c step b.counts.extraction_calls (perform step b).0 (perform step b).1 h

  -- The integration leaves the fields of the schedule to the base.
  pub record KeepsSchedule : Type 0 where
    pub same : (s : Step) (b : Backend I) → SameSchedule b (perform s b).1

  pub maybe_extract_due :
      (step : ℕ) (b : Backend I)
      → extract_due c step b ≡ true
      → maybe_extract c perform step b ≡ extract_once c perform (at step) (enter_bucket c step b)
  unfolding maybe_extract
  maybe_extract_due step b h =
      ap
        (λ (d : Bool).
          if d then extract_once c perform (at step) (enter_bucket c step b) else (returned, b))
        h

  pub maybe_extract_idle :
      (step : ℕ) (b : Backend I)
      → extract_due c step b ≡ false
      → maybe_extract c perform step b ≡ (returned, b)
  unfolding maybe_extract
  maybe_extract_idle step b h =
      ap
        (λ (d : Bool).
          if d then extract_once c perform (at step) (enter_bucket c step b) else (returned, b))
        h

  -- The ticks of an episode in order, and how many of them attempt an extraction.
  unfoldable pub run_ticks : List ℕ → Backend I → Backend I
  run_ticks [] b = b
  run_ticks (s ∷ steps) b = run_ticks steps (maybe_extract c perform s b).1

  unfoldable pub attempts : List ℕ → Backend I → ℕ
  attempts [] b = 0
  attempts (s ∷ steps) b =
      (if extract_due c s b then 1 else 0) + attempts steps (maybe_extract c perform s b).1

  pub attempts_due :
      (s : ℕ) (steps : List ℕ) (b : Backend I)
      → extract_due c s b ≡ true
      → attempts (s ∷ steps) b ≡ 1 + attempts steps (maybe_extract c perform s b).1
  unfolding attempts
  attempts_due s steps b h = rw h

  pub attempts_idle :
      (s : ℕ) (steps : List ℕ) (b : Backend I)
      → extract_due c s b ≡ false
      → attempts (s ∷ steps) b ≡ attempts steps b
  unfolding attempts
  attempts_idle s steps b h = rw (h, maybe_extract_idle s b h) (omega arith)

  extract_once-bucket :
      (step : Step) (b : Backend I)
      → KeepsSchedule
      → (extract_once c perform step b).1.last_extract_bucket ≡ b.last_extract_bucket
  extract_once-bucket step b k = elim (Bool-cases b.available) [
    | inl on ↦
        ap (λ (r : Outcome × Backend I). r.1.last_extract_bucket) (extract_once_on step b on)
        ∙ (settle-SameSchedule c step b.counts.extraction_calls (perform step b).0
            (perform step b).1).bucket
        ∙ (k.same step b).bucket
    | inr off ↦
        ap (λ (r : Outcome × Backend I). r.1.last_extract_bucket) (extract_once_off step b off)
  ]

  maybe_extract-bucket :
      (step : ℕ) (b : Backend I)
      → KeepsSchedule
      → (maybe_extract c perform step b).1.last_extract_bucket
        ≡ (if extract_due c step b then step / c.extract_every_n_steps else b.last_extract_bucket)
  unfolding maybe_extract
  maybe_extract-bucket step b k =
      ground (arith, extract_once-bucket (at step) (enter_bucket c step b) k)

  due-lt :
      (step : ℕ) (b : Backend I)
      → extract_due c step b ≡ true
      → b.last_extract_bucket < step / c.extract_every_n_steps
  unfolding extract_due
  due-lt step b h = ground arith

  attempts-bucket :
      (steps : List ℕ) (b : Backend I)
      → KeepsSchedule
      → attempts steps b + b.last_extract_bucket ≤ (run_ticks steps b).last_extract_bucket
  unfolding attempts run_ticks
  attempts-bucket [] b k = omega arith
  attempts-bucket (s ∷ steps) b k = ground (
    arith,
    maybe_extract-bucket s b k,
    due-lt s b,
    attempts-bucket steps (maybe_extract c perform s b).1 k,
  )

  run_ticks-bucket-le :
      (steps : List ℕ) (n : ℕ) (b : Backend I)
      → KeepsSchedule
      → All (λ s. s / c.extract_every_n_steps ≤ n) steps
      → b.last_extract_bucket ≤ n
      → (run_ticks steps b).last_extract_bucket ≤ n
  unfolding run_ticks
  run_ticks-bucket-le [] n b k h low = low
  run_ticks-bucket-le (s ∷ steps) n b k h low =
      run_ticks-bucket-le steps n (maybe_extract c perform s b).1 k h.1
        (ground (arith, maybe_extract-bucket s b k))

  -- Whatever the order of the ticks and whatever the extractions come to, an episode that starts in
  -- the first interval and whose steps lie within the first `n` ones attempts at most `n` periodic
  -- extractions, if the integration leaves the fields of the schedule to the base.
  pub attempts-le :
      (steps : List ℕ) (n : ℕ) (b : Backend I)
      → KeepsSchedule
      → All (λ s. s / c.extract_every_n_steps ≤ n) steps
      → b.last_extract_bucket ≡ 0
      → attempts steps b ≤ n
  attempts-le steps n b k h fresh =
      omega (arith, attempts-bucket steps b k, run_ticks-bucket-le steps n b k h (omega arith))
