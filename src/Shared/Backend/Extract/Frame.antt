-- ===== src/Shared/Backend/Extract/Frame.antt =====
-- What the bookkeeping of an extraction attempt does to the fields of the schedule, of the breaker
-- and of the recall cache, one lemma for each function.
use mathlib.Core.Path.{ap₂}
use memory_bridge.Base.{
  ◌||◌, ap, ◌<◌, refl, ◌∙◌, ℕ, ◌+◌, ◌≡◌, Bool, true, arith, Str, ltb, leb, ◌&&◌,
}
use memory_bridge.Shared.Config.{MemoryConfig}
use memory_bridge.Shared.Integration.{Integration}
use memory_bridge.Shared.Backend.State.{Step, Exn, Outcome, returned, raised, Backend}
use memory_bridge.Shared.Backend.Extract.{
  count_extraction_error, trip_extract_breaker, register_extraction_failure, mark_if_counted,
  settle_extraction,
}

-- The fields that decide whether a tick is due, the breaker apart.
pub record SameSchedule {I : Integration} (b b' : Backend I) : Type 0 where
  pub available : b'.available ≡ b.available
  pub finalized : b'.finalized ≡ b.finalized
  pub bucket : b'.last_extract_bucket ≡ b.last_extract_bucket

-- Whether the breaker is open after one more failure, from the limit, the failures and the breaker
-- before.
abbrev pub trips_at : ℕ → ℕ → Bool → Bool
trips_at limit errors open_before = open_before || (ltb 0 limit && leb limit (errors + 1))

module _ {I : Integration} where
  SameSchedule-trans : {a b d : Backend I} → SameSchedule a b → SameSchedule b d → SameSchedule a d
  SameSchedule-trans p q = record {
    available = q.available ∙ p.available;
    finalized = q.finalized ∙ p.finalized;
    bucket = q.bucket ∙ p.bucket;
  }

  counted-SameSchedule : (b : Backend I) → SameSchedule b (count_extraction_error b)
  counted-SameSchedule b = record { available = refl; finalized = refl; bucket = refl }

  pub mark_if_counted-SameSchedule : (n : ℕ) (b : Backend I) → SameSchedule b (mark_if_counted n b)
  unfolding mark_if_counted
  mark_if_counted-SameSchedule n b = ground arith

  mark_if_counted-dirty :
      (n : ℕ) (b : Backend I)
      → n < b.counts.extraction_calls
      → (mark_if_counted n b).search_dirty ≡ true
  unfolding mark_if_counted
  mark_if_counted-dirty n b h = ground arith

  mark_if_counted-breaker :
      (n : ℕ) (b : Backend I)
      → ((mark_if_counted n (count_extraction_error b)).consecutive_errors ≡ b.consecutive_errors)
        × ((mark_if_counted n (count_extraction_error b)).extract_breaker ≡ b.extract_breaker)
  unfolding mark_if_counted
  mark_if_counted-breaker n b = ground arith

module _ {I : Integration} (c : MemoryConfig I.Score) where
  pub register-SameSchedule :
      (step : Step) (message : Str) (b : Backend I)
      → SameSchedule b (register_extraction_failure c step message true b)
  unfolding register_extraction_failure trip_extract_breaker
  register-SameSchedule step message b = ground arith

  pub settle-SameSchedule :
      (step : Step) (n : ℕ) (o : Outcome) (b : Backend I)
      → SameSchedule b (settle_extraction c step n (o, b)).1
  settle-SameSchedule step n returned b =
      unfold settle_extraction in mark_if_counted-SameSchedule n b
  settle-SameSchedule step n (raised e) b =
      unfold settle_extraction in
      SameSchedule-trans (counted-SameSchedule b) (
        SameSchedule-trans (mark_if_counted-SameSchedule n (count_extraction_error b))
          (register-SameSchedule step e.message (mark_if_counted n (count_extraction_error b))))

  register-dirty :
      (step : Step) (message : Str) (b : Backend I)
      → (register_extraction_failure c step message true b).search_dirty ≡ b.search_dirty
  unfolding register_extraction_failure trip_extract_breaker
  register-dirty step message b = ground arith

  pub settle-dirty :
      (step : Step) (n : ℕ) (o : Outcome) (b : Backend I)
      → n < b.counts.extraction_calls
      → (settle_extraction c step n (o, b)).1.search_dirty ≡ true
  unfolding settle_extraction
  settle-dirty step n returned b h = mark_if_counted-dirty n b h
  settle-dirty step n (raised e) b h =
      register-dirty step e.message (mark_if_counted n (count_extraction_error b))
      ∙ mark_if_counted-dirty n (count_extraction_error b) h

  register-breaker :
      (step : Step) (message : Str) (b : Backend I)
      → ((register_extraction_failure c step message true b).consecutive_errors
          ≡ b.consecutive_errors + 1)
        × ((register_extraction_failure c step message true b).extract_breaker
            ≡ trips_at c.extract_max_consecutive_errors b.consecutive_errors b.extract_breaker)
  unfolding register_extraction_failure trip_extract_breaker
  register-breaker step message b = ground arith

  pub settle-breaker :
      (step : Step) (n : ℕ) (e : Exn) (b : Backend I)
      → ((settle_extraction c step n (raised e, b)).1.consecutive_errors ≡ b.consecutive_errors + 1)
        × ((settle_extraction c step n (raised e, b)).1.extract_breaker
            ≡ trips_at c.extract_max_consecutive_errors b.consecutive_errors b.extract_breaker)
  unfolding settle_extraction
  settle-breaker step n e b =
      let (p, q) = register-breaker step e.message (mark_if_counted n (count_extraction_error b)) in
      let (r, s) = mark_if_counted-breaker n b in
      (p ∙ ap (λ (k : ℕ). k + 1) r, q ∙ ap₂ (trips_at c.extract_max_consecutive_errors) r s)
