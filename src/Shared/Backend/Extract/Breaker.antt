-- ===== src/Shared/Backend/Extract/Breaker.antt =====
-- The extraction breaker of shared-bridge/src/shared_bridge/backend.py against an integration whose
-- every extraction raises.
use mathlib.Core.Path.{sym, ap₂}
use memory_bridge.Base.{
  ℕ, ◌+◌, ◌≤◌, ◌<◌, ◌≡◌, ap, ◌∙◌, inl, inr, true, false, List, [], ◌∷◌, arith, Bool-cases,
}
use memory_bridge.Shared.Config.{MemoryConfig}
use memory_bridge.Shared.Integration.{Integration}
use memory_bridge.Shared.Backend.State.{Step, at, Exn, Outcome, raised, Backend}
use memory_bridge.Shared.Backend.Extract.{
  settle_extraction, extract_once, extract_due, enter_bucket, maybe_extract,
}
use memory_bridge.Shared.Backend.Extract.Frame.{trips_at, settle-breaker}
use memory_bridge.Shared.Backend.Extract.Schedule.{
  maybe_extract_due, attempts, attempts_due, attempts_idle, extract_once_on, maybe_extract_due,
}

next_failure :
    (limit errors : ℕ)
    → errors < limit
    → (errors + 1 ≤ limit) × (trips_at limit errors false ≡ false → errors + 1 < limit)
next_failure limit errors h = (omega arith, λ closed. ground arith)

module _ {I : Integration} (c : MemoryConfig I.Score)
    (perform : Step → Backend I → Outcome × Backend I) where
  -- Every extraction raises and leaves the breaker's two fields to the base.
  pub record AlwaysRaises : Type 0 where
    pub raises : (s : Step) (b : Backend I) → (e : Exn) × ((perform s b).0 ≡ raised e)
    pub errors :
        (s : Step) (b : Backend I) → (perform s b).1.consecutive_errors ≡ b.consecutive_errors
    pub breaker : (s : Step) (b : Backend I) → (perform s b).1.extract_breaker ≡ b.extract_breaker

  due-facts :
      (step : ℕ) (b : Backend I)
      → extract_due c step b ≡ true
      → (b.available ≡ true) × (b.extract_breaker ≡ false)
  unfolding extract_due
  due-facts step b h = ground arith

  extract_once-breaker :
      (step : Step) (b : Backend I)
      → AlwaysRaises
      → b.available ≡ true
      → ((extract_once c perform step b).1.consecutive_errors ≡ b.consecutive_errors + 1)
        × ((extract_once c perform step b).1.extract_breaker
            ≡ trips_at c.extract_max_consecutive_errors b.consecutive_errors b.extract_breaker)
  extract_once-breaker step b f a =
      let (e, p) = f.raises step b in
      let (q, r) = settle-breaker c step b.counts.extraction_calls e (perform step b).1 in
      let on : extract_once c perform step b
          ≡ settle_extraction c step b.counts.extraction_calls (raised e, (perform step b).1) =
        extract_once_on c perform step b a
        ∙ ap
            (λ (o : Outcome).
              settle_extraction c step b.counts.extraction_calls (o, (perform step b).1))
            p in
      (
        ap (λ (r : Outcome × Backend I). r.1.consecutive_errors) on
            ∙ q
            ∙ ap (λ (k : ℕ). k + 1) (f.errors step b),
        ap (λ (r : Outcome × Backend I). r.1.extract_breaker) on
            ∙ r
            ∙ ap₂ (trips_at c.extract_max_consecutive_errors) (f.errors step b) (f.breaker step b),
      )

  -- The failures in a row are at most the limit, and below it while the breaker is closed.
  pub record IsArmed (b : Backend I) : Type 0 where
    pub bounded : b.consecutive_errors ≤ c.extract_max_consecutive_errors
    pub closed : b.extract_breaker ≡ false → b.consecutive_errors < c.extract_max_consecutive_errors

  one_failure :
      (step : ℕ) (b : Backend I)
      → AlwaysRaises
      → extract_due c step b ≡ true
      → ((maybe_extract c perform step b).1.consecutive_errors ≡ b.consecutive_errors + 1)
        × ((maybe_extract c perform step b).1.extract_breaker
            ≡ trips_at c.extract_max_consecutive_errors b.consecutive_errors b.extract_breaker)
  one_failure step b f due =
      let on = maybe_extract_due c perform step b due in
      let (p, q) =
        extract_once-breaker (at step) (enter_bucket c step b) f (due-facts step b due).0 in
      (
        ap (λ (r : Outcome × Backend I). r.1.consecutive_errors) on ∙ p,
        ap (λ (r : Outcome × Backend I). r.1.extract_breaker) on ∙ q,
      )

  IsArmed-next :
      (step : ℕ) (b : Backend I)
      → AlwaysRaises
      → extract_due c step b ≡ true
      → IsArmed b
      → IsArmed (maybe_extract c perform step b).1
  IsArmed-next step b f due armed =
      let (p, q) = one_failure step b f due in
      let (_, off) = due-facts step b due in
      let (low, next) =
        next_failure c.extract_max_consecutive_errors b.consecutive_errors (armed.closed off) in
      record { bounded = rw p low; closed = λ h. rw p (next (rw off at (sym q ∙ h))) }

  attempts-errors :
      (steps : List ℕ) (b : Backend I)
      → AlwaysRaises
      → IsArmed b
      → attempts c perform steps b + b.consecutive_errors ≤ c.extract_max_consecutive_errors
  attempts-errors [] b f armed = unfold attempts in omega (arith, armed.bounded)
  attempts-errors (s ∷ steps) b f armed = elim (Bool-cases (extract_due c s b)) [
    | inl due ↦ rw (attempts_due c perform s steps b due) (
        omega (
          arith,
          attempts-errors steps (maybe_extract c perform s b).1 f (IsArmed-next s b f due armed),
          (one_failure s b f due).0,
        ))
    | inr idle ↦ rw (attempts_idle c perform s steps b idle) (attempts-errors steps b f armed)
  ]

  -- Where every extraction raises and leaves the fields of the breaker to the base, an episode that starts with no failure in a row attempts at
  -- most `extract_max_consecutive_errors` periodic extractions, if that is positive, however many
  -- ticks it has.
  pub attempts-le-limit :
      (steps : List ℕ) (b : Backend I)
      → AlwaysRaises
      → 0 < c.extract_max_consecutive_errors
      → b.consecutive_errors ≡ 0
      → attempts c perform steps b ≤ c.extract_max_consecutive_errors
  attempts-le-limit steps b f pos fresh =
      let armed : IsArmed b = record { bounded = omega arith; closed = λ _. omega arith } in
      omega (arith, attempts-errors steps b f armed)
