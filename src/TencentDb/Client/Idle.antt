-- ===== src/TencentDb/Client/Idle.antt =====
-- The wait for an idle pipeline (integration/tencentdb/src/tencentdb_bridge/client.py, `wait_l1_idle`).
use memory_bridge.Base.{
  ℕ, suc, ◌+◌, ◌≤◌, ◌<◌, ◌≡◌, refl, Bool, true, false, some, arith, ◌⊎◌, inl, inr,
}
use memory_bridge.Shared.Json.{Fields}
use memory_bridge.Shared.Poll.{settled, waiting, Ends, Sleeps, poll-Ends, poll-on_time}
use memory_bridge.TencentDb.Client.{Result, ok, err, Request, Answer, Python}
use memory_bridge.TencentDb.Client.Calls.{
  is_idle, idle_round, pipeline_status, ask_idle, wait_l1_idle,
}

idle_round-true :
    (P : Python) (r : Result Fields)
    → (idle_round P r ≡ settled true) ⊎ (idle_round P r ≡ waiting true)
    → (status : Fields) × (r ≡ ok status) × (is_idle P status ≡ true)
unfolding idle_round
idle_round-true P (ok status) h = (status, refl, ground (arith, h))
idle_round-true P (err e) h = ground (arith, h)

module _ (P : Python) (send : ℕ → Request → Answer) (clock : ℕ → ℕ) (budget : ℕ) where
  -- With an interval that is not 0, sleeps that last as long as they are asked to, and a clock that does
  -- not go back over the first request, the wait answers; and where it answers yes, its last request
  -- was answered by an idle status.
  pub wait_l1_idle-answers :
      (interval k : ℕ)
      → 0 < interval
      → clock k ≤ clock (suc k)
      → Sleeps (ask_idle P send) clock interval (clock k + budget) k
      → (idle : Bool) × (n : ℕ) × (wait_l1_idle P send clock budget (suc budget) k ≡ some (idle, n))
        × ((idle ≡ false)
            ⊎ ((j : ℕ) × (status : Fields) × (k ≤ j)
                × (n ≡ suc j)
                × ((pipeline_status P send j).0 ≡ ok status)
                × (is_idle P status ≡ true)))
  unfolding wait_l1_idle ask_idle
  wait_l1_idle-answers interval k pos onward sleeps =
      let ((idle, n), e) =
        poll-on_time (ask_idle P send) clock interval (clock k + budget) budget k sleeps pos
          (omega (arith, onward)) in
      (
        idle,
        n,
        e,
        seen idle n (poll-Ends (ask_idle P send) clock (clock k + budget) (suc budget) k idle n e),
      )
    where
      seen :
          (idle : Bool) (n : ℕ)
          → Ends (ask_idle P send) clock (clock k + budget) k (idle, n)
          → (idle ≡ false)
            ⊎ ((j : ℕ) × (status : Fields) × (k ≤ j)
                × (n ≡ suc j)
                × ((pipeline_status P send j).0 ≡ ok status)
                × (is_idle P status ≡ true))
      seen false n ended = inl refl
      seen true n (j, le, last, how) =
          let (status, answered, good) =
            idle_round-true P (pipeline_status P send j).0
              (elim how [ inl e ↦ inl e | inr e ↦ inr e.0 ]) in
          inr (j, status, le, last, answered, good)
