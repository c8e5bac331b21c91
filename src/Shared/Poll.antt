-- ===== src/Shared/Poll.antt =====
-- The polling loops of integration/mem0/src/mem0_bridge/client.py (`_wait_for_event`) and
-- integration/tencentdb/src/tencentdb_bridge/client.py (`wait_l1_idle`): one request a round, a
-- deadline on the monotonic clock, and a sleep of the interval or of what is left. `clock k` is the
-- clock when `k` requests have been made; the loop runs on fuel.
use mathlib.Core.Path.{subst}
use memory_bridge.Base.{
  ℕ, zero, suc, ◌+◌, ◌-◌, ◌≤◌, ◌<◌, min, ◌≡◌, refl, Option, none, some, Bool, true, false,
  if◌then◌else◌, leb, arith, ◌⊎◌, inl, inr, leb→le, ap,
}

-- What a round finds: the end of the loop, or what the loop comes to if the time is up.
pub data Asked {ℓ} (A : Type ℓ) : Type ℓ where
  settled : A → Asked A
  waiting : A → Asked A

le-cases : (k i : ℕ) → k ≤ i → (k ≡ i) ⊎ (suc k ≤ i)
le-cases zero zero h = inl refl
le-cases zero (suc i) h = inr (omega arith)
le-cases (suc k) zero h = absurd (omega (arith, h))
le-cases (suc k) (suc i) h = elim (le-cases k i (omega (arith, h))) [
  | inl e ↦ inl (ap suc e)
  | inr le ↦ inr (omega (arith, le))
]

module _ {A : Type 0} (ask : ℕ → Asked A) (clock : ℕ → ℕ) where
  unfoldable pub poll : ℕ → ℕ → ℕ → Option (A × ℕ)
  poll deadline zero k = none
  poll deadline (suc fuel) k =
      let rest = poll deadline fuel (suc k) in
      elim (ask k) [
        | settled a ↦ some (a, suc k)
        | waiting late ↦ if leb deadline (clock (suc k)) then some (late, suc k) else rest
      ]

  -- The rounds from `k` to `j` found nothing that ends the loop, before the deadline: each slept.
  abbrev pub Slept : ℕ → ℕ → ℕ → Type 0
  Slept deadline k j =
      (i : ℕ) → k ≤ i → i ≤ j → ((late : A) × (ask i ≡ waiting late)) × (clock (suc i) < deadline)

  -- A sleep of the loop that starts at request `k` lasts the interval, or until the deadline: the
  -- clock after the next request shows it. Nothing is asked of a request that no sleep precedes.
  abbrev pub Sleeps : ℕ → ℕ → ℕ → Type 0
  Sleeps interval deadline k =
      (j : ℕ)
      → k ≤ j
      → Slept deadline k j
      → clock (suc j) + min interval (deadline - clock (suc j)) ≤ clock (suc (suc j))

  -- The loop that ends at request `j`, with what that request found.
  abbrev pub Ends : ℕ → ℕ → A × ℕ → Type 0
  Ends deadline k (a, n) =
      (j : ℕ) × (k ≤ j)
      × (n ≡ suc j)
      × ((ask j ≡ settled a) ⊎ ((ask j ≡ waiting a) × (deadline ≤ clock (suc j))))

  later : (deadline k : ℕ) (a : A) (n : ℕ) → Ends deadline (suc k) (a, n) → Ends deadline k (a, n)
  later deadline k a n (j, le, e, how) = (j, omega (arith, le), e, how)

  -- What the loop comes to is what one of its requests found, at the deadline where the request found
  -- nothing that ends it.
  pub poll-Ends :
      (deadline fuel k : ℕ) (a : A) (n : ℕ)
      → poll deadline fuel k ≡ some (a, n)
      → Ends deadline k (a, n)
  unfolding poll
  poll-Ends deadline zero k a n e = cc
  poll-Ends deadline (suc fuel) k a n e =
      go (ask k) refl (λ h. poll-Ends deadline fuel (suc k) a n h) e
    where
      timed :
          (late : A) (t : Bool)
          → ask k ≡ waiting late
          → leb deadline (clock (suc k)) ≡ t
          → (poll deadline fuel (suc k) ≡ some (a, n) → Ends deadline (suc k) (a, n))
          → (if t then some (late, suc k) else poll deadline fuel (suc k)) ≡ some (a, n)
          → Ends deadline k (a, n)
      timed late true ex et more h =
          (k, omega arith, cc, inr (cc, leb→le deadline (clock (suc k)) et))
      timed late false ex et more h = later deadline k a n (more h)

      go :
          (x : Asked A)
          → ask k ≡ x
          → (poll deadline fuel (suc k) ≡ some (a, n) → Ends deadline (suc k) (a, n))
          → let y : Option (A × ℕ) = elim x [
            | settled b ↦ some (b, suc k)
            | waiting late ↦
                if leb deadline (clock (suc k))
                then some (late, suc k)
                else poll deadline fuel (suc k)
          ] in
            y ≡ some (a, n) → Ends deadline k (a, n)
      go (settled b) ex more h = (k, omega arith, cc, inl cc)
      go (waiting late) ex more h = timed late (leb deadline (clock (suc k))) ex refl more h

  timely :
      (deadline fuel k : ℕ)
      → ((late : A)
          → ask k ≡ waiting late
          → leb deadline (clock (suc k)) ≡ false
          → (r : A × ℕ) × (poll deadline fuel (suc k) ≡ some r))
      → (r : A × ℕ) × (poll deadline (suc fuel) k ≡ some r)
  unfolding poll
  timely deadline fuel k more = go (ask k) (leb deadline (clock (suc k))) more
    where
      go :
          (x : Asked A) (t : Bool)
          → ((late : A)
              → x ≡ waiting late
              → t ≡ false
              → (r : A × ℕ) × (poll deadline fuel (suc k) ≡ some r))
          → (r : A × ℕ) × ((elim x [
            | settled b ↦ some (b, suc k)
            | waiting late ↦ if t then some (late, suc k) else poll deadline fuel (suc k)
          ])
              ≡ some r)
      go (settled b) t m = ((b, suc k), refl)
      go (waiting late) true m = ((late, suc k), refl)
      go (waiting late) false m = m late refl refl

  -- The rounds from the next one on, after one that slept.
  Slept-one :
      (deadline k j : ℕ) (late : A)
      → ask k ≡ waiting late
      → clock (suc k) < deadline
      → Slept deadline (suc k) j
      → Slept deadline k j
  Slept-one deadline k j late e before slept i lo hi = elim (le-cases k i lo) [
    | inl same ↦
        subst (λ (n : ℕ). ((l : A) × (ask n ≡ waiting l)) × (clock (suc n) < deadline)) same
          ((late, e), before)
    | inr above ↦ slept i above hi
  ]

  -- A loop whose sleeps are as long as they are asked to be, of an interval that is not 0, ends within
  -- a round for every unit of time that is left after its first request, and one more.
  pub poll-on_time :
      (interval deadline fuel k : ℕ)
      → Sleeps interval deadline k
      → 0 < interval
      → deadline ≤ clock (suc k) + fuel
      → (r : A × ℕ) × (poll deadline (suc fuel) k ≡ some r)
  poll-on_time interval deadline zero k sleeps pos h =
      timely deadline zero k (λ late e short. ground (arith, short, h))
  poll-on_time interval deadline (suc fuel) k sleeps pos h =
      timely deadline (suc fuel) k (λ late e short.
        let before : clock (suc k) < deadline = ground (arith, short) in
        let slept : clock (suc k) + min interval (deadline - clock (suc k)) ≤ clock (suc (suc k)) =
          sleeps k (omega arith)
            (Slept-one deadline k k late e before (λ i lo hi. absurd (omega (arith, lo, hi)))) in
        poll-on_time interval deadline fuel (suc k)
          (λ j le more. sleeps j (omega (arith, le)) (Slept-one deadline k j late e before more))
          pos (ground (arith, slept, before, pos, h)))
