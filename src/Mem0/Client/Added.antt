-- ===== src/Mem0/Client/Added.antt =====
-- What an add of `Mem0PlatformClient` comes to (integration/mem0/src/mem0_bridge/client.py, `add` and
-- `_wait_for_event`).
use mathlib.Core.Path.{sym, subst}
use memory_bridge.Base.{◌-◌, ℕ, suc, ◌+◌, ◌≤◌, ◌<◌, ◌≡◌, refl, List, some, codes, arith, ◌⊎◌}
use memory_bridge.Shared.Json.{Json, Items, Fields, get_or_null, dicts}
use memory_bridge.Shared.Poll.{poll, Sleeps, poll-on_time}
use memory_bridge.Mem0.Client.{
  api_error, dicts, Python, Result, ok, err, Request, Answer, answered, unanswered, Receipt,
  receipts, results_in,
}
use memory_bridge.Mem0.Client.Calls.{
  go_on, add_request, pure, proceed, read_event, read_results, request_json, proceed, pure,
  request_json, read_results, read_event, judge, fields_of, Added, received, queued, refused,
  AddCall, read_add, request, ask_event, wait_for_event, settle_add, add,
}

-- The list of results stands in the body, or under the payload of the body.
abbrev pub Carries : Json → Items → Type 0
Carries body items =
    (results_in body ≡ some items)
    ⊎ (results_in (get_or_null (codes "payload") (fields_of body)) ≡ some items)

pub judge-ok :
    (a : Answer) (body : Json)
    → judge a ≡ ok body
    → (status : ℕ) × (a ≡ answered status body) × (status < 400)
unfolding judge
judge-ok (unanswered e) body h = cc
judge-ok (answered status x) body h = (status, ground (arith, h), ground (arith, h))

module _ (P : Python) where
  module _ (send : ℕ → Request → Answer) where
    -- A request that was answered without an error status by a body with a list of results, from which
    -- the receipts are.
    abbrev pub Listed : List Receipt → Type 0
    Listed rs =
        (j : ℕ) × (r : Request) × (status : ℕ) × (body : Json) × (items : Items) × (send j r
          ≡ answered status body)
        × (status < 400)
        × Carries body items
        × (rs ≡ receipts items)

    request-counts : (r : Request) (k : ℕ) → request P send r k ≡ ((request P send r k).0, suc k)
    unfolding request request_json
    request-counts r k = go (judge (send k r))
      where
        go :
            (x : Result Json)
            → proceed (λ body. pure (fields_of body)) (x, suc k)
              ≡ ((proceed (λ body. pure (fields_of body)) (x, suc k)).0, suc k)
        go (err e) = refl
        go (ok body) = refl

    module _ (clock : ℕ → ℕ) (budget fuel : ℕ) where
      -- In the wait of an add whose first request is number `k`, which starts with the next one: a
      -- sleep lasts the interval, or what is left before the deadline, whatever the event is.
      abbrev pub OnTime : ℕ → ℕ → Type 0
      OnTime interval k =
          (event_id : Json)
          → Sleeps (ask_event P send event_id budget) clock interval (clock (suc k) + budget)
              (suc k)

      wait_for_event-ends :
          (interval : ℕ) (f : ℕ) (event_id : Json) (k : ℕ)
          → 0 < interval
          → budget ≤ f
          → ((j : ℕ) → clock j ≤ clock (suc j))
          → OnTime interval k
          → (r : Result (List Receipt) × ℕ) × (poll
                (ask_event P send event_id budget)
                clock
                (clock (suc k) + budget)
                (suc f)
                (suc k)
              ≡ some r)
      wait_for_event-ends interval f event_id k pos enough onward sleeps =
          poll-on_time (ask_event P send event_id budget) clock interval (clock (suc k) + budget) f
            (suc k) (sleeps event_id) pos (omega (arith, enough, onward (suc k)))

      settle_add-ends :
          (interval f k : ℕ)
          → 0 < interval
          → fuel ≡ suc f
          → budget ≤ f
          → ((j : ℕ) → clock j ≤ clock (suc j))
          → OnTime interval k
          → (x : Result Fields)
          → (r : Result (List Receipt) × ℕ) × (settle_add P send clock budget fuel (x, suc k)
              ≡ some r)
      unfolding settle_add go_on wait_for_event
      settle_add-ends interval f k pos e enough onward sleeps (err e') = ((err e', suc k), refl)
      settle_add-ends interval f k pos e enough onward sleeps (ok response) =
          go (read_add P response)
        where
          go :
              (added : Added)
              → (r : Result (List Receipt) × ℕ) × (go_on P send clock budget fuel (suc k) added
                  ≡ some r)
          go (received rs) = ((ok rs, suc k), refl)
          go (refused reason) = ((err (api_error 502 reason), suc k), refl)
          go (queued event_id) =
              subst
                (λ (n : ℕ).
                  (r : Result (List Receipt) × ℕ) × (poll (ask_event P send event_id budget) clock
                      (clock (suc k) + budget) n (suc k)
                    ≡ some r))
                (sym e) (wait_for_event-ends interval f event_id k pos enough onward sleeps)

      -- With intervals that are not 0, sleeps of the wait that last as long as they are asked to, a
      -- clock that does not go back and fuel above the budget, an add ends, whatever is answered.
      pub add-ends :
          (interval : ℕ) (call : AddCall) (k : ℕ)
          → 0 < interval
          → budget < fuel
          → ((j : ℕ) → clock j ≤ clock (suc j))
          → OnTime interval k
          → (r : Result (List Receipt) × ℕ) × (add P send clock budget fuel call k ≡ some r)
      unfolding add
      add-ends interval call k pos enough onward sleeps =
          subst
            (λ (x : Result Fields × ℕ).
              (r : Result (List Receipt) × ℕ) × (settle_add P send clock budget fuel x ≡ some r))
            (sym (request-counts (add_request call) k))
            (settle_add-ends interval (fuel - 1) k pos (omega (arith, enough))
              (omega (arith, enough)) onward sleeps (request P send (add_request call) k).0)
