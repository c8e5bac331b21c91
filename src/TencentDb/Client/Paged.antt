-- ===== src/TencentDb/Client/Paged.antt =====
-- The walk over the pages of a query (integration/tencentdb/src/tencentdb_bridge/client.py,
-- `atomic_query`).
use memory_bridge.Base.{
  leb→le, ◌⊎◌, ℕ, zero, suc, ◌+◌, ◌≤◌, ◌<◌, ◌≡◌, refl, Bool, true, false, List, [], ◌∷◌, ◌++◌,
  Option, some, Str, if◌then◌else◌, leb, is_empty, length, length-append, arith,
}
use memory_bridge.Shared.Json.{Fields}
use memory_bridge.TencentDb.Client.{ApiError, Result, ok, err, Request, Answer, Python, Ids}
use memory_bridge.TencentDb.Client.Calls.{
  Page, is_last, read_page, page_at, query_from, atomic_query,
}

more_rows :
    (page_limit n : ℕ) (page : Page) → is_last page_limit n page ≡ false → 0 < length page.rows
unfolding is_last
more_rows page_limit n page h = some_row page.rows (ground (arith, h))
  where
    some_row : (rows : List Fields) → is_empty rows ≡ false → 0 < length rows
    some_row [] e = cc
    some_row (x ∷ rows) e = omega arith

abbrev pub drop : ℕ → List Fields → List Fields
drop zero xs = xs
drop (suc n) [] = []
drop (suc n) (x ∷ xs) = drop n xs

module _ (P : Python) (send : ℕ → Request → Answer) (ids : Ids) (time_start task_id : Str)
    (page_limit : ℕ) where
  abbrev walk : ℕ → List Fields → ℕ → ℕ → Option (Result (List Fields) × ℕ)
  walk = query_from P send ids time_start task_id page_limit

  abbrev pub answer_at : ℕ → ℕ → Result Fields
  answer_at = page_at P send ids time_start task_id

  Ended : (Result (List Fields) × ℕ → Type 0) → Option (Result (List Fields) × ℕ) → Type 0
  Ended Good o = (r : Result (List Fields) × ℕ) × (o ≡ some r) × Good r

  -- A round ends well if it does where the rows are full, at an error, after a last page, and where the
  -- walk goes on.
  round :
      (Good : Result (List Fields) × ℕ → Type 0) (fuel offset k : ℕ) (rows : List Fields)
      → (page_limit ≤ length rows → Good (ok rows, k))
      → ((e : ApiError) → answer_at offset k ≡ err e → Good (err e, suc k))
      → ((d : Fields)
          → answer_at offset k ≡ ok d
          → is_last page_limit (length (rows ++ (read_page P d).rows)) (read_page P d) ≡ true
          → Good (ok (rows ++ (read_page P d).rows), suc k))
      → ((d : Fields)
          → answer_at offset k ≡ ok d
          → is_last page_limit (length (rows ++ (read_page P d).rows)) (read_page P d) ≡ false
          → length rows < page_limit
          → Ended Good (
              walk fuel
                (rows ++ (read_page P d).rows)
                (offset + length (read_page P d).rows)
                (suc k)))
      → Ended Good (walk (suc fuel) rows offset k)
  unfolding query_from Ended
  round Good fuel offset k rows full failed last more =
      go (leb page_limit (length rows)) (answer_at offset k) refl refl
    where
      next : Fields → Option (Result (List Fields) × ℕ)
      next d =
          walk fuel (rows ++ (read_page P d).rows) (offset + length (read_page P d).rows) (suc k)

      page :
          (d : Fields) (t : Bool)
          → answer_at offset k ≡ ok d
          → is_last page_limit (length (rows ++ (read_page P d).rows)) (read_page P d) ≡ t
          → length rows < page_limit
          → Ended Good (if t then some (ok (rows ++ (read_page P d).rows), suc k) else next d)
      page d true ex et short = (_, refl, last d ex et)
      page d false ex et short = more d ex et short

      go :
          (t : Bool) (x : Result Fields)
          → leb page_limit (length rows) ≡ t
          → answer_at offset k ≡ x
          → Ended Good (
              if t then some (ok rows, k) else elim x [
                | err e ↦ some (err e, suc k)
                | ok d ↦
                    if is_last page_limit (length (rows ++ (read_page P d).rows)) (read_page P d)
                    then some (ok (rows ++ (read_page P d).rows), suc k)
                    else next d
              ])
      go true x et ex = (_, refl, full (leb→le page_limit (length rows) et))
      go false (err e) et ex = (_, refl, failed e ex)
      go false (ok d) et ex = page d _ ex refl (ground (arith, et))

  walk-ends :
      (fuel offset k : ℕ) (rows : List Fields)
      → page_limit ≤ length rows + fuel
      → Ended (λ r. Unit) (walk (suc fuel) rows offset k)
  walk-ends zero offset k rows h =
      round (λ r. Unit) zero offset k rows (λ le. tt) (λ e ex. tt) (λ d ex et. tt)
        (λ d ex et short. absurd (omega (arith, h, short)))
  walk-ends (suc fuel) offset k rows h =
      round (λ r. Unit) (suc fuel) offset k rows (λ le. tt) (λ e ex. tt) (λ d ex et. tt)
        (λ d ex et short.
          walk-ends fuel (offset + length (read_page P d).rows) (suc k)
            (rows ++ (read_page P d).rows)
            (omega (
              arith,
              h,
              length-append rows (read_page P d).rows,
              more_rows page_limit _ (read_page P d) et,
            )))

  -- A query ends whatever is answered: within as many requests as the limit of its rows and one.
  pub atomic_query-ends :
      (k : ℕ)
      → (r : Result (List Fields) × ℕ) × (atomic_query P send ids time_start task_id page_limit
            (suc page_limit)
            k
          ≡ some r)
  unfolding atomic_query Ended
  atomic_query-ends k = let (r, e, _) = walk-ends page_limit 0 k [] (omega arith) in (r, e)

  -- The answer to a query at an offset holds some of the rows from there on, at least one if there is
  -- one, and the number of all rows.
  abbrev pub Holds : List Fields → ℕ → Fields → Type 0
  Holds all offset d =
      ((read_page P d).total ≡ some (length all))
      × ((rest : List Fields) × (((read_page P d).rows ++ rest) ≡ drop offset all))
      × ((0 < length (read_page P d).rows) ⊎ (drop offset all ≡ []))

  abbrev pub Serves : List Fields → Type 0
  Serves all = (offset k : ℕ) → (d : Fields) × (answer_at offset k ≡ ok d) × Holds all offset d
