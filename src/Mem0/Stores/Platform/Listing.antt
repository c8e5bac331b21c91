-- ===== src/Mem0/Stores/Platform/Listing.antt =====
-- What the walk over the pages of a listing comes to
-- (integration/mem0/src/mem0_bridge/stores/platform.py, `get_all`).
use memory_bridge.Base.{
  leb→le, ℕ, zero, suc, ◌+◌, ◌≤◌, ◌<◌, ◌≡◌, refl, ◌∙◌, sym, ap, Bool, true, false, List, [], ◌∷◌,
  ◌++◌, append_assoc, Option, none, some, Str, if◌then◌else◌, leb, length, take, length-append,
  arith, Bool-cases, inl, inr, codes, ◌&&◌, ◌⊎◌,
}
use memory_bridge.Shared.Json.{Json, array, Items, no_items, item, Fields, get, get_or_null, dicts}
use memory_bridge.Mem0.Client.{Python, Result, ok, err, Request, Answer, truthy, results_in}
use memory_bridge.Mem0.Client.Calls.{list_page}
use memory_bridge.Mem0.Stores.Platform.{
  Page, page_size, has_items, read_page, page_at, walk, platform_get_all,
}

take-front : (n : ℕ) (xs ys : List Fields) → n ≤ length xs → take n (xs ++ ys) ≡ take n xs
take-front zero xs ys h = refl
take-front (suc n) [] ys h = ground (arith, h)
take-front (suc n) (x ∷ xs) ys h =
    ap (λ (l : List Fields). x ∷ l) (take-front n xs ys (omega (arith, h)))

module _ (P : Python) (send : ℕ → Request → Answer) (user_id : Str) where
  -- The client's answer to the request of a page.
  abbrev pub Answers : ℕ → ℕ → Fields → Type 0
  Answers page k envelope = (list_page P send user_id page_size page k).0 ≡ ok envelope

  abbrev pub names_next : Fields → Bool
  names_next envelope = truthy P (get_or_null (codes "next") envelope)

  -- The rows that the platform serves from a page on, in so many pages, by the envelopes of its
  -- answers: the last page names no next one or holds no item at all; a page before it names a next
  -- one and holds an item, a dict or not. The rows are the items that are dicts.
  pub data Served : ℕ → ℕ → ℕ → List Fields → Type 0 where
    last_page :
        (page k : ℕ) (envelope : Fields) (items : Items)
        → Answers page k envelope
        → get (codes "results") envelope ≡ some (array items)
        → (names_next envelope ≡ false) ⊎ (items ≡ no_items)
        → Served 1 page k (dicts items)
    next_page :
        (n page k : ℕ) (envelope : Fields) (x : Json) (items : Items) (rest : List Fields)
        → Answers page k envelope
        → get (codes "results") envelope ≡ some (array (item x items))
        → names_next envelope ≡ true
        → Served n (suc page) (suc k) rest
        → Served (suc n) page k (dicts (item x items) ++ rest)

  -- The same by the pages that the walk reads.
  data Pages : ℕ → ℕ → ℕ → List Fields → Type 0 where
    ends :
        (page k : ℕ) (rows : List Fields)
        → page_at P send user_id page k ≡ ok (record { rows = rows; more = false })
        → Pages 1 page k rows
    goes_on :
        (n page k : ℕ) (rows rest : List Fields)
        → page_at P send user_id page k ≡ ok (record { rows = rows; more = true })
        → Pages n (suc page) (suc k) rest
        → Pages (suc n) page k (rows ++ rest)

  abbrev page_of : List Fields → Bool → Result Page
  page_of rows more = ok (record { rows = rows; more = more })

  read_page-listed :
      (r : Result Fields) (envelope : Fields) (items : Items)
      → r ≡ ok envelope
      → get (codes "results") envelope ≡ some (array items)
      → read_page P r
        ≡ ok (record { rows = dicts items; more = names_next envelope && has_items items })
  unfolding read_page results_in
  read_page-listed r envelope items e h = cc

  no_more :
      (t : Bool) (items : Items) → (t ≡ false) ⊎ (items ≡ no_items) → (t && has_items items) ≡ false
  no_more false items h = refl
  no_more true no_items h = refl
  no_more true (item x items) (inl e) = cc
  no_more true (item x items) (inr e) = cc

  Served-Pages : (n page k : ℕ) (rows : List Fields) → Served n page k rows → Pages n page k rows
  Served-Pages n page k rows (last_page page' k' envelope items a e last) =
      ends page k (dicts items) (
        read_page-listed _ envelope items a e
        ∙ ap (page_of (dicts items)) (no_more (names_next envelope) items last))
  Served-Pages n page k rows (next_page n' page' k' envelope x items rest a e next more) =
      goes_on n' page k (dicts (item x items)) rest
        (read_page-listed _ envelope (item x items) a e
          ∙ ap (λ (t : Bool). page_of (dicts (item x items)) (t && true)) next)
        (Served-Pages n' (suc page) (suc k) rest more)

  abbrev pub Walked : ℕ → List Fields → Option (Result (List Fields) × ℕ) → Type 0
  Walked limit rows o = (m : ℕ) × (o ≡ some (ok (take limit rows), m))

  -- One round of the walk.
  round :
      (fuel limit page k : ℕ) (rows found : List Fields) (more : Bool)
      → page_at P send user_id page k ≡ ok (record { rows = found; more = more })
      → leb limit (length rows) ≡ false
      → walk P send user_id (suc fuel) limit page rows k ≡ (
          if more
          then walk P send user_id fuel limit (suc page) (rows ++ found) (suc k)
          else some (ok (take limit (rows ++ found)), suc k))
  unfolding walk
  round fuel limit page k rows found more e full = ground (arith, e, full)

  full_walk :
      (fuel limit page k : ℕ) (rows : List Fields)
      → leb limit (length rows) ≡ true
      → walk P send user_id (suc fuel) limit page rows k ≡ some (ok (take limit rows), k)
  unfolding walk
  full_walk fuel limit page k rows full = ground (arith, full)

  full-Walked :
      (fuel limit page k : ℕ) (rows rest : List Fields)
      → leb limit (length rows) ≡ true
      → Walked limit (rows ++ rest) (walk P send user_id (suc fuel) limit page rows k)
  full-Walked fuel limit page k rows rest full = (
    k,
    full_walk fuel limit page k rows full
        ∙ ap (λ (l : List Fields). some (ok l, k))
            (sym (take-front limit rows rest (leb→le limit (length rows) full))),
  )

  -- The walk with rows so far, over pages that are served, comes to the rows so far and those served,
  -- up to the limit.
  walk-Pages :
      (n fuel limit page k : ℕ) (rows rest : List Fields)
      → Pages n page k rest
      → n ≤ fuel
      → Walked limit (rows ++ rest) (walk P send user_id fuel limit page rows k)
  walk-Pages n zero limit page k rows rest (ends page' k' rows' e) le = ground (arith, le)
  walk-Pages n zero limit page k rows rest (goes_on n' page' k' rows' rest' e s) le =
      ground (arith, le)
  walk-Pages n (suc fuel) limit page k rows rest (ends page' k' rows' e) le =
      elim (Bool-cases (leb limit (length rows))) [
        | inl full ↦ full-Walked fuel limit page k rows rest full
        | inr short ↦ (suc k, round fuel limit page k rows rest false e short)
      ]
  walk-Pages n (suc fuel) limit page k rows rest (goes_on n' page' k' found others e s) le =
      elim (Bool-cases (leb limit (length rows))) [
        | inl full ↦ full-Walked fuel limit page k rows (found ++ others) full
        | inr short ↦
            let (m, walked) =
              walk-Pages n' fuel limit (suc page) (suc k) (rows ++ found) others s
                (omega (arith, le)) in
            (
              m,
              round fuel limit page k rows found true e short
                  ∙ walked
                  ∙ ap (λ (l : List Fields). some (ok (take limit l), m))
                      (append_assoc rows found others),
            )
      ]

  -- A listing whose pages are served comes to the rows that are served, in their order, up to the
  -- limit, with fuel for the pages: a page without a dict among its items does not end it.
  pub platform_get_all-Served :
      (n fuel limit k : ℕ) (rest : List Fields)
      → Served n 1 k rest
      → n ≤ fuel
      → Walked limit rest (platform_get_all P send user_id fuel limit k)
  unfolding platform_get_all
  platform_get_all-Served n fuel limit k rest s le =
      walk-Pages n fuel limit 1 k [] rest (Served-Pages n 1 k rest s) le

  -- Every page after which the walk goes on holds a row.
  abbrev pub HoldsRows : Type 0
  HoldsRows =
      (page k : ℕ) (p : Page)
      → page_at P send user_id page k ≡ ok p
      → p.more ≡ true
      → 0 < length p.rows

  abbrev pub Ends : Option (Result (List Fields) × ℕ) → Type 0
  Ends o = (r : Result (List Fields) × ℕ) × (o ≡ some r)

  -- A round that is not the last ends where the walk after it does.
  round-Ends :
      (fuel limit page k : ℕ) (rows : List Fields)
      → ((p : Page)
          → page_at P send user_id page k ≡ ok p
          → p.more ≡ true
          → leb limit (length rows) ≡ false
          → Ends (walk P send user_id fuel limit (suc page) (rows ++ p.rows) (suc k)))
      → Ends (walk P send user_id (suc fuel) limit page rows k)
  unfolding walk
  round-Ends fuel limit page k rows more =
      go (leb limit (length rows)) (page_at P send user_id page k) refl refl
    where
      again : Page → Option (Result (List Fields) × ℕ)
      again p = walk P send user_id fuel limit (suc page) (rows ++ p.rows) (suc k)

      turn :
          (p : Page) (t : Bool)
          → (t ≡ true → Ends (again p))
          → Ends (if t then again p else some (ok (take limit (rows ++ p.rows)), suc k))
      turn p true m = m refl
      turn p false m = (_, refl)

      go :
          (full : Bool) (x : Result Page)
          → leb limit (length rows) ≡ full
          → page_at P send user_id page k ≡ x
          → Ends (
              if full then some (ok (take limit rows), k) else elim x [
                | err e ↦ some (err e, suc k)
                | ok p ↦ if p.more then again p else some (ok (take limit (rows ++ p.rows)), suc k)
              ])
      go true x ef ex = (_, refl)
      go false (err e) ef ex = (_, refl)
      go false (ok p) ef ex = turn p p.more (λ h. more p ex h ef)

  walk-Ends :
      (f limit page k : ℕ) (rows : List Fields)
      → HoldsRows
      → limit ≤ length rows + f
      → Ends (walk P send user_id (suc f) limit page rows k)
  walk-Ends zero limit page k rows holds le =
      round-Ends zero limit page k rows (λ p e more short. ground (arith, le, short))
  walk-Ends (suc f) limit page k rows holds le =
      round-Ends (suc f) limit page k rows (λ p e more short.
        walk-Ends f limit (suc page) (suc k) (rows ++ p.rows) holds
          (omega (arith, le, holds page k p e more, length-append rows p.rows)))

  -- Where every page after which the walk goes on holds a row, a listing ends, within as many requests
  -- as the limit and one.
  pub platform_get_all-ends :
      (limit k : ℕ)
      → HoldsRows
      → (r : Result (List Fields) × ℕ) × (platform_get_all P send user_id (suc limit) limit k
          ≡ some r)
  unfolding platform_get_all
  platform_get_all-ends limit k holds = walk-Ends limit limit 1 k [] holds (omega arith)

  -- Every page holds no dict and is not the last.
  abbrev pub NoRows : Type 0
  NoRows = (page k : ℕ) → page_at P send user_id page k ≡ ok (record { rows = []; more = true })

  walk-none :
      (fuel limit page k : ℕ) → NoRows → 0 < limit → walk P send user_id fuel limit page [] k ≡ none
  unfolding walk
  walk-none zero limit page k drifted pos = refl
  walk-none (suc fuel) limit page k drifted pos =
      round fuel limit page k [] [] true (drifted page k) (ground (arith, pos))
      ∙ walk-none fuel limit (suc page) (suc k) drifted pos

  -- Where no page holds a dict and every page holds an item and names a next one, a listing with a
  -- limit that is not 0 ends with no amount of fuel.
  pub platform_get_all-none :
      (fuel limit k : ℕ) → NoRows → 0 < limit → platform_get_all P send user_id fuel limit k ≡ none
  unfolding platform_get_all
  platform_get_all-none fuel limit k drifted pos = walk-none fuel limit 1 k drifted pos
