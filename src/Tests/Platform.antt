-- ===== src/Tests/Platform.antt =====
-- The mem0 platform client and its listing at concrete answers.
use mathlib.Core.Path.{subst}
use memory_bridge.Base.{
  ℕ, zero, suc, ◌≡◌, refl, ◌<◌, true, List, [], ◌∷◌, ◌++◌, none, some, codes, str_eq, arith, length,
  inl,
}
use memory_bridge.Shared.Json.{
  Json, null, text, array, object, no_items, item, Fields, no_fields, field, get, get_or_null,
  truth, dicts,
}
use memory_bridge.Mem0.Client.{Python, Result, ok, Request, Answer, answered, Receipt, results_in}
use memory_bridge.Mem0.Client.Calls.{
  judge, request_json, request, list_page, fields_of, AddCall, add,
}
use memory_bridge.Mem0.Client.Added
use memory_bridge.Mem0.Stores.Platform.{Page, read_page, page_at, platform_get_all}
use memory_bridge.Mem0.Stores.Platform.Listing
use memory_bridge.Mem0.Stores.Platform.Listing.{
  Served, last_page, next_page, Walked, HoldsRows, NoRows,
}

abbrev pub python : Python
python = record {
  is_zero = λ s. str_eq s (codes "0");
  str_of = λ x. [];
  text_before = λ s t. true;
  lower = λ s. s;
  upper = λ s. s;
}

abbrev call : AddCall
call = record {
  messages = no_items;
  user_id = codes "u";
  run_id = none;
  infer = true;
  metadata = none;
  guidelines = none;
}

abbrev row : Fields
row = field (codes "id") (text (codes "m1")) no_fields

abbrev rows_body : Json → Json
rows_body next = object (
    field (codes "results") (array (item (object row) no_items))
      (field (codes "next") next no_fields))

-- An add that is queued, pending once, and then done.
abbrev queue : ℕ → Request → Answer
queue zero r = answered 202 (object (field (codes "event_id") (text (codes "e1")) no_fields))
queue (suc zero) r =
    answered 200 (object (field (codes "status") (text (codes "PENDING")) no_fields))
queue (suc (suc k)) r = answered 200 (
    object (
      field (codes "status") (text (codes "SUCCEEDED"))
        (field (codes "payload") (rows_body null) no_fields)))

abbrev ticking : ℕ → ℕ
ticking k = k

add-ends_example : (r : Result (List Receipt) × ℕ) × (add python queue ticking 3 4 call 0 ≡ some r)
add-ends_example =
    Added.add-ends python queue ticking 3 4 1 call 0 (omega arith) (omega arith) (λ j. omega arith)
      (λ event_id j le slept. omega (arith, (slept j le (omega arith)).1))

-- Three pages, of which the second holds an item that is no dict.
abbrev noise_body : Json
noise_body = object (
    field (codes "results") (array (item (text (codes "?")) no_items))
      (field (codes "next") (text (codes "page 3")) no_fields))

abbrev three_pages : ℕ → Request → Answer
three_pages zero r = answered 200 (rows_body (text (codes "page 2")))
three_pages (suc zero) r = answered 200 noise_body
three_pages (suc (suc k)) r = answered 200 (rows_body null)

three_pages-Served : Served python three_pages (codes "u") 3 1 0 ((row ∷ []) ++ [] ++ row ∷ [])
unfolding list_page request request_json judge fields_of get get_or_null truth dicts str_eq
three_pages-Served = next_page 2 1 0 _ (object row) no_items _ refl refl refl (
    next_page 1 2 1 _ (text (codes "?")) no_items _ refl refl refl
      (last_page 3 2 _ (item (object row) no_items) refl refl (inl refl)))

platform_get_all-Served_example :
    Walked python three_pages
      (codes "u")
      10
      (row ∷ row ∷ [])
      (platform_get_all python three_pages (codes "u") 3 10 0)
platform_get_all-Served_example =
    Listing.platform_get_all-Served python three_pages (codes "u") 3 3 10 0 (row ∷ row ∷ [])
      three_pages-Served (omega arith)

-- Pages that never end, with a row each.
abbrev endless : ℕ → Request → Answer
endless k r = answered 200 (rows_body (text (codes "more")))

endless_page :
    (page k : ℕ)
    → page_at python endless (codes "u") page k ≡ ok (record { rows = row ∷ []; more = true })
unfolding read_page list_page request request_json judge fields_of results_in get get_or_null truth
    dicts str_eq
endless_page page k = refl

same_page : (p q : Page) (r : Result Page) → r ≡ ok p → r ≡ ok q → p ≡ q
same_page p q r e h = cc

endless-HoldsRows : HoldsRows python endless (codes "u")
endless-HoldsRows page k p e more =
    subst (λ (q : Page). 0 < length q.rows)
      (same_page (record { rows = row ∷ []; more = true }) p
        (page_at python endless (codes "u") page k) (endless_page page k) e)
      (omega arith)

platform_get_all-ends_example :
    (r : Result (List Fields) × ℕ) × (platform_get_all python endless (codes "u") 5 4 0 ≡ some r)
platform_get_all-ends_example =
    Listing.platform_get_all-ends python endless (codes "u") 4 0 endless-HoldsRows

-- Pages that hold no dict and always name a next one.
abbrev drifting : ℕ → Request → Answer
drifting k r = answered 200 (
    object (
      field (codes "results") (array (item (text (codes "?")) no_items))
        (field (codes "next") (text (codes "more")) no_fields)))

drifting-NoRows : NoRows python drifting (codes "u")
unfolding read_page list_page request request_json judge fields_of results_in get get_or_null truth
    dicts str_eq
drifting-NoRows page k = refl

platform_get_all-none_example : platform_get_all python drifting (codes "u") 1000 10 0 ≡ none
platform_get_all-none_example =
    Listing.platform_get_all-none python drifting (codes "u") 1000 10 0 drifting-NoRows
      (omega arith)
