-- ===== src/Mem0/Stores/Platform.antt =====
-- `PlatformStore.get_all` of integration/mem0/src/mem0_bridge/stores/platform.py: the walk over the
-- pages of the listing, on fuel.
pub mod Listing
use memory_bridge.Base.{
  ℕ, zero, suc, ◌+◌, Bool, true, false, ◌&&◌, not, List, [], ◌∷◌, ◌++◌, Option, none, some, Str,
  codes, if◌then◌else◌, leb, length, take,
}
use memory_bridge.Shared.Json.{Json, object, Items, no_items, Fields, get_or_null, dicts}
use memory_bridge.Mem0.Client.{
  Python, Reason, unrecognizable, Mem0Error, api_error, Result, ok, err, Request, Answer,
  results_in, shape_of, truthy,
}
use memory_bridge.Mem0.Client.Calls.{list_page}

abbrev pub page_size : ℕ
page_size = 100

-- The rows of a page, and whether the walk goes on after it.
pub record Page : Type 0 where
  pub rows : List Fields
  pub more : Bool

abbrev pub has_items : Items → Bool
has_items no_items = false
has_items items = true

unfoldable pub read_page : Python → Result Fields → Result Page
read_page P (err e) = err e
read_page P (ok envelope) = elim (results_in (object envelope)) [
  | none ↦ err (api_error 502 (unrecognizable (shape_of P (object envelope))))
  | some items ↦ ok (record {
    rows = dicts items;
    more = truthy P (get_or_null (codes "next") envelope) && has_items items;
  })
]

module _ (P : Python) (send : ℕ → Request → Answer) (user_id : Str) where
  abbrev pub page_at : ℕ → ℕ → Result Page
  page_at page k = read_page P (list_page P send user_id page_size page k).0

  -- The rows so far, the next page and the requests made.
  unfoldable pub walk : ℕ → ℕ → ℕ → List Fields → ℕ → Option (Result (List Fields) × ℕ)
  walk zero limit page rows k = none
  walk (suc fuel) limit page rows k =
      if leb limit (length rows) then some (ok (take limit rows), k) else elim (page_at page k) [
        | err e ↦ some (err e, suc k)
        | ok p ↦
            let rest = walk fuel limit (suc page) (rows ++ p.rows) (suc k) in
            if p.more then rest else some (ok (take limit (rows ++ p.rows)), suc k)
      ]

  unfoldable pub platform_get_all : ℕ → ℕ → ℕ → Option (Result (List Fields) × ℕ)
  platform_get_all fuel limit k = walk fuel limit 1 [] k
