-- ===== src/Mem0/Stores.antt =====
-- The stores of integration/mem0/src/mem0_bridge/stores: the interface that the backend uses
-- (`Mem0Store` of __init__.py), and the server mode (server.py).
pub mod Platform
pub mod Library
pub mod Drift
use memory_bridge.Base.{
  ℕ, suc, ◌+◌, Bool, true, false, not, List, [], ◌∷◌, ◌++◌, Option, none, some, Str, codes, min,
  max, if◌then◌else◌, is_empty, take,
}
use memory_bridge.Shared.Json.{Json, null, object, Fields, no_fields, dicts}
use memory_bridge.Mem0.Client.{
  amount, word, Python, Reason, unrecognizable, not_found, Mem0Error, api_error, Result, ok, err,
  Request, Answer, Receipt, receipts, results_in, shape_of,
}
use memory_bridge.Mem0.Client.Calls.{
  Api, proceed, ◌>>=◌, pure, give, plain, AddCall, add_body, SearchCall, search_body, update_body,
  rows_of, row_of, request_json, fields_of,
}

-- The operations of a store with a state `S` of its own that the backend calls.
pub record Store (S : Type 0) : Type 0 where
  pub add : AddCall → S → Result (List Receipt) × S
  pub search : SearchCall → S → Result (List Fields) × S
  pub get_all : Str → ℕ → S → Result (List Fields) × S

abbrev pub server_listing_cap : ℕ
server_listing_cap = 1000

-- The receipts of a body, which fails closed.
unfoldable pub receipts_of : Python → Json → Result (List Receipt)
receipts_of P body = elim (results_in body) [
  | some items ↦ ok (receipts items)
  | none ↦ err (api_error 502 (unrecognizable (shape_of P body)))
]

-- A row by its id: the store answers null for an unknown one.
unfoldable pub known_row : Python → Str → Json → Result Fields
known_row P memory_id null = err (api_error 404 (not_found memory_id))
known_row P memory_id body = row_of P body

-- `[item for item in results if isinstance(item, dict)][:limit]`
unfoldable pub cut : ℕ → Result (List Fields) → Result (List Fields)
cut limit (ok rows) = ok (take limit rows)
cut limit (err e) = err e

-- `ServerStore`, with its timeout of an add
module _ (P : Python) (send : ℕ → Request → Answer) (add_timeout : ℕ) where
  unfoldable pub health : Api Fields
  health = do
    body ← request_json P send (plain (codes "GET") (codes "/auth/setup-status") none)
    give (row_of P body)

  unfoldable pub server_add : AddCall → Api (List Receipt)
  server_add call = do
    body ←
        request_json P send
          (record (plain (codes "POST") (codes "/memories")
            (some (add_body (codes "prompt") call))) { timeout = some add_timeout })
    give (receipts_of P body)

  unfoldable pub server_search : SearchCall → Api (List Fields)
  server_search call = do
    body ←
        request_json P send
          (record (plain (codes "POST") (codes "/search") (some (search_body call))) {
            timeout = call.timeout;
          })
    give (rows_of P body)

  abbrev pub server_path : Str → Str
  server_path memory_id = codes "/memories/" ++ memory_id

  unfoldable pub server_get : Str → Api Fields
  server_get memory_id = do
    body ← request_json P send (plain (codes "GET") (server_path memory_id) none)
    give (known_row P memory_id body)

  unfoldable pub server_get_all : Str → ℕ → Api (List Fields)
  server_get_all user_id limit = do
    body ← request_json P send (record (plain (codes "GET") (codes "/memories") none) {
      params =
          (codes "user_id", word user_id)
          ∷ (codes "top_k", amount (max 1 (min limit server_listing_cap)))
          ∷ [];
    })
    give (cut limit (rows_of P body))

  -- The echo is a read that follows.
  unfoldable pub server_update : Str → Option Str → Option Fields → Api Fields
  server_update memory_id new_text metadata = do
    body ←
        request_json P send
          (plain (codes "PUT") (server_path memory_id) (some (update_body new_text metadata)))
    server_get memory_id

  unfoldable pub server_delete : Str → Api Fields
  server_delete memory_id = do
    body ← request_json P send (plain (codes "DELETE") (server_path memory_id) none)
    pure (fields_of body)

  abbrev pub server_store : Store ℕ
  server_store = record { add = server_add; search = server_search; get_all = server_get_all }
