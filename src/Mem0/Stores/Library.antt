-- ===== src/Mem0/Stores/Library.antt =====
-- `LibraryStore` of integration/mem0/src/mem0_bridge/stores/library.py. The engine of `mem0ai` is an
-- argument: `engine k` is how the call after `k` others ends.
use memory_bridge.Base.{
  ℕ, suc, List, Option, none, some, Str, codes, strip, if◌then◌else◌, is_empty,
}
use memory_bridge.Shared.Backend.State.{Exn}
use memory_bridge.Shared.Json.{Json, Fields}
use memory_bridge.Cure.Search.{contains_text}
use memory_bridge.Mem0.Client.{
  Python, said, Mem0Error, api_error, other_error, Result, ok, err, Receipt,
}
use memory_bridge.Mem0.Client.Calls.{Api, ◌>>=◌, give, given_text, AddCall, SearchCall, rows_of}
use memory_bridge.Mem0.Stores.{Store, receipts_of, known_row, cut}

pub data EngineCall : Type 0 where
  engine_add : AddCall → Option Str → EngineCall
  engine_search : SearchCall → EngineCall
  engine_get : Str → EngineCall
  engine_get_all : Str → ℕ → EngineCall
  engine_update : Str → Option Str → Option Fields → EngineCall
  engine_delete : Str → EngineCall

pub data EngineAnswer : Type 0 where
  value : Json → EngineAnswer
  value_error : Str → EngineAnswer
  engine_raised : Exn → EngineAnswer

-- A call without a handler.
unfoldable pub bare : EngineAnswer → Result Json
bare (value x) = ok x
bare (value_error message) =
    err (other_error (record { class_name = codes "ValueError"; message = message }))
bare (engine_raised e) = err (other_error e)

abbrev pub stripped : Option Str → Option Str
stripped guidelines =
    if is_empty (strip (given_text guidelines)) then none else some (strip (given_text guidelines))

module _ (P : Python) where
  unfoldable pub maybe_not_found : Str → Mem0Error
  maybe_not_found message =
      api_error (if contains_text (codes "not found") (P.lower message) then 404 else 400)
        (said message)

  -- A call whose ValueError is mapped.
  unfoldable pub mapped : EngineAnswer → Result Json
  mapped (value_error message) = err (maybe_not_found message)
  mapped a = bare a

  module _ (engine : ℕ → EngineCall → EngineAnswer) where
    abbrev pub call_engine : (EngineAnswer → Result Json) → EngineCall → Api Json
    call_engine read call k = (read (engine k call), suc k)

    unfoldable pub library_add : AddCall → Api (List Receipt)
    library_add call = do
      body ← call_engine bare (engine_add call (stripped call.guidelines))
      give (receipts_of P body)

    unfoldable pub library_search : SearchCall → Api (List Fields)
    library_search call = do body ← call_engine bare (engine_search call); give (rows_of P body)

    unfoldable pub library_get : Str → Api Fields
    library_get memory_id = do
      row ← call_engine bare (engine_get memory_id)
      give (known_row P memory_id row)

    unfoldable pub library_get_all : Str → ℕ → Api (List Fields)
    library_get_all user_id limit = do
      body ← call_engine bare (engine_get_all user_id limit)
      give (cut limit (rows_of P body))

    unfoldable pub library_update : Str → Option Str → Option Fields → Api Fields
    library_update memory_id new_text metadata = do
      _ ← call_engine mapped (engine_update memory_id new_text metadata)
      library_get memory_id

    unfoldable pub library_delete : Str → Api Json
    library_delete memory_id = call_engine mapped (engine_delete memory_id)

    abbrev pub library_store : Store ℕ
    library_store = record { add = library_add; search = library_search; get_all = library_get_all }
