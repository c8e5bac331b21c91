-- ===== src/TencentDb/Client/Calls.antt =====
-- The calls of `TencentDBClient`, integration/tencentdb/src/tencentdb_bridge/client.py.
use memory_bridge.Base.{
  ℕ, zero, suc, ◌+◌, min, Bool, true, false, ◌||◌, not, List, [], ◌∷◌, ◌++◌, Option, none, some,
  Str, codes, strip, if◌then◌else◌, leb, ltb, is_empty, length,
}
use memory_bridge.Shared.Json.{
  Json, flag, text, number, array, Fields, no_fields, field, get_or_null, truth,
}
use memory_bridge.Shared.Poll.{Asked, settled, waiting, poll}
use memory_bridge.TencentDb.Utf16.{clamp_utf16_units}
use memory_bridge.TencentDb.Client.{
  add_chunk_messages, query_page_limit, search_query_max_chars, ApiError, Result, ok, err, Request,
  Answer, Python, fields_of, items_of, read_answer, Ids, field_if, task_field, id_fields, split_at,
  as_items, add_body,
}

abbrev pub Api : Type 0 → Type 0
Api A = ℕ → Result A × ℕ

abbrev pub proceed : {A B : Type 0} → (A → Api B) → Result A × ℕ → Result B × ℕ
proceed f (ok a, k) = f a k
proceed f (err e, k) = (err e, k)

infixl 5 ◌>>=◌
abbrev pub ◌>>=◌ : {A B : Type 0} → Api A → (A → Api B) → Api B
◌>>=◌ m f k = proceed f (m k)

abbrev pub pure : {A : Type 0} → A → Api A
pure a k = (ok a, k)

-- The chunks of an add, on fuel for the messages.
unfoldable pub chunks_of : ℕ → List Json → List (List Json)
chunks_of fuel [] = []
chunks_of zero (x ∷ messages) = []
chunks_of (suc fuel) (x ∷ messages) =
    let (front, back) = split_at add_chunk_messages (x ∷ messages) in front ∷ chunks_of fuel back

abbrev pub post : Str → Fields → Request
post path json = record { verb = codes "POST"; path = path; json = json }

abbrev pub persisted_at : ℕ → ApiError → ApiError
persisted_at sent e = record e { persisted_messages = sent }

-- The rows of a page of a query, with the total that it names.
pub record Page : Type 0 where
  pub rows : List Fields
  pub total : Option ℕ

-- Whether the walk ends after a page, by the rows so far.
unfoldable pub is_last : ℕ → ℕ → Page → Bool
is_last page_limit n page = is_empty page.rows || (elim page.total [
  | some total ↦ leb (min total page_limit) n
  | none ↦ ltb (length page.rows) query_page_limit
])

abbrev pub background_field : Option Str → Fields
background_field none = no_fields
background_field (some s) = field (codes "background") (text s) no_fields

module _ (P : Python) where
  -- `bool(isinstance(l1, dict) and l1.get("idle"))`
  unfoldable pub is_idle : Fields → Bool
  is_idle status =
      truth P.is_zero (get_or_null (codes "idle") (fields_of (get_or_null (codes "l1") status)))

  -- A total that is an int and no bool.
  unfoldable pub int_total : Json → Option ℕ
  int_total (number s) = if P.is_int s then some (P.int_of s) else none
  int_total x = none

  unfoldable pub read_page : Fields → Page
  read_page d = record {
    rows = items_of (get_or_null (codes "items") d);
    total = int_total (get_or_null (codes "total") d);
  }

  -- `value if isinstance(value, int) else 0`, which takes True for 1
  unfoldable pub int_or_zero : Json → ℕ
  int_or_zero (number s) = if P.is_int s then P.int_of s else 0
  int_or_zero (flag true) = 1
  int_or_zero x = 0

  unfoldable pub query_body : Ids → Str → Str → ℕ → Fields
  query_body ids time_start task_id offset =
      field (codes "limit") (number (P.numeral query_page_limit)) (
        field (codes "offset") (number (P.numeral offset)) (
          id_fields ids (
            field_if (not (is_empty time_start)) (codes "time_start") (text time_start)
              (task_field task_id))))

  -- A round of the wait: every error is absorbed.
  unfoldable pub idle_round : Result Fields → Asked Bool
  idle_round (ok status) = if is_idle status then settled true else waiting false
  idle_round (err e) = waiting false

  module _ (send : ℕ → Request → Answer) where
    unfoldable pub request : Request → Api Fields
    request r k = (read_answer P (send k r), suc k)

    unfoldable pub health : Api Fields
    health = request (record { verb = codes "GET"; path = codes "/health"; json = no_fields })

    unfoldable pub pipeline_status : Api Fields
    pipeline_status = request (post (codes "/v2/pipeline/status") no_fields)

    unfoldable pub ask_idle : ℕ → Asked Bool
    ask_idle k = idle_round (pipeline_status k).0

    unfoldable pub wait_l1_idle : (ℕ → ℕ) → ℕ → ℕ → ℕ → Option (Bool × ℕ)
    wait_l1_idle clock budget fuel k = poll ask_idle clock (clock k + budget) fuel k

    unfoldable pub atomic_search : Ids → Str → Str → ℕ → Api (List Fields)
    atomic_search ids task_id query limit = if is_empty (strip query) then pure [] else (do
      answer ← request (
          post (codes "/v3/atomic/search") (
            field (codes "query") (text (clamp_utf16_units query search_query_max_chars)) (
              field (codes "limit") (number (P.numeral limit))
                (id_fields ids (task_field task_id)))))
      pure (items_of (get_or_null (codes "items") answer)))

    unfoldable pub atomic_count : Ids → Str → Api ℕ
    atomic_count ids task_id = do
      answer ← request (post (codes "/v3/atomic/count") (id_fields ids (task_field task_id)))
      pure (int_or_zero (get_or_null (codes "total") answer))

    unfoldable pub atomic_delete : Ids → List Json → Api ℕ
    atomic_delete ids memory_ids = do
      answer ← request (
          post (codes "/v3/atomic/delete")
            (field (codes "ids") (array (as_items memory_ids)) (id_fields ids no_fields)))
      pure (int_or_zero (get_or_null (codes "deleted_count") answer))

    unfoldable pub scenario_ls : Ids → Api (List Fields)
    scenario_ls ids = do
      answer ← request (post (codes "/v3/scenario/ls") (id_fields ids no_fields))
      pure (items_of (get_or_null (codes "entries") answer))

    unfoldable pub atomic_update : Ids → Str → Str → Option Str → Api Fields
    atomic_update ids memory_id content background = request (
        post (codes "/v3/atomic/update") (
          field (codes "id") (text memory_id)
            (field (codes "content") (text content) (id_fields ids (background_field background)))))

    unfoldable pub scenario_read : Ids → Str → Api Fields
    scenario_read ids path = request (
        post (codes "/v3/scenario/read")
          (field (codes "path") (text path) (id_fields ids no_fields)))

    unfoldable pub core_read : Ids → Api Fields
    core_read ids = request (post (codes "/v3/core/read") (id_fields ids no_fields))

    module _ (ids : Ids) (session_id task_id : Str) where
      abbrev pub chunk_request : List Json → Request
      chunk_request chunk =
          post (codes "/v3/conversation/add") (add_body ids session_id task_id chunk)

      -- The chunks that are left, the messages sent and the last answer.
      unfoldable pub add_chunks : List (List Json) → ℕ → Fields → Api Fields
      add_chunks [] sent answer k = (ok answer, k)
      add_chunks (chunk ∷ chunks) sent answer k =
          elim (read_answer P (send k (chunk_request chunk))) [
            | err e ↦ (err (persisted_at sent e), suc k)
            | ok d ↦ add_chunks chunks (sent + length chunk) d (suc k)
          ]

      unfoldable pub conversation_add : List Json → Api Fields
      conversation_add messages = add_chunks (chunks_of (length messages) messages) 0 no_fields

    module _ (ids : Ids) (time_start task_id : Str) where
      -- The answer to the query of a page.
      abbrev pub page_at : ℕ → ℕ → Result Fields
      page_at offset k =
          read_answer P
            (send k (post (codes "/v3/atomic/query") (query_body ids time_start task_id offset)))

      -- The rows and the offset so far.
      unfoldable pub query_from : ℕ → ℕ → List Fields → ℕ → ℕ → Option (Result (List Fields) × ℕ)
      query_from page_limit zero rows offset k = none
      query_from page_limit (suc fuel) rows offset k =
          if leb page_limit (length rows) then some (ok rows, k) else elim (page_at offset k) [
            | err e ↦ some (err e, suc k)
            | ok d ↦
                let page = read_page d in
                let rest =
                  query_from page_limit fuel (rows ++ page.rows) (offset + length page.rows)
                    (suc k) in
                if is_last page_limit (length (rows ++ page.rows)) page
                then some (ok (rows ++ page.rows), suc k)
                else rest
          ]

      unfoldable pub atomic_query : ℕ → ℕ → ℕ → Option (Result (List Fields) × ℕ)
      atomic_query page_limit fuel k = query_from page_limit fuel [] 0 k
