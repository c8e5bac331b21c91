-- ===== src/Mem0/Client/Calls.antt =====
-- The calls of `Mem0PlatformClient`, integration/mem0/src/mem0_bridge/client.py.
use memory_bridge.Base.{
  ℕ, suc, ◌+◌, Bool, true, false, not, List, [], ◌∷◌, ◌++◌, Option, none, some, Str, codes, str_eq,
  strip, if◌then◌else◌, leb, is_empty,
}
use memory_bridge.Shared.Json.{
  Json, flag, text, number, array, object, Items, no_items, item, Fields, no_fields, field,
  get_or_null, dicts,
}
use memory_bridge.Mem0.Client.{
  amount, Python, Reason, unrecognizable, neither_results_nor_event, event_unrecognizable,
  event_failed, event_late, api_error, other_error, Result, ok, err, Request, Answer, answered,
  unanswered, Receipt, error_reason, receipts, results_in, truthy, text_of, when_true, shape_of,
}
use memory_bridge.Shared.Poll.{Asked, settled, waiting, poll}

-- A call with the number of requests made.
abbrev pub Api : Type 0 → Type 0
Api A = ℕ → Result A × ℕ

abbrev pub proceed : {A B : Type 0} → (A → Api B) → Result A × ℕ → Result B × ℕ
proceed f (ok a, k) = f a k
proceed f (err e, k) = (err e, k)

infixl 5 ◌>>=◌
abbrev pub ◌>>=◌ : {A B : Type 0} → Api A → (A → Api B) → Api B
◌>>=◌ m f k = proceed f (m k)

abbrev pub pure : {A : Type 0} → A → Api A
pure a k = (ok a, k)

abbrev pub give : {A : Type 0} → Result A → Api A
give r k = (r, k)

abbrev pub plain : Str → Str → Option Fields → Request
plain verb path json = record { verb = verb; path = path; json = json; params = []; timeout = none }

-- The pairs of a dict display that the guards leave in.
abbrev pub field_if : Bool → Str → Json → Fields → Fields
field_if b key value d = if b then field key value d else d

-- What `_request_json` makes of an answer.
unfoldable pub judge : Answer → Result Json
judge (unanswered e) = err (other_error e)
judge (answered status body) =
    if leb 400 status then err (api_error status (error_reason body status)) else ok body

-- The rows of a list that a search or a listing answers with.
unfoldable pub rows_of : Python → Json → Result (List Fields)
rows_of P body = elim (results_in body) [
  | some items ↦ ok (dicts items)
  | none ↦ err (api_error 502 (unrecognizable (shape_of P body)))
]

-- One memory.
unfoldable pub row_of : Python → Json → Result Fields
row_of P (object d) = ok d
row_of P body = err (api_error 502 (unrecognizable (shape_of P body)))

-- The arguments of an add.
pub record AddCall : Type 0 where
  pub messages : Items
  pub user_id : Str
  pub run_id : Option Str
  pub infer : Bool
  pub metadata : Option Fields
  pub guidelines : Option Str

abbrev pub given_text : Option Str → Str
given_text none = []
given_text (some s) = s

abbrev pub given_fields : Option Fields → Fields
given_fields none = no_fields
given_fields (some d) = d

abbrev pub has_fields : Fields → Bool
has_fields no_fields = false
has_fields (field k v d) = true

-- The body of an add, with the guidelines under `key`.
unfoldable pub add_body : Str → AddCall → Fields
add_body key call = field (codes "messages") (array call.messages) (
    field (codes "user_id") (text call.user_id) (
      field (codes "infer") (flag call.infer) (
        field_if (not (is_empty (given_text call.run_id))) (codes "run_id")
          (text (given_text call.run_id))
          (field_if (has_fields (given_fields call.metadata)) (codes "metadata")
            (object (given_fields call.metadata))
            (field_if (not (is_empty (strip (given_text call.guidelines)))) key
              (text (strip (given_text call.guidelines))) no_fields)))))

-- The arguments of a search. A number is kept as its text.
pub record SearchCall : Type 0 where
  pub query : Str
  pub user_id : Str
  pub top_k : Str
  pub threshold : Str
  pub timeout : Option ℕ

unfoldable pub user_filter : Str → Json
user_filter user_id = object (field (codes "user_id") (text user_id) no_fields)

unfoldable pub search_body : SearchCall → Fields
search_body call = field (codes "query") (text call.query) (
    field (codes "filters") (user_filter call.user_id) (
      field (codes "top_k") (number call.top_k)
        (field (codes "threshold") (number call.threshold) no_fields)))

unfoldable pub update_body : Option Str → Option Fields → Fields
update_body none none = no_fields
update_body none (some d) = field (codes "metadata") (object d) no_fields
update_body (some s) none = field (codes "text") (text s) no_fields
update_body (some s) (some d) =
    field (codes "text") (text s) (field (codes "metadata") (object d) no_fields)

abbrev pub add_request : AddCall → Request
add_request call =
    plain (codes "POST") (codes "/v3/memories/add/")
      (some (add_body (codes "custom_instructions") call))

-- How an add goes on after its answer.
pub data Added : Type 0 where
  received : List Receipt → Added
  queued : Json → Added
  refused : Reason → Added

-- `body if isinstance(body, dict) else {}`
unfoldable pub fields_of : Json → Fields
fields_of (object d) = d
fields_of body = no_fields

module _ (P : Python) where
  abbrev pub by_event : Fields → Added
  by_event response =
      if truthy P (get_or_null (codes "event_id") response)
      then queued (get_or_null (codes "event_id") response)
      else refused (neither_results_nor_event (shape_of P (object response)))

  -- After the results of an add. An empty list counts where no event is named.
  unfoldable pub read_results : Option Items → Fields → Added
  read_results none response = by_event response
  read_results (some no_items) response =
      if truthy P (get_or_null (codes "event_id") response) then by_event response else received []
  read_results (some (item x items)) response = received (receipts (item x items))

  unfoldable pub read_add : Fields → Added
  read_add response = read_results (results_in (object response)) response

  unfoldable pub read_event : Option Items → Option Items → Json → Json → Result (List Receipt)
  read_event (some items) at_top event_id event = ok (receipts items)
  read_event none (some items) event_id event = ok (receipts items)
  read_event none none event_id event =
      err (api_error 502 (event_unrecognizable event_id (shape_of P event)))

  -- The receipts of an event that succeeded: under its payload, or at its top.
  unfoldable pub event_receipts : Json → Fields → Result (List Receipt)
  event_receipts event_id event =
      read_event (results_in (get_or_null (codes "payload") event)) (results_in (object event))
        event_id (object event)

  abbrev pub is_text : Str → Json → Bool
  is_text s (text t) = str_eq t s
  is_text s x = false

  -- A round of `_wait_for_event`.
  unfoldable pub event_verdict : Json → ℕ → Fields → Asked (Result (List Receipt))
  event_verdict event_id budget event =
      let status = get_or_null (codes "status") event in
      if is_text (codes "SUCCEEDED") status
      then settled (event_receipts event_id event)
      else if is_text (codes "FAILED") status
      then settled (
          err (
            api_error 502
              (event_failed event_id (when_true P (get_or_null (codes "error") event)))))
      else waiting (err (api_error 504 (event_late event_id (when_true P status) budget)))

  abbrev pub event_request : Json → Request
  event_request event_id =
      plain (codes "GET") (codes "/v1/event/" ++ text_of P event_id ++ codes "/") none

  -- An error of the request ends the loop.
  unfoldable pub read_round : Json → ℕ → Result Fields → Asked (Result (List Receipt))
  read_round event_id budget (ok event) = event_verdict event_id budget event
  read_round event_id budget (err e) = settled (err e)

  module _ (send : ℕ → Request → Answer) where
    unfoldable pub request_json : Request → Api Json
    request_json request k = (judge (send k request), suc k)

    -- `_request`: a body that is no dict counts as {}.
    unfoldable pub request : Request → Api Fields
    request r = do body ← request_json r; pure (fields_of body)

    unfoldable pub ping : Api Fields
    ping = request (plain (codes "GET") (codes "/v1/ping/") none)

    unfoldable pub search : SearchCall → Api (List Fields)
    search call = do
      body ←
          request_json
            (record (plain (codes "POST") (codes "/v3/memories/search/")
              (some (search_body call))) { timeout = call.timeout })
      give (rows_of P body)

    -- One page of the listing.
    unfoldable pub list_page : Str → ℕ → ℕ → Api Fields
    list_page user_id page_size page =
        request
          (record (plain (codes "POST") (codes "/v3/memories/")
            (some (field (codes "filters") (user_filter user_id) no_fields))) {
              params = (codes "page", amount page) ∷ (codes "page_size", amount page_size) ∷ [];
            })

    abbrev pub memory_path : Str → Str
    memory_path memory_id = codes "/v1/memories/" ++ memory_id ++ codes "/"

    unfoldable pub fetch : Str → Api Fields
    fetch memory_id = do
      body ← request_json (plain (codes "GET") (memory_path memory_id) none)
      give (row_of P body)

    unfoldable pub update : Str → Option Str → Option Fields → Api Fields
    update memory_id new_text metadata =
        request (plain (codes "PUT") (memory_path memory_id) (some (update_body new_text metadata)))

    unfoldable pub delete : Str → Api Fields
    delete memory_id = request (plain (codes "DELETE") (memory_path memory_id) none)

    unfoldable pub ask_event : Json → ℕ → ℕ → Asked (Result (List Receipt))
    ask_event event_id budget k = read_round event_id budget (request (event_request event_id) k).0

    module _ (clock : ℕ → ℕ) (budget fuel : ℕ) where
      unfoldable pub wait_for_event : Json → ℕ → Option (Result (List Receipt) × ℕ)
      wait_for_event event_id k = poll (ask_event event_id budget) clock (clock k + budget) fuel k

      unfoldable pub go_on : ℕ → Added → Option (Result (List Receipt) × ℕ)
      go_on k (received rs) = some (ok rs, k)
      go_on k (refused reason) = some (err (api_error 502 reason), k)
      go_on k (queued event_id) = wait_for_event event_id k

      unfoldable pub settle_add : Result Fields × ℕ → Option (Result (List Receipt) × ℕ)
      settle_add (err e, k) = some (err e, k)
      settle_add (ok response, k) = go_on k (read_add response)

      unfoldable pub add : AddCall → ℕ → Option (Result (List Receipt) × ℕ)
      add call k = settle_add (request (add_request call) k)
