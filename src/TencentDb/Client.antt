-- ===== src/TencentDb/Client.antt =====
-- `TencentDBClient` of integration/tencentdb/src/tencentdb_bridge/client.py: the envelope, the chunked
-- add, the paginated query and the wait for an idle pipeline. `send k` answers the request that `k`
-- requests precede; the headers and the timeouts are left out.
pub mod Calls
pub mod Chunks
pub mod Paged
pub mod Idle
use memory_bridge.Base.{
  ℕ, zero, suc, ◌+◌, min, Bool, true, false, ◌&&◌, ◌||◌, not, List, [], ◌∷◌, ◌++◌, Option, none,
  some, Str, codes, str_eq, strip, if◌then◌else◌, leb, ltb, is_empty, length, take,
}
use memory_bridge.Shared.Json.{
  Json, null, flag, text, number, array, object, Items, no_items, item, Fields, no_fields, field,
  get, get_or_null, dicts, truth,
}
use memory_bridge.Shared.Poll.{Asked, settled, waiting, poll}
use memory_bridge.TencentDb.Utf16.{clamp_utf16_units}

abbrev pub add_chunk_messages : ℕ
add_chunk_messages = 100

abbrev pub query_page_limit : ℕ
query_page_limit = 100

abbrev pub search_query_max_chars : ℕ
search_query_max_chars = 2048

abbrev pub transport_error_status : ℕ
transport_error_status = 503

-- `TencentDBApiError`
pub data Reason : Type 0 where
  transport : Str → Reason
  said : Str → Reason
  business_code : ℕ → Reason
  no_envelope : ℕ → Reason

pub record ApiError : Type 0 where
  pub status_code : ℕ
  pub reason : Reason
  pub persisted_messages : ℕ

pub data Result {ℓ} (A : Type ℓ) : Type ℓ where
  ok : A → Result A
  err : ApiError → Result A

pub record Request : Type 0 where
  pub verb : Str
  pub path : Str
  pub json : Fields

-- What httpx comes to: a status with the body, null where it is no JSON, or a RequestError.
pub data Answer : Type 0 where
  answered : ℕ → Json → Answer
  unanswered : Str → Answer

-- What the source takes from Python: whether a number is 0, its integer part (0 for a negative one;
-- the codes of the gateway are not negative), whether it is an int, and the numeral of a count.
pub record Python : Type 0 where
  pub is_zero : Str → Bool
  pub int_of : Str → ℕ
  pub is_int : Str → Bool
  pub numeral : ℕ → Str

abbrev pub api_error : ℕ → Reason → ApiError
api_error status reason = record { status_code = status; reason = reason; persisted_messages = 0 }

unfoldable pub envelope_error_reason : Fields → ℕ → Reason
envelope_error_reason body code = elim (get_or_null (codes "message") body) [
  | text s ↦ if is_empty (strip s) then business_code code else said (strip s)
  | _ ↦ business_code code
]

abbrev pub fields_of : Json → Fields
fields_of (object d) = d
fields_of x = no_fields

abbrev pub items_of : Json → List Fields
items_of (array items) = dicts items
items_of x = []

-- The code of an envelope is an error if it is a number that is not 0; True is the number 1.
unfoldable pub error_code : Python → Json → Option ℕ
error_code P (number s) = if P.is_zero s then none else some (P.int_of s)
error_code P (flag true) = some 1
error_code P x = none

abbrev pub or_value : Python → Json → Json → Json
or_value P x y = if truth P.is_zero x then x else y

abbrev pub stripped_text : Json → Str
stripped_text (text s) = strip s
stripped_text x = []

unfoldable pub http_reason : Python → ℕ → Json → Reason
http_reason P status body =
    let d = fields_of body in
    let reason = stripped_text (
      or_value P (get_or_null (codes "detail") d)
        (or_value P (get_or_null (codes "error") d) (get_or_null (codes "message") d))) in
    if is_empty reason then no_envelope status else said reason

-- An answer with an envelope, by its code.
unfoldable pub open_envelope : Option ℕ → Fields → Result Fields
open_envelope (some code) d = err (api_error code (envelope_error_reason d code))
open_envelope none d = ok (fields_of (get_or_null (codes "data") d))

unfoldable pub open_plain : Python → ℕ → Json → Result Fields
open_plain P status body =
    if leb 400 status
    then err (api_error status (http_reason P status body))
    else ok (fields_of body)

unfoldable pub open_body : Python → ℕ → Json → Option Json → Result Fields
open_body P status body (some code) = open_envelope (error_code P code) (fields_of body)
open_body P status body none = open_plain P status body

unfoldable pub read_answer : Python → Answer → Result Fields
read_answer P (unanswered reason) = err (api_error transport_error_status (transport reason))
read_answer P (answered status body) = open_body P status body (get (codes "code") (fields_of body))

-- The isolation ids that ride the body.
pub record Ids : Type 0 where
  pub team_id : Str
  pub agent_id : Str
  pub user_id : Str

abbrev pub field_if : Bool → Str → Json → Fields → Fields
field_if b key value d = if b then field key value d else d

-- A task id, with nothing where it is empty.
abbrev pub task_field : Str → Fields
task_field task_id = field_if (not (is_empty task_id)) (codes "task_id") (text task_id) no_fields

unfoldable pub id_fields : Ids → Fields → Fields
id_fields ids rest =
    field (codes "team_id") (text ids.team_id) (
      field (codes "agent_id") (text ids.agent_id)
        (field (codes "user_id") (text ids.user_id) rest))

-- `messages[:100]` and what follows
unfoldable pub split_at : ℕ → List Json → List Json × List Json
split_at zero xs = ([], xs)
split_at (suc n) [] = ([], [])
split_at (suc n) (x ∷ xs) = let (front, back) = split_at n xs in (x ∷ front, back)

unfoldable pub as_items : List Json → Items
as_items [] = no_items
as_items (x ∷ xs) = item x (as_items xs)

unfoldable pub add_body : Ids → Str → Str → List Json → Fields
add_body ids session_id task_id chunk =
    field (codes "session_id") (text session_id)
      (id_fields ids (field (codes "messages") (array (as_items chunk)) (task_field task_id)))
