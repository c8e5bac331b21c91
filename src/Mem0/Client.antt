-- ===== src/Mem0/Client.antt =====
-- integration/mem0/src/mem0_bridge/client.py: `Mem0PlatformClient` and the plumbing that the server
-- store shares. `send k` answers the request that `k` requests precede. A reason is the data of its
-- text, and a body that is no JSON is null, as in the source.
pub mod Calls
pub mod Added
use memory_bridge.Base.{
  ℕ, suc, ◌+◌, Bool, true, false, ◌&&◌, ◌||◌, not, List, [], ◌∷◌, ◌++◌, map, Option, none, some,
  Str, codes, str_eq, strip, join, if◌then◌else◌, leb, is_empty,
}
use memory_bridge.Shared.Backend.State.{Exn}
use memory_bridge.Shared.Json.{
  Json, null, flag, text, number, array, object, Items, no_items, item, Fields, no_fields, field,
  get, get_or_null, dicts, truth,
}
use memory_bridge.Shared.Poll.{Asked, settled, waiting, poll}

-- What the source takes from Python: whether a number is 0, `str` of a value that is no text, the
-- order of texts and their case.
pub record Python : Type 0 where
  pub is_zero : Str → Bool
  pub str_of : Json → Str
  pub text_before : Str → Str → Bool
  pub lower : Str → Str
  pub upper : Str → Str

-- `_shape_of`
pub data Shape : Type 0 where
  keys : List Str → Shape
  none_type bool_type str_type number_type list_type : Shape

pub data Reason : Type 0 where
  said : Str → Reason
  http_status : ℕ → Reason
  unrecognizable : Shape → Reason
  neither_results_nor_event : Shape → Reason
  event_unrecognizable : Json → Shape → Reason
  event_failed : Json → Option Json → Reason
  event_late : Json → Option Json → ℕ → Reason
  not_found : Str → Reason

-- `Mem0ApiError` with its status and reason, or another exception, of httpx or of the engine.
pub data Mem0Error : Type 0 where
  api_error : ℕ → Reason → Mem0Error
  other_error : Exn → Mem0Error

pub data Result {ℓ} (A : Type ℓ) : Type ℓ where
  ok : A → Result A
  err : Mem0Error → Result A

pub data Param : Type 0 where
  amount : ℕ → Param
  word : Str → Param

pub record Request : Type 0 where
  pub verb : Str
  pub path : Str
  pub json : Option Fields
  pub params : List (Str × Param)
  pub timeout : Option ℕ

pub data Answer : Type 0 where
  answered : ℕ → Json → Answer
  unanswered : Exn → Answer

-- One normalized add receipt.
pub record Receipt : Type 0 where
  pub id : Json
  pub memory : Json
  pub event : Json

-- `[item for item in body if isinstance(item, str)]`
unfoldable pub texts : Items → List Str
texts no_items = []
texts (item (text s) items) = s ∷ texts items
texts (item x items) = texts items

unfoldable pub first_said : List Str → Fields → Option Str
first_said [] d = none
first_said (key ∷ rest) d = elim (get_or_null key d) [
  | text (x ∷ s) ↦ some (x ∷ s)
  | _ ↦ first_said rest d
]

-- `_error_reason`
unfoldable pub error_reason : Json → ℕ → Reason
error_reason (object d) status =
    elim (first_said (codes "error" ∷ codes "detail" ∷ codes "message" ∷ []) d) [
      | some s ↦ said s
      | none ↦ http_status status
    ]
error_reason (array items) status =
    if is_empty (texts items) then http_status status else said (join (codes "; ") (texts items))
error_reason body status = http_status status

abbrev pub or_else : Json → Json → Json
or_else null x = x
or_else x y = x

-- `_normalize_result`
unfoldable pub normalize_result : Fields → Receipt
normalize_result d = record {
  id = get_or_null (codes "id") d;
  memory =
      or_else
        (elim (get (codes "data") d) [
          | some (object inner) ↦ get_or_null (codes "memory") inner
          | _ ↦ null
        ])
        (get_or_null (codes "memory") d);
  event = get_or_null (codes "event") d;
}

abbrev pub receipts : Items → List Receipt
receipts items = map normalize_result (dicts items)

-- `isinstance(x, dict) and isinstance(x.get("results"), list)`, with the list.
unfoldable pub results_in : Json → Option Items
results_in (object d) = elim (get (codes "results") d) [
  | some (array items) ↦ some items
  | _ ↦ none
]
results_in x = none

unfoldable pub key_names : Fields → List Str
key_names no_fields = []
key_names (field k v d) = k ∷ key_names d

module _ (P : Python) where
  abbrev pub truthy : Json → Bool
  truthy = truth P.is_zero

  abbrev pub text_of : Json → Str
  text_of (text s) = s
  text_of x = P.str_of x

  -- `x or None`
  abbrev pub when_true : Json → Option Json
  when_true x = if truthy x then some x else none

  unfoldable pub insert_name : Str → List Str → List Str
  insert_name s [] = s ∷ []
  insert_name s (t ∷ names) =
      let rest = insert_name s names in if P.text_before t s then t ∷ rest else s ∷ t ∷ names

  unfoldable pub sorted : List Str → List Str
  sorted [] = []
  sorted (s ∷ names) = insert_name s (sorted names)

  unfoldable pub shape_of : Json → Shape
  shape_of (object d) = keys (sorted (key_names d))
  shape_of null = none_type
  shape_of (flag b) = bool_type
  shape_of (text s) = str_type
  shape_of (number s) = number_type
  shape_of (array items) = list_type
