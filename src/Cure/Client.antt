-- ===== src/Cure/Client.antt =====
-- `ChatGPTMemoryDecisionClient` of integration/cure_memory/src/cure_memory/extractor.py: the call with
-- its retries, the reading of the completion, and the validation of the decision. The answer to the
-- k-th attempt, `json.loads` (`parse`) and the regular expressions that take a code fence off
-- (`unfence`) are arguments; `last_error` is the first component of a result.
pub mod Escaped
pub mod Sound
use memory_bridge.Base.{
  ℕ, zero, suc, ◌+◌, Bool, true, false, ◌&&◌, ◌||◌, not, List, [], ◌∷◌, ◌++◌, Option, none, some,
  Str, codes, strip, if◌then◌else◌, ltb, ◌==◌, is_empty,
}
use memory_bridge.Shared.Json.{
  join_parts, Json, null, text, array, object, Items, no_items, item, Fields, no_fields, field, get,
  dicts, all_dicts,
}

pub data ClientError : Type 0 where
  missing_api_key missing_base_url non_dict_body missing_choices missing_content : ClientError
  empty_content json_decode_error non_dict_json invalid_decision_schema : ClientError
  http_status : ℕ → ClientError
  transport_class : Str → ClientError

-- One `urlopen` with the decoding of its body; `transport` is an exception that is retried, and
-- `escaped` one outside the `except` clauses, such as `http.client.IncompleteRead`.
pub data Response : Type 0 where
  http_failure : ℕ → Response
  transport : Str → Response
  escaped : Str → Response
  body : Json → Response

pub data Called (A : Type 0) : Type 0 where
  answered : A → Called A
  call_failed : ClientError → Called A
  call_raised : Str → Called A

-- The error of an attempt that may be retried.
abbrev pub error_of : Response → ClientError
error_of (http_failure code) = http_status code
error_of (transport name) = transport_class name
error_of response = non_dict_body

-- The attempts from number `attempt` on, with `left` retries.
unfoldable pub settle_attempt : Response → Called Fields → Called Fields
settle_attempt (body (object parsed)) rest = answered parsed
settle_attempt (escaped name) rest = call_raised name
settle_attempt (http_failure code) rest =
    if ltb code 500 then call_failed (http_status code) else rest
settle_attempt response rest = rest

unfoldable pub call_loop : (ℕ → Response) → ℕ → ℕ → Called Fields
call_loop respond attempt zero =
    settle_attempt (respond attempt) (call_failed (error_of (respond attempt)))
call_loop respond attempt (suc left) =
    settle_attempt (respond attempt) (call_loop respond (attempt + 1) left)

abbrev pub nonempty_text : Str → Called Str
nonempty_text s = if is_empty s then call_failed empty_content else answered s

unfoldable pub read_content : Option Json → Called Str
read_content none = call_failed empty_content
read_content (some (text s)) = nonempty_text (strip s)
read_content (some (array parts)) = nonempty_text (strip (join_parts parts))
read_content (some x) = call_failed missing_content

unfoldable pub read_message : Option Json → Called Str
read_message none = call_failed empty_content
read_message (some (object message)) = read_content (get (codes "content") message)
read_message (some x) = call_failed missing_content

unfoldable pub read_choices : Option Json → Called Str
read_choices (some (array (item (object choice) rest))) =
    read_message (get (codes "message") choice)
read_choices choices = call_failed missing_choices

pub record Client : Type 0 where
  pub api_key : Str
  pub base_url : Str
  pub max_retries : ℕ

abbrev pub read_reply : Called Fields → Called Str
read_reply (answered reply) = read_choices (get (codes "choices") reply)
read_reply (call_failed e) = call_failed e
read_reply (call_raised name) = call_raised name

unfoldable pub call_chatgpt_api : (ℕ → Response) → Client → Called Str
call_chatgpt_api respond client =
    if is_empty client.api_key
    then call_failed missing_api_key
    else if is_empty client.base_url
    then call_failed missing_base_url
    else read_reply (call_loop respond 0 client.max_retries)

-- `text[text.find("{"):]`
unfoldable pub from_brace : Str → Option Str
from_brace [] = none
from_brace (c ∷ s) = let rest = from_brace s in if c == 123 then some (c ∷ s) else rest

-- `text[: text.rfind("}") + 1]`
unfoldable pub to_brace : Str → Option Str
to_brace [] = none
to_brace (c ∷ s) = elim (to_brace s) [
  | some kept ↦ some (c ∷ kept)
  | none ↦ if c == 125 then some (c ∷ []) else none
]

unfoldable pub extract_json_text : (Str → Str) → Str → Str
extract_json_text unfence raw =
    let s = unfence (strip raw) in
    elim (from_brace s) [
      | none ↦ s
      | some tail ↦ elim (to_brace tail) [ none ↦ s | some kept ↦ kept ]
    ]

abbrev pub decision_keys : List Str
decision_keys = codes "candidates" ∷ codes "deletions" ∷ codes "rejections" ∷ []

abbrev pub empty_decision : Fields
empty_decision = field (codes "candidates") (array no_items) (
    field (codes "deletions") (array no_items)
      (field (codes "rejections") (array no_items) no_fields))

-- What a decision key may hold: null, or a list of dicts.
unfoldable pub is_decision_value : Option Json → Bool
is_decision_value none = true
is_decision_value (some null) = true
is_decision_value (some (array items)) = all_dicts items
is_decision_value (some x) = false

abbrev pub is_given : Option Json → Bool
is_given none = false
is_given (some x) = true

unfoldable pub any_present : List Str → Fields → Bool
any_present [] d = false
any_present (key ∷ keys) d = is_given (get key d) || any_present keys d

unfoldable pub all_valid : List Str → Fields → Bool
all_valid [] d = true
all_valid (key ∷ keys) d = is_decision_value (get key d) && all_valid keys d

unfoldable pub validate : Option Json → Option ClientError × Fields
validate none = (some json_decode_error, empty_decision)
validate (some (object d)) =
    if any_present decision_keys d && all_valid decision_keys d
    then (none, d)
    else (some invalid_decision_schema, empty_decision)
validate (some x) = (some non_dict_json, empty_decision)

-- A round returns, with `last_error` and the decision, or raises.
pub data Decided : Type 0 where
  decided : Option ClientError → Fields → Decided
  decision_raised : Str → Decided

abbrev pub as_decided : Option ClientError × Fields → Decided
as_decided (e, d) = decided e d

-- What `json.loads` makes of a text: a value, a `JSONDecodeError`, or another exception, as for a
-- number with too many digits.
pub data Parsed : Type 0 where
  loaded : Json → Parsed
  undecodable : Parsed
  load_raised : Str → Parsed

unfoldable pub decide_parsed : Parsed → Decided
decide_parsed (loaded parsed) = as_decided (validate (some parsed))
decide_parsed undecodable = as_decided (validate none)
decide_parsed (load_raised name) = decision_raised name

unfoldable pub decide_from : (Str → Parsed) → (Str → Str) → Called Str → Decided
decide_from parse unfence (call_failed e) = decided (some e) empty_decision
decide_from parse unfence (call_raised name) = decision_raised name
decide_from parse unfence (answered raw) = decide_parsed (parse (extract_json_text unfence raw))

unfoldable pub decide_memory_updates :
    (Str → Parsed) → (Str → Str) → (ℕ → Response) → Client → Decided
decide_memory_updates parse unfence respond client =
    decide_from parse unfence (call_chatgpt_api respond client)

-- `_decision_items`
unfoldable pub items_in : Option Json → List Fields
items_in (some (array items)) = dicts items
items_in x = []

unfoldable pub decision_items : Fields → Str → List Fields
decision_items d key = items_in (get key d)
