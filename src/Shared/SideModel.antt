-- ===== src/Shared/SideModel.antt =====
-- The side-model call of shared-bridge/src/shared_bridge/side_model.py for the query rewriter:
-- `call_structured`, `_call` and the envelope `RewrittenQuery`. The answer of the endpoint,
-- `json.loads` (`parse`) and whether a number is 0 are arguments.
pub mod Envelope
use memory_bridge.Base.{
  ℕ, ◌+◌, ◌≤◌, ◌≡◌, refl, Bool, true, false, ◌&&◌, ◌||◌, not, List, [], ◌∷◌, ◌++◌, Option, none,
  some, Str, codes, str_eq, strip, if◌then◌else◌, ltb, leb, ◌==◌, is_empty, length, Bool-cases, inl,
  inr, arith,
}
use memory_bridge.Shared.Json.{
  Json, null, flag, text, number, array, object, Items, no_items, item, Fields, no_fields, field,
  get, join_parts,
}

pub data SideError : Type 0 where
  http_error response_error unexpected : Str → SideError
  response_not_json missing_choices truncated_length empty_content : SideError
  content_not_json envelope_violation : SideError

-- What the request and the decoding of its answer come to; `raises` is any other exception.
pub data Answer : Type 0 where
  status_error : Str → Answer
  transport_error : Str → Answer
  not_json : Answer
  raises : Str → Answer
  answer : Json → Answer

-- `StructuredResult`
pub data SideResult : Type 0 where
  value : Str → SideResult
  error : SideError → SideResult

abbrev pub max_query_chars : ℕ
max_query_chars = 300

unfoldable pub has_char : ℕ → Str → Bool
has_char c [] = false
has_char c (x ∷ s) = x == c || has_char c s

-- `_single_line_capped`: one non-empty line of at most 300 characters
unfoldable pub is_query : Str → Bool
is_query s =
    not (is_empty s) && not (has_char 10 s) && not (has_char 13 s) && leb (length s) max_query_chars

unfoldable pub check_query : Str → SideResult
check_query s = if is_query s then value s else error envelope_violation

-- `extra="forbid"`, with the one field `query`
unfoldable pub only_query : Fields → Bool
only_query no_fields = true
only_query (field key x d) = str_eq key (codes "query") && only_query d

-- `RewrittenQuery.model_validate`
unfoldable pub model_validate : Json → SideResult
model_validate (object d) = elim (get (codes "query") d) [
  | some (text s) ↦ if only_query d then check_query (strip s) else error envelope_violation
  | _ ↦ error envelope_violation
]
model_validate x = error envelope_violation

unfoldable pub parse_content : (Str → Option Json) → Str → SideResult
parse_content parse s =
    if is_empty (strip s)
    then error empty_content
    else elim (parse s) [ none ↦ error content_not_json | some x ↦ model_validate x ]

-- `(choice.get("message") or {}).get("content")`; a message that is no dict and not false raises.
unfoldable pub read_answer : (Str → Bool) → (Str → Option Json) → Option Json → SideResult
read_answer is_zero parse (some (object message)) = elim (get (codes "content") message) [
  | some (text s) ↦ parse_content parse s
  | some (array parts) ↦ parse_content parse (join_parts parts)
  | _ ↦ error empty_content
]
read_answer is_zero parse none = error empty_content
read_answer is_zero parse (some null) = error empty_content
read_answer is_zero parse (some (flag false)) = error empty_content
read_answer is_zero parse (some (text [])) = error empty_content
read_answer is_zero parse (some (array no_items)) = error empty_content
read_answer is_zero parse (some (number s)) =
    if is_zero s then error empty_content else error (unexpected (codes "AttributeError"))
read_answer is_zero parse (some x) = error (unexpected (codes "AttributeError"))

abbrev pub is_cut_off : Option Json → Bool
is_cut_off (some (text s)) = str_eq s (codes "length")
is_cut_off x = false

unfoldable pub read_choice : (Str → Bool) → (Str → Option Json) → Json → SideResult
read_choice is_zero parse (object body) = elim (get (codes "choices") body) [
  | some (array (item (object choice) rest)) ↦
      if is_cut_off (get (codes "finish_reason") choice)
      then error truncated_length
      else read_answer is_zero parse (get (codes "message") choice)
  | _ ↦ error missing_choices
]
read_choice is_zero parse x = error missing_choices

unfoldable pub call_structured : (Str → Bool) → (Str → Option Json) → Answer → SideResult
call_structured is_zero parse (status_error code) = error (http_error code)
call_structured is_zero parse (transport_error name) = error (response_error name)
call_structured is_zero parse not_json = error response_not_json
call_structured is_zero parse (raises name) = error (unexpected name)
call_structured is_zero parse (answer body) = read_choice is_zero parse body
