-- ===== src/Cure/Extractor.antt =====
-- `BasicMemoryExtractor` of integration/cure_memory/src/cure_memory/extractor.py: the screening of
-- messages and the application of a decision. The decision client is an argument. A source record
-- is given by its message.
pub mod Candidate
pub mod Own
pub mod Admitted
pub mod Screened
use memory_bridge.Base.{
  ℕ, ◌+◌, ◌-◌, Bool, true, false, ◌&&◌, ◌||◌, not, List, [], ◌∷◌, ◌++◌, map, Option, none, some,
  Str, codes, str_eq, opt_str_eq, strip, join, if◌then◌else◌, leb, ltb, ◌==◌, is_empty, keep_if,
  length, take,
}
use memory_bridge.Base.Members.{has}
use memory_bridge.Cure.Model.{
  SessionMessage, Memory, Rejection, ExtractionResult, ReviewStatus, approved, candidate,
  pending_review,
}
use memory_bridge.Cure.System.{is_active, is_general, ids_of}
use memory_bridge.Cure.Search.{split_words, contains_text}
use memory_bridge.Shared.Json.{
  Json, null, flag, text, number, array, object, Items, no_items, item, Fields, no_fields, get,
  truth,
}
use memory_bridge.Cure.Client.{ClientError, decision_items}

-- What the source takes from Python and `re`: the patterns of `_is_sensitive`, the words of
-- `re.findall`, `str` of a value that is no text, whether a number is 0, `int` (`none` where it
-- raises or is no message id), the clamped confidence and its test against 0.85, and the texts of
-- records that are only carried.
pub record Runtime : Type 0 where
  pub lower : Str → Str
  pub is_sensitive : Str → Bool
  pub words : Str → List Str
  pub str_of : Json → Str
  pub is_zero : Str → Bool
  pub int_of : Json → Option ℕ
  pub clamp_confidence : Option Json → Str
  pub below_floor : Str → Bool
  pub source_text : SessionMessage → Str
  pub error_text : ClientError → Str
  pub metadata : Str

abbrev pub snippet_limit : ℕ
snippet_limit = 180

unfoldable pub snippet : Str → Str
snippet s =
    let folded = join (codes " ") (split_words s) in
    if leb (length folded) snippet_limit
    then folded
    else take (snippet_limit - 3) folded ++ codes "..."

pub data Layer : Type 0 where
  user_layer project_layer : Layer

-- `next((message for message in messages if message.role == "user"), messages[0])`
unfoldable pub first_user : SessionMessage → List SessionMessage → SessionMessage
first_user default [] = default
first_user default (m ∷ ms) =
    let rest = first_user default ms in if str_eq m.role (codes "user") then m else rest

-- `message_by_id.get(n, default)`; a later message with the same id replaces an earlier one.
unfoldable pub message_at : ℕ → SessionMessage → List SessionMessage → SessionMessage
message_at n default [] = default
message_at n default (m ∷ ms) =
    message_at n (elim m.id [ none ↦ default | some k ↦ if k == n then m else default ]) ms

abbrev pub status_of : Str → ReviewStatus
status_of s =
    if str_eq s (codes "approved")
    then approved
    else if str_eq s (codes "pending_review")
    then pending_review
    else candidate

-- The two demotions of an approved candidate.
unfoldable pub demote : Bool → ReviewStatus → ReviewStatus
demote true approved = pending_review
demote doubtful status = status

-- The layer that a deletion addresses: "user", "project", or the session's own.
unfoldable pub in_layer : Option Layer → Option Str → Memory → Bool
in_layer (some user_layer) project_id m = is_general m
in_layer (some project_layer) project_id m =
    not (is_general m) && opt_str_eq m.project_id project_id
in_layer none project_id m = opt_str_eq m.project_id project_id

unfoldable pub any_contained : List Str → Str → Bool
any_contained [] s = false
any_contained (token ∷ tokens) s = contains_text token s || any_contained tokens s

-- The deletions so far with those of `matches` whose id is not among them (`deleted_ids`).
unfoldable pub add_deleted : List Memory → List Memory → List Memory
add_deleted deleted [] = deleted
add_deleted deleted (m ∷ found) =
    add_deleted
      (if (elim m.id [ none ↦ false | some n ↦ has n (ids_of deleted) ])
        then deleted
        else deleted ++ m ∷ [])
      found

module _ (R : Runtime) where
  abbrev pub truthy : Json → Bool
  truthy = truth R.is_zero

  abbrev pub text_of : Json → Str
  text_of (text s) = s
  text_of x = R.str_of x

  -- `str(value or default)`
  unfoldable pub text_or : Option Json → Str → Str
  text_or none default = default
  text_or (some x) default = if truthy x then text_of x else default

  abbrev pub default_to : Str → Str → Str
  default_to default s = if is_empty s then default else s

  -- `sources[0].get("message_id")`
  abbrev pub first_source_id : Option Json → Option Json
  first_source_id (some (array (item (object source) rest))) = get (codes "message_id") source
  first_source_id sources = none

  abbrev pub not_null : Option Json → Option Json
  not_null (some null) = none
  not_null x = x

  abbrev pub given_or : Option Json → Option Json → Option Json
  given_or none default = default
  given_or (some x) default = some x

  unfoldable pub message_id_from_item : Fields → Option ℕ
  message_id_from_item d =
      let raw =
        not_null (given_or (get (codes "message_id") d) (get (codes "source_message_id") d)) in
      elim (given_or raw (first_source_id (get (codes "sources") d))) [
        | none ↦ none
        | some x ↦ R.int_of x
      ]

  unfoldable pub source_message : Fields → SessionMessage → List SessionMessage → SessionMessage
  source_message d fallback messages = elim (message_id_from_item d) [
    | none ↦ fallback
    | some n ↦ message_at n fallback messages
  ]

  abbrev pub layer_of : Option Json → Option Layer
  layer_of value =
      let scope = R.lower (strip (text_or value [])) in
      if str_eq scope (codes "user")
      then some user_layer
      else if str_eq scope (codes "project")
      then some project_layer
      else none

  -- `_matching_memories`
  unfoldable pub matching_memories : List Memory → Str → Option Layer → Option Str → List Memory
  matching_memories memories target scope project_id =
      let tokens = keep_if (λ token. ltb 2 (length token)) (R.words (R.lower target)) in
      keep_if
        (λ m.
          is_active m
          && in_layer scope project_id m
          && any_contained tokens (R.lower (m.key ++ codes " " ++ m.value)))
        memories

  unfoldable pub deletion_target : Fields → Str
  deletion_target d = strip (text_or (get (codes "target") d) (text_or (get (codes "query") d) []))

  unfoldable pub apply_deletions :
      List Memory → Option Str → List Memory → List Fields → List Memory
  apply_deletions existing project_id deleted [] = deleted
  apply_deletions existing project_id deleted (d ∷ items) =
      apply_deletions existing project_id
        (if is_empty (deletion_target d)
          then deleted
          else add_deleted deleted (
              matching_memories existing (deletion_target d) (layer_of (get (codes "scope") d))
                project_id))
        items

  unfoldable pub apply_rejections :
      SessionMessage → List SessionMessage → List Fields → List Rejection
  apply_rejections fallback messages [] = []
  apply_rejections fallback messages (d ∷ items) =
      (record {
        reason = text_or (get (codes "reason") d) (codes "llm_rejected");
        snippet = snippet (
            text_or (get (codes "snippet") d)
              (snippet (source_message d fallback messages).content));
      })
      ∷ apply_rejections fallback messages items
