-- ===== src/Cure/Extractor/Candidate.antt =====
-- The candidates of a decision, and `extract`
-- (integration/cure_memory/src/cure_memory/extractor.py). `now` is the time stamp of the new rows.
use memory_bridge.Base.{
  ℕ, Bool, true, false, ◌||◌, List, [], ◌∷◌, ◌++◌, Option, none, some, Str, codes, strip,
  if◌then◌else◌, is_empty,
}
use memory_bridge.Cure.Model.{SessionMessage, Memory, Rejection, ExtractionResult}
use memory_bridge.Shared.Json.{Json, array, Items, no_items, item, Fields, get}
use memory_bridge.Cure.Client.{Decided, decided, decision_raised, decision_items}
use memory_bridge.Cure.Extractor.{
  Runtime, snippet, first_user, status_of, demote, truthy, text_of, text_or, default_to,
  source_message, apply_deletions, apply_rejections, user_layer, layer_of,
}

-- The candidates that were taken, and the rejections of the others.
pub record Taken : Type 0 where
  pub candidates : List Memory
  pub rejections : List Rejection

-- `extract` returns, or the exception of the decision round leaves it.
pub data Extracted : Type 0 where
  extracted : ExtractionResult → Extracted
  extract_raised : Str → Extracted

module _ (R : Runtime) where
  unfoldable pub evidence_texts : Items → List Str
  evidence_texts no_items = []
  evidence_texts (item x items) =
      let s = strip (text_of R x) in
      let rest = evidence_texts items in if is_empty s then rest else snippet s ∷ rest

  -- `_candidate_evidence`; `default` is the snippet of the source
  unfoldable pub candidate_evidence : Option Json → Str → List Str
  candidate_evidence (some (array items)) default =
      if is_empty (evidence_texts items) then default ∷ [] else evidence_texts items
  candidate_evidence x default = default ∷ []

  -- Anything but "user" is bound to the session's repository; a session without one binds nothing.
  unfoldable pub general_candidate : Fields → Option Str → Bool
  general_candidate d none = true
  general_candidate d (some project_id) = elim (layer_of R (get (codes "scope") d)) [
    | some user_layer ↦ true
    | _ ↦ false
  ]

  unfoldable pub candidate_of : ℕ → SessionMessage → Option Str → Str → Str → Fields → Memory
  candidate_of now message project_id key value d =
      let confidence = R.clamp_confidence (get (codes "confidence") d) in
      let needs_verification : Bool = elim (get (codes "needs_verification") d) [
        | none ↦ false
        | some x ↦ truthy R x
      ] in
      let status =
        status_of (strip (text_or R (get (codes "review_status") d) (codes "candidate"))) in
      let general = general_candidate d project_id in
      record {
        id = none;
        user_id = message.user_id;
        project_id = if general then none else project_id;
        scope = if general then codes "user" else codes "project";
        memory_type =
            default_to R (codes "fact")
              (strip (text_or R (get (codes "memory_type") d) (codes "fact")));
        key = key;
        value = value;
        description = strip (text_or R (get (codes "description") d) key);
        confidence = confidence;
        review_status = demote needs_verification (demote (R.below_floor confidence) status);
        source_type = strip (text_or R (get (codes "source_type") d) (codes "llm_extracted"));
        sources = R.source_text message;
        evidence = candidate_evidence (get (codes "evidence") d) (snippet message.content);
        sensitivity =
            default_to R (codes "private")
              (strip (text_or R (get (codes "sensitivity") d) (codes "private")));
        needs_verification = needs_verification;
        supersedes = [];
        superseded_by = none;
        created_at = now;
        updated_at = now;
        metadata = R.metadata;
      }

  unfoldable pub memory_from_candidate :
      ℕ → SessionMessage → List SessionMessage → Option Str → Fields → Option Memory
  memory_from_candidate now fallback messages project_id d =
      let key = strip (text_or R (get (codes "key") d) []) in
      let value = strip (text_or R (get (codes "value") d) []) in
      if is_empty key || is_empty value
      then none
      else some (candidate_of now (source_message R d fallback messages) project_id key value d)

  -- One round of the loop over the candidates, before the later ones.
  unfoldable pub take_candidate : Option Memory → Taken → Taken
  take_candidate none rest = rest
  take_candidate (some m) rest =
      if R.is_sensitive m.value
      then record rest {
        rejections =
            (record { reason = codes "sensitive_information"; snippet = snippet m.value })
            ∷ rest.rejections;
      }
      else record rest { candidates = m ∷ rest.candidates }

  unfoldable pub apply_candidates :
      ℕ → SessionMessage → List SessionMessage → Option Str → List Fields → Taken
  apply_candidates now fallback messages project_id [] = record { candidates = []; rejections = [] }
  apply_candidates now fallback messages project_id (d ∷ items) =
      take_candidate (memory_from_candidate now fallback messages project_id d)
        (apply_candidates now fallback messages project_id items)

  -- The messages for the model, and the rejections of the sensitive ones.
  unfoldable pub screen : List SessionMessage → List SessionMessage × List Rejection
  screen [] = ([], [])
  screen (m ∷ ms) =
      let (kept, rejected) = screen ms in
      let s = strip m.content in
      if is_empty s
      then (kept, rejected)
      else if R.is_sensitive s
      then (
        kept,
        (record { reason = codes "sensitive_information"; snippet = snippet s }) ∷ rejected,
      )
      else (m ∷ kept, rejected)

  unfoldable pub apply_llm_decision :
      ℕ
      → Fields
      → SessionMessage
      → List SessionMessage
      → List Memory
      → Option Str
      → List Rejection
      → ExtractionResult
  apply_llm_decision now decision first messages existing project_id rejected =
      let fallback = first_user first messages in
      let taken =
        apply_candidates now fallback messages project_id
          (decision_items decision (codes "candidates")) in
      record {
        candidates = taken.candidates;
        rejections =
            rejected
            ++ apply_rejections R fallback messages (decision_items decision (codes "rejections"))
            ++ taken.rejections;
        to_delete =
            apply_deletions R existing project_id [] (decision_items decision (codes "deletions"));
        errors = [];
        persisted = [];
      }

  abbrev pub only_rejected : List Rejection → List Str → ExtractionResult
  only_rejected rejected errors = record {
    candidates = [];
    rejections = rejected;
    to_delete = [];
    errors = errors;
    persisted = [];
  }

  module _ (decide : List SessionMessage → List Memory → Option Str → Decided) where
    -- From the decision round on.
    unfoldable pub settle_decision :
        ℕ
        → Decided
        → SessionMessage
        → List SessionMessage
        → List Memory
        → Option Str
        → List Rejection
        → Extracted
    settle_decision now (decided (some e) decision) first messages existing project_id rejected =
        extracted (only_rejected rejected ((codes "llm_decision_failed:" ++ R.error_text e) ∷ []))
    settle_decision now (decided none decision) first messages existing project_id rejected =
        extracted (apply_llm_decision now decision first messages existing project_id rejected)
    settle_decision now (decision_raised name) first messages existing project_id rejected =
        extract_raised name

    -- `extract` with the messages for the model.
    unfoldable pub extract_from :
        ℕ → List SessionMessage × List Rejection → List Memory → Option Str → Extracted
    extract_from now ([], rejected) existing project_id = extracted (only_rejected rejected [])
    extract_from now (m ∷ ms, rejected) existing project_id =
        settle_decision now (decide (m ∷ ms) existing project_id) m (m ∷ ms) existing project_id
          rejected

    unfoldable pub extract_memories : ℕ → List SessionMessage → List Memory → Option Str → Extracted
    extract_memories now messages existing project_id =
        extract_from now (screen messages) existing project_id
