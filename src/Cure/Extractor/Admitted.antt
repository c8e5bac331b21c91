-- ===== src/Cure/Extractor/Admitted.antt =====
-- What an extraction lets through (integration/cure_memory/src/cure_memory/extractor.py).
use memory_bridge.Base.{
  ◌≡◌, ◌⊎◌, true, false, ◌&&◌, ◌||◌, not, List, [], Option, none, some, Str, opt_str_eq, is_empty,
  All,
}
use memory_bridge.Cure.Model.{
  other_status, other_status, SessionMessage, Memory, ExtractionResult, approved, status_eq,
}
use memory_bridge.Cure.System.{is_general}
use memory_bridge.Cure.Client.{Decided, decision_raised}
use memory_bridge.Cure.Extractor.{Runtime}
use memory_bridge.Cure.Extractor.Candidate.{Extracted, extracted, extract_raised}
use memory_bridge.Cure.Extractor.Own.{is_own}

-- What a stored candidate keeps to: its value holds no secret, it is approved only where it is sure and
-- needs no verification, and it is general or bound to the session's repository.
pub record IsAdmitted (R : Runtime) (project_id : Option Str) (m : Memory) : Type 0 where
  pub safe : R.is_sensitive m.value ≡ false
  pub sure :
      (not (status_eq m.review_status approved)
        || (not (R.below_floor m.confidence) && not m.needs_verification))
      ≡ true
  pub bound : (is_general m || opt_str_eq m.project_id project_id) ≡ true

module _ (R : Runtime) where
  -- What holds of a candidate, if there is one and its value holds no secret.
  abbrev Admits : (Memory → Type 0) → Option Memory → Type 0
  Admits P none = Unit
  Admits P (some m) = R.is_sensitive m.value ≡ false → P m

  -- An extraction that failed changes nothing; one that did not stores admitted candidates and
  -- deletes rows of the session's own.
  abbrev pub IsSafe : Option Str → ExtractionResult → Type 0
  IsSafe project_id result =
      All (IsAdmitted R project_id) result.candidates
      × All (λ m. is_own project_id m ≡ true) result.to_delete
      × ((is_empty result.errors ≡ true) ⊎ ((result.candidates ≡ []) × (result.to_delete ≡ [])))

  module _ (decide : List SessionMessage → List Memory → Option Str → Decided) where
    -- An extraction that returns is safe; one that raises has the exception of its decision round.
    abbrev pub IsSafeRound : List SessionMessage → List Memory → Option Str → Extracted → Type 0
    IsSafeRound sent existing project_id (extracted result) = IsSafe project_id result
    IsSafeRound sent existing project_id (extract_raised name) =
        decide sent existing project_id ≡ decision_raised name
