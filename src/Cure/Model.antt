-- ===== src/Cure/Model.antt =====
-- The records of integration/cure_memory/src/cure_memory/models.py. Time stamps are numbers in the
-- order of their ISO texts; the confidence and the JSON values that the store only carries are kept
-- as their texts.
use memory_bridge.Base.{ℕ, Bool, true, false, List, Option, Str, str_eq}

pub data ReviewStatus : Type 0 where
  approved candidate pending_review : ReviewStatus
  deleted rejected archived superseded : ReviewStatus
  other_status : Str → ReviewStatus

-- `status in INACTIVE_REVIEW_STATUSES`
abbrev pub is_inactive : ReviewStatus → Bool
is_inactive approved = false
is_inactive candidate = false
is_inactive pending_review = false
is_inactive deleted = true
is_inactive rejected = true
is_inactive archived = true
is_inactive superseded = true
is_inactive (other_status s) = false

-- `a == b` on statuses. A text of `other_status` is none of the named ones.
abbrev pub status_eq : ReviewStatus → ReviewStatus → Bool
status_eq approved approved = true
status_eq candidate candidate = true
status_eq pending_review pending_review = true
status_eq deleted deleted = true
status_eq rejected rejected = true
status_eq archived archived = true
status_eq superseded superseded = true
status_eq (other_status s) (other_status t) = str_eq s t
status_eq s t = false

pub record SessionMessage : Type 0 where
  pub id : Option ℕ
  pub session_id : Str
  pub user_id : Str
  pub role : Str
  pub content : Str
  pub created_at : ℕ
  pub metadata : Str

pub record Memory : Type 0 where
  pub id : Option ℕ
  pub user_id : Str
  pub project_id : Option Str
  pub scope : Str
  pub memory_type : Str
  pub key : Str
  pub value : Str
  pub description : Str
  pub confidence : Str
  pub review_status : ReviewStatus
  pub source_type : Str
  pub sources : Str
  pub evidence : List Str
  pub sensitivity : Str
  pub needs_verification : Bool
  pub supersedes : List ℕ
  pub superseded_by : Option ℕ
  pub created_at : ℕ
  pub updated_at : ℕ
  pub metadata : Str

pub record Rejection : Type 0 where
  pub reason : Str
  pub snippet : Str

-- The fields that the system reads and fills.
pub record ExtractionResult : Type 0 where
  pub candidates : List Memory
  pub rejections : List Rejection
  pub to_delete : List Memory
  pub errors : List Str
  pub persisted : List Memory
