-- ===== src/Mem0/Bridge/Receipts.antt =====
-- The attribution of changes of the mem0 integration, integration/mem0/src/mem0_bridge/backend.py:
-- `_snapshot_memory_state`, `_attribute_changes`, `_audit_against_state` and
-- `_generation_end_context`. The state of the store after a listing is not kept, since the snapshot
-- is a reading of the backend.
pub mod Explained
pub mod Keyed
use memory_bridge.Base.{
  ℕ, Bool, true, false, ◌&&◌, ◌||◌, not, List, [], ◌∷◌, ◌++◌, Option, none, some, Str, codes,
  str_eq, if◌then◌else◌, is_empty, leb, length, join,
}
use memory_bridge.Shared.Json.{Json, null, object, Fields, no_fields, field, get_or_null}
use memory_bridge.Shared.Backend.State.{
  Backend, Change, ChangeAction, create, update, delete, part, native_action,
}
use memory_bridge.Shared.Backend.Generation.{Generation, Attribution}
use memory_bridge.Shared.Backend.Generation.Diff.{
  ◌>>=◌, Rows, row_at, change_payload, attribute_changes,
}
use memory_bridge.Mem0.Client.{Result, ok, err, Receipt, truthy, text_of}
use memory_bridge.Mem0.Stores.{server_listing_cap}
use memory_bridge.Mem0.Hits.{Mem0, MemoryRef, mem0, memory_ref, sha_of, version_of}
use memory_bridge.Mem0.Bridge.{event_of, count_events}

abbrev pub final_dump_limit : ℕ
final_dump_limit = 10000

-- The actions that receipts claim for one id.
pub record Claims : Type 0 where
  pub created : Bool
  pub updated : Bool
  pub deleted : Bool

abbrev pub no_claims : Claims
no_claims = record { created = false; updated = false; deleted = false }

unfoldable pub add_claim : ChangeAction → Claims → Claims
add_claim create x = record x { created = true }
add_claim update x = record x { updated = true }
add_claim delete x = record x { deleted = true }
add_claim (native_action s) x = x

unfoldable pub claims_action : ChangeAction → Claims → Bool
claims_action create x = x.created
claims_action update x = x.updated
claims_action delete x = x.deleted
claims_action (native_action s) x = false

-- `claimed.setdefault(id, set()).add(action)`
unfoldable pub claim : Str → ChangeAction → List (Str × Claims) → List (Str × Claims)
claim id action [] = (id, add_claim action no_claims) ∷ []
claim id action ((k, x) ∷ claimed) =
    let rest = claim id action claimed in
    if str_eq id k then (k, add_claim action x) ∷ claimed else (k, x) ∷ rest

-- `claimed.get(id, set())`
unfoldable pub claims_of : Str → List (Str × Claims) → Claims
claims_of id [] = no_claims
claims_of id ((k, x) ∷ claimed) = if str_eq id k then x else claims_of id claimed

abbrev pub action_text : ChangeAction → Str
action_text create = codes "create"
action_text update = codes "update"
action_text delete = codes "delete"
action_text (native_action s) = s

abbrev pub named_if : Bool → Str → List Str → List Str
named_if b name names = if b then name ∷ names else names

-- `sorted(actions)`
abbrev pub claim_names : Claims → List Str
claim_names x =
    named_if x.created (codes "create")
      (named_if x.deleted (codes "delete") (named_if x.updated (codes "update") []))

-- The action that a receipt's event stands for.
unfoldable pub action_of : Str → Option ChangeAction
action_of event =
    if str_eq event (codes "ADD")
    then some create
    else if str_eq event (codes "UPDATE")
    then some update
    else if str_eq event (codes "DELETE")
    then some delete
    else none

-- The receipt as the row that its change cites.
unfoldable pub receipt_hit : Receipt → Json
receipt_hit r = object (
    field (codes "id") r.id
      (field (codes "memory") r.memory (field (codes "event") r.event no_fields)))

module _ {S : Type 0} (M : Mem0 S) where
  abbrev pub Listing : Type 0
  Listing = Rows (mem0 M) (sha_of M) (version_of M)

  -- `rows[key] = row`: a later row with the key takes the place of an earlier one.
  unfoldable pub put_row : Str → Json → Listing → Listing
  put_row key row [] = (key, row) ∷ []
  put_row key row ((k, x) ∷ rows) =
      let rest = put_row key row rows in if str_eq key k then (k, row) ∷ rows else (k, x) ∷ rest

  unfoldable pub keyed_rows : List Fields → Listing → Listing
  keyed_rows [] rows = rows
  keyed_rows (d ∷ ds) rows =
      let id = get_or_null (codes "id") d in
      keyed_rows ds
        (if truthy M.python id then put_row (text_of M.python id) (object d) rows else rows)

  abbrev pub listing_limit : ℕ
  listing_limit = if M.server_mode then server_listing_cap else final_dump_limit

  -- A full page may not be all of the scope.
  unfoldable pub read_listing : Result (List Fields) → Option Listing
  read_listing (err e) = none
  read_listing (ok rows) =
      if leb listing_limit (length rows) then none else some (keyed_rows rows [])

  unfoldable pub snapshot_on : Option S → Option Listing
  snapshot_on none = none
  snapshot_on (some s) = read_listing (M.store.get_all M.user_id listing_limit s).0

  unfoldable pub snapshot : Backend (mem0 M) → Option Listing
  snapshot b = snapshot_on b.native.store

  -- The rows before and after a change that a receipt reports.
  abbrev pub before_of : ChangeAction → Json → List Json
  before_of delete row = row ∷ []
  before_of action row = []

  abbrev pub after_of : ChangeAction → Json → List Json
  after_of delete row = []
  after_of action row = row ∷ []

  -- The changes, what is produced, and the claims, over the receipts.
  pub record Claimed : Type 0 where
    pub changes : List (Change (mem0 M))
    pub produced : List (MemoryRef M.Score)
    pub claimed : List (Str × Claims)

  abbrev pub nothing_claimed : Claimed
  nothing_claimed = record { changes = []; produced = []; claimed = [] }

  abbrev pub produced_by : ChangeAction → MemoryRef M.Score → List (MemoryRef M.Score)
  produced_by delete ref = []
  produced_by action ref = ref ∷ []

  unfoldable pub receipt_payload : ChangeAction → Receipt → Option (Change (mem0 M))
  receipt_payload action r =
      change_payload (mem0 M) (sha_of M) (version_of M) action (before_of action (receipt_hit r))
        (after_of action (receipt_hit r)) none (codes "native_receipt")
        (M.event_extensions (event_of M r)) part

  unfoldable pub note_claim :
      ChangeAction → Receipt → Change (mem0 M) → MemoryRef M.Score → Claimed → Claimed
  note_claim action r payload ref acc = record {
    changes = acc.changes ++ payload ∷ [];
    produced = acc.produced ++ produced_by action ref;
    claimed = claim (text_of M.python r.id) action acc.claimed;
  }

  -- One receipt with an id and an event that is a change.
  unfoldable pub claim_receipt : ChangeAction → Receipt → Claimed → Option Claimed
  claim_receipt action r acc = do
    payload ← receipt_payload action r
    ref ← memory_ref M (receipt_hit r)
    some (note_claim action r payload ref acc)

  unfoldable pub claim_step : Receipt → Claimed → Option Claimed
  claim_step r acc =
      if truthy M.python r.id
      then (elim (action_of (event_of M r)) [
        | none ↦ some acc
        | some action ↦ claim_receipt action r acc
      ])
      else some acc

  unfoldable pub claim_all : List Receipt → Claimed → Option Claimed
  claim_all [] acc = some acc
  claim_all (r ∷ rs) acc = do acc' ← claim_step r acc; claim_all rs acc'

  -- `change["after"] or change["before"]`
  unfoldable pub refs_of : Change (mem0 M) → List (MemoryRef M.Score)
  refs_of x = elim x.after [ [] ↦ x.before | ref ∷ refs ↦ ref ∷ refs ]

  abbrev pub observed_text : ChangeAction → Str → Str
  observed_text action id =
      codes "observed "
      ++ action_text action
      ++ codes " on "
      ++ id
      ++ codes " with no matching receipt"

  unfoldable pub observed_line :
      List (Str × Claims) → Change (mem0 M) → List (MemoryRef M.Score) → Option (List Str)
  observed_line claimed x [] = none
  observed_line claimed x (ref ∷ refs) = some (
      if claims_action x.action (claims_of ref.item_id claimed)
      then []
      else observed_text x.action ref.item_id ∷ [])

  -- A change of the diff needs its receipt.
  unfoldable pub observed_lines : List (Str × Claims) → List (Change (mem0 M)) → Option (List Str)
  observed_lines claimed [] = some []
  observed_lines claimed (x ∷ changes) = do
    first ← observed_line claimed x (refs_of x)
    rest ← observed_lines claimed changes
    some (first ++ rest)

  abbrev pub has_row : Str → Listing → Bool
  has_row id rows = elim (row_at (mem0 M) (sha_of M) (version_of M) id rows) [
    | some row ↦ true
    | none ↦ false
  ]

  abbrev pub same_flag : Bool → Bool → Bool
  same_flag true b = b
  same_flag false b = not b

  abbrev pub receipt_text : Str → Claims → Str
  receipt_text id x =
      codes "receipt "
      ++ join (codes "+") (claim_names x)
      ++ codes " on "
      ++ id
      ++ codes " is not reflected in the after snapshot"

  -- A claimed id is absent if and only if a deletion of it was claimed.
  unfoldable pub receipt_lines : Listing → List (Str × Claims) → List Str
  receipt_lines after [] = []
  receipt_lines after ((id, x) ∷ claimed) =
      let rest = receipt_lines after claimed in
      if same_flag x.deleted (has_row id after) then receipt_text id x ∷ rest else rest

  unfoldable pub audit_against_state :
      Option Listing → List (Str × Claims) → Option Listing → Option (List Str)
  audit_against_state (some before) claimed (some after) = do
    observed ← attribute_changes (mem0 M) (sha_of M) (version_of M) (some before) (some after)
    lines ← observed_lines claimed observed.changes
    some (lines ++ receipt_lines after claimed)
  audit_against_state before claimed after = some []

  unfoldable pub attribute_receipts :
      Option Listing → Option (List Receipt) → Option Listing → Option (Attribution (mem0 M))
  attribute_receipts before none after =
      attribute_changes (mem0 M) (sha_of M) (version_of M) before after
  attribute_receipts before (some rs) after = do
    acc ← claim_all rs nothing_claimed
    lines ← audit_against_state before acc.claimed after
    some (record { changes = acc.changes; produced = acc.produced; unexplained = lines })

  -- The hook of the shared backend.
  abbrev pub attribute :
      Generation Listing
      → Option (List Receipt)
      → Option Listing
      → Backend (mem0 M)
      → Option (Attribution (mem0 M))
  attribute g result after b = attribute_receipts g.before result after
