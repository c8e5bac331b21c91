-- ===== src/Shared/Backend/Generation/Diff.antt =====
-- The generic change audit of shared-bridge/src/shared_bridge/backend.py: `_change_payload` and
-- `_attribute_changes`, over snapshots with their keys as texts. `sha_of` and `version_of` read a
-- ref's content digest and version id. `none` is a `_memory_ref` that raises.
use memory_bridge.Base.{
  Bool, true, false, List, [], ◌∷◌, ◌++◌, map, Option, none, some, Str, codes, str_eq, opt_str_eq,
  if◌then◌else◌,
}
use memory_bridge.Shared.Integration.{Integration}
use memory_bridge.Shared.Backend.State.{
  Change, ChangeAction, create, update, delete, whole, Completeness,
}
use memory_bridge.Shared.Backend.Trace.{memory_refs}
use memory_bridge.Shared.Backend.Generation.{Attribution}

infixl 5 ◌>>=◌
abbrev pub ◌>>=◌ : {A B : Type 0} → Option A → (A → Option B) → Option B
none >>= f = none
(some a) >>= f = f a

module _ (I : Integration) (sha_of : I.Ref → Option Str) (version_of : I.Ref → Str) where
  abbrev pub Rows : Type 0
  Rows = List (Str × I.Hit)

  -- `d.get(key)`
  unfoldable pub row_at : Str → Rows → Option I.Hit
  row_at key [] = none
  row_at key ((k, row) ∷ rows) = if str_eq key k then some row else row_at key rows

  -- Every before version is superseded by the new one.
  abbrev pub supersede_each : List I.Ref → I.Ref → List (Str × Str)
  supersede_each refs new = map (λ ref. (version_of ref, version_of new)) refs

  unfoldable pub relate : List I.Ref → Option I.Hit → Option (List (Str × Str))
  relate refs none = some []
  relate refs (some row) = elim (I.memory_ref row) [
    | none ↦ none
    | some new ↦ some (supersede_each refs new)
  ]

  unfoldable pub change_payload :
      ChangeAction
      → List I.Hit
      → List I.Hit
      → Option I.Hit
      → Str
      → Str
      → Completeness
      → Option (Change I)
  change_payload action before_rows after_rows supersede_new evidence extensions completeness = do
    before_refs ← memory_refs I before_rows
    after_refs ← memory_refs I after_rows
    relationships ← relate before_refs supersede_new
    some (record {
      action = action;
      before = before_refs;
      after = after_refs;
      relationships = relationships;
      evidence = evidence;
      completeness = completeness;
      extensions = extensions;
    })

  -- The call with the defaults of the generic diff.
  abbrev pub observed_change : ChangeAction → List I.Hit → List I.Hit → Option (Change I)
  observed_change action before_rows after_rows =
      change_payload action before_rows after_rows none (codes "observed_diff") (codes "{}") whole

  unfoldable pub same_content : I.Ref → I.Ref → Bool
  same_content a b = opt_str_eq (sha_of a) (sha_of b)

  unfoldable pub update_payload : Bool → I.Hit → I.Hit → I.Ref → Option (Option (Change I × I.Ref))
  update_payload true before_row after_row new = some none
  update_payload false before_row after_row new = do
    payload ← observed_change update (before_row ∷ []) (after_row ∷ [])
    some (some (payload, new))

  -- One round of the first loop: the change of a row of `after`, if there is one.
  unfoldable pub diff_row : Option I.Hit → I.Hit → Option (Option (Change I × I.Ref))
  unfolding update_payload
  diff_row none after_row = do
    payload ← observed_change create [] (after_row ∷ [])
    ref ← I.memory_ref after_row
    some (some (payload, ref))
  diff_row (some before_row) after_row = do
    old ← I.memory_ref before_row
    new ← I.memory_ref after_row
    update_payload (same_content old new) before_row after_row new

  unfoldable pub written_rows : Rows → Rows → Option (List (Change I × I.Ref))
  written_rows before [] = some []
  written_rows before ((key, row) ∷ rows) = do
    first ← diff_row (row_at key before) row
    rest ← written_rows before rows
    some (elim first [ none ↦ rest | some x ↦ x ∷ rest ])

  -- The second loop.
  unfoldable pub deleted_rows : Rows → Rows → Option (List (Change I))
  deleted_rows after [] = some []
  deleted_rows after ((key, row) ∷ rows) = do
    rest ← deleted_rows after rows
    elim (row_at key after) [
      | some _ ↦ some rest
      | none ↦ do payload ← observed_change delete (row ∷ []) []; some (payload ∷ rest)
    ]

  unfoldable pub attribute_changes : Option Rows → Option Rows → Option (Attribution I)
  attribute_changes (some before) (some after) = do
    written ← written_rows before after
    deleted ← deleted_rows after before
    some (record {
      changes = map (λ (x : Change I × I.Ref). x.0) written ++ deleted;
      produced = map (λ (x : Change I × I.Ref). x.1) written;
      unexplained = [];
    })
  attribute_changes before after = some (record { changes = []; produced = []; unexplained = [] })
