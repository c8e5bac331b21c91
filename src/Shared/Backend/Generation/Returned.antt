-- ===== src/Shared/Backend/Generation/Returned.antt =====
-- That the generic change audit returns where every row has a ref
-- (shared-bridge/src/shared_bridge/backend.py, `_attribute_changes`).
use memory_bridge.Base.{◌≡◌, refl, Bool, true, false, List, [], ◌∷◌, Option, none, some, Str}
use memory_bridge.Shared.Integration.{Integration}
use memory_bridge.Shared.Backend.State.{Change, ChangeAction, create, update, delete}
use memory_bridge.Shared.Backend.Trace.{memory_refs}
use memory_bridge.Shared.Backend.Generation.Diff.{
  ◌>>=◌, Rows, row_at, relate, change_payload, observed_change, same_content, update_payload,
  diff_row, written_rows, deleted_rows,
}

abbrev pub Returns : {A : Type 0} → Option A → Type 0
Returns {A} m = (a : A) × (m ≡ some a)

Returns-bind :
    {A B : Type 0} (m : Option A) (f : A → Option B)
    → Returns m
    → ((a : A) → Returns (f a))
    → Returns (m >>= f)
Returns-bind m f (a, e) h = rw e (h a)

module _ (I : Integration) (sha_of : I.Ref → Option Str) (version_of : I.Ref → Str) where
  module _ (refs : (row : I.Hit) → Returns (I.memory_ref row)) where
    memory_refs_cons :
        (row : I.Hit) (rows : List I.Hit) (r : I.Ref) (rs : List I.Ref)
        → I.memory_ref row ≡ some r
        → memory_refs I rows ≡ some rs
        → memory_refs I (row ∷ rows) ≡ some (r ∷ rs)
    unfolding memory_refs
    memory_refs_cons row rows r rs e es = rw (e, memory_refs, es) refl

    memory_refs-Returns : (rows : List I.Hit) → Returns (memory_refs I rows)
    unfolding memory_refs
    memory_refs-Returns [] = ([], refl)
    memory_refs-Returns (row ∷ rows) =
        let (r, e) = refs row in
        let (rs, es) = memory_refs-Returns rows in (r ∷ rs, memory_refs_cons row rows r rs e es)

    observed_change-Returns :
        (action : ChangeAction) (before after : List I.Hit)
        → Returns (observed_change I sha_of version_of action before after)
    unfolding change_payload relate
    observed_change-Returns action before after =
        Returns-bind _ _ (memory_refs-Returns before)
          (λ rs. Returns-bind _ _ (memory_refs-Returns after) (λ ss. (_, refl)))

    diff_row-Returns :
        (before : Option I.Hit) (row : I.Hit) → Returns (diff_row I sha_of version_of before row)
    unfolding diff_row update_payload
    diff_row-Returns none row =
        Returns-bind _ _ (observed_change-Returns create [] (row ∷ []))
          (λ payload. Returns-bind _ _ (refs row) (λ r. (_, refl)))
    diff_row-Returns (some old) row =
        Returns-bind _ _ (refs old)
          (λ r. Returns-bind _ _ (refs row) (λ s. updated (same_content I sha_of version_of r s) s))
      where
        updated : (t : Bool) (s : I.Ref) → Returns (update_payload I sha_of version_of t old row s)
        updated true s = (_, refl)
        updated false s =
            Returns-bind _ _ (observed_change-Returns update (old ∷ []) (row ∷ []))
              (λ payload. (_, refl))

    pub written_rows-Returns :
        (before rows : Rows I sha_of version_of)
        → Returns (written_rows I sha_of version_of before rows)
    unfolding written_rows
    written_rows-Returns before [] = ([], refl)
    written_rows-Returns before ((key, row) ∷ rows) =
        Returns-bind _ _ (diff_row-Returns (row_at I sha_of version_of key before) row)
          (λ first. Returns-bind _ _ (written_rows-Returns before rows) (λ rest. (_, refl)))

    pub deleted_rows-Returns :
        (after rows : Rows I sha_of version_of)
        → Returns (deleted_rows I sha_of version_of after rows)
    unfolding deleted_rows
    deleted_rows-Returns after [] = ([], refl)
    deleted_rows-Returns after ((key, row) ∷ rows) =
        Returns-bind _ _ (deleted_rows-Returns after rows)
          (λ rest. go rest (row_at I sha_of version_of key after))
      where
        go :
            (rest : List (Change I)) (o : Option I.Hit)
            → Returns (elim o [
              | some _ ↦ some rest
              | none ↦
                  (observed_change I sha_of version_of delete (row ∷ []) [] >>= λ payload.
                  some (payload ∷ rest))
            ])
        go rest (some x) = (_, refl)
        go rest none =
            Returns-bind _ _ (observed_change-Returns delete (row ∷ []) []) (λ payload. (_, refl))
