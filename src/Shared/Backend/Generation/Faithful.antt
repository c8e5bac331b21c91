-- ===== src/Shared/Backend/Generation/Faithful.antt =====
-- A generic change audit without changes
-- (shared-bridge/src/shared_bridge/backend.py, `_attribute_changes`).
use mathlib.Core.Path.{subst}
use memory_bridge.Base.{
  length, ◌<◌, str_eq_iff, arith, ◌≡◌, refl, ◌∙◌, sym, ap, Bool, true, false, List, [], ◌∷◌, ◌++◌,
  map, Option, none, some, Str, str_eq, Bool-cases, inl, inr, ◌⊎◌,
}
use memory_bridge.Shared.Integration.{Integration}
use memory_bridge.Shared.Backend.State.{Change, delete}
use memory_bridge.Shared.Backend.Generation.{Attribution}
use memory_bridge.Shared.Backend.Generation.Diff.{
  ◌>>=◌, Rows, row_at, observed_change, same_content, update_payload, diff_row, written_rows,
  deleted_rows, attribute_changes,
}
use memory_bridge.Shared.Backend.Generation.Returned.{
  Returns, written_rows-Returns, deleted_rows-Returns,
}

both-some :
    {A B C : Type 0} (m : Option A) (n : Option B) (f : A → B → Option C) (c : C)
    → (m >>= λ a. n >>= λ b. f a b) ≡ some c
    → (a : A) × (b : B) × (m ≡ some a) × (n ≡ some b) × (f a b ≡ some c)
both-some none n f c e = cc
both-some (some a) none f c e = cc
both-some (some a) (some b) f c e = (a, b, refl, refl, e)

-- A chain that ends in a change does not end without one.
one_change :
    {A B : Type 0} (m : Option A) (f : A → B) → ¬ ((m >>= λ a. some (some (f a))) ≡ some none)
one_change none f e = cc
one_change (some a) f e = cc

two_changes :
    {A B C : Type 0} (m : Option A) (n : Option B) (f : A → B → C)
    → ¬ ((m >>= λ a. n >>= λ b. some (some (f a b))) ≡ some none)
two_changes none n f e = cc
two_changes (some a) none f e = cc
two_changes (some a) (some b) f e = cc

no_head :
    {A : Type 0} (first : Option A) (rest : List A)
    → some (elim first [ none ↦ rest | some x ↦ x ∷ rest ]) ≡ some []
    → (first ≡ none) × (rest ≡ [])
no_head none rest e = (refl, cc)
no_head (some x) rest e = cc

kept_row :
    {A H : Type 0} (m : Option (List A)) (o : Option H) (p : Option A)
    → (m >>= λ rest. elim o [
      | some _ ↦ some rest
      | none ↦ (p >>= λ payload. some (payload ∷ rest))
    ])
      ≡ some []
    → (m ≡ some []) × ¬ (o ≡ none)
kept_row none o p e = cc
kept_row (some rest) (some x) p e = (e, λ h. cc)
kept_row (some rest) none none e = cc
kept_row (some rest) none (some payload) e = cc

module _ (I : Integration) (sha_of : I.Ref → Option Str) (version_of : I.Ref → Str) where
  -- Both snapshots lack the row, or both have it with the same content digest.
  abbrev pub Unchanged : Option I.Hit → Option I.Hit → Type 0
  Unchanged none none = Unit
  Unchanged (some x) (some y) =
      (r : I.Ref) × (s : I.Ref) × (I.memory_ref x ≡ some r)
      × (I.memory_ref y ≡ some s)
      × (same_content I sha_of version_of r s ≡ true)
  Unchanged before after = ⊥

  pub diff_row-Unchanged :
      (before : Option I.Hit) (row : I.Hit)
      → diff_row I sha_of version_of before row ≡ some none
      → Unchanged before (some row)
  unfolding diff_row update_payload
  diff_row-Unchanged none row e = absurd (two_changes _ _ (λ payload ref. (payload, ref)) e)
  diff_row-Unchanged (some old) row e =
      let (r, s, er, es, last) =
        both-some (I.memory_ref old) (I.memory_ref row)
          (λ r s.
            update_payload I sha_of version_of (same_content I sha_of version_of r s) old row s)
          none e in
      (r, s, er, es, go (same_content I sha_of version_of r s) s last)
    where
      go :
          (t : Bool) (s : I.Ref)
          → update_payload I sha_of version_of t old row s ≡ some none
          → t ≡ true
      go true s h = refl
      go false s h = absurd (one_change _ (λ payload. (payload, s)) h)

  -- A row of the new snapshot that is no change was in the old one.
  written_rows-Unchanged :
      (before rows : Rows I sha_of version_of) (key : Str) (row : I.Hit)
      → written_rows I sha_of version_of before rows ≡ some []
      → row_at I sha_of version_of key rows ≡ some row
      → Unchanged (row_at I sha_of version_of key before) (some row)
  unfolding written_rows row_at
  written_rows-Unchanged before [] key row e h = cc
  written_rows-Unchanged before ((k, x) ∷ rows) key row e h =
      let (first, rest, ef, er, last) =
        both-some (diff_row I sha_of version_of (row_at I sha_of version_of k before) x)
          (written_rows I sha_of version_of before rows)
          (λ first rest. some (elim first [ none ↦ rest | some y ↦ y ∷ rest ])) [] e in
      let (none_first, none_rest) = no_head first rest last in
      let found =
        diff_row-Unchanged (row_at I sha_of version_of k before) x
          (ef ∙ ap (λ (o : Option (Change I × I.Ref)). some o) none_first) in
      elim (Bool-cases (str_eq key k)) [
        | inl t ↦
            subst (λ (o : Option I.Hit). Unchanged (row_at I sha_of version_of key before) o)
              (first_row t)
              (subst (λ (s : Str). Unchanged (row_at I sha_of version_of s before) (some x))
                (sym ((str_eq_iff key k).0 t)) found)
        | inr t ↦
            written_rows-Unchanged before rows key row
              (er ∙ ap (λ (l : List (Change I × I.Ref)). some l) none_rest) (ground (arith, t, h))
      ]
    where
      first_row : str_eq key k ≡ true → some x ≡ some row
      first_row t = ground (arith, t, h)

  deleted_rows_kept :
      (after rows : Rows I sha_of version_of) (key : Str) (row : I.Hit)
      → deleted_rows I sha_of version_of after rows ≡ some []
      → row_at I sha_of version_of key rows ≡ some row
      → ¬ (row_at I sha_of version_of key after ≡ none)
  unfolding deleted_rows row_at
  deleted_rows_kept after [] key row e h = cc
  deleted_rows_kept after ((k, x) ∷ rows) key row e h =
      let (rest, present) =
        kept_row (deleted_rows I sha_of version_of after rows) (row_at I sha_of version_of k after)
          (observed_change I sha_of version_of delete (x ∷ []) []) e in
      elim (Bool-cases (str_eq key k)) [
        | inl t ↦
            subst (λ (s : Str). ¬ (row_at I sha_of version_of s after ≡ none))
              (sym ((str_eq_iff key k).0 t)) present
        | inr t ↦ deleted_rows_kept after rows key row rest (ground (arith, t, h))
      ]

  abbrev pub Agrees : Rows I sha_of version_of → Rows I sha_of version_of → Type 0
  Agrees before after =
      (key : Str)
      → Unchanged (row_at I sha_of version_of key before) (row_at I sha_of version_of key after)

  agree_without_changes :
      (before after : Rows I sha_of version_of)
      → written_rows I sha_of version_of before after ≡ some []
      → deleted_rows I sha_of version_of after before ≡ some []
      → Agrees before after
  agree_without_changes before after w d key =
      go (row_at I sha_of version_of key before) (row_at I sha_of version_of key after) refl refl
    where
      go :
          (o p : Option I.Hit)
          → o ≡ row_at I sha_of version_of key before
          → p ≡ row_at I sha_of version_of key after
          → Unchanged o p
      go none none eo ep = tt
      go (some x) none eo ep = absurd (deleted_rows_kept after before key x d (sym eo) (sym ep))
      go o (some y) eo ep =
          subst (λ (o : Option I.Hit). Unchanged o (some y)) (sym eo)
            (written_rows-Unchanged before after key y w (sym ep))

  changes_or_agree :
      (before after : Rows I sha_of version_of) (written : List (Change I × I.Ref))
      (deleted : List (Change I))
      → written_rows I sha_of version_of before after ≡ some written
      → deleted_rows I sha_of version_of after before ≡ some deleted
      → (0 < length (map (λ (x : Change I × I.Ref). x.0) written ++ deleted)) ⊎ Agrees before after
  changes_or_agree before after [] [] ew ed = inr (agree_without_changes before after ew ed)
  changes_or_agree before after [] (d ∷ deleted) ew ed = inl (omega arith)
  changes_or_agree before after (w ∷ written) deleted ew ed = inl (omega arith)

  attributed :
      (before after : Rows I sha_of version_of) (written : List (Change I × I.Ref))
      (deleted : List (Change I))
      → written_rows I sha_of version_of before after ≡ some written
      → deleted_rows I sha_of version_of after before ≡ some deleted
      → attribute_changes I sha_of version_of (some before) (some after)
        ≡ some (record {
          changes = map (λ (x : Change I × I.Ref). x.0) written ++ deleted;
          produced = map (λ (x : Change I × I.Ref). x.1) written;
          unexplained = [];
        })
  unfolding attribute_changes
  attributed before after written deleted ew ed = rw (ew, ed) refl

  -- Where every row has a ref, the generic audit returns, and either it reports a change, or both
  -- snapshots hold rows at the same keys, with the same content digests.
  pub attribute_changes-Returns :
      ((row : I.Hit) → Returns (I.memory_ref row))
      → (before after : Rows I sha_of version_of)
      → (a : Attribution I) × (attribute_changes I sha_of version_of (some before) (some after)
          ≡ some a)
        × ((0 < length a.changes) ⊎ Agrees before after)
  attribute_changes-Returns refs before after =
      let (written, ew) = written_rows-Returns I sha_of version_of refs before after in
      let (deleted, ed) = deleted_rows-Returns I sha_of version_of refs after before in
      (
        _,
        attributed before after written deleted ew ed,
        changes_or_agree before after written deleted ew ed,
      )
