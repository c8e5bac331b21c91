-- ===== src/Mem0/Bridge/Receipts/Keyed.antt =====
-- The snapshot of the store's rows is keyed by their ids
-- (integration/mem0/src/mem0_bridge/backend.py, `_snapshot_memory_state`).
use mathlib.Core.Path.{subst}
use memory_bridge.Base.{
  ◌≡◌, refl, ◌∙◌, sym, ap, Bool, true, false, List, [], ◌∷◌, Option, none, some, Str, codes, str_eq,
  str_eq_iff, leb, length, Bool-cases, arith, inl, inr, if◌then◌else◌,
}
use memory_bridge.Shared.Json.{Json, object, Fields, get_or_null}
use memory_bridge.Shared.Backend.State.{Backend}
use memory_bridge.Shared.Backend.Generation.Diff.{row_at}
use memory_bridge.Shared.Backend.Generation.Located.{some-injective}
use memory_bridge.Mem0.Client.{Result, ok, err, truthy, text_of}
use memory_bridge.Mem0.Hits.{Mem0, MemoryRef, mem0, memory_ref, sha_of, version_of}
use memory_bridge.Mem0.Bridge.Receipts.{
  Listing, put_row, keyed_rows, listing_limit, read_listing, snapshot_on, snapshot,
}

module _ {S : Type 0} (M : Mem0 S) where
  -- Every row stands at its own id.
  abbrev pub IsKeyed : Listing M → Type 0
  IsKeyed rows =
      (key : Str) (row : Json) (ref : MemoryRef M.Score)
      → row_at (mem0 M) (sha_of M) (version_of M) key rows ≡ some row
      → memory_ref M row ≡ some ref
      → ref.item_id ≡ key

  at : Str → Listing M → Option Json
  at = row_at (mem0 M) (sha_of M) (version_of M)

  row_at-put_row :
      (k key : Str) (row : Json) (rows : Listing M)
      → at k (put_row M key row rows) ≡ (if str_eq k key then some row else at k rows)
  unfolding at put_row row_at
  row_at-put_row k key row [] = refl
  row_at-put_row k key row ((j, x) ∷ rows) = elim (Bool-cases (str_eq key j)) [
    | inl e ↦ ground (arith, e, ap (λ (s : Str). str_eq k s) ((str_eq_iff key j).0 e))
    | inr e ↦ elim (Bool-cases (str_eq k key)) [
      | inl f ↦ ground (
        arith,
        e,
        f,
        row_at-put_row k key row rows,
        subst (λ (s : Str). str_eq s j ≡ false) (sym ((str_eq_iff k key).0 f)) e,
      )
      | inr f ↦ ground (arith, e, f, row_at-put_row k key row rows)
    ]
  ]

  put_row-IsKeyed :
      (key : Str) (row : Json) (rows : Listing M)
      → ((ref : MemoryRef M.Score) → memory_ref M row ≡ some ref → ref.item_id ≡ key)
      → IsKeyed rows
      → IsKeyed (put_row M key row rows)
  unfolding at
  put_row-IsKeyed key row rows own keyed k y ref h er =
      go (str_eq k key) refl (sym (row_at-put_row k key row rows) ∙ h)
    where
      go :
          (t : Bool)
          → str_eq k key ≡ t
          → (if t then some row else at k rows) ≡ some y
          → ref.item_id ≡ k
      go true et q =
          own ref
            (subst (λ (z : Json). memory_ref M z ≡ some ref) (sym (some-injective row y q)) er)
          ∙ sym ((str_eq_iff k key).0 et)
      go false et q = keyed k y ref q er

  ref_at :
      (d : Fields) (ref : MemoryRef M.Score)
      → memory_ref M (object d) ≡ some ref
      → ref.item_id ≡ text_of M.python (get_or_null (codes "id") d)
  unfolding memory_ref get_or_null
  ref_at d ref h = ground (arith, h)

  keyed_rows-IsKeyed :
      (ds : List Fields) (rows : Listing M) → IsKeyed rows → IsKeyed (keyed_rows M ds rows)
  unfolding keyed_rows
  keyed_rows-IsKeyed [] rows keyed = keyed
  keyed_rows-IsKeyed (d ∷ ds) rows keyed =
      keyed_rows-IsKeyed ds _ (go (truthy M.python (get_or_null (codes "id") d)) refl)
    where
      go :
          (t : Bool)
          → truthy M.python (get_or_null (codes "id") d) ≡ t
          → IsKeyed (
              if t
              then put_row M (text_of M.python (get_or_null (codes "id") d)) (object d) rows
              else rows)
      go false et = keyed
      go true et = put_row-IsKeyed _ (object d) rows (ref_at d) keyed

  read_listing-IsKeyed :
      (r : Result (List Fields)) (rows : Listing M) → read_listing M r ≡ some rows → IsKeyed rows
  unfolding read_listing row_at
  read_listing-IsKeyed (err e) rows h = cc
  read_listing-IsKeyed (ok ds) rows h = full (leb (listing_limit M) (length ds)) h
    where
      full : (t : Bool) → (if t then none else some (keyed_rows M ds [])) ≡ some rows → IsKeyed rows
      full true e = cc
      full false e =
          subst IsKeyed (some-injective (keyed_rows M ds []) rows e)
            (keyed_rows-IsKeyed ds [] (λ key row ref h. cc))

  snapshot_on-IsKeyed :
      (o : Option S) (rows : Listing M) → snapshot_on M o ≡ some rows → IsKeyed rows
  unfolding snapshot_on
  snapshot_on-IsKeyed none rows h = cc
  snapshot_on-IsKeyed (some s) rows h = read_listing-IsKeyed _ rows h

  -- The rows of a snapshot stand at their ids.
  pub snapshot-IsKeyed :
      (b : Backend (mem0 M)) (rows : Listing M) → snapshot M b ≡ some rows → IsKeyed rows
  unfolding snapshot
  snapshot-IsKeyed b rows h = snapshot_on-IsKeyed b.native.store rows h
