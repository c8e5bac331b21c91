-- ===== src/Shared/Backend/Generation/Located.antt =====
-- Where the changes of the generic change audit are
-- (shared-bridge/src/shared_bridge/backend.py, `_attribute_changes`).
use mathlib.Core.Path.{subst}
use memory_bridge.Base.{
  ◌≡◌, refl, ◌∙◌, sym, ap, Bool, true, false, List, [], ◌∷◌, ◌++◌, map, Option, none, some, Str,
  str_eq, str_eq_iff, Bool-cases, arith, ◌⊎◌, inl, inr,
}
use memory_bridge.Base.Members.{In, In-map}
use memory_bridge.Shared.Integration.{Integration}
use memory_bridge.Shared.Backend.State.{Change, ChangeAction, create, update, delete}
use memory_bridge.Shared.Backend.Trace.{memory_refs}
use memory_bridge.Shared.Backend.Generation.{Attribution}
use memory_bridge.Shared.Backend.Generation.Diff.{
  ◌>>=◌, Rows, row_at, relate, change_payload, observed_change, same_content, update_payload,
  diff_row, written_rows, deleted_rows, attribute_changes,
}
use memory_bridge.Shared.Backend.Generation.Faithful.{Unchanged, diff_row-Unchanged}

pub bind-some :
    {A B : Type 0} (m : Option A) (f : A → Option B) (b : B)
    → (m >>= f) ≡ some b
    → (a : A) × (m ≡ some a) × (f a ≡ some b)
bind-some none f b e = cc
bind-some (some a) f b e = (a, refl, e)

In-after : {A : Type 0} (x : A) (xs ys : List A) → In x ys → In x (xs ++ ys)
In-after x [] ys i = i
In-after x (z ∷ xs) ys i = inr (In-after x xs ys i)

In-before : {A : Type 0} (x : A) (xs ys : List A) → In x xs → In x (xs ++ ys)
In-before x [] ys i = absurd i
In-before x (z ∷ xs) ys (inl e) = inl e
In-before x (z ∷ xs) ys (inr i) = inr (In-before x xs ys i)

pub some-injective : {A : Type 0} (x y : A) → some x ≡ some y → x ≡ y
some-injective x y e = cc

-- A round of the first loop puts its change before the rest.
In-rest :
    {A : Type 0} (first : Option A) (rest written : List A) (x : A)
    → some (elim first [ none ↦ rest | some y ↦ y ∷ rest ]) ≡ some written
    → In x rest
    → In x written
In-rest none rest written x e i = subst (In x) (some-injective rest written e) i
In-rest (some y) rest written x e i = subst (In x) (some-injective (y ∷ rest) written e) (inr i)

module _ (I : Integration) (sha_of : I.Ref → Option Str) (version_of : I.Ref → Str) where
  -- The change's first ref, after or, where there is none, before, is the row's.
  abbrev pub CitesRow : I.Hit → Change I → Type 0
  CitesRow row x =
      (ref : I.Ref) × (I.memory_ref row ≡ some ref)
      × ((x.after ≡ ref ∷ []) ⊎ ((x.after ≡ []) × (x.before ≡ ref ∷ [])))

  one_ref :
      (row : I.Hit) (refs : List I.Ref)
      → memory_refs I (row ∷ []) ≡ some refs
      → (ref : I.Ref) × (I.memory_ref row ≡ some ref) × (refs ≡ ref ∷ [])
  unfolding memory_refs
  one_ref row refs e = go (I.memory_ref row) refl e
    where
      go :
          (o : Option I.Ref)
          → I.memory_ref row ≡ o
          → (let r : Option (List I.Ref) = elim o [ none ↦ none | some ref ↦ some (ref ∷ []) ] in r)
            ≡ some refs
          → (ref : I.Ref) × (I.memory_ref row ≡ some ref) × (refs ≡ ref ∷ [])
      go none eo h = cc
      go (some ref) eo h = (ref, eo, cc)

  -- The parts of a change of the diff.
  observed_parts :
      (action : ChangeAction) (before after : List I.Hit) (x : Change I)
      → observed_change I sha_of version_of action before after ≡ some x
      → (memory_refs I before ≡ some x.before) × (memory_refs I after ≡ some x.after)
  unfolding change_payload
  observed_parts action before after x e =
      let (bs, eb, e1) = bind-some (memory_refs I before) _ x e in
      let (ss, ea, e2) = bind-some (memory_refs I after) _ x e1 in
      let (rs, er, e3) = bind-some (relate I sha_of version_of bs none) _ x e2 in (cc, cc)

  written_CitesRow :
      (action : ChangeAction) (before : List I.Hit) (row : I.Hit) (x : Change I)
      → observed_change I sha_of version_of action before (row ∷ []) ≡ some x
      → CitesRow row x
  written_CitesRow action before row x e =
      let (ref, er, es) = one_ref row x.after (observed_parts action before (row ∷ []) x e).1 in
      (ref, er, inl es)

  deleted_CitesRow :
      (row : I.Hit) (x : Change I)
      → observed_change I sha_of version_of delete (row ∷ []) [] ≡ some x
      → CitesRow row x
  unfolding memory_refs
  deleted_CitesRow row x e =
      let (eb, ea) = observed_parts delete (row ∷ []) [] x e in
      let (ref, er, es) = one_ref row x.before eb in (ref, er, inr (cc, es))

  same_CitesRow :
      (row : I.Hit) (payload : Change I) (new : I.Ref) (x : Change I × I.Ref)
      → CitesRow row payload
      → some (some (payload, new)) ≡ some (some x)
      → CitesRow row x.0
  same_CitesRow row payload new (y, z) (ref, er, how) e = (
    ref,
    er,
    elim how [
      | inl q ↦ inl (ap (λ (p : Change I). p.after) (sym same) ∙ q)
      | inr q ↦ inr (
        ap (λ (p : Change I). p.after) (sym same) ∙ q.0,
        ap (λ (p : Change I). p.before) (sym same) ∙ q.1,
      )
    ],
  )
    where
      same : payload ≡ y
      same = cc

  diff_row-CitesRow :
      (before : Option I.Hit) (row : I.Hit) (x : Change I × I.Ref)
      → diff_row I sha_of version_of before row ≡ some (some x)
      → CitesRow row x.0
  unfolding diff_row update_payload
  diff_row-CitesRow none row x e =
      let (payload, ep, e1) =
        bind-some (observed_change I sha_of version_of create [] (row ∷ [])) _ (some x) e in
      let (ref, er, e2) = bind-some (I.memory_ref row) _ (some x) e1 in
      same_CitesRow row payload ref x (written_CitesRow create [] row payload ep) e2
  diff_row-CitesRow (some old) row x e =
      let (r, er, e1) = bind-some (I.memory_ref old) _ (some x) e in
      let (s, es, e2) = bind-some (I.memory_ref row) _ (some x) e1 in
      go (same_content I sha_of version_of r s) s e2
    where
      go :
          (t : Bool) (s : I.Ref)
          → update_payload I sha_of version_of t old row s ≡ some (some x)
          → CitesRow row x.0
      go true s h = cc
      go false s h =
          let (payload, ep, e3) =
            bind-some (observed_change I sha_of version_of update (old ∷ []) (row ∷ [])) _ (some x)
              h in
          same_CitesRow row payload s x (written_CitesRow update (old ∷ []) row payload ep) e3

  -- A row of the new snapshot is unchanged, or a change cites it.
  abbrev pub Located : Option I.Hit → Option I.Hit → List (Change I) → Type 0
  Located old new changes =
      Unchanged I sha_of version_of old new
      ⊎ ((row : I.Hit) × (x : Change I) × ((old ≡ some row) ⊎ (new ≡ some row))
          × In x changes
          × CitesRow row x)

  round-Located :
      (old : Option I.Hit) (row : I.Hit) (first : Option (Change I × I.Ref))
      (rest written : List (Change I × I.Ref))
      → diff_row I sha_of version_of old row ≡ some first
      → some (elim first [ none ↦ rest | some y ↦ y ∷ rest ]) ≡ some written
      → Unchanged I sha_of version_of old (some row)
        ⊎ ((x : Change I × I.Ref) × In x written × CitesRow row x.0)
  round-Located old row none rest written ef e =
      inl (diff_row-Unchanged I sha_of version_of old row ef)
  round-Located old row (some x) rest written ef e = inr (
    x,
    subst (In x) (some-injective (x ∷ rest) written e) (inl refl),
    diff_row-CitesRow old row x ef,
  )

  written_rows-Located :
      (before rows : Rows I sha_of version_of) (written : List (Change I × I.Ref)) (key : Str)
      (row : I.Hit)
      → written_rows I sha_of version_of before rows ≡ some written
      → row_at I sha_of version_of key rows ≡ some row
      → Unchanged I sha_of version_of (row_at I sha_of version_of key before) (some row)
        ⊎ ((x : Change I × I.Ref) × In x written × CitesRow row x.0)
  unfolding written_rows row_at
  written_rows-Located before [] written key row e h = cc
  written_rows-Located before ((k, y) ∷ rows) written key row e h =
      let (first, ef, e1) =
        bind-some (diff_row I sha_of version_of (row_at I sha_of version_of k before) y) _ written
          e in
      let (rest, er, e2) = bind-some (written_rows I sha_of version_of before rows) _ written e1 in
      elim (Bool-cases (str_eq key k)) [
        | inl t ↦
            subst
              (λ (r : I.Hit).
                Unchanged I sha_of version_of (row_at I sha_of version_of key before) (some r)
                ⊎ ((x : Change I × I.Ref) × In x written × CitesRow r x.0))
              (some-injective y row (first_row t))
              (subst
                (λ (s : Str).
                  Unchanged I sha_of version_of (row_at I sha_of version_of s before) (some y)
                  ⊎ ((x : Change I × I.Ref) × In x written × CitesRow y x.0))
                (sym ((str_eq_iff key k).0 t))
                (round-Located (row_at I sha_of version_of k before) y first rest written ef e2))
        | inr t ↦ elim (written_rows-Located before rows rest key row er (ground (arith, t, h))) [
          | inl same ↦ inl same
          | inr (x, i, cites) ↦ inr (x, In-rest first rest written x e2 i, cites)
        ]
      ]
    where
      first_row : str_eq key k ≡ true → some y ≡ some row
      first_row t = ground (arith, t, h)

  kept_or_deleted :
      (o : Option I.Hit) (row : I.Hit) (rest gone : List (Change I))
      → (elim o [
        | some _ ↦ some rest
        | none ↦
            (observed_change I sha_of version_of delete (row ∷ []) [] >>= λ payload.
            some (payload ∷ rest))
      ])
        ≡ some gone
      → ((x : Change I) → In x rest → In x gone)
        × ((¬ (o ≡ none)) ⊎ ((x : Change I) × In x gone × CitesRow row x))
  kept_or_deleted (some y) row rest gone e =
      (λ x i. subst (In x) (some-injective rest gone e) i, inl (λ h. cc))
  kept_or_deleted none row rest gone e =
      let (payload, ep, e1) =
        bind-some (observed_change I sha_of version_of delete (row ∷ []) []) _ gone e in
      let same = some-injective (payload ∷ rest) gone e1 in
      (
        λ x i. subst (In x) same (inr i),
        inr (payload, subst (In payload) same (inl refl), deleted_CitesRow row payload ep),
      )

  deleted_rows-Located :
      (after rows : Rows I sha_of version_of) (gone : List (Change I)) (key : Str) (row : I.Hit)
      → deleted_rows I sha_of version_of after rows ≡ some gone
      → row_at I sha_of version_of key rows ≡ some row
      → (¬ (row_at I sha_of version_of key after ≡ none))
        ⊎ ((x : Change I) × In x gone × CitesRow row x)
  unfolding deleted_rows row_at
  deleted_rows-Located after [] gone key row e h = cc
  deleted_rows-Located after ((k, y) ∷ rows) gone key row e h =
      let (rest, er, e1) = bind-some (deleted_rows I sha_of version_of after rows) _ gone e in
      let (kept, here) = kept_or_deleted (row_at I sha_of version_of k after) y rest gone e1 in
      elim (Bool-cases (str_eq key k)) [
        | inl t ↦
            subst
              (λ (r : I.Hit).
                (¬ (row_at I sha_of version_of key after ≡ none))
                ⊎ ((x : Change I) × In x gone × CitesRow r x))
              (some-injective y row (first_row t))
              (subst
                (λ (s : Str).
                  (¬ (row_at I sha_of version_of s after ≡ none))
                  ⊎ ((x : Change I) × In x gone × CitesRow y x))
                (sym ((str_eq_iff key k).0 t)) here)
        | inr t ↦ elim (deleted_rows-Located after rows rest key row er (ground (arith, t, h))) [
          | inl present ↦ inl present
          | inr (x, i, cites) ↦ inr (x, kept x i, cites)
        ]
      ]
    where
      first_row : str_eq key k ≡ true → some y ≡ some row
      first_row t = ground (arith, t, h)

  -- At every key, both snapshots lack the row, or both have it with the same content, or one of the
  -- changes cites the row that one of them has there.
  pub attribute_changes-Located :
      (before after : Rows I sha_of version_of) (a : Attribution I) (key : Str)
      → attribute_changes I sha_of version_of (some before) (some after) ≡ some a
      → Located
          (row_at I sha_of version_of key before)
          (row_at I sha_of version_of key after)
          a.changes
  unfolding attribute_changes
  attribute_changes-Located before after a key e =
      let (written, ew, e1) = bind-some (written_rows I sha_of version_of before after) _ a e in
      let (gone, eg, e2) = bind-some (deleted_rows I sha_of version_of after before) _ a e1 in
      subst (Located (row_at I sha_of version_of key before) (row_at I sha_of version_of key after))
        (ap (λ (x : Attribution I). x.changes) (some-injective _ a e2))
        (go written gone ew eg (row_at I sha_of version_of key before)
          (row_at I sha_of version_of key after) refl refl)
    where
      go :
          (written : List (Change I × I.Ref)) (gone : List (Change I))
          → written_rows I sha_of version_of before after ≡ some written
          → deleted_rows I sha_of version_of after before ≡ some gone
          → (o p : Option I.Hit) → row_at I sha_of version_of key before ≡ o
          → row_at I sha_of version_of key after ≡ p
          → Located o p (map (λ (x : Change I × I.Ref). x.0) written ++ gone)
      go written gone ew eg none none eo ep = inl tt
      go written gone ew eg (some y) none eo ep =
          elim (deleted_rows-Located after before gone key y eg eo) [
            | inl present ↦ absurd (present ep)
            | inr (x, i, cites) ↦ inr (
              y,
              x,
              inl refl,
              In-after x (map (λ (z : Change I × I.Ref). z.0) written) gone i,
              cites,
            )
          ]
      go written gone ew eg o (some y) eo ep =
          elim (written_rows-Located before after written key y ew ep) [
            | inl same ↦
                inl (subst (λ (q : Option I.Hit). Unchanged I sha_of version_of q (some y)) eo same)
            | inr (x, i, cites) ↦ inr (
              y,
              x.0,
              inr refl,
              In-before x.0 (map (λ (z : Change I × I.Ref). z.0) written) gone
                  (In-map (λ (z : Change I × I.Ref). z.0) x written i),
              cites,
            )
          ]
