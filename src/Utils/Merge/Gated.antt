-- ===== src/Utils/Merge/Gated.antt =====
-- What the gate of utils/merge_predictions.py lets through.
use mathlib.Core.Path.{subst}
use mathlib.Core.List.{map-append}
use memory_bridge.Base.{
  suc, ◌≤◌, ◌<◌, ◌≡◌, refl, ◌∙◌, sym, ap, Bool, true, false, not, List, [], ◌∷◌, ◌++◌, map,
  append-nil, append_assoc, Str, str_eq_iff, if◌then◌else◌, is_empty, length, length-append, ◌==◌,
  ==_iff, arith, All, All-append, All-apply, ◌⊎◌, inl, inr, ◌↔◌,
}
use memory_bridge.Utils.Merge.{
  wrong_number, empty_patches, missing_predictions, File, Found, not_there, no_patch, bad, usable,
  Prediction, Gate, merged, refused, empty_gate, among, add_model, read_file, record_usable,
  record_missing, record_empty, one_model, close_gate, gate_from, read_instances, merge,
}
use memory_bridge.Utils.Merge.Models.{
  among-add_model, add_model-noted, length-add_model, snoc_not_empty, add_model-only,
}

close_gate-merged :
    (instances : List Str) (g : Gate) (entries : List Prediction) (model : Str)
    → close_gate instances g ≡ merged entries model
    → (g.missing ≡ []) × (g.empty ≡ []) × (g.models ≡ model ∷ []) × (g.combined ≡ entries)
unfolding close_gate one_model
close_gate-merged instances g entries model h =
    go g.missing g.empty (length g.combined == length instances) g.models h
  where
    go :
        (missing empty : List Str) (same : Bool) (models : List Str)
        → (if not (is_empty missing)
            then refused (missing_predictions missing)
            else if not (is_empty empty)
            then refused (empty_patches empty)
            else if not same
            then refused (wrong_number (length instances) (length g.combined))
            else one_model g models)
          ≡ merged entries model
        → (missing ≡ []) × (empty ≡ []) × (models ≡ model ∷ []) × (g.combined ≡ entries)
    go [] [] true (m ∷ []) e = (refl, refl, cc, cc)
    go [] [] true [] e = cc
    go [] [] true (m ∷ n ∷ ms) e = cc
    go [] [] false models e = cc
    go [] (x ∷ xs) same models e = cc
    go (x ∷ xs) empty same models e = cc

close_gate-clean :
    (instances : List Str) (g : Gate) (model : Str)
    → g.missing ≡ []
    → g.empty ≡ []
    → length instances ≡ length g.combined
    → g.models ≡ model ∷ []
    → close_gate instances g ≡ merged g.combined model
unfolding close_gate one_model
close_gate-clean instances g model em ee same models =
    rw (em, ee, (==_iff (length g.combined) (length instances)).1 (sym same), models) refl

module _ (file : Str → File) where
  -- The prediction is what the file of its instance holds.
  abbrev pub IsRead : Prediction → Type 0
  IsRead e = read_file e.instance_id (file e.instance_id) ≡ usable e.model_patch e.model_name

  -- What the loop keeps: every prediction is read, and its model is noted; every model is of a
  -- prediction.
  record IsGate (g : Gate) : Type 0 where
    is_read : All IsRead g.combined
    noted : All (λ e. among e.model_name g.models ≡ true) g.combined
    fewer : length g.models ≤ length g.combined

  empty_gate-IsGate : IsGate empty_gate
  empty_gate-IsGate = record { is_read = tt; noted = tt; fewer = omega arith }

  record_usable-IsGate :
      (id patch model : Str) (g : Gate)
      → read_file id (file id) ≡ usable patch model
      → IsGate g
      → IsGate (record_usable id patch model g)
  unfolding record_usable
  record_usable-IsGate id patch model g e w = record {
    is_read = All-append IsRead g.combined _ w.is_read (e, tt);
    noted =
        All-append (λ x. among x.model_name (add_model model g.models) ≡ true) g.combined _
          (All-apply (λ x. among x.model_name g.models ≡ true)
            (λ x. among x.model_name (add_model model g.models) ≡ true)
            (λ x h. among-add_model x.model_name model g.models h) g.combined w.noted)
          (add_model-noted model g.models, tt);
    fewer = omega (
      arith,
      w.fewer,
      length-add_model model g.models,
      length-append g.combined
          ((record { instance_id = id; model_patch = patch; model_name = model }) ∷ []),
    );
  }

  abbrev pub ids_of : List Prediction → List Str
  ids_of = map (λ e. e.instance_id)

  -- One prediction for each instance, in their order, each as its file has it, all with one model.
  pub record IsComplete (instances : List Str) (entries : List Prediction) (model : Str)
      : Type 0 where
    pub ids : ids_of entries ≡ instances
    pub is_read : All IsRead entries
    pub one : All (λ e. e.model_name ≡ model) entries
    pub some_entry : 0 < length entries

  -- A loop that ends in a merge found no instance missing and no patch empty.
  record IsPassed (g : Gate) (ids : List Str) (entries : List Prediction) (model : Str)
      : Type 0 where
    missing : g.missing ≡ []
    empty : g.empty ≡ []
    all_ids : ids_of entries ≡ ids_of g.combined ++ ids
    is_read : All IsRead entries
    one : All (λ e. e.model_name ≡ model) entries
    some_entry : 0 < length entries

  only_model : (s model : Str) → among s (model ∷ []) ≡ true → s ≡ model
  unfolding among
  only_model s model h = (str_eq_iff s model).0 (ground (arith, h))

  closed-IsPassed :
      (instances : List Str) (g : Gate) (entries : List Prediction) (model : Str)
      → IsGate g
      → close_gate instances g ≡ merged entries model
      → IsPassed g [] entries model
  closed-IsPassed instances g entries model w h =
      let (em, ee, models, same) = close_gate-merged instances g entries model h in
      record {
        missing = em;
        empty = ee;
        all_ids = ap ids_of (sym same) ∙ sym (append-nil (ids_of g.combined));
        is_read = subst (All IsRead) same w.is_read;
        one = subst (All (λ e. e.model_name ≡ model)) same (
            All-apply (λ e. among e.model_name g.models ≡ true) (λ e. e.model_name ≡ model)
              (λ e q.
                only_model e.model_name model
                  (subst (λ (l : List Str). among e.model_name l ≡ true) models q))
              g.combined w.noted);
        some_entry = omega (arith, w.fewer, ap length models, ap length same);
      }

  gate_from-IsPassed :
      (instances ids : List Str) (g : Gate) (entries : List Prediction) (model : Str)
      → IsGate g
      → gate_from file instances ids g ≡ merged entries model
      → IsPassed g ids entries model
  unfolding gate_from record_usable
  gate_from-IsPassed instances [] g entries model w h =
      closed-IsPassed instances g entries model w h
  gate_from-IsPassed instances (id ∷ ids) g entries model w h =
      go (read_file id (file id)) refl h
        (λ g' w' h'. gate_from-IsPassed instances ids g' entries model w' h')
    where
      go :
          (x : Found)
          → read_file id (file id) ≡ x
          → (elim x [
            | bad refusal ↦ refused refusal
            | not_there ↦ gate_from file instances ids (record_missing id g)
            | no_patch ↦ gate_from file instances ids (record_empty id g)
            | usable patch model' ↦ gate_from file instances ids (record_usable id patch model' g)
          ])
            ≡ merged entries model
          → ((g' : Gate)
              → IsGate g'
              → gate_from file instances ids g' ≡ merged entries model
              → IsPassed g' ids entries model)
          → IsPassed g (id ∷ ids) entries model
      go (bad refusal) ex q again = cc
      go not_there ex q again = absurd (
          snoc_not_empty id g.missing
            (again (record_missing id g)
              (record { is_read = w.is_read; noted = w.noted; fewer = w.fewer }) q).missing)
      go no_patch ex q again = absurd (
          snoc_not_empty id g.empty
            (again (record_empty id g)
              (record { is_read = w.is_read; noted = w.noted; fewer = w.fewer }) q).empty)
      go (usable patch model') ex q again =
          let p = again _ (record_usable-IsGate id patch model' g ex w) q in
          record {
            missing = p.missing;
            empty = p.empty;
            all_ids =
                p.all_ids
                ∙ ap (λ (l : List Str). l ++ ids)
                    (map-append (λ (e : Prediction). e.instance_id) g.combined
                      ((record { instance_id = id; model_patch = patch; model_name = model' })
                        ∷ []))
                ∙ append_assoc (ids_of g.combined) (id ∷ []) ids;
            is_read = p.is_read;
            one = p.one;
            some_entry = p.some_entry;
          }

  -- A merge is complete: it has one prediction for each listed instance, in their order, each as the
  -- file of its instance has it, and all with one model.
  pub merge-IsComplete :
      (lines : List Str) (entries : List Prediction) (model : Str)
      → merge file lines ≡ merged entries model
      → IsComplete (read_instances [] lines) entries model
  unfolding merge
  merge-IsComplete lines entries model h =
      let p =
        gate_from-IsPassed (read_instances [] lines) (read_instances [] lines) empty_gate entries
          model empty_gate-IsGate h in
      record { ids = p.all_ids; is_read = p.is_read; one = p.one; some_entry = p.some_entry }

  -- The gate before the entries that are left: nothing missing or empty, and the one model, if any.
  record IsClean (g : Gate) (model : Str) : Type 0 where
    missing : g.missing ≡ []
    empty : g.empty ≡ []
    models : (g.models ≡ []) ⊎ (g.models ≡ model ∷ [])

  length-ids_of : (xs : List Prediction) → length (ids_of xs) ≡ length xs
  length-ids_of [] = refl
  length-ids_of (x ∷ xs) = ap suc (length-ids_of xs)

  gate_from-passed :
      (instances : List Str) (g : Gate) (rest : List Prediction) (model : Str)
      → IsClean g model
      → length instances ≡ length (g.combined ++ rest)
      → All IsRead rest
      → All (λ e. e.model_name ≡ model) rest
      → (g.models ≡ model ∷ []) ⊎ (0 < length rest)
      → gate_from file instances (ids_of rest) g ≡ merged (g.combined ++ rest) model
  unfolding gate_from record_usable
  gate_from-passed instances g [] model w same read one some_left =
      close_gate-clean instances g model w.missing w.empty
        (same ∙ ap length (append-nil g.combined)) (the_model some_left)
      ∙ ap (λ (l : List Prediction). merged l model) (sym (append-nil g.combined))
    where
      the_model : (g.models ≡ model ∷ []) ⊎ (0 < 0) → g.models ≡ model ∷ []
      the_model (inl e) = e
      the_model (inr h) = absurd (omega (arith, h))
  gate_from-passed instances g (e ∷ rest) model w same read one some_left =
      let next = record_usable e.instance_id e.model_patch e.model_name g in
      let models = add_model-only e.model_name model g.models one.0 w.models in
      found (read_file e.instance_id (file e.instance_id)) read.0
      ∙ gate_from-passed instances next rest model
          (record { missing = w.missing; empty = w.empty; models = inr models })
          (same ∙ ap length (sym (append_assoc g.combined (e ∷ []) rest))) read.1 one.1 (inl models)
      ∙ ap (λ (l : List Prediction). merged l model) (append_assoc g.combined (e ∷ []) rest)
    where
      found :
          (x : Found)
          → x ≡ usable e.model_patch e.model_name
          → (elim x [
            | bad refusal ↦ refused refusal
            | not_there ↦ gate_from file instances (ids_of rest) (record_missing e.instance_id g)
            | no_patch ↦ gate_from file instances (ids_of rest) (record_empty e.instance_id g)
            | usable patch model' ↦
                gate_from file instances (ids_of rest) (record_usable e.instance_id patch model' g)
          ])
            ≡ gate_from file instances
                (ids_of rest)
                (record_usable e.instance_id e.model_patch e.model_name g)
      found x h = rw h refl

  -- Predictions that are complete for the listed instances are what the merge comes to.
  pub IsComplete-merge :
      (lines : List Str) (entries : List Prediction) (model : Str)
      → IsComplete (read_instances [] lines) entries model
      → merge file lines ≡ merged entries model
  unfolding merge
  IsComplete-merge lines entries model w =
      subst
        (λ (l : List Str).
          gate_from file (read_instances [] lines) l empty_gate ≡ merged entries model)
        w.ids
        (gate_from-passed (read_instances [] lines) empty_gate entries model
          (record { missing = refl; empty = refl; models = inl refl })
          (ap length (sym w.ids) ∙ length-ids_of entries) w.is_read w.one (inr w.some_entry))

  -- The merge comes to these predictions and this model if and only if they are complete for the
  -- listed instances: one for each, in their order, as the file of the instance has it, all with the
  -- one model, and at least one.
  pub merge_lem :
      (lines : List Str) (entries : List Prediction) (model : Str)
      → (merge file lines ≡ merged entries model)
        ↔ IsComplete (read_instances [] lines) entries model
  merge_lem lines entries model =
      (merge-IsComplete lines entries model, IsComplete-merge lines entries model)
