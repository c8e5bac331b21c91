-- ===== src/Utils/Merge.antt =====
-- utils/merge_predictions.py: the list of instances, the gate over their predictions, and the merged
-- file. `file` gives what stands at an instance's preds.json.
pub mod Models
pub mod Gated
use memory_bridge.Base.{
  ℕ, Bool, true, false, ◌&&◌, ◌||◌, not, List, [], ◌∷◌, ◌++◌, map, Option, none, some, Str, codes,
  str_eq, strip, if◌then◌else◌, is_empty, length, ◌==◌,
}
use memory_bridge.Shared.Json.{Json, null, text, object, Fields, get}

pub data File : Type 0 where
  absent : File
  unreadable : Str → File
  loaded : Json → File

-- The messages of `SystemExit`, by what they name.
pub data Refusal : Type 0 where
  unreadable_file : Str → Str → Refusal
  no_object : Str → Refusal
  entry_no_object : Str → Refusal
  no_model : Str → Refusal
  missing_predictions : List Str → Refusal
  empty_patches : List Str → Refusal
  wrong_number : ℕ → ℕ → Refusal
  many_models : List Str → Refusal

pub record Prediction : Type 0 where
  pub instance_id : Str
  pub model_patch : Str
  pub model_name : Str

pub record Gate : Type 0 where
  pub combined : List Prediction
  pub models : List Str
  pub missing : List Str
  pub empty : List Str

pub data Merged : Type 0 where
  merged : List Prediction → Str → Merged
  refused : Refusal → Merged

abbrev pub empty_gate : Gate
empty_gate = record { combined = []; models = []; missing = []; empty = [] }

-- `s in names`
unfoldable pub among : Str → List Str → Bool
among s [] = false
among s (t ∷ names) = str_eq s t || among s names

abbrev pub is_comment : Str → Bool
is_comment [] = false
is_comment (c ∷ s) = c == 35

unfoldable pub read_instances : List Str → List Str → List Str
read_instances instances [] = instances
read_instances instances (line ∷ lines) =
    let id = strip line in
    read_instances
      (if is_empty id || is_comment id || among id instances
        then instances
        else instances ++ id ∷ [])
      lines

-- `value if isinstance(value, str) and value.strip() else None`
unfoldable pub usable_text : Option Json → Option Str
usable_text (some (text s)) = if is_empty (strip s) then none else some s
usable_text x = none

-- What one instance comes to: it is missing, its patch is empty, it is refused, or it is added.
pub data Found : Type 0 where
  not_there : Found
  no_patch : Found
  bad : Refusal → Found
  usable : Str → Str → Found

unfoldable pub read_model : Str → Str → Option Str → Found
read_model id patch none = bad (no_model id)
read_model id patch (some model) = usable patch model

unfoldable pub read_patch : Str → Fields → Option Str → Found
read_patch id pred none = no_patch
read_patch id pred (some patch) =
    read_model id patch (usable_text (get (codes "model_name_or_path") pred))

unfoldable pub read_entry : Str → Option Json → Found
read_entry id none = not_there
read_entry id (some null) = not_there
read_entry id (some (object pred)) =
    read_patch id pred (usable_text (get (codes "model_patch") pred))
read_entry id (some x) = bad (entry_no_object id)

unfoldable pub read_file : Str → File → Found
read_file id absent = not_there
read_file id (unreadable error) = bad (unreadable_file id error)
read_file id (loaded (object payload)) = read_entry id (get id payload)
read_file id (loaded x) = bad (no_object id)

abbrev pub add_model : Str → List Str → List Str
add_model model models = if among model models then models else models ++ model ∷ []

unfoldable pub record_usable : Str → Str → Str → Gate → Gate
record_usable id patch model g = record g {
  combined =
      g.combined ++ (record { instance_id = id; model_patch = patch; model_name = model }) ∷ [];
  models = add_model model g.models;
}

abbrev pub record_missing : Str → Gate → Gate
record_missing id g = record g { missing = g.missing ++ id ∷ [] }

abbrev pub record_empty : Str → Gate → Gate
record_empty id g = record g { empty = g.empty ++ id ∷ [] }

-- After the loop.
unfoldable pub one_model : Gate → List Str → Merged
one_model g (model ∷ []) = merged g.combined model
one_model g models = refused (many_models models)

unfoldable pub close_gate : List Str → Gate → Merged
close_gate instances g =
    if not (is_empty g.missing)
    then refused (missing_predictions g.missing)
    else if not (is_empty g.empty)
    then refused (empty_patches g.empty)
    else if not (length g.combined == length instances)
    then refused (wrong_number (length instances) (length g.combined))
    else one_model g g.models

module _ (file : Str → File) where
  -- The loop over the instances that are left; the whole list is only counted.
  unfoldable pub gate_from : List Str → List Str → Gate → Merged
  gate_from instances [] g = close_gate instances g
  gate_from instances (id ∷ ids) g = elim (read_file id (file id)) [
    | bad refusal ↦ refused refusal
    | not_there ↦ gate_from instances ids (record_missing id g)
    | no_patch ↦ gate_from instances ids (record_empty id g)
    | usable patch model ↦ gate_from instances ids (record_usable id patch model g)
  ]

  unfoldable pub merge : List Str → Merged
  merge lines = let instances = read_instances [] lines in gate_from instances instances empty_gate
