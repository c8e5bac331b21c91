-- ===== src/Tests/Merge.antt =====
-- The gate over the predictions at concrete files.
use memory_bridge.Base.{
  ◌≡◌, refl, [], ◌∷◌, Str, codes, ◌↔◌, str_eq, if◌then◌else◌, strip, rstrip, lstrip, is_space,
}
use memory_bridge.Shared.Json.{Json, text, object, no_fields, field, get}
use memory_bridge.Utils.Merge.{
  File, absent, loaded, Prediction, merged, refused, empty_patches, merge, read_instances,
  gate_from, close_gate, one_model, record_usable, read_file, read_entry, read_patch, read_model,
  usable_text, among,
}
use memory_bridge.Utils.Merge.Gated
use memory_bridge.Utils.Merge.Gated.{IsComplete}

abbrev prediction : Str → Json
prediction patch = object (
    field (codes "model_patch") (text patch)
      (field (codes "model_name_or_path") (text (codes "gpt")) no_fields))

abbrev files : Str → File
files id =
    if str_eq id (codes "a-1")
    then loaded (object (field id (prediction (codes "+x")) no_fields))
    else if str_eq id (codes "b-2")
    then loaded (object (field id (prediction (codes " ")) no_fields))
    else absent

abbrev entry : Prediction
entry = record { instance_id = codes "a-1"; model_patch = codes "+x"; model_name = codes "gpt" }

merge-two_lines :
    merge files (codes " a-1 " ∷ codes "# b" ∷ codes "a-1" ∷ []) ≡ merged (entry ∷ []) (codes "gpt")
unfolding merge read_instances gate_from close_gate one_model record_usable read_file read_entry
    read_patch read_model usable_text among get str_eq strip rstrip lstrip is_space
merge-two_lines = refl

merge-blank_patch :
    merge files (codes "a-1" ∷ codes "b-2" ∷ []) ≡ refused (empty_patches (codes "b-2" ∷ []))
unfolding merge read_instances gate_from close_gate one_model record_usable read_file read_entry
    read_patch read_model usable_text among get str_eq strip rstrip lstrip is_space
merge-blank_patch = refl

merge_lem_example :
    (merge files (codes "a-1" ∷ codes "a-1" ∷ []) ≡ merged (entry ∷ []) (codes "gpt"))
    ↔ IsComplete files
        (read_instances [] (codes "a-1" ∷ codes "a-1" ∷ []))
        (entry ∷ [])
        (codes "gpt")
merge_lem_example =
    Gated.merge_lem files (codes "a-1" ∷ codes "a-1" ∷ []) (entry ∷ []) (codes "gpt")
