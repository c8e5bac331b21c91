-- ===== src/Cure/Extractor/Own.antt =====
-- Which rows a deletion reaches (integration/cure_memory/src/cure_memory/extractor.py,
-- `_matching_memories` and the deletions of `_apply_llm_decision`).
use memory_bridge.Base.{
  ◌≡◌, refl, Bool, true, false, ◌&&◌, ◌||◌, List, [], ◌∷◌, ◌++◌, Option, none, some, Str, codes,
  opt_str_eq, if◌then◌else◌, is_empty, keep_if, keep_if-All, All, All-apply, ltb, length,
  All-append, arith,
}
use memory_bridge.Cure.Model.{Memory}
use memory_bridge.Cure.System.{is_active, is_general}
use memory_bridge.Shared.Json.{Fields, get}
use memory_bridge.Cure.Extractor.{
  Runtime, Layer, user_layer, project_layer, in_layer, add_deleted, matching_memories,
  apply_deletions, deletion_target, layer_of, any_contained,
}

-- A row that a deletion of a session may address: an active one, general or of its own repository.
abbrev pub is_own : Option Str → Memory → Bool
is_own project_id m = is_active m && (is_general m || opt_str_eq m.project_id project_id)

module _ (R : Runtime) where
  in_layer-own :
      (scope : Option Layer) (project_id : Option Str) (m : Memory)
      → in_layer scope project_id m ≡ true
      → (is_general m || opt_str_eq m.project_id project_id) ≡ true
  unfolding in_layer
  in_layer-own (some user_layer) project_id m h = ground (arith, h)
  in_layer-own (some project_layer) project_id m h = ground (arith, h)
  in_layer-own none project_id m h = ground (arith, h)

  own_from :
      (m : Memory) (active within found bound : Bool)
      → (within ≡ true → bound ≡ true)
      → (active && within && found) ≡ true
      → (active && bound) ≡ true
  own_from m true true found bound f h = f refl
  own_from m true false found bound f h = cc
  own_from m false within found bound f h = cc

  matching_memories-own :
      (existing : List Memory) (target : Str) (scope : Option Layer) (project_id : Option Str)
      → All (λ m. is_own project_id m ≡ true) (matching_memories R existing target scope project_id)
  unfolding matching_memories
  matching_memories-own existing target scope project_id =
      All-apply _ _ own existing' (keep_if-All _ existing)
    where
      existing' : List Memory
      existing' = matching_memories R existing target scope project_id

      own :
          (m : Memory)
          → (is_active m
              && in_layer scope project_id m
              && any_contained
                  (keep_if (λ token. ltb 2 (length token)) (R.words (R.lower target)))
                  (R.lower (m.key ++ codes " " ++ m.value)))
            ≡ true
          → is_own project_id m ≡ true
      own m h =
          own_from m (is_active m) (in_layer scope project_id m) _ _
            (in_layer-own scope project_id m) h

  add_deleted-All :
      (P : Memory → Type 0) (found gone : List Memory)
      → All P gone
      → All P found
      → All P (add_deleted gone found)
  unfolding add_deleted
  add_deleted-All P [] gone h k = h
  add_deleted-All P (m ∷ found) gone h k = add_deleted-All P found _ (go _) k.1
    where
      go : (t : Bool) → All P (if t then gone else gone ++ m ∷ [])
      go true = h
      go false = All-append P gone (m ∷ []) h (k.0, tt)

  pub apply_deletions-own :
      (existing : List Memory) (project_id : Option Str) (items : List Fields) (gone : List Memory)
      → All (λ m. is_own project_id m ≡ true) gone
      → All (λ m. is_own project_id m ≡ true) (apply_deletions R existing project_id gone items)
  unfolding apply_deletions
  apply_deletions-own existing project_id [] gone h = h
  apply_deletions-own existing project_id (d ∷ items) gone h =
      apply_deletions-own existing project_id items _ (go (is_empty (deletion_target R d)))
    where
      found : List Memory
      found =
          matching_memories R existing (deletion_target R d) (layer_of R (get (codes "scope") d))
            project_id

      go :
          (t : Bool)
          → All (λ m. is_own project_id m ≡ true) (if t then gone else add_deleted gone found)
      go true = h
      go false = add_deleted-All _ found gone h (matching_memories-own existing _ _ project_id)
