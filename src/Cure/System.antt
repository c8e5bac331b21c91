-- ===== src/Cure/System.antt =====
-- `CUREMemorySystem` of integration/cure_memory/src/cure_memory/system.py: the upsert, the manual
-- replacement, the extraction with its checkpoint, and the search. The extractor is an argument.
pub mod Slots
pub mod Unique
use memory_bridge.Base.{
  ℕ, ◌+◌, max, Bool, true, false, ◌&&◌, not, List, [], ◌∷◌, ◌++◌, map, Option, none, some, Str,
  codes, str_eq, opt_str_eq, if◌then◌else◌, ◌==◌, is_empty, keep_if, head_or_none,
}
use memory_bridge.Cure.Model.{
  SessionMessage, Memory, ExtractionResult, ReviewStatus, approved, deleted, superseded,
  is_inactive, status_eq,
}
use memory_bridge.Cure.Db.{Query}
use memory_bridge.Cure.Store.{
  Env, Store, Failure, memory_not_found, no_session, Tried, done, failed, Action, pure, raise,
  proceed, ◌>>=◌, ◌>>◌, atomic, save_message, save_memory, update_memory, list_memories,
  list_messages, has_messages,
}

-- `item.review_status not in INACTIVE_REVIEW_STATUSES`
abbrev pub is_active : Memory → Bool
is_active m = not (is_inactive m.review_status)

-- The rows that an upsert meets, by its three filters: the active ones, the layer guard of a
-- general candidate, and the mirror guard of a repo-bound one.
abbrev pub is_general : Memory → Bool
is_general m = elim m.project_id [ none ↦ true | some p ↦ false ]

unfoldable pub layer_guard : Option Str → List Memory → List Memory
layer_guard none active = keep_if is_general active
layer_guard (some p) active = active

unfoldable pub mirror_guard : Option Str → List Memory → List Memory
mirror_guard none active = active
mirror_guard (some p) active = keep_if (λ m. opt_str_eq m.project_id (some p)) active

abbrev pub upsert_query : Memory → Query
upsert_query m = record {
  user_id = m.user_id;
  project_id = m.project_id;
  review_status = none;
  memory_type = some m.memory_type;
  key = some m.key;
}

unfoldable pub active_rows : Memory → Store → List Memory
active_rows m st = layer_guard m.project_id (keep_if is_active (list_memories (upsert_query m) st))

-- `active and active[0].value == memory.value and …`: the row that already covers the candidate
unfoldable pub covering : Memory → List Memory → Option Memory
covering m [] = none
covering m (a ∷ active) =
    if str_eq a.value m.value && status_eq a.review_status m.review_status then some a else none

-- `memory.supersedes.append(item.id)`
unfoldable pub ids_of : List Memory → List ℕ
ids_of [] = []
ids_of (m ∷ ms) = elim m.id [ none ↦ ids_of ms | some n ↦ n ∷ ids_of ms ]

abbrev pub mark_superseded : Memory → Memory
mark_superseded m = record m { review_status = superseded }

abbrev pub mark_successor : ℕ → Memory → Memory
mark_successor n m = record m { review_status = superseded; superseded_by = some n }

abbrev pub mark_deleted : Memory → Memory
mark_deleted m = record m { review_status = deleted }

module _ (env : Env) where
  -- `for item in items: … self.store.update_memory(item)`
  unfoldable pub update_each : (Memory → Memory) → List Memory → Action (Unit {0})
  update_each mark [] st = (done tt, st)
  update_each mark (m ∷ ms) st = proceed (λ _. update_each mark ms) (update_memory env (mark m) st)

  -- The atomic block of `_upsert_memory`.
  unfoldable pub supersede : List Memory → Memory → Action Memory
  supersede active m = do
    update_each mark_superseded active
    n ← save_memory env m
    update_each (mark_successor n) active
    pure (record m { id = some n })

  unfoldable pub replace_active : List Memory → Memory → Action Memory
  replace_active active m =
      atomic (supersede active (record m { supersedes = m.supersedes ++ ids_of active }))

  unfoldable pub upsert_memory : Memory → Action Memory
  upsert_memory m st = elim (covering m (active_rows m st)) [
    | some a ↦ (done a, st)
    | none ↦ replace_active (mirror_guard m.project_id (active_rows m st)) m st
  ]

  -- `memory_replace`, from the row that was found
  unfoldable pub replacement_of : Memory → ℕ → Str → Str → ℕ → Memory
  replacement_of old n value confidence now = record old {
    id = none;
    value = value;
    confidence = confidence;
    review_status = approved;
    source_type = codes "manual_replace";
    evidence = value ∷ [];
    sensitivity = codes "private";
    needs_verification = false;
    supersedes = n ∷ [];
    superseded_by = none;
    created_at = now;
    updated_at = now;
    metadata = codes "{}";
  }

  unfoldable pub swap_rows : Memory → Memory → Action Memory
  swap_rows old replacement = do
    n ← save_memory env replacement
    update_memory env (mark_successor n old)
    pure (record replacement { id = some n })

  unfoldable pub find_active : ℕ → List Memory → Option Memory
  find_active n [] = none
  find_active n (m ∷ ms) =
      let rest = find_active n ms in
      if is_active m && (elim m.id [ none ↦ false | some k ↦ k == n ]) then some m else rest

  unfoldable pub memory_replace : Str → ℕ → Str → Str → Action Memory
  memory_replace user_id memory_id value confidence st =
      let all =
        list_memories
          (record {
            user_id = user_id;
            project_id = none;
            review_status = none;
            memory_type = none;
            key = none;
          })
          st in
      elim (find_active memory_id all) [
        | none ↦ (failed (memory_not_found memory_id), st)
        | some old ↦
            atomic
              (swap_rows old
                (replacement_of old memory_id value confidence (env.now st.statements)))
              st
      ]
