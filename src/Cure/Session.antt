-- ===== src/Cure/Session.antt =====
-- The sessions of `CUREMemorySystem`, integration/cure_memory/src/cure_memory/system.py: recording,
-- and extraction with its checkpoints. The extractor is an argument.
pub mod Frame
pub mod Checkpoint
use memory_bridge.Base.{
  ℕ, max, Bool, true, false, ◌&&◌, ◌||◌, not, List, [], ◌∷◌, ◌++◌, Option, none, some, Str, str_eq,
  if◌then◌else◌, is_empty,
}
use memory_bridge.Cure.Model.{SessionMessage, Memory, ExtractionResult}
use memory_bridge.Cure.Store.{
  Env, Store, no_session, Tried, done, failed, Action, proceed, atomic, save_message, list_memories,
  list_messages, has_messages,
}
use memory_bridge.Cure.System.{mark_deleted, update_each, upsert_memory}

abbrev pub Key : Type 0
Key = Str × Str

abbrev pub key_eq : Key → Key → Bool
key_eq a b = str_eq a.0 b.0 && str_eq a.1 b.1

-- `d.get(key, 0)`
unfoldable pub checkpoint_of : Key → List (Key × ℕ) → ℕ
checkpoint_of k [] = 0
checkpoint_of k ((j, n) ∷ d) = if key_eq k j then n else checkpoint_of k d

unfoldable pub has_key : Key → List (Key × ℕ) → Bool
has_key k [] = false
has_key k ((j, n) ∷ d) = key_eq k j || has_key k d

-- `d[key] = n`
unfoldable pub set_checkpoint : Key → ℕ → List (Key × ℕ) → List (Key × ℕ)
set_checkpoint k n [] = (k, n) ∷ []
set_checkpoint k n ((j, m) ∷ d) = if key_eq k j then (k, n) ∷ d else (j, m) ∷ set_checkpoint k n d

-- The session and its user are the two parts of a key.
pub record System : Type 0 where
  pub store : Store
  pub session_id : Str
  pub user_id : Str
  pub project_id : Option Str
  pub checkpoints : List (Key × ℕ)

abbrev pub key_of : System → Key
key_of sys = (sys.user_id, sys.session_id)

-- `_require_session`; None and "" are both no session.
abbrev pub has_session : System → Bool
has_session sys = not (is_empty sys.session_id) && not (is_empty sys.user_id)

-- `start_session`; `minted` is the fresh id for a session without one.
unfoldable pub start_session : Str → Option Str → Str → Str → System → System
start_session user_id project_id session_id minted sys =
    let session = if is_empty session_id then minted else session_id in
    record sys {
      session_id = session;
      user_id = user_id;
      project_id = project_id;
      checkpoints =
          if has_key (user_id, session) sys.checkpoints
          then sys.checkpoints
          else sys.checkpoints ++ ((user_id, session), 0) ∷ [];
    }

abbrev pub with_store : {A : Type 0} → System → Tried A × Store → Tried A × System
with_store sys (r, st) = (r, record sys { store = st })

-- `max(message.id for message in messages if message.id is not None)`
unfoldable pub max_id : List SessionMessage → ℕ
max_id [] = 0
max_id (m ∷ ms) = elim m.id [ none ↦ max_id ms | some n ↦ max n (max_id ms) ]

-- The messages past the checkpoint.
unfoldable pub unextracted : System → List SessionMessage
unextracted sys =
    list_messages sys.session_id sys.user_id (checkpoint_of (key_of sys) sys.checkpoints) sys.store

unfoldable pub has_unextracted_messages : System → Bool
has_unextracted_messages sys =
    has_messages sys.session_id sys.user_id (checkpoint_of (key_of sys) sys.checkpoints) sys.store

-- The checkpoint moves past the batch, if there was one.
unfoldable pub advance : List SessionMessage → System → System
advance [] sys = sys
advance (m ∷ ms) sys = record sys {
  checkpoints = set_checkpoint (key_of sys) (max_id (m ∷ ms)) sys.checkpoints;
}

module _ (env : Env) where
  unfoldable pub record_message : Str → Str → Str → System → Tried ℕ × System
  record_message role content metadata sys =
      let message : SessionMessage = record {
        id = none;
        session_id = sys.session_id;
        user_id = sys.user_id;
        role = role;
        content = content;
        created_at = env.now sys.store.statements;
        metadata = metadata;
      } in
      if has_session sys
      then with_store sys (save_message env message sys.store)
      else (failed no_session, sys)

  -- `for memory in result.candidates: result.persisted.append(self._upsert_memory(memory))`
  unfoldable pub upsert_each : List Memory → Action (List Memory)
  upsert_each [] st = (done [], st)
  upsert_each (m ∷ ms) st =
      proceed (λ saved st1. proceed (λ rest st2. (done (saved ∷ rest), st2)) (upsert_each ms st1))
        (upsert_memory env m st)

  -- The writes of an extraction without errors: the deletions in one unit, then the candidates.
  unfoldable pub apply_result : ExtractionResult → Action ExtractionResult
  apply_result result st =
      proceed
        (λ deleted st1.
          proceed (λ persisted st2. (done (record result { persisted = persisted }), st2))
            (upsert_each result.candidates st1))
        (atomic (update_each env mark_deleted result.to_delete) st)

  -- The checkpoint moves only when every write has succeeded.
  unfoldable pub settle_batch :
      List SessionMessage
      → System
      → Tried ExtractionResult × Store
      → Tried ExtractionResult × System
  settle_batch batch sys (done result, st) =
      (done result, advance batch (record sys { store = st }))
  settle_batch batch sys (failed e, st) = (failed e, record sys { store = st })

  module _ (extract : List SessionMessage → List Memory → Option Str → ExtractionResult) where
    unfoldable pub extract_runtime_memories : System → Tried ExtractionResult × System
    extract_runtime_memories sys =
        let batch = unextracted sys in
        let existing =
          list_memories
            (record {
              user_id = sys.user_id;
              project_id = sys.project_id;
              review_status = none;
              memory_type = none;
              key = none;
            })
            sys.store in
        let result = extract batch existing sys.project_id in
        if not (has_session sys)
        then (failed no_session, sys)
        else if not (is_empty result.errors)
        then (done result, sys)
        else settle_batch batch sys (apply_result result sys.store)
