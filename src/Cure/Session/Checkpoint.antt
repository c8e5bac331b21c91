-- ===== src/Cure/Session/Checkpoint.antt =====
-- The extraction checkpoints of integration/cure_memory/src/cure_memory/system.py.
use mathlib.Core.Path.{subst}
use mathlib.Core.Bool.{true≢false}
use memory_bridge.Base.{
  ℕ, ◌≤◌, ◌<◌, ◌≡◌, refl, ◌∙◌, sym, ap, Bool, true, false, not, List, [], ◌∷◌, Option, none, Str,
  str_eq_refl, if◌then◌else◌, is_empty, ◌⊎◌, inl, inr, arith,
}
use memory_bridge.Cure.Model.{SessionMessage, Memory, ExtractionResult}
use memory_bridge.Cure.Db.{MessageRow, select_messages}
use memory_bridge.Cure.Store.{
  Env, Store, Tried, done, failed, atomic, no_session, list_memories, list_messages, has_messages,
}
use memory_bridge.Cure.Store.Atomic.{
  Ensures, Ensures-proceed, Ensures-weaken, Ensures-both, Ensures-Trivial, Trivial, IsSettled,
}
use memory_bridge.Cure.System.{mark_deleted, update_each}
use memory_bridge.Cure.Session.{
  upsert_each, no_session, list_memories, Key, key_eq, checkpoint_of, set_checkpoint, System,
  key_of, has_session, max_id, unextracted, has_unextracted_messages, advance, apply_result,
  settle_batch, extract_runtime_memories,
}
use memory_bridge.Cure.Session.Frame.{Outside, apply_result-Outside}

key_eq_refl : (k : Key) → key_eq k k ≡ true
key_eq_refl k = ground (arith, str_eq_refl k.0, str_eq_refl k.1)

checkpoint_of-set_checkpoint :
    (k : Key) (n : ℕ) (d : List (Key × ℕ)) → checkpoint_of k (set_checkpoint k n d) ≡ n
unfolding checkpoint_of set_checkpoint
checkpoint_of-set_checkpoint k n [] = rw (key_eq_refl k) refl
checkpoint_of-set_checkpoint k n ((j, m) ∷ d) =
    ground (arith, key_eq_refl k, checkpoint_of-set_checkpoint k n d)

-- No message of the session has an id past the greatest of the batch.
nothing_past :
    (session_id user_id : Str) (after top : ℕ) (rows : List MessageRow)
    → max_id (select_messages session_id user_id after rows) ≤ top
    → after ≤ top
    → select_messages session_id user_id top rows ≡ []
unfolding select_messages max_id
nothing_past session_id user_id after top [] h le = refl
nothing_past session_id user_id after top (row ∷ rows) h le =
    ground (arith, nothing_past session_id user_id after top rows)

empty_or_past :
    (session_id user_id : Str) (after : ℕ) (rows : List MessageRow)
    → (is_empty (select_messages session_id user_id after rows) ≡ true)
      ⊎ (after < max_id (select_messages session_id user_id after rows))
unfolding select_messages max_id
empty_or_past session_id user_id after [] = inl refl
empty_or_past session_id user_id after (row ∷ rows) =
    ground (arith, empty_or_past session_id user_id after rows)

-- An extraction without errors leaves nothing unextracted; one with errors leaves the system.
abbrev pub MovesBy : Bool → System → System → Type 0
MovesBy true sys sys' = has_unextracted_messages sys' ≡ false
MovesBy false sys sys' = sys' ≡ sys

abbrev pub Moves : System → Tried ExtractionResult × System → Type 0
Moves sys (done result, sys') = MovesBy (is_empty result.errors) sys sys'
Moves sys (failed e, sys') = sys'.checkpoints ≡ sys.checkpoints

-- After the batch, the session holds no message past its checkpoint.
advance_exhausts :
    (sys : System) (batch : List SessionMessage) (st : Store)
    → unextracted sys ≡ batch
    → st.working.messages ≡ sys.store.working.messages
    → has_unextracted_messages (advance batch (record sys { store = st })) ≡ false
unfolding unextracted has_unextracted_messages advance has_messages list_messages
advance_exhausts sys [] st e same =
    let after = checkpoint_of (key_of sys) sys.checkpoints in
    ap (λ rows. not (is_empty (select_messages sys.session_id sys.user_id after rows))) same
    ∙ ap (λ (batch : List SessionMessage). not (is_empty batch)) e
advance_exhausts sys (m ∷ ms) st e same =
    let after = checkpoint_of (key_of sys) sys.checkpoints in
    let rows = sys.store.working.messages in
    let top = max_id (m ∷ ms) in
    let moved = set_checkpoint (key_of sys) top sys.checkpoints in
    ap
      (λ rows. not (
        is_empty
          (select_messages sys.session_id sys.user_id (checkpoint_of (key_of sys) moved) rows)))
      same
    ∙ ap (λ n. not (is_empty (select_messages sys.session_id sys.user_id n rows)))
        (checkpoint_of-set_checkpoint (key_of sys) top sys.checkpoints)
    ∙ ap (λ (batch : List SessionMessage). not (is_empty batch))
        (nothing_past sys.session_id sys.user_id after top rows (omega (arith, ap max_id e))
          (past (empty_or_past sys.session_id sys.user_id after rows)))
  where
    past :
        (is_empty (unextracted sys) ≡ true)
          ⊎ (checkpoint_of (key_of sys) sys.checkpoints < max_id (unextracted sys))
        → checkpoint_of (key_of sys) sys.checkpoints ≤ max_id (m ∷ ms)
    past (inl h) =
        absurd (true≢false (sym h ∙ ap (λ (batch : List SessionMessage). is_empty batch) e))
    past (inr h) = omega (arith, ap max_id e)

errors-apply_result :
    (env : Env) (result : ExtractionResult) (st : Store)
    → Ensures (λ r st'. r.errors ≡ result.errors) Trivial (apply_result env result st)
unfolding apply_result
errors-apply_result env result st =
    let Kept = λ (r : ExtractionResult) (st' : Store). r.errors ≡ result.errors in
    let deletions = atomic (update_each env mark_deleted result.to_delete) st in
    Ensures-proceed {A = Unit {0}} (λ a. Trivial) Kept Trivial _ deletions
      (Ensures-Trivial deletions)
      (λ a st1 w.
        let upserts = upsert_each env result.candidates st1 in
        Ensures-proceed {A = List Memory} (λ a. Trivial) Kept Trivial _ upserts
          (Ensures-Trivial upserts) (λ b st2 v. refl))

settle_batch-Moves :
    (env : Env) (sys : System) (r : Tried ExtractionResult × Store)
    → Ensures
        (λ result st.
          (IsSettled st × (st.working.messages ≡ sys.store.working.messages))
          × (is_empty result.errors ≡ true))
        IsSettled
        r
    → Moves sys (settle_batch env (unextracted sys) sys r)
unfolding settle_batch
settle_batch-Moves env sys (done result, st) h =
    subst (λ (x : Bool). MovesBy x sys (advance (unextracted sys) (record sys { store = st })))
      (sym h.1) (advance_exhausts sys (unextracted sys) st refl h.0.1)
settle_batch-Moves env sys (failed e, st) h = refl

-- The batch of an extraction is done with exactly when it is reported without errors: nothing is
-- left unextracted then; with errors the system is as it was; and where a write fails, the
-- checkpoints are as they were, so that the batch is offered again. The store must be settled.
pub extract_runtime_memories-Moves :
    (env : Env) (extract : List SessionMessage → List Memory → Option Str → ExtractionResult)
    (sys : System)
    → IsSettled sys.store
    → Moves sys (extract_runtime_memories env extract sys)
unfolding extract_runtime_memories
extract_runtime_memories-Moves env extract sys settled =
    go (has_session sys) (is_empty result.errors) refl
  where
    result : ExtractionResult
    result =
        extract (unextracted sys)
          (list_memories
            (record {
              user_id = sys.user_id;
              project_id = sys.project_id;
              review_status = none;
              memory_type = none;
              key = none;
            })
            sys.store)
          sys.project_id

    go :
        (x y : Bool)
        → y ≡ is_empty result.errors
        → Moves sys (
            if not x
            then (failed no_session, sys)
            else if not y
            then (done result, sys)
            else settle_batch env (unextracted sys) sys (apply_result env result sys.store))
    go false y h = refl
    go true false h = subst (λ (z : Bool). MovesBy z sys sys) h refl
    go true true h = settle_batch-Moves env sys (apply_result env result sys.store) (
        Ensures-both (Outside env sys.store.working.messages) _ IsSettled Trivial _
          (apply_result-Outside env sys.store.working.messages result sys.store (settled, refl))
          (Ensures-weaken (λ r st'. r.errors ≡ result.errors) _ Trivial _
            (λ r st' e. ap (λ (errors : List Str). is_empty errors) e ∙ sym h)
            (errors-apply_result env result sys.store)))
