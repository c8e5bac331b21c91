-- ===== src/Cure/Store.antt =====
-- `SQLiteMemoryStore` of integration/cure_memory/src/cure_memory/store.py: statements under its
-- commit discipline. A statement may fail (`fails`, by the number of the statement), a commit does
-- not; `now` is the clock. The state comes back beside a failure.
pub mod Atomic
use memory_bridge.Base.{
  ℕ, ◌+◌, ◌-◌, Bool, true, false, not, List, [], ◌∷◌, ◌++◌, Option, none, some, Str, if◌then◌else◌,
  ltb, ◌==◌, is_empty,
}
use memory_bridge.Cure.Model.{SessionMessage, Memory}
use memory_bridge.Cure.Db.{
  Db, Query, insert_memory, insert_message, update_row, select_memories, select_messages,
}

pub record Env : Type 0 where
  pub fails : ℕ → Bool
  pub now : ℕ → ℕ

-- The database as committed and as the connection sees it.
pub record Store : Type 0 where
  pub committed : Db
  pub working : Db
  pub in_transaction : Bool
  pub atomic_depth : ℕ
  pub statements : ℕ

pub data Failure : Type 0 where
  statement_failed : Failure
  nested_begin : Failure
  update_without_id : Failure
  memory_not_found : ℕ → Failure
  no_session : Failure

pub data Tried {ℓ} (A : Type ℓ) : Type ℓ where
  done : A → Tried A
  failed : Failure → Tried A

abbrev pub Action : Type 0 → Type 0
Action A = Store → Tried A × Store

module _ {A : Type 0} where
  abbrev pub pure : A → Action A
  pure a st = (done a, st)

  abbrev pub raise : Failure → Action A
  raise e st = (failed e, st)

-- What follows a statement: nothing, where it failed.
abbrev pub proceed : {A B : Type 0} → (A → Action B) → Tried A × Store → Tried B × Store
proceed f (done a, st) = f a st
proceed f (failed e, st) = (failed e, st)

infixl 5 ◌>>=◌ ◌>>◌
abbrev pub ◌>>=◌ : {A B : Type 0} → Action A → (A → Action B) → Action B
◌>>=◌ m f st = proceed f (m st)

abbrev pub ◌>>◌ : {B : Type 0} → Action (Unit {0}) → Action B → Action B
m >> k = m >>= λ _. k

abbrev pub commit : Store → Store
commit st = record st { committed = st.working; in_transaction = false }

abbrev pub rollback : Store → Store
rollback st = record st { working = st.committed; in_transaction = false }

-- `_commit`
abbrev pub commit_outside : Store → Store
commit_outside st = if st.atomic_depth == 0 then commit st else st

-- `_write`: one statement and, outside an atomic block, its commit or rollback.
unfoldable pub write : Env → (Db → Db) → Action (Unit {0})
write env statement st =
    let started : Store = record st { in_transaction = true; statements = st.statements + 1 } in
    if env.fails st.statements
    then (failed statement_failed, if st.atomic_depth == 0 then rollback started else started)
    else (done tt, commit_outside (record started { working = statement st.working }))

-- The end of an outermost `atomic` block.
unfoldable pub close_unit : {A : Type 0} → Tried A × Store → Tried A × Store
close_unit (done a, st) = (done a, record (commit st) { atomic_depth = st.atomic_depth - 1 })
close_unit (failed e, st) = (failed e, record (rollback st) { atomic_depth = st.atomic_depth - 1 })

-- `with self.atomic()`: a nested block joins the outer one.
unfoldable pub atomic : {A : Type 0} → Action A → Action A
atomic body st =
    if ltb 0 st.atomic_depth
    then body st
    else if st.in_transaction
    then (failed nested_begin, st)
    else close_unit (body (record st { in_transaction = true; atomic_depth = st.atomic_depth + 1 }))

module _ (env : Env) where
  -- Each returns `cursor.lastrowid`.
  unfoldable pub save_message : SessionMessage → Action ℕ
  save_message m st = (write env (insert_message m) >>= λ _. pure st.working.next_message) st

  unfoldable pub save_memory : Memory → Action ℕ
  save_memory m st = (write env (insert_memory m) >>= λ _. pure st.working.next_memory) st

  unfoldable pub update_at : Option ℕ → Memory → Action (Unit {0})
  update_at none m st = (failed update_without_id, st)
  update_at (some n) m st =
      write env (update_row n (record m { updated_at = env.now st.statements })) st

  unfoldable pub update_memory : Memory → Action (Unit {0})
  update_memory m = update_at m.id m

unfoldable pub list_memories : Query → Store → List Memory
list_memories q st = select_memories q st.working.memories

unfoldable pub list_messages : Str → Str → ℕ → Store → List SessionMessage
list_messages session_id user_id after_id st =
    select_messages session_id user_id after_id st.working.messages

-- `LIMIT 1`
unfoldable pub has_messages : Str → Str → ℕ → Store → Bool
has_messages session_id user_id after_id st =
    not (is_empty (list_messages session_id user_id after_id st))
