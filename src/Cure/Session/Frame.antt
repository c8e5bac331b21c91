-- ===== src/Cure/Session/Frame.antt =====
-- The writes of an extraction leave the table of messages alone, and the store settled
-- (integration/cure_memory/src/cure_memory/system.py).
use memory_bridge.Base.{ℕ, ◌≡◌, ◌∙◌, sym, ap, List, [], ◌∷◌, Option, none, some}
use memory_bridge.Cure.Model.{Memory, ExtractionResult}
use memory_bridge.Cure.Db.{Db, MessageRow, insert_memory, update_row}
use memory_bridge.Cure.Store.{
  Env, Store, done, Action, write, atomic, save_memory, update_at, update_memory,
}
use memory_bridge.Cure.Store.Atomic.{
  Ensures, Ensures-proceed, Ensures-weaken, Ensures-fails, InUnit, IsSettled, Wrote, write-InUnit,
  atomic-IsSettled,
}
use memory_bridge.Cure.System.{
  mirror_guard, active_rows, covering, mark_superseded, mark_successor, mark_deleted, update_each,
  supersede, replace_active, upsert_memory,
}
use memory_bridge.Cure.Session.{upsert_each, apply_result}

module _ (env : Env) (ms : List MessageRow) where
  -- The messages are `ms`, inside a block.
  abbrev Inside : Db → {A : Type 0} → A → Store → Type 0
  Inside d a st = InUnit d st × (st.working.messages ≡ ms)

  -- The messages are `ms`, in a settled store.
  abbrev pub Outside : {A : Type 0} → A → Store → Type 0
  Outside a st = IsSettled st × (st.working.messages ≡ ms)

  write-Inside :
      (d : Db) (statement : Db → Db) (st : Store)
      → InUnit d st
      → (statement st.working).messages ≡ ms
      → Ensures (Inside d) (InUnit d) (write env statement st)
  write-Inside d statement st u h =
      Ensures-weaken (Wrote d st.working statement) (Inside d) (InUnit d) _
        (λ a st' w. (w.0, ap (λ (db : Db). db.messages) w.1 ∙ h))
        (write-InUnit env statement d st u)

  update_at-Inside :
      (d : Db) (o : Option ℕ) (m : Memory) (st : Store)
      → Inside d tt st
      → Ensures (Inside d) (InUnit d) (update_at env o m st)
  unfolding update_at
  update_at-Inside d none m st h = h.0
  update_at-Inside d (some n) m st h = write-Inside d (update_row n _) st h.0 h.1

  update_each-Inside :
      (d : Db) (mark : Memory → Memory) (rows : List Memory) (st : Store)
      → Inside d tt st
      → Ensures (Inside d) (InUnit d) (update_each env mark rows st)
  unfolding update_each update_memory
  update_each-Inside d mark [] st h = h
  update_each-Inside d mark (m ∷ rows) st h =
      Ensures-proceed (Inside d) (Inside d) (InUnit d) _ _
        (update_at-Inside d (mark m).id (mark m) st h)
        (λ a st' w. update_each-Inside d mark rows st' w)

  save_memory-Inside :
      (d : Db) (m : Memory) (st : Store)
      → Inside d tt st
      → Ensures (Inside d) (InUnit d) (save_memory env m st)
  unfolding save_memory
  save_memory-Inside d m st h =
      Ensures-proceed (Inside d) (Inside d) (InUnit d) _ _
        (write-Inside d (insert_memory m) st h.0 h.1) (λ a st' w. w)

  supersede-Inside :
      (d : Db) (active : List Memory) (m : Memory) (st : Store)
      → Inside d tt st
      → Ensures (Inside d) (InUnit d) (supersede env active m st)
  unfolding supersede
  supersede-Inside d active m st h =
      Ensures-proceed (Inside d) (Inside d) (InUnit d) _ _
        (update_each-Inside d mark_superseded active st h)
        (λ a st1 w1.
          Ensures-proceed (Inside d) (Inside d) (InUnit d) _ _ (save_memory-Inside d m st1 w1)
            (λ n st2 w2.
              Ensures-proceed (Inside d) (Inside d) (InUnit d) _ _
                (update_each-Inside d (mark_successor n) active st2 w2) (λ a st3 w3. w3)))

  atomic-Outside :
      {A : Type 0} (body : Action A) (st : Store)
      → Outside tt st
      → ((d : Db) (unit : Store) → Inside d tt unit → Ensures (Inside d) (InUnit d) (body unit))
      → Ensures Outside IsSettled (atomic body st)
  atomic-Outside body st h inside =
      Ensures-fails Outside (λ st'. IsSettled st' × (st'.committed ≡ st.committed)) IsSettled _
        (λ st' f. f.0)
        (atomic-IsSettled (λ a db. db.messages ≡ ms) body st h.0
          (λ unit u same.
            inside st.committed unit
              (u, ap (λ (db : Db). db.messages) (same ∙ sym h.0.working) ∙ h.1)))

  upsert_from_Outside :
      (m : Memory) (st : Store) (o : Option Memory)
      → Outside tt st
      → Ensures {A = Memory} Outside IsSettled (elim o [
        | some a ↦ (done a, st)
        | none ↦ replace_active env (mirror_guard m.project_id (active_rows m st)) m st
      ])
  unfolding replace_active
  upsert_from_Outside m st (some a) h = h
  upsert_from_Outside m st none h =
      atomic-Outside _ st h (λ d unit w. supersede-Inside d _ _ unit w)

  upsert_each-Outside :
      (rows : List Memory) (st : Store)
      → Outside tt st
      → Ensures Outside IsSettled (upsert_each env rows st)
  unfolding upsert_each upsert_memory
  upsert_each-Outside [] st h = h
  upsert_each-Outside (m ∷ rows) st h =
      Ensures-proceed Outside Outside IsSettled _ _
        (upsert_from_Outside m st (covering m (active_rows m st)) h)
        (λ saved st1 w1.
          Ensures-proceed Outside Outside IsSettled _ _ (upsert_each-Outside rows st1 w1)
            (λ rest st2 w2. w2))

  pub apply_result-Outside :
      (result : ExtractionResult) (st : Store)
      → Outside tt st
      → Ensures Outside IsSettled (apply_result env result st)
  unfolding apply_result
  apply_result-Outside result st h =
      Ensures-proceed Outside Outside IsSettled _ _
        (atomic-Outside _ st h
          (λ d unit w. update_each-Inside d mark_deleted result.to_delete unit w))
        (λ a st1 w1.
          Ensures-proceed Outside Outside IsSettled _ _
            (upsert_each-Outside result.candidates st1 w1) (λ rest st2 w2. w2))
