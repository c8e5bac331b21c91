-- ===== src/Cure/System/Unique.antt =====
-- One active row for each slot: the upsert and the replacement of
-- integration/cure_memory/src/cure_memory/system.py.
use mathlib.Core.Path.{subst}
use memory_bridge.Base.{
  ℕ, ◌≤◌, ◌≡◌, refl, ◌∙◌, sym, ap, true, false, List, [], ◌∷◌, ◌++◌, Option, none, some, length,
  length-append, Bool-cases, inl, inr, arith,
}
use memory_bridge.Base.Members.{drop_id, drop_ids, drop_ids-All, length-drop_ids-le}
use memory_bridge.Cure.Model.{Memory}
use memory_bridge.Cure.Db.{Db, MemoryRow, insert_memory, update_row}
use memory_bridge.Cure.Store.{
  Env, Store, Tried, done, proceed, save_memory, update_at, update_memory, write,
}
use memory_bridge.Cure.Store.Atomic.{
  Ensures-all, Ensures, Ensures-proceed, Ensures-weaken, InUnit, IsSettled, Wrote, write-InUnit,
  atomic-IsSettled,
}
use memory_bridge.Cure.System.{
  is_active, mirror_guard, active_rows, covering, ids_of, mark_superseded, mark_successor,
  update_each, supersede, replace_active, upsert_memory,
}
use memory_bridge.Cure.System.Slots.{
  Slot, slot_of, in_slot, live, live-update_rows, live-append, length-live_one, superseded_covers,
}

-- At most one active row for each slot.
abbrev pub IsUnique : Db → Type 0
IsUnique db = (s : Slot) → length (live s db.memories) ≤ 1

abbrev row_of : ℕ → Memory → MemoryRow
row_of n m = record { row_id = n; memory = m }

module _ (env : Env) (d : Db) (s : Slot) where
  -- The live ids of the slot are `ids`, inside a block.
  abbrev Live : List ℕ → {A : Type 0} → A → Store → Type 0
  Live ids a st = InUnit d st × (live s st.working.memories ≡ ids)

  write-Live :
      (n : ℕ) (m : Memory) (st : Store)
      → InUnit d st
      → is_active m ≡ false
      → Ensures
          (Live (drop_id n (live s st.working.memories)))
          (InUnit d)
          (write env (update_row n m) st)
  write-Live n m st u h =
      Ensures-weaken (Wrote d st.working (update_row n m)) _ (InUnit d) _
        (λ a st' w. (
          w.0,
          ap (λ (db : Db). live s db.memories) w.1 ∙ live-update_rows s n m st.working.memories h,
        ))
        (write-InUnit env (update_row n m) d st u)

  module _ (mark : Memory → Memory) (inactive : (m : Memory) → is_active (mark m) ≡ false)
      (same : (m : Memory) → (mark m).id ≡ m.id) where
    update_each-Live :
        (ms : List Memory) (st : Store)
        → InUnit d st
        → Ensures
            (Live (drop_ids (ids_of ms) (live s st.working.memories)))
            (InUnit d)
            (update_each env mark ms st)
    unfolding update_each ids_of update_memory update_at
    update_each-Live [] st u = (u, refl)
    update_each-Live (m ∷ ms) st u =
        subst
          (λ (o : Option ℕ).
            Ensures
              (Live (
                drop_ids (elim o [ none ↦ ids_of ms | some n ↦ n ∷ ids_of ms ])
                  (live s st.working.memories)))
              (InUnit d) (proceed (λ _. update_each env mark ms) (update_memory env (mark m) st)))
          (same m) (step (mark m).id (update_each-Live ms))
      where
        step :
            (o : Option ℕ)
            → ((st' : Store)
                → InUnit d st'
                → Ensures
                    (Live (drop_ids (ids_of ms) (live s st'.working.memories)))
                    (InUnit d)
                    (update_each env mark ms st'))
            → Ensures
                (Live (
                  drop_ids
                    (elim o [ none ↦ ids_of ms | some n ↦ n ∷ ids_of ms ])
                    (live s st.working.memories)))
                (InUnit d)
                (proceed (λ _. update_each env mark ms) (update_at env o (mark m) st))
        step none rest = u
        step (some n) rest =
            let dropped = drop_id n (live s st.working.memories) in
            let m' : Memory = record (mark m) { updated_at = env.now st.statements } in
            Ensures-proceed (Live dropped) _ (InUnit d) _ _ (write-Live n m' st u (inactive m))
              (λ a st' w.
                subst
                  (λ (ids : List ℕ).
                    Ensures (Live (drop_ids (ids_of ms) ids)) (InUnit d)
                      (update_each env mark ms st'))
                  w.1 (rest st' w.0))

  -- At most one row of the slot is active, inside a block.
  abbrev Few : {A : Type 0} → A → Store → Type 0
  Few a st = InUnit d st × (length (live s st.working.memories) ≤ 1)

  save_memory-Live :
      (m : Memory) (ids : List ℕ) (st : Store)
      → InUnit d st
      → live s st.working.memories ≡ ids
      → Ensures
          (λ n st'. Live (ids ++ live s (row_of n m ∷ [])) n st')
          (InUnit d)
          (save_memory env m st)
  unfolding save_memory
  save_memory-Live m ids st u h =
      Ensures-proceed (Wrote d st.working (insert_memory m)) _ (InUnit d) _ _
        (write-InUnit env (insert_memory m) d st u)
        (λ a st' w. (
          w.0,
          ap (λ (db : Db). live s db.memories) w.1
              ∙ live-append s st.working.memories (row_of st.working.next_memory m)
              ∙ ap (λ ids. ids ++ live s (row_of st.working.next_memory m ∷ [])) h,
        ))

  supersede-Few :
      (active : List Memory) (m : Memory) (st : Store)
      → InUnit d st
      → ((n : ℕ)
          → length
              (drop_ids (ids_of active) (live s st.working.memories) ++ live s (row_of n m ∷ []))
            ≤ 1)
      → Ensures Few (InUnit d) (supersede env active m st)
  unfolding supersede
  supersede-Few active m st u bound =
      let ids = drop_ids (ids_of active) (live s st.working.memories) in
      Ensures-proceed (Live ids) Few (InUnit d) _ _
        (update_each-Live mark_superseded (λ m. refl) (λ m. refl) active st u)
        (λ a st1 w1.
          Ensures-proceed (λ n st'. Live (ids ++ live s (row_of n m ∷ [])) n st') Few (InUnit d) _ _
            (save_memory-Live m ids st1 w1.0 w1.1)
            (λ n st2 w2.
              Ensures-proceed (Live (drop_ids (ids_of active) (live s st2.working.memories))) Few
                (InUnit d) _ _
                (update_each-Live (mark_successor n) (λ m. refl) (λ m. refl) active st2 w2.0)
                (λ a st3 w3. (
                  w3.0,
                  omega (
                    arith,
                    ap length w3.1,
                    length-drop_ids-le (ids_of active) (live s st2.working.memories),
                    ap length w2.1,
                    bound n,
                  ),
                ))))

live_outside :
    (s : Slot) (m : Memory) (n : ℕ) → in_slot s m ≡ false → length (live s (row_of n m ∷ [])) ≡ 0
live_outside s m n h = ground arith

-- The slot of the new row is emptied first, and the others only lose rows.
few_after :
    (s : Slot) (m : Memory) (n : ℕ) (ids kept : List ℕ)
    → length kept ≤ 1
    → (in_slot s m ≡ true → drop_ids ids kept ≡ [])
    → length (drop_ids ids kept ++ live s (row_of n m ∷ [])) ≤ 1
few_after s m n ids kept h cleared = elim (Bool-cases (in_slot s m)) [
  | inl e ↦ rw (cleared e) (length-live_one s (row_of n m))
  | inr e ↦ omega (
    arith,
    length-append (drop_ids ids kept) (live s (row_of n m ∷ [])),
    length-drop_ids-le ids kept,
    live_outside s m n e,
  )
]

-- Whether it ends well or fails, the store is settled and its slots have one active row at most;
-- where it fails, the database is as it was.
abbrev pub Keeps : Db → Tried Memory × Store → Type 0
Keeps d =
    Ensures (λ a st'. IsSettled st' × IsUnique st'.working)
      (λ st'. IsSettled st' × (st'.committed ≡ d))

module _ (env : Env) where
  supersede-IsUnique :
      (m : Memory) (st unit : Store)
      → IsUnique st.working
      → unit.working ≡ st.working
      → InUnit st.committed unit
      → let active = mirror_guard m.project_id (active_rows m st) in
        Ensures
          (λ a st'. InUnit st.committed st' × IsUnique st'.working)
          (InUnit st.committed)
          (supersede env active (record m { supersedes = m.supersedes ++ ids_of active }) unit)
  supersede-IsUnique m st unit unique same u =
      let active = mirror_guard m.project_id (active_rows m st) in
      let m' : Memory = record m { supersedes = m.supersedes ++ ids_of active } in
      let body = supersede env active m' unit in
      let few = λ (s : Slot). supersede-Few env st.committed s active m' unit u (λ n.
        subst
          (λ (db : Db).
            length (drop_ids (ids_of active) (live s db.memories) ++ live s (row_of n m' ∷ [])) ≤ 1)
          (sym same)
          (few_after s m' n (ids_of active) (live s st.working.memories) (unique s)
            (λ e. drop_ids-All _ _ (superseded_covers s m st e)))) in
      Ensures-weaken (λ a st'. (s : Slot) → Few env st.committed s a st') _ (InUnit st.committed)
        body (λ a st' h. ((h (slot_of m)).0, λ s. (h s).1))
        (Ensures-all (λ s. Few env st.committed s) (InUnit st.committed) body (slot_of m) few)

  upsert_from :
      (m : Memory) (st : Store) (o : Option Memory)
      → IsSettled st
      → IsUnique st.committed
      → Keeps st.committed (elim o [
        | some a ↦ (done a, st)
        | none ↦ replace_active env (mirror_guard m.project_id (active_rows m st)) m st
      ])
  unfolding replace_active
  upsert_from m st (some a) settled unique = (settled, subst IsUnique (sym settled.working) unique)
  upsert_from m st none settled unique =
      let active = mirror_guard m.project_id (active_rows m st) in
      let m' : Memory = record m { supersedes = m.supersedes ++ ids_of active } in
      atomic-IsSettled (λ a db. IsUnique db) (supersede env active m') st settled
        (λ unit u same.
          supersede-IsUnique m st unit (subst IsUnique (sym settled.working) unique)
            (same ∙ sym settled.working) u)

  -- From a settled store whose slots have one active row at most, an upsert that returns leaves such
  -- a store, and one that fails, at whatever statement, leaves the database as it was, with no
  -- transaction open.
  pub upsert_memory-Keeps :
      (m : Memory) (st : Store)
      → IsSettled st
      → IsUnique st.committed
      → Keeps st.committed (upsert_memory env m st)
  unfolding upsert_memory
  upsert_memory-Keeps m st settled unique =
      upsert_from m st (covering m (active_rows m st)) settled unique
