-- ===== src/Cure/Store/Atomic.antt =====
-- Transactions of integration/cure_memory/src/cure_memory/store.py are all or nothing: what a block
-- of statements ensures inside `atomic` holds of the committed database after it, or the database
-- is as it was.
use memory_bridge.Base.{◌+◌, ◌≡◌, refl, Bool, true, false, if◌then◌else◌, ltb, ◌==◌, arith}
use memory_bridge.Cure.Db.{Db}
use memory_bridge.Cure.Store.{
  Env, Store, statement_failed, nested_begin, commit, rollback, Tried, done, failed, Action,
  proceed, write, close_unit, atomic,
}

-- What holds of a result, by how the action ended.
abbrev pub Ensures :
    {A : Type 0} → (A → Store → Type 0) → (Store → Type 0) → Tried A × Store → Type 0
Ensures P F (done a, st) = P a st
Ensures P F (failed e, st) = F st

pub Ensures-proceed :
    {A B : Type 0} (P : A → Store → Type 0) (Q : B → Store → Type 0) (F : Store → Type 0)
    (f : A → Action B) (r : Tried A × Store)
    → Ensures P F r
    → ((a : A) (st : Store) → P a st → Ensures Q F (f a st))
    → Ensures Q F (proceed f r)
Ensures-proceed P Q F f (done a, st) h k = k a st h
Ensures-proceed P Q F f (failed e, st) h k = h

-- Inside an atomic block that started from the committed database `d`.
pub record InUnit (d : Db) (st : Store) : Type 0 where
  pub committed : st.committed ≡ d
  pub depth : st.atomic_depth ≡ 1

-- No transaction is open, and all is committed.
pub record IsSettled (st : Store) : Type 0 where
  pub working : st.working ≡ st.committed
  pub closed : st.in_transaction ≡ false
  pub depth : st.atomic_depth ≡ 0

-- After a statement: inside the block, with the statement's effect on the database `db`.
abbrev pub Wrote : Db → Db → (Db → Db) → {A : Type 0} → A → Store → Type 0
Wrote d db statement a st = InUnit d st × (st.working ≡ statement db)

pub write-InUnit :
    (env : Env) (statement : Db → Db) (d : Db) (st : Store)
    → InUnit d st
    → Ensures (Wrote d st.working statement) (InUnit d) (write env statement st)
unfolding write
write-InUnit env statement d st u =
    go (env.fails st.statements) (st.atomic_depth == 0) (ground (arith, u.depth))
  where
    started : Store
    started = record st { in_transaction = true; statements = st.statements + 1 }

    written : Store
    written = record started { working = statement st.working }

    go :
        (x z : Bool)
        → z ≡ false
        → Ensures (Wrote d st.working statement) (InUnit d) (
            if x
            then (failed statement_failed, if z then rollback started else started)
            else (done tt, if z then commit written else written))
    go true true h = cc
    go true false h = record { committed = u.committed; depth = u.depth }
    go false true h = cc
    go false false h = (record { committed = u.committed; depth = u.depth }, refl)

pub close_unit-IsSettled :
    {A : Type 0} (P : A → Db → Type 0) (d : Db) (r : Tried A × Store)
    → Ensures (λ a st. InUnit d st × P a st.working) (InUnit d) r
    → Ensures
        (λ a st. IsSettled st × P a st.working)
        (λ st. IsSettled st × (st.committed ≡ d))
        (close_unit r)
unfolding close_unit
close_unit-IsSettled P d (done a, st) h =
    (record { working = refl; closed = refl; depth = omega (arith, h.0.depth) }, h.1)
close_unit-IsSettled P d (failed e, st) h =
    (record { working = refl; closed = refl; depth = omega (arith, h.depth) }, h.committed)

-- From a settled store: the store is settled again, with what the block ensures, or with the
-- database as it was where the block failed.
pub atomic-IsSettled :
    {A : Type 0} (P : A → Db → Type 0) (body : Action A) (st : Store)
    → IsSettled st
    → ((unit : Store)
        → InUnit st.committed unit
        → unit.working ≡ st.committed
        → Ensures
            (λ a st'. InUnit st.committed st' × P a st'.working)
            (InUnit st.committed)
            (body unit))
    → Ensures
        (λ a st'. IsSettled st' × P a st'.working)
        (λ st'. IsSettled st' × (st'.committed ≡ st.committed))
        (atomic body st)
unfolding atomic
atomic-IsSettled {A} P body st s h =
    go (ltb 0 st.atomic_depth) st.in_transaction (ground (arith, s.depth)) s.closed
  where
    begun : Store
    begun = record st { in_transaction = true; atomic_depth = st.atomic_depth + 1 }

    unit : InUnit st.committed begun
    unit = record { committed = refl; depth = omega (arith, s.depth) }

    go :
        (x y : Bool)
        → x ≡ false
        → y ≡ false
        → Ensures
            (λ a st'. IsSettled st' × P a st'.working)
            (λ st'. IsSettled st' × (st'.committed ≡ st.committed))
            (if x
              then body st
              else if y
              then (failed nested_begin, st)
              else close_unit (body begun))
    go true y hx hy = cc
    go false true hx hy = cc
    go false false hx hy = close_unit-IsSettled P st.committed (body begun) (h begun unit s.working)

pub Ensures-weaken :
    {A : Type 0} (P Q : A → Store → Type 0) (F : Store → Type 0) (r : Tried A × Store)
    → ((a : A) (st : Store) → P a st → Q a st)
    → Ensures P F r
    → Ensures Q F r
Ensures-weaken P Q F (done a, st) k h = k a st h
Ensures-weaken P Q F (failed e, st) k h = h

-- What holds for every index, of a result whose failure does not depend on it.
pub Ensures-all :
    {A S : Type 0} (P : S → A → Store → Type 0) (F : Store → Type 0) (r : Tried A × Store) (s : S)
    → ((s : S) → Ensures (P s) F r)
    → Ensures (λ a st. (s : S) → P s a st) F r
Ensures-all P F (done a, st) s h = λ t. h t
Ensures-all P F (failed e, st) s h = h s

pub Ensures-fails :
    {A : Type 0} (P : A → Store → Type 0) (F G : Store → Type 0) (r : Tried A × Store)
    → ((st : Store) → F st → G st)
    → Ensures P F r
    → Ensures P G r
Ensures-fails P F G (done a, st) k h = h
Ensures-fails P F G (failed e, st) k h = k st h

pub Ensures-both :
    {A : Type 0} (P Q : A → Store → Type 0) (F G : Store → Type 0) (r : Tried A × Store)
    → Ensures P F r
    → Ensures Q G r
    → Ensures (λ a st. P a st × Q a st) F r
Ensures-both P Q F G (done a, st) h k = (h, k)
Ensures-both P Q F G (failed e, st) h k = h

abbrev pub Trivial : Store → Type 0
Trivial st = Unit

pub Ensures-Trivial : {A : Type 0} (r : Tried A × Store) → Ensures (λ a. Trivial) Trivial r
Ensures-Trivial (done a, st) = tt
Ensures-Trivial (failed e, st) = tt
