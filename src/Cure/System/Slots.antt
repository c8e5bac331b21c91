-- ===== src/Cure/System/Slots.antt =====
-- The slots of the memory table, (user, repository, type, key), and the ids of their active rows:
-- what the statements of integration/cure_memory/src/cure_memory/store.py do to them.
use mathlib.Core.Option.{some-injective}
use memory_bridge.Base.{
  ℕ, ◌≤◌, ◌≡◌, refl, ◌∙◌, sym, ap, Bool, true, false, ◌&&◌, List, [], ◌∷◌, ◌++◌, Option, none, some,
  Str, str_eq, str_eq_iff, opt_str_eq, if◌then◌else◌, length, All, inl, inr, ◌⊎◌, arith,
}
use memory_bridge.Base.Members.{In, In-keep_if, In-map, has, drop_id}
use memory_bridge.Cure.Model.{Memory}
use memory_bridge.Cure.Db.{
  project_matches, MemoryRow, row_to_memory, update_rows, comes_before, insert_row, order_rows,
  matches, select_memories,
}
use memory_bridge.Cure.Store.{Store, list_memories}
use memory_bridge.Cure.System.{
  is_active, is_general, layer_guard, mirror_guard, upsert_query, active_rows, ids_of,
}

pub record Slot : Type 0 where
  pub user_id : Str
  pub project_id : Option Str
  pub memory_type : Str
  pub key : Str

abbrev pub slot_of : Memory → Slot
slot_of m = record {
  user_id = m.user_id;
  project_id = m.project_id;
  memory_type = m.memory_type;
  key = m.key;
}

abbrev pub in_slot : Slot → Memory → Bool
in_slot s m =
    str_eq m.user_id s.user_id
    && opt_str_eq m.project_id s.project_id
    && str_eq m.memory_type s.memory_type
    && str_eq m.key s.key

-- The ids of the active rows of a slot.
abbrev pub live : Slot → List MemoryRow → List ℕ
live s [] = []
live s (row ∷ rows) =
    let rest = live s rows in
    if is_active row.memory && in_slot s row.memory then row.row_id ∷ rest else rest

-- Rewriting a row with an inactive memory takes it out of every slot, and leaves the others.
pub live-update_rows :
    (s : Slot) (n : ℕ) (m : Memory) (rows : List MemoryRow)
    → is_active m ≡ false
    → live s (update_rows n m rows) ≡ drop_id n (live s rows)
unfolding update_rows
live-update_rows s n m [] h = refl
live-update_rows s n m (row ∷ rows) h = ground (arith, live-update_rows s n m rows h)

pub live-append :
    (s : Slot) (rows : List MemoryRow) (row : MemoryRow)
    → live s (rows ++ row ∷ []) ≡ live s rows ++ live s (row ∷ [])
live-append s [] row = refl
live-append s (r ∷ rows) row = ground (arith, live-append s rows row)

pub length-live_one : (s : Slot) (row : MemoryRow) → length (live s (row ∷ [])) ≤ 1
length-live_one s row = ground arith

In-if :
    (t : Bool) (x : MemoryRow) (xs ys : List MemoryRow)
    → In x xs
    → In x ys
    → In x (if t then xs else ys)
In-if true x xs ys i j = i
In-if false x xs ys i j = j

In-insert_row :
    (x row : MemoryRow) (rows : List MemoryRow) → (x ≡ row) ⊎ In x rows → In x (insert_row row rows)
unfolding insert_row
In-insert_row x row [] h = h
In-insert_row x row (r ∷ rows) (inl e) =
    In-if (comes_before r row) x _ _ (inr (In-insert_row x row rows (inl e))) (inl e)
In-insert_row x row (r ∷ rows) (inr (inl e)) =
    In-if (comes_before r row) x _ _ (inl e) (inr (inl e))
In-insert_row x row (r ∷ rows) (inr (inr i)) =
    In-if (comes_before r row) x _ _ (inr (In-insert_row x row rows (inr i))) (inr (inr i))

In-order_rows : (x : MemoryRow) (rows : List MemoryRow) → In x rows → In x (order_rows rows)
unfolding order_rows
In-order_rows x [] i = i
In-order_rows x (row ∷ rows) (inl e) = In-insert_row x row (order_rows rows) (inl e)
In-order_rows x (row ∷ rows) (inr i) =
    In-insert_row x row (order_rows rows) (inr (In-order_rows x rows i))

has-id :
    (n : ℕ) (o : Option ℕ) (rest : List ℕ)
    → o ≡ some n
    → has n (elim o [ none ↦ rest | some k ↦ k ∷ rest ]) ≡ true
has-id n none rest h = cc
has-id n (some k) rest h = ground arith

has-rest :
    (n : ℕ) (o : Option ℕ) (rest : List ℕ)
    → has n rest ≡ true
    → has n (elim o [ none ↦ rest | some k ↦ k ∷ rest ]) ≡ true
has-rest n none rest h = h
has-rest n (some k) rest h = ground arith

has-ids_of :
    (n : ℕ) (m : Memory) (ms : List Memory) → In m ms → m.id ≡ some n → has n (ids_of ms) ≡ true
unfolding ids_of
has-ids_of n m [] i h = absurd i
has-ids_of n m (x ∷ ms) (inl e) h =
    has-id n x.id (ids_of ms) (sym (ap (λ (y : Memory). y.id) e) ∙ h)
has-ids_of n m (x ∷ ms) (inr i) h = has-rest n x.id (ids_of ms) (has-ids_of n m ms i h)

All-if :
    (P : ℕ → Type 0) (n : ℕ) (x y : Bool) (rest : List ℕ)
    → (x ≡ true → y ≡ true → P n)
    → All P rest
    → All P (if x && y then n ∷ rest else rest)
All-if P n true true rest p h = (p refl refl, h)
All-if P n true false rest p h = h
All-if P n false y rest p h = h

live-All :
    (P : ℕ → Type 0) (s : Slot) (rows : List MemoryRow)
    → ((r : MemoryRow)
        → In r rows
        → is_active r.memory ≡ true
        → in_slot s r.memory ≡ true
        → P r.row_id)
    → All P (live s rows)
live-All P s [] h = tt
live-All P s (row ∷ rows) h =
    All-if P row.row_id (is_active row.memory) (in_slot s row.memory) (live s rows)
      (h row (inl refl)) (live-All P s rows (λ r i. h r (inr i)))

opt_str_eq_iff : (a b : Option Str) → opt_str_eq a b ≡ true → a ≡ b
opt_str_eq_iff none none h = refl
opt_str_eq_iff none (some t) h = cc
opt_str_eq_iff (some s) none h = cc
opt_str_eq_iff (some s) (some t) h = ap some ((str_eq_iff s t).0 h)

both : (a b : Bool) → (a && b) ≡ true → (a ≡ true) × (b ≡ true)
both a b h = ground arith

in_slot_iff : (s : Slot) (m : Memory) → in_slot s m ≡ true → slot_of m ≡ s
in_slot_iff s m h =
    let users = str_eq m.user_id s.user_id in
    let projects = opt_str_eq m.project_id s.project_id in
    let types = str_eq m.memory_type s.memory_type in
    let (h1, key) = both (users && projects && types) (str_eq m.key s.key) h in
    let (h2, type) = both (users && projects) types h1 in
    let (user, project) = both users projects h2 in
    λ i. record {
      user_id = (str_eq_iff m.user_id s.user_id).0 user i;
      project_id = opt_str_eq_iff m.project_id s.project_id project i;
      memory_type = (str_eq_iff m.memory_type s.memory_type).0 type i;
      key = (str_eq_iff m.key s.key).0 key i;
    }

str_eq_of : (s t : Str) → s ≡ t → str_eq s t ≡ true
str_eq_of s t = (str_eq_iff s t).1

project_matches_of : (p q : Option Str) → q ≡ p → project_matches p q ≡ true
project_matches_of none q h = refl
project_matches_of (some t) none h = refl
project_matches_of (some t) (some s) h = str_eq_of s t (some-injective s t h)

all_true :
    (a b c d : Bool) → a ≡ true → b ≡ true → c ≡ true → d ≡ true → (a && b && true && c && d) ≡ true
all_true a b c d ha hb hc hd = ground arith

-- A row of a slot is one that an upsert of the slot asks for.
slot_matches : (m r : Memory) → slot_of r ≡ slot_of m → matches (upsert_query m) r ≡ true
unfolding matches
slot_matches m r h =
    all_true _ _ _ _ (str_eq_of r.user_id m.user_id (ap (λ (s : Slot). s.user_id) h))
      (project_matches_of m.project_id r.project_id (ap (λ (s : Slot). s.project_id) h))
      (str_eq_of r.memory_type m.memory_type (ap (λ (s : Slot). s.memory_type) h))
      (str_eq_of r.key m.key (ap (λ (s : Slot). s.key) h))

general_of : (p : Option Str) → p ≡ none → (elim p [ none ↦ true | some q ↦ false ]) ≡ true
general_of none h = refl
general_of (some q) h = cc

opt_str_eq_of : (p q : Option Str) → p ≡ q → opt_str_eq p q ≡ true
opt_str_eq_of none none h = refl
opt_str_eq_of none (some t) h = cc
opt_str_eq_of (some s) none h = cc
opt_str_eq_of (some s) (some t) h = str_eq_of s t (some-injective s t h)

-- Both guards keep the rows of the candidate's own repository.
In-guards :
    (p : Option Str) (r : Memory) (ms : List Memory)
    → r.project_id ≡ p
    → In r ms
    → In r (mirror_guard p (layer_guard p ms))
unfolding mirror_guard layer_guard
In-guards none r ms h i = In-keep_if is_general r ms i (general_of r.project_id h)
In-guards (some p) r ms h i =
    In-keep_if (λ m. opt_str_eq m.project_id (some p)) r ms i
      (opt_str_eq_of r.project_id (some p) h)

-- The rows that an upsert supersedes are all the active ones of the candidate's slot.
pub superseded_covers :
    (s : Slot) (m : Memory) (st : Store)
    → in_slot s m ≡ true
    → All
        (λ k. has k (ids_of (mirror_guard m.project_id (active_rows m st))) ≡ true)
        (live s st.working.memories)
unfolding active_rows list_memories select_memories
superseded_covers s m st h = live-All _ s st.working.memories (λ r i active inside.
    let same = in_slot_iff s r.memory inside ∙ sym (in_slot_iff s m h) in
    has-ids_of r.row_id (row_to_memory r) _
      (In-guards m.project_id (row_to_memory r) _ (ap (λ (x : Slot). x.project_id) same) (
        In-keep_if is_active (row_to_memory r) _
          (In-map row_to_memory r _ (
            In-order_rows r _ (
              In-keep_if (λ (x : MemoryRow). matches (upsert_query m) x.memory) r _ i
                (slot_matches m r.memory same))))
          active))
      refl)
