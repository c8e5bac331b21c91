-- ===== src/Cure/Db.antt =====
-- The two tables of integration/cure_memory/src/cure_memory/store.py, and its SQL statements on
-- them. AUTOINCREMENT hands out ids that were never used.
use memory_bridge.Base.{
  is_empty, codes, ℕ, ◌+◌, Bool, true, ◌&&◌, ◌||◌, List, [], ◌∷◌, ◌++◌, map, Option, none, some,
  Str, str_eq, if◌then◌else◌, ltb, ◌==◌, keep_if,
}
use memory_bridge.Cure.Model.{SessionMessage, Memory, ReviewStatus, status_eq}

pub record MemoryRow : Type 0 where
  pub row_id : ℕ
  pub memory : Memory

pub record MessageRow : Type 0 where
  pub row_id : ℕ
  pub message : SessionMessage

pub record Db : Type 0 where
  pub messages : List MessageRow
  pub memories : List MemoryRow
  pub next_message : ℕ
  pub next_memory : ℕ

-- `value or default`
abbrev pub text_or_default : Str → Str → Str
text_or_default s default = if is_empty s then default else s

-- `_row_to_memory`; an empty list stands for an empty text of one.
abbrev pub row_to_memory : MemoryRow → Memory
row_to_memory row = record row.memory {
  id = some row.row_id;
  sources = text_or_default row.memory.sources (codes "[]");
  sensitivity = text_or_default row.memory.sensitivity (codes "private");
  metadata = text_or_default row.memory.metadata (codes "{}");
}

-- `_row_to_message`
abbrev pub row_to_message : MessageRow → SessionMessage
row_to_message row = record row.message { id = some row.row_id }

-- `INSERT INTO memories`
abbrev pub insert_memory : Memory → Db → Db
insert_memory m db = record db {
  memories = db.memories ++ (record { row_id = db.next_memory; memory = m }) ∷ [];
  next_memory = db.next_memory + 1;
}

-- `INSERT INTO session_messages`
abbrev pub insert_message : SessionMessage → Db → Db
insert_message m db = record db {
  messages = db.messages ++ (record { row_id = db.next_message; message = m }) ∷ [];
  next_message = db.next_message + 1;
}

-- `UPDATE memories … WHERE id = ?`
unfoldable pub update_rows : ℕ → Memory → List MemoryRow → List MemoryRow
update_rows n m [] = []
update_rows n m (row ∷ rows) =
    (if row.row_id == n then record row { memory = m } else row) ∷ update_rows n m rows

abbrev pub update_row : ℕ → Memory → Db → Db
update_row n m db = record db { memories = update_rows n m db.memories }

-- The optional conditions of `list_memories`.
pub record Query : Type 0 where
  pub user_id : Str
  pub project_id : Option Str
  pub review_status : Option ReviewStatus
  pub memory_type : Option Str
  pub key : Option Str

-- `AND column = ?`, where the argument is given
abbrev pub text_matches : Option Str → Str → Bool
text_matches none s = true
text_matches (some t) s = str_eq s t

-- `AND (project_id = ? OR project_id IS NULL)`, where the argument is given
abbrev pub project_matches : Option Str → Option Str → Bool
project_matches none p = true
project_matches (some t) none = true
project_matches (some t) (some s) = str_eq s t

abbrev pub status_matches : Option ReviewStatus → ReviewStatus → Bool
status_matches none s = true
status_matches (some t) s = status_eq s t

unfoldable pub matches : Query → Memory → Bool
matches q m =
    str_eq m.user_id q.user_id
    && project_matches q.project_id m.project_id
    && status_matches q.review_status m.review_status
    && text_matches q.memory_type m.memory_type
    && text_matches q.key m.key

-- `ORDER BY updated_at DESC, id DESC`
abbrev pub comes_before : MemoryRow → MemoryRow → Bool
comes_before a b =
    ltb b.memory.updated_at a.memory.updated_at
    || (b.memory.updated_at == a.memory.updated_at && ltb b.row_id a.row_id)

unfoldable pub insert_row : MemoryRow → List MemoryRow → List MemoryRow
insert_row row [] = row ∷ []
insert_row row (r ∷ rows) =
    let rest = insert_row row rows in if comes_before r row then r ∷ rest else row ∷ r ∷ rows

unfoldable pub order_rows : List MemoryRow → List MemoryRow
order_rows [] = []
order_rows (row ∷ rows) = insert_row row (order_rows rows)

unfoldable pub select_memories : Query → List MemoryRow → List Memory
select_memories q rows = map row_to_memory (order_rows (keep_if (λ r. matches q r.memory) rows))

-- `WHERE session_id = ? AND user_id = ? AND id > ?`; the rows stand in the order of their ids.
abbrev pub in_session : Str → Str → ℕ → MessageRow → Bool
in_session session_id user_id after_id row =
    str_eq row.message.session_id session_id
    && str_eq row.message.user_id user_id
    && ltb after_id row.row_id

unfoldable pub select_messages : Str → Str → ℕ → List MessageRow → List SessionMessage
select_messages session_id user_id after_id rows =
    map row_to_message (keep_if (in_session session_id user_id after_id) rows)
