-- ===== src/Tests/Cure.antt =====
-- The CURE memory store and system at concrete inputs.
use memory_bridge.Base.{
  ◌+◌, ◌≡◌, refl, false, List, [], ◌∷◌, map, Option, none, some, Str, codes, str_eq, is_space, ltb,
}
use memory_bridge.Cure.Model.{
  SessionMessage, Memory, ExtractionResult, ReviewStatus, approved, superseded,
}
use memory_bridge.Cure.Db.{
  update_rows, insert_row, order_rows, matches, select_memories, Db, MemoryRow,
}
use memory_bridge.Cure.Store.{
  close_unit, update_at, update_memory, write, save_message, Env, Store, atomic, save_memory,
  list_memories,
}
use memory_bridge.Cure.Store.Atomic.{IsSettled}
use memory_bridge.Cure.System.{
  ids_of, update_each, supersede, replace_active, covering, mirror_guard, layer_guard, active_rows,
  upsert_memory,
}
use memory_bridge.Cure.System.Slots.{length-live_one}
use memory_bridge.Cure.System.Unique
use memory_bridge.Cure.System.Unique.{Keeps}
use memory_bridge.Cure.Session.{System, record_message, extract_runtime_memories}
use memory_bridge.Cure.Session.Checkpoint
use memory_bridge.Cure.Session.Checkpoint.{Moves}
use memory_bridge.Cure.Search.{
  split_from, starts_with, contains_text, insert_scored, rank, scored, added_memory, search_query,
  search_ranked, score, Scored,
}
use memory_bridge.Cure.Search.Ranked

abbrev pub ticking : Env
ticking = record { fails = λ n. false; now = λ n. n + 1 }

-- The second statement fails.
abbrev flaky : Env
flaky = record { fails = λ n. ltb 0 n; now = λ n. n + 1 }

abbrev pub general : Str → Memory
general value =
    added_memory (λ s n. s) (codes "u") (codes "preference") (codes "style") value (codes "0.95")
      (codes "manual") none approved 7

abbrev tabs_row : MemoryRow
tabs_row = record { row_id = 1; memory = general (codes "use tabs") }

abbrev one_memory : Db
one_memory = record { messages = []; memories = tabs_row ∷ []; next_message = 1; next_memory = 2 }

abbrev store : Store
store = record {
  committed = one_memory;
  working = one_memory;
  in_transaction = false;
  atomic_depth = 0;
  statements = 0;
}

store-IsSettled : IsSettled store
store-IsSettled = record { working = refl; closed = refl; depth = refl }

upsert_memory-Keeps_example :
    Keeps one_memory (upsert_memory ticking (general (codes "use spaces")) store)
upsert_memory-Keeps_example =
    Unique.upsert_memory-Keeps ticking (general (codes "use spaces")) store store-IsSettled
      (λ s. length-live_one s tabs_row)

abbrev session : System
session = record {
  store = store;
  session_id = codes "s";
  user_id = codes "u";
  project_id = none;
  checkpoints = [];
}

abbrev pub spoken : System
spoken = (record_message ticking (codes "user") (codes "use spaces") (codes "{}") session).1

abbrev pub finding_spaces : List SessionMessage → List Memory → Option Str → ExtractionResult
finding_spaces batch existing project_id = record {
  candidates = general (codes "use spaces") ∷ [];
  rejections = [];
  to_delete = [];
  errors = [];
  persisted = [];
}

pub spoken-IsSettled : IsSettled spoken.store
unfolding record_message save_message write
spoken-IsSettled = record { working = refl; closed = refl; depth = refl }

extract_runtime_memories-Moves_example :
    Moves spoken (extract_runtime_memories ticking finding_spaces spoken)
extract_runtime_memories-Moves_example =
    Checkpoint.extract_runtime_memories-Moves ticking finding_spaces spoken spoken-IsSettled

-- The tabs row is superseded by the new one, which remembers it.
abbrev statuses : Store → List ReviewStatus
statuses st = map (λ r. r.memory.review_status) st.committed.memories

supersedes_tabs :
    statuses (upsert_memory ticking (general (codes "use spaces")) store).1
    ≡ superseded ∷ approved ∷ []
unfolding upsert_memory active_rows list_memories select_memories matches order_rows insert_row
    layer_guard mirror_guard covering replace_active supersede update_each update_memory update_at
    save_memory write atomic close_unit update_rows ids_of added_memory str_eq
supersedes_tabs = refl

-- A failure at the second statement rolls the first one back.
rolls_back : (upsert_memory flaky (general (codes "use spaces")) store).1.committed ≡ one_memory
unfolding upsert_memory active_rows list_memories select_memories matches order_rows insert_row
    layer_guard mirror_guard covering replace_active supersede update_each update_memory update_at
    save_memory write atomic close_unit update_rows ids_of added_memory str_eq
rolls_back = refl

-- Both terms of the query occur in the row's text.
finds_tabs :
    map
      (λ (x : Scored). x.0)
      (search_ranked (λ s. s) (codes "u") (codes "use tabs ") none (some approved) store)
    ≡ 2 ∷ []
unfolding search_ranked scored rank insert_scored list_memories select_memories matches order_rows
    insert_row score search_query contains_text starts_with split_from added_memory str_eq is_space
finds_tabs = refl
