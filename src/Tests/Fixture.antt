-- ===== src/Tests/Fixture.antt =====
-- A small integration over scored lines, a configuration and a started backend.
use memory_bridge.Base.{ℕ, Bool, true, false, List, [], ◌∷◌, Option, none, some, leb, Str, codes}
use memory_bridge.Shared.Ids.{run}
use memory_bridge.Shared.Config.{MemoryConfig}
use memory_bridge.Shared.Integration.{Integration}
use memory_bridge.Shared.Annotate.{Net, object, number, new_annotator}
use memory_bridge.Shared.Backend.State.{Backend, TraceState, AnnotationEvent, task, zero_counts}

pub record Note : Type 0 where
  pub line : Str
  pub score : Option ℕ
  pub pinned : Bool

abbrev pub notes : Integration
notes = record {
  Hit = Note;
  Score = ℕ;
  Ref = Str;
  Native = Unit {0};
  score_ge = λ score floor. leb floor score;
  render_line = λ n. n.line;
  hit_score = λ n. n.score;
  hit_origin = λ n. none;
  hit_budget_exempt = λ n. n.pinned;
  hit_is_match = λ n. true;
  memory_ref = λ n. some n.line;
  recall_header = codes "Notes";
  hit_raises = λ hook hit. none;
  header_raises = none;
}

abbrev pub note : Str → ℕ → Note
note line score = record { line = line; score = some score; pinned = false }

abbrev pub config : MemoryConfig ℕ
config = record {
  enabled = true;
  scope = run;
  user_id = codes "minisweagent";
  output_dir = codes "out";
  strict = false;
  max_message_chars = 4000;
  extract_every_n_steps = 10;
  extract_max_consecutive_errors = 3;
  inject_recall = true;
  max_memories = 2;
  max_chars_per_memory = 0;
  max_total_recall_chars = 50;
  recall_min_score = some 2;
  rewrite_every_n_steps = 0;
  rewrite_max_consecutive_errors = 3;
  annotate = true;
  annotate_retries = 1;
  annotate_max_consecutive_errors = 3;
}

abbrev pub hits : List Note
hits =
    note (codes "pin the toolchain") 5
    ∷ note (codes "unrelated") 1
    ∷ note (codes "run the linter before every commit, it is slow") 3
    ∷ note (codes "more") 2
    ∷ []

-- A network whose every attempt is accepted, at cursor 7.
abbrev pub accepting : Net
accepting = record { reply = λ k. object 202 (number 7); clock = λ k. k }

abbrev pub any_events : List (AnnotationEvent notes) → Bool
any_events events = true

abbrev pub traced : TraceState notes
traced = record {
  annotator = new_annotator;
  trace_session_id = some 0;
  session_open = true;
  memory_lane_enabled = true;
  delivery_enabled = true;
  pending_inputs = [];
  pending_search = none;
  outbox = [];
}

abbrev pub started_backend : Backend notes
started_backend = record {
  available = true;
  session_id = none;
  task_text = some (codes "fix the bug");
  current_query = some (codes "fix the bug");
  query_source = task;
  search_dirty = true;
  cached_recall = none;
  cached_anchor = none;
  events = [];
  counts = zero_counts;
  last_extract_bucket = 0;
  consecutive_errors = 0;
  extract_breaker = false;
  finalized = false;
  trace = some traced;
  io_duration = 0;
  recent_messages = [];
  last_rewrite_bucket = 0;
  rewrite_enabled = false;
  rewrite_consecutive_errors = 0;
  rewrite_breaker = false;
  next_id = 1;
  native = tt;
}
