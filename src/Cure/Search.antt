-- ===== src/Cure/Search.antt =====
-- `memory_search` and `memory_add` of integration/cure_memory/src/cure_memory/system.py. `lower` is
-- Python's lower casing. A result comes with the score that the source writes into its metadata.
pub mod Ranked
use memory_bridge.Base.{
  ℕ, ◌+◌, Bool, true, false, ◌&&◌, ◌||◌, not, List, [], ◌∷◌, ◌++◌, map, Option, none, some, Str,
  codes, str_eq, is_space, if◌then◌else◌, leb, ltb, ◌==◌, is_empty, keep_if, length,
}
use memory_bridge.Cure.Model.{Memory, ReviewStatus, is_inactive}
use memory_bridge.Cure.Db.{Query}
use memory_bridge.Cure.Store.{Env, Store, Action, list_memories}
use memory_bridge.Cure.System.{upsert_memory}

-- `s.split()`: the words between white space. `word` is the one being read.
unfoldable pub split_from : Str → Str → List Str
split_from word [] = if is_empty word then [] else word ∷ []
split_from word (c ∷ s) =
    let rest = split_from (if is_space c then [] else word ++ c ∷ []) s in
    if is_space c && not (is_empty word) then word ∷ rest else rest

abbrev pub split_words : Str → List Str
split_words s = split_from [] s

unfoldable pub starts_with : Str → Str → Bool
starts_with [] s = true
starts_with (x ∷ t) [] = false
starts_with (x ∷ t) (y ∷ s) = x == y && starts_with t s

-- `term in text`
unfoldable pub contains_text : Str → Str → Bool
contains_text term [] = is_empty term
contains_text term (c ∷ s) = starts_with term (c ∷ s) || contains_text term s

abbrev pub Scored : Type 0
Scored = ℕ × Memory

module _ (lower : Str → Str) where
  -- f"{memory.memory_type} {memory.key} {memory.value}".lower()
  abbrev pub searched_text : Memory → Str
  searched_text m = lower (m.memory_type ++ codes " " ++ m.key ++ codes " " ++ m.value)

  unfoldable pub score : List Str → Memory → ℕ
  score terms m = length (keep_if (λ term. contains_text term (searched_text m)) terms)

-- `scored.sort(key=…, reverse=True)` is stable: an equal score keeps the order of the rows.
unfoldable pub insert_scored : Scored → List Scored → List Scored
insert_scored x [] = x ∷ []
insert_scored x (y ∷ ys) =
    let rest = insert_scored x ys in if leb y.0 x.0 then x ∷ y ∷ ys else y ∷ rest

unfoldable pub rank : List Scored → List Scored
rank [] = []
rank (x ∷ xs) = insert_scored x (rank xs)

unfoldable pub search_query : Str → Option Str → Option ReviewStatus → Query
search_query user_id project_id review_status = record {
  user_id = user_id;
  project_id = project_id;
  review_status = review_status;
  memory_type = none;
  key = none;
}

module _ (lower : Str → Str) where
  unfoldable pub scored : List Str → List Memory → List Scored
  scored terms ms = keep_if (λ x. ltb 0 x.0) (map (λ m. (score lower terms m, m)) ms)

  -- With a query: the rows that match a term, best first.
  unfoldable pub search_ranked : Str → Str → Option Str → Option ReviewStatus → Store → List Scored
  search_ranked user_id query project_id review_status st = rank (
      scored (split_words (lower query))
        (list_memories (search_query user_id project_id review_status) st))

  -- Without one, all rows, unscored.
  unfoldable pub memory_search :
      Str → Option Str → Option Str → Option ReviewStatus → Store → List (Option ℕ × Memory)
  memory_search user_id none project_id review_status st =
      map (λ m. (none, m)) (list_memories (search_query user_id project_id review_status) st)
  memory_search user_id (some query) project_id review_status st =
      if is_empty query
      then map (λ m. (none, m)) (list_memories (search_query user_id project_id review_status) st)
      else map (λ x. (some x.0, x.1)) (search_ranked user_id query project_id review_status st)

-- `source_text` is the JSON text of the one source record, from its type and its time stamp.
module _ (source_text : Str → ℕ → Str) where
  unfoldable pub added_memory :
      Str → Str → Str → Str → Str → Str → Option Str → ReviewStatus → ℕ → Memory
  added_memory user_id memory_type key value confidence source_type project_id review_status now =
      record {
        id = none;
        user_id = user_id;
        project_id = project_id;
        scope = elim project_id [ none ↦ codes "user" | some p ↦ codes "project" ];
        memory_type = memory_type;
        key = key;
        value = value;
        description = memory_type ++ codes ":" ++ key;
        confidence = confidence;
        review_status = review_status;
        source_type = source_type;
        sources = source_text source_type now;
        evidence = value ∷ [];
        sensitivity = codes "private";
        needs_verification = false;
        supersedes = [];
        superseded_by = none;
        created_at = now;
        updated_at = now;
        metadata = codes "{}";
      }

  unfoldable pub memory_add :
      Env → Str → Str → Str → Str → Str → Str → Option Str → ReviewStatus → Action Memory
  memory_add env user_id memory_type key value confidence source_type project_id review_status st =
      upsert_memory env
        (added_memory user_id memory_type key value confidence source_type project_id review_status
          (env.now st.statements))
        st
