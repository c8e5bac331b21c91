-- ===== src/Mem0/Hits.antt =====
-- The mem0 integration of integration/mem0/src/mem0_bridge/backend.py: its settings, its native state
-- and the hooks that read a hit. A hit is the row that the store answers with.
use memory_bridge.Base.{
  ℕ, Bool, true, false, ◌||◌, not, List, [], ◌∷◌, ◌++◌, Option, none, some, Str, codes, str_eq,
  strip, if◌then◌else◌, is_empty,
}
use memory_bridge.Shared.Integration.{Integration}
use memory_bridge.Shared.Backend.State.{Exn}
use memory_bridge.Shared.Json.{Json, null, text, object, Fields, no_fields, field, get, get_or_null}
use memory_bridge.Mem0.Client.{Python, Mem0Error, truthy, text_of}
use memory_bridge.Mem0.Stores.{Store}

-- What one episode's backend is set up with: the store, the scope, the settings of its calls, and what
-- it takes from Python and the shared library.
pub record Mem0 (S : Type 0) : Type 1 where
  pub store : Store S
  pub user_id : Str
  pub infer : Bool
  pub guidelines : Option Str
  pub server_mode : Bool
  pub search_threshold : Str
  pub search_timeout : Option ℕ
  pub recall_header : Str
  pub python : Python
  pub numeral : ℕ → Str
  pub digest : Str → Str
  pub Score : Type 0
  pub score_ge : Score → Score → Bool
  pub normalize_score : Json → Option Score
  pub exn_of : Mem0Error → Exn
  pub event_extensions : Str → Str

-- `_COUNTERS`
pub record MemoryCounts : Type 0 where
  pub memories_added : ℕ
  pub memories_updated : ℕ
  pub memories_deleted : ℕ
  pub search_calls : ℕ

-- The store's state while it is open, and the messages that it has not been given yet.
pub record Native (S : Type 0) : Type 0 where
  pub store : Option S
  pub pending : List (Str × Str)
  pub memory_counts : MemoryCounts

-- A MemoryRef, without the namespace and the scheme, which are the episode's. The content is the text
-- and its digest, or unavailable.
pub record MemoryRef (Score : Type 0) : Type 0 where
  pub item_id : Str
  pub content : Option (Str × Str)
  pub fields : Fields
  pub score : Option Score

abbrev pub is_supported : Str → Bool
is_supported role =
    str_eq role (codes "user") || str_eq role (codes "assistant") || str_eq role (codes "system")

unfoldable pub normalize_role : Str → Str
normalize_role role = if is_supported role then role else codes "user"

abbrev pub should_store : Str → Bool
should_store s = not (is_empty s)

abbrev pub bullet : Str → Str
bullet memory = if is_empty memory then [] else codes "- " ++ memory

unfoldable pub render_line : Json → Str
render_line (object hit) = elim (get_or_null (codes "memory") hit) [
  | text memory ↦ bullet (strip memory)
  | _ ↦ []
]
render_line hit = []

-- `origin if isinstance(origin, str) and origin else None`
abbrev pub origin_text : Json → Option Str
origin_text (text (c ∷ s)) = some (c ∷ s)
origin_text x = none

-- The fields of `keys` that are not None.
unfoldable pub given_among : List Str → Fields → Fields
given_among [] d = no_fields
given_among (key ∷ keys) d = elim (get_or_null key d) [
  | null ↦ given_among keys d
  | x ↦ field key x (given_among keys d)
]

module _ {S : Type 0} (M : Mem0 S) where
  -- `x or y`
  abbrev pub or_value : Json → Json → Json
  or_value x y = if truthy M.python x then x else y

  unfoldable pub hit_origin : Json → Option Str
  hit_origin (object hit) =
      origin_text
        (or_value (get_or_null (codes "run_id") hit) (get_or_null (codes "session_id") hit))
  hit_origin hit = none

  unfoldable pub hit_score : Json → Option M.Score
  hit_score (object hit) = M.normalize_score (get_or_null (codes "score") hit)
  hit_score hit = none

  abbrev pub content_of : Json → Option (Str × Str)
  content_of (text (c ∷ s)) = some (c ∷ s, M.digest (c ∷ s))
  content_of x = none

  -- `none` where the hit has no "id", or is no dict.
  unfoldable pub memory_ref : Json → Option (MemoryRef M.Score)
  memory_ref (object hit) = elim (get (codes "id") hit) [
    | none ↦ none
    | some id ↦ some (record {
      item_id = text_of M.python id;
      content = content_of (get_or_null (codes "memory") hit);
      fields =
          given_among
            (codes "user_id" ∷ codes "run_id" ∷ codes "created_at" ∷ codes "updated_at" ∷ []) hit;
      score = M.normalize_score (get_or_null (codes "score") hit);
    })
  ]
  memory_ref hit = none

  abbrev pub sha_of : MemoryRef M.Score → Option Str
  sha_of ref = elim ref.content [ none ↦ none | some (s, sha) ↦ some sha ]

  unfoldable pub version_of : MemoryRef M.Score → Str
  version_of ref =
      ref.item_id
      ++ codes ":"
      ++ (elim ref.content [ none ↦ codes "unavailable" | some (s, sha) ↦ sha ])

  abbrev pub mem0 : Integration
  mem0 = record {
    Hit = Json;
    Score = M.Score;
    Ref = MemoryRef M.Score;
    Native = Native S;
    score_ge = M.score_ge;
    render_line = render_line;
    hit_score = hit_score;
    hit_origin = hit_origin;
    hit_budget_exempt = λ hit. false;
    hit_is_match = λ hit. true;
    memory_ref = memory_ref;
    recall_header = M.recall_header;
    hit_raises = λ hook hit. none;
    header_raises = none;
  }
