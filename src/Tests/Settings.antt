-- ===== src/Tests/Settings.antt =====
-- The settings of the mem0 integration in an environment that has the embedding variables.
use memory_bridge.Base.{
  ◌-◌, ◌+◌, ◌*◌, ℕ, refl, ◌≡◌, List, [], ◌∷◌, Option, none, some, Str, codes, str_eq, if◌then◌else◌,
  ◌&&◌, leb,
}
use memory_bridge.Mem0.Settings.{
  Mode, Connection, Quartet, Settings, embedding_quartet, missing_names, quartet_of,
  library_settings, unavailable, missing_embedding,
}
use memory_bridge.Mem0.Settings.Usable
use memory_bridge.Mem0.Settings.Usable.{Usable}

unfoldable variable_in : List (Str × Str) → Str → Str
variable_in [] name = []
variable_in ((key, value) ∷ rest) name = if str_eq key name then value else variable_in rest name

unfoldable decimal_from : ℕ → Str → Option ℕ
decimal_from n [] = some n
decimal_from n (c ∷ s) =
    let rest = decimal_from (10 * n + (c - 48)) s in if leb 48 c && leb c 57 then rest else none

unfoldable decimal : Str → Option ℕ
decimal [] = none
decimal (c ∷ s) = decimal_from 0 (c ∷ s)

abbrev variables : List (Str × Str)
variables =
    (codes "MODEL", codes "gpt")
    ∷ (codes "API_KEY", codes "k")
    ∷ (codes "BASE_URL", codes "http://llm")
    ∷ (codes "EMBEDDING_MODEL", codes "emb")
    ∷ (codes "EMBEDDING_API_KEY", codes "k2")
    ∷ (codes "EMBEDDING_BASE_URL", codes "http://emb")
    ∷ (codes "EMBEDDING_DIMENSIONS", codes "384")
    ∷ []

abbrev connection : Mode → Connection
connection mode = record {
  mode = mode;
  api_key = [];
  base_url = [];
  server_url = [];
  server_api_key = [];
  run_root = codes "/runs/1";
}

abbrev quartet : Quartet
quartet = record {
  model = codes "emb";
  api_key = codes "k2";
  base_url = codes "http://emb";
  dimensions = 384;
}

abbrev resolved : Settings
resolved = library_settings (codes "/runs/1") (codes "gpt") (codes "k") (codes "http://llm") quartet

no_dimensions :
    embedding_quartet (variable_in ((codes "EMBEDDING_MODEL", codes "emb") ∷ [])) decimal
    ≡ unavailable (
        missing_embedding (
          codes "EMBEDDING_API_KEY"
          ∷ codes "EMBEDDING_BASE_URL"
          ∷ codes "EMBEDDING_DIMENSIONS"
          ∷ []))
unfolding embedding_quartet missing_names quartet_of variable_in decimal decimal_from str_eq
no_dimensions = refl
