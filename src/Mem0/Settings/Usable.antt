-- ===== src/Mem0/Settings/Usable.antt =====
-- What settings that resolve have
-- (integration/mem0/src/mem0_bridge/backend.py, `_resolve_settings` and `_embedding_quartet`).
use memory_bridge.Base.{ℕ, ◌<◌, ◌≡◌, false, Option, some, Str, codes, is_empty}
use memory_bridge.Mem0.Settings.{
  Mode, platform, server, library, Quartet, Settings, platform_settings, server_settings,
  library_settings,
}

abbrev pub Filled : Str → Type 0
Filled s = is_empty s ≡ false

module _ (env : Str → Str) (int_of : Str → Option ℕ) where
  -- All four embedding variables are set, and the dimensions read as a number above 0.
  pub record IsEmbeddable : Type 0 where
    pub model : Filled (env (codes "EMBEDDING_MODEL"))
    pub api_key : Filled (env (codes "EMBEDDING_API_KEY"))
    pub base_url : Filled (env (codes "EMBEDDING_BASE_URL"))
    pub dimensions : Filled (env (codes "EMBEDDING_DIMENSIONS"))
    pub read : (n : ℕ) × (int_of (env (codes "EMBEDDING_DIMENSIONS")) ≡ some n) × (0 < n)

  -- The quartet holds what the variables hold.
  pub record IsQuartet (q : Quartet) : Type 0 where
    pub same_model : q.model ≡ env (codes "EMBEDDING_MODEL")
    pub same_key : q.api_key ≡ env (codes "EMBEDDING_API_KEY")
    pub same_url : q.base_url ≡ env (codes "EMBEDDING_BASE_URL")
    pub same_dimensions : int_of (env (codes "EMBEDDING_DIMENSIONS")) ≡ some q.dimensions

  -- The settings of each mode.
  abbrev pub Usable : Mode → Settings → Type 0
  Usable platform (platform_settings api_key base_url) = Filled api_key
  Usable server (server_settings server_url server_api_key) = IsEmbeddable
  Usable library (library_settings run_root model api_key base_url q) =
      Filled run_root × Filled model × Filled api_key × Filled base_url × IsEmbeddable × IsQuartet q
  Usable mode settings = ⊥
