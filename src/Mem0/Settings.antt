-- ===== src/Mem0/Settings.antt =====
-- The connection settings of integration/mem0/src/mem0_bridge/backend.py: `_resolve_settings` and
-- `_embedding_quartet`. `env` is the environment, empty for a name that it lacks; `int_of` is
-- Python's `int`, 0 for a negative number and `none` where it raises. The polling settings that the
-- platform copies from the configuration are left out.
pub mod Usable
use memory_bridge.Base.{
  ℕ, zero, suc, Bool, true, false, ◌&&◌, ◌||◌, not, List, [], ◌∷◌, Option, none, some, Str, codes,
  strip, if◌then◌else◌, is_empty, ◌==◌,
}

pub data Mode : Type 0 where
  platform server library : Mode

-- The fields of `Mem0Config` that are read here.
pub record Connection : Type 0 where
  pub mode : Mode
  pub api_key : Str
  pub base_url : Str
  pub server_url : Str
  pub server_api_key : Str
  pub run_root : Str

-- `_BackendUnavailable`, by what its text names.
pub data Unavailable : Type 0 where
  missing_api_key missing_server_url missing_run_root missing_roster : Unavailable
  missing_embedding : List Str → Unavailable
  bad_dimensions : Str → Unavailable

pub record Quartet : Type 0 where
  pub model : Str
  pub api_key : Str
  pub base_url : Str
  pub dimensions : ℕ

pub data Settings : Type 0 where
  platform_settings : Str → Str → Settings
  server_settings : Str → Str → Settings
  library_settings : Str → Str → Str → Str → Quartet → Settings

pub data Resolved (A : Type 0) : Type 0 where
  ready : A → Resolved A
  unavailable : Unavailable → Resolved A

infixl 5 ◌>>=◌
abbrev pub ◌>>=◌ : {A B : Type 0} → Resolved A → (A → Resolved B) → Resolved B
(ready a) >>= f = f a
(unavailable why) >>= f = unavailable why

-- `url.rstrip("/")`
unfoldable pub strip_slashes : Str → Str
strip_slashes [] = []
strip_slashes (c ∷ s) =
    let rest = strip_slashes s in if is_empty rest && c == 47 then [] else c ∷ rest

abbrev pub or_text : Str → Str → Str
or_text s default = if is_empty s then default else s

abbrev pub name_if : Bool → Str → List Str → List Str
name_if b name names = if b then name ∷ names else names

module _ (env : Str → Str) (int_of : Str → Option ℕ) where
  unfoldable pub config_or_env : Str → Str → Str
  config_or_env value name = strip (or_text value (env name))

  abbrev pub embedding_model : Str
  embedding_model = env (codes "EMBEDDING_MODEL")

  abbrev pub embedding_api_key : Str
  embedding_api_key = env (codes "EMBEDDING_API_KEY")

  abbrev pub embedding_base_url : Str
  embedding_base_url = env (codes "EMBEDDING_BASE_URL")

  abbrev pub embedding_dimensions : Str
  embedding_dimensions = env (codes "EMBEDDING_DIMENSIONS")

  unfoldable pub missing_names : List Str
  missing_names = name_if (is_empty embedding_model) (codes "EMBEDDING_MODEL") (
      name_if (is_empty embedding_api_key) (codes "EMBEDDING_API_KEY") (
        name_if (is_empty embedding_base_url) (codes "EMBEDDING_BASE_URL")
          (name_if (is_empty embedding_dimensions) (codes "EMBEDDING_DIMENSIONS") [])))

  unfoldable pub quartet_of : Option ℕ → Resolved Quartet
  quartet_of (some (suc n)) = ready (record {
    model = embedding_model;
    api_key = embedding_api_key;
    base_url = embedding_base_url;
    dimensions = suc n;
  })
  quartet_of dimensions = unavailable (bad_dimensions embedding_dimensions)

  unfoldable pub embedding_quartet : Resolved Quartet
  embedding_quartet =
      if is_empty missing_names
      then quartet_of (int_of embedding_dimensions)
      else unavailable (missing_embedding missing_names)

  unfoldable pub resolve_platform : Connection → Resolved Settings
  resolve_platform c =
      let api_key = config_or_env c.api_key (codes "MEM0_API_KEY") in
      let base_url =
        or_text (config_or_env c.base_url (codes "MEM0_BASE_URL")) (codes "https://api.mem0.ai") in
      if is_empty api_key
      then unavailable missing_api_key
      else ready (platform_settings api_key (strip_slashes base_url))

  unfoldable pub resolve_server : Connection → Resolved Settings
  resolve_server c =
      let server_url = config_or_env c.server_url (codes "MEM0_SERVER_URL") in
      let server_api_key = config_or_env c.server_api_key (codes "MEM0_SERVER_API_KEY") in
      if is_empty server_url
      then unavailable missing_server_url
      else embedding_quartet >>= λ quartet.
          ready (server_settings (strip_slashes server_url) server_api_key)

  -- The roster's own variables, not those that the driver points at the proxy.
  unfoldable pub with_roster : Str → Str → Str → Str → Quartet → Resolved Settings
  with_roster run_root model api_key base_url quartet =
      if is_empty model || is_empty api_key || is_empty base_url
      then unavailable missing_roster
      else ready (library_settings run_root model api_key base_url quartet)

  unfoldable pub resolve_library : Connection → Resolved Settings
  resolve_library c =
      if is_empty c.run_root
      then unavailable missing_run_root
      else embedding_quartet
        >>= with_roster c.run_root (env (codes "MODEL")) (env (codes "API_KEY"))
            (env (codes "BASE_URL"))

  unfoldable pub resolve_by : Mode → Connection → Resolved Settings
  resolve_by platform c = resolve_platform c
  resolve_by server c = resolve_server c
  resolve_by library c = resolve_library c

  unfoldable pub resolve_settings : Connection → Resolved Settings
  resolve_settings c = resolve_by c.mode c
