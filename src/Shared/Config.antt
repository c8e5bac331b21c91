-- ===== src/Shared/Config.antt =====
-- `MemoryConfig` of shared-bridge/src/shared_bridge/config.py: the fields that the modelled code
-- reads, and its validator. `Score` stands for the floats of a relevance scale.
use memory_bridge.Base.{ℕ, Bool, ◌&&◌, Option, Str, strip, is_empty, if◌then◌else◌}
use memory_bridge.Shared.Ids.{Scope}

pub record MemoryConfig (Score : Type 0) : Type 0 where
  pub enabled : Bool
  pub scope : Scope
  pub user_id : Str
  pub output_dir : Str
  pub strict : Bool
  pub max_message_chars : ℕ
  pub extract_every_n_steps : ℕ
  pub extract_max_consecutive_errors : ℕ
  pub inject_recall : Bool
  pub max_memories : ℕ
  pub max_chars_per_memory : ℕ
  pub max_total_recall_chars : ℕ
  pub recall_min_score : Option Score
  pub rewrite_every_n_steps : ℕ
  pub rewrite_max_consecutive_errors : ℕ
  pub annotate : Bool
  pub annotate_retries : ℕ
  pub annotate_max_consecutive_errors : ℕ

pub data ConfigError : Type 0 where
  blank_user_id missing_output_dir : ConfigError

pub data Validated (Score : Type 0) : Type 0 where
  valid : MemoryConfig Score → Validated Score
  invalid : ConfigError → Validated Score

-- `_validate_identity_and_output`
unfoldable pub validate_identity_and_output :
    {Score : Type 0} → MemoryConfig Score → Validated Score
validate_identity_and_output c =
    let user_id = strip c.user_id in
    let output_dir = strip c.output_dir in
    if is_empty user_id
    then invalid blank_user_id
    else if c.enabled && is_empty output_dir
    then invalid missing_output_dir
    else valid (record c { user_id = user_id; output_dir = output_dir })
