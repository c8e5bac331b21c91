-- ===== src/Shared/Integration.antt =====
-- The hooks that an integration plugs into `BaseMemoryBackend`
-- (shared-bridge/src/shared_bridge/backend.py), as an interface. A hook that renders hits has a value,
-- which is read where it returns, and an exception, where it raises; `memory_ref` is `none` where the
-- source's `_memory_ref` raises. Scores are floats: only the test
-- `score >= floor` is used.
use memory_bridge.Base.{Bool, Option, Str}

-- An exception: its class name and its text.
pub record Exn : Type 0 where
  pub class_name : Str
  pub message : Str

-- The hooks that are called on a hit of a recall.
pub data HitHook : Type 0 where
  is_match_hook score_hook line_hook origin_hook exempt_hook : HitHook

pub record Integration : Type 1 where
  pub Hit : Type 0
  pub Score : Type 0
  pub Ref : Type 0
  pub Native : Type 0
  pub score_ge : Score → Score → Bool
  pub render_line : Hit → Str
  pub hit_score : Hit → Option Score
  pub hit_origin : Hit → Option Str
  pub hit_budget_exempt : Hit → Bool
  pub hit_is_match : Hit → Bool
  pub memory_ref : Hit → Option Ref
  pub recall_header : Str
  pub hit_raises : HitHook → Hit → Option Exn
  pub header_raises : Option Exn
