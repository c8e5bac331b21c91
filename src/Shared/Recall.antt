-- ===== src/Shared/Recall.antt =====
-- The rendering half of `recall_context` of shared-bridge/src/shared_bridge/backend.py: the
-- relevance floor, the `max_memories` slice, and the rank-then-fill loop over the two budgets.
pub mod Budget
pub mod Order
pub mod Raised
use memory_bridge.Base.{
  ℕ, ◌+◌, ◌-◌, ◌≡◌, Bool, true, false, ◌&&◌, List, [], ◌∷◌, ◌++◌, Option, none, some, ltb, leb,
  if◌then◌else◌, length, is_empty, take, keep_if, Str, codes, str_eq, opt_str_eq,
}
use memory_bridge.Shared.Truncate.{cap_line, mark_cut, min_truncated_recall_line_chars}
use memory_bridge.Shared.Ids.{origin_instance}
use memory_bridge.Shared.Config.{MemoryConfig}
use memory_bridge.Shared.Integration.{Integration}

-- `_origin_suffix`; the session id is None before one is minted.
unfoldable pub origin_suffix : Option Str → Option Str → Str
unfolding str_eq origin_instance
origin_suffix session none = []
origin_suffix session (some []) = []
origin_suffix session (some (c ∷ origin)) =
    if opt_str_eq (some (c ∷ origin)) session
    then codes " (from this episode)"
    else elim (origin_instance (c ∷ origin)) [
      | some instance_id ↦ codes " (from earlier episode " ++ instance_id ++ codes ")"
      | none ↦ codes " (from an earlier episode)"
    ]

module _ (I : Integration) where
  open I use {Hit, Score, score_ge, render_line, hit_score, hit_origin, hit_budget_exempt}

  -- The variables of the loop: `body`, `budget`, `rendered` and `origins`.
  pub record Fill : Type 0 where
    pub body : Str
    pub budget : ℕ
    pub rendered : List Hit
    pub origins : List (Option Str)

  abbrev pub no_lines : Fill
  no_lines = record { body = []; budget = 0; rendered = []; origins = [] }

  -- `hit.score is not None and score >= floor`; no floor keeps every hit.
  unfoldable pub meets_floor : Option Score → Hit → Bool
  meets_floor none hit = true
  meets_floor (some floor) hit = elim (hit_score hit) [
    | none ↦ false
    | some score ↦ score_ge score floor
  ]

  unfoldable pub select_hits : MemoryConfig Score → List Hit → List Hit
  unfolding meets_floor
  select_hits c hits = take c.max_memories (keep_if (meets_floor c.recall_min_score) hits)

  -- `1 if body else 0`: the separator before the next line.
  unfoldable pub separator : Str → ℕ
  separator body = if is_empty body then 0 else 1

  -- f"{body}\n{line}" if body else line
  unfoldable pub add_line : Str → Str → Str
  add_line body line = if is_empty body then line else body ++ 10 ∷ line

  unfoldable pub place : Fill → Hit → Option Str → Str → ℕ → Fill
  unfolding add_line
  place acc hit origin line cost = record {
    body = add_line acc.body line;
    budget = acc.budget + cost;
    rendered = acc.rendered ++ hit ∷ [];
    origins = acc.origins ++ origin ∷ [];
  }

  -- The budgeted half of the loop's body, from the total bound on. `remaining` is negative in the
  -- source only where it is 0 here; both are below the floor.
  unfoldable pub place_budgeted : ℕ → Fill → Hit → Option Str → Str → Fill
  unfolding place separator mark_cut
  place_budgeted total acc hit origin line =
      let cost = length line + separator acc.body in
      let remaining = total - acc.budget - separator acc.body in
      let cut = mark_cut remaining line in
      if ltb 0 total && ltb total (acc.budget + cost)
      then (if ltb remaining min_truncated_recall_line_chars
          then acc
          else place acc hit origin cut (length cut + separator acc.body))
      else place acc hit origin line cost

  -- One round of `for hit in selected`.
  unfoldable pub fill_step : MemoryConfig Score → Option Str → Fill → Hit → Fill
  unfolding place_budgeted cap_line origin_suffix
  fill_step c session acc hit =
      let origin = hit_origin hit in
      let line = render_line hit ++ origin_suffix session origin in
      if is_empty (render_line hit)
      then acc
      else if hit_budget_exempt hit
      then place acc hit origin line 0
      else place_budgeted c.max_total_recall_chars acc hit origin
          (cap_line c.max_chars_per_memory line)

  unfoldable pub fill : MemoryConfig Score → Option Str → Fill → List Hit → Fill
  unfolding fill_step
  fill c session acc [] = acc
  fill c session acc (hit ∷ hits) = fill c session (fill_step c session acc hit) hits

  pub record Payload : Type 0 where
    pub content : Str
    pub n_memories : ℕ
    pub chars : ℕ
    pub memories : List Hit
    pub origins : List (Option Str)

  -- f"{self._recall_header()}\n{body}" and the dictionary around it
  unfoldable pub payload_of : Fill → Payload
  payload_of acc =
      let content = I.recall_header ++ 10 ∷ acc.body in
      record {
        content = content;
        n_memories = length acc.rendered;
        chars = length content;
        memories = acc.rendered;
        origins = acc.origins;
      }
