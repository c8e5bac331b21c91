-- ===== src/Shared/Recall/Raised.antt =====
-- Where the rendering hooks raise inside the `try` of `recall_context`
-- (shared-bridge/src/shared_bridge/backend.py), in the order in which it calls them.
use memory_bridge.Base.{List, [], ◌∷◌, Option, none, some, Str, is_empty, if◌then◌else◌}
use memory_bridge.Shared.Config.{MemoryConfig}
use memory_bridge.Shared.Integration.{
  Exn, is_match_hook, score_hook, line_hook, origin_hook, exempt_hook, Integration,
}
use memory_bridge.Shared.Recall.{no_lines, select_hits, fill}

-- The first exception ends what comes after it.
abbrev pub or_raise : Option Exn → Option Exn → Option Exn
or_raise none later = later
or_raise (some e) later = some e

module _ (I : Integration) where
  open I use {Hit, Score, render_line, hit_raises, header_raises}

  unfoldable pub first_raise : (Hit → Option Exn) → List Hit → Option Exn
  first_raise raises [] = none
  first_raise raises (hit ∷ hits) = or_raise (raises hit) (first_raise raises hits)

  -- One round of `for hit in selected`: a hit without a line is skipped before its other hooks.
  unfoldable pub round_raises : Hit → Option Exn
  round_raises hit = or_raise (hit_raises line_hook hit) (
      if is_empty (render_line hit)
      then none
      else or_raise (hit_raises origin_hook hit) (hit_raises exempt_hook hit))

  -- The scores are read where there is a floor.
  unfoldable pub floor_raises : Option Score → List Hit → Option Exn
  floor_raises none hits = none
  floor_raises (some floor) hits = first_raise (hit_raises score_hook) hits

  -- The header is read where something is rendered.
  unfoldable pub content_raises : List Hit → Option Exn
  content_raises [] = none
  content_raises (hit ∷ rendered) = header_raises

  unfoldable pub rendering_raises : MemoryConfig Score → Option Str → List Hit → Option Exn
  rendering_raises c session hits =
      let selected = select_hits I c hits in
      or_raise (first_raise (hit_raises is_match_hook) hits) (
        or_raise (floor_raises c.recall_min_score hits) (
          or_raise (first_raise round_raises selected)
            (content_raises (fill I c session (no_lines I) selected).rendered)))
