-- ===== src/Shared/Truncate.antt =====
-- The two text caps of shared-bridge/src/shared_bridge/backend.py: `_truncate`, for recorded
-- messages, and the per-memory cap that `recall_context` puts on a rendered line.
use memory_bridge.Base.{
  ℕ, ◌-◌, ◌≤◌, ◌<◌, min, ◌≡◌, ◌&&◌, ◌∷◌, ◌++◌, arith, ltb, leb, if◌then◌else◌, length, take,
  length-take, length-append, length-take-le, Str, codes, rstrip, length-rstrip-le,
}

abbrev pub truncation_marker : Str
truncation_marker = 10 ∷ codes "... [truncated]"

abbrev pub recall_line_truncation : Str
recall_line_truncation = codes " ...[truncated]"

abbrev pub min_truncated_recall_line_chars : ℕ
min_truncated_recall_line_chars = 40

unfoldable pub truncate : Str → ℕ → Str
truncate text limit =
    if leb (length text) limit
    then text
    else if leb limit (length truncation_marker)
    then take limit truncation_marker
    else take (limit - length truncation_marker) text ++ truncation_marker

-- `line[: n - len(marker)].rstrip() + marker`, as both recall caps write it
unfoldable pub mark_cut : ℕ → Str → Str
unfolding rstrip
mark_cut n line = rstrip (take (n - length recall_line_truncation) line) ++ recall_line_truncation

-- The `if per_memory and len(line) > per_memory` block; a limit of 0 is off.
unfoldable pub cap_line : ℕ → Str → Str
unfolding mark_cut
cap_line per_memory line =
    if ltb 0 per_memory && ltb per_memory (length line)
    then (if ltb (length recall_line_truncation) per_memory
        then mark_cut per_memory line
        else take per_memory line)
    else line

-- A truncated text is exactly as long as the text or as the limit, whichever is less, and a text
-- within the limit is left as it is.
pub length-truncate :
    (text : Str) (limit : ℕ)
    → (length (truncate text limit) ≡ min (length text) limit)
      × (length text ≤ limit → truncate text limit ≡ text)
unfolding truncate
length-truncate text limit = (
  ground (
    arith,
    length-take limit truncation_marker,
    length-take (limit - length truncation_marker) text,
    length-append (take (limit - length truncation_marker) text) truncation_marker,
  ),
  λ h. ground arith,
)

-- Truncating twice to one limit is truncating once.
pub truncate_idem :
    (text : Str) (limit : ℕ) → truncate (truncate text limit) limit ≡ truncate text limit
truncate_idem text limit =
    (length-truncate (truncate text limit) limit).1 (omega (arith, length-truncate text limit))

-- A cut line keeps within its limit wherever the marker fits at all.
pub length-mark_cut-le :
    (n : ℕ) (line : Str) → length recall_line_truncation ≤ n → length (mark_cut n line) ≤ n
unfolding mark_cut
length-mark_cut-le n line h = omega (
  arith,
  length-append (rstrip (take (n - length recall_line_truncation) line)) recall_line_truncation,
  length-rstrip-le (take (n - length recall_line_truncation) line),
  length-take-le (n - length recall_line_truncation) line,
)

pub mark_cut_pos : (n : ℕ) (line : Str) → 0 < length (mark_cut n line)
unfolding mark_cut
mark_cut_pos n line = omega (
  arith,
  length-append (rstrip (take (n - length recall_line_truncation) line)) recall_line_truncation,
)

-- The per-memory cap is honoured exactly: no line passes it, however small it is.
pub length-cap_line-le :
    (per_memory : ℕ) (line : Str) → 0 < per_memory → length (cap_line per_memory line) ≤ per_memory
unfolding cap_line
length-cap_line-le per_memory line h =
    ground (arith, length-mark_cut-le per_memory line, length-take-le per_memory line)

pub length-cap_line-le_self :
    (per_memory : ℕ) (line : Str) → length (cap_line per_memory line) ≤ length line
unfolding cap_line
length-cap_line-le_self per_memory line =
    ground (arith, length-mark_cut-le per_memory line, length-take-le per_memory line)

pub cap_line_pos :
    (per_memory : ℕ) (line : Str) → 0 < length line → 0 < length (cap_line per_memory line)
unfolding cap_line
cap_line_pos per_memory line h =
    ground (arith, mark_cut_pos per_memory line, length-take per_memory line)
