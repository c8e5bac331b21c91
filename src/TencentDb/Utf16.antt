-- ===== src/TencentDb/Utf16.antt =====
-- `utf16_units` and `clamp_utf16_units` of
-- integration/tencentdb/src/tencentdb_bridge/client.py.
use mathlib.Core.Path.{subst}
use memory_bridge.Base.{
  ℕ, ◌+◌, ◌≤◌, ◌<◌, ◌≡◌, refl, ap, Bool, true, false, [], ◌∷◌, ◌++◌, Str, if◌then◌else◌, ltb, arith,
}

abbrev pub units_of : ℕ → ℕ
units_of c = if ltb 65535 c then 2 else 1

unfoldable pub utf16_units : Str → ℕ
utf16_units [] = 0
utf16_units (c ∷ s) = units_of c + utf16_units s

-- The loop, with the units so far.
unfoldable pub clamp_from : ℕ → ℕ → Str → Str
clamp_from units max_units [] = []
clamp_from units max_units (c ∷ s) =
    let rest = clamp_from (units + units_of c) max_units s in
    if ltb max_units (units + units_of c) then [] else c ∷ rest

unfoldable pub clamp_utf16_units : Str → ℕ → Str
clamp_utf16_units s max_units = clamp_from 0 max_units s

-- The text left is empty, or begins with a character that does not fit.
abbrev pub Tight : ℕ → ℕ → Str → Type 0
Tight used max_units [] = Unit
Tight used max_units (c ∷ rest) = max_units < used + units_of c

-- What is kept of a text, after so many units.
pub record IsClamped (units max_units : ℕ) (s kept : Str) : Type 0 where
  pub fits : units + utf16_units kept ≤ max_units
  pub rest : Str
  pub cut : (kept ++ rest) ≡ s
  pub tight : Tight (units + utf16_units kept) max_units rest

regroup : (a b d : ℕ) → ((a + b) + d) ≡ (a + (b + d))
regroup a b d = omega arith

clamp_from-IsClamped :
    (units max_units : ℕ) (s : Str)
    → units ≤ max_units
    → IsClamped units max_units s (clamp_from units max_units s)
unfolding clamp_from utf16_units
clamp_from-IsClamped units max_units [] h = record {
  fits = omega (arith, h);
  rest = [];
  cut = refl;
  tight = tt;
}
clamp_from-IsClamped units max_units (c ∷ s) h =
    go (ltb max_units (units + units_of c)) refl
      (λ le. clamp_from-IsClamped (units + units_of c) max_units s le)
  where
    go :
        (t : Bool)
        → ltb max_units (units + units_of c) ≡ t
        → (units + units_of c ≤ max_units
            → IsClamped
                (units + units_of c)
                max_units
                s
                (clamp_from (units + units_of c) max_units s))
        → IsClamped units max_units
            (c ∷ s)
            (if t then [] else c ∷ clamp_from (units + units_of c) max_units s)
    go true e again = record {
      fits = omega (arith, h);
      rest = c ∷ s;
      cut = refl;
      tight = ground (arith, e);
    }
    go false e again =
        let w = again (ground (arith, e)) in
        let kept = clamp_from (units + units_of c) max_units s in
        record {
          fits = omega (arith, w.fits);
          rest = w.rest;
          cut = ap (λ (l : Str). c ∷ l) w.cut;
          tight =
              subst (λ (n : ℕ). Tight n max_units w.rest)
                (regroup units (units_of c) (utf16_units kept)) w.tight;
        }

-- The clamped text is a prefix of the text that fits the cap in UTF-16 code units, and no longer one
-- does: the character after it, if there is one, does not fit any more.
pub clamp_utf16_units-IsClamped :
    (s : Str) (max_units : ℕ) → IsClamped 0 max_units s (clamp_utf16_units s max_units)
unfolding clamp_utf16_units
clamp_utf16_units-IsClamped s max_units = clamp_from-IsClamped 0 max_units s (omega arith)
