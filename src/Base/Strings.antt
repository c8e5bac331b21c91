-- ===== src/Base/Strings.antt =====
-- Python's `str`: a sequence of code points. The literals of the source are written by `codes`.
use Prim.Native.Nat.{ℕ, ◌≤◌}
use Prim.Native.Char.{code}
use Prim.Native.String.{String}
use mathlib.Core.Path.{◌≡◌, refl}
use mathlib.Core.Logic.{◌↔◌}
use mathlib.Core.Bool.{Bool, true, false, ◌&&◌, ◌||◌}
use mathlib.Core.List.{List, [], ◌∷◌, ◌++◌}
use mathlib.Core.Option.{Option, none, some}
use native.Mathlib.Omega.{arith}
use memory_bridge.Base.Tests.{◌==◌, leb, if◌then◌else◌}
use memory_bridge.Base.Lists.{length, is_empty}

abbrev pub Str : Type 0
Str = List ℕ

abbrev pub codes : String → Str
codes String.[] = []
codes (String.◌∷◌ c s) = code c ∷ codes s

-- `a == b` on texts
unfoldable pub str_eq : Str → Str → Bool
str_eq [] [] = true
str_eq [] (y ∷ t) = false
str_eq (x ∷ s) [] = false
str_eq (x ∷ s) (y ∷ t) = (x == y) && str_eq s t

pub str_eq_iff : (s t : Str) → (str_eq s t ≡ true) ↔ (s ≡ t)
unfolding str_eq
str_eq_iff [] [] = ground arith
str_eq_iff [] (y ∷ t) = ground arith
str_eq_iff (x ∷ s) [] = ground arith
str_eq_iff (x ∷ s) (y ∷ t) = ground (arith, str_eq_iff s t)

pub str_eq_refl : (s : Str) → str_eq s s ≡ true
str_eq_refl s = (str_eq_iff s s).1 refl

-- `a == b` where either side may be None
abbrev pub opt_str_eq : Option Str → Option Str → Bool
opt_str_eq none none = true
opt_str_eq none (some t) = false
opt_str_eq (some s) none = false
opt_str_eq (some s) (some t) = str_eq s t

-- The white space of `str.strip`, `str.rstrip` and `str.split`
unfoldable pub is_space : ℕ → Bool
is_space c =
    (leb 9 c && leb c 13)
    || (leb 28 c && leb c 32)
    || c == 133
    || c == 160
    || c == 5760
    || (leb 8192 c && leb c 8202)
    || c == 8232
    || c == 8233
    || c == 8239
    || c == 8287
    || c == 12288

unfoldable pub rstrip : Str → Str
unfolding is_space
rstrip [] = []
rstrip (c ∷ s) = let rest = rstrip s in if is_empty rest && is_space c then [] else c ∷ rest

unfoldable pub lstrip : Str → Str
unfolding is_space
lstrip [] = []
lstrip (c ∷ s) = let rest = lstrip s in if is_space c then rest else c ∷ s

unfoldable pub strip : Str → Str
unfolding lstrip rstrip
strip s = lstrip (rstrip s)

pub length-rstrip-le : (s : Str) → length (rstrip s) ≤ length s
unfolding rstrip
length-rstrip-le [] = omega arith
length-rstrip-le (c ∷ s) = ground (arith, length-rstrip-le s)

-- `s.rpartition(c)`: the parts around the last `c`; `none` where the separator is absent
unfoldable pub rpartition : ℕ → Str → Option (Str × Str)
rpartition c [] = none
rpartition c (x ∷ s) = elim (rpartition c s) [
  | some (head, tail) ↦ some (x ∷ head, tail)
  | none ↦ if x == c then some ([], s) else none
]

-- `sep.join(parts)`
abbrev pub join : Str → List Str → Str
join sep [] = []
join sep (s ∷ []) = s
join sep (s ∷ t ∷ parts) = s ++ sep ++ join sep (t ∷ parts)
