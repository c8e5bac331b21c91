-- ===== src/Cure/Search/Ranked.antt =====
-- What a search returns, and in which order
-- (integration/cure_memory/src/cure_memory/system.py, `memory_search`).
use memory_bridge.Base.{◌≤◌, ◌<◌, ◌≡◌, true, List, [], ◌∷◌, Str, All}
use memory_bridge.Cure.Db.{Query, matches}
use memory_bridge.Cure.Store.{Store}
use memory_bridge.Cure.Search.{Scored, score}

-- Best first.
abbrev pub IsRanked : List Scored → Type 0
IsRanked [] = Unit
IsRanked (x ∷ xs) = All (λ y. y.0 ≤ x.0) xs × IsRanked xs

-- A result of a search: its score is the number of its terms in the row, and not 0; the row was
-- asked for.
pub record IsHit (lower : Str → Str) (terms : List Str) (q : Query) (x : Scored) : Type 0 where
  pub counted : x.0 ≡ score lower terms x.1
  pub positive : 0 < x.0
  pub matching : matches q x.1 ≡ true
