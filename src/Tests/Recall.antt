-- ===== src/Tests/Recall.antt =====
-- Recall at the fixture's hits: the second is below the floor, and the third has too little room.
use memory_bridge.Base.{◌≤◌, ◌≡◌, refl, ◌⊎◌, List, [], ◌∷◌, none, arith, length, codes}
use memory_bridge.Shared.Recall.{fill, no_lines, select_hits}
use memory_bridge.Shared.Recall.Budget
use memory_bridge.Shared.Recall.Budget.{FirstDrop}
use memory_bridge.Tests.Fixture.{notes, note, config, hits, Note}

abbrev selected : List Note
selected =
    note (codes "pin the toolchain") 5
    ∷ note (codes "run the linter before every commit, it is slow") 3
    ∷ []

select_run : select_hits notes config hits ≡ selected
unfolding select_hits
select_run = refl

fill_run : (fill notes config none (no_lines notes) selected).body ≡ codes "pin the toolchain"
unfolding fill
fill_run = refl

fill-body-le_example : length (fill notes config none (no_lines notes) selected).body ≤ 50
fill-body-le_example =
    Budget.fill-body-le notes config none selected (omega arith) (refl, (refl, tt))

fill-rendered-or-FirstDrop_example :
    ((fill notes config none (no_lines notes) selected).rendered ≡ selected)
    ⊎ FirstDrop notes config none (no_lines notes) selected
fill-rendered-or-FirstDrop_example = Budget.fill-rendered-or-FirstDrop notes config none selected
