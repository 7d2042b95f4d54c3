-- ===== src/Tests/Distribution.antt =====
-- Distributions of small arrays.
use fosketch.Prelude.{ℕ, List, [], ◌∷◌, arith}
use fosketch.Counts.{Item, sizes}
use fosketch.Counts.Totals.{Ascends}

abbrev words : List ℕ
words = 4 ∷ 4 ∷ 7 ∷ []

abbrev rising : List Item
rising =
    record { flow_id = 1; size = 2 }
    ∷ record { flow_id = 2; size = 2 }
    ∷ record { flow_id = 3; size = 5 }
    ∷ []

abbrev sinking : List Item
sinking = record { flow_id = 1; size = 5 } ∷ record { flow_id = 2; size = 2 } ∷ []

rising-Ascends : Ascends (sizes rising)
rising-Ascends = (omega arith, (omega arith, tt))
