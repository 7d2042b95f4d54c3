-- ===== src/Tests/Moves.antt =====
-- Moves of bytes and differences of item lists.
use fosketch.Prelude.{ℕ, ◌≡◌, refl, true, List, [], ◌∷◌, ◌++◌, replicate}
use fosketch.Counts.{Item}
use fosketch.Sorter.Bytes.{o_move_ex}
use fosketch.Delta.{o_delta}

abbrev zeros : List ℕ
zeros = replicate 40 0

abbrev ones : List ℕ
ones = replicate 40 1

o_move_ex_run : o_move_ex zeros ones true 32 ≡ replicate 32 1 ++ replicate 8 0
unfolding o_move_ex
o_move_ex_run = refl

abbrev flow_7 : Item
flow_7 = record { flow_id = 7; size = 10 }

abbrev flow_7_later : Item
flow_7_later = record { flow_id = 7; size = 14 }

abbrev flow_8 : Item
flow_8 = record { flow_id = 8; size = 3 }

abbrev change_of_7 : Item
change_of_7 = record { flow_id = 7; size = 4 }

o_delta_run : (o_delta 1 (flow_7 ∷ []) (flow_8 ∷ flow_7_later ∷ [])).l1 ≡ change_of_7 ∷ []
unfolding o_delta
o_delta_run = refl
