-- ===== src/Tests/Lines.antt =====
-- Heavy flows that are merged into a light part by whole cache lines.
use fosketch.Prelude.{ℕ, ◌+◌, ◌≡◌, refl, List, [], ◌∷◌, ◌++◌, replicate, get_or}
use fosketch.Counts.{Item}
use fosketch.Sorter.Power.{test_po2, greatest_power_of_two_less_than}
use fosketch.Sorter.Bitonic as Bitonic
use fosketch.Sorter.Exchange.{compare}
use fosketch.Prelude.Loops.{for_range}
use fosketch.Oram.Block.{Block, by_bid}
use fosketch.Light.Update.{update_cu_sketch_no}
use fosketch.Light.Lines.{o_update_cu_sketch_bex}

abbrev hash : ℕ → ℕ → ℕ
hash flow_id seed = flow_id + seed

abbrev rubbish : Block
rubbish = record { bid = 3; pos = 9; payload = 255 ∷ 255 ∷ [] }

abbrev places : ℕ → ℕ
places i = i + 17

abbrev two_blocks : List ℕ
two_blocks = replicate 60 1 ++ replicate 60 2

-- Two flows go to the second block, one of them to the counter of the third flow's block.
abbrev three_flows : List Item
three_flows =
    record { flow_id = 70; size = 9 }
    ∷ record { flow_id = 71; size = 300 }
    ∷ record { flow_id = 10; size = 5 }
    ∷ []

-- With three blocks the array is not sorted when it is merged, and the second flow's size is lost.
abbrev three_blocks : List ℕ
three_blocks = replicate 180 0

abbrev one_each : List Item
one_each =
    record { flow_id = 0; size = 5 }
    ∷ record { flow_id = 60; size = 6 }
    ∷ record { flow_id = 120; size = 7 }
    ∷ []

three_run : get_or (o_update_cu_sketch_bex hash 0 places [] rubbish three_blocks one_each) 60 0 ≡ 0
unfolding o_update_cu_sketch_bex test_po2 Bitonic.sort Bitonic.merge greatest_power_of_two_less_than
    for_range compare by_bid
three_run = refl

three_plain_run : get_or (update_cu_sketch_no hash 0 three_blocks one_each) 60 0 ≡ 6
unfolding update_cu_sketch_no
three_plain_run = refl
