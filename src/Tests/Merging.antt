-- ===== src/Tests/Merging.antt =====
-- Heavy flows that are merged into a light part of three counters.
use fosketch.Prelude.{ℕ, ◌+◌, ◌-◌, ◌^◌, ◌≡◌, refl, List, [], ◌∷◌, arith}
use fosketch.Counts.{Item}
use fosketch.Sorter.Power.{ceil_log2}
use fosketch.Light.Update.{o_update_cu_sketch, update_cu_sketch_no}
use fosketch.Light.Update.Items.{o_update_cu_sketch-update_cu_sketch_no}

abbrev hash : ℕ → ℕ → ℕ
hash flow_id seed = flow_id + seed

-- Two flows go to one counter; one size is too great for a byte.
abbrev heavies : List Item
heavies = record { flow_id = 5; size = 9 } ∷ record { flow_id = 8; size = 300 } ∷ []

abbrev counters : List ℕ
counters = 1 ∷ 20 ∷ 3 ∷ []

abbrev rubbish : List ℕ
rubbish = 77 ∷ 1000 ∷ 5 ∷ []

update_run : update_cu_sketch_no hash 1 counters heavies ≡ 255 ∷ 20 ∷ 3 ∷ []
unfolding update_cu_sketch_no
update_run = refl

padding_length : 3 ≡ 2 ^ ceil_log2 5 - 5
unfolding ceil_log2
padding_length = refl

o_update_cu_sketch-update_cu_sketch_no_example :
    o_update_cu_sketch hash 1 rubbish counters heavies ≡ update_cu_sketch_no hash 1 counters heavies
o_update_cu_sketch-update_cu_sketch_no_example =
    o_update_cu_sketch-update_cu_sketch_no hash 1 rubbish counters heavies
      (omega arith, (omega arith, (omega arith, tt))) (omega arith) (omega arith) padding_length
