-- ===== src/Tests/Tables.antt =====
-- A stash table of two buckets with one slot each, and two places in the stash.
use mathlib.Core.List.{Mem, Memᴰ}
use fosketch.Prelude.{ℕ, ◌+◌, ◌*◌, ◌≡◌, refl, true, List, [], ◌∷◌, arith, ap}
use fosketch.Prelude.Loops.{for_range}
use fosketch.Sorter.Power.{test_po2, greatest_power_of_two_less_than}
use fosketch.Sorter.Bitonic as Bitonic
use fosketch.Sorter.Exchange.{compare}
use fosketch.Counts.{Item}
use fosketch.Table.{greater_sp, Shape, Prepared, o_build_s_table}
use fosketch.Table.Reach.{in_reach}
use fosketch.Table.Finds.{o_build_s_table_finds}

abbrev hash : ℕ → ℕ → ℕ
hash flow_id seed = flow_id + seed

abbrev small_shape : Shape
small_shape = record { bucket_num = 2; bucket_size = 1; stash_num = 2 }

abbrev flow : ℕ → ℕ → Item
flow k n = record { flow_id = k; size = n }

abbrev three : List Item
three = flow 50 9 ∷ flow 60 4 ∷ flow 70 7 ∷ []

abbrev junk : List Item
junk = flow 99 1 ∷ flow 98 2 ∷ []

abbrev drawn : ℕ → ℕ
drawn i = i * 3 + 1

build_run : o_build_s_table hash 0 small_shape drawn drawn junk three ≡ record {
  heavy = flow 1 9 ∷ flow 2 4 ∷ flow 3 7 ∷ [];
  built = record {
    table = record {
      slots = flow 2 4 ∷ flow 1 9 ∷ [];
      idc_list = 1 ∷ 1 ∷ [];
      stash = flow 3 7 ∷ [];
    };
    ok = true;
  };
}
unfolding o_build_s_table test_po2 Bitonic.sort greatest_power_of_two_less_than for_range compare
    greater_sp
build_run = refl

built_well : (o_build_s_table hash 0 small_shape drawn drawn junk three).built.ok ≡ true
built_well = ap (λ (p : Prepared). p.built.ok) build_run

third_heavy : Mem (flow 3 7) (o_build_s_table hash 0 small_shape drawn drawn junk three).heavy
unfolding o_build_s_table
third_heavy = ∣ Memᴰ.tail (Memᴰ.tail (Memᴰ.head refl)) ∣₁

o_build_s_table_finds_example :
    Mem (flow 3 7) (
      in_reach small_shape 1
        (o_build_s_table hash 0 small_shape drawn drawn junk three).built.table)
o_build_s_table_finds_example =
    o_build_s_table_finds hash 0 small_shape (omega arith) (omega arith) (omega arith) drawn drawn
      junk three (flow 3 7) refl (omega arith) built_well third_heavy refl
