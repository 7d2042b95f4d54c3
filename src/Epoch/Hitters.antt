-- ===== src/Epoch/Hitters.antt =====
-- The heavy hitters of a new epoch and the answers to requests: `OPrepareData`, `OResponseHeavyHitter` and
-- `OResponseHeavyChange` of FOSketch/Enclave/FOSketch.h.
pub mod Ranks
use fosketch.Prelude.{
  ℕ, zero, suc, ◌+◌, ◌-◌, ◌*◌, ◌/◌, ◌%◌, ◌^◌, Bool, true, false, not, ◌&&◌, Option, none, some,
  List, [], ◌∷◌, ◌++◌, arith, length, take, set, get_or, ltb, ◌==◌, if◌then◌else◌,
}
use fosketch.Sorter.Order.{Comparator}
use fosketch.Sorter.Exchange.{o_move}
use fosketch.Sorter.Power.{test_po2}
use fosketch.Sorter.Bitonic as Bitonic
use fosketch.Sorter.OddEven as OddEven
use fosketch.Counts.{Item}
use fosketch.Delta.{dummy, dummy_flow}

-- `smallerItem`. A sorter with it puts the greatest item first.
unfoldable pub smaller_item : Comparator Item
smaller_item = record {
  greater = λ x y. ltb x.size y.size;
  asym = λ x y h. ground arith;
  trans = λ x y z h k. ground arith;
}

-- The loop that is to reverse the first half, from place `k` on.
pub swap_ends : (rounds k num_heavy : ℕ) → List Item → List Item
swap_ends zero k num_heavy items = items
swap_ends (suc rounds) k num_heavy items =
    let tmp = get_or items k dummy in
    let items' = set items k (get_or items (num_heavy - k) dummy) in
    swap_ends rounds (k + 1) num_heavy (set items' (num_heavy - k) tmp)

-- The two lists of heavy flows as one.
unfoldable pub merge_heavy : (num_heavy : ℕ) (heavy1 heavy2 : List Item) → List Item
unfolding swap_ends
merge_heavy num_heavy heavy1 heavy2 =
    let num = num_heavy * 2 in
    let items = heavy1 ++ heavy2 in
    if test_po2 num
    then OddEven.merge smaller_item items num
    else Bitonic.merge smaller_item (swap_ends (num_heavy / 2) 0 num_heavy items) num

-- `HHCountDistinct`
pub hh_count_distinct : (num_heavy : ℕ) → List Item → ℕ
hh_count_distinct zero items = 0
hh_count_distinct (suc n) [] = 0
hh_count_distinct (suc n) (x ∷ items) =
    let rest = hh_count_distinct n items in
    let cond = not (x.flow_id == 0) && not (x.flow_id == dummy_flow) in o_move 1 0 cond + rest

-- `OResponseHeavyHitter`
unfoldable pub o_response_heavy_hitter : (num_heavy top_k : ℕ) → List Item → List Item
o_response_heavy_hitter num_heavy top_k items =
    take (if ltb num_heavy top_k then num_heavy else top_k) items

-- The loop that counts the items up to the first one below the threshold.
pub count_top : (threshold num_heavy : ℕ) → List Item → ℕ
count_top threshold zero items = 0
count_top threshold (suc n) [] = 0
count_top threshold (suc n) (x ∷ items) =
    let rest = count_top threshold n items in
    if ltb x.size threshold then 0 else (rest + 1) % 2 ^ 16

-- `OResponseHeavyChange`, with the threshold that it computes from `gamma`. `none` is `NULL`.
unfoldable pub o_response_heavy_change : (threshold num_heavy : ℕ) → List Item → Option (List Item)
unfolding count_top
o_response_heavy_change threshold num_heavy items =
    let top_k = count_top threshold num_heavy items in
    if top_k == 0 then none else some (take top_k items)
