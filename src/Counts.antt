-- ===== src/Counts.antt =====
-- Distributions of flow sizes: `OItemCountDist_DESC`, `OItemCountDist_ASC` and `OCountDist` of
-- FOSketch/Enclave/OPrimitive.h, with `Item` and `CDist` of Common/CommonUtil.h.
pub mod Runs
pub mod Totals
use fosketch.Prelude.{
  ℕ, zero, suc, ◌+◌, ◌%◌, ◌^◌, Bool, true, false, List, [], ◌∷◌, map, arith, ltb, length,
  if◌then◌else◌,
}
use fosketch.Sorter.Order.{Comparator}
use fosketch.Sorter.Exchange.{o_move}
use fosketch.Sorter.Power.{test_po2}
use fosketch.Sorter.Bitonic as Bitonic
use fosketch.Sorter.OddEven as OddEven

pub record Item : Type 0 where
  pub flow_id : ℕ
  pub size : ℕ

pub record CDist : Type 0 where
  pub size : ℕ
  pub count : ℕ

-- `MAX_SIZE`, the largest 32-bit word.
abbrev pub max_size : ℕ
max_size = 4294967295

unfoldable pub greater_cdist : Comparator CDist
greater_cdist = record {
  greater = λ x y. ltb y.size x.size;
  asym = λ x y h. ground arith;
  trans = λ x y z h k. ground arith;
}

-- The loop over the array, and the two lines behind it for its last element. `ends x y` is the test
-- that a run ends between two neighbours; every place but the last of a run gets the size `MAX_SIZE`.
pub count_runs : (ends : ℕ → ℕ → Bool) (cur_count : ℕ) (cond : Bool) → List ℕ → List CDist
count_runs ends cur_count cond [] = []
count_runs ends cur_count cond (x ∷ []) =
    record { size = x; count = o_move 1 ((cur_count + 1) % 2 ^ 32) cond } ∷ []
count_runs ends cur_count cond (x ∷ y ∷ l) =
    let cur = o_move 1 ((cur_count + 1) % 2 ^ 32) cond in
    let cond' = ends x y in
    record { size = o_move x max_size cond'; count = cur } ∷ count_runs ends cur cond' (y ∷ l)

-- Neighbours of an ascending array, and of a descending one.
abbrev pub steps_up : ℕ → ℕ → Bool
steps_up x y = ltb x y

abbrev pub steps_down : ℕ → ℕ → Bool
steps_down x y = ltb y x

abbrev pub sizes : List Item → List ℕ
sizes items = map (λ (i : Item). i.size) items

unfoldable pub o_count_dist : List ℕ → List CDist
unfolding count_runs
o_count_dist ord = Bitonic.sort greater_cdist (count_runs steps_up 0 true ord) (length ord)

unfoldable pub o_item_count_dist_asc : List Item → List CDist
unfolding count_runs
o_item_count_dist_asc ord =
    Bitonic.sort greater_cdist (count_runs steps_up 0 true (sizes ord)) (length ord)

unfoldable pub o_item_count_dist_desc : List Item → List CDist
unfolding count_runs
o_item_count_dist_desc ord =
    let dist = count_runs steps_down 0 true (sizes ord) in
    if test_po2 (length ord)
    then OddEven.sort greater_cdist dist (length ord)
    else Bitonic.sort greater_cdist dist (length ord)
