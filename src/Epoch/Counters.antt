-- ===== src/Epoch/Counters.antt =====
-- The light part of a new epoch: the greater of each two counters, and how many counters have each value.
-- `OPrepareData`, `OAdd256` of FOSketch/Enclave/OPrimitive.h, and the plain versions in
-- FOSketch/Enclave/Enclave.cpp.
pub mod Histogram
pub mod Merge
pub mod Plain
use native.Mathlib.Nat.{mod-lt, mod-eq_of_lt, mod-add-div}
use fosketch.Prelude.{
  ℕ, zero, suc, ◌+◌, ◌-◌, ◌*◌, ◌/◌, ◌%◌, ◌^◌, ◌≤◌, ◌<◌, ◌≡◌, refl, sym, ap, ap₂, ◌∙◌, inl, inr,
  Bool, true, false, Bool-cases, List, [], ◌∷◌, ◌++◌, arith, length, take, drop, set, get_or,
  replicate, ltb, max, AreBytes, ◌==◌, if◌then◌else◌,
}
use fosketch.Sorter.Exchange.{o_move}
use fosketch.Counts.Runs.{occurrences}
use fosketch.Light.Blocks.{max_bytes}

-- The loop over `k` rows of 32 bytes, with `vpmaxub`. What is behind them stays.
pub merge_light : (k : ℕ) (px py : List ℕ) → List ℕ
merge_light zero px py = px
merge_light (suc k) px py =
    max_bytes (take 32 px) (take 32 py) ++ merge_light k (drop 32 px) (drop 32 py)

-- `TestMergeLightPart_NO`, for as many bytes as there are.
pub merge_light_part_no : (px py : List ℕ) → List ℕ
merge_light_part_no [] py = []
merge_light_part_no (x ∷ px) [] = x ∷ px
merge_light_part_no (x ∷ px) (y ∷ py) =
    let z = if ltb y x then x else y in z ∷ merge_light_part_no px py

-- `TestMergeLightPart`
pub test_merge_light_part : (px py : List ℕ) → List ℕ
test_merge_light_part [] py = []
test_merge_light_part (x ∷ px) [] = x ∷ px
test_merge_light_part (x ∷ px) (y ∷ py) = o_move x y (ltb y x) ∷ test_merge_light_part px py

-- `VPADDD` on the eight words of a row: lane `sub` gets `val`, the others 0.
pub add_lanes : (val sub j : ℕ) → List ℕ → List ℕ
add_lanes val sub j [] = []
add_lanes val sub j (w ∷ ws) = (w + o_move val 0 (j == sub)) % 2 ^ 32 ∷ add_lanes val sub (j + 1) ws

-- The loop over the rows from `i` on.
pub add_rows : (rows : ℕ) (val sub group i : ℕ) → List ℕ → List ℕ
unfolding add_lanes
add_rows zero val sub group i arry = arry
add_rows (suc rows) val sub group i arry =
    let here = add_lanes (o_move val 0 (i == group)) sub 0 (take 8 arry) in
    here ++ add_rows rows val sub group (i + 1) (drop 8 arry)

-- `OAdd256`
unfoldable pub o_add_256 : (val index : ℕ) → List ℕ → List ℕ
unfolding add_rows
o_add_256 val index arry = add_rows 32 val (index % 8) (index / 8) 0 arry

-- The loop of `OPrepareData` over the light part.
pub count_light : List ℕ → List ℕ → List ℕ
unfolding o_add_256
count_light [] counts = counts
count_light (v ∷ light) counts = count_light light (o_add_256 1 v counts)

-- `TestLightCountDist_NO`
pub test_light_count_dist_no : List ℕ → List ℕ → List ℕ
test_light_count_dist_no [] counts = counts
test_light_count_dist_no (v ∷ light) counts =
    test_light_count_dist_no light (set counts v ((get_or counts v 0 + 1) % 2 ^ 32))
