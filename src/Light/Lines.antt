-- ===== src/Light/Lines.antt =====
-- `OUpdateCUSketch_BEx` of FOSketch/Enclave/FOSketch.h: the heavy flows' blocks are sorted and merged
-- among themselves first, and then with the blocks of the light part.
pub mod Heavy
pub mod Merged
pub mod Exact
use fosketch.Prelude.{
  ℕ, suc, ◌+◌, ◌-◌, ◌*◌, ◌/◌, Bool, true, List, [], ◌∷◌, ◌++◌, map, length, take, drop, get_or, ltb,
  if◌then◌else◌,
}
use fosketch.Sorter.Power.{test_po2}
use fosketch.Sorter.Bitonic as Bitonic
use fosketch.Sorter.OddEven as OddEven
use fosketch.Counts.{Item}
use fosketch.Oram.Block.{Block, erase_bid, by_bid}
use fosketch.Light.Pass.{max_pass}
use fosketch.Light.Update.{target}
use fosketch.Light.Blocks.{n_record, max_line, light_blocks, heavy_blocks, copy_back}

-- Both sorters are there, and a test chooses.
abbrev pub sort_lines : Bool → List Block → ℕ → List Block
sort_lines po2 lines num =
    if po2 then OddEven.sort by_bid lines num else Bitonic.sort by_bid lines num

abbrev pub merge_lines : Bool → List Block → ℕ → List Block
merge_lines po2 lines num =
    if po2 then OddEven.merge by_bid lines num else Bitonic.merge by_bid lines num

-- The pass over the first `num` blocks.
unfoldable pub max_lines : (num : ℕ) (tmp_b : Block) → List Block → List Block
unfolding max_pass
max_lines num tmp_b lines =
    max_pass (λ (b : Block). b.bid) max_line erase_bid true tmp_b (take num lines) ++ drop num lines

-- `dump2`: the blocks of the heavy flows, behind them `junk` with the id of a dummy.
unfoldable pub heavy_part :
    (pos : ℕ → ℕ) (junk : List Block) (tmp_b : Block) (num1_block : ℕ) (targets : List Item)
    → List Block
unfolding max_lines
heavy_part pos junk tmp_b num1_block targets =
    let num_heavy = length targets in
    let num2_block = if ltb num1_block num_heavy then num_heavy else num1_block in
    let is_heavy_po2 = test_po2 num2_block in
    let dump2 = heavy_blocks pos num1_block targets ++ map erase_bid junk in
    max_lines num_heavy tmp_b (sort_lines is_heavy_po2 dump2 num2_block)

module _ (hash32 : ℕ → ℕ → ℕ) (cus_hash : ℕ) where
  -- `pos` and `junk` stand for what nothing sets, and `tmp_b` for the block of that name at the start;
  -- the second pass finds it as the last block of the first one.
  unfoldable pub o_update_cu_sketch_bex :
      (pos : ℕ → ℕ) (junk : List Block) (tmp_b : Block) (light : List ℕ) → List Item → List ℕ
  unfolding heavy_part max_lines
  o_update_cu_sketch_bex pos junk tmp_b light heavy =
      let num1_block = length light / n_record in
      let targets = map (target hash32 cus_hash (length light)) heavy in
      let num_heavy = length targets in
      let num2_block = if ltb num1_block num_heavy then num_heavy else num1_block in
      let is_light_po2 = test_po2 num1_block in
      let is_heavy_po2 = test_po2 num2_block in
      let passed2 = heavy_part pos junk tmp_b num1_block targets in
      let dump2 = sort_lines is_heavy_po2 passed2 num2_block in
      let dump = light_blocks pos num1_block 0 light ++ dump2 in
      let merged = merge_lines is_light_po2 dump (num1_block * 2) in
      let passed = max_lines (num1_block * 2) (get_or passed2 (num_heavy - 1) tmp_b) merged in
      copy_back (take num1_block (sort_lines is_light_po2 passed (num1_block * 2)))
