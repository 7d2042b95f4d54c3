-- ===== src/Light/Lines/Heavy.antt =====
-- The heavy flows' blocks, sorted and merged among themselves.
use fosketch.Prelude.{
  ℕ, ◌+◌, ◌-◌, ◌*◌, ◌^◌, ◌≤◌, ◌<◌, ◌≡◌, refl, sym, ◌∙◌, inl, inr, Bool-cases, List, ◌++◌, map,
  arith, length, length-append, length-perm, take, drop, ltb, if◌then◌else◌, length-take,
  length-drop,
}
use fosketch.Sorter.Power.{test_po2, test_po2_iff}
use fosketch.Sorter.Sorted.{IsSorted, Within}
use fosketch.Sorter.Bitonic.Sorts.{sort-IsSorted}
use fosketch.Sorter.OddEven.Sorts.{sort_po2-IsSorted}
use fosketch.Counts.{Item}
use fosketch.Oram.Block.{Block, erase_bid, by_bid, dummy_flag}
use fosketch.Light.Gather.{below, below-append, best-append, best-none}
use fosketch.Light.Ascending.{Ascending, IsSorted-Ascending}
use fosketch.Light.Groups.{length-max_pass}
use fosketch.Light.Once.{pass_once}
use fosketch.Light.Update.{target}
use fosketch.Light.Update.Dump.{greatest, length-map}
use fosketch.Light.Blocks.{n_record, max_line, heavy_blocks}
use fosketch.Light.Blocks.Gathered.{
  bid_of_block, byte_at, block-Laws, best_byte, blocks_with, blocks_with-padding, below-padding,
}
use fosketch.Light.Blocks.Lines.{below-heavy_blocks, best_byte-heavy_blocks, length-heavy_blocks}
use fosketch.Light.Lines.{sort_lines, max_lines, heavy_part}

-- Whichever sorter is taken.
pub sort_lines-IsSorted :
    (lines : List Block) (num : ℕ)
    → num ≤ 2 ^ 30
    → num ≤ length lines
    → let sorted = sort_lines (test_po2 num) lines num in
      IsSorted by_bid num sorted × Within 0 num lines sorted
sort_lines-IsSorted lines num small fits = elim (Bool-cases (test_po2 num)) [
  | inl e ↦ rw e (sort_po2-IsSorted by_bid lines num small ((test_po2_iff num (omega arith)).0 e))
  | inr e ↦ rw e (sort-IsSorted by_bid lines num small fits)
]

pub IsSorted-bids :
    (n : ℕ) (lines : List Block)
    → n ≡ length lines
    → IsSorted by_bid n lines
    → Ascending bid_of_block lines
unfolding by_bid
IsSorted-bids n lines e s = IsSorted-Ascending bid_of_block by_bid n lines (λ x y. refl) e s

pub length-max_lines :
    (num : ℕ) (tmp_b : Block) (lines : List Block)
    → length (max_lines num tmp_b lines) ≡ length lines
unfolding max_lines
length-max_lines num tmp_b lines = omega (
  arith,
  length-append _ (drop num lines),
  length-max_pass bid_of_block max_line erase_bid _ tmp_b (take num lines),
  length-take num lines,
  length-drop num lines,
)

module _ (hash32 : ℕ → ℕ → ℕ) (cus_hash nb mem : ℕ) (whole_blocks : mem ≡ n_record * nb)
    (some_block : 0 < nb) (few : nb ≤ dummy_flag) (pos : ℕ → ℕ) (junk : List Block) (tmp_b : Block)
    (heavy : List Item) where
  abbrev pub targets : List Item
  targets = map (target hash32 cus_hash mem) heavy

  abbrev pub num2_block : ℕ
  num2_block = if ltb nb (length targets) then length targets else nb

  abbrev dump2 : List Block
  dump2 = heavy_blocks pos nb targets ++ map erase_bid junk

  -- `dump2` after its second sort.
  abbrev pub heavy_lines : List Block
  heavy_lines = sort_lines (test_po2 num2_block) (heavy_part pos junk tmp_b nb targets) num2_block

  module _ (some_heavy : 1 ≤ length heavy) (small : num2_block ≤ 2 ^ 30)
      (fill : length junk ≡ num2_block - length targets) where
    length-dump2 : length dump2 ≡ num2_block
    length-dump2 = ground (
      arith,
      length-append (heavy_blocks pos nb targets) (map erase_bid junk),
      length-heavy_blocks pos nb targets,
      length-map erase_bid junk,
    )

    length-heavy_part : length (heavy_part pos junk tmp_b nb targets) ≡ num2_block
    unfolding heavy_part
    length-heavy_part =
        let s1 = sort_lines-IsSorted dump2 num2_block small (omega (arith, length-dump2)) in
        length-max_lines (length targets) tmp_b _ ∙ (length-perm s1.1.perm ∙ length-dump2)

    pub length-heavy_lines : length heavy_lines ≡ num2_block
    length-heavy_lines =
        let s2 =
          sort_lines-IsSorted (heavy_part pos junk tmp_b nb targets) num2_block small
            (omega (arith, length-heavy_part)) in
        length-perm s2.1.perm ∙ length-heavy_part

    pub heavy_lines-IsSorted : IsSorted by_bid num2_block heavy_lines
    heavy_lines-IsSorted =
        (sort_lines-IsSorted (heavy_part pos junk tmp_b nb targets) num2_block small
          (omega (arith, length-heavy_part))).0

    module _ (j : ℕ) (in_block : j < n_record) where
      best_byte-dump2 :
          (b : ℕ) → b < nb → best_byte j in_block b dump2 ≡ greatest (n_record * b + j) targets
      best_byte-dump2 b lt = omega (
        arith,
        best-append bid_of_block (byte_at j) b (heavy_blocks pos nb targets) (map erase_bid junk),
        best_byte-heavy_blocks hash32 cus_hash nb mem whole_blocks some_block few j in_block b pos
            nb heavy,
        best-none bid_of_block (byte_at j) b (map erase_bid junk)
            (blocks_with-padding j in_block b junk (omega (arith, few, lt))),
      )

      below-dump2 : below bid_of_block (byte_at j) nb dump2 ≡ length heavy
      below-dump2 = omega (
        arith,
        below-append bid_of_block (byte_at j) nb (heavy_blocks pos nb targets) (map erase_bid junk),
        below-heavy_blocks hash32 cus_hash nb mem whole_blocks some_block few j pos nb heavy,
        below-padding j in_block nb junk few,
      )

      -- Each block is there at most once, with the greatest of the sizes that go to it.
      pub heavy_lines-once :
          (b : ℕ)
          → b < nb
          → (blocks_with j in_block b heavy_lines ≤ 1)
            × (best_byte j in_block b heavy_lines ≡ greatest (n_record * b + j) targets)
      unfolding heavy_part max_lines
      heavy_lines-once b lt =
          let s1 = sort_lines-IsSorted dump2 num2_block small (omega (arith, length-dump2)) in
          let sorted = sort_lines (test_po2 num2_block) dump2 num2_block in
          let passed = heavy_part pos junk tmp_b nb targets in
          let s2 = sort_lines-IsSorted passed num2_block small (omega (arith, length-heavy_part)) in
          let count = length-map (target hash32 cus_hash mem) heavy in
          let r =
            pass_once (block-Laws j) nb b (length targets) tmp_b dump2 sorted heavy_lines few lt
              s1.1.perm
              (IsSorted-bids num2_block sorted (sym (length-perm s1.1.perm ∙ length-dump2)) s1.0)
              (omega (arith, below-dump2, count)) (omega (arith, count, some_heavy))
              (ground (arith, length-dump2, count, some_heavy)) s2.1.perm in
          (omega (arith, r.0), r.1 ∙ best_byte-dump2 b lt)
