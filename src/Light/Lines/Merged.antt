-- ===== src/Light/Lines/Merged.antt =====
-- The blocks of the light part and of the heavy flows as one sorted array.
use native.Mathlib.Nat.{mod-eq_of_lt}
use fosketch.Prelude.{
  ℕ, zero, suc, ◌+◌, ◌-◌, ◌*◌, ◌/◌, ◌%◌, ◌^◌, ◌≤◌, ◌<◌, ◌≡◌, refl, sym, ap, ◌∙◌, List, ◌++◌, Perm,
  some, get_elem?, arith, length, length-append, length-perm, take, drop, take-append, max, get_or,
  get_elem?-append_before, get_elem?-append_behind,
}
use mathlib.Core.Path.{subst}
use fosketch.Sorter.Power.{IsPowerOfTwo, double}
use fosketch.Sorter.Sorted.{IsSorted, Within, Rises}
use fosketch.Sorter.Taken.{take-perm, take-IsSorted}
use fosketch.Sorter.OddEven as OddEven
use fosketch.Sorter.OddEven.Sorts.{merge_halves-IsSorted}
use fosketch.Oram.Block.{Block, by_bid, dummy_flag}
use fosketch.Light.Gather.{number-append, best-append, number-perm, best-perm}
use fosketch.Light.Ascending.{Ascending}
use fosketch.Light.Once.{best-take_front}
use fosketch.Light.Blocks.{n_record, light_blocks}
use fosketch.Light.Blocks.Gathered.{
  bid_of_block, byte_at, best_byte, blocks_with, blocks_with-light_blocks, best_byte-light_blocks,
}
use fosketch.Light.Blocks.Lines.{length-light_blocks}
use fosketch.Light.Lines.Heavy.{IsSorted-bids}

light_bid :
    (pos : ℕ → ℕ) (n i k : ℕ) (light : List ℕ) (x : Block)
    → i + n ≤ 2 ^ 16
    → get_elem? (light_blocks pos n i light) k ≡ some x
    → x.bid ≡ i + k
light_bid pos zero i k light x fits e = absurd (cc)
light_bid pos (suc n) i zero light x fits e =
    let first : Block = record { bid = i % 2 ^ 16; pos = pos i; payload = take n_record light } in
    let same : first ≡ x = cc in
    sym (ap bid_of_block same) ∙ (mod-eq_of_lt {m = 2 ^ 16} (omega arith) ∙ omega arith)
light_bid pos (suc n) i (suc k) light x fits e =
    light_bid pos n (i + 1) k (drop n_record light) x (omega arith) e ∙ omega arith

module _ (nb : ℕ) (few : nb ≤ dummy_flag) (pos : ℕ → ℕ) (light : List ℕ) (num2 : ℕ)
    (lines : List Block) (enough : nb ≤ num2) (full : length lines ≡ num2)
    (sorted : IsSorted by_bid num2 lines) where
  abbrev lights : List Block
  lights = light_blocks pos nb 0 light

  abbrev both : List Block
  both = lights ++ lines

  length-both : length both ≡ nb + num2
  length-both = omega (arith, length-append lights lines, length-light_blocks pos nb 0 light, full)

  lights_rise : Rises by_bid 0 nb both
  unfolding by_bid
  lights_rise i j x y l lt u ei ej =
      let n = length-light_blocks pos nb 0 light in
      let bi =
        light_bid pos nb 0 i light x (omega (arith, few))
          (sym (get_elem?-append_before lights lines i (omega (arith, n))) ∙ ei) in
      let bj =
        light_bid pos nb 0 j light y (omega (arith, few))
          (sym (get_elem?-append_before lights lines j (omega (arith, n))) ∙ ej) in
      ground (arith, bi, bj)

  lines_rise : Rises by_bid nb (nb * 2) both
  lines_rise i j x y l lt u ei ej =
      let n = sym (length-light_blocks pos nb 0 light) in
      let at_i : nb + (i - nb) ≡ i = omega arith in
      let at_j : nb + (j - nb) ≡ j = omega arith in
      sorted (i - nb) (j - nb) x y (omega arith) (omega arith)
        (sym (get_elem?-append_behind lights lines nb (i - nb) n) ∙ (ap (get_elem? both) at_i ∙ ei))
        (sym (get_elem?-append_behind lights lines nb (j - nb) n) ∙ (ap (get_elem? both) at_j ∙ ej))

  module _ (po2 : IsPowerOfTwo nb) (small : nb * 2 ≤ 2 ^ 30) where
    abbrev pub merged : List Block
    merged = OddEven.merge by_bid both (nb * 2)

    merged_lem : IsSorted by_bid (nb * 2) merged × Within 0 (nb * 2) both merged
    merged_lem =
        let half : nb * 2 / 2 ≡ nb = omega arith in
        merge_halves-IsSorted by_bid both (nb * 2) small (omega (arith, length-both))
          (double (omega arith) po2) (subst (λ h. Rises by_bid 0 h both) (sym half) lights_rise)
          (subst (λ h. Rises by_bid h (nb * 2) both) (sym half) lines_rise)

    pub length-merged : length merged ≡ nb + num2
    length-merged = length-perm merged_lem.1.perm ∙ length-both

    -- The first blocks of the merged array are those of the light part and the first of the others.
    pub merged-perm : Perm (take (nb * 2) merged) (lights ++ take nb lines)
    merged-perm =
        let front =
          take-append lights lines (nb * 2) nb
            (omega (arith, length-light_blocks pos nb 0 light)) in
        subst (Perm (take (nb * 2) merged)) front
          (take-perm (nb * 2) both merged (length-perm merged_lem.1.perm) merged_lem.1)

    pub merged-Ascending : Ascending bid_of_block (take (nb * 2) merged)
    merged-Ascending =
        IsSorted-bids _ (take (nb * 2) merged) refl
          (take-IsSorted by_bid (nb * 2) merged merged_lem.0)

    module _ (j : ℕ) (in_block : j < n_record) where
      pub blocks_with-merged :
          (b : ℕ) → b < nb → 1 ≤ blocks_with j in_block b (take (nb * 2) merged)
      blocks_with-merged b lt = omega (
        arith,
        number-perm bid_of_block (byte_at j) b merged-perm,
        number-append bid_of_block (byte_at j) b lights (take nb lines),
        blocks_with-light_blocks j in_block b pos nb 0 light (omega (arith, few)) (omega arith)
            (omega (arith, lt)),
      )

      pub best_byte-merged :
          ((b : ℕ) → b < nb → blocks_with j in_block b lines ≤ 1)
          → (b : ℕ) → b < nb
          → best_byte j in_block b (take (nb * 2) merged)
            ≡ max (get_or light (n_record * b + j) 0) (best_byte j in_block b lines)
      best_byte-merged once b lt =
          let up = IsSorted-bids num2 lines (sym full) sorted in
          let at : 0 + b ≡ b = omega arith in
          omega (
            arith,
            best-perm bid_of_block (byte_at j) b merged-perm,
            best-append bid_of_block (byte_at j) b lights (take nb lines),
            ap (λ k. best_byte j in_block k lights) at,
            best_byte-light_blocks j in_block b pos nb 0 light (omega (arith, few)) lt,
            best-take_front bid_of_block (byte_at j) nb lines up once b lt,
          )
