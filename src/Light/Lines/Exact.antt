-- ===== src/Light/Lines/Exact.antt =====
-- `OUpdateCUSketch_BEx` does what the plain merge does, if the number of blocks is a power of two.
use mathlib.Core.Path.{subst}
use mathlib.Core.List.{append-nil}
use fosketch.Prelude.{
  ℕ, ◌^◌, ◌≤◌, ◌<◌, ◌≡◌, refl, sym, ap, ◌∙◌, inl, inr, true, List, [], ◌++◌, Perm, some, get_elem?,
  arith, length, length-perm, length-take, take, drop, take-append_length, lt-length,
}
use fosketch.Sorter.Power.{IsPowerOfTwo}
use fosketch.Sorter.Sorted.{IsSorted, Within}
use fosketch.Sorter.Taken.{take-perm, take-IsSorted, get_elem?-take}
use fosketch.Sorter.OddEven as OddEven
use fosketch.Sorter.OddEven.Sorts.{sort_po2-IsSorted}
use fosketch.Oram.Block.{Block, erase_bid, by_bid, dummy_flag}
use fosketch.Light.Pass.{max_pass}
use fosketch.Light.Gather.{number, best}
use fosketch.Light.Ascending.{Ascending}
use fosketch.Light.Groups.{pass_lookup, length-max_pass}
use fosketch.Light.Sorts.{nonempty-cases}
use fosketch.Light.Blocks.{n_record, max_line}
use fosketch.Light.Blocks.Gathered.{bid_of_block, byte_at, block-Laws, best_byte, blocks_with}
use fosketch.Light.Lines.{max_lines}

-- A pass over the front of an array in which the front is sorted, and a sort of the front.
module _ (nb num : ℕ) (acc : Block) (lines : List Block) (few : nb ≤ dummy_flag)
    (small : num ≤ 2 ^ 30) (po2 : IsPowerOfTwo num) (fits : num ≤ length lines)
    (some_line : 1 ≤ num) (up : Ascending bid_of_block (take num lines)) where
  abbrev front : List Block
  front = take num lines

  abbrev last_lines : List Block
  last_lines = OddEven.sort by_bid (max_lines num acc lines) num

  last-IsSorted : IsSorted by_bid num last_lines × Within 0 num (max_lines num acc lines) last_lines
  last-IsSorted = sort_po2-IsSorted by_bid (max_lines num acc lines) num small po2

  last-perm :
      Perm (take num last_lines) (max_pass bid_of_block max_line erase_bid true acc front ++ [])
  unfolding max_lines
  last-perm =
      let ys = max_pass bid_of_block max_line erase_bid true acc front in
      let n : num ≡ length ys = omega (
        arith,
        length-max_pass bid_of_block max_line erase_bid true acc front,
        length-take num lines,
      ) in
      let p =
        take-perm num (max_lines num acc lines) last_lines (length-perm last-IsSorted.1.perm)
          last-IsSorted.1 in
      subst (Perm (take num last_lines))
        (take-append_length ys (drop num lines) num n ∙ sym (append-nil ys)) p

  pub lines_lookup :
      (j : ℕ) (in_block : j < n_record) (b : ℕ)
      → b < nb
      → ((k : ℕ) → k < nb → 1 ≤ blocks_with j in_block k front)
      → (z : Block) × (get_elem? last_lines b ≡ some z)
        × (byte_at j z ≡ best_byte j in_block b front)
  unfolding by_bid
  lines_lookup j in_block b lt there = elim (nonempty-cases front) [
    | inl e ↦ absurd (omega (arith, ap length e, length-take num lines))
    | inr f ↦
        let (x, l, e) = f in
        let (z, at, key, worth) =
          pass_lookup (block-Laws j) by_bid nb b acc x l [] (take num last_lines) (λ x y. refl) few
            lt (subst (Ascending bid_of_block) e up)
            (λ k less. omega (arith, ap (number bid_of_block (byte_at j) k) e, there k less))
            (λ k less. refl)
            (subst
              (λ m.
                Perm (take num last_lines)
                  (max_pass bid_of_block max_line erase_bid true acc m ++ []))
              e last-perm)
            (take-IsSorted by_bid num last_lines last-IsSorted.0) in
        let inside : b < num =
          omega (arith, lt-length (take num last_lines) b at, length-take num last_lines) in
        (
          z,
          sym (get_elem?-take num last_lines b inside) ∙ at,
          worth ∙ sym (ap (best bid_of_block (byte_at j) b) e),
        )
  ]
