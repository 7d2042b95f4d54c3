-- ===== src/Sorter/OddEven.antt =====
-- `class OddEvenMergeSorter`, Batcher's odd-even merge sort. Its methods change `List` in place, so
-- each takes the array and returns the new one. `fuel` bounds the depth of a recursion or the rounds
-- of the loop; the length of the piece is always enough.
pub mod Lattice
pub mod Pairs
pub mod Merge
pub mod Sorts
use fosketch.Prelude.{
  ℕ, zero, suc, ◌+◌, ◌*◌, ◌/◌, Bool, true, false, Option, none, some, List, ltb, get_elem?, not,
  if◌then◌else◌,
}
use fosketch.Sorter.Order.{Comparator}
use fosketch.Sorter.Exchange as Swap
use fosketch.Sorter.Exchange.{compare}
use fosketch.Sorter.Power.{test_po2}

module _ {ℓ} {A : Type ℓ} (c : Comparator A) where
  -- `for (int i=start; i+r<stop; i+=m) compare(i, i+r);`
  pub compare_pairs : ℕ → (r m stop i : ℕ) → List A → List A
  compare_pairs zero r m stop i a = a
  compare_pairs (suc fuel) r m stop i a = elim (ltb (i + r) stop) [
    | false ↦ a
    | true ↦ compare_pairs fuel r m stop (i + m) (compare c true a i (i + r))
  ]

  pub odd_even_merge : ℕ → (lo n r : ℕ) → List A → List A
  odd_even_merge zero lo n r a = a
  odd_even_merge (suc fuel) lo n r a =
      let m = r * 2 in
      elim (ltb m n) [
        | true ↦
            let a1 = odd_even_merge fuel lo n m a in
            let a2 = odd_even_merge fuel (lo + r) n m a1 in compare_pairs n r m (lo + n) (lo + r) a2
        | false ↦ compare c true a lo (lo + r)
      ]

  pub odd_even_merge_sort : ℕ → (lo n : ℕ) → List A → List A
  odd_even_merge_sort zero lo n a = a
  odd_even_merge_sort (suc fuel) lo n a = elim (ltb 1 n) [
    | false ↦ a
    | true ↦
        let m = n / 2 in
        let a1 = odd_even_merge_sort fuel lo m a in
        let a2 = odd_even_merge_sort fuel (lo + m) m a1 in odd_even_merge n lo n 1 a2
  ]

  -- A length that is no power of two is reported and the array left as it is.
  unfoldable pub sort : List A → ℕ → List A
  unfolding odd_even_merge_sort odd_even_merge compare_pairs
  sort a num =
      if ltb num 2 then a else if not (test_po2 num) then a else odd_even_merge_sort num 0 num a

  unfoldable pub merge : List A → ℕ → List A
  unfolding odd_even_merge compare_pairs
  merge a num =
      if ltb num 2 then a else if not (test_po2 num) then a else odd_even_merge num 0 num 1 a
