-- ===== src/Sorter/Bitonic.antt =====
-- `class BitonicSorter`. Its methods change `List` in place, so each takes the array and returns
-- the new one. `fuel` bounds the depth of the recursion on `n`; `n` itself is enough.
pub mod Keeps
pub mod Loop
pub mod Shape
pub mod Merge
pub mod Sorts
use fosketch.Prelude.{
  ℕ, zero, suc, ◌+◌, ◌-◌, ◌/◌, Bool, true, false, not, Option, none, some, List, ltb, ◌==◌,
  if◌then◌else◌,
}
use fosketch.Prelude.Loops.{for_range}
use fosketch.Sorter.Order.{Comparator}
use fosketch.Sorter.Exchange.{compare}
use fosketch.Sorter.Power.{greatest_power_of_two_less_than}

module _ {ℓ} {A : Type ℓ} (c : Comparator A) where
  -- `for (int i=lo; i<lo+count; i++) compare(i, i+m, dir);`
  pub compare_range : Bool → ℕ → ℕ → ℕ → List A → List A
  compare_range dir m lo count a = for_range count lo (λ i s. compare c dir s i (i + m)) a

  pub bitonic_merge : ℕ → ℕ → ℕ → Bool → List A → List A
  bitonic_merge zero lo n dir a = a
  bitonic_merge (suc fuel) lo n dir a = elim (ltb 1 n) [
    | false ↦ a
    | true ↦
        let m = greatest_power_of_two_less_than n in
        let a1 = compare_range dir m lo (n - m) a in
        let a2 = bitonic_merge fuel lo m dir a1 in bitonic_merge fuel (lo + m) (n - m) dir a2
  ]

  pub bitonic_sort : ℕ → ℕ → ℕ → Bool → List A → List A
  bitonic_sort zero lo n dir a = a
  bitonic_sort (suc fuel) lo n dir a = elim (ltb 1 n) [
    | false ↦ a
    | true ↦
        let m = n / 2 in
        let a1 = bitonic_sort fuel lo m (not dir) a in
        let a2 = bitonic_sort fuel (lo + m) (n - m) dir a1 in bitonic_merge n lo n dir a2
  ]

  -- `BitonicSorter::sort` and `BitonicSorter::merge` run in the ascending direction of `greater`;
  -- `isASCE` is stored and never read.
  unfoldable pub sort : List A → ℕ → List A
  unfolding bitonic_sort bitonic_merge compare_range
  sort a num = if ltb num 2 then a else bitonic_sort num 0 num true a

  unfoldable pub merge : List A → ℕ → List A
  unfolding bitonic_merge compare_range
  merge a num = if ltb num 2 then a else bitonic_merge num 0 num true a
