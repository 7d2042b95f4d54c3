-- ===== src/Sorter/Bitonic/Keeps.antt =====
-- The bitonic network keeps the length, the values with their numbers, and all that lies outside
-- the piece that it works on.
use fosketch.Prelude.{
  ℕ, zero, suc, ◌+◌, ◌-◌, ◌/◌, ◌^◌, ◌≤◌, ◌<◌, ◌≡◌, ◌≢◌, refl, inl, inr, Bool, true, false, not,
  List, arith, ltb, ltb→lt, Bool-cases,
}
use fosketch.Prelude.Loops.{for_range}
use fosketch.Sorter.Sorted.{Within, Within-refl, Within-trans, Within-widen}
use fosketch.Sorter.Order.{Comparator}
use fosketch.Sorter.Exchange.{compare, compare-perm, get_elem?-compare_ne}
use fosketch.Sorter.Power.{greatest_power_of_two_less_than, greatest_power_of_two_lem}
use fosketch.Sorter.Bitonic.{compare_range, bitonic_merge, bitonic_sort}

module _ {ℓ} {A : Type ℓ} (c : Comparator A) where
  pub compare-Within :
      (dir : Bool) (a : List A) (i j : ℕ) (lo hi : ℕ)
      → i ≢ j
      → lo ≤ i
      → i < hi
      → lo ≤ j
      → j < hi
      → Within lo hi a (compare c dir a i j)
  compare-Within dir a i j lo hi ne li ih lj jh = record {
    perm = compare-perm c dir a i j ne;
    outside = λ k o. get_elem?-compare_ne c dir a i j k ne (omega arith) (omega arith);
  }

  compare_loop-Within :
      (dir : Bool) (m lo hi count i : ℕ) (a : List A)
      → 0 < m
      → lo ≤ i
      → i + count + m ≤ hi
      → Within lo hi a (for_range count i (λ k s. compare c dir s k (k + m)) a)
  unfolding for_range
  compare_loop-Within dir m lo hi zero i a pos low fits = Within-refl lo hi a
  compare_loop-Within dir m lo hi (suc count) i a pos low fits =
      Within-trans
        (compare-Within dir a i (i + m) lo hi (omega arith) low (omega arith) (omega arith)
          (omega arith))
        (compare_loop-Within dir m lo hi count (i + 1) _ pos (omega arith) (omega arith))

  pub compare_range-Within :
      (dir : Bool) (m lo count hi : ℕ) (a : List A)
      → 0 < m
      → lo + count + m ≤ hi
      → Within lo hi a (compare_range c dir m lo count a)
  unfolding compare_range
  compare_range-Within dir m lo count hi a pos fits =
      compare_loop-Within dir m lo hi count lo a pos (omega arith) fits

  -- The two cases of the recursive methods, as equations.
  pub bitonic_merge_short :
      (fuel lo n : ℕ) (dir : Bool) (a : List A)
      → ltb 1 n ≡ false
      → bitonic_merge c fuel lo n dir a ≡ a
  unfolding bitonic_merge
  bitonic_merge_short zero lo n dir a e = refl
  bitonic_merge_short (suc fuel) lo n dir a e = rw (e, bitonic_merge)

  pub bitonic_merge_long :
      (fuel lo n : ℕ) (dir : Bool) (a : List A)
      → ltb 1 n ≡ true
      → bitonic_merge c (suc fuel) lo n dir a ≡ (
          let m = greatest_power_of_two_less_than n in
          bitonic_merge c fuel
            (lo + m)
            (n - m)
            dir
            (bitonic_merge c fuel lo m dir (compare_range c dir m lo (n - m) a)))
  unfolding bitonic_merge
  bitonic_merge_long fuel lo n dir a e = rw (e, bitonic_merge)

  pub bitonic_sort_short :
      (fuel lo n : ℕ) (dir : Bool) (a : List A)
      → ltb 1 n ≡ false
      → bitonic_sort c fuel lo n dir a ≡ a
  unfolding bitonic_sort
  bitonic_sort_short zero lo n dir a e = refl
  bitonic_sort_short (suc fuel) lo n dir a e = rw (e, bitonic_sort)

  pub bitonic_sort_long :
      (fuel lo n : ℕ) (dir : Bool) (a : List A)
      → ltb 1 n ≡ true
      → bitonic_sort c (suc fuel) lo n dir a
        ≡ bitonic_merge c n lo n dir (
            bitonic_sort c fuel
              (lo + n / 2)
              (n - n / 2)
              dir
              (bitonic_sort c fuel lo (n / 2) (not dir) a))
  unfolding bitonic_sort
  bitonic_sort_long fuel lo n dir a e = rw (e, bitonic_sort)

  pub bitonic_merge-Within :
      (fuel lo n : ℕ) (dir : Bool) (a : List A)
      → n ≤ 2 ^ 30
      → Within lo (lo + n) a (bitonic_merge c fuel lo n dir a)
  bitonic_merge-Within zero lo n dir a small = unfold bitonic_merge in Within-refl lo (lo + n) a
  bitonic_merge-Within (suc fuel) lo n dir a small = elim (Bool-cases (ltb 1 n)) [
    | inr done ↦ rw (bitonic_merge_short (suc fuel) lo n dir a done) (Within-refl lo (lo + n) a)
    | inl more ↦
        let m = greatest_power_of_two_less_than n in
        let two : 2 ≤ n = ltb→lt 1 n more in
        let (p, below, twice) = greatest_power_of_two_lem n two small in
        rw (bitonic_merge_long fuel lo n dir a more) (
          Within-trans
            (compare_range-Within dir m lo (n - m) (lo + n) a (omega arith) (omega arith))
            (Within-trans
              (Within-widen (omega arith) (omega arith)
                (bitonic_merge-Within fuel lo m dir _ (omega arith)))
              (Within-widen (omega arith) (omega arith)
                (bitonic_merge-Within fuel (lo + m) (n - m) dir _ (omega arith)))))
  ]

  pub bitonic_sort-Within :
      (fuel lo n : ℕ) (dir : Bool) (a : List A)
      → n ≤ 2 ^ 30
      → Within lo (lo + n) a (bitonic_sort c fuel lo n dir a)
  bitonic_sort-Within zero lo n dir a small = unfold bitonic_sort in Within-refl lo (lo + n) a
  bitonic_sort-Within (suc fuel) lo n dir a small = elim (Bool-cases (ltb 1 n)) [
    | inr done ↦ rw (bitonic_sort_short (suc fuel) lo n dir a done) (Within-refl lo (lo + n) a)
    | inl more ↦ rw (bitonic_sort_long fuel lo n dir a more) (
        Within-trans
          (Within-widen (omega arith) (omega arith)
            (bitonic_sort-Within fuel lo (n / 2) (not dir) a (omega arith)))
          (Within-trans
            (Within-widen (omega arith) (omega arith)
              (bitonic_sort-Within fuel (lo + n / 2) (n - n / 2) dir _ (omega arith)))
            (bitonic_merge-Within n lo n dir _ small)))
  ]
