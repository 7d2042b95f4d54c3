-- ===== src/Tests/Sorting.antt =====
-- The sorters on small arrays of numbers.
use fosketch.Prelude.{ℕ, zero, suc, ◌+◌, ◌≡◌, ◌≤◌, refl, List, [], ◌∷◌, arith, ltb}
use fosketch.Prelude.Loops.{for_range}
use fosketch.Sorter.Exchange.{compare}
use fosketch.Sorter.Order.{Comparator}
use fosketch.Sorter.Sorted.{IsSorted, Within, Falls, Rises}
use fosketch.Sorter.Power.{IsPowerOfTwo, one, double, test_po2, greatest_power_of_two_less_than}
use fosketch.Sorter.Bitonic as Bitonic
use fosketch.Sorter.Bitonic.Sorts.{sort-IsSorted, merge-IsSorted}
use fosketch.Sorter.OddEven as OddEven
use fosketch.Sorter.OddEven.Sorts.{sort_po2-IsSorted, merge_halves-IsSorted}

abbrev by_value : Comparator ℕ
by_value = record {
  greater = λ x y. ltb y x;
  asym = λ x y h. ground arith;
  trans = λ x y z h k. ground arith;
}

abbrev three : List ℕ
three = 5 ∷ 9 ∷ 2 ∷ []

abbrev four : List ℕ
four = 3 ∷ 8 ∷ 1 ∷ 4 ∷ []

run_three : Bitonic.sort by_value three 3 ≡ 2 ∷ 5 ∷ 9 ∷ []
unfolding Bitonic.sort greatest_power_of_two_less_than for_range compare
run_three = refl

run_four : OddEven.sort by_value four 4 ≡ 1 ∷ 3 ∷ 4 ∷ 8 ∷ []
unfolding OddEven.sort test_po2 compare
run_four = refl

po2_four : IsPowerOfTwo 4
po2_four = double refl (double refl (one refl))

sort-IsSorted_example :
    IsSorted by_value 3 (Bitonic.sort by_value three 3)
    × Within 0 3 three (Bitonic.sort by_value three 3)
sort-IsSorted_example = sort-IsSorted by_value three 3 (omega arith) (omega arith)

abbrev valley : List ℕ
valley = 7 ∷ 2 ∷ 5 ∷ []

valley-Falls : Falls by_value 0 2 valley
valley-Falls zero zero x y l u v ei ej = absurd (omega arith)
valley-Falls zero (suc zero) x y l u v ei ej = ground arith
valley-Falls zero (suc (suc j)) x y l u v ei ej = absurd (omega arith)
valley-Falls (suc i) j x y l u v ei ej = absurd (omega arith)

valley-Rises : Rises by_value 2 3 valley
valley-Rises i j x y l u v ei ej = absurd (omega arith)

merge-IsSorted_example :
    IsSorted by_value 3 (Bitonic.merge by_value valley 3)
    × Within 0 3 valley (Bitonic.merge by_value valley 3)
merge-IsSorted_example =
    merge-IsSorted by_value valley 3 2 (omega arith) (omega arith) (omega arith) valley-Falls
      valley-Rises

sort_po2-IsSorted_example :
    IsSorted by_value 4 (OddEven.sort by_value four 4)
    × Within 0 4 four (OddEven.sort by_value four 4)
sort_po2-IsSorted_example = sort_po2-IsSorted by_value four 4 (omega arith) po2_four

abbrev halves : List ℕ
halves = 6 ∷ 3 ∷ []

halves_rise : (lo hi : ℕ) → hi ≤ lo + 1 → Rises by_value lo hi halves
halves_rise lo hi short i j x y l u v ei ej = absurd (omega arith)

merge_halves-IsSorted_example :
    IsSorted by_value 2 (OddEven.merge by_value halves 2)
    × Within 0 2 halves (OddEven.merge by_value halves 2)
merge_halves-IsSorted_example =
    merge_halves-IsSorted by_value halves 2 (omega arith) (omega arith) (double refl (one refl))
      (halves_rise 0 1 (omega arith)) (halves_rise 1 2 (omega arith))

three_other : ¬ IsPowerOfTwo 3
three_other (one e) = absurd (omega arith)
three_other (double e p) = absurd (omega arith)
