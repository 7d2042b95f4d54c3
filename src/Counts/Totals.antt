-- ===== src/Counts/Totals.antt =====
-- The distributions are right: sorted by size, and with the number of flows of each size.
use mathlib.Core.List.{Permᴰ}
use mathlib.Core.Logic.{∥∥₁_elim}
use native.Mathlib.Nat.{ℕ_set}
use fosketch.Prelude.{
  ℕ, suc, ◌+◌, ◌^◌, ◌≤◌, ◌<◌, ◌≡◌, refl, ap, ◌∙◌, Bool, true, List, [], ◌∷◌, Perm, arith,
  if◌then◌else◌, ◌==◌, length,
}
use fosketch.Sorter.Sorted.{IsSorted, Within}
use fosketch.Sorter.Bitonic as Bitonic
use fosketch.Sorter.Bitonic.Sorts.{sort-IsSorted}
use fosketch.Counts.{
  Item, CDist, max_size, greater_cdist, count_runs, steps_up, sizes, o_item_count_dist_asc,
}
use fosketch.Counts.Runs.{occurrences, total, Grouped, length-count_runs, count_runs-total}

total-Permᴰ : (v : ℕ) {ds es : List CDist} → Permᴰ ds es → total v ds ≡ total v es
total-Permᴰ v Permᴰ.nil = refl
total-Permᴰ v (Permᴰ.cons {b = b} e p) =
    rw e (ap (λ t. (if b.size == v then b.count else 0) + t) (total-Permᴰ v p))
total-Permᴰ v (Permᴰ.swap {a' = a'} {b' = b'} e f) = rw (e, f) (omega arith)
total-Permᴰ v (Permᴰ.trans p q) = total-Permᴰ v p ∙ total-Permᴰ v q

total-perm : (v : ℕ) {ds es : List CDist} → Perm ds es → total v ds ≡ total v es
total-perm v p = ∥∥₁_elim p (ℕ_set _ _) (total-Permᴰ v)

abbrev pub Ascends : List ℕ → Type 0
Ascends [] = Unit {0}
Ascends (x ∷ []) = Unit {0}
Ascends (x ∷ y ∷ l) = (x ≤ y) × Ascends (y ∷ l)

abbrev pub Descends : List ℕ → Type 0
Descends [] = Unit {0}
Descends (x ∷ []) = Unit {0}
Descends (x ∷ y ∷ l) = (y ≤ x) × Descends (y ∷ l)

Ascends-Grouped : (l : List ℕ) → Ascends l → Grouped steps_up l
Ascends-Grouped [] h = tt
Ascends-Grouped (x ∷ []) h = tt
Ascends-Grouped (x ∷ y ∷ l) h = (ground (arith, h.0), Ascends-Grouped (y ∷ l) h.1)

-- The distribution of an array: in ascending order, with the number of occurrences of each size below
-- `MAX_SIZE`.
pub record IsDistribution (ord : List ℕ) (n : ℕ) (dist : List CDist) : Type 0 where
  pub sorted : IsSorted greater_cdist n dist
  pub counted : (v : ℕ) → v < max_size → total v dist ≡ occurrences v ord

of_sorted :
    (ends : ℕ → ℕ → Bool) (ord : List ℕ) (n : ℕ) (dist : List CDist)
    → length ord ≤ 2 ^ 30
    → Grouped ends ord
    → IsSorted greater_cdist n dist × Within 0 n (count_runs ends 0 true ord) dist
    → IsDistribution ord n dist
of_sorted ends ord n dist small g s = record {
  sorted = s.0;
  counted = λ v lt. total-perm v s.1.perm ∙ count_runs-total ends v ord lt (omega arith) g;
}

bitonic-IsDistribution :
    (ends : ℕ → ℕ → Bool) (ord : List ℕ) (n : ℕ)
    → length ord ≡ n
    → n ≤ 2 ^ 30
    → Grouped ends ord
    → IsDistribution ord n (Bitonic.sort greater_cdist (count_runs ends 0 true ord) n)
bitonic-IsDistribution ends ord n len small g =
    let runs = count_runs ends 0 true ord in
    let fits = length-count_runs ends 0 true ord in
    of_sorted ends ord n _ (omega arith) g (sort-IsSorted greater_cdist runs n small (omega arith))

length-sizes : (items : List Item) → length (sizes items) ≡ length items
length-sizes [] = refl
length-sizes (i ∷ items) = ap suc (length-sizes items)

-- For at most 2^30 items in ascending order of size, `OItemCountDist_ASC` gives the distribution of
-- their sizes.
pub o_item_count_dist_asc_lem :
    (items : List Item)
    → length items ≤ 2 ^ 30
    → Ascends (sizes items)
    → IsDistribution (sizes items) (length items) (o_item_count_dist_asc items)
unfolding o_item_count_dist_asc
o_item_count_dist_asc_lem items small h =
    let ord = sizes items in
    bitonic-IsDistribution steps_up ord (length items) (length-sizes items) small
      (Ascends-Grouped ord h)
