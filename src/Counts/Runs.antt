-- ===== src/Counts/Runs.antt =====
-- Each run of equal sizes is counted once, at its last place.
use fosketch.Prelude.{
  ℕ, suc, ◌+◌, ◌%◌, ◌^◌, ◌≤◌, ◌<◌, ◌≡◌, refl, ap, Bool, true, not, List, [], ◌∷◌, arith,
  if◌then◌else◌, ◌==◌, length,
}
use fosketch.Sorter.Exchange.{o_move}
use fosketch.Counts.{CDist, max_size, count_runs}

-- How often a size stands in an array.
abbrev pub occurrences : ℕ → List ℕ → ℕ
occurrences v [] = 0
occurrences v (x ∷ l) = (if x == v then 1 else 0) + occurrences v l

-- What the entries of a size count together.
abbrev pub total : ℕ → List CDist → ℕ
total v [] = 0
total v (d ∷ ds) = (if d.size == v then d.count else 0) + total v ds

-- Between neighbours the test says whether they differ.
abbrev pub Grouped : (ℕ → ℕ → Bool) → List ℕ → Type 0
Grouped ends [] = Unit {0}
Grouped ends (x ∷ []) = Unit {0}
Grouped ends (x ∷ y ∷ l) = (ends x y ≡ not (x == y)) × Grouped ends (y ∷ l)

pub length-count_runs :
    (ends : ℕ → ℕ → Bool) (cur : ℕ) (cond : Bool) (l : List ℕ)
    → length (count_runs ends cur cond l) ≡ length l
unfolding count_runs
length-count_runs ends cur cond [] = refl
length-count_runs ends cur cond (x ∷ []) = refl
length-count_runs ends cur cond (x ∷ y ∷ l) =
    ap suc (length-count_runs ends (o_move 1 ((cur + 1) % 2 ^ 32) cond) (ends x y) (y ∷ l))

total-count_runs :
    (ends : ℕ → ℕ → Bool) (v cur : ℕ) (cond : Bool) (x : ℕ) (l : List ℕ)
    → v < max_size
    → cur + length (x ∷ l) ≤ max_size
    → Grouped ends (x ∷ l)
    → total v (count_runs ends cur cond (x ∷ l))
      ≡ occurrences v (x ∷ l) + (if cond then 0 else if x == v then cur else 0)
unfolding count_runs
total-count_runs ends v cur cond x [] small fits g = ground arith
total-count_runs ends v cur cond x (y ∷ l) small fits g =
    let c = o_move 1 ((cur + 1) % 2 ^ 32) cond in
    let bound : c ≤ cur + 1 = ground arith in
    let ih = total-count_runs ends v c (ends x y) y l small (omega arith) g.1 in
    ground (arith, ih, g.0)

-- The totals are the numbers of occurrences.
pub count_runs-total :
    (ends : ℕ → ℕ → Bool) (v : ℕ) (l : List ℕ)
    → v < max_size
    → length l ≤ max_size
    → Grouped ends l
    → total v (count_runs ends 0 true l) ≡ occurrences v l
unfolding count_runs
count_runs-total ends v [] small fits g = refl
count_runs-total ends v (x ∷ l) small fits g =
    omega (arith, total-count_runs ends v 0 true x l small (omega arith) g)
