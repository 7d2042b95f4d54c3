-- ===== src/Tests/Epochs.antt =====
-- A new epoch of two heavy flows a sketch.
use fosketch.Prelude.{
  ℕ, ◌≤◌, ◌<◌, ◌≡◌, refl, sym, ap, ap₂, ◌∙◌, Option, none, some, List, [], ◌∷◌, ◌++◌, Perm, arith,
  take, get_elem?, get_or, replicate, ltb, leb, ◌==◌, if◌then◌else◌, zero, suc,
}
use fosketch.Sorter.Power.{one, double}
use fosketch.Sorter.Sorted.{IsSorted}
use fosketch.Counts.{Item}
use fosketch.Counts.Runs.{occurrences}
use fosketch.Epoch.Counters.{count_light}
use fosketch.Epoch.Counters.Histogram.{count_light-occurrences}
use fosketch.Epoch.Hitters.{smaller_item, merge_heavy, o_response_heavy_change}
use fosketch.Epoch.Hitters.Ranks.{merge_heavy-IsSorted, o_response_heavy_change_lem}

abbrev heavy : ℕ → ℕ → Item
heavy k n = record { flow_id = k; size = n }

abbrev first_two : List Item
first_two = heavy 1 9 ∷ heavy 2 4 ∷ []

abbrev other_two : List Item
other_two = heavy 3 7 ∷ heavy 4 5 ∷ []

pair-IsSorted : (x y : Item) → ltb x.size y.size ≡ ltb 1 0 → IsSorted smaller_item 2 (x ∷ y ∷ [])
unfolding smaller_item
pair-IsSorted x y e zero (suc zero) a b lt u ea eb =
    let at_a : x.size ≡ a.size = ap size_of_some ea in
    let at_b : y.size ≡ b.size = ap size_of_some eb in sym (ap₂ ltb at_a at_b) ∙ e
  where
    size_of_some : Option Item → ℕ
    size_of_some none = 0
    size_of_some (some i) = i.size
pair-IsSorted x y e zero zero a b lt u ea eb = absurd (omega arith)
pair-IsSorted x y e zero (suc (suc j)) a b lt u ea eb = absurd (omega arith)
pair-IsSorted x y e (suc i) zero a b lt u ea eb = absurd (omega arith)
pair-IsSorted x y e (suc i) (suc j) a b lt u ea eb = absurd (omega arith)

merge_heavy-IsSorted_example :
    IsSorted smaller_item 4 (merge_heavy 2 first_two other_two)
    × Perm (merge_heavy 2 first_two other_two) (first_two ++ other_two)
merge_heavy-IsSorted_example =
    merge_heavy-IsSorted 2 first_two other_two (double refl (one refl)) (omega arith) refl refl
      (pair-IsSorted (heavy 1 9) (heavy 2 4) refl) (pair-IsSorted (heavy 3 7) (heavy 4 5) refl)

o_response_heavy_change_lem_example :
    (k : ℕ) × (o_response_heavy_change 5 2 first_two
      ≡ (if k == 0 then none else some (take k first_two)))
    × (k ≤ 2)
    × ((i : ℕ) (x : Item) → i < 2 → get_elem? first_two i ≡ some x → ltb i k ≡ leb 5 x.size)
o_response_heavy_change_lem_example =
    o_response_heavy_change_lem 5 2 first_two (omega arith)
      (pair-IsSorted (heavy 1 9) (heavy 2 4) refl)

response_run : o_response_heavy_change 5 2 first_two ≡ some (heavy 1 9 ∷ [])
unfolding o_response_heavy_change
response_run = refl

count_light-occurrences_example :
    get_or (count_light (3 ∷ 3 ∷ 7 ∷ []) (replicate 256 0)) 3 0 ≡ occurrences 3 (3 ∷ 3 ∷ 7 ∷ [])
count_light-occurrences_example =
    count_light-occurrences (3 ∷ 3 ∷ 7 ∷ []) 3 (omega arith) (omega arith)
