-- ===== src/Epoch/Counters/Merge.antt =====
-- The rows of `vpmaxub` give what the plain loop gives.
use fosketch.Prelude.{
  ℕ, zero, suc, ◌*◌, ◌≡◌, refl, sym, ap, ap₂, ◌∙◌, List, [], ◌∷◌, ◌++◌, arith, length, length-drop,
  take, drop, ltb, max, if◌then◌else◌,
}
use fosketch.Light.Blocks.{max_bytes}
use fosketch.Epoch.Counters.{merge_light, merge_light_part_no, test_merge_light_part}

max_bytes-merge_light_part_no :
    (px py : List ℕ) → length px ≡ length py → max_bytes px py ≡ merge_light_part_no px py
unfolding merge_light_part_no
max_bytes-merge_light_part_no [] [] e = refl
max_bytes-merge_light_part_no [] (y ∷ py) e = absurd (omega arith)
max_bytes-merge_light_part_no (x ∷ px) [] e = refl
max_bytes-merge_light_part_no (x ∷ px) (y ∷ py) e =
    ap₂ ◌∷◌ (ground arith) (max_bytes-merge_light_part_no px py (omega arith))

max_bytes-split :
    (n : ℕ) (px py : List ℕ)
    → length px ≡ length py
    → max_bytes px py ≡ max_bytes (take n px) (take n py) ++ max_bytes (drop n px) (drop n py)
max_bytes-split zero px py e = refl
max_bytes-split (suc n) [] [] e = refl
max_bytes-split (suc n) [] (y ∷ py) e = absurd (omega arith)
max_bytes-split (suc n) (x ∷ px) [] e = absurd (omega arith)
max_bytes-split (suc n) (x ∷ px) (y ∷ py) e =
    ap (◌∷◌ (max x y)) (max_bytes-split n px py (omega arith))

merge_light-max_bytes :
    (k : ℕ) (px py : List ℕ)
    → length px ≡ 32 * k
    → length py ≡ 32 * k
    → merge_light k px py ≡ max_bytes px py
unfolding merge_light
merge_light-max_bytes zero [] [] e f = refl
merge_light-max_bytes zero (x ∷ px) py e f = absurd (omega arith)
merge_light-max_bytes zero [] (y ∷ py) e f = absurd (omega arith)
merge_light-max_bytes (suc k) px py e f =
    ap (◌++◌ (max_bytes (take 32 px) (take 32 py))) (
      merge_light-max_bytes k (drop 32 px) (drop 32 py) (omega (arith, length-drop 32 px))
        (omega (arith, length-drop 32 py)))
    ∙ sym (max_bytes-split 32 px py (omega arith))

test_merge_light_part-merge_light_part_no :
    (px py : List ℕ) → test_merge_light_part px py ≡ merge_light_part_no px py
unfolding test_merge_light_part merge_light_part_no
test_merge_light_part-merge_light_part_no [] py = refl
test_merge_light_part-merge_light_part_no (x ∷ px) [] = refl
test_merge_light_part-merge_light_part_no (x ∷ px) (y ∷ py) =
    ap (◌∷◌ (if ltb y x then x else y)) (test_merge_light_part-merge_light_part_no px py)

-- For light parts of `k` rows of 32 bytes the merge by rows gives what the plain loop gives, which is
-- what the loop of conditional moves gives as well.
pub merge_light-merge_light_part_no :
    (k : ℕ) (px py : List ℕ)
    → length px ≡ 32 * k
    → length py ≡ 32 * k
    → (merge_light k px py ≡ merge_light_part_no px py)
      × (test_merge_light_part px py ≡ merge_light_part_no px py)
merge_light-merge_light_part_no k px py e f = (
  merge_light-max_bytes k px py e f ∙ max_bytes-merge_light_part_no px py (omega arith),
  test_merge_light_part-merge_light_part_no px py,
)
