-- ===== src/Epoch/Counters/Plain.antt =====
-- The plain loop `TestLightCountDist_NO` counts the same.
use native.Mathlib.Nat.{mod-eq_of_lt}
use fosketch.Prelude.{
  ℕ, zero, suc, ◌+◌, ◌%◌, ◌^◌, ◌<◌, ◌≡◌, refl, ap, ◌∙◌, List, [], ◌∷◌, arith, length, length-set,
  set, get_or, replicate, AreBytes, ◌==◌, if◌then◌else◌, Bool-cases, inl, inr,
}
use fosketch.Counts.Runs.{occurrences}
use fosketch.Epoch.Counters.{count_light, test_light_count_dist_no}
use fosketch.Epoch.Counters.Histogram.{count_light-occurrences, zero_counts}

get_or-set :
    (xs : List ℕ) (i j y : ℕ)
    → i < length xs
    → get_or (set xs i y) j 0 ≡ (if i == j then y else get_or xs j 0)
get_or-set [] i j y lt = absurd (omega arith)
get_or-set (x ∷ xs) zero zero y lt = refl
get_or-set (x ∷ xs) zero (suc j) y lt = ground arith
get_or-set (x ∷ xs) (suc i) zero y lt = ground arith
get_or-set (x ∷ xs) (suc i) (suc j) y lt = ground (arith, get_or-set xs i j y (omega arith))

test_light_count_dist_no-adds :
    (light counts : List ℕ) (v : ℕ)
    → AreBytes light
    → length counts ≡ 256
    → get_or counts v 0 + length light < 2 ^ 32
    → get_or (test_light_count_dist_no light counts) v 0 ≡ get_or counts v 0 + occurrences v light
unfolding test_light_count_dist_no
test_light_count_dist_no-adds [] counts v bytes full few = omega arith
test_light_count_dist_no-adds (x ∷ light) counts v bytes full few =
    let sum = (get_or counts x 0 + 1) % 2 ^ 32 in
    let counts' = set counts x sum in
    let inside : x < length counts = omega (arith, full, bytes.0) in
    let full' : length counts' ≡ 256 = length-set counts x sum ∙ full in
    let put = get_or-set counts x v sum inside in
    elim (Bool-cases (x == v)) [
      | inl e ↦
          let same : x ≡ v = ground (arith, e) in
          let old : get_or counts x 0 ≡ get_or counts v 0 = ap (λ k. get_or counts k 0) same in
          let next : sum ≡ get_or counts v 0 + 1 =
            mod-eq_of_lt {m = 2 ^ 32} (omega (arith, old, few)) ∙ omega (arith, old) in
          let here : get_or counts' v 0 ≡ get_or counts v 0 + 1 = put ∙ (rw e next) in
          let rest =
            test_light_count_dist_no-adds light counts' v bytes.1 full'
              (omega (arith, here, few)) in
          rw e (omega (arith, rest, here))
      | inr e ↦
          let here : get_or counts' v 0 ≡ get_or counts v 0 = put ∙ (rw e refl) in
          let rest =
            test_light_count_dist_no-adds light counts' v bytes.1 full'
              (omega (arith, here, few)) in
          rw e (omega (arith, rest, here))
    ]

-- For a light part of bytes, less than 2^32 of them, the oblivious count and the plain one agree.
pub count_light-test_light_count_dist_no :
    (light : List ℕ) (v : ℕ)
    → AreBytes light
    → length light < 2 ^ 32
    → v < 256
    → get_or (count_light light (replicate 256 0)) v 0
      ≡ get_or (test_light_count_dist_no light (replicate 256 0)) v 0
count_light-test_light_count_dist_no light v bytes few lt =
    let none_yet = zero_counts 256 v in
    omega (
      arith,
      none_yet,
      count_light-occurrences light v lt few,
      test_light_count_dist_no-adds light (replicate 256 0) v bytes refl (omega (arith, none_yet)),
    )
