-- ===== src/Epoch/Counters/Histogram.antt =====
-- `OAdd256` adds to one counter, and the loop over the light part counts each value.
use native.Mathlib.Nat.{mod-lt, mod-eq_of_lt, mod-add-div}
use fosketch.Prelude.{
  ℕ, zero, suc, ◌+◌, ◌-◌, ◌*◌, ◌/◌, ◌%◌, ◌^◌, ◌≤◌, ◌<◌, ◌≡◌, refl, sym, ap, ap₂, ◌∙◌, inl, inr,
  Bool-cases, List, [], ◌∷◌, ◌++◌, arith, length, length-append, length-take, length-drop, take,
  drop, get_or, get_or-append, replicate, ltb, ◌==◌, if◌then◌else◌,
}
use fosketch.Sorter.Exchange.{o_move}
use fosketch.Counts.Runs.{occurrences}
use fosketch.Light.Blocks.Gathered.{get_or-take, get_or-drop}
use fosketch.Epoch.Counters.{add_lanes, add_rows, o_add_256, count_light}

get_or-add_lanes :
    (val sub i j : ℕ) (ws : List ℕ)
    → j < length ws
    → get_or (add_lanes val sub i ws) j 0
      ≡ (get_or ws j 0 + (if i + j == sub then val else 0)) % 2 ^ 32
unfolding add_lanes
get_or-add_lanes val sub i j [] lt = absurd (omega arith)
get_or-add_lanes val sub i zero (w ∷ ws) lt =
    let at : i + 0 ≡ i = omega arith in
    ap (λ k. (w + (if k == sub then val else 0)) % 2 ^ 32) (sym at)
get_or-add_lanes val sub i (suc j) (w ∷ ws) lt =
    let next : i + 1 + j ≡ i + suc j = omega arith in
    get_or-add_lanes val sub (i + 1) j ws (omega arith)
    ∙ ap (λ k. (get_or ws j 0 + (if k == sub then val else 0)) % 2 ^ 32) next

length-add_lanes : (val sub i : ℕ) (ws : List ℕ) → length (add_lanes val sub i ws) ≡ length ws
unfolding add_lanes
length-add_lanes val sub i [] = refl
length-add_lanes val sub i (w ∷ ws) = ap suc (length-add_lanes val sub (i + 1) ws)

length-add_rows :
    (rows val sub group i : ℕ) (arry : List ℕ)
    → length (add_rows rows val sub group i arry) ≡ length arry
unfolding add_rows
length-add_rows zero val sub group i arry = refl
length-add_rows (suc rows) val sub group i arry = omega (
  arith,
  length-append (add_lanes (o_move val 0 (i == group)) sub 0 (take 8 arry)) _,
  length-add_lanes (o_move val 0 (i == group)) sub 0 (take 8 arry),
  length-add_rows rows val sub group (i + 1) (drop 8 arry),
  length-take 8 arry,
  length-drop 8 arry,
)

get_or-append_front :
    (xs ys : List ℕ) (j : ℕ) → j < length xs → get_or (xs ++ ys) j 0 ≡ get_or xs j 0
get_or-append_front [] ys j lt = absurd (omega arith)
get_or-append_front (x ∷ xs) ys zero lt = refl
get_or-append_front (x ∷ xs) ys (suc j) lt = get_or-append_front xs ys j (omega arith)

-- The number of a counter is that of its row and that within the row.
one_lane :
    (i group k sub val : ℕ)
    → k < 8
    → sub < 8
    → (if 0 + k == sub then o_move val 0 (i == group) else 0)
      ≡ (if 8 * i + k == 8 * group + sub then val else 0)
one_lane i group k sub val lt small = ground arith

get_or-add_rows :
    (rows val sub group i : ℕ) (arry : List ℕ) (k : ℕ)
    → sub < 8
    → 8 * rows ≤ length arry
    → k < 8 * rows
    → get_or (add_rows rows val sub group i arry) k 0
      ≡ (get_or arry k 0 + (if 8 * i + k == 8 * group + sub then val else 0)) % 2 ^ 32
unfolding add_rows
get_or-add_rows zero val sub group i arry k small fits lt = absurd (omega arith)
get_or-add_rows (suc rows) val sub group i arry k small fits lt =
    let v = o_move val 0 (i == group) in
    let here = add_lanes v sub 0 (take 8 arry) in
    let rest = add_rows rows val sub group (i + 1) (drop 8 arry) in
    let full : length here ≡ 8 =
      omega (arith, length-add_lanes v sub 0 (take 8 arry), length-take 8 arry) in
    elim (Bool-cases (ltb k 8)) [
      | inl e ↦
          let short : k < 8 = ground (arith, e) in
          get_or-append_front here rest k (omega (arith, full))
          ∙ (get_or-add_lanes v sub 0 k (take 8 arry) (omega (arith, length-take 8 arry))
              ∙ ap₂ (λ a b. (a + b) % 2 ^ 32) (get_or-take 8 arry k 0 short)
                  (one_lane i group k sub val short small))
      | inr e ↦
          let at : length here + (k - 8) ≡ k = ground (arith, e, full) in
          let there : 8 + (k - 8) ≡ k = ground (arith, e) in
          let place : 8 * (i + 1) + (k - 8) ≡ 8 * i + k = ground (arith, e) in
          sym (ap (λ m. get_or (here ++ rest) m 0) at)
          ∙ (get_or-append here rest (k - 8) 0
              ∙ (get_or-add_rows rows val sub group (i + 1) (drop 8 arry) (k - 8) small
                    (omega (arith, length-drop 8 arry)) (ground (arith, e))
                  ∙ ap₂ (λ a b. (a + (if b == 8 * group + sub then val else 0)) % 2 ^ 32)
                      (get_or-drop 8 arry (k - 8) 0 ∙ ap (λ m. get_or arry m 0) there) place))
    ]

-- `OAdd256` adds to the counter with the index and to no other.
pub get_or-o_add_256 :
    (val index : ℕ) (arry : List ℕ) (k : ℕ)
    → length arry ≡ 256
    → k < 256
    → get_or (o_add_256 val index arry) k 0
      ≡ (get_or arry k 0 + (if k == index then val else 0)) % 2 ^ 32
unfolding o_add_256
get_or-o_add_256 val index arry k full lt =
    let whole : 8 * (index / 8) + index % 8 ≡ index = omega (arith, mod-add-div index 8) in
    let at : 8 * 0 + k ≡ k = omega arith in
    get_or-add_rows 32 val (index % 8) (index / 8) 0 arry k (mod-lt index (omega arith))
      (omega (arith, full)) (omega arith)
    ∙ ap₂ (λ a b. (get_or arry k 0 + (if a == b then val else 0)) % 2 ^ 32) at whole

length-o_add_256 : (val index : ℕ) (arry : List ℕ) → length (o_add_256 val index arry) ≡ length arry
unfolding o_add_256
length-o_add_256 val index arry = length-add_rows 32 val (index % 8) (index / 8) 0 arry

abbrev test : ℕ → ℕ → ℕ
test a b = if a == b then 1 else 0

one_more : (v x : ℕ) → (test v x ≡ test x v) × (test x v ≤ 1)
one_more v x = (ground arith, ground arith)

count_light-adds :
    (light counts : List ℕ) (v : ℕ)
    → length counts ≡ 256
    → v < 256
    → get_or counts v 0 + length light < 2 ^ 32
    → get_or (count_light light counts) v 0 ≡ get_or counts v 0 + occurrences v light
unfolding count_light
count_light-adds [] counts v full lt few = omega arith
count_light-adds (x ∷ light) counts v full lt few =
    let counts' = o_add_256 1 x counts in
    let full' : length counts' ≡ 256 = length-o_add_256 1 x counts ∙ full in
    let one : ℕ = test x v in
    let (same, le) = one_more v x in
    let step : get_or counts' v 0 ≡ get_or counts v 0 + one =
      get_or-o_add_256 1 x counts v full lt
      ∙ (ap (λ k. (get_or counts v 0 + k) % 2 ^ 32) same
          ∙ mod-eq_of_lt {m = 2 ^ 32} (omega (arith, few, le))) in
    let rest = count_light-adds light counts' v full' lt (omega (arith, step, few, le)) in
    omega (arith, rest, step)

pub zero_counts : (n v : ℕ) → get_or (replicate {A = ℕ} n 0) v 0 ≡ 0
zero_counts zero v = refl
zero_counts (suc n) zero = refl
zero_counts (suc n) (suc v) = zero_counts n v

-- The loop of `OAdd256` over the light part, of less than 2^32 counters, leaves in `CountLight` how many
-- counters have each value.
pub count_light-occurrences :
    (light : List ℕ) (v : ℕ)
    → v < 256
    → length light < 2 ^ 32
    → get_or (count_light light (replicate 256 0)) v 0 ≡ occurrences v light
count_light-occurrences light v lt few =
    let none_yet = zero_counts 256 v in
    omega (
      arith,
      none_yet,
      count_light-adds light (replicate 256 0) v refl lt (omega (arith, none_yet)),
    )
