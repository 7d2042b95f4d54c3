-- ===== src/Sorter/Power.antt =====
-- Powers of two: `testPo2` of Common/CommonUtil.h and `greatestPowerOfTwoLessThan` of
-- FOSketch/Enclave/OPrimitive.h.
use native.Mathlib.Nat.{pow-suc}
use fosketch.Prelude.{
  ℕ, zero, suc, ◌+◌, ◌*◌, ◌/◌, ◌%◌, ◌^◌, ◌≤◌, ◌<◌, ◌≡◌, refl, ◌↔◌, Bool, true, false, ◌&&◌, arith,
  ltb, leb, ◌==◌, ==_iff, ltb→lt, lt→ltb, leb→le, sym, if◌then◌else◌, Bool-cases, inl, inr, ap,
}

-- `n` is a power of two.
pub data IsPowerOfTwo : ℕ → Type 0 where
  one : {n : ℕ} → n ≡ 1 → IsPowerOfTwo n
  double : {n m : ℕ} → n ≡ m + m → IsPowerOfTwo m → IsPowerOfTwo n

pub IsPowerOfTwo-pos : {n : ℕ} → IsPowerOfTwo n → 0 < n
IsPowerOfTwo-pos (one e) = omega arith
IsPowerOfTwo-pos (double e p) = omega (arith, IsPowerOfTwo-pos p)

-- Between a power of two and its double there is no other.
pub IsPowerOfTwo-unique : {m p : ℕ} → IsPowerOfTwo m → IsPowerOfTwo p → m ≤ p → p < m + m → p ≡ m
IsPowerOfTwo-unique (one e) (one f) h k = omega arith
IsPowerOfTwo-unique (one e) (double f q) h k = absurd (omega (arith, IsPowerOfTwo-pos q))
IsPowerOfTwo-unique (double e p) (one f) h k = absurd (omega (arith, IsPowerOfTwo-pos p))
IsPowerOfTwo-unique (double e p) (double f q) h k =
    omega (arith, IsPowerOfTwo-unique p q (omega arith) (omega arith))

-- `ceil(log2(num))` in the unsigned byte `level`, by doubling; `fuel` bounds the bits of `num`.
ceil_log2_loop : ℕ → ℕ → ℕ → ℕ → ℕ
ceil_log2_loop zero num p level = level
ceil_log2_loop (suc fuel) num p level =
    let rest = ceil_log2_loop fuel num (p + p) (level + 1) in if leb num p then level else rest

unfoldable pub ceil_log2 : ℕ → ℕ
unfolding ceil_log2_loop
ceil_log2 num = ceil_log2_loop 64 num 1 0

unfoldable pub test_po2 : ℕ → Bool
unfolding ceil_log2
test_po2 num = num == 2 ^ ceil_log2 num

pub two_pow-IsPowerOfTwo : (k : ℕ) → IsPowerOfTwo (2 ^ k)
two_pow-IsPowerOfTwo zero = one refl
two_pow-IsPowerOfTwo (suc k) = double (omega (arith, pow-suc 2 k)) (two_pow-IsPowerOfTwo k)

-- The loop stops at the first power of two that is not below `num`.
ceil_log2_loop_least :
    (fuel num k : ℕ)
    → num ≤ 2 ^ k * 2 ^ fuel
    → (j : ℕ) × (ceil_log2_loop fuel num (2 ^ k) k ≡ j)
      × (num ≤ 2 ^ j)
      × ((i : ℕ) → k ≤ i → i < j → 2 ^ i < num)
unfolding ceil_log2_loop
ceil_log2_loop_least zero num k h = (k, refl, omega arith, λ i p q. absurd (omega arith))
ceil_log2_loop_least (suc fuel) num k h = elim (Bool-cases (leb num (2 ^ k))) [
  | inl done ↦ (k, rw done, leb→le _ _ done, λ i p q. absurd (omega arith))
  | inr more ↦
      let e : 2 ^ k + 2 ^ k ≡ 2 ^ suc k = omega (arith, pow-suc 2 k) in
      let e' : k + 1 ≡ suc k = omega arith in
      let h' : num ≤ 2 ^ suc k * 2 ^ fuel = omega (
        arith,
        ap (λ (t : ℕ). t * 2 ^ fuel) (pow-suc 2 k),
        ap (λ (t : ℕ). 2 ^ k * t) (pow-suc 2 fuel),
      ) in
      let big : 2 ^ k < num = ground arith in
      let (j, r, le, least) = ceil_log2_loop_least fuel num (suc k) h' in
      (
        j,
        rw (more, e, e') r,
        le,
        λ i p q. elim (Bool-cases (k == i)) [
          | inl same ↦ let s : k ≡ i = (==_iff k i).0 same in rw (← s) big
          | inr other ↦ least i (ground arith) q
        ],
      )
]

pub ceil_log2_least :
    (num : ℕ)
    → num ≤ 2 ^ 64
    → (num ≤ 2 ^ ceil_log2 num) × ((i : ℕ) → i < ceil_log2 num → 2 ^ i < num)
unfolding ceil_log2
ceil_log2_least num h =
    let (j, r, le, least) = ceil_log2_loop_least 64 num 0 (omega arith) in
    (rw r le, λ i q. least i (omega arith) (rw r at q))

-- Where the power `2 ^ j` is the first that is not below `n`, and `n` is a power, they are equal.
two_pow-eq :
    (j : ℕ) {n : ℕ} → IsPowerOfTwo n → n ≤ 2 ^ j → ((i : ℕ) → i < j → 2 ^ i < n) → n ≡ 2 ^ j
two_pow-eq zero p le least = omega (arith, IsPowerOfTwo-pos p)
two_pow-eq (suc j) p le least = sym (
    IsPowerOfTwo-unique p (two_pow-IsPowerOfTwo (suc j)) le
      (omega (arith, pow-suc 2 j, least j (omega arith))))

-- For every 64-bit number, `testPo2` answers whether it is a power of two.
pub test_po2_iff : (num : ℕ) → num ≤ 2 ^ 64 → (test_po2 num ≡ true) ↔ IsPowerOfTwo num
unfolding test_po2
test_po2_iff num h = (
  λ t.
      let e : num ≡ 2 ^ ceil_log2 num = (==_iff num (2 ^ ceil_log2 num)).0 t in
      rw e (two_pow-IsPowerOfTwo (ceil_log2 num)),
  λ p.
      let (le, least) = ceil_log2_least num h in
      (==_iff num (2 ^ ceil_log2 num)).1 (two_pow-eq (ceil_log2 num) p le least),
)

-- `while (k>0 && k<n) k=k<<1;` on an `int`, held as its bit pattern below 2 ^ 32.
greatest_loop : ℕ → ℕ → ℕ → ℕ
greatest_loop zero n k = k
greatest_loop (suc fuel) n k =
    let rest = greatest_loop fuel n ((k * 2) % 2 ^ 32) in
    if (ltb 0 k && ltb k (2 ^ 31)) && ltb k n then rest else k

-- `k>>1` on an `int` keeps the sign.
abbrev shift_right_1 : ℕ → ℕ
shift_right_1 k = if ltb k (2 ^ 31) then k / 2 else 2 ^ 31 + k / 2

-- After 32 doublings the pattern is 0 at the latest, so 33 rounds are always enough.
unfoldable pub greatest_power_of_two_less_than : ℕ → ℕ
unfolding greatest_loop
greatest_power_of_two_less_than n = shift_right_1 (greatest_loop 33 n 1)

greatest_loop_lem :
    (fuel n : ℕ) {k : ℕ}
    → IsPowerOfTwo k
    → n ≤ k * 2 ^ fuel
    → n ≤ 2 ^ 30
    → k < n + n
    → IsPowerOfTwo (greatest_loop fuel n k)
      × (n ≤ greatest_loop fuel n k)
      × (greatest_loop fuel n k < n + n)
unfolding greatest_loop
greatest_loop_lem zero n p h s u = (p, omega arith, omega arith)
greatest_loop_lem (suc fuel) n {k} p h s u = elim (Bool-cases (ltb k n)) [
  | inl less ↦
      let lt : k < n = ltb→lt k n less in
      let e : (k * 2) % 2 ^ 32 ≡ k + k = omega arith in
      let small : ltb k (2 ^ 31) ≡ true = lt→ltb _ _ (omega arith) in
      let pos : ltb 0 k ≡ true = lt→ltb _ _ (IsPowerOfTwo-pos p) in
      let h' : n ≤ (k + k) * 2 ^ fuel = omega (arith, ap (λ (t : ℕ). k * t) (pow-suc 2 fuel)) in
      rw (pos, small, less, e) (greatest_loop_lem fuel n (double refl p) h' s (omega arith))
  | inr done ↦
      let le : n ≤ k = ground arith in
      let stop : ((ltb 0 k && ltb k (2 ^ 31)) && ltb k n) ≡ false = ground arith in
      rw stop (p, le, u)
]

-- For 2 ≤ n ≤ 2 ^ 30 the result is a power of two below `n`, and its double is not.
pub greatest_power_of_two_lem :
    (n : ℕ)
    → 2 ≤ n
    → n ≤ 2 ^ 30
    → IsPowerOfTwo (greatest_power_of_two_less_than n)
      × (greatest_power_of_two_less_than n < n)
      × (n ≤ greatest_power_of_two_less_than n + greatest_power_of_two_less_than n)
unfolding greatest_power_of_two_less_than
greatest_power_of_two_lem n h s =
    halve (greatest_loop_lem 33 n (one refl) (omega arith) s (omega arith))
  where
    halve :
        {k : ℕ}
        → IsPowerOfTwo k × (n ≤ k) × (k < n + n)
        → IsPowerOfTwo (shift_right_1 k)
          × (shift_right_1 k < n)
          × (n ≤ shift_right_1 k + shift_right_1 k)
    halve (one e, le, lt) = absurd (omega arith)
    halve (double {n = k} {m} e p, le, lt) =
        let r : shift_right_1 k ≡ m = ground arith in rw r (p, omega arith, omega arith)
