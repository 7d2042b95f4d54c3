-- ===== src/Sorter/Bitonic/Merge.antt =====
-- `bitonicMerge` sorts every valley, and every hill whose length is a power of two.
use fosketch.Prelude.{
  ℕ, zero, suc, ◌+◌, ◌-◌, ◌^◌, ◌≤◌, ◌<◌, ◌≡◌, ◌∙◌, ap, ◌⊎◌, inl, inr, Bool, false, List, arith, ltb,
  ltb→lt, Bool-cases,
}
use native.Mathlib.Decide.{dec_le, dec_lt}
use fosketch.Sorter.Order.{Comparator, bit_of}
use fosketch.Sorter.Exchange.{bit}
use fosketch.Sorter.Sorted.{Rising}
use fosketch.Sorter.Power.{
  IsPowerOfTwo, one, double, IsPowerOfTwo-pos, IsPowerOfTwo-unique, greatest_power_of_two_less_than,
  greatest_power_of_two_lem,
}
use fosketch.Sorter.Bitonic.{compare_range, bitonic_merge}
use fosketch.Sorter.Bitonic.Keeps.{bitonic_merge-Within, bitonic_merge_short, bitonic_merge_long}
use fosketch.Sorter.Bitonic.Loop.{compare_range-bit}
use fosketch.Sorter.Bitonic.Shape.{
  Valley, Hill, Halved, wide-lower, wide-upper, narrow-upper, narrow-left, narrow-right,
  narrow-across, low-lower, low-upper_left, low-upper_right, low-upper_across, high-upper,
  high-lower,
}

-- The shapes that a piece may have before it is merged, with its number of false places.
pub data Mergeable (p : ℕ → Bool) (lo n z : ℕ) : Type 0 where
  valley : (a b : ℕ) → Valley p lo n a b → z ≡ b - a → Mergeable p lo n z
  hill : (a b : ℕ) → IsPowerOfTwo n → Hill p lo n a b → z + (b - a) ≡ n → Mergeable p lo n z

-- What one round leaves: both parts can be merged, and then they follow one another.
record Parts (q : ℕ → Bool) (lo n m z : ℕ) : Type 0 where
  z1 : ℕ
  z2 : ℕ
  lower : Mergeable q lo m z1
  upper : Mergeable q (lo + m) (n - m) z2
  total : z1 + z2 ≡ z
  apart : (z2 ≡ 0) ⊎ (z1 ≡ m)

module _ {p q : ℕ → Bool} {lo n m : ℕ} (pow : IsPowerOfTwo m) (below : m < n) (twice : n ≤ m + m)
    (h : Halved p q lo n m) where
  Valley-Parts : {z : ℕ} (a b : ℕ) → Valley p lo n a b → z ≡ b - a → Parts q lo n m z
  Valley-Parts a b v e = elim (dec_le m (b - a)) [
    | yes wide ↦ record {
      z1 = m;
      z2 = b - a - m;
      lower = valley lo (lo + m) (wide-lower below twice h v wide) (omega arith);
      upper = valley (a + m) b (wide-upper below twice h v wide) (omega arith);
      total = omega arith;
      apart = inr (omega arith);
    }
    | no narrow ↦ record {
      z1 = b - a;
      z2 = 0;
      lower = elim (dec_le b (lo + m)) [
        | yes left ↦ valley a b (narrow-left below twice h v left) (omega arith)
        | no over ↦ elim (dec_le (lo + m) a) [
          | yes right ↦
              valley (a - m) (b - m) (narrow-right below twice h v right) (omega (arith, v.ordered))
          | no under ↦
              hill (b - m) a pow
                (narrow-across below twice h v (omega arith) (omega arith) (omega arith))
                (omega (arith, v.ordered))
        ]
      ];
      upper = valley (lo + m) (lo + m) (narrow-upper below twice h v (omega arith)) (omega arith);
      total = omega arith;
      apart = inl (omega arith);
    }
  ]

  Hill-Parts :
      {z : ℕ} (a b : ℕ) → IsPowerOfTwo n → Hill p lo n a b → z + (b - a) ≡ n → Parts q lo n m z
  Hill-Parts a b (one e) v eq = absurd (omega (arith, IsPowerOfTwo-pos pow))
  Hill-Parts {z} a b (double {m = k} e pk) v eq =
      let same : m ≡ k = IsPowerOfTwo-unique pk pow (omega arith) (omega arith) in
      let half : n ≡ m + m = omega arith in
      let same' : n - m ≡ m = omega arith in
      let pow' : IsPowerOfTwo (n - m) = rw same' pow in
      let o = v.ordered in
      elim (dec_le (b - a) m) [
        | yes low ↦ record {
          z1 = m;
          z2 = n - m - (b - a);
          lower = hill lo lo pow (low-lower m half h v low) (omega arith);
          upper = elim (dec_le b (lo + m)) [
            | yes left ↦ hill (a + m) (b + m) pow' (low-upper_left m half h v left) (omega arith)
            | no over ↦ elim (dec_le (lo + m) a) [
              | yes right ↦ hill a b pow' (low-upper_right m half h v right) (omega arith)
              | no under ↦
                  valley b (a + m) (low-upper_across m half h v low (omega arith) (omega arith))
                    (omega arith)
            ]
          ];
          total = omega arith;
          apart = inr (omega arith);
        }
        | no high ↦
            let end = v.high in
            let start = v.low in
            record {
              z1 = z;
              z2 = 0;
              lower = hill a (b - m) pow (high-lower m half h v (omega arith)) (omega arith);
              upper =
                  hill (lo + m) (lo + n) pow' (high-upper m half h v (omega arith)) (omega arith);
              total = omega arith;
              apart = inl (omega arith);
            }
      ]

  Mergeable-Parts : {z : ℕ} → Mergeable p lo n z → Parts q lo n m z
  Mergeable-Parts (valley a b v e) = Valley-Parts a b v e
  Mergeable-Parts (hill a b pn v e) = Hill-Parts a b pn v e

Mergeable-cong :
    {p q : ℕ → Bool} {lo n z : ℕ}
    → ((k : ℕ) → lo ≤ k → k < lo + n → q k ≡ p k)
    → Mergeable p lo n z
    → Mergeable q lo n z
Mergeable-cong same (valley a b v e) =
    valley a b
      (record {
        low = v.low;
        ordered = v.ordered;
        high = v.high;
        at = λ k l u. same k l u ∙ v.at k l u;
      })
      e
Mergeable-cong same (hill a b pow v e) =
    hill a b pow
      (record {
        low = v.low;
        ordered = v.ordered;
        high = v.high;
        at = λ k l u. same k l u ∙ v.at k l u;
      })
      e

-- A piece of at most one place needs no merge.
Rising-short : {p : ℕ → Bool} {lo n z : ℕ} → ltb 1 n ≡ false → Mergeable p lo n z → Rising p lo n z
Rising-short short (valley a b v e) = λ k l u. ground (arith, v.at k, v.low, v.high, v.ordered)
Rising-short short (hill a b pow v e) = λ k l u. ground (arith, v.at k, v.low, v.high, v.ordered)

Rising-join :
    {p : ℕ → Bool} {lo n m z z1 z2 : ℕ}
    → z1 + z2 ≡ z
    → (z2 ≡ 0) ⊎ (z1 ≡ m)
    → z1 ≤ m
    → m < n
    → Rising p lo m z1
    → Rising p (lo + m) (n - m) z2
    → Rising p lo n z
Rising-join {lo} {m} t apart le lt r s = λ k l u. elim (dec_lt k (lo + m)) [
  | yes below ↦ r k l below ∙ ground arith
  | no above ↦ s k (omega arith) (omega arith) ∙ ground arith
]

Mergeable-le : {p : ℕ → Bool} {lo n z : ℕ} → Mergeable p lo n z → z ≤ n
Mergeable-le (valley a b v e) = omega (arith, v.low, v.high)
Mergeable-le (hill a b pow v e) = omega arith

module _ {ℓ} {A : Type ℓ} (c : Comparator A) (dir : Bool) (t : A) where
  abbrev bits : List A → ℕ → Bool
  bits a k = bit c dir t a k

  pub bitonic_merge-Rising :
      (fuel lo n : ℕ) (a : List A) {z : ℕ}
      → n ≤ fuel
      → n ≤ 2 ^ 30
      → Mergeable (bits a) lo n z
      → Rising (bits (bitonic_merge c fuel lo n dir a)) lo n z
  bitonic_merge-Rising zero lo n a enough small s = λ k l u. absurd (omega arith)
  bitonic_merge-Rising (suc fuel) lo n a enough small s = elim (Bool-cases (ltb 1 n)) [
    | inr done ↦ rw (bitonic_merge_short c (suc fuel) lo n dir a done) (Rising-short done s)
    | inl more ↦
        let m = greatest_power_of_two_less_than n in
        let two : 2 ≤ n = ltb→lt 1 n more in
        let (pow, below, twice) = greatest_power_of_two_lem n two small in
        let a1 = compare_range c dir m lo (n - m) a in
        let parts =
          Mergeable-Parts {p = bits a} {q = bits a1} pow below twice
            (λ k. compare_range-bit c dir t m lo (n - m) a k (omega arith)) s in
        let a2 = bitonic_merge c fuel lo m dir a1 in
        let a3 = bitonic_merge c fuel (lo + m) (n - m) dir a2 in
        let w1 = bitonic_merge-Within c fuel lo m dir a1 (omega arith) in
        let w2 = bitonic_merge-Within c fuel (lo + m) (n - m) dir a2 (omega arith) in
        let r1 : Rising (bits a2) lo m parts.z1 =
          bitonic_merge-Rising fuel lo m a1 (omega arith) (omega arith) parts.lower in
        let r1' : Rising (bits a3) lo m parts.z1 =
          λ k l u. ap (bit_of c dir t) (w2.outside k (inl u)) ∙ r1 k l u in
        let upper : Mergeable (bits a2) (lo + m) (n - m) parts.z2 =
          Mergeable-cong (λ k l u. ap (bit_of c dir t) (w1.outside k (inr l))) parts.upper in
        let r2 : Rising (bits a3) (lo + m) (n - m) parts.z2 =
          bitonic_merge-Rising fuel (lo + m) (n - m) a2 (omega arith) (omega arith) upper in
        rw (bitonic_merge_long c fuel lo n dir a more)
          (Rising-join parts.total parts.apart (Mergeable-le parts.lower) below r1' r2)
  ]
