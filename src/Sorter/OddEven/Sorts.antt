-- ===== src/Sorter/OddEven/Sorts.antt =====
-- `OddEvenMergeSorter::sort` sorts every array whose length is a power of two, and `merge` joins two
-- sorted halves; any other length leaves the array as it is.
use fosketch.Prelude.{
  ℕ, zero, suc, ◌+◌, ◌-◌, ◌*◌, ◌/◌, ◌^◌, ◌≤◌, ◌<◌, ◌≡◌, refl, ◌∙◌, ap, inl, inr, true, false, List,
  arith, length, ltb, ltb→lt, Bool-cases,
}
use fosketch.Sorter.Order.{Comparator, bit_of}
use fosketch.Sorter.Exchange.{bit}
use fosketch.Sorter.Power.{IsPowerOfTwo, one, double, IsPowerOfTwo-pos, test_po2, test_po2_iff}
use fosketch.Sorter.Sorted.{
  Within, Within-refl, Within-trans, Within-widen, Rising, IsSorted, Rises, IsSorted-of_Rising,
  Rising-one, Rising-Rising,
}
use fosketch.Sorter.OddEven.{odd_even_merge, odd_even_merge_sort, sort, merge}
use fosketch.Sorter.OddEven.Lattice.{OnLattice}
use fosketch.Sorter.OddEven.Pairs.{lattice_bits}
use fosketch.Sorter.OddEven.Merge.{Halves, odd_even_merge-OnLattice, odd_even_merge-Rising}

module _ {ℓ} {A : Type ℓ} (c : Comparator A) where
  OnLattice-Within : (lo n : ℕ) {a b : List A} → OnLattice lo n 1 a b → Within lo (lo + n) a b
  OnLattice-Within lo n on = record {
    perm = on.perm;
    outside = λ k o. on.outside k (λ j l e. absurd (omega arith));
  }

  -- The merge at distance 1, on two rising halves.
  merge-Within :
      (lo n h : ℕ) (a : List A)
      → IsPowerOfTwo h
      → n ≡ h + h
      → Within lo (lo + n) a (odd_even_merge c n lo n 1 a)
  merge-Within lo n h a p e = rw e (
      OnLattice-Within lo (h + h) (
        odd_even_merge-OnLattice c (h + h) lo (h + h) 1 h a p (omega arith) (omega arith)
          (omega arith)))

  merge-Rising :
      (t : A) (lo n h z1 z2 : ℕ) (a : List A)
      → IsPowerOfTwo h
      → n ≡ h + h
      → z1 ≤ h
      → z2 ≤ h
      → Rising (λ k. bit c true t a k) lo h z1
      → Rising (λ k. bit c true t a k) (lo + h) h z2
      → Rising (λ k. bit c true t (odd_even_merge c n lo n 1 a) k) lo n (z1 + z2)
  merge-Rising t lo n h z1 z2 a p e b1 b2 r1 r2 k l u =
      let halves : Halves (lattice_bits c t lo 1 a) h z1 z2 = record {
        left = λ j v. r1 (lo + j * 1) (omega arith) (omega arith) ∙ ground arith;
        right = λ j v. r2 (lo + (h + j) * 1) (omega arith) (omega arith) ∙ ground arith;
        le1 = b1;
        le2 = b2;
      } in
      let place : k ≡ lo + (k - lo) * 1 = omega arith in
      ap (bit c true t (odd_even_merge c n lo n 1 a)) place
      ∙ odd_even_merge-Rising c t n lo n 1 h z1 z2 a p (omega arith) (omega arith) (omega arith)
          halves (k - lo) (omega arith)
      ∙ ground arith

  -- The two cases of the method, as equations.
  odd_even_merge_sort_short :
      (fuel lo n : ℕ) (a : List A) → n ≤ 1 → odd_even_merge_sort c fuel lo n a ≡ a
  unfolding odd_even_merge_sort
  odd_even_merge_sort_short zero lo n a h = refl
  odd_even_merge_sort_short (suc fuel) lo n a h =
      let e : ltb 1 n ≡ false = ground arith in rw (e, odd_even_merge_sort)

  odd_even_merge_sort_long :
      (fuel lo n h : ℕ) (a : List A)
      → n ≡ h + h
      → 0 < h
      → odd_even_merge_sort c (suc fuel) lo n a
        ≡ odd_even_merge c n lo n 1
            (odd_even_merge_sort c fuel (lo + h) h (odd_even_merge_sort c fuel lo h a))
  unfolding odd_even_merge_sort
  odd_even_merge_sort_long fuel lo n h a e pos =
      let long : ltb 1 n ≡ true = ground arith in
      let half : n / 2 ≡ h = omega arith in rw (long, half, odd_even_merge_sort)

  odd_even_merge_sort-Within :
      (fuel lo n : ℕ) (a : List A)
      → IsPowerOfTwo n
      → Within lo (lo + n) a (odd_even_merge_sort c fuel lo n a)
  odd_even_merge_sort-Within zero lo n a p = unfold odd_even_merge_sort in Within-refl lo (lo + n) a
  odd_even_merge_sort-Within (suc fuel) lo n a (one e) =
      rw (odd_even_merge_sort_short (suc fuel) lo n a (omega arith)) (Within-refl lo (lo + n) a)
  odd_even_merge_sort-Within (suc fuel) lo n a (double {m = h} e p) =
      rw (odd_even_merge_sort_long fuel lo n h a e (IsPowerOfTwo-pos p)) (
        Within-trans
          (Within-widen (omega arith) (omega arith) (odd_even_merge_sort-Within fuel lo h a p))
          (Within-trans
            (Within-widen (omega arith) (omega arith)
              (odd_even_merge_sort-Within fuel (lo + h) h _ p))
            (merge-Within lo n h _ p e)))

  odd_even_merge_sort-Rising :
      (t : A) (fuel lo n : ℕ) (a : List A)
      → IsPowerOfTwo n
      → n ≤ fuel
      → (z : ℕ) × (z ≤ n) × Rising (λ k. bit c true t (odd_even_merge_sort c fuel lo n a) k) lo n z
  odd_even_merge_sort-Rising t zero lo n a p enough = absurd (omega (arith, IsPowerOfTwo-pos p))
  odd_even_merge_sort-Rising t (suc fuel) lo n a (one e) enough =
      rw (odd_even_merge_sort_short (suc fuel) lo n a (omega arith))
        (Rising-one _ lo n (let s : ltb 1 n ≡ false = ground arith in s))
  odd_even_merge_sort-Rising t (suc fuel) lo n a (double {m = h} e p) enough =
      let pos = IsPowerOfTwo-pos p in
      let a1 = odd_even_merge_sort c fuel lo h a in
      let a2 = odd_even_merge_sort c fuel (lo + h) h a1 in
      let w2 : Within (lo + h) (lo + h + h) a1 a2 =
        odd_even_merge_sort-Within fuel (lo + h) h a1 p in
      let (z1, b1, r1) = odd_even_merge_sort-Rising t fuel lo h a p (omega arith) in
      let (z2, b2, r2) = odd_even_merge_sort-Rising t fuel (lo + h) h a1 p (omega arith) in
      let r1' : Rising (λ k. bit c true t a2 k) lo h z1 =
        λ k l u. ap (bit_of c true t) (w2.outside k (inl u)) ∙ r1 k l u in
      (
        z1 + z2,
        omega arith,
        rw (odd_even_merge_sort_long fuel lo n h a e pos)
            (merge-Rising t lo n h z1 z2 a2 p e b1 b2 r1' r2),
      )

  -- A length that passes the sorter's test is a power of two, above one.
  halve : {n : ℕ} → ltb n 2 ≡ false → IsPowerOfTwo n → (h : ℕ) × (n ≡ h + h) × IsPowerOfTwo h
  halve long (one e) = absurd (ground arith)
  halve long (double {m = h} e p) = (h, e, p)

  -- For a power of two up to 2 ^ 30, `sort` sorts the first `num` elements by `greater`, rearranges
  -- only those, and keeps each value as often as it stood there.
  pub sort_po2-IsSorted :
      (a : List A) (num : ℕ)
      → num ≤ 2 ^ 30
      → IsPowerOfTwo num
      → IsSorted c num (sort c a num) × Within 0 num a (sort c a num)
  unfolding sort
  sort_po2-IsSorted a num small p =
      let passes : test_po2 num ≡ true = (test_po2_iff num (omega arith)).1 p in
      elim (Bool-cases (ltb num 2)) [
        | inl short ↦
            rw short (
              (λ i j x y q r ei ej. absurd (omega (arith, ltb→lt num 2 short))),
              Within-refl 0 num a,
            )
        | inr long ↦
            rw (long, passes)
              (
                IsSorted-of_Rising c num (odd_even_merge_sort c num 0 num a) (λ t.
                    let (z, b, r) = odd_even_merge_sort-Rising t num 0 num a p (omega arith) in
                    (z, r)),
                Within-widen (omega arith) (omega arith) (odd_even_merge_sort-Within num 0 num a p),
              )
      ]

  -- For a power of two up to 2 ^ 30, `merge` makes one sorted piece of two sorted halves, rearranges
  -- only the first `num` elements, and keeps each value as often as it stood there.
  pub merge_halves-IsSorted :
      (a : List A) (num : ℕ)
      → num ≤ 2 ^ 30
      → num ≤ length a
      → IsPowerOfTwo num
      → Rises c 0 (num / 2) a
      → Rises c (num / 2) num a
      → IsSorted c num (merge c a num) × Within 0 num a (merge c a num)
  unfolding merge
  merge_halves-IsSorted a num small fits p rises1 rises2 =
      let passes : test_po2 num ≡ true = (test_po2_iff num (omega arith)).1 p in
      elim (Bool-cases (ltb num 2)) [
        | inl short ↦
            rw short (
              (λ i j x y q r ei ej. absurd (omega (arith, ltb→lt num 2 short))),
              Within-refl 0 num a,
            )
        | inr long ↦
            let (h, e, ph) = halve long p in
            let half : num / 2 ≡ h = omega arith in
            rw (long, passes)
              (
                IsSorted-of_Rising c num (odd_even_merge c num 0 num 1 a) (λ t.
                    let (z1, b1, r1) =
                      Rising-Rising c t a 0 h (omega arith)
                        (λ i j x y l u v. rises1 i j x y l u (omega arith)) in
                    let (z2, b2, r2) =
                      Rising-Rising c t a h h (omega arith)
                        (λ i j x y l u v. rises2 i j x y (omega arith) u (omega arith)) in
                    (
                      z1 + z2,
                      merge-Rising t 0 num h z1 z2 a ph e b1 b2 r1
                          (λ k l u. r2 k (omega arith) (omega arith) ∙ ground arith),
                    )),
                Within-widen (omega arith) (omega arith) (merge-Within 0 num h a ph e),
              )
      ]

  -- Any other length of two or more is refused: the array is left as it is.
  pub sort_other_length :
      (a : List A) (num : ℕ) → num ≤ 2 ^ 64 → ¬ IsPowerOfTwo num → sort c a num ≡ a
  unfolding sort
  sort_other_length a num small other = elim (Bool-cases (test_po2 num)) [
    | inl passes ↦ absurd (other ((test_po2_iff num small).0 passes))
    | inr fails ↦ rw fails (ground arith)
  ]
