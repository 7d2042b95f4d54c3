-- ===== src/Sorter/Bitonic/Sorts.antt =====
-- `BitonicSorter::sort` sorts arrays of every length, and `merge` sorts what falls and then rises.
use fosketch.Prelude.{
  ℕ, zero, suc, ◌+◌, ◌-◌, ◌/◌, ◌^◌, ◌≤◌, ◌<◌, ◌≡◌, ◌∙◌, ap, inl, inr, Bool, true, false, not, List,
  arith, length, length-perm, get_elem?, get_elem?-some, some, ltb, ltb→lt, Bool-cases,
}
use native.Mathlib.Decide.{dec_lt}
use fosketch.Sorter.Sorted.{
  Within, Within-refl, Within-widen, Rising, Rising-one, IsSorted, Falls, Rises, IsSorted-of_Rising,
  falling-Rising, Rising-Rising,
}
use fosketch.Sorter.Order.{Comparator, bit_of}
use fosketch.Sorter.Exchange.{bit}
use fosketch.Sorter.Bitonic.{bitonic_merge, bitonic_sort, sort, merge}
use fosketch.Sorter.Bitonic.Keeps.{
  bitonic_merge-Within, bitonic_sort-Within, bitonic_sort_short, bitonic_sort_long,
}
use fosketch.Sorter.Bitonic.Shape.{Valley}
use fosketch.Sorter.Bitonic.Merge.{valley, bitonic_merge-Rising}

module _ {ℓ} {A : Type ℓ} (c : Comparator A) where
  bit-not :
      (dir : Bool) (t : A) (a : List A) (k : ℕ) (x : A)
      → get_elem? a k ≡ some x
      → bit c dir t a k ≡ not (bit c (not dir) t a k)
  bit-not true t a k x e = ground arith
  bit-not false t a k x e = ground arith

  -- The first part falls and the rest rises: a valley.
  parts-Valley :
      (dir : Bool) (t : A) (lo n h z1 z2 : ℕ) (a : List A)
      → h ≤ n
      → z1 ≤ h
      → z2 ≤ n - h
      → ((k : ℕ) → k < lo + n → (x : A) × (get_elem? a k ≡ some x))
      → Rising (λ k. bit c (not dir) t a k) lo h z1
      → Rising (λ k. bit c dir t a k) (lo + h) (n - h) z2
      → Valley (λ k. bit c dir t a k) lo n (lo + z1) (lo + h + z2)
  parts-Valley dir t lo n h z1 z2 a cut b1 b2 full r1 r2 = record {
    low = omega arith;
    ordered = omega arith;
    high = omega arith;
    at = λ k l u. elim (dec_lt k (lo + h)) [
      | yes first ↦
          let (x, e) = full k u in bit-not dir t a k x e ∙ ap not (r1 k l first) ∙ ground arith
      | no second ↦ r2 k (omega arith) (omega arith) ∙ ground arith
    ];
  }

  bitonic_sort-Rising :
      (fuel lo n : ℕ) (dir : Bool) (t : A) (a : List A)
      → n ≤ fuel
      → n ≤ 2 ^ 30
      → lo + n ≤ length a
      → (z : ℕ) × (z ≤ n) × Rising (λ k. bit c dir t (bitonic_sort c fuel lo n dir a) k) lo n z
  bitonic_sort-Rising zero lo n dir t a enough small fits =
      (0, omega arith, λ k l u. absurd (omega arith))
  bitonic_sort-Rising (suc fuel) lo n dir t a enough small fits = elim (Bool-cases (ltb 1 n)) [
    | inr done ↦ rw (bitonic_sort_short c (suc fuel) lo n dir a done) (Rising-one _ lo n done)
    | inl more ↦
        let two : 2 ≤ n = ltb→lt 1 n more in
        let a1 = bitonic_sort c fuel lo (n / 2) (not dir) a in
        let a2 = bitonic_sort c fuel (lo + n / 2) (n - n / 2) dir a1 in
        let w1 = bitonic_sort-Within c fuel lo (n / 2) (not dir) a (omega arith) in
        let w2 = bitonic_sort-Within c fuel (lo + n / 2) (n - n / 2) dir a1 (omega arith) in
        let len1 : length a1 ≡ length a = length-perm w1.perm in
        let len2 : length a2 ≡ length a1 = length-perm w2.perm in
        let (z1, b1, r1) =
          bitonic_sort-Rising fuel lo (n / 2) (not dir) t a (omega arith) (omega arith)
            (omega arith) in
        let (z2, b2, r2) =
          bitonic_sort-Rising fuel (lo + n / 2) (n - n / 2) dir t a1 (omega arith) (omega arith)
            (omega arith) in
        let r1' : Rising (λ k. bit c (not dir) t a2 k) lo (n / 2) z1 =
          λ k l u. ap (bit_of c (not dir) t) (w2.outside k (inl u)) ∙ r1 k l u in
        let v =
          parts-Valley dir t lo n (n / 2) z1 z2 a2 (omega arith) b1 b2
            (λ k u. get_elem?-some a2 k (omega arith)) r1' r2 in
        (
          lo + n / 2 + z2 - (lo + z1),
          omega arith,
          rw (bitonic_sort_long c fuel lo n dir a more) (
              bitonic_merge-Rising c dir t n lo n a2 (omega arith) small
                (valley _ _ v (omega arith))),
        )
  ]

  -- For at most 2 ^ 30 elements, `sort` sorts the first `num` by `greater`, whether or not `num`
  -- is a power of two, rearranges only those, and keeps each value as often as it stood there.
  pub sort-IsSorted :
      (a : List A) (num : ℕ)
      → num ≤ 2 ^ 30
      → num ≤ length a
      → IsSorted c num (sort c a num) × Within 0 num a (sort c a num)
  unfolding sort
  sort-IsSorted a num small fits = elim (Bool-cases (ltb num 2)) [
    | inl short ↦
        rw short
          ((λ i j x y p q ei ej. absurd (omega (arith, ltb→lt num 2 short))), Within-refl 0 num a)
    | inr long ↦ rw long (
      IsSorted-of_Rising c num (bitonic_sort c num 0 num true a) (λ t.
          let (z, b, r) =
            bitonic_sort-Rising num 0 num true t a (omega arith) small (omega arith) in
          (z, r)),
      Within-widen (omega arith) (omega arith) (bitonic_sort-Within c num 0 num true a small),
    )
  ]

  -- `merge` sorts the first `num` elements if the first `s` of them fall and the others rise.
  -- It rearranges only those, and keeps each value as often as it stood there.
  pub merge-IsSorted :
      (a : List A) (num s : ℕ)
      → num ≤ 2 ^ 30
      → num ≤ length a
      → s ≤ num
      → Falls c 0 s a
      → Rises c s num a
      → IsSorted c num (merge c a num) × Within 0 num a (merge c a num)
  unfolding merge
  merge-IsSorted a num s small fits cut falls rises = elim (Bool-cases (ltb num 2)) [
    | inl short ↦
        rw short
          ((λ i j x y p q ei ej. absurd (omega (arith, ltb→lt num 2 short))), Within-refl 0 num a)
    | inr long ↦ rw long (
      IsSorted-of_Rising c num (bitonic_merge c num 0 num true a) (λ t.
          let (z1, b1, r1) = falling-Rising c t a s (omega arith) falls in
          let (z2, b2, r2) =
            Rising-Rising c t a s (num - s) (omega arith)
              (λ i j x y l u v. rises i j x y l u (omega arith)) in
          let v =
            parts-Valley true t 0 num s z1 z2 a cut b1 b2 (λ k u. get_elem?-some a k (omega arith))
              r1 (λ k l u. r2 k (omega arith) (omega arith) ∙ ground arith) in
          (
            0 + s + z2 - (0 + z1),
            bitonic_merge-Rising c true t num 0 num a (omega arith) small
                (valley _ _ v (omega arith)),
          )),
      Within-widen (omega arith) (omega arith) (bitonic_merge-Within c num 0 num true a small),
    )
  ]
