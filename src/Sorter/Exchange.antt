-- ===== src/Sorter/Exchange.antt =====
-- `OMove`, the conditional swaps `OSwap4`, `OSwap8` and `OSwapEx`, and `compare`, the one step by
-- which a sorter changes its array. An array is a list, an element is a value of any type.
use mathlib.Core.List.Perm
use fosketch.Prelude.{
  ℕ, ◌<◌, ◌≡◌, ◌≢◌, ◌∙◌, ap, Bool, true, false, not, ◌&&◌, ◌||◌, none, some, List, Perm, arith,
  length, get_elem?, set, length-set, set-perm, get_elem?-set, get_elem?-none_mono, if◌then◌else◌,
  ◌==◌, Option-cases, inl, inr,
}
use fosketch.Sorter.Order.{Comparator, bit_of, bit_of-first, bit_of-second}

module _ {ℓ} {A : Type ℓ} where
  -- `cmovnz`: the first value if the condition is not zero.
  abbrev pub o_move : A → A → Bool → A
  o_move x y cond = if cond then x else y

  -- The three statements of the `OSwap` functions. Outside the array there is nothing to swap.
  unfoldable pub o_swap : List A → ℕ → ℕ → Bool → List A
  o_swap a i j cond = elim (get_elem? a i) [
    | none ↦ a
    | some x ↦ elim (get_elem? a j) [
      | none ↦ a
      | some y ↦ let tmp = o_move x y cond in set (set a i (o_move y x cond)) j tmp
    ]
  ]

  o_swap-some :
      (a : List A) (i j : ℕ) (b : Bool) {x y : A}
      → get_elem? a i ≡ some x
      → get_elem? a j ≡ some y
      → o_swap a i j b ≡ set (set a i (o_move y x b)) j (o_move x y b)
  unfolding o_swap
  o_swap-some a i j b ei ej = rw (ei, ej, o_swap)

  o_swap-none_left : (a : List A) (i j : ℕ) (b : Bool) → get_elem? a i ≡ none → o_swap a i j b ≡ a
  unfolding o_swap
  o_swap-none_left a i j b e = rw (e, o_swap)

  o_swap-none_right : (a : List A) (i j : ℕ) (b : Bool) → get_elem? a j ≡ none → o_swap a i j b ≡ a
  unfolding o_swap
  o_swap-none_right a i j b e = elim (Option-cases (get_elem? a i)) [
    | inl n ↦ rw (n, o_swap)
    | inr (x, ei) ↦ rw (ei, e, o_swap)
  ]

  pub length-o_swap : (a : List A) (i j : ℕ) (b : Bool) → length (o_swap a i j b) ≡ length a
  length-o_swap a i j b = elim (Option-cases (get_elem? a i)) [
    | inl n ↦ rw (o_swap-none_left a i j b n)
    | inr (x, ei) ↦ elim (Option-cases (get_elem? a j)) [
      | inl n ↦ rw (o_swap-none_right a i j b n)
      | inr (y, ej) ↦ rw (o_swap-some a i j b ei ej) (simp length-set)
    ]
  ]

  pub get_elem?-o_swap :
      (a : List A) (i j k : ℕ) (b : Bool) {x y : A}
      → i ≢ j
      → get_elem? a i ≡ some x
      → get_elem? a j ≡ some y
      → get_elem? (o_swap a i j b) k ≡ (
          if j == k
          then some (o_move x y b)
          else if i == k
          then some (o_move y x b)
          else get_elem? a k)
  get_elem?-o_swap a i j k b {x} {y} ne ei ej = rw (o_swap-some a i j b ei ej) (
      get_elem?-set (set a i (o_move y x b)) j k (o_move x y b) y
        (ground (arith, get_elem?-set a i j (o_move y x b) x))
      ∙ ap (λ r. if j == k then some (o_move x y b) else r)
          (get_elem?-set a i k (o_move y x b) x ei))

  -- A conditional swap only rearranges.
  pub o_swap-perm : (a : List A) (i j : ℕ) (b : Bool) → i ≢ j → Perm (o_swap a i j b) a
  o_swap-perm a i j b ne = elim (Option-cases (get_elem? a i)) [
    | inl n ↦ rw (o_swap-none_left a i j b n) (Perm.refl a)
    | inr (x, ei) ↦ elim (Option-cases (get_elem? a j)) [
      | inl n ↦ rw (o_swap-none_right a i j b n) (Perm.refl a)
      | inr (y, ej) ↦ rw (o_swap-some a i j b ei ej) (swapped b ei ej)
    ]
  ]
    where
      swapped :
          (b : Bool) {x y : A}
          → get_elem? a i ≡ some x
          → get_elem? a j ≡ some y
          → Perm (set (set a i (o_move y x b)) j (o_move x y b)) a
      swapped true {x} {y} ei ej =
          let kept : get_elem? (set a i y) j ≡ some y = ground (arith, get_elem?-set a i j y x) in
          Perm.cons_inv (Perm.trans (set-perm (set a i y) j x kept) (set-perm a i y ei))
      swapped false {x} {y} ei ej =
          let kept : get_elem? (set a i x) j ≡ some y = ground (arith, get_elem?-set a i j x x) in
          Perm.trans (Perm.cons_inv (set-perm (set a i x) j y kept))
            (Perm.cons_inv (set-perm a i x ei))

-- The test of a sorter with a direction, and the exchange that follows.
module _ {ℓ} {A : Type ℓ} (c : Comparator A) where
  unfoldable pub compare : Bool → List A → ℕ → ℕ → List A
  unfolding o_swap
  compare dir a i j = elim (get_elem? a i) [
    | none ↦ a
    | some x ↦ elim (get_elem? a j) [
      | none ↦ a
      | some y ↦ o_swap a i j (if dir then c.greater x y else not (c.greater x y))
    ]
  ]

  compare-some :
      (dir : Bool) (a : List A) (i j : ℕ) {x y : A}
      → get_elem? a i ≡ some x
      → get_elem? a j ≡ some y
      → compare dir a i j ≡ o_swap a i j (if dir then c.greater x y else not (c.greater x y))
  unfolding compare
  compare-some dir a i j ei ej = rw (ei, ej, compare)

  compare-none_right :
      (dir : Bool) (a : List A) (i j : ℕ) → get_elem? a j ≡ none → compare dir a i j ≡ a
  unfolding compare
  compare-none_right dir a i j e = elim (Option-cases (get_elem? a i)) [
    | inl n ↦ rw (n, compare)
    | inr (x, ei) ↦ rw (ei, e, compare)
  ]

  compare-none_left :
      (dir : Bool) (a : List A) (i j : ℕ) → get_elem? a i ≡ none → compare dir a i j ≡ a
  unfolding compare
  compare-none_left dir a i j e = rw (e, compare)

  -- A comparison keeps the length, and the values with their numbers.
  pub length-compare : (dir : Bool) (a : List A) (i j : ℕ) → length (compare dir a i j) ≡ length a
  length-compare dir a i j = elim (Option-cases (get_elem? a i)) [
    | inl n ↦ rw (compare-none_left dir a i j n)
    | inr (x, ei) ↦ elim (Option-cases (get_elem? a j)) [
      | inl n ↦ rw (compare-none_right dir a i j n)
      | inr (y, ej) ↦ rw (compare-some dir a i j ei ej) (length-o_swap a i j _)
    ]
  ]

  pub compare-perm : (dir : Bool) (a : List A) (i j : ℕ) → i ≢ j → Perm (compare dir a i j) a
  compare-perm dir a i j ne = elim (Option-cases (get_elem? a i)) [
    | inl n ↦ rw (compare-none_left dir a i j n) (Perm.refl a)
    | inr (x, ei) ↦ elim (Option-cases (get_elem? a j)) [
      | inl n ↦ rw (compare-none_right dir a i j n) (Perm.refl a)
      | inr (y, ej) ↦ rw (compare-some dir a i j ei ej) (o_swap-perm a i j _ ne)
    ]
  ]

  -- The threshold view of an array.
  abbrev pub bit : Bool → A → List A → ℕ → Bool
  bit dir t a k = bit_of c dir t (get_elem? a k)

  bit-unchanged :
      (dir : Bool) (t : A) (a : List A) (i j k : ℕ)
      → get_elem? a j ≡ none
      → bit dir t a k ≡ (
          if i == k
          then bit dir t a i && bit dir t a j
          else if j == k
          then bit dir t a i || bit dir t a j
          else bit dir t a k)
  bit-unchanged true t a i j k n = ground arith
  bit-unchanged false t a i j k n = ground arith

  -- Seen through a threshold, a comparison is "and" at the first place and "or" at the second.
  pub bit-compare :
      (dir : Bool) (t : A) (a : List A) (i j k : ℕ)
      → i < j
      → bit dir t (compare dir a i j) k ≡ (
          if i == k
          then bit dir t a i && bit dir t a j
          else if j == k
          then bit dir t a i || bit dir t a j
          else bit dir t a k)
  bit-compare dir t a i j k h = elim (Option-cases (get_elem? a j)) [
    | inl n ↦ rw (compare-none_right dir a i j n) (bit-unchanged dir t a i j k n)
    | inr (y, ej) ↦ elim (Option-cases (get_elem? a i)) [
      | inl n ↦ absurd (ground (arith, get_elem?-none_mono a i j))
      | inr (x, ei) ↦
          let cond = if dir then c.greater x y else not (c.greater x y) in
          rw
            (
              compare-some dir a i j ei ej,
              get_elem?-o_swap a i j k cond (omega arith) ei ej,
              ei,
              ej,
            )
            (ground (arith, bit_of-first c dir t x y, bit_of-second c dir t x y))
    ]
  ]

  -- It reads and writes the two places only.
  pub get_elem?-compare_ne :
      (dir : Bool) (a : List A) (i j k : ℕ)
      → i ≢ j
      → k ≢ i
      → k ≢ j
      → get_elem? (compare dir a i j) k ≡ get_elem? a k
  get_elem?-compare_ne dir a i j k ne ki kj = elim (Option-cases (get_elem? a i)) [
    | inl n ↦ rw (compare-none_left dir a i j n)
    | inr (x, ei) ↦ elim (Option-cases (get_elem? a j)) [
      | inl n ↦ rw (compare-none_right dir a i j n)
      | inr (y, ej) ↦ rw (compare-some dir a i j ei ej) (
          ground (
            arith,
            get_elem?-o_swap a i j k (if dir then c.greater x y else not (c.greater x y)) ne ei ej,
          ))
    ]
  ]
