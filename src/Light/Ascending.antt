-- ===== src/Light/Ascending.antt =====
-- Where the elements with a key stand in a list that is sorted by the key.
use native.Mathlib.Decide.{dec_lt}
use fosketch.Prelude.{
  ℕ, zero, suc, ◌+◌, ◌≤◌, ◌<◌, ◌≡◌, refl, ap, ◌∙◌, inl, inr, Bool-cases, List, [], ◌∷◌, some, arith,
  length, take, drop, get_elem?, ltb, ◌==◌, lt-length,
}
use fosketch.Sorter.Order.{Comparator}
use fosketch.Sorter.Sorted.{IsSorted}
use fosketch.Light.Gather.{number, below, total, total-none}

module _ {E : Type 0} (key : E → ℕ) where
  abbrev pub From : ℕ → List E → Type 0
  From k [] = Unit {0}
  From k (x ∷ l) = (k ≤ key x) × From k l

  abbrev pub Ascending : List E → Type 0
  Ascending [] = Unit {0}
  Ascending (x ∷ l) = From (key x) l × Ascending l

  From-le : (k m : ℕ) (l : List E) → k ≤ m → From m l → From k l
  From-le k m [] le f = tt
  From-le k m (x ∷ l) le f = (omega arith, From-le k m l le f.1)

  From-get :
      (k : ℕ) (l : List E) → ((i : ℕ) (x : E) → get_elem? l i ≡ some x → k ≤ key x) → From k l
  From-get k [] h = tt
  From-get k (x ∷ l) h = (h 0 x refl, From-get k l (λ i y e. h (suc i) y e))

  -- A sorter's result, for a comparator that compares keys.
  pub IsSorted-Ascending :
      (c : Comparator E) (n : ℕ) (l : List E)
      → ((x y : E) → c.greater x y ≡ ltb (key y) (key x))
      → n ≡ length l
      → IsSorted c n l
      → Ascending l
  IsSorted-Ascending c n [] agree e s = tt
  IsSorted-Ascending c n (x ∷ l) agree e s = (
    From-get (key x) l (λ i y at.
        let lt = lt-length l i at in
        let no_fall = s 0 (suc i) x y (omega arith) (omega (arith, e)) refl at in
        ground (arith, agree x y, no_fall)),
    IsSorted-Ascending c (length l) l agree refl
        (λ i j a b lt in_range ei ej. s (suc i) (suc j) a b (omega arith) (omega (arith, e)) ei ej),
  )

  From-take : (k n : ℕ) (l : List E) → From k l → From k (take n l)
  From-take k zero l f = tt
  From-take k (suc n) [] f = tt
  From-take k (suc n) (x ∷ l) f = (f.0, From-take k n l f.1)

  pub Ascending-take : (n : ℕ) (l : List E) → Ascending l → Ascending (take n l)
  Ascending-take zero l a = tt
  Ascending-take (suc n) [] a = tt
  Ascending-take (suc n) (x ∷ l) a = (From-take (key x) n l a.0, Ascending-take n l a.1)

  module _ (value : E → ℕ) (k : ℕ) where
    below-From : (m : ℕ) (l : List E) → k ≤ m → From m l → below key value k l ≡ 0
    below-From m [] le f = refl
    below-From m (x ∷ l) le f = ground (arith, below-From m l le f.1, f.0)

    -- Behind the elements with smaller keys all keys are `k` or greater.
    pub From-drop : (n : ℕ) (l : List E) → Ascending l → below key value k l ≤ n → From k (drop n l)
    From-drop zero [] a le = tt
    From-drop zero (x ∷ l) a le = (ground arith, From-drop zero l a.1 (ground arith))
    From-drop (suc n) [] a le = tt
    From-drop (suc n) (x ∷ l) a le = elim (Bool-cases (ltb (key x) k)) [
      | inl e ↦ From-drop n l a.1 (ground (arith, e))
      | inr e ↦
          let none_below = below-From (key x) l (ground (arith, e)) a.0 in
          From-drop n l a.1 (omega (arith, none_below))
    ]

    pub number-From : (m : ℕ) (l : List E) → k < m → From m l → number key value k l ≡ 0
    number-From m [] lt f = refl
    number-From m (x ∷ l) lt f = ground (arith, number-From m l lt f.1, f.0)

    -- Behind the elements with smaller keys come those with the key.
    pub find_key :
        (l : List E) (i : ℕ)
        → Ascending l
        → below key value k l ≤ i
        → i < below key value k l + number key value k l
        → (x : E) × (get_elem? l i ≡ some x) × (key x ≡ k)
    find_key [] i a lo hi = absurd (omega arith)
    find_key (x ∷ l) zero a lo hi = elim (Bool-cases (key x == k)) [
      | inl e ↦ (x, refl, ground (arith, e))
      | inr e ↦
          let later : k < key x = ground (arith, e) in
          absurd (
            ground (arith, number-From (key x) l later a.0, below-From (key x) l (omega arith) a.0))
    ]
    find_key (x ∷ l) (suc i) a lo hi = elim (dec_lt k (key x)) [
      | yes later ↦
          absurd (
            ground (arith, number-From (key x) l later a.0, below-From (key x) l (omega arith) a.0))
      | no e ↦
          let none_below = λ (le : k ≤ key x). below-From (key x) l le a.0 in
          find_key l i a.1 (ground (arith, none_below)) (ground (arith, none_below))
    ]

    one-le-number :
        (l : List E) (i : ℕ) (x : E) → get_elem? l i ≡ some x → key x ≡ k → 1 ≤ number key value k l
    one-le-number [] i x e at = absurd (cc)
    one-le-number (y ∷ l) zero x e at =
        let same : y ≡ x = cc in let now : key y ≡ k = ap key same ∙ at in ground (arith, now)
    one-le-number (y ∷ l) (suc i) x e at = ground (arith, one-le-number l i x e at)

    -- An element that is alone with its key has the whole of the key's values.
    pub total-alone :
        (l : List E) (i : ℕ) (x : E)
        → get_elem? l i ≡ some x
        → key x ≡ k
        → number key value k l ≡ 1
        → total key value k l ≡ value x
    total-alone [] i x e at one = absurd (cc)
    total-alone (y ∷ l) zero x e at one =
        let same : y ≡ x = cc in
        let now : key y ≡ k = ap key same ∙ at in
        ground (arith, total-none key value k l, now, ap value same)
    total-alone (y ∷ l) (suc i) x e at one =
        ground (arith, one-le-number l i x e at, total-alone l i x e at)
