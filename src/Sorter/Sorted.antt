-- ===== src/Sorter/Sorted.antt =====
-- What the sorters of FOSketch/Enclave/OPrimitive.h are to achieve, and the threshold view of it: an
-- array is sorted if through every threshold it is false up to some place and true from there on.
use mathlib.Core.List.Perm
use native.Mathlib.Decide.{dec_lt}
use fosketch.Prelude.{
  ℕ, zero, suc, ◌+◌, ◌≤◌, ◌<◌, ◌≡◌, refl, ◌∙◌, ◌⊎◌, Bool, true, false, not, ◌&&◌, List, Perm, some,
  arith, length, get_elem?, get_elem?-some, ltb, leb, ◌==◌, if◌then◌else◌,
}
use fosketch.Sorter.Order.{Comparator, greater_irrefl}
use fosketch.Sorter.Exchange.{bit}

-- `b` is a rearrangement of `a` within the places from `lo` up to `hi`.
pub record Within {ℓ} {A : Type ℓ} (lo hi : ℕ) (a b : List A) : Type ℓ where
  pub perm : Perm b a
  pub outside : (k : ℕ) → (k < lo) ⊎ (hi ≤ k) → get_elem? b k ≡ get_elem? a k

module _ {ℓ} {A : Type ℓ} where
  pub Within-refl : (lo hi : ℕ) (a : List A) → Within lo hi a a
  Within-refl lo hi a = record { perm = Perm.refl a; outside = λ k o. refl }

  pub Within-trans :
      {lo hi : ℕ} {a b d : List A} → Within lo hi a b → Within lo hi b d → Within lo hi a d
  Within-trans p q = record {
    perm = Perm.trans q.perm p.perm;
    outside = λ k o. q.outside k o ∙ p.outside k o;
  }

  pub Within-widen :
      {lo hi lo' hi' : ℕ} {a b : List A}
      → lo' ≤ lo
      → hi ≤ hi'
      → Within lo hi a b
      → Within lo' hi' a b
  Within-widen l h p = record { perm = p.perm; outside = λ k o. p.outside k (omega arith) }

-- False at the first `z` places, then true.
abbrev pub Rising : (ℕ → Bool) → ℕ → ℕ → ℕ → Type 0
Rising p lo n z = (k : ℕ) → lo ≤ k → k < lo + n → p k ≡ leb (lo + z) k

-- A row of at most one place rises.
pub Rising-one : (p : ℕ → Bool) (lo n : ℕ) → ltb 1 n ≡ false → (z : ℕ) × (z ≤ n) × Rising p lo n z
Rising-one p lo n short =
    (if p lo then 0 else n, ground arith, λ k l u. let e : k ≡ lo = ground arith in ground arith)

-- A monotone test is false up to some place and true from there on.
monotone-Rising :
    (p : ℕ → Bool) (lo n : ℕ)
    → ((i j : ℕ) → lo ≤ i → i < j → j < lo + n → p i ≡ true → p j ≡ true)
    → (z : ℕ) × (z ≤ n) × Rising p lo n z
monotone-Rising p lo zero mono = (0, omega arith, λ k l u. absurd (omega arith))
monotone-Rising p lo (suc n) mono =
    let (z, le, r) = monotone-Rising p lo n (λ i j l u v. mono i j l u (omega arith)) in
    (
      if z == n && not (p (lo + n)) then suc n else z,
      ground arith,
      λ k l u. elim (dec_lt k (lo + n)) [
        | yes before ↦ r k l before ∙ ground arith
        | no last ↦
            let e : k ≡ lo + n = omega arith in
            ground (arith, r (lo + z) (omega arith), mono (lo + z) (lo + n) (omega arith))
      ],
    )

module _ {ℓ} {A : Type ℓ} (c : Comparator A) where
  -- No element of the first `n` stands before one that it comes after.
  abbrev pub IsSorted : ℕ → List A → Type ℓ
  IsSorted n a =
      (i j : ℕ) (x y : A)
      → i < j
      → j < n
      → get_elem? a i ≡ some x
      → get_elem? a j ≡ some y
      → c.greater x y ≡ false

  -- The elements from place `lo` up to place `hi` never rise, and never fall.
  abbrev pub Falls : ℕ → ℕ → List A → Type ℓ
  Falls lo hi a =
      (i j : ℕ) (x y : A)
      → lo ≤ i
      → i < j
      → j < hi
      → get_elem? a i ≡ some x
      → get_elem? a j ≡ some y
      → c.greater y x ≡ false

  abbrev pub Rises : ℕ → ℕ → List A → Type ℓ
  Rises lo hi a =
      (i j : ℕ) (x y : A)
      → lo ≤ i
      → i < j
      → j < hi
      → get_elem? a i ≡ some x
      → get_elem? a j ≡ some y
      → c.greater x y ≡ false

  -- Sorted through every threshold is sorted.
  pub IsSorted-of_Rising :
      (n : ℕ) (a : List A)
      → ((t : A) → (z : ℕ) × Rising (λ k. bit c true t a k) 0 n z)
      → IsSorted n a
  IsSorted-of_Rising n a h i j x y i<j j<n ei ej =
      let (z, r) = h x in
      let bi : bit c true x a i ≡ leb (0 + z) i = r i (omega arith) (omega arith) in
      let bj : bit c true x a j ≡ leb (0 + z) j = r j (omega arith) (omega arith) in
      ground (arith, greater_irrefl c x)

  -- Falling through a threshold, and rising.
  pub falling-Rising :
      (t : A) (a : List A) (s : ℕ)
      → s ≤ length a
      → Falls 0 s a
      → (z : ℕ) × (z ≤ s) × Rising (λ k. bit c false t a k) 0 s z
  falling-Rising t a s fits falls = monotone-Rising _ 0 s (λ i j l u v b.
      let (x, ei) = get_elem?-some a i (omega arith) in
      let (y, ej) = get_elem?-some a j (omega arith) in
      ground (arith, falls i j x y l u (omega arith) ei ej, c.trans t y x))

  pub Rising-Rising :
      (t : A) (a : List A) (s n : ℕ)
      → s + n ≤ length a
      → Rises s (s + n) a
      → (z : ℕ) × (z ≤ n) × Rising (λ k. bit c true t a k) s n z
  Rising-Rising t a s n fits rises = monotone-Rising _ s n (λ i j l u v b.
      let (x, ei) = get_elem?-some a i (omega arith) in
      let (y, ej) = get_elem?-some a j (omega arith) in
      ground (arith, rises i j x y l u v ei ej, c.trans t x y))
