-- ===== src/Sorter/OddEven/Lattice.antt =====
-- The places `lo, lo + r, lo + 2r, …` that a merge at distance `r` works on.
use mathlib.Core.List.Perm
use native.Mathlib.Nat.{mul-le-mul_right}
use fosketch.Prelude.{
  ℕ, suc, ◌+◌, ◌*◌, ◌≤◌, ◌<◌, ◌≡◌, ◌≢◌, refl, ◌∙◌, true, ◌&&◌, ◌||◌, List, Perm, arith, get_elem?,
  ltb, ◌==◌, if◌then◌else◌,
}
use native.Mathlib.Decide.{dec_lt}
use fosketch.Sorter.Order.{Comparator}
use fosketch.Sorter.Exchange.{compare, bit, bit-compare, compare-perm, get_elem?-compare_ne}

pub lattice_lt : (r x y : ℕ) → 0 < r → x < y → x * r + r ≤ y * r
lattice_lt r x y pos h = omega (arith, mul-le-mul_right {m = suc x} {n = y} r h)

pub lattice_ne : (lo r x y : ℕ) → 0 < r → x ≢ y → lo + x * r ≢ lo + y * r
lattice_ne lo r x y pos ne = elim (dec_lt x y) [
  | yes l ↦ omega (arith, lattice_lt r x y pos l)
  | no g ↦ omega (arith, lattice_lt r y x pos (omega arith))
]

pub lattice-eq : (lo r x y : ℕ) → 0 < r → (lo + x * r == lo + y * r) ≡ (x == y)
lattice-eq lo r x y pos = ground (arith, lattice_ne lo r x y)

pub lattice-ltb : (lo r x y : ℕ) → 0 < r → ltb (lo + x * r) (lo + y * r) ≡ ltb x y
lattice-ltb lo r x y pos = ground (arith, lattice_lt r x y, lattice_lt r y x, lattice_ne lo r x y)

-- `b` is a rearrangement of `a` within `count` places of the lattice.
pub record OnLattice {ℓ} {A : Type ℓ} (lo count r : ℕ) (a b : List A) : Type ℓ where
  pub perm : Perm b a
  pub outside : (k : ℕ) → ((j : ℕ) → j < count → k ≢ lo + j * r) → get_elem? b k ≡ get_elem? a k

module _ {ℓ} {A : Type ℓ} where
  pub OnLattice-refl : (lo count r : ℕ) (a : List A) → OnLattice lo count r a a
  OnLattice-refl lo count r a = record { perm = Perm.refl a; outside = λ k o. refl }

  pub OnLattice-trans :
      {lo count r : ℕ} {a b d : List A}
      → OnLattice lo count r a b
      → OnLattice lo count r b d
      → OnLattice lo count r a d
  OnLattice-trans p q = record {
    perm = Perm.trans q.perm p.perm;
    outside = λ k o. q.outside k o ∙ p.outside k o;
  }

  -- The even places, and the odd ones, of a lattice of twice the number.
  pub OnLattice-even :
      {lo h r : ℕ} {a b : List A} → OnLattice lo h (r * 2) a b → OnLattice lo (h + h) r a b
  OnLattice-even {lo} {r} p = record {
    perm = p.perm;
    outside = λ k o. p.outside k (λ j l e. o (j + j) (omega arith) (omega arith));
  }

  pub OnLattice-odd :
      {lo h r : ℕ} {a b : List A} → OnLattice (lo + r) h (r * 2) a b → OnLattice lo (h + h) r a b
  OnLattice-odd {lo} {r} p = record {
    perm = p.perm;
    outside = λ k o. p.outside k (λ j l e. o (suc (j + j)) (omega arith) (omega arith));
  }

module _ {ℓ} {A : Type ℓ} (c : Comparator A) where
  pub compare-OnLattice :
      (lo count r x y : ℕ) (a : List A)
      → 0 < r
      → x < count
      → y < count
      → x ≢ y
      → OnLattice lo count r a (compare c true a (lo + x * r) (lo + y * r))
  compare-OnLattice lo count r x y a pos hx hy ne =
      let ne' = lattice_ne lo r x y pos ne in
      record {
        perm = compare-perm c true a _ _ ne';
        outside = λ k o. get_elem?-compare_ne c true a _ _ k ne' (o x hx) (o y hy);
      }

  -- A comparison of neighbours on the lattice, through a threshold.
  pub bit-compare_lattice :
      (t : A) (lo r x y : ℕ) (a : List A)
      → 0 < r
      → bit c true t (compare c true a (lo + x * r) (lo + suc x * r)) (lo + y * r) ≡ (
          if x == y
          then bit c true t a (lo + x * r) && bit c true t a (lo + suc x * r)
          else if suc x == y
          then bit c true t a (lo + x * r) || bit c true t a (lo + suc x * r)
          else bit c true t a (lo + y * r))
  bit-compare_lattice t lo r x y a pos =
      bit-compare c true t a (lo + x * r) (lo + suc x * r) (lo + y * r) (omega arith)
      ∙ ground (arith, lattice-eq lo r x y pos, lattice-eq lo r (suc x) y pos)
