-- ===== src/Sorter/OddEven/Merge.antt =====
-- `oddEvenMerge` joins two rising halves of a lattice, for a power of two of places.
use native.Mathlib.Nat.{mul-le-mul_right, mul-le-mul_left}
use fosketch.Prelude.{
  ℕ, zero, suc, ◌+◌, ◌-◌, ◌*◌, ◌/◌, ◌≤◌, ◌<◌, ◌≡◌, refl, ◌∙◌, ap, inl, inr, Bool, true, List, arith,
  ltb, leb, lt→ltb, ◌==◌, ◌%◌, false, Bool-cases,
}
use native.Mathlib.Decide.{dec_lt}
use fosketch.Sorter.Order.{Comparator, bit_of}
use fosketch.Sorter.Exchange.{compare, bit}
use fosketch.Sorter.Power.{IsPowerOfTwo, one, double, IsPowerOfTwo-pos}
use fosketch.Sorter.OddEven.{compare_pairs, odd_even_merge}
use fosketch.Sorter.OddEven.Lattice.{
  OnLattice, OnLattice-trans, OnLattice-even, OnLattice-odd, compare-OnLattice, bit-compare_lattice,
  lattice_ne,
}
use fosketch.Sorter.OddEven.Pairs.{
  Paired, lattice_bits, compare_pairs-Paired, compare_pairs-OnLattice,
}

-- Two halves of `h` places, with `z1` and `z2` false places in front.
pub record Halves (p : ℕ → Bool) (h z1 z2 : ℕ) : Type 0 where
  pub left : (k : ℕ) → k < h → p k ≡ leb z1 k
  pub right : (k : ℕ) → k < h → p (h + k) ≡ leb z2 k
  pub le1 : z1 ≤ h
  pub le2 : z2 ≤ h

-- The even places of two rising halves are two rising halves, and so are the odd ones.
Halves-even :
    {p q : ℕ → Bool} {h g z1 z2 : ℕ}
    → h ≡ g + g
    → ((k : ℕ) → q k ≡ p (k + k))
    → Halves p h z1 z2
    → Halves q g ((z1 + 1) / 2) ((z2 + 1) / 2)
Halves-even {h} {g} e same s = record {
  left = λ k l. ground (arith, same k, s.left (k + k));
  right = λ k l. ground (arith, same (g + k), s.right (k + k));
  le1 = omega (arith, s.le1);
  le2 = omega (arith, s.le2);
}

Halves-odd :
    {p q : ℕ → Bool} {h g z1 z2 : ℕ}
    → h ≡ g + g
    → ((k : ℕ) → q k ≡ p (k + k + 1))
    → Halves p h z1 z2
    → Halves q g (z1 / 2) (z2 / 2)
Halves-odd {h} {g} e same s = record {
  left = λ k l. ground (arith, same k, s.left (k + k + 1));
  right = λ k l. ground (arith, same (g + k), s.right (k + k + 1));
  le1 = omega (arith, s.le1);
  le2 = omega (arith, s.le2);
}

-- After both were merged, the last pairs leave the whole rising.
Paired-rising :
    (g : ℕ) {p q : ℕ → Bool} {h z1 z2 : ℕ}
    → h ≡ g + g
    → z1 ≤ h
    → z2 ≤ h
    → 0 < h
    → ((k : ℕ) → k < h → p (k + k) ≡ leb ((z1 + 1) / 2 + (z2 + 1) / 2) k)
    → ((k : ℕ) → k < h → p (k + k + 1) ≡ leb (z1 / 2 + z2 / 2) k)
    → Paired (h + h) 0 p q
    → (k : ℕ) → k < h + h
    → q k ≡ leb (z1 + z2) k
Paired-rising g {h} twice le1 le2 pos even odd s k l = elim (dec_lt 0 k) [
  | no start ↦
      let e : k ≡ 0 = omega arith in
      rw e (s.rest 0 (inl (omega arith)) (omega arith) ∙ even 0 pos ∙ ground arith)
  | yes later ↦ elim (Bool-cases (k % 2 == 1)) [
    | inl is_odd ↦
        let x = k / 2 in
        let e : k ≡ x + x + 1 = ground arith in
        elim (dec_lt (x + x + 2) (h + h)) [
          | yes inner ↦
              let f = s.first x (omega arith) inner in rw e (ground (arith, odd x, even (x + 1)))
          | no last ↦
              let f = s.rest (x + x + 1) (inr (omega arith)) (omega arith) in
              rw e (ground (arith, odd x))
        ]
    | inr is_even ↦
        let x = k / 2 - 1 in
        let e : k ≡ x + x + 2 = ground arith in
        let f = s.second x (omega arith) (omega arith) in rw e (ground (arith, odd x, even (x + 1)))
  ]
]

module _ {ℓ} {A : Type ℓ} (c : Comparator A) where
  -- The two cases of the method, as equations.
  odd_even_merge_split :
      (fuel lo n r : ℕ) (a : List A)
      → r * 2 < n
      → odd_even_merge c (suc fuel) lo n r a
        ≡ compare_pairs c n r
            (r * 2)
            (lo + n)
            (lo + r)
            (odd_even_merge c fuel (lo + r) n (r * 2) (odd_even_merge c fuel lo n (r * 2) a))
  unfolding odd_even_merge
  odd_even_merge_split fuel lo n r a h = rw (lt→ltb (r * 2) n h, odd_even_merge)

  odd_even_merge_last :
      (fuel lo n r : ℕ) (a : List A)
      → n ≤ r * 2
      → odd_even_merge c (suc fuel) lo n r a ≡ compare c true a lo (lo + r)
  unfolding odd_even_merge
  odd_even_merge_last fuel lo n r a h =
      let e : ltb (r * 2) n ≡ false = ground arith in rw (e, odd_even_merge)

  -- The merge keeps the values and works on its lattice only.
  pub odd_even_merge-OnLattice :
      (fuel lo n r h : ℕ) (a : List A)
      → IsPowerOfTwo h
      → 0 < r
      → n ≡ (h + h) * r
      → h + h ≤ fuel
      → OnLattice lo (h + h) r a (odd_even_merge c fuel lo n r a)
  odd_even_merge-OnLattice zero lo n r h a p pos e enough =
      absurd (omega (arith, IsPowerOfTwo-pos p))
  odd_even_merge-OnLattice (suc fuel) lo n r h a (one e1) pos e enough =
      let short : n ≤ r * 2 = omega (arith, ap (λ (x : ℕ). x * r) e1) in
      let e0 : lo ≡ lo + 0 * r = omega arith in
      let e2 : lo + r ≡ lo + 1 * r = omega arith in
      rw (odd_even_merge_last fuel lo n r a short, e2)
        (rw (← e0) at
          (compare-OnLattice c lo (h + h) r 0 1 a pos (omega arith) (omega arith) (omega arith)))
  odd_even_merge-OnLattice (suc fuel) lo n r h a (double {m = g} e1 p) pos e enough =
      let pos' = IsPowerOfTwo-pos p in
      let big : r * 2 < n =
        omega (arith, e, ap (λ (x : ℕ). x * r) e1, mul-le-mul_right {m = 1} {n = g} r pos') in
      let e' : n ≡ (g + g) * (r * 2) = omega (arith, e, ap (λ (x : ℕ). x * r) e1) in
      let a1 = odd_even_merge c fuel lo n (r * 2) a in
      let a2 = odd_even_merge c fuel (lo + r) n (r * 2) a1 in
      let even : OnLattice lo (g + g) (r * 2) a a1 =
        odd_even_merge-OnLattice fuel lo n (r * 2) g a p (omega arith) e' (omega arith) in
      let odd : OnLattice (lo + r) (g + g) (r * 2) a1 a2 =
        odd_even_merge-OnLattice fuel (lo + r) n (r * 2) g a1 p (omega arith) e' (omega arith) in
      let stop : lo + n ≡ lo + (h + h) * r = omega (arith, e) in
      let pairs : OnLattice lo (h + h) r a2 (compare_pairs c n r (r * 2) (lo + n) (lo + r) a2) =
        rw stop (compare_pairs-OnLattice c lo r (h + h) n 0 (lo + r) a2 pos (omega arith)) in
      rw (odd_even_merge_split fuel lo n r a big) (
        OnLattice-trans (rw (← e1) at (OnLattice-even even))
          (OnLattice-trans (rw (← e1) at (OnLattice-odd odd)) pairs))

  -- The places of two rising halves become one rising row.
  pub odd_even_merge-Rising :
      (t : A) (fuel lo n r h z1 z2 : ℕ) (a : List A)
      → IsPowerOfTwo h
      → 0 < r
      → n ≡ (h + h) * r
      → h + h ≤ fuel
      → Halves (lattice_bits c t lo r a) h z1 z2
      → (k : ℕ) → k < h + h
      → lattice_bits c t lo r (odd_even_merge c fuel lo n r a) k ≡ leb (z1 + z2) k
  odd_even_merge-Rising t zero lo n r h z1 z2 a p pos e enough s =
      absurd (omega (arith, IsPowerOfTwo-pos p))
  odd_even_merge-Rising t (suc fuel) lo n r h z1 z2 a (one e1) pos e enough s = λ k l.
      let short : n ≤ r * 2 = omega (arith, ap (λ (x : ℕ). x * r) e1) in
      let e0 : lo ≡ lo + 0 * r = omega arith in
      let e2 : lo + r ≡ lo + 1 * r = omega arith in
      rw (odd_even_merge_last fuel lo n r a short, e2)
        ((rw (← e0) at (bit-compare_lattice c t lo r 0 k a pos))
          ∙ ground (arith, s.left 0, s.right 0, s.le1, s.le2))
  odd_even_merge-Rising t (suc fuel) lo n r h z1 z2 a (double {m = g} e1 p) pos e enough s =
      let pos' = IsPowerOfTwo-pos p in
      let big : r * 2 < n =
        omega (arith, e, ap (λ (x : ℕ). x * r) e1, mul-le-mul_right {m = 1} {n = g} r pos') in
      let e' : n ≡ (g + g) * (r * 2) = omega (arith, e, ap (λ (x : ℕ). x * r) e1) in
      let a1 = odd_even_merge c fuel lo n (r * 2) a in
      let a2 = odd_even_merge c fuel (lo + r) n (r * 2) a1 in
      let on1 : OnLattice lo (g + g) (r * 2) a a1 =
        odd_even_merge-OnLattice fuel lo n (r * 2) g a p (omega arith) e' (omega arith) in
      let on2 : OnLattice (lo + r) (g + g) (r * 2) a1 a2 =
        odd_even_merge-OnLattice fuel (lo + r) n (r * 2) g a1 p (omega arith) e' (omega arith) in
      let stop : lo + n ≡ lo + (h + h) * r = omega (arith, e) in
      let long : h + h ≤ n = omega (arith, e, mul-le-mul_left {m = 1} {n = r} (h + h) pos) in
      let r1 =
        odd_even_merge-Rising t fuel lo n (r * 2) g ((z1 + 1) / 2) ((z2 + 1) / 2) a p (omega arith)
          e' (omega arith) (Halves-even e1 (λ k. ap (bit c true t a) (omega arith)) s) in
      let odd_places : (k : ℕ)
          → lattice_bits c t (lo + r) (r * 2) a1 k ≡ lattice_bits c t lo r a (k + k + 1) =
        λ k.
          ap (bit_of c true t) (
            on1.outside (lo + r + k * (r * 2)) (λ j l.
              let ne = lattice_ne lo r (k + k + 1) (j + j) pos (omega arith) in omega (arith, ne)))
          ∙ ap (bit c true t a) (omega arith) in
      let r2 =
        odd_even_merge-Rising t fuel (lo + r) n (r * 2) g (z1 / 2) (z2 / 2) a1 p (omega arith) e'
          (omega arith) (Halves-odd e1 odd_places s) in
      let even_places : (k : ℕ)
          → lattice_bits c t lo r a2 (k + k) ≡ lattice_bits c t lo (r * 2) a1 k =
        λ k.
          ap (bit c true t a2) (let q : lo + (k + k) * r ≡ lo + k * (r * 2) = omega arith in q)
          ∙ ap (bit_of c true t) (
              on2.outside (lo + k * (r * 2)) (λ j l.
                let ne = lattice_ne lo r (k + k) (j + j + 1) pos (omega arith) in
                omega (arith, ne))) in
      let odd_places2 : (k : ℕ)
          → lattice_bits c t lo r a2 (k + k + 1) ≡ lattice_bits c t (lo + r) (r * 2) a2 k =
        λ k. ap (bit c true t a2) (omega arith) in
      let paired =
        compare_pairs-Paired c t lo r h (h + h) n 0 (lo + r) a2 refl pos (omega arith)
          (omega arith) in
      rw (odd_even_merge_split fuel lo n r a big, stop)
        (Paired-rising g e1 s.le1 s.le2 (omega arith) (λ k l. even_places k ∙ r1 k (omega arith))
          (λ k l. odd_places2 k ∙ r2 k (omega arith)) paired)
