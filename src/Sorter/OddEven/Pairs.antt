-- ===== src/Sorter/OddEven/Pairs.antt =====
-- The last loop of `oddEvenMerge`: it compares each odd place of the lattice with the next one.
use fosketch.Prelude.{
  ℕ, zero, suc, ◌+◌, ◌*◌, ◌≤◌, ◌<◌, ◌≡◌, refl, ◌∙◌, ◌⊎◌, inl, inr, Bool, true, false, ◌&&◌, ◌||◌,
  List, arith, ltb, ◌==◌, if◌then◌else◌, Bool-cases,
}
use native.Mathlib.Decide.{dec_lt}
use fosketch.Sorter.Order.{Comparator}
use fosketch.Sorter.Exchange.{compare, bit}
use fosketch.Sorter.OddEven.{compare_pairs}
use fosketch.Sorter.OddEven.Lattice.{
  OnLattice, OnLattice-refl, OnLattice-trans, compare-OnLattice, bit-compare_lattice, lattice-ltb,
}

-- `q` is `p` after the pairs `(2e + 1, 2e + 2)` with `k ≤ e` and `2e + 2 < count` were compared.
pub record Paired (count k : ℕ) (p q : ℕ → Bool) : Type 0 where
  pub first : (e : ℕ) → k ≤ e → e + e + 2 < count → q (e + e + 1) ≡ (p (e + e + 1) && p (e + e + 2))
  pub second :
      (e : ℕ) → k ≤ e → e + e + 2 < count → q (e + e + 2) ≡ (p (e + e + 1) || p (e + e + 2))
  pub rest : (j : ℕ) → (j < k + k + 1) ⊎ (count ≤ j + 1) → j < count → q j ≡ p j

Paired-done : {count k : ℕ} {p : ℕ → Bool} → count ≤ k + k + 2 → Paired count k p p
Paired-done h = record {
  first = λ e l u. absurd (omega arith);
  second = λ e l u. absurd (omega arith);
  rest = λ j o l. refl;
}

-- One pair, and then the later ones.
Paired-step :
    (k h : ℕ) {count : ℕ} {p p1 q : ℕ → Bool}
    → count ≡ h + h
    → k + k + 2 < count
    → ((y : ℕ)
        → p1 y ≡ (
            if k + k + 1 == y
            then p (k + k + 1) && p (suc (k + k + 1))
            else if suc (k + k + 1) == y
            then p (k + k + 1) || p (suc (k + k + 1))
            else p y))
    → Paired count (suc k) p1 q
    → Paired count k p q
Paired-step k h {count} even more hp s = record {
  first = λ e l u. elim (dec_lt k e) [
    | yes later ↦ s.first e later u ∙ ground (arith, hp (e + e + 1), hp (e + e + 2))
    | no now ↦
        let same : e ≡ k = omega arith in
        rw same
          (s.rest (k + k + 1) (inl (omega arith)) (omega arith) ∙ ground (arith, hp (k + k + 1)))
  ];
  second = λ e l u. elim (dec_lt k e) [
    | yes later ↦ s.second e later u ∙ ground (arith, hp (e + e + 1), hp (e + e + 2))
    | no now ↦
        let same : e ≡ k = omega arith in
        rw same
          (s.rest (k + k + 2) (inl (omega arith)) (omega arith) ∙ ground (arith, hp (k + k + 2)))
  ];
  rest = λ j o l. s.rest j (ground arith) l ∙ ground (arith, hp j);
}

module _ {ℓ} {A : Type ℓ} (c : Comparator A) where
  abbrev pub lattice_bits : A → ℕ → ℕ → List A → ℕ → Bool
  lattice_bits t lo r a j = bit c true t a (lo + j * r)

  -- The loop's two cases. Its test compares places of the lattice.
  compare_pairs_stop :
      (fuel r m stop i : ℕ) (a : List A)
      → ltb (i + r) stop ≡ false
      → compare_pairs c fuel r m stop i a ≡ a
  unfolding compare_pairs
  compare_pairs_stop zero r m stop i a e = refl
  compare_pairs_stop (suc fuel) r m stop i a e = rw (e, compare_pairs)

  compare_pairs_go :
      (fuel r m stop i : ℕ) (a : List A)
      → ltb (i + r) stop ≡ true
      → compare_pairs c (suc fuel) r m stop i a
        ≡ compare_pairs c fuel r m stop (i + m) (compare c true a i (i + r))
  unfolding compare_pairs
  compare_pairs_go fuel r m stop i a e = rw (e, compare_pairs)

  pub compare_pairs-OnLattice :
      (lo r count fuel k i : ℕ) (a : List A)
      → 0 < r
      → i ≡ lo + (k + k + 1) * r
      → OnLattice lo count r a (compare_pairs c fuel r (r * 2) (lo + count * r) i a)
  compare_pairs-OnLattice lo r count zero k i a pos at =
      unfold compare_pairs in OnLattice-refl lo count r a
  compare_pairs-OnLattice lo r count (suc fuel) k i a pos at =
      let e0 : i + r ≡ lo + suc (k + k + 1) * r = omega (arith, at) in
      elim (Bool-cases (ltb (i + r) (lo + count * r))) [
        | inr stop ↦
            rw (compare_pairs_stop (suc fuel) r (r * 2) (lo + count * r) i a stop)
              (OnLattice-refl lo count r a)
        | inl go ↦
            let more : k + k + 2 < count =
              ground (arith, lattice-ltb lo r (suc (k + k + 1)) count) in
            rw (compare_pairs_go fuel r (r * 2) (lo + count * r) i a go) (
              OnLattice-trans
                (rw (e0, at)
                  (compare-OnLattice c lo count r (k + k + 1) (suc (k + k + 1)) a pos (omega arith)
                    (omega arith) (omega arith)))
                (compare_pairs-OnLattice lo r count fuel (suc k) (i + r * 2) _ pos
                  (omega (arith, at))))
      ]

  pub compare_pairs-Paired :
      (t : A) (lo r h count : ℕ) (fuel k i : ℕ) (a : List A)
      → count ≡ h + h
      → 0 < r
      → i ≡ lo + (k + k + 1) * r
      → count ≤ fuel + k + 1
      → Paired count k
          (lattice_bits t lo r a)
          (lattice_bits t lo r (compare_pairs c fuel r (r * 2) (lo + count * r) i a))
  compare_pairs-Paired t lo r h count zero k i a even pos at enough =
      unfold compare_pairs in Paired-done (omega arith)
  compare_pairs-Paired t lo r h count (suc fuel) k i a even pos at enough =
      let e0 : i + r ≡ lo + suc (k + k + 1) * r = omega (arith, at) in
      elim (Bool-cases (ltb (i + r) (lo + count * r))) [
        | inr stop ↦
            rw (compare_pairs_stop (suc fuel) r (r * 2) (lo + count * r) i a stop)
              (Paired-done (ground (arith, lattice-ltb lo r (suc (k + k + 1)) count)))
        | inl go ↦
            let more : k + k + 2 < count =
              ground (arith, lattice-ltb lo r (suc (k + k + 1)) count) in
            rw (compare_pairs_go fuel r (r * 2) (lo + count * r) i a go) (
              Paired-step k h even more
                (λ y. rw (e0, at) (bit-compare_lattice c t lo r (k + k + 1) y a pos))
                (compare_pairs-Paired t lo r h count fuel (suc k) (i + r * 2) _ even pos
                  (omega (arith, at)) (omega arith)))
      ]
