-- ===== src/Light/Sorts.antt =====
-- A sort, the pass over the elements that count, and a sort again: then the element with the key `k` is
-- at place `k`.
use mathlib.Core.Path.{subst}
use fosketch.Prelude.{
  ℕ, ◌^◌, ◌≤◌, ◌<◌, ◌≡◌, refl, sym, ap, ◌∙◌, ◌⊎◌, inl, inr, true, List, [], ◌∷◌, ◌++◌, Perm, some,
  arith, length, length-append, length-perm, length-take, length-drop, take, drop, take-append-drop,
  get_elem?, ltb,
}
use fosketch.Sorter.Order.{Comparator}
use fosketch.Sorter.Sorted.{IsSorted}
use fosketch.Sorter.Bitonic.{sort}
use fosketch.Sorter.Bitonic.Sorts.{sort-IsSorted}
use fosketch.Light.Pass.{max_pass}
use fosketch.Light.Gather.{
  number, below, best, number-append, best-append, best-none, number-perm, below-perm, best-perm,
}
use fosketch.Light.Ascending.{Ascending, Ascending-take, From-drop, number-From, IsSorted-Ascending}
use fosketch.Light.Groups.{Laws, pass_lookup, length-max_pass}

pub nonempty-cases {ℓ} :
    {A : Type ℓ} (l : List A) → (l ≡ []) ⊎ ((x : A) × (m : List A) × (l ≡ x ∷ m))
nonempty-cases [] = inl refl
nonempty-cases (x ∷ l) = inr (x, l, refl)

module _ {E : Type 0} {key value : E → ℕ} {join : E → E → E} {hide : E → E} {dummy : ℕ}
    (laws : Laws key value join hide dummy) (c : Comparator E)
    (agree : (x y : E) → c.greater x y ≡ ltb (key y) (key x)) where
  -- The pass over the first `num` of a sorted list, for any list that is sorted again.
  pass_sorted_lookup :
      (n k num : ℕ) (acc : E) (dump sorted zs : List E)
      → n ≤ dummy
      → k < n
      → Perm sorted dump
      → Ascending key sorted
      → below key value n dump ≡ num
      → ((j : ℕ) → j < n → 1 ≤ number key value j dump)
      → Perm zs (max_pass key join hide true acc (take num sorted) ++ drop num sorted)
      → IsSorted c (length zs) zs
      → (z : E) × (get_elem? zs k ≡ some z) × (key z ≡ k) × (value z ≡ best key value k dump)
  pass_sorted_lookup n k num acc dump sorted zs small lt p a few there q s =
      let front = take num sorted in
      let back = drop num sorted in
      let whole = take-append-drop num sorted in
      let far = From-drop key value n num sorted a (omega (arith, few, below-perm key value n p)) in
      let none_back : (j : ℕ) → j < n → number key value j back ≡ 0 =
        λ j less. number-From key value j n back less far in
      let front_number : (j : ℕ) → j < n → number key value j front ≡ number key value j dump =
        λ j less. omega (
          arith,
          ap (number key value j) whole,
          number-append key value j front back,
          none_back j less,
          number-perm key value j p,
        ) in
      let front_best : best key value k front ≡ best key value k dump = omega (
        arith,
        ap (best key value k) whole,
        best-append key value k front back,
        best-none key value k back (none_back k lt),
        best-perm key value k p,
      ) in
      elim (nonempty-cases front) [
        | inl e ↦ absurd (omega (arith, ap (number key value k) e, front_number k lt, there k lt))
        | inr f ↦
            let e = f.2 in
            let r =
              pass_lookup laws c n k acc f.0 f.1 back zs agree small lt
                (subst (Ascending key) e (Ascending-take key num sorted a))
                (λ j less.
                  omega (arith, ap (number key value j) e, front_number j less, there j less))
                none_back (subst (λ l. Perm zs (max_pass key join hide true acc l ++ back)) e q)
                s in
            (r.0, r.1, r.2, omega (arith, r.3, ap (best key value k) e, front_best))
      ]

  -- The same for the sorter of the class `BitonicSorter`.
  pub bitonic_lookup :
      (n k num len : ℕ) (acc : E) (dump : List E)
      → n ≤ dummy
      → k < n
      → len ≡ length dump
      → len ≤ 2 ^ 30
      → below key value n dump ≡ num
      → ((j : ℕ) → j < n → 1 ≤ number key value j dump)
      → let sorted = sort c dump len in
        let passed = max_pass key join hide true acc (take num sorted) ++ drop num sorted in
        (z : E) × (get_elem? (sort c passed len) k ≡ some z)
        × (key z ≡ k)
        × (value z ≡ best key value k dump)
  bitonic_lookup n k num len acc dump small lt full fits few there =
      let s1 = sort-IsSorted c dump len fits (omega (arith, full)) in
      let sorted = sort c dump len in
      let same_length : length sorted ≡ len = length-perm s1.1.perm ∙ omega (arith, full) in
      let a = IsSorted-Ascending key c len sorted agree (omega (arith, same_length)) s1.0 in
      let front = take num sorted in
      let passed = max_pass key join hide true acc front ++ drop num sorted in
      let passed_length : length passed ≡ len = omega (
        arith,
        length-append (max_pass key join hide true acc front) (drop num sorted),
        length-max_pass key join hide true acc front,
        length-take num sorted,
        length-drop num sorted,
        same_length,
      ) in
      let s2 = sort-IsSorted c passed len fits (omega (arith, passed_length)) in
      let zs = sort c passed len in
      let zs_length : length zs ≡ len = length-perm s2.1.perm ∙ passed_length in
      pass_sorted_lookup n k num acc dump sorted zs small lt s1.1.perm a few there s2.1.perm
        (subst (λ m. IsSorted c m zs) (sym zs_length) s2.0)
