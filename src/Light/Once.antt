-- ===== src/Light/Once.antt =====
-- A sort, the pass over the elements that count, and a sort again, for elements of which some keys may be
-- missing: then no key is there twice, and the elements that count stand in front.
use mathlib.Core.Path.{subst}
use fosketch.Prelude.{
  ℕ, ◌≤◌, ◌<◌, ◌≡◌, sym, ap, ◌∙◌, inl, inr, true, List, ◌∷◌, ◌++◌, Perm, arith, length, take, drop,
  take-append-drop, length-take, length-perm, min,
}
use fosketch.Light.Pass.{max_pass}
use fosketch.Light.Gather.{
  number, below, best, number-append, total-append, total-none, best-append, best-none, number-perm,
  below-perm, total-perm, best-perm, below_atmost, best-total,
}
use fosketch.Light.Ascending.{Ascending, Ascending-take, From-drop, number-From}
use fosketch.Light.Groups.{Laws, pass-number, pass-total}
use fosketch.Light.Sorts.{nonempty-cases}

module _ {E : Type 0} {key value : E → ℕ} {join : E → E → E} {hide : E → E} {dummy : ℕ}
    (laws : Laws key value join hide dummy) where
  -- What the pass over a front with all elements below `n` leaves of a key.
  pub pass_once :
      (n k num : ℕ) (acc : E) (dump sorted zs : List E)
      → n ≤ dummy
      → k < n
      → Perm sorted dump
      → Ascending key sorted
      → below key value n dump ≤ num
      → 1 ≤ num
      → 1 ≤ length dump
      → Perm zs (max_pass key join hide true acc (take num sorted) ++ drop num sorted)
      → (number key value k zs ≡ min 1 (number key value k dump))
        × (best key value k zs ≡ best key value k dump)
  pass_once n k num acc dump sorted zs small lt p a few some_place some_element q =
      let front = take num sorted in
      let back = drop num sorted in
      let whole = take-append-drop num sorted in
      let far = From-drop key value n num sorted a (omega (arith, few, below-perm key value n p)) in
      let none_back : number key value k back ≡ 0 = number-From key value k n back lt far in
      elim (nonempty-cases front) [
        | inl e ↦ absurd (omega (arith, ap length e, length-take num sorted, length-perm p))
        | inr f ↦
            let (x, l, e) = f in
            let a' : Ascending key (x ∷ l) =
              subst (Ascending key) e (Ascending-take key num sorted a) in
            let ys = max_pass key join hide true acc (x ∷ l) in
            let q' : Perm zs (ys ++ back) =
              subst (λ m. Perm zs (max_pass key join hide true acc m ++ back)) e q in
            let whole' : (x ∷ l) ++ back ≡ sorted = ap (λ m. m ++ back) (sym e) ∙ whole in
            let once =
              pass-number laws k true acc x l (λ d. absurd (omega (arith, d))) (λ d. absurd (cc))
                a' in
            let all =
              pass-total laws k true acc x l (λ d. absurd (omega (arith, d))) (λ d. absurd (cc))
                a' in
            let number_zs : number key value k zs ≡ min 1 (number key value k dump) = omega (
              arith,
              number-perm key value k q',
              number-append key value k ys back,
              number-append key value k (x ∷ l) back,
              ap (number key value k) whole',
              number-perm key value k p,
              once,
              none_back,
            ) in
            (
              number_zs,
              omega (
                arith,
                best-total key value k zs (omega (arith, number_zs)),
                total-perm key value k q',
                total-append key value k ys back,
                total-none key value k back none_back,
                all,
                best-append key value k (x ∷ l) back,
                best-none key value k back none_back,
                ap (best key value k) whole',
                best-perm key value k p,
              ),
            )
      ]

-- In a sorted list in which no key below `n` is there twice, all of them are among the first `n`.
module _ {E : Type 0} (key value : E → ℕ) (n : ℕ) (zs : List E) (a : Ascending key zs)
    (few : (j : ℕ) → j < n → number key value j zs ≤ 1) where
  pub number-drop_front : (k : ℕ) → k < n → number key value k (drop n zs) ≡ 0
  number-drop_front k lt =
      number-From key value k n (drop n zs) lt
        (From-drop key value n n zs a (below_atmost key value n zs few))

  pub best-take_front : (k : ℕ) → k < n → best key value k (take n zs) ≡ best key value k zs
  best-take_front k lt = omega (
    arith,
    best-append key value k (take n zs) (drop n zs),
    ap (best key value k) (take-append-drop n zs),
    best-none key value k (drop n zs) (number-drop_front k lt),
  )

  pub number-take_front : (k : ℕ) → k < n → number key value k (take n zs) ≡ number key value k zs
  number-take_front k lt = omega (
    arith,
    number-append key value k (take n zs) (drop n zs),
    ap (number key value k) (take-append-drop n zs),
    number-drop_front k lt,
  )
