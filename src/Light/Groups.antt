-- ===== src/Light/Groups.antt =====
-- The pass leaves each key once, with the greatest of its values.
use fosketch.Prelude.{
  ℕ, suc, ◌+◌, ◌≤◌, ◌<◌, ◌≡◌, ◌≢◌, refl, ap, inl, inr, Bool, true, false, Bool-cases, List, [], ◌∷◌,
  ◌++◌, Perm, some, length, get_elem?, arith, max, min, ltb, ◌==◌, if◌then◌else◌,
}
use fosketch.Sorter.Exchange.{o_move}
use fosketch.Light.Pass.{max_pass}
use fosketch.Sorter.Order.{Comparator}
use fosketch.Sorter.Sorted.{IsSorted}
use fosketch.Light.Gather.{
  number, total, best, number-append, total-append, total-none, below_once, number-perm, total-perm,
}
use fosketch.Light.Ascending.{
  From, Ascending, number-From, IsSorted-Ascending, find_key, total-alone,
}

-- The pass keeps the number of elements.
pub length-max_pass :
    {E : Type 0} (key : E → ℕ) (join : E → E → E) (hide : E → E) (cond : Bool) (acc : E)
    (l : List E)
    → length (max_pass key join hide cond acc l) ≡ length l
unfolding max_pass
length-max_pass key join hide cond acc [] = refl
length-max_pass key join hide cond acc (x ∷ []) = refl
length-max_pass key join hide cond acc (x ∷ y ∷ l) =
    let x' = o_move x (join acc x) cond in
    ap suc (length-max_pass key join hide (ltb (key x') (key y)) x' (y ∷ l))

-- What the pass needs of the elements' operations, for one of the values that an element has.
pub record Laws {E : Type 0} (key value : E → ℕ) (join : E → E → E) (hide : E → E) (dummy : ℕ)
    : Type 0 where
  pub key-join : (a x : E) → key a ≡ key x → key (join a x) ≡ key x
  pub value-join : (a x : E) → value (join a x) ≡ max (value a) (value x)
  pub key-hide : (x : E) → key (hide x) ≡ dummy

module _ {E : Type 0} {key value : E → ℕ} {join : E → E → E} {hide : E → E} {dummy : ℕ}
    (laws : Laws key value join hide dummy) where
  -- Below the smallest key of a list nothing is gathered.
  best-From : (k m : ℕ) (l : List E) → k < m → From key m l → best key value k l ≡ 0
  best-From k m [] lt f = refl
  best-From k m (x ∷ l) lt f = ground (arith, best-From k m l lt f.1, f.0)

  -- With the key of an open run, `acc` counts as one more element in front.
  abbrev carried : ℕ → Bool → E → ℕ → ℕ
  carried k cond acc m = if cond then 0 else if m == k then value acc else 0

  moved-key :
      (cond : Bool) (acc x : E)
      → (cond ≡ false → key acc ≡ key x)
      → key (o_move x (join acc x) cond) ≡ key x
  moved-key true acc x run = refl
  moved-key false acc x run = laws.key-join acc x (run refl)

  moved-value :
      (cond : Bool) (acc x : E)
      → value (o_move x (join acc x) cond) ≡ max (if cond then 0 else value acc) (value x)
  moved-value true acc x = omega arith
  moved-value false acc x = laws.value-join acc x

  sum_up :
      (k : ℕ) (cond : Bool) (acc x x' y : E) (s b : ℕ)
      → key x' ≡ key x
      → value x' ≡ max (if cond then 0 else value acc) (value x)
      → ltb (key x') (key y) ≡ true
      → s ≡ max 0 (max (if key y == k then value y else 0) b)
      → (k < key y → b ≡ 0)
      → (if key x' == k then value x' else 0) + s
        ≡ max
            (carried k cond acc (key x))
            (max (if key x == k then value x else 0) (max (if key y == k then value y else 0) b))
  sum_up k cond acc x x' y s b at worth up ih none_left = ground (arith, at, worth, up, ih)

  sum_flat :
      (k : ℕ) (cond : Bool) (acc x x' y : E) (s b : ℕ)
      → k ≢ dummy
      → key x' ≡ key x
      → value x' ≡ max (if cond then 0 else value acc) (value x)
      → key x' ≡ key y
      → s ≡ max (carried k false x' (key y)) (max (if key y == k then value y else 0) b)
      → (if key (hide x') == k then value (hide x') else 0) + s
        ≡ max
            (carried k cond acc (key x))
            (max (if key x == k then value x else 0) (max (if key y == k then value y else 0) b))
  sum_flat k cond acc x x' y s b real at worth same ih =
      ground (arith, at, worth, same, ih, laws.key-hide x')

  pass_up :
      (cond : Bool) (acc x y : E) (l : List E)
      → let x' = o_move x (join acc x) cond in
        ltb (key x') (key y) ≡ true
        → max_pass key join hide cond acc (x ∷ y ∷ l) ≡ x' ∷ max_pass key join hide true x' (y ∷ l)
  unfolding max_pass
  pass_up cond acc x y l up = rw up refl

  pass_flat :
      (cond : Bool) (acc x y : E) (l : List E)
      → let x' = o_move x (join acc x) cond in
        ltb (key x') (key y) ≡ false
        → max_pass key join hide cond acc (x ∷ y ∷ l)
          ≡ hide x' ∷ max_pass key join hide false x' (y ∷ l)
  unfolding max_pass
  pass_flat cond acc x y l flat = rw flat refl

  pass_one :
      (cond : Bool) (acc x : E)
      → max_pass key join hide cond acc (x ∷ []) ≡ o_move x (join acc x) cond ∷ []
  unfolding max_pass
  pass_one cond acc x = refl

  -- The values of a key after the pass: the greatest, at one element.
  pub pass-total :
      (k : ℕ) (cond : Bool) (acc x : E) (l : List E)
      → k ≢ dummy
      → (cond ≡ false → key acc ≡ key x)
      → Ascending key (x ∷ l)
      → total key value k (max_pass key join hide cond acc (x ∷ l))
        ≡ max (carried k cond acc (key x)) (best key value k (x ∷ l))
  pass-total k cond acc x [] real run a =
      rw (pass_one cond acc x) (ground (arith, moved-key cond acc x run, moved-value cond acc x))
  pass-total k cond acc x (y ∷ l) real run a =
      let x' = o_move x (join acc x) cond in
      let at : key x' ≡ key x = moved-key cond acc x run in
      let worth : value x' ≡ max (if cond then 0 else value acc) (value x) =
        moved-value cond acc x in
      elim (Bool-cases (ltb (key x') (key y))) [
        | inl up ↦
            let ih = pass-total k true x' y l real (λ e. absurd (cc)) a.1 in
            let none_left = λ (lt : k < key y). best-From k (key y) l lt a.1.0 in
            rw (pass_up cond acc x y l up) (sum_up k cond acc x x' y _ _ at worth up ih none_left)
        | inr flat ↦
            let same : key x' ≡ key y = ground (arith, at, flat, a.0.0) in
            let ih = pass-total k false x' y l real (λ e. same) a.1 in
            rw (pass_flat cond acc x y l flat)
              (sum_flat k cond acc x x' y _ _ real at worth same ih)
      ]

  once_up :
      (k : ℕ) (x x' y : E) (s n : ℕ)
      → key x' ≡ key x
      → ltb (key x') (key y) ≡ true
      → s ≡ min 1 ((if key y == k then 1 else 0) + n)
      → (k < key y → n ≡ 0)
      → (if key x' == k then 1 else 0) + s
        ≡ min 1 ((if key x == k then 1 else 0) + ((if key y == k then 1 else 0) + n))
  once_up k x x' y s n at up ih none_left = ground (arith, at, up, ih)

  once_flat :
      (k : ℕ) (x x' y : E) (s n : ℕ)
      → k ≢ dummy
      → key x' ≡ key x
      → key x' ≡ key y
      → s ≡ min 1 ((if key y == k then 1 else 0) + n)
      → (if key (hide x') == k then 1 else 0) + s
        ≡ min 1 ((if key x == k then 1 else 0) + ((if key y == k then 1 else 0) + n))
  once_flat k x x' y s n real at same ih = ground (arith, at, same, ih, laws.key-hide x')

  -- A key that is there is there once after the pass.
  pub pass-number :
      (k : ℕ) (cond : Bool) (acc x : E) (l : List E)
      → k ≢ dummy
      → (cond ≡ false → key acc ≡ key x)
      → Ascending key (x ∷ l)
      → number key value k (max_pass key join hide cond acc (x ∷ l))
        ≡ min 1 (number key value k (x ∷ l))
  pass-number k cond acc x [] real run a =
      rw (pass_one cond acc x) (ground (arith, moved-key cond acc x run))
  pass-number k cond acc x (y ∷ l) real run a =
      let x' = o_move x (join acc x) cond in
      let at : key x' ≡ key x = moved-key cond acc x run in
      elim (Bool-cases (ltb (key x') (key y))) [
        | inl up ↦
            let ih = pass-number k true x' y l real (λ e. absurd (cc)) a.1 in
            let none_left = λ (lt : k < key y). number-From key value k (key y) l lt a.1.0 in
            rw (pass_up cond acc x y l up) (once_up k x x' y _ _ at up ih none_left)
        | inr flat ↦
            let same : key x' ≡ key y = ground (arith, at, flat, a.0.0) in
            let ih = pass-number k false x' y l real (λ e. same) a.1 in
            rw (pass_flat cond acc x y l flat) (once_flat k x x' y _ _ real at same ih)
      ]

  -- After the pass over a sorted list, a list that is sorted again has the key `k` at place `k`, with
  -- the greatest value of the key, if every key below `n` is there and the rest has greater keys.
  pub pass_lookup :
      (c : Comparator E) (n k : ℕ) (acc x : E) (l rest zs : List E)
      → ((x y : E) → c.greater x y ≡ ltb (key y) (key x))
      → n ≤ dummy
      → k < n
      → Ascending key (x ∷ l)
      → ((j : ℕ) → j < n → 1 ≤ number key value j (x ∷ l))
      → ((j : ℕ) → j < n → number key value j rest ≡ 0)
      → Perm zs (max_pass key join hide true acc (x ∷ l) ++ rest)
      → IsSorted c (length zs) zs
      → (z : E) × (get_elem? zs k ≡ some z) × (key z ≡ k) × (value z ≡ best key value k (x ∷ l))
  pass_lookup c n k acc x l rest zs agree small lt a there other p s =
      let ys = max_pass key join hide true acc (x ∷ l) in
      let once : (j : ℕ) → j < n → number key value j zs ≡ 1 = λ j in_range.
        let pass =
          pass-number j true acc x l (λ e. absurd (omega (arith, e))) (λ e. absurd (cc)) a in
        omega (
          arith,
          number-perm key value j p,
          number-append key value j ys rest,
          pass,
          there j in_range,
          other j in_range,
        ) in
      let front = below_once key value k zs (λ j less. once j (omega arith)) in
      let up = IsSorted-Ascending key c (length zs) zs agree refl s in
      let found =
        find_key key value k zs k up (omega (arith, front)) (omega (arith, front, once k lt)) in
      let all = pass-total k true acc x l (λ e. absurd (omega (arith, e))) (λ e. absurd (cc)) a in
      (
        found.0,
        found.1,
        found.2,
        omega (
          arith,
          total-alone key value k zs k found.0 found.1 found.2 (once k lt),
          total-perm key value k p,
          total-append key value k ys rest,
          total-none key value k rest (other k lt),
          all,
        ),
      )
