-- ===== src/Light/Gather.antt =====
-- What is gathered from a list whatever its order.
use mathlib.Core.List.{Permᴰ}
use mathlib.Core.Logic.{∥∥₁_elim}
use native.Mathlib.Nat.{ℕ_set}
use fosketch.Prelude.{
  ℕ, zero, suc, ◌+◌, ◌≤◌, ◌<◌, ◌≡◌, refl, ap, ◌∙◌, List, [], ◌∷◌, ◌++◌, Perm, arith, max, ltb, ◌==◌,
  if◌then◌else◌,
}

module _ {E : Type 0} (op : ℕ → ℕ → ℕ) (w : E → ℕ) where
  abbrev pub gather : List E → ℕ
  gather [] = 0
  gather (x ∷ l) = op (w x) (gather l)

  module _ (exchange : (a b c : ℕ) → op a (op b c) ≡ op b (op a c)) where
    gather-Permᴰ : {xs ys : List E} → Permᴰ xs ys → gather xs ≡ gather ys
    gather-Permᴰ Permᴰ.nil = refl
    gather-Permᴰ (Permᴰ.cons {b = b} e p) = rw e (ap (op (w b)) (gather-Permᴰ p))
    gather-Permᴰ (Permᴰ.swap {a' = a'} {b' = b'} {l = l} e f) = rw (e, f) (exchange _ _ (gather l))
    gather-Permᴰ (Permᴰ.trans p q) = gather-Permᴰ p ∙ gather-Permᴰ q

    pub gather-perm : {xs ys : List E} → Perm xs ys → gather xs ≡ gather ys
    gather-perm p = ∥∥₁_elim p (ℕ_set _ _) gather-Permᴰ

module _ {E : Type 0} (key value : E → ℕ) (k : ℕ) where
  -- How many elements have the key, and how many have a smaller one.
  abbrev pub number : List E → ℕ
  number = gather ◌+◌ (λ x. if key x == k then 1 else 0)

  abbrev pub below : List E → ℕ
  below = gather ◌+◌ (λ x. if ltb (key x) k then 1 else 0)

  -- The sum, and the greatest, of the values with the key.
  abbrev pub total : List E → ℕ
  total = gather ◌+◌ (λ x. if key x == k then value x else 0)

  abbrev pub best : List E → ℕ
  best = gather max (λ x. if key x == k then value x else 0)

module _ {E : Type 0} (key value : E → ℕ) (k : ℕ) where
  pub number-append :
      (xs ys : List E)
      → number key value k (xs ++ ys) ≡ number key value k xs + number key value k ys
  number-append [] ys = omega arith
  number-append (x ∷ xs) ys = omega (arith, number-append xs ys)

  pub below-append :
      (xs ys : List E) → below key value k (xs ++ ys) ≡ below key value k xs + below key value k ys
  below-append [] ys = omega arith
  below-append (x ∷ xs) ys = omega (arith, below-append xs ys)

  pub total-append :
      (xs ys : List E) → total key value k (xs ++ ys) ≡ total key value k xs + total key value k ys
  total-append [] ys = omega arith
  total-append (x ∷ xs) ys = omega (arith, total-append xs ys)

  pub best-append :
      (xs ys : List E)
      → best key value k (xs ++ ys) ≡ max (best key value k xs) (best key value k ys)
  best-append [] ys = omega arith
  best-append (x ∷ xs) ys = omega (arith, best-append xs ys)

  pub total-none : (l : List E) → number key value k l ≡ 0 → total key value k l ≡ 0
  total-none [] e = refl
  total-none (x ∷ l) e = ground (arith, total-none l)

  pub best-none : (l : List E) → number key value k l ≡ 0 → best key value k l ≡ 0
  best-none [] e = refl
  best-none (x ∷ l) e = ground (arith, best-none l)

module _ {E : Type 0} (key value : E → ℕ) where
  below-suc :
      (k : ℕ) (l : List E) → below key value (suc k) l ≡ below key value k l + number key value k l
  below-suc k [] = omega arith
  below-suc k (x ∷ l) = ground (arith, below-suc k l)

  below-zero : (l : List E) → below key value 0 l ≡ 0
  below-zero [] = refl
  below-zero (x ∷ l) = ground (arith, below-zero l)

  -- If no key below `k` is there twice, at most `k` elements have a smaller key.
  pub below_atmost :
      (k : ℕ) (l : List E) → ((j : ℕ) → j < k → number key value j l ≤ 1) → below key value k l ≤ k
  below_atmost zero l few = omega (arith, below-zero l)
  below_atmost (suc k) l few =
      omega
        (arith, below-suc k l, below_atmost k l (λ j lt. few j (omega arith)), few k (omega arith))

  -- The greatest value of a key that is there at most once is the sum of its values.
  pub best-total :
      (k : ℕ) (l : List E) → number key value k l ≤ 1 → best key value k l ≡ total key value k l
  best-total k [] le = refl
  best-total k (x ∷ l) le =
      ground (arith, best-total k l, best-none key value k l, total-none key value k l)

  -- If every key below `k` is there once, `k` elements have a smaller key.
  pub below_once :
      (k : ℕ) (l : List E) → ((j : ℕ) → j < k → number key value j l ≡ 1) → below key value k l ≡ k
  below_once zero l once = below-zero l
  below_once (suc k) l once =
      omega
        (arith, below-suc k l, below_once k l (λ j lt. once j (omega arith)), once k (omega arith))

add_exchange : (a b c : ℕ) → a + (b + c) ≡ b + (a + c)
add_exchange a b c = omega arith

max_exchange : (a b c : ℕ) → max a (max b c) ≡ max b (max a c)
max_exchange a b c = omega arith

module _ {E : Type 0} (key value : E → ℕ) (k : ℕ) {xs ys : List E} (p : Perm xs ys) where
  pub number-perm : number key value k xs ≡ number key value k ys
  number-perm = gather-perm ◌+◌ _ add_exchange p

  pub below-perm : below key value k xs ≡ below key value k ys
  below-perm = gather-perm ◌+◌ _ add_exchange p

  pub total-perm : total key value k xs ≡ total key value k ys
  total-perm = gather-perm ◌+◌ _ add_exchange p

  pub best-perm : best key value k xs ≡ best key value k ys
  best-perm = gather-perm max _ max_exchange p
