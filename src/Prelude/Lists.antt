-- ===== src/Prelude/Lists.antt =====
-- Arrays as lists, measured and indexed by native numbers, under the library's names.
use Prim.Native.Nat.{ℕ, zero, suc, ◌+◌, ◌-◌, ◌<◌, ◌≤◌, min}
use mathlib.Core.Path.{◌≡◌, refl, ap, ◌∙◌}
use mathlib.Core.Logic.{◌≢◌, ∥∥₁_elim}
use native.Mathlib.Nat.{ℕ_set}
use mathlib.Core.List.{List, [], ◌∷◌, ◌++◌, Perm, Permᴰ}
use mathlib.Core.List.Perm
use mathlib.Core.Option.{Option, none, some}
use native.Mathlib.Omega.{arith}
use fosketch.Prelude.Tests.{◌==◌, if◌then◌else◌}

module _ {ℓ} {A : Type ℓ} where
  abbrev pub length : List A → ℕ
  length [] = 0
  length (x ∷ xs) = suc (length xs)

  abbrev pub get_elem? : List A → ℕ → Option A
  get_elem? [] i = none
  get_elem? (x ∷ xs) zero = some x
  get_elem? (x ∷ xs) (suc i) = get_elem? xs i

  -- A write out of bounds changes nothing.
  abbrev pub set : List A → ℕ → A → List A
  set [] i v = []
  set (x ∷ xs) zero v = v ∷ xs
  set (x ∷ xs) (suc i) v = x ∷ set xs i v

  abbrev pub get_or : List A → ℕ → A → A
  get_or [] i d = d
  get_or (x ∷ xs) zero d = x
  get_or (x ∷ xs) (suc i) d = get_or xs i d

  abbrev pub take : ℕ → List A → List A
  take zero xs = []
  take (suc n) [] = []
  take (suc n) (x ∷ xs) = x ∷ take n xs

  abbrev pub drop : ℕ → List A → List A
  drop zero xs = xs
  drop (suc n) [] = []
  drop (suc n) (x ∷ xs) = drop n xs

  abbrev pub replicate : ℕ → A → List A
  replicate zero a = []
  replicate (suc n) a = a ∷ replicate n a

abbrev pub AreBytes : List ℕ → Type 0
AreBytes [] = Unit {0}
AreBytes (x ∷ bytes) = (x < 256) × AreBytes bytes

module _ {ℓ} {A : Type ℓ} where
  pub length-append : (xs ys : List A) → length (xs ++ ys) ≡ length xs + length ys
  length-append [] ys = omega arith
  length-append (x ∷ xs) ys = omega (arith, length-append xs ys)

  pub length-set : (xs : List A) (i : ℕ) (v : A) → length (set xs i v) ≡ length xs
  length-set [] i v = refl
  length-set (x ∷ xs) zero v = refl
  length-set (x ∷ xs) (suc i) v = ap suc (length-set xs i v)

  pub get_elem?-set_self :
      (xs : List A) (i : ℕ) (v : A) → i < length xs → get_elem? (set xs i v) i ≡ some v
  get_elem?-set_self [] i v h = elim h [ ]
  get_elem?-set_self (x ∷ xs) zero v h = refl
  get_elem?-set_self (x ∷ xs) (suc i) v h = get_elem?-set_self xs i v (omega arith)

  pub get_elem?-set_ne :
      (xs : List A) (i j : ℕ) (v : A) → i ≢ j → get_elem? (set xs i v) j ≡ get_elem? xs j
  get_elem?-set_ne [] i j v h = refl
  get_elem?-set_ne (x ∷ xs) zero zero v h = absurd (h refl)
  get_elem?-set_ne (x ∷ xs) zero (suc j) v h = refl
  get_elem?-set_ne (x ∷ xs) (suc i) zero v h = refl
  get_elem?-set_ne (x ∷ xs) (suc i) (suc j) v h = get_elem?-set_ne xs i j v (λ e. h (ap suc e))

  -- A write at an index that holds something, in the form of a test.
  pub get_elem?-set :
      (xs : List A) (i j : ℕ) (v u : A)
      → get_elem? xs i ≡ some u
      → get_elem? (set xs i v) j ≡ (if i == j then some v else get_elem? xs j)
  get_elem?-set [] i j v u h = ground arith
  get_elem?-set (x ∷ xs) zero zero v u h = refl
  get_elem?-set (x ∷ xs) zero (suc j) v u h = ground arith
  get_elem?-set (x ∷ xs) (suc i) zero v u h = ground arith
  get_elem?-set (x ∷ xs) (suc i) (suc j) v u h = ground (arith, get_elem?-set xs i j v u)

  -- Beyond the first missing index there is nothing.
  pub get_elem?-none_mono :
      (xs : List A) (i j : ℕ) → i ≤ j → get_elem? xs i ≡ none → get_elem? xs j ≡ none
  get_elem?-none_mono [] i j h e = refl
  get_elem?-none_mono (x ∷ xs) zero j h e = cc
  get_elem?-none_mono (x ∷ xs) (suc i) zero h e = absurd (omega arith)
  get_elem?-none_mono (x ∷ xs) (suc i) (suc j) h e = get_elem?-none_mono xs i j (omega arith) e

  pub lt-length : (xs : List A) (i : ℕ) {v : A} → get_elem? xs i ≡ some v → i < length xs
  lt-length [] i h = ground arith
  lt-length (x ∷ xs) zero h = omega arith
  lt-length (x ∷ xs) (suc i) h = omega (arith, lt-length xs i h)

  pub get_elem?-some : (xs : List A) (i : ℕ) → i < length xs → (v : A) × (get_elem? xs i ≡ some v)
  get_elem?-some [] i h = absurd (omega arith)
  get_elem?-some (x ∷ xs) zero h = (x, refl)
  get_elem?-some (x ∷ xs) (suc i) h = get_elem?-some xs i (omega arith)

  pub get_elem?-append_before :
      (xs ys : List A) (j : ℕ) → j < length xs → get_elem? (xs ++ ys) j ≡ get_elem? xs j
  get_elem?-append_before [] ys j lt = absurd (omega arith)
  get_elem?-append_before (x ∷ xs) ys zero lt = refl
  get_elem?-append_before (x ∷ xs) ys (suc j) lt = get_elem?-append_before xs ys j (omega arith)

  pub get_elem?-append_behind :
      (xs ys : List A) (n j : ℕ) → n ≡ length xs → get_elem? (xs ++ ys) (n + j) ≡ get_elem? ys j
  get_elem?-append_behind [] ys n j e = ap (get_elem? ys) (omega (arith, e))
  get_elem?-append_behind (x ∷ xs) ys zero j e = absurd (omega (arith, e))
  get_elem?-append_behind (x ∷ xs) ys (suc n) j e =
      let next : suc n + j ≡ suc (n + j) = omega arith in
      ap (get_elem? (x ∷ xs ++ ys)) next ∙ get_elem?-append_behind xs ys n j (omega (arith, e))

  pub get_or-get : (xs : List A) (i : ℕ) (d x : A) → get_elem? xs i ≡ some x → get_or xs i d ≡ x
  get_or-get [] i d x e = absurd (cc)
  get_or-get (y ∷ xs) zero d x e = cc
  get_or-get (y ∷ xs) (suc i) d x e = get_or-get xs i d x e

  pub take-append-drop : (n : ℕ) (xs : List A) → take n xs ++ drop n xs ≡ xs
  take-append-drop zero xs = refl
  take-append-drop (suc n) [] = refl
  take-append-drop (suc n) (x ∷ xs) = ap (◌∷◌ x) (take-append-drop n xs)

  pub take-append_length : (xs ys : List A) (n : ℕ) → n ≡ length xs → take n (xs ++ ys) ≡ xs
  take-append_length [] ys zero e = refl
  take-append_length [] ys (suc n) e = absurd (omega (arith, e))
  take-append_length (x ∷ xs) ys zero e = absurd (omega (arith, e))
  take-append_length (x ∷ xs) ys (suc n) e =
      ap (◌∷◌ x) (take-append_length xs ys n (omega (arith, e)))

  pub drop-append_length : (xs ys : List A) (n : ℕ) → n ≡ length xs → drop n (xs ++ ys) ≡ ys
  drop-append_length [] ys zero e = refl
  drop-append_length [] ys (suc n) e = absurd (omega (arith, e))
  drop-append_length (x ∷ xs) ys zero e = absurd (omega (arith, e))
  drop-append_length (x ∷ xs) ys (suc n) e = drop-append_length xs ys n (omega (arith, e))

  pub take-append :
      (xs ys : List A) (n m : ℕ) → n ≡ length xs + m → take n (xs ++ ys) ≡ xs ++ take m ys
  take-append [] ys n m e = ap (λ k. take k ys) (omega (arith, e))
  take-append (x ∷ xs) ys zero m e = absurd (omega (arith, e))
  take-append (x ∷ xs) ys (suc n) m e = ap (◌∷◌ x) (take-append xs ys n m (omega (arith, e)))

  pub length-take : (n : ℕ) (xs : List A) → length (take n xs) ≡ min n (length xs)
  length-take zero xs = omega arith
  length-take (suc n) [] = omega arith
  length-take (suc n) (x ∷ xs) = omega (arith, length-take n xs)

  pub length-drop : (n : ℕ) (xs : List A) → length (drop n xs) ≡ length xs - n
  length-drop zero xs = omega arith
  length-drop (suc n) [] = omega arith
  length-drop (suc n) (x ∷ xs) = omega (arith, length-drop n xs)

  pub length-replicate : (n : ℕ) (a : A) → length (replicate n a) ≡ n
  length-replicate zero a = refl
  length-replicate (suc n) a = ap suc (length-replicate n a)

  -- A write trades the value that stood there for the new one.
  pub set-perm :
      (xs : List A) (i : ℕ) (v : A) {u : A}
      → get_elem? xs i ≡ some u
      → Perm (u ∷ set xs i v) (v ∷ xs)
  set-perm [] i v h = absurd (cc)
  set-perm (x ∷ xs) zero v {u} h = let e : x ≡ u = cc in rw (← e) (Perm.swap v x xs)
  set-perm (x ∷ xs) (suc i) v {u} h =
      Perm.trans (Perm.swap x u _) (Perm.trans (Perm.cons x (set-perm xs i v h)) (Perm.swap v x xs))

  length-Permᴰ : {xs ys : List A} → Permᴰ xs ys → length xs ≡ length ys
  length-Permᴰ (Permᴰ.trans left right) = length-Permᴰ left ∙ length-Permᴰ right
  length-Permᴰ (Permᴰ.swap _ _) = refl
  length-Permᴰ (Permᴰ.cons _ tails) = ap suc (length-Permᴰ tails)
  length-Permᴰ Permᴰ.nil = refl

  pub length-perm : {xs ys : List A} → Perm xs ys → length xs ≡ length ys
  length-perm p = ∥∥₁_elim p (ℕ_set _ _) length-Permᴰ

  pub get_or-append :
      (xs ys : List A) (i : ℕ) (d : A) → get_or (xs ++ ys) (length xs + i) d ≡ get_or ys i d
  get_or-append [] ys i d = ap (λ k. get_or ys k d) (omega arith)
  get_or-append (x ∷ xs) ys i d =
      let next : suc (length xs) + i ≡ suc (length xs + i) = omega arith in
      ap (λ k. get_or (x ∷ xs ++ ys) k d) next ∙ get_or-append xs ys i d

  pub set-append :
      (xs ys : List A) (i : ℕ) (v : A) → set (xs ++ ys) (length xs + i) v ≡ xs ++ set ys i v
  set-append [] ys i v = ap (λ k. set ys k v) (omega arith)
  set-append (x ∷ xs) ys i v =
      let next : suc (length xs) + i ≡ suc (length xs + i) = omega arith in
      ap (λ k. set (x ∷ xs ++ ys) k v) next ∙ ap (◌∷◌ x) (set-append xs ys i v)
