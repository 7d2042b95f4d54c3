-- ===== src/Sorter/Taken.antt =====
-- What a sorter does to the front of an array that it sorts.
use mathlib.Core.List.Perm
use mathlib.Core.List.{append-nil}
use mathlib.Core.Path.{subst}
use fosketch.Prelude.{
  ℕ, zero, suc, ◌≤◌, ◌<◌, ◌≡◌, refl, sym, ap, ap₂, ◌∙◌, inr, List, [], ◌∷◌, ◌++◌, Perm, some, arith,
  length, take, drop, take-append-drop, length-take, get_elem?,
}
use fosketch.Sorter.Order.{Comparator}
use fosketch.Sorter.Sorted.{IsSorted, Within}

module _ {ℓ} {A : Type ℓ} where
  same_places : (xs ys : List A) → ((i : ℕ) → get_elem? xs i ≡ get_elem? ys i) → xs ≡ ys
  same_places [] [] same = refl
  same_places [] (y ∷ ys) same = let h = same 0 in absurd (cc)
  same_places (x ∷ xs) [] same = let h = same 0 in absurd (cc)
  same_places (x ∷ xs) (y ∷ ys) same =
      let head : some x ≡ some y = same 0 in
      let here : x ≡ y = cc in ap₂ ◌∷◌ here (same_places xs ys (λ i. same (suc i)))

  same_behind :
      (n : ℕ) (xs ys : List A)
      → ((i : ℕ) → n ≤ i → get_elem? xs i ≡ get_elem? ys i)
      → length xs ≡ length ys
      → drop n xs ≡ drop n ys
  same_behind zero xs ys same e = same_places xs ys (λ i. same i (omega arith))
  same_behind (suc n) [] [] same e = refl
  same_behind (suc n) [] (y ∷ ys) same e = absurd (omega (arith, e))
  same_behind (suc n) (x ∷ xs) [] same e = absurd (omega (arith, e))
  same_behind (suc n) (x ∷ xs) (y ∷ ys) same e =
      same_behind n xs ys (λ i le. same (suc i) (omega arith)) (omega (arith, e))

  to_middle : (x : A) (xs ys : List A) → Perm (x ∷ (xs ++ ys)) (xs ++ x ∷ ys)
  to_middle x [] ys = Perm.refl (x ∷ ys)
  to_middle x (y ∷ xs) ys = Perm.trans (Perm.swap y x (xs ++ ys)) (Perm.cons y (to_middle x xs ys))

  swap_append : (xs ys : List A) → Perm (xs ++ ys) (ys ++ xs)
  swap_append [] ys = subst (λ l. Perm ys l) (sym (append-nil ys)) (Perm.refl ys)
  swap_append (x ∷ xs) ys = Perm.trans (Perm.cons x (swap_append xs ys)) (to_middle x ys xs)

  cancel : (front xs ys : List A) → Perm (front ++ xs) (front ++ ys) → Perm xs ys
  cancel [] xs ys p = p
  cancel (x ∷ front) xs ys p = cancel front xs ys (Perm.cons_inv p)

  pub get_elem?-take :
      (n : ℕ) (xs : List A) (i : ℕ) → i < n → get_elem? (take n xs) i ≡ get_elem? xs i
  get_elem?-take zero xs i lt = absurd (omega arith)
  get_elem?-take (suc n) [] i lt = refl
  get_elem?-take (suc n) (x ∷ xs) zero lt = refl
  get_elem?-take (suc n) (x ∷ xs) (suc i) lt = get_elem?-take n xs i (omega arith)

  -- The front is rearranged, and the rest stays.
  pub drop-Within :
      (n : ℕ) (a b : List A) → length b ≡ length a → Within 0 n a b → drop n b ≡ drop n a
  drop-Within n a b e w = same_behind n b a (λ i le. w.outside i (inr le)) e

  pub take-perm :
      (n : ℕ) (a b : List A) → length b ≡ length a → Within 0 n a b → Perm (take n b) (take n a)
  take-perm n a b e w =
      let back = drop n a in
      let whole_b : take n b ++ back ≡ b =
        ap (◌++◌ (take n b)) (sym (drop-Within n a b e w)) ∙ take-append-drop n b in
      let p : Perm (take n b ++ back) (take n a ++ back) =
        rw (whole_b, take-append-drop n a) w.perm in
      cancel back (take n b) (take n a)
        (Perm.trans (swap_append back (take n b)) (Perm.trans p (swap_append (take n a) back)))

  pub take-IsSorted :
      (c : Comparator A) (n : ℕ) (b : List A)
      → IsSorted c n b
      → IsSorted c (length (take n b)) (take n b)
  take-IsSorted c n b s i j x y lt inside ei ej =
      let short : j < n = omega (arith, inside, length-take n b) in
      s i j x y lt short (sym (get_elem?-take n b i (omega arith)) ∙ ei)
        (sym (get_elem?-take n b j short) ∙ ej)
