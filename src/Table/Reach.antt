-- ===== src/Table/Reach.antt =====
-- What a lookup of a bucket can find, once a list of items has been placed.
use mathlib.Core.List.{Mem, Memᴰ, append_assoc, mem-append_left, mem-append_right}
use mathlib.Core.Logic.{∥∥₁_map}
use mathlib.Core.Path.{subst}
use fosketch.Prelude.{
  ℕ, zero, suc, ◌+◌, ◌*◌, ◌≤◌, ◌<◌, ◌≡◌, refl, sym, ap, ap₂, ◌∙◌, Bool-cases, inl, inr, ◌⊎◌, List,
  [], ◌∷◌, ◌++◌, arith, length, length-append, leb, get_or, get_or-get, some, get_elem?, ◌==◌, take,
  drop,
}
use fosketch.Counts.{Item}
use fosketch.Table.{Shape, Table}
use fosketch.Table.Filed.{Addressed, chosen, kept, Filed, spilled}

module _ {ℓ} {A : Type ℓ} where
  -- A stretch of an array that agrees with the front of a list.
  pub stretch :
      (xs ys : List A) (at n : ℕ)
      → n ≤ length ys
      → ((j : ℕ) → j < n → get_elem? xs (at + j) ≡ get_elem? ys j)
      → take n (drop at xs) ≡ take n ys
  stretch xs ys at zero le same = refl
  stretch xs [] at (suc n) le same = absurd (omega arith)
  stretch [] (y ∷ ys) at (suc n) le same = let h = same 0 (omega arith) in absurd (cc)
  stretch (x ∷ xs) (y ∷ ys) zero (suc n) le same =
      let head : get_elem? (x ∷ xs) (0 + 0) ≡ some y = same 0 (omega arith) in
      let here : x ≡ y = cc in
      ap₂ ◌∷◌ here (
        stretch xs ys 0 n (omega arith) (λ j lt.
          let next : 0 + suc j ≡ suc (0 + j) = omega arith in
          sym (ap (get_elem? (x ∷ xs)) next) ∙ same (suc j) (omega arith)))
  stretch (x ∷ xs) (y ∷ ys) (suc at) (suc n) le same = stretch xs (y ∷ ys) at (suc n) le (λ j lt.
      let next : suc at + j ≡ suc (at + j) = omega arith in
      sym (ap (get_elem? (x ∷ xs)) next) ∙ same j lt)

  cases_cons : {x y : A} {l : List A} → Memᴰ x (y ∷ l) → (x ≡ y) ⊎ Memᴰ x l
  cases_cons (Memᴰ.head e) = inl e
  cases_cons (Memᴰ.tail m) = inr m

  Memᴰ-take : (xs ys : List A) (x : A) (n : ℕ) → length xs < n → Memᴰ x (take n (xs ++ x ∷ ys))
  Memᴰ-take [] ys x zero lt = absurd (omega arith)
  Memᴰ-take [] ys x (suc n) lt = Memᴰ.head refl
  Memᴰ-take (y ∷ xs) ys x zero lt = absurd (omega arith)
  Memᴰ-take (y ∷ xs) ys x (suc n) lt = Memᴰ.tail (Memᴰ-take xs ys x n (omega arith))

module _ {ℓ} {A : Type ℓ} where
  Memᴰ-insert : (xs ys : List A) (x y : A) → Memᴰ x (xs ++ ys) → Memᴰ x (xs ++ y ∷ ys)
  Memᴰ-insert [] ys x y m = Memᴰ.tail m
  Memᴰ-insert (z ∷ xs) ys x y (Memᴰ.head e) = Memᴰ.head e
  Memᴰ-insert (z ∷ xs) ys x y (Memᴰ.tail m) = Memᴰ.tail (Memᴰ-insert xs ys x y m)

chosen-append : (b : ℕ) (l m : List Addressed) → chosen b (l ++ m) ≡ chosen b l ++ chosen b m
chosen-append b [] m = refl
chosen-append b (a ∷ l) m = elim (Bool-cases (a.bucket == b)) [
  | inl e ↦ rw e (ap (◌∷◌ a.item) (chosen-append b l m))
  | inr e ↦ rw e (chosen-append b l m)
]

-- What a lookup of a bucket can find: its slots that are in use, and the stash.
abbrev pub in_reach : Shape → ℕ → Table → List Item
in_reach shape b t = take (get_or t.idc_list b 0) (drop (shape.bucket_size * b) t.slots) ++ t.stash

module _ (shape : Shape) where
  abbrev pub first_ones : ℕ → List Addressed → List Item
  first_ones b l = take (kept shape b l) (chosen b l)

  module _ (seen l : List Addressed) (a : Addressed) where
    spilled-later :
        (x : Item) (front : List Item)
        → Mem x (front ++ spilled shape (seen ++ a ∷ []) l)
        → Mem x (front ++ spilled shape seen (a ∷ l))
    spilled-later x front m = elim (Bool-cases (leb shape.bucket_size (kept shape a.bucket seen))) [
      | inl full ↦ rw full (∥∥₁_map m (Memᴰ-insert front _ x a.item))
      | inr free ↦ rw free m
    ]

    -- The item that comes next finds its bucket full, or is one of the first of its bucket.
    now : Mem a.item (first_ones a.bucket (seen ++ a ∷ l) ++ spilled shape seen (a ∷ l))
    now = elim (Bool-cases (leb shape.bucket_size (kept shape a.bucket seen))) [
      | inl full ↦
          rw full (mem-append_right (first_ones a.bucket (seen ++ a ∷ l)) ∣ Memᴰ.head refl ∣₁)
      | inr free ↦
          let own : chosen a.bucket (a ∷ l) ≡ a.item ∷ chosen a.bucket l = ground arith in
          let all : chosen a.bucket (seen ++ a ∷ l)
              ≡ chosen a.bucket seen ++ a.item ∷ chosen a.bucket l =
            chosen-append a.bucket seen (a ∷ l) ∙ ap (◌++◌ (chosen a.bucket seen)) own in
          let longer = length-append (chosen a.bucket seen) (a.item ∷ chosen a.bucket l) in
          let n = kept shape a.bucket (seen ++ a ∷ l) in
          let lt : length (chosen a.bucket seen) < n =
            ground (arith, free, ap length all, longer) in
          mem-append_left (spilled shape seen (a ∷ l)) (
            subst (λ k. Mem a.item (take n k)) (sym all)
              ∣ Memᴰ-take (chosen a.bucket seen) (chosen a.bucket l) a.item n lt ∣₁)
    ]

  -- Each item is among the first of its bucket or spilled.
  pub chosen_or_spilled :
      (seen l : List Addressed) (b : ℕ) (x : Item)
      → Memᴰ x (chosen b l)
      → Mem x (first_ones b (seen ++ l) ++ spilled shape seen l)
  chosen_or_spilled seen [] b x m = elim m [ ]
  chosen_or_spilled seen (a ∷ l) b x m =
      let seen' = seen ++ a ∷ [] in
      let after : seen' ++ l ≡ seen ++ a ∷ l = append_assoc seen (a ∷ []) l in
      let later = λ (m' : Memᴰ x (chosen b l)).
        subst (λ k. Mem x (first_ones b k ++ spilled shape seen (a ∷ l))) after
          (spilled-later seen l a x (first_ones b (seen' ++ l))
            (chosen_or_spilled seen' l b x m')) in
      elim (Bool-cases (a.bucket == b)) [
        | inl e ↦
            let same : a.bucket ≡ b = ground (arith, e) in
            let own : chosen b (a ∷ l) ≡ a.item ∷ chosen b l = rw e refl in
            elim (cases_cons (subst (Memᴰ x) own m)) [
              | inl is ↦
                  subst (λ c. Mem x (first_ones c (seen ++ a ∷ l) ++ spilled shape seen (a ∷ l)))
                    same (rw is (now seen l a))
              | inr m' ↦ later m'
            ]
        | inr e ↦
            let other : chosen b (a ∷ l) ≡ chosen b l = rw e refl in later (subst (Memᴰ x) other m)
      ]

  -- The slots of a bucket that are in use, and the stash, once a list has been placed.
  pub Filed-in_reach :
      (l : List Addressed) (t : Table) (b : ℕ)
      → Filed shape l t
      → b < shape.bucket_num
      → t.stash ≡ spilled shape [] l
      → in_reach shape b t ≡ first_ones b l ++ spilled shape [] l
  Filed-in_reach l t b f lt s =
      let n = kept shape b l in
      let counted = get_or-get t.idc_list b 0 n (f.counted b lt) in
      let slots =
        stretch t.slots (chosen b l) (shape.bucket_size * b) n (omega arith)
          (λ j less. f.filled b j lt less) in
      ap₂ ◌++◌ (ap (λ k. take k (drop (shape.bucket_size * b) t.slots)) counted ∙ slots) s
