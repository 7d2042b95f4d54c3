-- ===== src/Table/Filed.antt =====
-- What a table holds once the items of a list, each with its bucket, have been placed.
use native.Mathlib.Nat.{mul-le-mul_left, mul-suc}
use native.Mathlib.Decide.{dec_lt, ℕ_discrete}
use mathlib.Core.Path.{subst}
use fosketch.Prelude.{
  get_elem?-append_before, ℕ, zero, suc, ◌+◌, ◌*◌, ◌≤◌, ◌<◌, ◌≡◌, ◌≢◌, refl, sym, ap, ◌∙◌,
  Bool-cases, inl, inr, List, [], ◌∷◌, ◌++◌, arith, length, length-append, length-set, get_elem?,
  get_elem?-set_self, get_elem?-set_ne, set, some, min, leb, lt-length, ◌==◌, if◌then◌else◌,
}
use fosketch.Counts.{Item}
use fosketch.Table.{Shape, Table}

-- An item and its bucket.
pub record Addressed : Type 0 where
  pub bucket : ℕ
  pub item : Item

-- The items of a bucket, in their order.
abbrev pub chosen : ℕ → List Addressed → List Item
chosen b [] = []
chosen b (a ∷ l) = if a.bucket == b then a.item ∷ chosen b l else chosen b l

chosen-append_one :
    (b : ℕ) (l : List Addressed) (a : Addressed)
    → chosen b (l ++ a ∷ []) ≡ chosen b l ++ (if a.bucket == b then a.item ∷ [] else [])
chosen-append_one b [] a = elim (Bool-cases (a.bucket == b)) [
  | inl e ↦ rw e refl
  | inr e ↦ rw e refl
]
chosen-append_one b (c ∷ l) a = elim (Bool-cases (c.bucket == b)) [
  | inl e ↦ rw e (ap (◌∷◌ c.item) (chosen-append_one b l a))
  | inr e ↦ rw e (chosen-append_one b l a)
]

module _ {ℓ} {A : Type ℓ} where
  get_elem?-append_at :
      (xs ys : List A) (y : A) (j : ℕ) → j ≡ length xs → get_elem? (xs ++ y ∷ ys) j ≡ some y
  get_elem?-append_at [] ys y zero e = refl
  get_elem?-append_at [] ys y (suc j) e = absurd (omega (arith, e))
  get_elem?-append_at (x ∷ xs) ys y zero e = absurd (omega (arith, e))
  get_elem?-append_at (x ∷ xs) ys y (suc j) e = get_elem?-append_at xs ys y j (omega (arith, e))

-- Slots of different buckets are different.
slot_lt : (s b c j : ℕ) → b < c → j < s → s * b + j < s * c
slot_lt s b c j lt less =
    omega (arith, mul-le-mul_left {m = suc b} {n = c} s (omega arith), mul-suc s b)

slot_ne : (s b c j k : ℕ) → b ≢ c → j < s → k < s → s * b + j ≢ s * c + k
slot_ne s b c j k other less less' e = elim (dec_lt b c) [
  | yes lt ↦ omega (arith, slot_lt s b c j lt less, e)
  | no ge ↦ let lt : c < b = omega arith in omega (arith, slot_lt s c b k lt less', e)
]

module _ (shape : Shape) where
  abbrev pub kept : ℕ → List Addressed → ℕ
  kept b seen = min shape.bucket_size (length (chosen b seen))

  -- The first items of each bucket, as many as there are and fit, fill it from its first slot on, and
  -- `idcList` counts them.
  pub record Filed (seen : List Addressed) (t : Table) : Type 0 where
    pub full_size : length t.slots ≡ shape.bucket_size * shape.bucket_num
    pub counted : (b : ℕ) → b < shape.bucket_num → get_elem? t.idc_list b ≡ some (kept b seen)
    pub filled :
        (b j : ℕ)
        → b < shape.bucket_num
        → j < kept b seen
        → get_elem? t.slots (shape.bucket_size * b + j) ≡ get_elem? (chosen b seen) j

  -- The items that find their bucket full, in their order.
  abbrev pub spilled : (seen : List Addressed) → List Addressed → List Item
  spilled seen [] = []
  spilled seen (a ∷ l) =
      let rest = spilled (seen ++ a ∷ []) l in
      if leb shape.bucket_size (kept a.bucket seen) then a.item ∷ rest else rest

  module _ (seen : List Addressed) (a : Addressed) where
    abbrev bump : ℕ → ℕ
    bump b = if a.bucket == b then 1 else 0

    length-chosen : (b : ℕ) → length (chosen b (seen ++ a ∷ [])) ≡ length (chosen b seen) + bump b
    length-chosen b =
        ap length (chosen-append_one b seen a)
        ∙ (length-append (chosen b seen) (if a.bucket == b then a.item ∷ [] else []) ∙ ground arith)

    get_elem?-chosen :
        (b j : ℕ)
        → j < length (chosen b seen)
        → get_elem? (chosen b (seen ++ a ∷ [])) j ≡ get_elem? (chosen b seen) j
    get_elem?-chosen b j lt =
        ap (λ l. get_elem? l j) (chosen-append_one b seen a)
        ∙ get_elem?-append_before (chosen b seen) _ j lt

    -- A bucket that is full, or not the item's, keeps its items.
    kept-full :
        (b : ℕ) → shape.bucket_size ≤ kept a.bucket seen → kept b (seen ++ a ∷ []) ≡ kept b seen
    kept-full b full = elim (Bool-cases (a.bucket == b)) [
      | inl e ↦
          let same : a.bucket ≡ b = ground (arith, e) in
          let full' : shape.bucket_size ≤ kept b seen =
            subst (λ c. shape.bucket_size ≤ kept c seen) same full in
          omega (arith, length-chosen b, full')
      | inr e ↦ let one : bump b ≡ 0 = ground (arith, e) in omega (arith, length-chosen b, one)
    ]

    kept-other : (b : ℕ) → a.bucket ≢ b → kept b (seen ++ a ∷ []) ≡ kept b seen
    kept-other b other =
        let one : bump b ≡ 0 = ground (arith, other) in omega (arith, length-chosen b, one)

    kept-own :
        kept a.bucket seen < shape.bucket_size
        → (kept a.bucket (seen ++ a ∷ []) ≡ suc (length (chosen a.bucket seen)))
          × (kept a.bucket seen ≡ length (chosen a.bucket seen))
    kept-own room =
        let one : bump a.bucket ≡ 1 = ground arith in
        (omega (arith, length-chosen a.bucket, one), omega arith)

    get_elem?-chosen_own :
        get_elem? (chosen a.bucket (seen ++ a ∷ [])) (length (chosen a.bucket seen)) ≡ some a.item
    get_elem?-chosen_own =
        let own : (if a.bucket == a.bucket then a.item ∷ [] else []) ≡ a.item ∷ [] = ground arith in
        ap (λ l. get_elem? l (length (chosen a.bucket seen)))
          (chosen-append_one a.bucket seen a ∙ ap (◌++◌ (chosen a.bucket seen)) own)
        ∙ get_elem?-append_at (chosen a.bucket seen) [] a.item _ refl

  module _ (seen : List Addressed) (t : Table) (a : Addressed) (f : Filed seen t) where
    pub Filed-stash :
        (stash : List Item)
        → shape.bucket_size ≤ kept a.bucket seen
        → Filed (seen ++ a ∷ []) (record t { stash = stash })
    Filed-stash stash full = record {
      full_size = f.full_size;
      counted = λ b lt. f.counted b lt ∙ ap some (sym (kept-full seen a b full));
      filled = λ b j lt less.
          let small : j < kept b seen = omega (arith, less, kept-full seen a b full) in
          f.filled b j lt small ∙ sym (get_elem?-chosen seen a b j (omega (arith, small)));
    }

    module _ (here : a.bucket < shape.bucket_num)
        (room : kept a.bucket seen < shape.bucket_size) where
      abbrev count : ℕ
      count = kept a.bucket seen

      abbrev place : ℕ
      place = shape.bucket_size * a.bucket + count

      in_slots : place < length t.slots
      in_slots =
          omega (
            arith,
            f.full_size,
            slot_lt shape.bucket_size a.bucket shape.bucket_num count here room,
          )

      counted_own :
          get_elem? (set t.idc_list a.bucket (count + 1)) a.bucket
          ≡ some (kept a.bucket (seen ++ a ∷ []))
      counted_own =
          get_elem?-set_self t.idc_list a.bucket (count + 1)
            (lt-length t.idc_list a.bucket (f.counted a.bucket here))
          ∙ ap some (omega (arith, kept-own seen a room))

      filled_own :
          (j : ℕ)
          → j < kept a.bucket (seen ++ a ∷ [])
          → get_elem? (set t.slots place a.item) (shape.bucket_size * a.bucket + j)
            ≡ get_elem? (chosen a.bucket (seen ++ a ∷ [])) j
      filled_own j less = elim (ℕ_discrete j count) [
        | yes last ↦
            let (grown, same) = kept-own seen a room in
            ap (λ i. get_elem? (set t.slots place a.item) (shape.bucket_size * a.bucket + i)) last
            ∙ (get_elem?-set_self t.slots place a.item in_slots
                ∙ sym (
                    ap (get_elem? (chosen a.bucket (seen ++ a ∷ []))) (last ∙ same)
                    ∙ get_elem?-chosen_own seen a))
        | no other ↦
            let before : j < count = omega (arith, kept-own seen a room) in
            get_elem?-set_ne t.slots place (shape.bucket_size * a.bucket + j) a.item
              (λ e. other (omega arith))
            ∙ (f.filled a.bucket j here before
                ∙ sym (get_elem?-chosen seen a a.bucket j (omega arith)))
      ]

      pub Filed-slot : Filed (seen ++ a ∷ []) (record t {
        slots = set t.slots place a.item;
        idc_list = set t.idc_list a.bucket (count + 1);
      })
      Filed-slot = record {
        full_size = length-set t.slots place a.item ∙ f.full_size;
        counted = λ b lt. elim (ℕ_discrete a.bucket b) [
          | yes e ↦
              subst
                (λ c.
                  get_elem? (set t.idc_list a.bucket (count + 1)) c
                  ≡ some (kept c (seen ++ a ∷ [])))
                e counted_own
          | no n ↦
              get_elem?-set_ne t.idc_list a.bucket b (count + 1) n
              ∙ (f.counted b lt ∙ ap some (sym (kept-other seen a b n)))
        ];
        filled = λ b j lt less. elim (ℕ_discrete a.bucket b) [
          | yes e ↦
              subst
                (λ c.
                  j < kept c (seen ++ a ∷ [])
                  → get_elem? (set t.slots place a.item) (shape.bucket_size * c + j)
                    ≡ get_elem? (chosen c (seen ++ a ∷ [])) j)
                e (filled_own j) less
          | no n ↦
              let small : j < kept b seen = omega (arith, less, kept-other seen a b n) in
              get_elem?-set_ne t.slots place (shape.bucket_size * b + j) a.item
                (slot_ne shape.bucket_size a.bucket b count j n room (omega (arith, small)))
              ∙ (f.filled b j lt small ∙ sym (get_elem?-chosen seen a b j (omega (arith, small))))
        ];
      }
