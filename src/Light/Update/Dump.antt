-- ===== src/Light/Update/Dump.antt =====
-- The array of `OUpdateCUSketch`: what is gathered from it for one index.
use native.Mathlib.Nat.{mod-lt}
use fosketch.Prelude.{
  ℕ, zero, suc, ◌+◌, ◌≤◌, ◌<◌, ◌≡◌, refl, ap, ap₂, ◌∙◌, Bool-cases, inl, inr, List, [], ◌∷◌, ◌++◌,
  map, arith, length, ◌==◌, some, get_elem?, length-append, max, lt-length,
}
use fosketch.Counts.{Item}
use fosketch.Delta.{dummy_flow}
use fosketch.Light.Gather.{number, below, best, number-append, below-append, best-append, best-none}
use fosketch.Light.Groups.{Laws}
use fosketch.Light.Update.{raise, hide_flow, numbered, target}

abbrev pub key_of : Item → ℕ
key_of x = x.flow_id

abbrev pub size_of_item : Item → ℕ
size_of_item x = x.size

pub item-Laws : Laws key_of size_of_item raise hide_flow dummy_flow
item-Laws = record {
  key-join = λ a x e. refl;
  value-join = λ a x. ground arith;
  key-hide = λ x. refl;
}

module _ (k : ℕ) where
  abbrev count : List Item → ℕ
  count = number key_of size_of_item k

  abbrev pub greatest : List Item → ℕ
  greatest = best key_of size_of_item k

-- The indices are there once each, with the counters as their sizes.
module _ {k : ℕ} where
  count-numbered_later : (i : ℕ) (light : List ℕ) → k < i → count k (numbered i light) ≡ 0
  unfolding numbered
  count-numbered_later i [] lt = refl
  count-numbered_later i (v ∷ light) lt =
      ground (arith, count-numbered_later (i + 1) light (omega arith))

  count-numbered :
      (i : ℕ) (light : List ℕ) → i ≤ k → k < i + length light → count k (numbered i light) ≡ 1
  unfolding numbered
  count-numbered i [] le lt = absurd (omega arith)
  count-numbered i (v ∷ light) le lt = elim (Bool-cases (i == k)) [
    | inl e ↦ ground (arith, count-numbered_later (i + 1) light (ground (arith, e)))
    | inr e ↦ ground (arith, count-numbered (i + 1) light (ground (arith, e)) (omega arith))
  ]

  greatest-numbered :
      (i j v : ℕ) (light : List ℕ)
      → k ≡ i + j
      → get_elem? light j ≡ some v
      → greatest k (numbered i light) ≡ v
  unfolding numbered
  greatest-numbered i j v [] at e = absurd (cc)
  greatest-numbered i zero v (u ∷ light) at e =
      let same : u ≡ v = cc in
      let later = count-numbered_later (i + 1) light (omega arith) in
      ground (arith, best-none key_of size_of_item k (numbered (i + 1) light) later)
  greatest-numbered i (suc j) v (u ∷ light) at e =
      ground (arith, greatest-numbered (i + 1) j v light (omega arith) e)

below-numbered :
    (n i : ℕ) (light : List ℕ)
    → i + length light ≤ n
    → below key_of size_of_item n (numbered i light) ≡ length light
unfolding numbered
below-numbered n i [] le = refl
below-numbered n i (v ∷ light) le = ground (arith, below-numbered n (i + 1) light (omega arith))

length-numbered : (i : ℕ) (light : List ℕ) → length (numbered i light) ≡ length light
unfolding numbered
length-numbered i [] = refl
length-numbered i (v ∷ light) = ap suc (length-numbered (i + 1) light)

-- The paddings of the array have a greater key.
abbrev padding : List ℕ → List Item
padding = map (λ (s : ℕ). let d : Item = record { flow_id = dummy_flow; size = s } in d)

count-padding : (k : ℕ) (junk : List ℕ) → k < dummy_flow → count k (padding junk) ≡ 0
count-padding k [] lt = refl
count-padding k (s ∷ junk) lt = ground (arith, count-padding k junk lt)

below-padding :
    (n : ℕ) (junk : List ℕ) → n ≤ dummy_flow → below key_of size_of_item n (padding junk) ≡ 0
below-padding n [] le = refl
below-padding n (s ∷ junk) le = ground (arith, below-padding n junk le)

pub length-map {ℓ ℓ'} :
    {A : Type ℓ} {B : Type ℓ'} (f : A → B) (xs : List A) → length (map f xs) ≡ length xs
length-map f [] = refl
length-map f (x ∷ xs) = ap suc (length-map f xs)

module _ (hash32 : ℕ → ℕ → ℕ) (cus_hash : ℕ) where
  below-target :
      (n : ℕ) (heavy : List Item)
      → 0 < n
      → below key_of size_of_item n (map (target hash32 cus_hash n) heavy) ≡ length heavy
  below-target n [] pos = refl
  below-target n (x ∷ heavy) pos =
      ground (arith, below-target n heavy pos, mod-lt (hash32 x.flow_id cus_hash) pos)

  pub greatest-target :
      (n k : ℕ) (heavy : List Item) → greatest k (map (target hash32 cus_hash n) heavy) < 256
  greatest-target n k [] = omega arith
  greatest-target n k (x ∷ heavy) = ground (arith, greatest-target n k heavy)

module _ (hash32 : ℕ → ℕ → ℕ) (cus_hash : ℕ) (junk light : List ℕ) (heavy : List Item) where
  abbrev pub all_items : List Item
  all_items =
      numbered 0 light ++ (map (target hash32 cus_hash (length light)) heavy ++ padding junk)

  pub length-all_items : length all_items ≡ length light + (length heavy + length junk)
  length-all_items =
      length-append (numbered 0 light) _
      ∙ ap₂ ◌+◌ (length-numbered 0 light) (
          length-append (map (target hash32 cus_hash (length light)) heavy) (padding junk)
          ∙ ap₂ ◌+◌ (length-map _ heavy) (length-map _ junk))

  module _ (pos : 0 < length light) (small : length light ≤ dummy_flow) where
    pub below-all_items :
        below key_of size_of_item (length light) all_items ≡ length light + length heavy
    below-all_items =
        let n = length light in
        omega (
          arith,
          below-append key_of size_of_item n (numbered 0 light)
              (map (target hash32 cus_hash n) heavy ++ padding junk),
          below-append key_of size_of_item n (map (target hash32 cus_hash n) heavy) (padding junk),
          below-numbered n 0 light (omega arith),
          below-target hash32 cus_hash n heavy pos,
          below-padding n junk small,
        )

    pub count-all_items : (k : ℕ) → k < length light → 1 ≤ count k all_items
    count-all_items k lt = omega (
      arith,
      number-append key_of size_of_item k (numbered 0 light)
          (map (target hash32 cus_hash (length light)) heavy ++ padding junk),
      count-numbered {k = k} 0 light (omega arith) (omega (arith, lt)),
    )

    pub greatest-all_items :
        (k v : ℕ)
        → get_elem? light k ≡ some v
        → greatest k all_items
          ≡ max v (greatest k (map (target hash32 cus_hash (length light)) heavy))
    greatest-all_items k v e =
        let lt = lt-length light k e in
        let targets = map (target hash32 cus_hash (length light)) heavy in
        omega (
          arith,
          best-append key_of size_of_item k (numbered 0 light) (targets ++ padding junk),
          best-append key_of size_of_item k targets (padding junk),
          best-none key_of size_of_item k (padding junk) (count-padding k junk (omega (arith, lt))),
          greatest-numbered {k = k} 0 k v light (omega arith) e,
        )
