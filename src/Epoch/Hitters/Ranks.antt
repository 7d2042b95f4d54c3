-- ===== src/Epoch/Hitters/Ranks.antt =====
-- The heavy hitters are ranked, and the items of an answer are those that reach the threshold.
use mathlib.Core.Path.{subst}
use native.Mathlib.Nat.{mod-eq_of_lt}
use fosketch.Prelude.{
  ℕ, zero, suc, ◌+◌, ◌-◌, ◌*◌, ◌/◌, ◌%◌, ◌^◌, ◌≤◌, ◌<◌, ◌≡◌, refl, sym, ap, ◌∙◌, inl, inr, true,
  Bool-cases, none, some, List, [], ◌∷◌, ◌++◌, Perm, arith, length, length-append, take, get_elem?,
  get_elem?-append_before, get_elem?-append_behind, ltb, leb, ◌==◌, if◌then◌else◌,
}
use fosketch.Sorter.Order.{Comparator}
use fosketch.Sorter.Sorted.{IsSorted, Rises}
use fosketch.Sorter.Power.{IsPowerOfTwo, double, test_po2, test_po2_iff}
use fosketch.Sorter.OddEven.Sorts.{merge_halves-IsSorted}
use fosketch.Counts.{Item}
use fosketch.Epoch.Hitters.{smaller_item, merge_heavy, count_top, o_response_heavy_change}

module _ {A : Type 0} (c : Comparator A) (n : ℕ) (xs ys : List A) (full : length xs ≡ n) where
  rise-append_front : IsSorted c n xs → Rises c 0 n (xs ++ ys)
  rise-append_front s i j x y l lt u ei ej =
      s i j x y lt u (sym (get_elem?-append_before xs ys i (omega (arith, full))) ∙ ei)
        (sym (get_elem?-append_before xs ys j (omega (arith, full))) ∙ ej)

  rise-append_back : IsSorted c n ys → Rises c n (n * 2) (xs ++ ys)
  rise-append_back s i j x y l lt u ei ej =
      let at_i : n + (i - n) ≡ i = omega arith in
      let at_j : n + (j - n) ≡ j = omega arith in
      s (i - n) (j - n) x y (omega arith) (omega arith)
        (sym (get_elem?-append_behind xs ys n (i - n) (sym full))
          ∙ (ap (get_elem? (xs ++ ys)) at_i ∙ ei))
        (sym (get_elem?-append_behind xs ys n (j - n) (sym full))
          ∙ (ap (get_elem? (xs ++ ys)) at_j ∙ ej))

-- For two lists of heavy flows in descending order, of one length that is a power of two up to 2^29, the
-- merge leaves all their items in descending order.
pub merge_heavy-IsSorted :
    (n : ℕ) (heavy1 heavy2 : List Item)
    → IsPowerOfTwo n
    → n ≤ 2 ^ 29
    → length heavy1 ≡ n
    → length heavy2 ≡ n
    → IsSorted smaller_item n heavy1
    → IsSorted smaller_item n heavy2
    → IsSorted smaller_item (n * 2) (merge_heavy n heavy1 heavy2)
      × Perm (merge_heavy n heavy1 heavy2) (heavy1 ++ heavy2)
unfolding merge_heavy
merge_heavy-IsSorted n heavy1 heavy2 po2 small full1 full2 s1 s2 =
    let twice : IsPowerOfTwo (n * 2) = double (omega arith) po2 in
    let test : test_po2 (n * 2) ≡ true = (test_po2_iff (n * 2) (omega arith)).1 twice in
    let half : n * 2 / 2 ≡ n = omega arith in
    let items = heavy1 ++ heavy2 in
    let r =
      merge_halves-IsSorted smaller_item items (n * 2) (omega arith)
        (omega (arith, length-append heavy1 heavy2, full1, full2)) twice
        (subst (λ h. Rises smaller_item 0 h items) (sym half)
          (rise-append_front smaller_item n heavy1 heavy2 full1 s1))
        (subst (λ h. Rises smaller_item h (n * 2) items) (sym half)
          (rise-append_back smaller_item n heavy1 heavy2 full1 s2)) in
    rw test (r.0, r.1.perm)

count_top-le : (threshold n : ℕ) (items : List Item) → count_top threshold n items ≤ n
unfolding count_top
count_top-le threshold zero items = omega arith
count_top-le threshold (suc n) [] = omega arith
count_top-le threshold (suc n) (x ∷ items) = ground (arith, count_top-le threshold n items)

-- Below the threshold the count stops, and in descending order nothing behind reaches it.
count_top-reaches :
    (threshold n : ℕ) (items : List Item)
    → n < 2 ^ 16
    → IsSorted smaller_item n items
    → (i : ℕ) (x : Item) → i < n
    → get_elem? items i ≡ some x
    → ltb i (count_top threshold n items) ≡ leb threshold x.size
unfolding count_top smaller_item
count_top-reaches threshold zero items small s i x lt e = absurd (omega arith)
count_top-reaches threshold (suc n) [] small s i x lt e = absurd (cc)
count_top-reaches threshold (suc n) (y ∷ items) small s zero x lt e =
    let same : y ≡ x = cc in
    let at = ap (λ (z : Item). z.size) same in ground (arith, count_top-le threshold n items, at)
count_top-reaches threshold (suc n) (y ∷ items) small s (suc i) x lt e =
    let rest =
      count_top-reaches threshold n items (omega arith)
        (λ a b u v l w ea eb. s (suc a) (suc b) u v (omega arith) (omega arith) ea eb) i x
        (omega arith) e in
    let falls = s 0 (suc i) y x (omega arith) lt refl e in
    let le = count_top-le threshold n items in
    let whole : (count_top threshold n items + 1) % 2 ^ 16 ≡ count_top threshold n items + 1 =
      mod-eq_of_lt {m = 2 ^ 16} (omega (arith, le)) in
    elim (Bool-cases (ltb y.size threshold)) [
      | inl low ↦ rw low (ground (arith, falls))
      | inr high ↦ rw (high, whole) (ground (arith, rest))
    ]

-- Of a list in descending order `OResponseHeavyChange` hands out the items among the first `n` that reach
-- the threshold, and none of the others; where there are none it hands out nothing. `n` is below 2^16.
pub o_response_heavy_change_lem :
    (threshold n : ℕ) (items : List Item)
    → n < 2 ^ 16
    → IsSorted smaller_item n items
    → (k : ℕ) × (o_response_heavy_change threshold n items
        ≡ (if k == 0 then none else some (take k items)))
      × (k ≤ n)
      × ((i : ℕ) (x : Item) → i < n → get_elem? items i ≡ some x → ltb i k ≡ leb threshold x.size)
unfolding o_response_heavy_change
o_response_heavy_change_lem threshold n items small s = (
  count_top threshold n items,
  refl,
  count_top-le threshold n items,
  count_top-reaches threshold n items small s,
)
