-- ===== src/Table/Build.antt =====
-- `OBuildSTable` as a whole: what it places, and when it fails.
use mathlib.Core.List.Perm
use mathlib.Core.Path.{subst}
use fosketch.Prelude.{
  ℕ, zero, suc, ◌+◌, ◌*◌, ◌^◌, ◌≤◌, ◌<◌, ◌≡◌, refl, ap, ◌∙◌, Bool-cases, inl, inr, List, [], ◌∷◌,
  Perm, arith, length, some, get_elem?, replicate,
}
use fosketch.Counts.{Item}
use fosketch.Sorter.Power.{test_po2, test_po2_iff}
use fosketch.Sorter.Bitonic.Sorts.{sort-IsSorted}
use fosketch.Sorter.OddEven.Sorts.{sort_po2-IsSorted}
use fosketch.Table.{
  Shape, greater_sp, shuffled, new_table, o_build_s_table, build_s_table_no, sorted_pairs, elems,
  numbered_flows,
}
use fosketch.Table.Filed.{Filed, spilled}
use fosketch.Table.Places.{addressed, Placed, place_items-Placed}

elems-shuffled :
    (n : ℕ) (rand : ℕ → ℕ) (i : ℕ) (heavy : List Item) → elems (shuffled n rand i heavy) ≡ heavy
unfolding shuffled
elems-shuffled n rand i [] = refl
elems-shuffled n rand i (x ∷ heavy) = ap (◌∷◌ x) (elems-shuffled n rand (i + 1) heavy)

length-shuffled :
    (n : ℕ) (rand : ℕ → ℕ) (i : ℕ) (heavy : List Item)
    → length (shuffled n rand i heavy) ≡ length heavy
unfolding shuffled
length-shuffled n rand i [] = refl
length-shuffled n rand i (x ∷ heavy) = ap suc (length-shuffled n rand (i + 1) heavy)

length-numbered_flows : (i : ℕ) (heavy : List Item) → length (numbered_flows i heavy) ≡ length heavy
unfolding numbered_flows
length-numbered_flows i [] = refl
length-numbered_flows i (x ∷ heavy) = ap suc (length-numbered_flows (i + 1) heavy)

module _ (hash32 : ℕ → ℕ → ℕ) (st_hash : ℕ) (shape : Shape) where
  sorted_pairs-perm :
      (rand : ℕ → ℕ) (heavy : List Item)
      → length heavy ≤ 2 ^ 30
      → Perm
          (sorted_pairs hash32 st_hash shape rand heavy)
          (shuffled shape.bucket_num rand 0 (numbered_flows 0 heavy))
  unfolding sorted_pairs
  sorted_pairs-perm rand heavy small =
      let pairs = shuffled shape.bucket_num rand 0 (numbered_flows 0 heavy) in
      let n = length heavy in
      let same = length-shuffled shape.bucket_num rand 0 (numbered_flows 0 heavy) in
      elim (Bool-cases (test_po2 n)) [
        | inl passes ↦
            rw passes
              (sort_po2-IsSorted greater_sp pairs n small
                ((test_po2_iff n (omega arith)).0 passes)).1.perm
        | inr fails ↦
            rw fails
              (sort-IsSorted greater_sp pairs n small
                (omega (arith, same, length-numbered_flows 0 heavy))).1.perm
      ]

  -- The sort shuffles the flows and loses none.
  elems-perm :
      (rand : ℕ → ℕ) (heavy : List Item)
      → length heavy ≤ 2 ^ 30
      → Perm (elems (sorted_pairs hash32 st_hash shape rand heavy)) (numbered_flows 0 heavy)
  elems-perm rand heavy small =
      subst (Perm (elems (sorted_pairs hash32 st_hash shape rand heavy)))
        (elems-shuffled shape.bucket_num rand 0 (numbered_flows 0 heavy))
        (Perm.map _ (sorted_pairs-perm rand heavy small))

  replicate-get : (n b : ℕ) → b < n → get_elem? (replicate {A = ℕ} n 0) b ≡ some 0
  replicate-get zero b lt = absurd (omega arith)
  replicate-get (suc n) zero lt = refl
  replicate-get (suc n) (suc b) lt = replicate-get n b (omega arith)

  new_table-Filed :
      (fresh : List Item)
      → length fresh ≡ shape.bucket_size * shape.bucket_num
      → Filed shape [] (new_table hash32 st_hash shape fresh)
  new_table-Filed fresh full = record {
    full_size = full;
    counted = λ b lt. replicate-get shape.bucket_num b lt ∙ ap some (omega arith);
    filled = λ b j lt less. absurd (omega arith);
  }

  module _ (some_bucket : 0 < shape.bucket_num) (few : shape.bucket_num ≤ 2 ^ 16)
      (byte : shape.bucket_size < 256) where
    pub o_build_s_table-Placed :
        (rand rand' : ℕ → ℕ) (fresh heavy : List Item)
        → length fresh ≡ shape.bucket_size * shape.bucket_num
        → length heavy ≤ 2 ^ 30
        → let xs = elems (sorted_pairs hash32 st_hash shape rand heavy) in
          let l = addressed hash32 st_hash shape rand' 0 xs in
          let p = o_build_s_table hash32 st_hash shape rand rand' fresh heavy in
          Perm xs p.heavy × Placed hash32 st_hash shape [] l [] (spilled shape [] l) p.built
    unfolding o_build_s_table
    o_build_s_table-Placed rand rand' fresh heavy full small = (
      elems-perm rand heavy small,
      place_items-Placed hash32 st_hash shape some_bucket few byte
          (elems (sorted_pairs hash32 st_hash shape rand heavy)) rand' 0 []
          (new_table hash32 st_hash shape fresh) (new_table-Filed fresh full) (omega arith),
    )

    -- `BuildSTable_NO` places the flows in the same way, in the order in which they are.
    pub build_s_table_no-Placed :
        (rand : ℕ → ℕ) (fresh heavy : List Item)
        → length fresh ≡ shape.bucket_size * shape.bucket_num
        → let l = addressed hash32 st_hash shape rand 0 heavy in
          Placed hash32 st_hash shape [] l []
            (spilled shape [] l)
            (build_s_table_no hash32 st_hash shape rand fresh heavy)
    unfolding build_s_table_no
    build_s_table_no-Placed rand fresh heavy full =
        place_items-Placed hash32 st_hash shape some_bucket few byte heavy rand 0 []
          (new_table hash32 st_hash shape fresh) (new_table-Filed fresh full) (omega arith)
