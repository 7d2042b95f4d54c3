-- ===== src/Table/Finds.antt =====
-- In a table that `OBuildSTable` has built, each flow is in the bucket of its hash or in the stash.
use mathlib.Core.List.{Mem, Memᴰ, Mem-prop}
use mathlib.Core.List.Perm
use mathlib.Core.Logic.{∥∥₁_elim}
use mathlib.Core.Path.{subst}
use native.Mathlib.Nat.{mod-lt, mod-eq_of_lt}
use native.Mathlib.Decide.{dec_lt}
use fosketch.Prelude.{
  ℕ, ◌+◌, ◌*◌, ◌%◌, ◌^◌, ◌≤◌, ◌<◌, ◌≡◌, true, false, Bool-cases, ==_iff, inl, inr, List, [], ◌∷◌,
  arith, length, ◌==◌,
}
use fosketch.Counts.{Item}
use fosketch.Table.{Shape, bucket_of, o_build_s_table, sorted_pairs, elems}
use fosketch.Table.Filed.{chosen, spilled}
use fosketch.Table.Places.{addressed}
use fosketch.Table.Build.{o_build_s_table-Placed}
use fosketch.Table.Reach.{in_reach, chosen_or_spilled, Filed-in_reach}

module _ (hash32 : ℕ → ℕ → ℕ) (st_hash : ℕ) (shape : Shape) where
  -- The bucket of a flow's hash.
  abbrev pub home : Item → ℕ
  home x = hash32 x.flow_id st_hash % shape.bucket_num

  module _ (some_bucket : 0 < shape.bucket_num) (few : shape.bucket_num ≤ 2 ^ 16) where
    bucket_of-home :
        (drawn : ℕ) (x : Item)
        → (x.flow_id == 0) ≡ false
        → bucket_of hash32 st_hash shape drawn x ≡ home x
    bucket_of-home drawn x flow =
        rw flow
          (mod-eq_of_lt {m = 2 ^ 16} (omega (arith, mod-lt (hash32 x.flow_id st_hash) some_bucket)))

    chosen-addressed :
        (xs : List Item) (rand : ℕ → ℕ) (i : ℕ) (x : Item)
        → (x.flow_id == 0) ≡ false
        → Memᴰ x xs
        → Memᴰ x (chosen (home x) (addressed hash32 st_hash shape rand i xs))
    chosen-addressed [] rand i x flow m = elim m [ ]
    chosen-addressed (y ∷ xs) rand i x flow (Memᴰ.head e) =
        let own : bucket_of hash32 st_hash shape (rand i) y ≡ home x =
          subst (λ z. bucket_of hash32 st_hash shape (rand i) z ≡ home x) e
            (bucket_of-home (rand i) x flow) in
        let test : (bucket_of hash32 st_hash shape (rand i) y == home x) ≡ true =
          (==_iff _ _).1 own in
        rw test (Memᴰ.head e)
    chosen-addressed (y ∷ xs) rand i x flow (Memᴰ.tail m) =
        let rest = chosen-addressed xs rand (i + 1) x flow m in
        elim (Bool-cases (bucket_of hash32 st_hash shape (rand i) y == home x)) [
          | inl e ↦ rw e (Memᴰ.tail rest)
          | inr e ↦ rw e rest
        ]

    -- When `OBuildSTable` succeeds, each of the heavy flows that it leaves is in a slot of the bucket of
    -- its hash, one of those that `idcList` counts, or in the stash. There are at most 2^16 buckets of
    -- less than 256 slots, at most 2^30 flows, and memory for the slots; the flow is not 0.
    pub o_build_s_table_finds :
        (byte : shape.bucket_size < 256) (rand rand' : ℕ → ℕ) (fresh heavy : List Item) (x : Item)
        → length fresh ≡ shape.bucket_size * shape.bucket_num
        → length heavy ≤ 2 ^ 30
        → let p = o_build_s_table hash32 st_hash shape rand rand' fresh heavy in
          p.built.ok ≡ true
          → Mem x p.heavy
          → (x.flow_id == 0) ≡ false
          → Mem x (in_reach shape (home x) p.built.table)
    o_build_s_table_finds byte rand rand' fresh heavy x full small ok m flow =
        let (perm, placed) =
          o_build_s_table-Placed hash32 st_hash shape some_bucket few byte rand rand' fresh heavy
            full small in
        let xs = elems (sorted_pairs hash32 st_hash shape rand heavy) in
        let l = addressed hash32 st_hash shape rand' 0 xs in
        let t = (o_build_s_table hash32 st_hash shape rand rand' fresh heavy).built.table in
        elim (dec_lt shape.stash_num (length {A = Item} [] + length (spilled shape [] l))) [
          | yes over ↦ let no_room = placed.fails over in absurd (cc)
          | no room ↦
              let (fine, filed, stash) = placed.fits (omega arith) in
              let same = Filed-in_reach shape l t (home x) filed (mod-lt _ some_bucket) stash in
              rw same (
                ∥∥₁_elim ((Perm.mem_iff perm).1 m) Mem-prop (λ d.
                  chosen_or_spilled shape [] l (home x) x (chosen-addressed xs rand' 0 x flow d)))
        ]
