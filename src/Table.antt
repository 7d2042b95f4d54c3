-- ===== src/Table.antt =====
-- The stash table: heavy flows in buckets by their hash, and a stash for those whose bucket is full.
-- `OBuildSTable` of FOSketch/Enclave/FOSketch.h and the plain `BuildSTable_NO` of
-- FOSketch/Enclave/Enclave.cpp.
pub mod Filed
pub mod Places
pub mod Build
pub mod Reach
pub mod Finds
use fosketch.Prelude.{
  ℕ, zero, suc, ◌+◌, ◌*◌, ◌%◌, ◌^◌, Bool, true, false, List, [], ◌∷◌, ◌++◌, map, arith, length,
  get_or, set, replicate, leb, ltb, ◌==◌, if◌then◌else◌,
}
use fosketch.Sorter.Order.{Comparator}
use fosketch.Sorter.Exchange.{o_move}
use fosketch.Sorter.Power.{test_po2}
use fosketch.Sorter.Bitonic as Bitonic
use fosketch.Sorter.OddEven as OddEven
use fosketch.Counts.{Item}

-- `ShufflePair`
pub record ShufflePair : Type 0 where
  pub index : ℕ
  pub elem : Item

-- `greater_SP` on pairs compares the 16-bit index.
unfoldable pub greater_sp : Comparator ShufflePair
greater_sp = record {
  greater = λ x y. ltb y.index x.index;
  asym = λ x y h. ground arith;
  trans = λ x y z h k. ground arith;
}

-- The build-time constants `ST_BUCKET_NUM`, `ST_BUCKET_SIZE` and `ST_STASH_NUM`.
pub record Shape : Type 0 where
  pub bucket_num : ℕ
  pub bucket_size : ℕ
  pub stash_num : ℕ

-- `pDataStashTable`, `idcList`, and `pStashHeavy` as far as `countStash` goes.
pub record Table : Type 0 where
  pub slots : List Item
  pub idc_list : List ℕ
  pub stash : List Item

pub record Built : Type 0 where
  pub table : Table
  pub ok : Bool

-- What `OBuildSTable` leaves: `HeavyHitterList` and the table.
pub record Prepared : Type 0 where
  pub heavy : List Item
  pub built : Built

-- The first loop of `OBuildSTable` gives the flows the ids from 1 on.
pub numbered_flows : (i : ℕ) → List Item → List Item
numbered_flows i [] = []
numbered_flows i (x ∷ heavy) = record x { flow_id = i + 1 } ∷ numbered_flows (i + 1) heavy

-- `rand` is what the calls of `rand()` draw, by their place in the loop.
pub shuffled : (bucket_num : ℕ) (rand : ℕ → ℕ) (i : ℕ) → List Item → List ShufflePair
shuffled bucket_num rand i [] = []
shuffled bucket_num rand i (x ∷ heavy) =
    record { index = rand i % bucket_num % 2 ^ 16; elem = x }
    ∷ shuffled bucket_num rand (i + 1) heavy

abbrev pub elems : List ShufflePair → List Item
elems ps = map (λ (p : ShufflePair). p.elem) ps

module _ (hash32 : ℕ → ℕ → ℕ) (st_hash : ℕ) (shape : Shape) where
  -- The bucket of an item; one without a flow gets a drawn bucket.
  abbrev pub bucket_of : (drawn : ℕ) → Item → ℕ
  bucket_of drawn x =
      o_move (drawn % shape.bucket_num) (hash32 x.flow_id st_hash % shape.bucket_num)
        (x.flow_id == 0)
      % 2 ^ 16

  -- The body of the loop.
  unfoldable pub place_item : (ind : ℕ) → Item → Table → Built
  place_item ind x t =
      let idc = get_or t.idc_list ind 0 in
      if leb shape.bucket_size idc
      then (if leb shape.stash_num (length t.stash)
          then record { table = t; ok = false }
          else record { table = record t { stash = t.stash ++ x ∷ [] }; ok = true })
      else record {
        table = record t {
          slots = set t.slots (shape.bucket_size * ind + idc) x;
          idc_list = set t.idc_list ind ((idc + 1) % 256);
        };
        ok = true;
      }

  -- The loop ends with the first item that has no place.
  unfoldable pub place_items : (rand : ℕ → ℕ) (i : ℕ) → List Item → Table → Built
  unfolding place_item
  place_items rand i [] t = record { table = t; ok = true }
  place_items rand i (x ∷ xs) t =
      let b = place_item (bucket_of (rand i) x) x t in
      let rest = place_items rand (i + 1) xs b.table in if b.ok then rest else b

  -- `fresh` is the memory that `malloc` hands out for the slots.
  abbrev pub new_table : (fresh : List Item) → Table
  new_table fresh = record { slots = fresh; idc_list = replicate shape.bucket_num 0; stash = [] }

  -- `OBuildSTable`. The draws for the shuffle come first.
  unfoldable pub sorted_pairs : (rand : ℕ → ℕ) → List Item → List ShufflePair
  unfolding numbered_flows shuffled
  sorted_pairs rand heavy =
      let pairs = shuffled shape.bucket_num rand 0 (numbered_flows 0 heavy) in
      let num_heavy = length heavy in
      if test_po2 num_heavy
      then OddEven.sort greater_sp pairs num_heavy
      else Bitonic.sort greater_sp pairs num_heavy

  unfoldable pub o_build_s_table : (rand rand' : ℕ → ℕ) (fresh heavy : List Item) → Prepared
  unfolding numbered_flows sorted_pairs place_items
  o_build_s_table rand rand' fresh heavy = record {
    heavy = numbered_flows 0 heavy;
    built = place_items rand' 0 (elems (sorted_pairs rand heavy)) (new_table fresh);
  }

  -- `BuildSTable_NO`
  unfoldable pub build_s_table_no : (rand : ℕ → ℕ) (fresh heavy : List Item) → Built
  unfolding place_items
  build_s_table_no rand fresh heavy = place_items rand 0 heavy (new_table fresh)
