-- ===== src/Oram/Evict.antt =====
-- Writing the stash back to a path: `rebuildStash`, `ORebuildStash` and its variants `_S` and `_F`,
-- and the compression of the stash, `OCompressStash`.
pub mod Fill
pub mod Rebuild
pub mod Compress
pub mod Erased
pub mod Keeps
use fosketch.Prelude.{
  ℕ, zero, suc, ◌+◌, ◌-◌, Bool, true, false, not, ◌&&◌, ◌||◌, List, [], ◌∷◌, ◌++◌, map, get_or, ltb,
  if◌then◌else◌,
}
use fosketch.Sorter.Exchange.{o_move}
use fosketch.Sorter.Bitonic.{sort}
use fosketch.Oram.Block.{Block, Bucket, is_dummy, is_real, erase_bid, dummy_flag, by_bid}
use fosketch.Oram.Stash.{Stash, default_stash_length}
use fosketch.Oram.Sketch.{Sketch, shares}

-- A bucket of the path and the slots from `k` on.
pub record Filled : Type 0 where
  pub bucket : Bucket
  pub slots : List Block

pub record Taken : Type 0 where
  pub block : Block
  pub slots : List Block

-- What the `while` of `rebuildStash` leaves for one place of the path: the block there, the slots that
-- it passed, those that it did not come to, and how many of these are searched.
pub record SlotCursor : Type 0 where
  pub block : Block
  pub passed : List Block
  pub left : List Block
  pub size : ℕ

-- `eligible` is the comparison of the prefixes of two leaves.
module _ (eligible : Block → Bool) where
  pub take_slot : ℕ → Block → List Block → SlotCursor
  take_slot n b [] = record { block = b; passed = []; left = []; size = n }
  take_slot zero b (s ∷ ss) = record { block = b; passed = []; left = s ∷ ss; size = 0 }
  take_slot (suc n) b (s ∷ ss) =
      let rest = take_slot n b ss in
      if is_real s && eligible s
      then record { block = s; passed = erase_bid s ∷ []; left = ss; size = n }
      else record rest { passed = s ∷ rest.passed }

  -- The loop over `j`: the next place goes on where the last one stopped.
  pub fill_bucket : ℕ → Bucket → List Block → Filled
  fill_bucket n [] ss = record { bucket = []; slots = ss }
  fill_bucket n (b ∷ bs) ss =
      let t = take_slot n b ss in
      let rest = fill_bucket t.size bs t.left in
      record { bucket = t.block ∷ rest.bucket; slots = t.passed ++ rest.slots }

  -- The loop of `ORebuildStash` over `k`: it looks at every slot; `cond` keeps its value at a dummy.
  pub o_take_slot : ℕ → (found cond : Bool) → Block → List Block → Taken
  o_take_slot n found cond b [] = record { block = b; slots = [] }
  o_take_slot zero found cond b (s ∷ ss) = record { block = b; slots = s ∷ ss }
  o_take_slot (suc n) found cond b (s ∷ ss) =
      let cond1 = o_move (eligible s) cond (is_real s) in
      let b' = o_move s b (cond1 && not found) in
      let s' = record s { bid = o_move dummy_flag s.bid (cond1 && not found) } in
      let found' = o_move true found (cond1 && not found) in
      let cond2 = o_move false cond1 (cond1 && not found') in
      let rest = o_take_slot n found' cond2 b' ss in
      record { block = rest.block; slots = s' ∷ rest.slots }

  pub o_fill_bucket : ℕ → Bucket → List Block → Filled
  o_fill_bucket n [] ss = record { bucket = []; slots = ss }
  o_fill_bucket n (b ∷ bs) ss =
      let t = o_take_slot n false false b ss in
      let rest = o_fill_bucket n bs t.slots in
      record { bucket = t.block ∷ rest.bucket; slots = rest.slots }

  -- `_S` and `_F` branch, and reset `cond` when they have found a block.
  pub branch_take_slot : ℕ → (found cond : Bool) → Block → List Block → Taken
  branch_take_slot n found cond b [] = record { block = b; slots = [] }
  branch_take_slot zero found cond b (s ∷ ss) = record { block = b; slots = s ∷ ss }
  branch_take_slot (suc n) found cond b (s ∷ ss) =
      let cond1 = if is_real s then eligible s else cond in
      let hit = branch_take_slot n true false s ss in
      let miss = branch_take_slot n found cond1 b ss in
      if cond1 && not found
      then record { block = hit.block; slots = erase_bid s ∷ hit.slots }
      else record { block = miss.block; slots = s ∷ miss.slots }

  pub branch_fill_bucket : ℕ → Bucket → List Block → Filled
  branch_fill_bucket n [] ss = record { bucket = []; slots = ss }
  branch_fill_bucket n (b ∷ bs) ss =
      let t = branch_take_slot n false false b ss in
      let rest = branch_fill_bucket n bs t.slots in
      record { bucket = t.block ∷ rest.bucket; slots = rest.slots }

pub record Rebuilt : Type 0 where
  pub path : List Bucket
  pub slots : List Block

-- The test of the block in a slot, at the bucket `up` levels above the leaf.
abbrev pub at_level : (pos_map : List ℕ) (leaf up : ℕ) → Block → Bool
at_level pos_map leaf up s = shares up leaf (get_or pos_map s.bid 0)

-- The loop over the levels, from the leaf up to the root: the deepest bucket is the last of the path.
-- `up` is the number of levels below the first bucket.
pub rebuild_levels :
    ((eligible : Block → Bool) → Bucket → List Block → Filled)
    → (pos_map : List ℕ) (leaf up : ℕ) → List Bucket
    → List Block
    → Rebuilt
rebuild_levels fill pos_map leaf up [] ss = record { path = []; slots = ss }
rebuild_levels fill pos_map leaf up (b ∷ path) ss =
    let rest = rebuild_levels fill pos_map leaf (up - 1) path ss in
    let f = fill (at_level pos_map leaf up) b rest.slots in
    record { path = f.bucket ∷ rest.path; slots = f.slots }

-- The first loop: only the ids are written.
abbrev pub clear_path : List Bucket → List Bucket
clear_path path = map (map erase_bid) path

abbrev with_slots : Sketch → List Block → Sketch
with_slots sk ss = record sk { stash = record { slots = ss; length_st = sk.stash.length_st } }

pub record Evicted : Type 0 where
  pub sketch : Sketch
  pub path : List Bucket

unfoldable pub rebuild_stash : List Bucket → ℕ → Sketch → Evicted
unfolding rebuild_levels fill_bucket take_slot
rebuild_stash path leaf sk =
    let fill = λ (e : Block → Bool). fill_bucket e sk.stash.length_st in
    let r = rebuild_levels fill sk.pos_map leaf sk.level (clear_path path) sk.stash.slots in
    record { sketch = with_slots sk r.slots; path = r.path }

-- `insPos` of `OCompressStash`: the real blocks among the first `n` slots.
pub count_real : ℕ → List Block → ℕ
count_real zero ss = 0
count_real (suc n) [] = 0
count_real (suc n) (s ∷ ss) = if is_real s then suc (count_real n ss) else count_real n ss

unfoldable pub o_compress_stash : Stash → Stash
unfolding count_real
o_compress_stash st =
    let sorted = sort by_bid st.slots st.length_st in
    let ins_pos = count_real st.length_st sorted in
    record {
      slots = sorted;
      length_st = o_move default_stash_length ins_pos (ltb ins_pos default_stash_length);
    }

abbrev pub compressed : Evicted → Evicted
compressed e = record e { sketch = record e.sketch { stash = o_compress_stash e.sketch.stash } }

unfoldable pub o_rebuild_stash : List Bucket → ℕ → Sketch → Evicted
unfolding rebuild_levels o_fill_bucket o_take_slot
o_rebuild_stash path leaf sk =
    let fill = λ (e : Block → Bool). o_fill_bucket e sk.stash.length_st in
    let r = rebuild_levels fill sk.pos_map leaf sk.level (clear_path path) sk.stash.slots in
    let e : Evicted = record { sketch = with_slots sk r.slots; path = r.path } in
    if sk.need_com_stash then compressed e else e

unfoldable pub o_rebuild_stash_s : List Bucket → ℕ → Sketch → Evicted
unfolding rebuild_levels branch_fill_bucket branch_take_slot
o_rebuild_stash_s path leaf sk =
    let fill = λ (e : Block → Bool). branch_fill_bucket e sk.stash.length_st in
    let r = rebuild_levels fill sk.pos_map leaf sk.level (clear_path path) sk.stash.slots in
    record { sketch = with_slots sk r.slots; path = r.path }

unfoldable pub o_rebuild_stash_f : List Bucket → ℕ → Sketch → Evicted
unfolding rebuild_levels branch_fill_bucket branch_take_slot
o_rebuild_stash_f path leaf sk =
    let fill = λ (e : Block → Bool). branch_fill_bucket e sk.stash.length_st in
    let r = rebuild_levels fill sk.pos_map leaf sk.level (clear_path path) sk.stash.slots in
    record { sketch = with_slots sk r.slots; path = r.path }
