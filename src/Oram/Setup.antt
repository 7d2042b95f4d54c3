-- ===== src/Oram/Setup.antt =====
-- The life of a sketch: `Init_OCU`, the constructors, `initOK`, `setObliv` and `free_OCU`. The sources
-- of the data and the drawn leaves are arguments, and so are the bytes that lie in fresh memory.
pub mod Nodes
use fosketch.Prelude.{
  ℕ, zero, suc, ◌+◌, ◌-◌, ◌*◌, ◌/◌, ◌%◌, ◌^◌, Bool, true, false, not, ◌&&◌, List, [], ◌∷◌, ◌++◌,
  map, take, drop, replicate, get_or, set, ltb, leb, ◌==◌, if◌then◌else◌,
}
use fosketch.Sorter.Bitonic.{sort}
use fosketch.Oram.Block.{Block, Bucket, erase_bid, by_pos}
use fosketch.Oram.Sketch.{Sketch, SketchType, broken, light, cu_sketch, stash_table}
use fosketch.Oram.Stash.{Stash, init_stash}

-- What `Init_OCU` reads: `pSource`, `rand() % nLeaf` for each block, and fresh memory.
pub record Inputs : Type 0 where
  pub source : List ℕ
  pub draw : ℕ → ℕ
  pub fresh_block : Block
  pub fresh_pos_map : List ℕ

-- `floor(log2(n))`; `fuel` bounds the bits of `n`.
pub floor_log2_loop : ℕ → ℕ → ℕ
floor_log2_loop zero n = 0
floor_log2_loop (suc fuel) n =
    let rest = floor_log2_loop fuel (n / 2) in if ltb n 2 then 0 else suc rest

unfoldable pub floor_log2 : ℕ → ℕ
unfolding floor_log2_loop
floor_log2 n = floor_log2_loop 64 n

-- The tree while it is filled, with `nFailed`.
pub record Filling : Type 0 where
  pub tree : List Bucket
  pub pos_map : List ℕ
  pub n_failed : ℕ

-- `memcpy(OblivSK+index, …)`
abbrev pub put_block : (bucket count : ℕ) → Block → List Bucket → List Bucket
put_block bucket count b tree = set tree bucket (set (get_or tree bucket []) count b)

-- The loop over the sorted blocks of one level. `pre_index` starts as -1.
pub place_blocks : (size_bucket up start pre_index count : ℕ) → List Block → Filling → Filling
place_blocks size_bucket up start pre_index count [] st = st
place_blocks size_bucket up start pre_index count (b ∷ bs) st =
    let cur_index = b.pos / 2 ^ up in
    let same = pre_index == cur_index in
    let count' = if same then count + 1 else 0 in
    let skipped =
      place_blocks size_bucket up start pre_index count' bs
        (record st { n_failed = st.n_failed + 1 }) in
    let placed =
      place_blocks size_bucket up start cur_index count' bs
        (record st { tree = put_block (start + cur_index) count' b st.tree }) in
    if same && leb size_bucket count' then skipped else placed

-- The bytes of block `j`: those in front of `payloadInd` stay as they are in memory.
abbrev pub make_block : (size_block n_record elem_size payload_ind : ℕ) → Inputs → ℕ → Block
make_block size_block n_record elem_size payload_ind inp j = record {
  bid = j;
  pos = inp.draw j;
  payload =
      take (payload_ind - 4) inp.fresh_block.payload
      ++ take (size_block - payload_ind) (drop (j * n_record * elem_size) inp.source);
}

pub make_blocks : (make : ℕ → Block) (n j : ℕ) → List Block
make_blocks make zero j = []
make_blocks make (suc n) j = make j ∷ make_blocks make n (j + 1)

-- `pos_map[j] = …` for each of the blocks.
pub note_leaves : List Block → List ℕ → List ℕ
note_leaves [] pos_map = pos_map
note_leaves (b ∷ bs) pos_map = note_leaves bs (set pos_map b.bid b.pos)

-- The loop over the levels, from level `n - 1` up to the root. `end` is `bucket_start` of the level
-- below.
pub init_levels :
    (make : ℕ → Block) (level n_block size_bucket n end flag_start : ℕ) → Filling → Filling
init_levels make level n_block size_bucket zero end flag_start st = st
init_levels make level n_block size_bucket (suc i) end flag_start st =
    let cur_length = 2 ^ i in
    let bs = make_blocks make cur_length flag_start in
    let st' : Filling = record st { pos_map = note_leaves bs st.pos_map } in
    let filled =
      place_blocks size_bucket (level - i) (end - cur_length) (2 ^ 64 - 1) size_bucket
        (sort by_pos bs cur_length) st' in
    if n_block / cur_length % 2 == 0
    then init_levels make level n_block size_bucket i (end - cur_length) flag_start st
    else init_levels make level n_block size_bucket i (end - cur_length) (flag_start + cur_length)
        filled

-- `ceil(1.0*a/b)`
abbrev pub ceil_div : ℕ → ℕ → ℕ
ceil_div a b = (a + b - 1) / b

-- The sizes by the type of the sketch; a sketch of type 'L' keeps the `nBlock` that it has.
abbrev pub n_block_of : SketchType → (w_sk size_bl n_block : ℕ) → ℕ
n_block_of cu_sketch w_sk size_bl n_block = ceil_div w_sk (size_bl - 4)
n_block_of stash_table w_sk size_bl n_block = ceil_div w_sk (size_bl - 8)
n_block_of _ w_sk size_bl n_block = n_block

abbrev pub elem_size_of : SketchType → ℕ
elem_size_of stash_table = 8
elem_size_of _ = 1

abbrev pub payload_ind_of : SketchType → ℕ
payload_ind_of stash_table = 8
payload_ind_of _ = 4

abbrev pub empty_tree : (n_bucket size_bucket : ℕ) → Block → List Bucket
empty_tree n_bucket size_bucket b = replicate n_bucket (replicate size_bucket (erase_bid b))

pub record Opened : Type 0 where
  pub sketch : Sketch
  pub ok : Bool

-- The lines of `Init_OCU` that fix the sizes. For no block at all, where the source takes the
-- logarithm of 0, the level is 0 here.
unfoldable pub size_up : (w_sk size_bl size_bk : ℕ) (comp_stash : Bool) → Sketch → Sketch
unfolding floor_log2
size_up w_sk size_bl size_bk comp_stash sk =
    let n_block = n_block_of sk.sketch_type w_sk size_bl sk.n_block in
    record sk {
      size_block = size_bl;
      size_bucket = size_bk;
      need_com_stash = comp_stash;
      n_block = n_block;
      n_record = (size_bl - 4) / elem_size_of sk.sketch_type;
      payload_ind = payload_ind_of sk.sketch_type;
      level = floor_log2 n_block;
    }

-- The stash, the tree and `pos_map`.
unfoldable pub set_up : Inputs → Sketch → Sketch
unfolding init_levels place_blocks make_blocks note_leaves
set_up inp sk =
    let n_bucket = 2 ^ suc sk.level - 1 in
    let make =
      make_block sk.size_block sk.n_record (elem_size_of sk.sketch_type) sk.payload_ind inp in
    let st = init_levels make sk.level sk.n_block sk.size_bucket (suc sk.level) n_bucket 0 (record {
      tree = empty_tree n_bucket sk.size_bucket inp.fresh_block;
      pos_map = inp.fresh_pos_map;
      n_failed = 0;
    }) in
    record sk { stash = init_stash inp.fresh_block; pos_map = st.pos_map; obliv_sk = st.tree }

unfoldable pub init_ocu : (w_sk size_bl size_bk : ℕ) (comp_stash : Bool) → Inputs → Sketch → Opened
unfolding size_up set_up
init_ocu w_sk size_bl size_bk comp_stash inp sk =
    let sized = size_up w_sk size_bl size_bk comp_stash sk in
    if leb 16 sized.level
    then record { sketch = sized; ok = false }
    else record { sketch = set_up inp sized; ok = true }

-- A constructor gives the sketch its type, and takes it away again if `Init_OCU` fails.
unfoldable pub open_sketch :
    SketchType → (w_sk size_bl size_bk : ℕ) (comp_stash : Bool) → Inputs → Sketch → Sketch
unfolding init_ocu
open_sketch t w_sk size_bl size_bk comp_stash inp sk =
    let o = init_ocu w_sk size_bl size_bk comp_stash inp (record sk { sketch_type = t }) in
    if o.ok then o.sketch else record o.sketch { sketch_type = broken }

-- `FOSketch(w_sk, sizeBl, sizeBk, compStash)`
unfoldable pub new_light : (w_sk size_bl size_bk : ℕ) (comp_stash : Bool) → Inputs → Sketch → Sketch
unfolding open_sketch
new_light = open_sketch light

-- `FOSketch(stype, compStash)`, of `CUSKETCH_MEM` or `ST_TABLE_MEM` bytes in blocks of `SIZE_BLOCK` and
-- buckets of `SIZE_BUCKET`; another type is reported and nothing set up.
unfoldable pub new_sketch : SketchType → Bool → Inputs → Sketch → Sketch
unfolding open_sketch
new_sketch cu_sketch comp_stash inp sk = open_sketch cu_sketch 460800 64 5 comp_stash inp sk
new_sketch stash_table comp_stash inp sk = open_sketch stash_table 229376 64 5 comp_stash inp sk
new_sketch _ comp_stash inp sk = sk

unfoldable pub init_ok : Sketch → Bool
init_ok sk = elim sk.sketch_type [ broken ↦ false | _ ↦ true ]

unfoldable pub set_obliv : ℕ → Sketch → Sketch
set_obliv val sk = record sk { global_set_oblivious = ltb 0 val }

unfoldable pub free_ocu : Sketch → Sketch
free_ocu sk = record {
  sketch_type = broken;
  size_block = 0;
  size_bucket = 0;
  level = 0;
  n_record = 0;
  payload_ind = 0;
  n_block = 0;
  need_com_stash = false;
  global_set_oblivious = sk.global_set_oblivious;
  global_added = 0;
  pos_map = [];
  stash = record { slots = []; length_st = 0 };
  obliv_sk = [];
}
