-- ===== src/Oram/Access.antt =====
-- One access: `access`, `OAccess`, `OAccess_S` and `OAccess_F`, and the runs `BurstAccess` and
-- `LinearAccess`. The leaf that `readFromStash` draws is the argument `pos`; `Block`, which starts
-- uninitialised, is the argument `buffer`.
pub mod Leaf
pub mod Content
pub mod Conserves
use fosketch.Prelude.{
  ℕ, zero, suc, ◌+◌, ◌-◌, ◌*◌, ◌/◌, ◌%◌, ◌^◌, Bool, true, false, List, [], ◌∷◌, get_or, ltb, ◌==◌,
  if◌then◌else◌,
}
use fosketch.Prelude.Loops.{for_range}
use fosketch.Oram.Block.{Block, Bucket, blocks}
use fosketch.Oram.Sketch.{Sketch, SketchType, stash_table}
use fosketch.Oram.Stash.{
  o_write_to_stash, o_write_to_stash_s, o_write_to_stash_f, write_to_stash, Stash,
}
use fosketch.Oram.Read.{
  Read, read_from_stash, o_read_from_stash, o_read_from_stash_s, o_read_from_stash_f,
}
use fosketch.Oram.Evict.{
  Evicted, rebuild_stash, o_rebuild_stash, o_rebuild_stash_s, o_rebuild_stash_f,
}
use fosketch.Oram.Tree.{read_path, push_path}

-- `CACHE_LINE/sizeof(bid_t)`
abbrev pub pace : ℕ
pace = 32

-- The loop of `OAccess` and `OAccess_F` over `pos_map`, a cache line at a time.
unfoldable pub lookup_leaf : (pos_map : List ℕ) (n_block bid : ℕ) → ℕ
unfolding for_range
lookup_leaf pos_map n_block bid =
    for_range ((n_block + pace - 1) / pace) 0
      (λ k leaf. if k * pace == bid - bid % pace then get_or pos_map bid 0 else leaf) 0

-- The loop of `OAccess_S`, an entry at a time.
unfoldable pub lookup_leaf_s : (pos_map : List ℕ) (n_block bid : ℕ) → ℕ
unfolding for_range
lookup_leaf_s pos_map n_block bid =
    for_range n_block 0 (λ i leaf. if i == bid then get_or pos_map i 0 else leaf) 0

-- What the four have in common, in the order of the calls.
unfoldable pub run_access :
    (List Block → Stash → Stash)
    → (ℕ → ℕ → Block → Sketch → Read)
    → (List Bucket → ℕ → Sketch → Evicted)
    → (bid leaf pos : ℕ) → Block
    → Sketch
    → Read
unfolding blocks read_path push_path
run_access write read rebuild bid leaf pos buffer sk =
    let path = read_path sk.level leaf sk.obliv_sk in
    let sk1 : Sketch = record sk { stash = write (blocks path) sk.stash } in
    let r = read bid pos buffer sk1 in
    let e = rebuild path leaf r.sketch in
    record {
      sketch = record e.sketch { obliv_sk = push_path sk.level leaf e.path e.sketch.obliv_sk };
      buffer = r.buffer;
      found = r.found;
    }

-- The byte at `Block+payloadInd+subIdx`; the payload starts behind two 16-bit words.
abbrev pub byte_of : Sketch → Block → ℕ → ℕ
byte_of sk b sub_idx = get_or b.payload (sk.payload_ind - 4 + sub_idx) 0

pub record Answer : Type 0 where
  pub sketch : Sketch
  pub size : ℕ

-- The byte, or what `size` starts as.
unfoldable pub answer : (size : ℕ) → Sketch → ℕ → Read → Answer
answer size sk index r = record {
  sketch = r.sketch;
  size = if r.found then byte_of sk r.buffer (index % sk.n_record) else size;
}

unfoldable pub access : (index pos : ℕ) → Block → Sketch → Answer
unfolding run_access answer write_to_stash read_from_stash rebuild_stash
access index pos buffer sk =
    let bid = index / sk.n_record in
    let leaf = get_or sk.pos_map bid 0 in
    answer 0 sk index
      (run_access write_to_stash read_from_stash rebuild_stash bid leaf pos buffer sk)

abbrev pub is_table : SketchType → Bool
is_table stash_table = true
is_table _ = false

-- `bid` is a 16-bit variable.
abbrev pub bid_of : Sketch → ℕ → ℕ
bid_of sk index = (if is_table sk.sketch_type then index else index / sk.n_record) % 2 ^ 16

unfoldable pub o_access : (index pos : ℕ) → Block → Sketch → Read
unfolding lookup_leaf run_access o_write_to_stash o_read_from_stash o_rebuild_stash
o_access index pos buffer sk =
    let bid = bid_of sk index in
    let leaf = lookup_leaf sk.pos_map sk.n_block bid in
    run_access o_write_to_stash o_read_from_stash o_rebuild_stash bid leaf pos buffer sk

-- `size` starts as -1 and is returned as a byte.
unfoldable pub o_access_s : (index pos : ℕ) → Block → Sketch → Answer
unfolding lookup_leaf_s run_access answer o_write_to_stash_s o_read_from_stash_s o_rebuild_stash_s
o_access_s index pos buffer sk =
    let bid = index / sk.n_record in
    let leaf = lookup_leaf_s sk.pos_map sk.n_block bid in
    answer 255 sk index
      (run_access o_write_to_stash_s o_read_from_stash_s o_rebuild_stash_s bid leaf pos buffer sk)

unfoldable pub o_access_f : (index pos : ℕ) → Block → Sketch → Answer
unfolding lookup_leaf run_access answer o_write_to_stash_f o_read_from_stash_f o_rebuild_stash_f
o_access_f index pos buffer sk =
    let bid = index / sk.n_record in
    let leaf = lookup_leaf sk.pos_map sk.n_block bid in
    answer 255 sk index
      (run_access o_write_to_stash_f o_read_from_stash_f o_rebuild_stash_f bid leaf pos buffer sk)

abbrev scale : Sketch → ℕ
scale sk = if is_table sk.sketch_type then 1 else sk.n_record

-- A drawn index and a drawn leaf for each round of `BurstAccess`.
unfoldable pub burst_access : List (ℕ × ℕ) → Block → Sketch → Sketch
unfolding access o_access
burst_access [] buffer sk = sk
burst_access (d ∷ draws) buffer sk =
    let index = d.0 % (sk.n_block * scale sk) in
    let o = o_access index d.1 buffer sk in
    if sk.global_set_oblivious
    then burst_access draws o.buffer o.sketch
    else burst_access draws buffer (access index d.1 buffer sk).sketch

-- `LinearAccess` from block `i` on, with a drawn leaf for each of the `repts` rounds.
unfoldable pub linear_access : (i : ℕ) → List ℕ → Block → Sketch → Sketch
unfolding access o_access
linear_access i [] buffer sk = sk
linear_access i (pos ∷ draws) buffer sk =
    let o = o_access (i * scale sk) pos buffer sk in
    if sk.global_set_oblivious
    then linear_access (i + 1) draws o.buffer o.sketch
    else linear_access (i + 1) draws buffer (access (i * scale sk) pos buffer sk).sketch
