-- ===== src/Oram/Query.antt =====
-- `OAccessFID` and `OBurstAccessFID`: the size of a flow. `SpookyHash::Hash32` on the four bytes of a
-- flow and a seed is the parameter `hash32`.
pub mod Answers
use fosketch.Prelude.{ℕ, ◌+◌, ◌-◌, ◌*◌, ◌%◌, List, [], ◌∷◌, get_or, ◌==◌, if◌then◌else◌}
use fosketch.Prelude.Loops.{for_range}
use fosketch.Sorter.Exchange.{o_move}
use fosketch.Counts.{Item}
use fosketch.Oram.Block.{Block}
use fosketch.Oram.Sketch.{Sketch}
use fosketch.Oram.Read.{Read}
use fosketch.Oram.Access.{is_table, byte_of, Answer, o_access}

-- The globals that the method reads: the two seeds and `pStashHeavy` with its `countStash` items.
pub record Globals : Type 0 where
  pub st_hash : ℕ
  pub cus_hash : ℕ
  pub p_stash_heavy : List Item
  pub count_stash : ℕ

abbrev pub st_bucket_num : ℕ
st_bucket_num = 4096

abbrev pub cu_sketch_mem : ℕ
cu_sketch_mem = 460800

-- A 32-bit word, the lowest byte first.
abbrev pub word_at : List ℕ → ℕ → ℕ
word_at bytes i =
    get_or bytes i 0
    + 256 * get_or bytes (i + 1) 0
    + 65536 * get_or bytes (i + 2) 0
    + 16777216 * get_or bytes (i + 3) 0

-- `((Item *)(Block+payloadInd))[x]`; the payload starts behind two 16-bit words.
abbrev pub item_at : Sketch → List ℕ → ℕ → Item
item_at sk payload x =
    let start = sk.payload_ind - 4 + 8 * x in
    record { flow_id = word_at payload start; size = word_at payload (start + 4) }

abbrev pub heavy_at : Globals → ℕ → Item
heavy_at g i = get_or g.p_stash_heavy i (record { flow_id = 0; size = 0 })

-- The two loops over items.
unfoldable pub scan_items : (flow_id n : ℕ) → (ℕ → Item) → ℕ → ℕ
unfolding for_range
scan_items flow_id n item size =
    for_range n 0 (λ x size. o_move (item x).size size ((item x).flow_id == flow_id)) size

-- What follows the access: the size in the block that it found, and the second loop.
unfoldable pub size_of : Globals → (flow_id index : ℕ) → Sketch → Read → ℕ
unfolding scan_items
size_of g flow_id index sk r =
    let table_size = scan_items flow_id sk.n_record (item_at sk r.buffer.payload) 0 in
    let light_size = byte_of sk r.buffer (index % sk.n_record) in
    let size =
      if r.found then (if is_table sk.sketch_type then table_size else light_size) else 0 in
    if is_table sk.sketch_type then scan_items flow_id g.count_stash (heavy_at g) size else size

module _ (hash32 : ℕ → ℕ → ℕ) where
  abbrev pub index_of : Globals → ℕ → Sketch → ℕ
  index_of g flow_id sk =
      if is_table sk.sketch_type
      then hash32 flow_id g.st_hash % st_bucket_num
      else hash32 flow_id g.cus_hash % cu_sketch_mem

  unfoldable pub o_access_fid : Globals → (flow_id pos : ℕ) → Block → Sketch → Answer
  unfolding o_access size_of
  o_access_fid g flow_id pos buffer sk =
      let index = index_of g flow_id sk in
      let r = o_access index pos buffer sk in
      record { sketch = r.sketch; size = size_of g flow_id index sk r }

  -- A drawn flow and a drawn leaf for each round.
  unfoldable pub o_burst_access_fid : Globals → List (ℕ × ℕ) → Block → Sketch → Sketch
  unfolding o_access_fid
  o_burst_access_fid g [] buffer sk = sk
  o_burst_access_fid g (d ∷ draws) buffer sk =
      o_burst_access_fid g draws buffer (o_access_fid g d.0 d.1 buffer sk).sketch
