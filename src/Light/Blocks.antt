-- ===== src/Light/Blocks.antt =====
-- The merge by whole cache lines: `OUpdateCUSketch_B` of FOSketch/Enclave/FOSketch.h, in which a block
-- holds 60 counters and a heavy flow is a block with one counter.
pub mod Gathered
pub mod Lines
pub mod Back
pub mod Merges
use fosketch.Prelude.{
  ℕ, zero, suc, ◌+◌, ◌*◌, ◌/◌, ◌%◌, ◌^◌, Bool, true, false, List, [], ◌∷◌, ◌++◌, map, length, take,
  drop, get_or, max, ◌==◌, if◌then◌else◌,
}
use fosketch.Sorter.Exchange.{o_move}
use fosketch.Sorter.Power.{ceil_log2}
use fosketch.Sorter.Bitonic.{sort}
use fosketch.Counts.{Item}
use fosketch.Oram.Block.{Block, erase_bid, by_bid}
use fosketch.Light.Pass.{max_pass}
use fosketch.Light.Update.{target}

-- `CACHE_LINE - 2*sizeof(bid_t)`
abbrev pub n_record : ℕ
n_record = 60

-- `vpmaxub` on the bytes of a 16-bit word, and on rows of bytes.
abbrev pub max_word : ℕ → ℕ → ℕ
max_word a b = max (a % 256) (b % 256) + 256 * max (a / 256) (b / 256)

abbrev pub max_bytes : List ℕ → List ℕ → List ℕ
max_bytes [] ys = ys
max_bytes (x ∷ xs) [] = x ∷ xs
max_bytes (x ∷ xs) (y ∷ ys) = max x y ∷ max_bytes xs ys

-- `OMaxSetMemCL` where its condition does not hold.
abbrev pub max_line : Block → Block → Block
max_line acc x = record {
  bid = max_word acc.bid x.bid;
  pos = max_word acc.pos x.pos;
  payload = max_bytes acc.payload x.payload;
}

-- `memcpy` of a record's bytes, read one by one.
abbrev pub bytes_of : (n i : ℕ) → List ℕ → List ℕ
bytes_of zero i bytes = []
bytes_of (suc n) i bytes = get_or bytes i 0 ∷ bytes_of n (i + 1) bytes

-- The light part as blocks, from block `i` on. `pos` is what stands in the words that nothing sets.
abbrev pub light_blocks : (pos : ℕ → ℕ) (n i : ℕ) → List ℕ → List Block
light_blocks pos zero i light = []
light_blocks pos (suc n) i light =
    record { bid = i % 2 ^ 16; pos = pos i; payload = take n_record light }
    ∷ light_blocks pos n (i + 1) (drop n_record light)

-- `data[j] = OMove(cnt, 0, j == cidx)` for the bytes from `j` on.
abbrev pub one_byte : (n j cidx cnt : ℕ) → List ℕ
one_byte zero j cidx cnt = []
one_byte (suc n) j cidx cnt = o_move cnt 0 (j == cidx) ∷ one_byte n (j + 1) cidx cnt

abbrev pub heavy_block : (pos : ℕ) → Item → Block
heavy_block pos t = record {
  bid = t.flow_id / n_record % 2 ^ 16;
  pos = pos;
  payload = one_byte n_record 0 (t.flow_id % n_record) t.size;
}

abbrev pub heavy_blocks : (pos : ℕ → ℕ) (i : ℕ) → List Item → List Block
heavy_blocks pos i [] = []
heavy_blocks pos i (t ∷ ts) = heavy_block (pos i) t ∷ heavy_blocks pos (i + 1) ts

-- The copy back.
abbrev pub copy_back : List Block → List ℕ
copy_back [] = []
copy_back (b ∷ bs) = bytes_of n_record 0 b.payload ++ copy_back bs

module _ (hash32 : ℕ → ℕ → ℕ) (cus_hash : ℕ) where
  -- `junk` is what stands in the paddings, of which only the id is set, and `tmp_b` the block of that
  -- name, which starts uninitialised.
  unfoldable pub o_update_cu_sketch_b :
      (pos : ℕ → ℕ) (junk : List Block) (tmp_b : Block) (light : List ℕ) → List Item → List ℕ
  unfolding max_pass
  o_update_cu_sketch_b pos junk tmp_b light heavy =
      let num1_block = length light / n_record in
      let num = num1_block + length heavy in
      let num_block = 2 ^ ceil_log2 num in
      let targets = map (target hash32 cus_hash (length light)) heavy in
      let dump =
        light_blocks pos num1_block 0 light
        ++ (heavy_blocks pos num1_block targets ++ map erase_bid junk) in
      let sorted = sort by_bid dump num_block in
      let passed =
        max_pass (λ (b : Block). b.bid) max_line erase_bid true tmp_b (take num sorted)
        ++ drop num sorted in
      copy_back (take num1_block (sort by_bid passed num_block))
