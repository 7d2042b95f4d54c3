-- ===== src/Oram/Compact.antt =====
-- `compressStash`: the blocks that count are moved to the front of the stash, in order, without a sort.
pub mod Loop
pub mod Order
use fosketch.Prelude.{ℕ, zero, suc, ◌+◌, List, [], ◌∷◌, get_or, set, ltb, ◌==◌, if◌then◌else◌}
use fosketch.Prelude.Loops.{for_range}
use fosketch.Oram.Block.{Block, is_dummy, erase_bid, dummy_flag}
use fosketch.Oram.Stash.{Stash, default_stash_length}

-- The array and `insPos`, where the next block goes.
pub record Packing : Type 0 where
  pub slots : List Block
  pub ins_pos : ℕ

-- What a read past the array would give; there is none.
abbrev nothing : Block
nothing = record { bid = dummy_flag; pos = 0; payload = [] }

-- One round of the loop. A block that is copied away leaves its bytes behind, under the dummy's id.
unfoldable pub pack_slot : (cur_pos : ℕ) → Packing → Packing
pack_slot cur_pos p =
    let s = get_or p.slots cur_pos nothing in
    let moved = set (set p.slots p.ins_pos s) cur_pos (erase_bid s) in
    if is_dummy s
    then p
    else record { slots = if cur_pos == p.ins_pos then p.slots else moved; ins_pos = p.ins_pos + 1 }

-- The stash with the two high-water marks that the method keeps.
pub record Compressed : Type 0 where
  pub stash : Stash
  pub max_real_stash : ℕ
  pub max_init_stash : ℕ

unfoldable pub compress_stash : Compressed → Compressed
unfolding for_range pack_slot
compress_stash c =
    let n = c.stash.length_st in
    let p = for_range n 0 pack_slot (record { slots = c.stash.slots; ins_pos = 0 }) in
    record {
      stash = record {
        slots = p.slots;
        length_st = if ltb p.ins_pos default_stash_length then default_stash_length else p.ins_pos;
      };
      max_real_stash = if ltb c.max_real_stash n then n else c.max_real_stash;
      max_init_stash = if ltb c.max_init_stash p.ins_pos then p.ins_pos else c.max_init_stash;
    }
