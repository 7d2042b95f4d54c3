-- ===== src/Oram/Read.antt =====
-- Looking a block up in the stash: `readFromStash`, `OReadFromStash` and its variants `_S` and `_F`.
-- The drawn leaf `rand() % nLeaf` is the argument `pos`. The asserts are left out, and so are the
-- copies to a local `dummyBlock`.
pub mod Lookup
use fosketch.Prelude.{
  ℕ, zero, suc, ◌+◌, ◌-◌, Bool, true, false, not, ◌&&◌, ◌||◌, List, [], ◌∷◌, set, ltb, ◌==◌,
  if◌then◌else◌,
}
use fosketch.Sorter.Exchange.{o_move}
use fosketch.Oram.Block.{Block, is_dummy}
use fosketch.Oram.Stash.{Stash, max_stash_num}
use fosketch.Oram.Sketch.{Sketch}

-- What a scan leaves: the slots, their searched length, the caller's buffer `Block` and `found`.
pub record Scan : Type 0 where
  pub slots : List Block
  pub length_st : ℕ
  pub buffer : Block
  pub found : Bool

abbrev pub keep : Block → Scan → Scan
keep s r = record r { slots = s ∷ r.slots }

-- The loop of `readFromStash`, over the `n` slots that are left: it stops at the block.
pub read_slots : (bid pos n length_st : ℕ) → Block → List Block → Scan
read_slots bid pos n length_st b [] = record {
  slots = [];
  length_st = length_st;
  buffer = b;
  found = false;
}
read_slots bid pos zero length_st b (s ∷ ss) = record {
  slots = s ∷ ss;
  length_st = length_st;
  buffer = b;
  found = false;
}
read_slots bid pos (suc n) length_st b (s ∷ ss) =
    let s' = record s { pos = pos } in
    let rest = read_slots bid pos n length_st b ss in
    if s.bid == bid
    then record { slots = s' ∷ ss; length_st = length_st; buffer = s'; found = true }
    else keep s rest

-- The loop of the oblivious methods: it looks at every slot.
pub o_read_slots : (bid pos : ℕ) (found : Bool) (n length_st : ℕ) → Block → List Block → Scan
o_read_slots bid pos found n length_st b [] = record {
  slots = [];
  length_st = length_st;
  buffer = b;
  found = found;
}
o_read_slots bid pos found zero length_st b (s ∷ ss) = record {
  slots = s ∷ ss;
  length_st = length_st;
  buffer = b;
  found = found;
}
o_read_slots bid pos found (suc n) length_st b (s ∷ ss) =
    let cond = s.bid == bid in
    let s' = record s { pos = o_move pos s.pos (cond && not found) } in
    let b' = o_move s' b (cond && not found) in
    keep s' (o_read_slots bid pos (found || cond) n length_st b' ss)

-- The same loop with a branch in place of the moves: `_S` and `_F`.
pub branch_read_slots : (bid pos : ℕ) (found : Bool) (n length_st : ℕ) → Block → List Block → Scan
branch_read_slots bid pos found n length_st b [] = record {
  slots = [];
  length_st = length_st;
  buffer = b;
  found = found;
}
branch_read_slots bid pos found zero length_st b (s ∷ ss) = record {
  slots = s ∷ ss;
  length_st = length_st;
  buffer = b;
  found = found;
}
branch_read_slots bid pos found (suc n) length_st b (s ∷ ss) =
    let cond = s.bid == bid in
    let s' = record s { pos = pos } in
    let hit = keep s' (branch_read_slots bid pos true n length_st s' ss) in
    let miss = keep s (branch_read_slots bid pos (found || cond) n length_st b ss) in
    if cond && not found then hit else miss

-- `memset(…, 0, n)`
pub memset_zero : ℕ → List ℕ → List ℕ
memset_zero zero bytes = bytes
memset_zero (suc n) [] = []
memset_zero (suc n) (x ∷ bytes) = 0 ∷ memset_zero n bytes

-- The second loop of all four: a block that is nowhere is made in the first free slot. Past the end
-- the searched length grows by 8; past `MAX_STASH_NUM` that is undone and the loop left.
pub add_slots : (bid pos n_record j length_st : ℕ) → Block → List Block → Scan
add_slots bid pos n_record j length_st b [] = record {
  slots = [];
  length_st = length_st;
  buffer = b;
  found = false;
}
add_slots bid pos n_record j length_st b (s ∷ ss) =
    let made : Block = record { bid = bid; pos = pos; payload = memset_zero n_record s.payload } in
    let last = j == length_st - 1 in
    let rest =
      add_slots bid pos n_record (j + 1) (if last then length_st + 8 else length_st) b ss in
    let stop : Scan = record { slots = s ∷ ss; length_st = length_st; buffer = b; found = false } in
    if not (ltb j length_st)
    then stop
    else if is_dummy s
    then record { slots = made ∷ ss; length_st = length_st; buffer = made; found = true }
    else if last && ltb max_stash_num (length_st + 8)
    then stop
    else keep s rest

-- The result of a method on the sketch, with the buffer and the returned value.
pub record Read : Type 0 where
  pub sketch : Sketch
  pub buffer : Block
  pub found : Bool

abbrev with_scan : ℕ → ℕ → ℕ → Sketch → Scan → Read
with_scan bid pos added sk r = record {
  sketch = record sk {
    pos_map = set sk.pos_map bid pos;
    stash = record { slots = r.slots; length_st = r.length_st };
    global_added = added;
  };
  buffer = r.buffer;
  found = r.found;
}

abbrev pub finish_miss : ℕ → ℕ → Sketch → Scan → Read
finish_miss bid pos sk more =
    with_scan bid pos (if more.found then sk.global_added + 1 else sk.global_added) sk more

-- `if(!found)` and what follows it.
abbrev pub finish_read : ℕ → ℕ → Sketch → Scan → Read
finish_read bid pos sk r =
    if r.found
    then with_scan bid pos sk.global_added sk r
    else finish_miss bid pos sk (add_slots bid pos sk.n_record 0 r.length_st r.buffer r.slots)

unfoldable pub read_from_stash : ℕ → ℕ → Block → Sketch → Read
unfolding read_slots add_slots memset_zero
read_from_stash bid pos b sk =
    finish_read bid pos sk
      (read_slots bid pos sk.stash.length_st sk.stash.length_st b sk.stash.slots)

unfoldable pub o_read_from_stash : ℕ → ℕ → Block → Sketch → Read
unfolding o_read_slots add_slots memset_zero
o_read_from_stash bid pos b sk =
    finish_read bid pos sk
      (o_read_slots bid pos false sk.stash.length_st sk.stash.length_st b sk.stash.slots)

unfoldable pub o_read_from_stash_s : ℕ → ℕ → Block → Sketch → Read
unfolding branch_read_slots add_slots memset_zero
o_read_from_stash_s bid pos b sk =
    finish_read bid pos sk
      (branch_read_slots bid pos false sk.stash.length_st sk.stash.length_st b sk.stash.slots)

unfoldable pub o_read_from_stash_f : ℕ → ℕ → Block → Sketch → Read
unfolding branch_read_slots add_slots memset_zero
o_read_from_stash_f bid pos b sk =
    finish_read bid pos sk
      (branch_read_slots bid pos false sk.stash.length_st sk.stash.length_st b sk.stash.slots)
