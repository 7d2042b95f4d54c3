-- ===== src/Oram/Stash.antt =====
-- The stash: an array of `MAX_STASH_NUM` slots of which the first `length_st` are searched, and the
-- methods that move a path into it: `writeToStash`, `OWriteToStash` and its variants `_S` and `_F`.
pub mod Write
pub mod Places
pub mod Path
use fosketch.Prelude.{
  ℕ, zero, suc, ◌+◌, ◌-◌, Bool, true, false, not, ◌&&◌, ◌||◌, List, [], ◌∷◌, ◌++◌, ltb, ◌==◌,
  if◌then◌else◌, replicate,
}
use fosketch.Sorter.Exchange.{o_move}
use fosketch.Oram.Block.{Block, is_dummy, is_real, erase_bid}

pub record Stash : Type 0 where
  pub slots : List Block
  pub length_st : ℕ

abbrev pub max_stash_num : ℕ
max_stash_num = 105

abbrev pub default_stash_length : ℕ
default_stash_length = 5

-- `PACE_STASH`.
abbrev pub pace_stash : ℕ
pace_stash = 5

-- What `Init_OCU` sets up: every slot a dummy. `b` is the memory before, of which only the id is written.
unfoldable pub init_stash : Block → Stash
init_stash b = record {
  slots = replicate max_stash_num (erase_bid b);
  length_st = default_stash_length;
}

-- The inner loop of the oblivious methods over `j`, with the slots from `j` on. It looks at every
-- slot up to `length_st`, which it may raise by `pace` on the way. Past `MAX_STASH_NUM` it takes 8
-- off again and leaves the loop.
pub o_write_slots : (pace : ℕ) (p : Block) (found : Bool) (j length_st : ℕ) → List Block → Stash
o_write_slots pace p found j length_st [] = record { slots = []; length_st = length_st }
o_write_slots pace p found j length_st (s ∷ ss) =
    let cond = is_dummy s && is_real p in
    let s' = o_move p s (cond && not found) in
    let full = (j == length_st - 1) && (not found && (is_real s && is_real p)) in
    let rest =
      o_write_slots pace p (found || cond) (j + 1) (if full then length_st + pace else length_st)
        ss in
    if not (ltb j length_st)
    then record { slots = s ∷ ss; length_st = length_st }
    else if full && ltb max_stash_num (length_st + pace)
    then record { slots = s' ∷ ss; length_st = length_st + pace - 8 }
    else record { slots = s' ∷ rest.slots; length_st = rest.length_st }

-- The outer loop over the blocks of the path.
pub o_write_path : ℕ → List Block → Stash → Stash
o_write_path pace [] st = st
o_write_path pace (p ∷ ps) st =
    o_write_path pace ps (o_write_slots pace p false 0 st.length_st st.slots)

unfoldable pub o_write_to_stash : List Block → Stash → Stash
unfolding o_write_path o_write_slots
o_write_to_stash = o_write_path pace_stash

-- These two branch where `OWriteToStash` moves, and grow by 8. The copies to a local `dummyBlock`
-- leave no trace.
unfoldable pub o_write_to_stash_s : List Block → Stash → Stash
unfolding o_write_path o_write_slots
o_write_to_stash_s = o_write_path 8

unfoldable pub o_write_to_stash_f : List Block → Stash → Stash
unfolding o_write_path o_write_slots
o_write_to_stash_f = o_write_path 8

-- What the `while` of `writeToStash` leaves: the slots from `pos_st` on that it passed or filled, and
-- those that it did not come to.
pub record Cursor : Type 0 where
  pub passed : List Block
  pub left : List Block
  pub pos_st : ℕ
  pub length_st : ℕ

-- The `while` for one real block: `pos_st` only moves forward.
pub write_slots : (p : Block) (pos_st length_st : ℕ) → List Block → Cursor
write_slots p pos_st length_st [] = record {
  passed = [];
  left = [];
  pos_st = pos_st;
  length_st = length_st;
}
write_slots p pos_st length_st (s ∷ ss) =
    let last = pos_st == length_st - 1 in
    let rest = write_slots p (pos_st + 1) (if last then length_st + 8 else length_st) ss in
    if not (ltb pos_st length_st)
    then record { passed = []; left = s ∷ ss; pos_st = pos_st; length_st = length_st }
    else if is_dummy s
    then record { passed = p ∷ []; left = ss; pos_st = pos_st + 1; length_st = length_st }
    else if last && ltb max_stash_num (length_st + 8)
    then record { passed = []; left = s ∷ ss; pos_st = pos_st; length_st = length_st }
    else record {
      passed = s ∷ rest.passed;
      left = rest.left;
      pos_st = rest.pos_st;
      length_st = rest.length_st;
    }

pub write_path : List Block → (pos_st length_st : ℕ) → List Block → Stash
write_path [] pos_st length_st slots = record { slots = slots; length_st = length_st }
write_path (p ∷ ps) pos_st length_st slots =
    let now = write_slots p pos_st length_st slots in
    let skip = write_path ps pos_st length_st slots in
    let rest = write_path ps now.pos_st now.length_st now.left in
    if is_dummy p
    then skip
    else record { slots = now.passed ++ rest.slots; length_st = rest.length_st }

unfoldable pub write_to_stash : List Block → Stash → Stash
unfolding write_path write_slots
write_to_stash path st = write_path path 0 st.length_st st.slots
