-- ===== src/Oram/Read/Lookup.antt =====
-- The scans of `readFromStash` and of its oblivious variants find the same block.
use fosketch.Prelude.{
  ℕ, zero, suc, ◌+◌, ◌-◌, ◌<◌, ◌≡◌, ◌≢◌, refl, sym, ap, ◌∙◌, Bool, true, false, List, [], ◌∷◌,
  arith, ◌==◌, get_elem?, some, set, ==_iff, lt→ltb,
}
use fosketch.Oram.Block.{Block, is_dummy}
use fosketch.Oram.Sketch.{Sketch}
use fosketch.Oram.Read.{
  read_slots, o_read_slots, branch_read_slots, add_slots, memset_zero, keep, finish_read,
  finish_miss, read_from_stash, o_read_from_stash, o_read_from_stash_s, o_read_from_stash_f,
}

-- No block has the id among the first `n` slots.
abbrev pub Absent : (bid n : ℕ) → List Block → Type 0
Absent bid zero ss = Unit {0}
Absent bid (suc n) [] = Unit {0}
Absent bid (suc n) (s ∷ ss) = (s.bid ≢ bid) × Absent bid n ss

-- Every one of the first `n` slots is taken.
abbrev pub AllTaken : (n : ℕ) → List Block → Type 0
AllTaken zero ss = Unit {0}
AllTaken (suc n) [] = Unit {0}
AllTaken (suc n) (s ∷ ss) = (is_dummy s ≡ false) × AllTaken n ss

o_read_slots-branch :
    (bid pos : ℕ) (found : Bool) (n len : ℕ) (b : Block) (ss : List Block)
    → o_read_slots bid pos found n len b ss ≡ branch_read_slots bid pos found n len b ss
unfolding o_read_slots branch_read_slots
o_read_slots-branch bid pos found n len b [] = refl
o_read_slots-branch bid pos found zero len b (s ∷ ss) = refl
o_read_slots-branch bid pos found (suc n) len b (s ∷ ss) = ground (
  arith,
  o_read_slots-branch bid pos found n len b ss,
  o_read_slots-branch bid pos true n len b ss,
  o_read_slots-branch bid pos true n len (record s { pos = pos }) ss,
)

-- Once the block is found, the scan changes nothing.
o_read_slots-found :
    (bid pos n len : ℕ) (b : Block) (ss : List Block)
    → o_read_slots bid pos true n len b ss
      ≡ record { slots = ss; length_st = len; buffer = b; found = true }
unfolding o_read_slots
o_read_slots-found bid pos n len b [] = refl
o_read_slots-found bid pos zero len b (s ∷ ss) = refl
o_read_slots-found bid pos (suc n) len b (s ∷ ss) =
    ground (arith, o_read_slots-found bid pos n len b ss)

o_read_slots-read_slots :
    (bid pos n len : ℕ) (b : Block) (ss : List Block)
    → o_read_slots bid pos false n len b ss ≡ read_slots bid pos n len b ss
unfolding o_read_slots read_slots
o_read_slots-read_slots bid pos n len b [] = refl
o_read_slots-read_slots bid pos zero len b (s ∷ ss) = refl
o_read_slots-read_slots bid pos (suc n) len b (s ∷ ss) = ground (
  arith,
  o_read_slots-read_slots bid pos n len b ss,
  o_read_slots-found bid pos n len (record s { pos = pos }) ss,
)

-- The three oblivious methods do what `readFromStash` does: the same sketch, the same block in the
-- buffer and the same answer.
pub read_from_stash_variants :
    (bid pos : ℕ) (b : Block) (sk : Sketch)
    → (o_read_from_stash bid pos b sk ≡ read_from_stash bid pos b sk)
      × (o_read_from_stash_s bid pos b sk ≡ read_from_stash bid pos b sk)
      × (o_read_from_stash_f bid pos b sk ≡ read_from_stash bid pos b sk)
unfolding read_from_stash o_read_from_stash o_read_from_stash_s o_read_from_stash_f
read_from_stash_variants bid pos b sk =
    let n = sk.stash.length_st in
    let same = o_read_slots-read_slots bid pos n n b sk.stash.slots in
    let branch = sym (o_read_slots-branch bid pos false n n b sk.stash.slots) ∙ same in
    (
      ap (finish_read bid pos sk) same,
      ap (finish_read bid pos sk) branch,
      ap (finish_read bid pos sk) branch,
    )

read_slots-hit :
    (bid pos n len i : ℕ) (b s : Block) (ss : List Block)
    → i < n
    → get_elem? ss i ≡ some s
    → s.bid ≡ bid
    → Absent bid i ss
    → read_slots bid pos n len b ss ≡ record {
      slots = set ss i (record s { pos = pos });
      length_st = len;
      buffer = record s { pos = pos };
      found = true;
    }
unfolding read_slots
read_slots-hit bid pos n len i b s [] lt at e absent = absurd (cc)
read_slots-hit bid pos zero len i b s (x ∷ ss) lt at e absent = absurd (omega arith)
read_slots-hit bid pos (suc n) len zero b s (x ∷ ss) lt at e absent =
    let same : x ≡ s = cc in let here = (==_iff x.bid bid).1 (cc) in rw (here, same) refl
read_slots-hit bid pos (suc n) len (suc i) b s (x ∷ ss) lt at e absent =
    ground (arith, absent.0, read_slots-hit bid pos n len i b s ss (omega arith) at e absent.1)

read_slots-miss :
    (bid pos n len : ℕ) (b : Block) (ss : List Block)
    → Absent bid n ss
    → read_slots bid pos n len b ss
      ≡ record { slots = ss; length_st = len; buffer = b; found = false }
unfolding read_slots
read_slots-miss bid pos n len b [] absent = refl
read_slots-miss bid pos zero len b (x ∷ ss) absent = refl
read_slots-miss bid pos (suc n) len b (x ∷ ss) absent =
    ground (arith, absent.0, read_slots-miss bid pos n len b ss absent.1)

-- The block that stands in the place of the dummy `s`.
abbrev pub made : (bid pos n_record : ℕ) → Block → Block
made bid pos n_record s = record { bid = bid; pos = pos; payload = memset_zero n_record s.payload }

add_slots-free :
    (bid pos n_record j len i : ℕ) (b s : Block) (ss : List Block)
    → j + i < len
    → get_elem? ss i ≡ some s
    → is_dummy s ≡ true
    → AllTaken i ss
    → add_slots bid pos n_record j len b ss ≡ record {
      slots = set ss i (made bid pos n_record s);
      length_st = len;
      buffer = made bid pos n_record s;
      found = true;
    }
unfolding add_slots
add_slots-free bid pos n_record j len i b s [] lt at e taken = absurd (cc)
add_slots-free bid pos n_record j len zero b s (x ∷ ss) lt at e taken =
    let same : x ≡ s = cc in
    let free : is_dummy x ≡ true = cc in
    let in_range = lt→ltb j len (omega arith) in rw (in_range, free, same) refl
add_slots-free bid pos n_record j len (suc i) b s (x ∷ ss) lt at e taken =
    let last : (j == len - 1) ≡ false = ground arith in
    let in_range = lt→ltb j len (omega arith) in
    let ih = add_slots-free bid pos n_record (j + 1) len i b s ss (omega arith) at e taken.1 in
    rw (in_range, taken.0, last) (ap (keep x) ih)

-- A block that lies among the searched slots is found where it first stands: it goes to the buffer
-- with its new leaf, which its slot and `pos_map` take over, and nothing else changes.
pub read_from_stash_hit :
    (bid pos i : ℕ) (b s : Block) (sk : Sketch)
    → i < sk.stash.length_st
    → get_elem? sk.stash.slots i ≡ some s
    → s.bid ≡ bid
    → Absent bid i sk.stash.slots
    → read_from_stash bid pos b sk ≡ record {
      sketch = record sk {
        pos_map = set sk.pos_map bid pos;
        stash = record sk.stash { slots = set sk.stash.slots i (record s { pos = pos }) };
      };
      buffer = record s { pos = pos };
      found = true;
    }
unfolding read_from_stash
read_from_stash_hit bid pos i b s sk lt at e absent =
    let n = sk.stash.length_st in
    ap (finish_read bid pos sk) (read_slots-hit bid pos n n i b s sk.stash.slots lt at e absent)

-- A block that is nowhere among the searched slots is made in the first free one, with its first
-- `nRecord` bytes zero and the others those of the dummy before it, and `global_added` counts it.
pub read_from_stash_miss :
    (bid pos i : ℕ) (b s : Block) (sk : Sketch)
    → i < sk.stash.length_st
    → get_elem? sk.stash.slots i ≡ some s
    → is_dummy s ≡ true
    → AllTaken i sk.stash.slots
    → Absent bid sk.stash.length_st sk.stash.slots
    → read_from_stash bid pos b sk ≡ record {
      sketch = record sk {
        pos_map = set sk.pos_map bid pos;
        stash = record sk.stash { slots = set sk.stash.slots i (made bid pos sk.n_record s) };
        global_added = sk.global_added + 1;
      };
      buffer = made bid pos sk.n_record s;
      found = true;
    }
unfolding read_from_stash
read_from_stash_miss bid pos i b s sk lt at e taken absent =
    let n = sk.stash.length_st in
    let add =
      add_slots-free bid pos sk.n_record 0 n i b s sk.stash.slots (omega arith) at e taken in
    ap (finish_read bid pos sk) (read_slots-miss bid pos n n b sk.stash.slots absent)
    ∙ ap (finish_miss bid pos sk) add
