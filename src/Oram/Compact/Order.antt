-- ===== src/Oram/Compact/Order.antt =====
-- `compressStash` keeps the blocks that count and their order, and leaves no dummy between them.
use mathlib.Core.List.{append-nil}
use fosketch.Prelude.{
  ℕ, zero, suc, ◌+◌, ◌≤◌, ◌≡◌, refl, sym, ap, ◌∙◌, inl, inr, List, [], ◌∷◌, ◌++◌, arith, Bool-cases,
  length, length-append, take, drop, take-append-drop, length-drop, ltb, if◌then◌else◌, max,
}
use fosketch.Prelude.Loops.{for_range}
use fosketch.Oram.Block.{Block, is_dummy, reals, reals-append, reals-dummy, reals-real}
use fosketch.Oram.Stash.{Stash, default_stash_length}
use fosketch.Oram.Stash.Write.{DummyFrom}
use fosketch.Oram.Stash.Places.{IsStash}
use fosketch.Oram.Compact.{Packing, pack_slot, Compressed, compress_stash}
use fosketch.Oram.Compact.Loop.{Packed, for_range-Packed}

-- Behind the searched slots no block counts.
reals-drop : (n k j : ℕ) (ss : List Block) → n ≤ j + k → DummyFrom n j ss → reals (drop k ss) ≡ []
unfolding reals
reals-drop n zero j [] e d = refl
reals-drop n zero j (s ∷ ss) e d =
    reals-dummy s ss (d.0 (omega arith)) ∙ reals-drop n zero (j + 1) ss (omega arith) d.1
reals-drop n (suc k) j [] e d = refl
reals-drop n (suc k) j (s ∷ ss) e d = reals-drop n k (j + 1) ss (omega arith) d.1

reals-take : (n : ℕ) (ss : List Block) → DummyFrom n 0 ss → reals (take n ss) ≡ reals ss
reals-take n ss d =
    let none_left = reals-drop n n 0 ss (omega arith) d in
    let whole = reals-append (take n ss) (drop n ss) in
    sym (ap reals (sym (take-append-drop n ss)) ∙ (whole ∙ rw none_left (append-nil _)))

DummyFrom-free : (n j : ℕ) (ss : List Block) → reals ss ≡ [] → DummyFrom n j ss
unfolding reals
DummyFrom-free n j [] e = tt
DummyFrom-free n j (s ∷ ss) e = elim (Bool-cases (is_dummy s)) [
  | inl d ↦ ((λ le. d), DummyFrom-free n (j + 1) ss (sym (reals-dummy s ss d) ∙ e))
  | inr r ↦ let some_block : s ∷ reals ss ≡ [] = sym (reals-real s ss r) ∙ e in absurd (cc)
]

DummyFrom-behind :
    (n j : ℕ) (done tail : List Block)
    → j + length done ≤ n
    → reals tail ≡ []
    → DummyFrom n j (done ++ tail)
DummyFrom-behind n j [] tail le e = DummyFrom-free n j tail e
DummyFrom-behind n j (s ∷ done) tail le e =
    ((λ beyond. absurd (omega arith)), DummyFrom-behind n (j + 1) done tail (omega arith) e)

abbrev packing : Stash → Packing
packing st = for_range st.length_st 0 pack_slot (record { slots = st.slots; ins_pos = 0 })

abbrev searched_after : Packing → ℕ
searched_after p = if ltb p.ins_pos default_stash_length then default_stash_length else p.ins_pos

-- What the loop leaves of a well-formed stash.
record AllPacked (st : Stash) (p : Packing) : Type 0 where
  tail : List Block
  front : p.slots ≡ reals st.slots ++ tail
  free : reals tail ≡ []
  count : p.ins_pos ≡ length (reals st.slots)
  at_most : p.ins_pos ≤ st.length_st
  same_length : length p.slots ≡ length st.slots

pack_all : (st : Stash) → IsStash st → AllPacked st (packing st)
unfolding reals
pack_all st ok =
    let n = st.length_st in
    let slots = st.slots in
    let inside : n ≤ length slots = omega (arith, ok.inside, ok.whole) in
    let start : Packed 0 [] [] slots (record { slots = slots; ins_pos = 0 }) = record {
      split = refl;
      ins = refl;
      place = refl;
      free = refl;
    } in
    let a = for_range-Packed n 0 [] [] slots _ start inside in
    let counted = reals-take n slots ok.beyond in
    let gap = a.0 in
    let behind = gap ++ drop n slots in
    let all_slots = ap length (a.1).split in
    record {
      tail = behind;
      front = (a.1).split ∙ ap (λ l. l ++ behind) counted;
      free =
          reals-append gap (drop n slots)
          ∙ rw ((a.1).free, reals-drop n n 0 slots (omega arith) ok.beyond) refl;
      count = (a.1).ins ∙ ap length counted;
      at_most = omega (arith, (a.1).ins, (a.1).place);
      same_length = omega (
        arith,
        all_slots,
        length-append (reals (take n slots)) behind,
        length-append gap (drop n slots),
        length-drop n slots,
        (a.1).place,
        inside,
      );
    }

-- The blocks that count stand in front, in their order, and behind them nothing that counts.
pub record Compacted (c c' : Compressed) : Type 0 where
  pub tail : List Block
  pub front : c'.stash.slots ≡ reals c.stash.slots ++ tail
  pub free : reals tail ≡ []
  pub searched : c'.stash.length_st ≡ max default_stash_length (length (reals c.stash.slots))
  pub max_real : c'.max_real_stash ≡ max c.max_real_stash c.stash.length_st
  pub max_init : c'.max_init_stash ≡ max c.max_init_stash (length (reals c.stash.slots))

-- `compressStash` leaves a well-formed stash: the real blocks in front, in the order that they had,
-- dummies behind them, and a searched length of as many blocks as there are, but five at least. It
-- raises the two high-water marks to the length that was searched and to the number of real blocks.
-- The stash is well formed before.
pub compress_stash_keeps :
    (c : Compressed)
    → IsStash c.stash
    → IsStash (compress_stash c).stash × Compacted c (compress_stash c)
unfolding compress_stash
compress_stash_keeps c ok =
    let all = pack_all c.stash ok in
    let p = packing c.stash in
    (
      record {
        whole = all.same_length ∙ ok.whole;
        searched = ground arith;
        inside = ground (arith, all.count, all.at_most, ok.inside);
        beyond = rw (all.front) (
            DummyFrom-behind (searched_after p) 0 (reals c.stash.slots) all.tail
              (ground (arith, all.count)) all.free);
      },
      record {
        tail = all.tail;
        front = all.front;
        free = all.free;
        searched = ground (arith, all.count);
        max_real = ground arith;
        max_init = ground (arith, all.count);
      },
    )
