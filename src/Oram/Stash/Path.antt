-- ===== src/Oram/Stash/Path.antt =====
-- Moving a path into the stash: nothing is lost while there is room.
use mathlib.Core.List.Perm
use mathlib.Core.List.{perm_middle}
use fosketch.Prelude.{
  ℕ, zero, suc, ◌+◌, ◌-◌, ◌≤◌, ◌<◌, ◌≡◌, refl, sym, ap, ◌∙◌, inl, inr, true, false, List, [], ◌∷◌,
  ◌++◌, Perm, arith, length, length-perm, if◌then◌else◌, Bool-cases,
}
use fosketch.Oram.Block.{Block, is_dummy, reals, reals-dummy, reals-real}
use fosketch.Oram.Stash.{
  Stash, max_stash_num, o_write_slots, o_write_path, o_write_to_stash, o_write_to_stash_s,
  o_write_to_stash_f, pace_stash,
}
use fosketch.Oram.Stash.Places.{
  IsStash, length-insert_first, full_reals, any_dummy-at, DummyFrom-insert, reals-insert_first,
}
use fosketch.Oram.Stash.Write.{
  stash, insert_first, any_dummy, DummyFrom-mono, o_write_dummy, o_write_insert,
}

-- The block is in, and the searched length `n'` covers its place.
inserted :
    (p : Block) (st : Stash) (n' : ℕ)
    → is_dummy p ≡ false
    → IsStash st
    → st.length_st ≤ n'
    → n' ≤ max_stash_num
    → any_dummy n' st.slots ≡ true
    → IsStash (stash (insert_first p st.slots) n')
      × Perm (reals (insert_first p st.slots)) (p ∷ reals st.slots)
inserted p st n' real ok le fits h =
    let whole = length-insert_first p st.slots in
    let beyond = DummyFrom-mono st.length_st n' 0 st.slots le ok.beyond in
    (
      record {
        whole = whole ∙ ok.whole;
        searched = omega arith;
        inside = fits;
        beyond = DummyFrom-insert p n' 0 n' st.slots (omega arith) h beyond;
      },
      reals-insert_first p n' st.slots real h,
    )

-- One block of the path, with the place that it takes.
o_write_block :
    (pace : ℕ) (p : Block) (st : Stash)
    → is_dummy p ≡ false
    → 0 < pace
    → IsStash st
    → length (reals st.slots) + pace ≤ max_stash_num
    → (n' : ℕ) × (o_write_slots pace p false 0 st.length_st st.slots
        ≡ stash (insert_first p st.slots) n')
      × (st.length_st ≤ n')
      × (n' ≤ max_stash_num)
      × (any_dummy n' st.slots ≡ true)
o_write_block pace p st real pos ok room =
    let n = st.length_st in
    let k : n ≡ suc (n - 1) = omega arith in
    let k0 : n ≡ 0 + suc (n - 1) = omega arith in
    let full : 0 + length st.slots ≡ max_stash_num = omega (arith, ok.whole) in
    let step = o_write_insert pace p 0 n (n - 1) st.slots real pos k0 ok.inside full ok.beyond in
    elim (Bool-cases (any_dummy n st.slots)) [
      | inl some_free ↦
          let free' : any_dummy (suc (n - 1)) st.slots ≡ true = rw (← k) some_free in
          (n, step (inl free') ∙ rw free' refl, omega arith, ok.inside, some_free)
      | inr none_free ↦
          let none' : any_dummy (suc (n - 1)) st.slots ≡ false = rw (← k) none_free in
          let many = full_reals n st.slots (omega (arith, ok.inside, ok.whole)) none_free in
          let fits : n + pace ≤ max_stash_num = omega arith in
          (
            n + pace,
            step (inr fits) ∙ rw none' refl,
            omega arith,
            fits,
            any_dummy-at n (n + pace) 0 st.slots ok.beyond (omega arith)
                (omega (arith, ok.inside, ok.whole)) (omega arith),
          )
    ]

-- All blocks of a path, one after the other.
unfoldable pub insert_path : List Block → List Block → List Block
insert_path [] ss = ss
insert_path (p ∷ ps) ss =
    if is_dummy p then insert_path ps ss else insert_path ps (insert_first p ss)

pub record Written (pace : ℕ) (path : List Block) (st : Stash) : Type 0 where
  pub places : (o_write_path pace path st).slots ≡ insert_path path st.slots
  pub ok : IsStash (o_write_path pace path st)
  pub conserved : Perm (reals (o_write_path pace path st).slots) (reals path ++ reals st.slots)

-- One step of the outer loop.
path_step :
    (pace : ℕ) (p : Block) (ps : List Block) (st st' : Stash)
    → o_write_slots pace p false 0 st.length_st st.slots ≡ st'
    → o_write_path pace (p ∷ ps) st ≡ o_write_path pace ps st'
unfolding o_write_path
path_step pace p ps st st' e = ap (o_write_path pace ps) e

path_nil : (pace : ℕ) (st : Stash) → o_write_path pace [] st ≡ st
unfolding o_write_path
path_nil pace st = refl

insert_path-dummy :
    (p : Block) (ps ss : List Block)
    → is_dummy p ≡ true
    → insert_path (p ∷ ps) ss ≡ insert_path ps ss
unfolding insert_path
insert_path-dummy p ps ss d = rw d refl

insert_path-real :
    (p : Block) (ps ss : List Block)
    → is_dummy p ≡ false
    → insert_path (p ∷ ps) ss ≡ insert_path ps (insert_first p ss)
unfolding insert_path
insert_path-real p ps ss d = rw d refl

Written-dummy :
    (pace : ℕ) (p : Block) (ps : List Block) (st : Stash)
    → is_dummy p ≡ true
    → Written pace ps st
    → Written pace (p ∷ ps) st
Written-dummy pace p ps st d w =
    let same = path_step pace p ps st st (o_write_dummy pace p false 0 st.length_st st.slots d) in
    record {
      places = rw (same, insert_path-dummy p ps st.slots d) w.places;
      ok = rw same w.ok;
      conserved = rw (same, reals-dummy p ps d) w.conserved;
    }

Written-real :
    (pace n' : ℕ) (p : Block) (ps : List Block) (st : Stash)
    → is_dummy p ≡ false
    → o_write_slots pace p false 0 st.length_st st.slots ≡ stash (insert_first p st.slots) n'
    → Perm (reals (insert_first p st.slots)) (p ∷ reals st.slots)
    → Written pace ps (stash (insert_first p st.slots) n')
    → Written pace (p ∷ ps) st
Written-real pace n' p ps st real step one w =
    let next = path_step pace p ps st (stash (insert_first p st.slots) n') step in
    record {
      places = rw (next, insert_path-real p ps st.slots real) w.places;
      ok = rw next w.ok;
      conserved =
          rw (next, reals-real p ps real)
            (Perm.trans w.conserved (
              Perm.trans (Perm.append (Perm.refl (reals ps)) one)
                (perm_middle (reals ps) (reals st.slots))));
    }

write_path-Written :
    (pace : ℕ) (path : List Block) (st : Stash)
    → 0 < pace
    → IsStash st
    → length (reals path) + length (reals st.slots) + pace ≤ max_stash_num
    → Written pace path st
unfolding insert_path o_write_path reals
write_path-Written pace [] st pos ok room = record {
  places = refl;
  ok = ok;
  conserved = Perm.refl _;
}
write_path-Written pace (p ∷ ps) st pos ok room = elim (Bool-cases (is_dummy p)) [
  | inl d ↦
      let fewer = ap length (reals-dummy p ps d) in
      Written-dummy pace p ps st d (write_path-Written pace ps st pos ok (omega (arith, fewer)))
  | inr d ↦
      let more = ap length (reals-real p ps d) in
      let b = o_write_block pace p st d pos ok (omega (arith, more)) in
      let i = inserted p st b.0 d ok b.2 b.3 b.4 in
      let count = length-perm i.1 in
      let rest =
        write_path-Written pace ps (stash (insert_first p st.slots) b.0) pos i.0
          (omega (arith, more, count)) in
      Written-real pace b.0 p ps st d b.1 i.1 rest
]

-- A path that fits is moved in whole: the array stays well formed, and its real blocks are then those
-- of the path and those that were there, if together they stay at least five below MAX_STASH_NUM.
pub o_write_to_stash_keeps :
    (path : List Block) (st : Stash)
    → IsStash st
    → length (reals path) + length (reals st.slots) + pace_stash ≤ max_stash_num
    → let st' = o_write_to_stash path st in
      IsStash st' × Perm (reals st'.slots) (reals path ++ reals st.slots)
unfolding o_write_to_stash
o_write_to_stash_keeps path st ok room =
    let w = write_path-Written pace_stash path st (omega arith) ok room in (w.ok, w.conserved)

pub o_write_to_stash_places :
    (path : List Block) (st : Stash)
    → IsStash st
    → length (reals path) + length (reals st.slots) + pace_stash ≤ max_stash_num
    → (o_write_to_stash path st).slots ≡ insert_path path st.slots
unfolding o_write_to_stash
o_write_to_stash_places path st ok room =
    (write_path-Written pace_stash path st (omega arith) ok room).places

-- With room for growth by 8, `OWriteToStash` and its variants `_S` and `_F`, which grow by 8, leave
-- the same blocks in the same slots.
pub o_write_to_stash_variants :
    (path : List Block) (st : Stash)
    → IsStash st
    → length (reals path) + length (reals st.slots) + 8 ≤ max_stash_num
    → ((o_write_to_stash path st).slots ≡ (o_write_to_stash_s path st).slots)
      × ((o_write_to_stash path st).slots ≡ (o_write_to_stash_f path st).slots)
unfolding o_write_to_stash o_write_to_stash_s o_write_to_stash_f
o_write_to_stash_variants path st ok room =
    let five = write_path-Written pace_stash path st (omega arith) ok (omega arith) in
    let eight = write_path-Written 8 path st (omega arith) ok room in
    let same = five.places ∙ sym eight.places in (same, same)

overflow_slots :
    (p : Block) (j n k : ℕ) (ss : List Block)
    → is_dummy p ≡ false
    → n ≡ j + suc k
    → suc k ≤ length ss
    → max_stash_num < n + pace_stash
    → any_dummy (suc k) ss ≡ false
    → o_write_slots pace_stash p false j n ss ≡ stash ss (n + pace_stash - 8)
unfolding o_write_slots any_dummy
overflow_slots p j n k [] real e le over none = absurd (omega arith)
overflow_slots p j n zero (s ∷ ss) real e le over none = ground arith
overflow_slots p j n (suc k) (s ∷ ss) real e le over none =
    ground (arith, overflow_slots p (j + 1) n k ss)

-- When the searched slots are all taken and five more would pass MAX_STASH_NUM, a real block is
-- dropped: the slots stay, and the searched length goes down by three.
pub o_write_to_stash_overflow :
    (p : Block) (st : Stash)
    → is_dummy p ≡ false
    → IsStash st
    → max_stash_num < st.length_st + pace_stash
    → any_dummy st.length_st st.slots ≡ false
    → ((o_write_to_stash (p ∷ []) st).slots ≡ st.slots)
      × ((o_write_to_stash (p ∷ []) st).length_st + 3 ≡ st.length_st)
unfolding o_write_to_stash
o_write_to_stash_overflow p st real ok over none =
    let n = st.length_st in
    let k : n ≡ suc (n - 1) = omega (arith, ok.searched) in
    let none' : any_dummy (suc (n - 1)) st.slots ≡ false = rw (← k) none in
    let step =
      overflow_slots p 0 n (n - 1) st.slots real (omega (arith, ok.searched))
        (omega (arith, ok.searched, ok.inside, ok.whole)) over none' in
    let run = path_step pace_stash p [] st _ step ∙ path_nil pace_stash _ in
    rw run (refl, omega arith)
