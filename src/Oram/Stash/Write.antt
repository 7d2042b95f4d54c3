-- ===== src/Oram/Stash/Write.antt =====
-- The scan of `OWriteToStash` for one block of the path: the first dummy's place is taken.
use fosketch.Prelude.{
  ℕ, zero, suc, ◌+◌, ◌-◌, ◌≤◌, ◌<◌, ◌≡◌, refl, ap, ◌∙◌, ◌⊎◌, inl, inr, Bool, true, false, ◌&&◌,
  ◌||◌, List, [], ◌∷◌, arith, length, if◌then◌else◌, Bool-cases, ◌==◌,
}
use fosketch.Oram.Block.{Block, is_dummy, is_real}
use fosketch.Oram.Stash.{Stash, max_stash_num, o_write_slots}

abbrev pub stash : List Block → ℕ → Stash
stash ss n = record { slots = ss; length_st = n }

-- What one block does to the slots: it takes the first dummy's place.
unfoldable pub insert_first : Block → List Block → List Block
insert_first p [] = []
insert_first p (s ∷ ss) = if is_dummy s then p ∷ ss else s ∷ insert_first p ss

-- Is there a dummy among the first `n` slots?
unfoldable pub any_dummy : ℕ → List Block → Bool
any_dummy zero ss = false
any_dummy (suc n) [] = false
any_dummy (suc n) (s ∷ ss) = is_dummy s || any_dummy n ss

-- Slots at and beyond `length_st` are dummies; the list starts at slot `j`.
abbrev pub DummyFrom : ℕ → ℕ → List Block → Type 0
DummyFrom length_st j [] = Unit {0}
DummyFrom length_st j (s ∷ ss) =
    (length_st ≤ j → is_dummy s ≡ true) × DummyFrom length_st (j + 1) ss

pub DummyFrom-mono : (m n j : ℕ) (ss : List Block) → m ≤ n → DummyFrom m j ss → DummyFrom n j ss
DummyFrom-mono m n j [] le d = tt
DummyFrom-mono m n j (s ∷ ss) le d =
    ((λ h. d.0 (omega arith)), DummyFrom-mono m n (j + 1) ss le d.1)

-- Once the block is placed, the scan changes nothing.
o_write_found :
    (pace : ℕ) (p : Block) (j n : ℕ) (ss : List Block)
    → o_write_slots pace p true j n ss ≡ stash ss n
unfolding o_write_slots
o_write_found pace p j n [] = refl
o_write_found pace p j n (s ∷ ss) = ground (arith, o_write_found pace p (j + 1) n ss)

-- A dummy of the path changes nothing.
pub o_write_dummy :
    (pace : ℕ) (p : Block) (found : Bool) (j n : ℕ) (ss : List Block)
    → is_dummy p ≡ true
    → o_write_slots pace p found j n ss ≡ stash ss n
unfolding o_write_slots
o_write_dummy pace p found j n [] d = refl
o_write_dummy pace p found j n (s ∷ ss) d =
    ground (arith, o_write_dummy pace p (found || (is_dummy s && is_real p)) (j + 1) n ss d)

abbrev keep_slot : Block → Stash → Stash
keep_slot s st = stash (s ∷ st.slots) st.length_st

-- A taken slot below `length_st` is passed.
o_write_taken :
    (pace : ℕ) (p s : Block) (j n n' : ℕ) (ss : List Block)
    → is_dummy p ≡ false
    → is_dummy s ≡ false
    → j < n
    → n' ≡ (if j == n - 1 then n + pace else n)
    → n' ≤ max_stash_num
    → o_write_slots pace p false j n (s ∷ ss)
      ≡ keep_slot s (o_write_slots pace p false (j + 1) n' ss)
unfolding o_write_slots
o_write_taken pace p s j n n' ss real taken lt e le = ground arith

o_write_free :
    (pace : ℕ) (p s : Block) (j n k : ℕ) (ss : List Block)
    → is_dummy p ≡ false
    → is_dummy s ≡ true
    → n ≡ j + suc k
    → o_write_slots pace p false j n (s ∷ ss)
      ≡ stash (insert_first p (s ∷ ss)) (if any_dummy (suc k) (s ∷ ss) then n else n + pace)
unfolding o_write_slots insert_first any_dummy
o_write_free pace p s j n k ss real free e = ground (arith, o_write_found pace p (j + 1) n ss)

pub insert_first-free :
    (p s : Block) (ss : List Block) → is_dummy s ≡ true → insert_first p (s ∷ ss) ≡ p ∷ ss
unfolding insert_first
insert_first-free p s ss free = rw free refl

pub insert_first-taken :
    (p s : Block) (ss : List Block)
    → is_dummy s ≡ false
    → insert_first p (s ∷ ss) ≡ s ∷ insert_first p ss
unfolding insert_first
insert_first-taken p s ss taken = rw taken refl

pub any_dummy-taken :
    (n : ℕ) (s : Block) (ss : List Block)
    → is_dummy s ≡ false
    → any_dummy (suc n) (s ∷ ss) ≡ any_dummy n ss
unfolding any_dummy
any_dummy-taken n s ss taken = rw taken refl

any_dummy-zero : (ss : List Block) → any_dummy 0 ss ≡ false
unfolding any_dummy
any_dummy-zero ss = refl

-- Just beyond `length_st` stands a dummy.
any_dummy-beyond :
    (j k : ℕ) (ss : List Block) → 0 < length ss → DummyFrom j j ss → any_dummy (suc k) ss ≡ true
unfolding any_dummy
any_dummy-beyond j k [] h d = absurd (omega arith)
any_dummy-beyond j k (s ∷ ss) h d = let e = d.0 (omega arith) in rw e refl

-- A real block takes the first dummy's place; the searched length grows only if there is none below it.
pub o_write_insert :
    (pace : ℕ) (p : Block) (j n k : ℕ) (ss : List Block)
    → is_dummy p ≡ false
    → 0 < pace
    → n ≡ j + suc k
    → n ≤ max_stash_num
    → j + length ss ≡ max_stash_num
    → DummyFrom n j ss
    → (any_dummy (suc k) ss ≡ true) ⊎ (n + pace ≤ max_stash_num)
    → o_write_slots pace p false j n ss
      ≡ stash (insert_first p ss) (if any_dummy (suc k) ss then n else n + pace)
o_write_insert pace p j n k [] real pos e le full d room = absurd (omega arith)
o_write_insert pace p j n zero (s ∷ ss) real pos e le full d room = elim (Bool-cases (is_dummy s)) [
  | inl free ↦ o_write_free pace p s j n 0 ss real free e
  | inr taken ↦
      let none_yet : any_dummy 1 (s ∷ ss) ≡ false =
        any_dummy-taken 0 s ss taken ∙ any_dummy-zero ss in
      let fits : n + pace ≤ max_stash_num = ground (arith, room, none_yet) in
      let d' : DummyFrom (j + 1) (j + 1) ss =
        DummyFrom-mono n (j + 1) (j + 1) ss (omega arith) d.1 in
      let next = any_dummy-beyond (j + 1) (pace - 1) ss (omega arith) d' in
      let ih =
        o_write_insert pace p (j + 1) (n + pace) (pace - 1) ss real pos (omega arith) fits
          (omega arith) (DummyFrom-mono n (n + pace) (j + 1) ss (omega arith) d.1) (inl next) in
      let step =
        o_write_taken pace p s j n (n + pace) ss real taken (omega arith) (ground arith) fits in
      rw (none_yet, insert_first-taken p s ss taken) (step ∙ ap (keep_slot s) (ih ∙ rw next refl))
]
o_write_insert pace p j n (suc k) (s ∷ ss) real pos e le full d room =
    elim (Bool-cases (is_dummy s)) [
      | inl free ↦ o_write_free pace p s j n (suc k) ss real free e
      | inr taken ↦
          let same = any_dummy-taken (suc k) s ss taken in
          let room' : (any_dummy (suc k) ss ≡ true) ⊎ (n + pace ≤ max_stash_num) =
            rw (← same) room in
          let ih =
            o_write_insert pace p (j + 1) n k ss real pos (omega arith) le (omega arith) d.1
              room' in
          let step = o_write_taken pace p s j n n ss real taken (omega arith) (ground arith) le in
          rw (same, insert_first-taken p s ss taken) (step ∙ ap (keep_slot s) ih)
    ]
