-- ===== src/Oram/Compact/Loop.antt =====
-- The loop of `compressStash`, a round at a time: what lies between the blocks that it moved and those
-- that it has not read yet are dummies.
use mathlib.Core.List.{append-nil, append_assoc}
use fosketch.Prelude.{
  ℕ, zero, suc, ◌+◌, ◌≤◌, ◌≡◌, refl, sym, ap, ◌∙◌, inl, inr, true, false, List, [], ◌∷◌, ◌++◌,
  arith, Bool-cases, length, length-append, get_or-append, set-append, get_or, set, take, drop,
  ◌==◌, if◌then◌else◌,
}
use fosketch.Prelude.Loops.{for_range}
use fosketch.Oram.Block.{Block, is_dummy, erase_bid, reals, reals-append, reals-dummy}
use fosketch.Oram.Compact.{Packing, pack_slot}

-- The loop's state at `cur_pos`: the blocks moved so far, then dummies, then what is still to be read.
pub record Packed (cur_pos : ℕ) (done gap rest : List Block) (p : Packing) : Type 0 where
  pub split : p.slots ≡ done ++ (gap ++ rest)
  pub ins : p.ins_pos ≡ length done
  pub place : cur_pos ≡ length done + length gap
  pub free : reals gap ≡ []

Packed-read :
    (cur_pos : ℕ) (done gap rest : List Block) (s d : Block) (p : Packing)
    → Packed cur_pos done gap (s ∷ rest) p
    → get_or p.slots cur_pos d ≡ s
Packed-read cur_pos done gap rest s d p h =
    rw (h.split, h.place)
      (get_or-append done (gap ++ s ∷ rest) (length gap) d
        ∙ (ap (λ i. get_or (gap ++ s ∷ rest) i d) (omega arith) ∙ get_or-append gap (s ∷ rest) 0 d))

-- The two writes of a move.
set-move :
    (done gap rest : List Block) (g s e : Block)
    → set (set (done ++ (g ∷ gap ++ s ∷ rest)) (length done) s) (length done + suc (length gap)) e
      ≡ done ++ (s ∷ gap ++ e ∷ rest)
set-move done gap rest g s e =
    let at_zero : length done + 0 ≡ length done = omega arith in
    let first : set (done ++ (g ∷ gap ++ s ∷ rest)) (length done) s
        ≡ done ++ (s ∷ gap ++ s ∷ rest) =
      rw (← at_zero) (set-append done (g ∷ gap ++ s ∷ rest) 0 s) in
    let gap_zero : length gap + 0 ≡ length gap = omega arith in
    let second : set (gap ++ s ∷ rest) (length gap) e ≡ gap ++ e ∷ rest =
      rw (← gap_zero) (set-append gap (s ∷ rest) 0 e) in
    rw first (
      set-append done (s ∷ gap ++ s ∷ rest) (suc (length gap)) e ∙ ap (λ l. done ++ (s ∷ l)) second)

abbrev pub Advanced : (cur_pos : ℕ) (done rest : List Block) (p : Packing) → Type 0
Advanced cur_pos done rest p = (gap : List Block) × Packed cur_pos done gap rest p

-- A dummy: nothing moves.
pack_slot-dummy :
    (cur_pos : ℕ) (done gap rest : List Block) (s : Block) (p : Packing)
    → is_dummy s ≡ true
    → Packed cur_pos done gap (s ∷ rest) p
    → pack_slot cur_pos p ≡ p
unfolding pack_slot
pack_slot-dummy cur_pos done gap rest s p d h =
    rw (Packed-read cur_pos done gap rest s _ p h, d) refl

-- A block: it goes where `insPos` points, unless it is there.
pack_slot-real :
    (cur_pos : ℕ) (done gap rest : List Block) (s : Block) (p : Packing)
    → is_dummy s ≡ false
    → Packed cur_pos done gap (s ∷ rest) p
    → let moved = set (set p.slots p.ins_pos s) cur_pos (erase_bid s) in
      pack_slot cur_pos p
      ≡ record { slots = if cur_pos == p.ins_pos then p.slots else moved; ins_pos = p.ins_pos + 1 }
unfolding pack_slot
pack_slot-real cur_pos done gap rest s p r h =
    rw (Packed-read cur_pos done gap rest s _ p h, r) refl

skip-Packed :
    (cur_pos : ℕ) (done gap rest : List Block) (s : Block) (p : Packing)
    → is_dummy s ≡ true
    → Packed cur_pos done gap (s ∷ rest) p
    → Advanced (cur_pos + 1) done rest (pack_slot cur_pos p)
unfolding reals
skip-Packed cur_pos done gap rest s p d h = rw (pack_slot-dummy cur_pos done gap rest s p d h) (
  gap ++ s ∷ [],
  record {
    split = h.split ∙ ap (◌++◌ done) (sym (append_assoc gap (s ∷ []) rest));
    ins = h.ins;
    place = omega (arith, h.place, length-append gap (s ∷ []));
    free = reals-append gap (s ∷ []) ∙ rw (h.free, reals-dummy s [] d) refl;
  },
)

move-Packed :
    (cur_pos : ℕ) (done gap rest : List Block) (s : Block) (p : Packing)
    → is_dummy s ≡ false
    → Packed cur_pos done gap (s ∷ rest) p
    → Advanced (cur_pos + 1) (done ++ s ∷ []) rest (pack_slot cur_pos p)
unfolding reals
move-Packed cur_pos done [] rest s p r h =
    let same : (cur_pos == p.ins_pos) ≡ true = ground (arith, h.place, h.ins) in
    rw (pack_slot-real cur_pos done [] rest s p r h, same)
      (
        [],
        record {
          split = h.split ∙ sym (append_assoc done (s ∷ []) rest);
          ins = omega (arith, h.ins, length-append done (s ∷ []));
          place = omega (arith, h.place, length-append done (s ∷ []));
          free = refl;
        },
      )
move-Packed cur_pos done (g ∷ gap) rest s p r h =
    let apart : (cur_pos == p.ins_pos) ≡ false = ground (arith, h.place, h.ins) in
    let gap' = gap ++ erase_bid s ∷ [] in
    let no_real : reals gap ≡ [] = ground (arith, h.free) in
    let moved_eq : set (set p.slots p.ins_pos s) cur_pos (erase_bid s)
        ≡ (done ++ s ∷ []) ++ (gap' ++ rest) =
      rw (h.split, h.ins, h.place)
        (set-move done gap rest g s (erase_bid s)
          ∙ (ap (λ l. done ++ (s ∷ l)) (sym (append_assoc gap (erase_bid s ∷ []) rest))
              ∙ sym (append_assoc done (s ∷ []) (gap' ++ rest)))) in
    rw (pack_slot-real cur_pos done (g ∷ gap) rest s p r h, apart)
      (
        gap ++ erase_bid s ∷ [],
        record {
          split = moved_eq;
          ins = omega (arith, h.ins, length-append done (s ∷ []));
          place =
              omega
                (arith, h.place, length-append done (s ∷ []), length-append gap (erase_bid s ∷ []));
          free = reals-append gap (erase_bid s ∷ []) ∙ rw no_real refl;
        },
      )

-- The whole loop.
pub for_range-Packed :
    (rounds cur_pos : ℕ) (done gap rest : List Block) (p : Packing)
    → Packed cur_pos done gap rest p
    → rounds ≤ length rest
    → Advanced
        (cur_pos + rounds)
        (done ++ reals (take rounds rest))
        (drop rounds rest)
        (for_range rounds cur_pos pack_slot p)
unfolding for_range reals
for_range-Packed zero cur_pos done gap rest p h le =
    let stay : cur_pos + 0 ≡ cur_pos = omega arith in rw (append-nil done, stay) (gap, h)
for_range-Packed (suc rounds) cur_pos done gap [] p h le = absurd (omega arith)
for_range-Packed (suc rounds) cur_pos done gap (s ∷ rest) p h le =
    let next : cur_pos + suc rounds ≡ cur_pos + 1 + rounds = omega arith in
    elim (Bool-cases (is_dummy s)) [
      | inl d ↦
          let a = skip-Packed cur_pos done gap rest s p d h in
          let ih =
            for_range-Packed rounds (cur_pos + 1) done a.0 rest (pack_slot cur_pos p) a.1
              (omega (arith, le)) in
          rw (next, d) ih
      | inr r ↦
          let a = move-Packed cur_pos done gap rest s p r h in
          let ih =
            for_range-Packed rounds (cur_pos + 1) (done ++ s ∷ []) a.0 rest (pack_slot cur_pos p)
              a.1 (omega (arith, le)) in
          rw (next, r, ← append_assoc done (s ∷ []) (reals (take rounds rest))) ih
    ]
