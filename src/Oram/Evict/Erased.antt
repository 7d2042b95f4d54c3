-- ===== src/Oram/Evict/Erased.antt =====
-- Writing back to a path only erases ids in the slots, so the stash stays well formed.
use fosketch.Prelude.{
  ℕ, zero, suc, ◌+◌, ◌-◌, ◌≡◌, refl, ap, ◌∙◌, ◌⊎◌, inl, inr, Bool, ◌&&◌, List, [], ◌∷◌, ◌++◌, arith,
  Bool-cases, length,
}
use fosketch.Oram.Block.{Block, Bucket, is_dummy, is_real, erase_bid}
use fosketch.Oram.Sketch.{Sketch}
use fosketch.Oram.Stash.Write.{DummyFrom}
use fosketch.Oram.Stash.Places.{IsStash}
use fosketch.Oram.Evict.{
  take_slot, fill_bucket, rebuild_levels, at_level, rebuild_stash, clear_path,
}
use fosketch.Oram.Evict.Compress.{IdsFit}

-- Each slot is as it was, or its id is erased.
abbrev pub Erased : List Block → List Block → Type 0
Erased [] [] = Unit {0}
Erased [] (t ∷ ts) = ⊥
Erased (s ∷ ss) [] = ⊥
Erased (s ∷ ss) (t ∷ ts) = ((t ≡ s) ⊎ (t ≡ erase_bid s)) × Erased ss ts

Erased-refl : (ss : List Block) → Erased ss ss
Erased-refl [] = tt
Erased-refl (s ∷ ss) = (inl refl, Erased-refl ss)

either_trans :
    (s t u : Block)
    → (t ≡ s) ⊎ (t ≡ erase_bid s)
    → (u ≡ t) ⊎ (u ≡ erase_bid t)
    → (u ≡ s) ⊎ (u ≡ erase_bid s)
either_trans s t u (inl e) (inl f) = inl (f ∙ e)
either_trans s t u (inl e) (inr f) = inr (f ∙ ap erase_bid e)
either_trans s t u (inr e) (inl f) = inr (f ∙ e)
either_trans s t u (inr e) (inr f) = inr (f ∙ ap erase_bid e)

Erased-trans : (ss ts us : List Block) → Erased ss ts → Erased ts us → Erased ss us
Erased-trans [] [] [] h k = tt
Erased-trans [] [] (u ∷ us) h k = elim k [ ]
Erased-trans [] (t ∷ ts) us h k = elim h [ ]
Erased-trans (s ∷ ss) [] us h k = elim h [ ]
Erased-trans (s ∷ ss) (t ∷ ts) [] h k = elim k [ ]
Erased-trans (s ∷ ss) (t ∷ ts) (u ∷ us) h k =
    (either_trans s t u h.0 k.0, Erased-trans ss ts us h.1 k.1)

Erased-append : (xs ss ts : List Block) → Erased ss ts → Erased (xs ++ ss) (xs ++ ts)
Erased-append [] ss ts h = h
Erased-append (x ∷ xs) ss ts h = (inl refl, Erased-append xs ss ts h)

module _ (eligible : Block → Bool) where
  take_slot-Erased :
      (n : ℕ) (b : Block) (ss : List Block)
      → let t = take_slot eligible n b ss in Erased ss (t.passed ++ t.left)
  unfolding take_slot
  take_slot-Erased n b [] = tt
  take_slot-Erased zero b (s ∷ ss) = Erased-refl (s ∷ ss)
  take_slot-Erased (suc n) b (s ∷ ss) = elim (Bool-cases (is_real s && eligible s)) [
    | inl e ↦ rw e (inr refl, Erased-refl ss)
    | inr e ↦ rw e (inl refl, take_slot-Erased n b ss)
  ]

  fill_bucket-Erased :
      (n : ℕ) (bs : Bucket) (ss : List Block) → Erased ss (fill_bucket eligible n bs ss).slots
  unfolding fill_bucket
  fill_bucket-Erased n [] ss = Erased-refl ss
  fill_bucket-Erased n (b ∷ bs) ss =
      let t = take_slot eligible n b ss in
      let rest = fill_bucket eligible t.size bs t.left in
      Erased-trans ss (t.passed ++ t.left) (t.passed ++ rest.slots) (take_slot-Erased n b ss)
        (Erased-append t.passed t.left rest.slots (fill_bucket-Erased t.size bs t.left))

rebuild_levels-Erased :
    (n : ℕ) (pos_map : List ℕ) (leaf up : ℕ) (path : List Bucket) (ss : List Block)
    → Erased ss (rebuild_levels (λ e. fill_bucket e n) pos_map leaf up path ss).slots
unfolding rebuild_levels
rebuild_levels-Erased n pos_map leaf up [] ss = Erased-refl ss
rebuild_levels-Erased n pos_map leaf up (b ∷ path) ss =
    let rest = rebuild_levels (λ e. fill_bucket e n) pos_map leaf (up - 1) path ss in
    Erased-trans ss rest.slots _ (rebuild_levels-Erased n pos_map leaf (up - 1) path ss)
      (fill_bucket-Erased (at_level pos_map leaf up) n b rest.slots)

Erased-length : (ss ts : List Block) → Erased ss ts → length ts ≡ length ss
Erased-length [] [] h = refl
Erased-length [] (t ∷ ts) h = elim h [ ]
Erased-length (s ∷ ss) [] h = elim h [ ]
Erased-length (s ∷ ss) (t ∷ ts) h = ap suc (Erased-length ss ts h.1)

Erased-DummyFrom :
    (n j : ℕ) (ss ts : List Block) → Erased ss ts → DummyFrom n j ss → DummyFrom n j ts
Erased-DummyFrom n j [] [] h d = tt
Erased-DummyFrom n j [] (t ∷ ts) h d = elim h [ ]
Erased-DummyFrom n j (s ∷ ss) [] h d = elim h [ ]
Erased-DummyFrom n j (s ∷ ss) (t ∷ ts) h d = (
  (λ le. elim h.0 [ inl e ↦ ap is_dummy e ∙ d.0 le | inr e ↦ ap is_dummy e ]),
  Erased-DummyFrom n (j + 1) ss ts h.1 d.1,
)

Erased-IdsFit : (ss ts : List Block) → Erased ss ts → IdsFit ss → IdsFit ts
Erased-IdsFit [] [] h f = tt
Erased-IdsFit [] (t ∷ ts) h f = elim h [ ]
Erased-IdsFit (s ∷ ss) [] h f = elim h [ ]
Erased-IdsFit (s ∷ ss) (t ∷ ts) h f =
    (elim h.0 [ inl e ↦ rw e f.0 | inr e ↦ rw e (omega arith) ], Erased-IdsFit ss ts h.1 f.1)

-- The stash stays well formed, and its ids 16-bit words.
pub rebuild_stash-IsStash :
    (path : List Bucket) (leaf : ℕ) (sk : Sketch)
    → IsStash sk.stash
    → IdsFit sk.stash.slots
    → let st' = (rebuild_stash path leaf sk).sketch.stash in IsStash st' × IdsFit st'.slots
unfolding rebuild_stash
rebuild_stash-IsStash path leaf sk ok fit =
    let ss = sk.stash.slots in
    let n = sk.stash.length_st in
    let r = rebuild_levels (λ e. fill_bucket e n) sk.pos_map leaf sk.level (clear_path path) ss in
    let h = rebuild_levels-Erased n sk.pos_map leaf sk.level (clear_path path) ss in
    (
      record {
        whole = Erased-length ss r.slots h ∙ ok.whole;
        searched = ok.searched;
        inside = ok.inside;
        beyond = Erased-DummyFrom n 0 ss r.slots h ok.beyond;
      },
      Erased-IdsFit ss r.slots h fit,
    )
