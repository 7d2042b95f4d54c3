-- ===== src/Oram/Evict/Rebuild.antt =====
-- Writing the stash back to a path: the variants agree, no block is lost or made, and each lies on its
-- own path.
use mathlib.Core.List.Perm
use mathlib.Core.List.{append_assoc, perm_append_comm, perm_middle}
use fosketch.Prelude.{
  ℕ, zero, suc, ◌-◌, ◌≡◌, refl, ap, ◌∙◌, inl, inr, Bool, true, List, [], ◌∷◌, ◌++◌, map, Perm,
  arith, if◌then◌else◌, Bool-cases,
}
use fosketch.Oram.Block.{
  Block, Bucket, is_dummy, is_real, erase_bid, blocks, reals, reals-append, reals-dummy, reals-real,
}
use fosketch.Oram.Sketch.{Sketch}
use fosketch.Oram.Evict.{
  Filled, Rebuilt, Evicted, take_slot, fill_bucket, o_fill_bucket, branch_fill_bucket,
  rebuild_levels, at_level, clear_path, rebuild_stash, o_rebuild_stash, o_rebuild_stash_s,
  o_rebuild_stash_f, compressed,
}
use fosketch.Oram.Evict.Fill.{o_fill_bucket-fill_bucket, branch_fill_bucket-fill_bucket}

abbrev with_bucket : Filled → List Bucket → Rebuilt
with_bucket f path = record { path = f.bucket ∷ path; slots = f.slots }

rebuild_levels-ext :
    (fill fill' : (eligible : Block → Bool) → Bucket → List Block → Filled) (pos_map : List ℕ)
    (leaf up : ℕ) (path : List Bucket) (ss : List Block)
    → ((e : Block → Bool) (b : Bucket) (ls : List Block) → fill e b ls ≡ fill' e b ls)
    → rebuild_levels fill pos_map leaf up path ss ≡ rebuild_levels fill' pos_map leaf up path ss
unfolding rebuild_levels
rebuild_levels-ext fill fill' pos_map leaf up [] ss h = refl
rebuild_levels-ext fill fill' pos_map leaf up (b ∷ path) ss h =
    let ih = rebuild_levels-ext fill fill' pos_map leaf (up - 1) path ss h in
    let rest = rebuild_levels fill' pos_map leaf (up - 1) path ss in
    ap (λ (r : Rebuilt). with_bucket (fill (at_level pos_map leaf up) b r.slots) r.path) ih
    ∙ ap (λ f. with_bucket f rest.path) (h (at_level pos_map leaf up) b rest.slots)

-- One bucket of dummies: the places it gives are places of the test.
AllDummy : List Block → Type 0
AllDummy [] = Unit {0}
AllDummy (b ∷ bs) = (is_dummy b ≡ true) × AllDummy bs

reals-AllDummy : (bs : List Block) → AllDummy bs → reals bs ≡ []
unfolding reals AllDummy
reals-AllDummy [] h = refl
reals-AllDummy (b ∷ bs) h = let d = h.0 in rw d (reals-AllDummy bs h.1)

AllDummy-erase : (bs : List Block) → AllDummy (map erase_bid bs)
unfolding AllDummy
AllDummy-erase [] = tt
AllDummy-erase (b ∷ bs) = (refl, AllDummy-erase bs)

reals-nil : reals [] ≡ []
unfolding reals
reals-nil = refl

shuffle {ℓ} : {A : Type ℓ} (b x p y : List A) → Perm ((b ++ x) ++ (p ++ y)) ((b ++ p) ++ (x ++ y))
shuffle b x p y =
    rw (append_assoc b x (p ++ y), append_assoc b p (x ++ y))
      (Perm.append (Perm.refl b) (
        rw (← append_assoc x p y, ← append_assoc p x y)
          (Perm.append (perm_append_comm x p) (Perm.refl y))))

module _ (eligible : Block → Bool) where
  take_slot-reals :
      (n : ℕ) (b : Block) (ss : List Block)
      → is_dummy b ≡ true
      → let t = take_slot eligible n b ss in
        Perm (reals (t.block ∷ []) ++ reals (t.passed ++ t.left)) (reals ss)
  unfolding take_slot
  take_slot-reals n b [] d = rw (reals-dummy b [] d, reals-nil) (Perm.refl _)
  take_slot-reals zero b (s ∷ ss) d = rw (reals-dummy b [] d, reals-nil) (Perm.refl _)
  take_slot-reals (suc n) b (s ∷ ss) d = elim (Bool-cases (is_dummy s)) [
    | inl e ↦
        let ih = take_slot-reals n b ss d in
        let t = take_slot eligible n b ss in
        rw (e, reals-dummy s (t.passed ++ t.left) e, reals-dummy s ss e) ih
    | inr e ↦ elim (Bool-cases (eligible s)) [
      | inl h ↦
          rw
            (
              e,
              h,
              reals-real s [] e,
              reals-real s ss e,
              reals-dummy (erase_bid s) ss refl,
              reals-nil,
            )
            (Perm.refl _)
      | inr h ↦
          let ih = take_slot-reals n b ss d in
          let t = take_slot eligible n b ss in
          rw (e, h, reals-real s (t.passed ++ t.left) e, reals-real s ss e)
            (Perm.trans (perm_middle (reals (t.block ∷ [])) (reals (t.passed ++ t.left)))
              (Perm.cons s ih))
    ]
  ]

  abbrev pub Placed : List Block → Type 0
  Placed [] = Unit {0}
  Placed (b ∷ bs) = (is_real b ≡ true → eligible b ≡ true) × Placed bs

  fill_bucket-reals :
      (n : ℕ) (bs : Bucket) (ss : List Block)
      → AllDummy bs
      → let f = fill_bucket eligible n bs ss in Perm (reals f.bucket ++ reals f.slots) (reals ss)
  unfolding fill_bucket AllDummy
  fill_bucket-reals n [] ss h = rw reals-nil (Perm.refl _)
  fill_bucket-reals n (b ∷ bs) ss h =
      let t = take_slot eligible n b ss in
      let rest = fill_bucket eligible t.size bs t.left in
      let ih = fill_bucket-reals t.size bs t.left h.1 in
      let one = take_slot-reals n b ss h.0 in
      let one' : Perm ((reals (t.block ∷ []) ++ reals t.passed) ++ reals t.left) (reals ss) =
        rw
          (
            append_assoc (reals (t.block ∷ [])) (reals t.passed) (reals t.left),
            ← reals-append t.passed t.left,
          )
          one in
      rw (reals-append (t.block ∷ []) rest.bucket, reals-append t.passed rest.slots)
        (Perm.trans
          (shuffle (reals (t.block ∷ [])) (reals rest.bucket) (reals t.passed) (reals rest.slots))
          (Perm.trans (Perm.append (Perm.refl (reals (t.block ∷ []) ++ reals t.passed)) ih) one'))

  take_slot-placed :
      (n : ℕ) (b : Block) (ss : List Block)
      → is_dummy b ≡ true
      → let t = take_slot eligible n b ss in is_real t.block ≡ true → eligible t.block ≡ true
  unfolding take_slot
  take_slot-placed n b [] d r = ground (arith)
  take_slot-placed zero b (s ∷ ss) d r = ground (arith)
  take_slot-placed (suc n) b (s ∷ ss) d r = ground (arith, take_slot-placed n b ss d)

  fill_bucket-Placed :
      (n : ℕ) (bs : Bucket) (ss : List Block)
      → AllDummy bs
      → Placed (fill_bucket eligible n bs ss).bucket
  unfolding fill_bucket AllDummy
  fill_bucket-Placed n [] ss h = tt
  fill_bucket-Placed n (b ∷ bs) ss h =
      let t = take_slot eligible n b ss in
      (take_slot-placed n b ss h.0, fill_bucket-Placed t.size bs t.left h.1)

-- Every block of the path shares with the leaf the part of the way that leads to its bucket.
abbrev pub OnPath : (pos_map : List ℕ) (leaf up : ℕ) → List Bucket → Type 0
OnPath pos_map leaf up [] = Unit {0}
OnPath pos_map leaf up (b ∷ path) =
    Placed (at_level pos_map leaf up) b × OnPath pos_map leaf (up - 1) path

-- The pass over the levels, over a path of dummies.
rebuild_levels-keeps :
    (n : ℕ) (pos_map : List ℕ) (leaf up : ℕ) (path : List Bucket) (ss : List Block)
    → let r = rebuild_levels (λ e. fill_bucket e n) pos_map leaf up (clear_path path) ss in
      Perm (reals (blocks r.path) ++ reals r.slots) (reals ss) × OnPath pos_map leaf up r.path
unfolding rebuild_levels blocks
rebuild_levels-keeps n pos_map leaf up [] ss = (rw reals-nil (Perm.refl _), tt)
rebuild_levels-keeps n pos_map leaf up (b ∷ path) ss =
    let rest = rebuild_levels (λ e. fill_bucket e n) pos_map leaf (up - 1) (clear_path path) ss in
    let ih = rebuild_levels-keeps n pos_map leaf (up - 1) path ss in
    let test = at_level pos_map leaf up in
    let f = fill_bucket test n (map erase_bid b) rest.slots in
    let one = fill_bucket-reals test n (map erase_bid b) rest.slots (AllDummy-erase b) in
    (
      rw (reals-append f.bucket (blocks rest.path)) (
          Perm.trans
            (Perm.append (perm_append_comm (reals f.bucket) (reals (blocks rest.path)))
              (Perm.refl (reals f.slots)))
            (rw (append_assoc (reals (blocks rest.path)) (reals f.bucket) (reals f.slots))
              (Perm.trans (Perm.append (Perm.refl (reals (blocks rest.path))) one) ih.0))),
      (fill_bucket-Placed test n (map erase_bid b) rest.slots (AllDummy-erase b), ih.1),
    )

abbrev evicted : Sketch → Rebuilt → Evicted
evicted sk r = record {
  sketch = record sk { stash = record sk.stash { slots = r.slots } };
  path = r.path;
}

-- `rebuildStash` moves blocks from the stash to the path and loses none: the real blocks of the new
-- path and those left in the stash are together those of the stash before, and each block of the path
-- is mapped to a leaf below its bucket.
pub rebuild_stash_keeps :
    (path : List Bucket) (leaf : ℕ) (sk : Sketch)
    → let e = rebuild_stash path leaf sk in
      Perm (reals (blocks e.path) ++ reals e.sketch.stash.slots) (reals sk.stash.slots)
      × OnPath sk.pos_map leaf sk.level e.path
unfolding rebuild_stash
rebuild_stash_keeps path leaf sk =
    rebuild_levels-keeps sk.stash.length_st sk.pos_map leaf sk.level path sk.stash.slots

-- The oblivious methods do what `rebuildStash` does, and `ORebuildStash` compresses the stash after
-- it if the sketch asks for that.
pub rebuild_stash_variants :
    (path : List Bucket) (leaf : ℕ) (sk : Sketch)
    → (o_rebuild_stash_s path leaf sk ≡ rebuild_stash path leaf sk)
      × (o_rebuild_stash_f path leaf sk ≡ rebuild_stash path leaf sk)
      × (o_rebuild_stash path leaf sk ≡ (
          if sk.need_com_stash
          then compressed (rebuild_stash path leaf sk)
          else rebuild_stash path leaf sk))
unfolding rebuild_stash o_rebuild_stash o_rebuild_stash_s o_rebuild_stash_f
rebuild_stash_variants path leaf sk =
    let n = sk.stash.length_st in
    let branch =
      rebuild_levels-ext (λ e. branch_fill_bucket e n) (λ e. fill_bucket e n) sk.pos_map leaf
        sk.level (clear_path path) sk.stash.slots
        (λ e b ls. branch_fill_bucket-fill_bucket e n b ls) in
    let scan =
      rebuild_levels-ext (λ e. o_fill_bucket e n) (λ e. fill_bucket e n) sk.pos_map leaf sk.level
        (clear_path path) sk.stash.slots (λ e b ls. o_fill_bucket-fill_bucket e n b ls) in
    (
      ap (evicted sk) branch,
      ap (evicted sk) branch,
      ap (λ r. if sk.need_com_stash then compressed (evicted sk r) else evicted sk r) scan,
    )
