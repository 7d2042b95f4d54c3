-- ===== src/Oram/Evict/Fill.antt =====
-- The oblivious scans of `ORebuildStash` pick the blocks that the single pass of `rebuildStash` picks.
use mathlib.Core.List.{append_assoc}
use fosketch.Prelude.{
  ℕ, zero, suc, ◌+◌, ◌≡◌, refl, sym, ap, ◌∙◌, inl, inr, Bool, true, false, ◌&&◌, List, [], ◌∷◌,
  ◌++◌, arith, if◌then◌else◌, Bool-cases, length, length-append,
}
use fosketch.Oram.Block.{Block, Bucket, is_real}
use fosketch.Oram.Evict.{
  Filled, Taken, take_slot, fill_bucket, o_take_slot, o_fill_bucket, branch_take_slot,
  branch_fill_bucket,
}

-- One more place of the bucket.
abbrev with_block : Block → Filled → Filled
with_block b f = record { bucket = b ∷ f.bucket; slots = f.slots }

abbrev taken : Block → List Block → Taken
taken b ss = record { block = b; slots = ss }

module _ (eligible : Block → Bool) where
  -- None of these is chosen.
  abbrev pub Skipped : List Block → Type 0
  Skipped [] = Unit {0}
  Skipped (s ∷ ss) = ((is_real s && eligible s) ≡ false) × Skipped ss

  Skipped-append : (xs ys : List Block) → Skipped xs → Skipped ys → Skipped (xs ++ ys)
  Skipped-append [] ys h k = k
  Skipped-append (x ∷ xs) ys h k = (h.0, Skipped-append xs ys h.1 k)

  take_slot-Skipped :
      (n : ℕ) (b : Block) (ss : List Block) → Skipped (take_slot eligible n b ss).passed
  unfolding take_slot
  take_slot-Skipped n b [] = tt
  take_slot-Skipped zero b (s ∷ ss) = tt
  take_slot-Skipped (suc n) b (s ∷ ss) = elim (Bool-cases (is_real s && eligible s)) [
    | inl e ↦ rw e (refl, tt)
    | inr e ↦ rw e (e, take_slot-Skipped n b ss)
  ]

  take_slot-size :
      (n : ℕ) (b : Block) (ss : List Block)
      → let t = take_slot eligible n b ss in length t.passed + t.size ≡ n
  unfolding take_slot
  take_slot-size n b [] = omega arith
  take_slot-size zero b (s ∷ ss) = omega arith
  take_slot-size (suc n) b (s ∷ ss) = ground (arith, take_slot-size n b ss)

  o_take_slot-found :
      (n : ℕ) (cond : Bool) (b : Block) (ss : List Block)
      → o_take_slot eligible n true cond b ss ≡ taken b ss
  unfolding o_take_slot
  o_take_slot-found n cond b [] = refl
  o_take_slot-found zero cond b (s ∷ ss) = refl
  o_take_slot-found (suc n) cond b (s ∷ ss) =
      ground (arith, o_take_slot-found n true b ss, o_take_slot-found n false b ss)

  branch_take_slot-found :
      (n : ℕ) (cond : Bool) (b : Block) (ss : List Block)
      → branch_take_slot eligible n true cond b ss ≡ taken b ss
  unfolding branch_take_slot
  branch_take_slot-found n cond b [] = refl
  branch_take_slot-found zero cond b (s ∷ ss) = refl
  branch_take_slot-found (suc n) cond b (s ∷ ss) =
      ground (arith, branch_take_slot-found n (if is_real s then eligible s else cond) b ss)

  -- A scan that has found nothing yet takes the first slot that is chosen.
  o_take_slot-first :
      (n : ℕ) (b : Block) (ss : List Block)
      → let t = take_slot eligible n b ss in
        o_take_slot eligible n false false b ss ≡ taken t.block (t.passed ++ t.left)
  unfolding o_take_slot take_slot
  o_take_slot-first n b [] = refl
  o_take_slot-first zero b (s ∷ ss) = refl
  o_take_slot-first (suc n) b (s ∷ ss) = ground (
    arith,
    o_take_slot-first n b ss,
    o_take_slot-found n true s ss,
    o_take_slot-found n false s ss,
  )

  branch_take_slot-first :
      (n : ℕ) (b : Block) (ss : List Block)
      → let t = take_slot eligible n b ss in
        branch_take_slot eligible n false false b ss ≡ taken t.block (t.passed ++ t.left)
  unfolding branch_take_slot take_slot
  branch_take_slot-first n b [] = refl
  branch_take_slot-first zero b (s ∷ ss) = refl
  branch_take_slot-first (suc n) b (s ∷ ss) =
      ground (arith, branch_take_slot-first n b ss, branch_take_slot-found n false s ss)

  -- What the single pass skipped, the next scan passes again.
  o_take_slot-skip :
      (xs : List Block) (m n : ℕ) (b : Block) (ss : List Block)
      → Skipped xs
      → length xs + m ≡ n
      → let t = o_take_slot eligible m false false b ss in
        o_take_slot eligible n false false b (xs ++ ss) ≡ taken t.block (xs ++ t.slots)
  unfolding o_take_slot
  o_take_slot-skip [] m n b ss h e = let same : m ≡ n = omega arith in rw same refl
  o_take_slot-skip (x ∷ xs) m zero b ss h e = absurd (omega arith)
  o_take_slot-skip (x ∷ xs) m (suc n) b ss h e =
      ground (arith, h.0, o_take_slot-skip xs m n b ss h.1 (omega arith))

  o_fill_bucket-skip :
      (bs : Bucket) (xs : List Block) (m n : ℕ) (ss : List Block)
      → Skipped xs
      → length xs + m ≡ n
      → let f = fill_bucket eligible m bs ss in
        o_fill_bucket eligible n bs (xs ++ ss) ≡ record { bucket = f.bucket; slots = xs ++ f.slots }
  unfolding o_fill_bucket fill_bucket
  o_fill_bucket-skip [] xs m n ss h e = refl
  o_fill_bucket-skip (b ∷ bs) xs m n ss h e =
      let t = take_slot eligible m b ss in
      let first =
        o_take_slot-skip xs m n b ss h e
        ∙ ap (λ u. taken u.block (xs ++ u.slots)) (o_take_slot-first m b ss) in
      let size = take_slot-size m b ss in
      let longer = length-append xs t.passed in
      let ih =
        o_fill_bucket-skip bs (xs ++ t.passed) t.size n t.left
          (Skipped-append xs t.passed h (take_slot-Skipped m b ss)) (omega arith) in
      let rest = fill_bucket eligible t.size bs t.left in
      ap (λ (u : Taken). with_block u.block (o_fill_bucket eligible n bs u.slots)) first
      ∙ ap (λ ls. with_block t.block (o_fill_bucket eligible n bs ls))
          (sym (append_assoc xs t.passed t.left))
      ∙ ap (with_block t.block) ih
      ∙ ap (λ ls. with_block t.block (record { bucket = rest.bucket; slots = ls }))
          (append_assoc xs t.passed rest.slots)

  branch-o :
      (n : ℕ) (bs : Bucket) (ss : List Block)
      → branch_fill_bucket eligible n bs ss ≡ o_fill_bucket eligible n bs ss
  unfolding branch_fill_bucket o_fill_bucket
  branch-o n [] ss = refl
  branch-o n (b ∷ bs) ss =
      let first = branch_take_slot-first n b ss ∙ sym (o_take_slot-first n b ss) in
      let ih = branch-o n bs (o_take_slot eligible n false false b ss).slots in
      let t = o_take_slot eligible n false false b ss in
      ap (λ (u : Taken). with_block u.block (branch_fill_bucket eligible n bs u.slots)) first
      ∙ ap (with_block t.block) ih

  pub o_fill_bucket-fill_bucket :
      (n : ℕ) (bs : Bucket) (ss : List Block)
      → o_fill_bucket eligible n bs ss ≡ fill_bucket eligible n bs ss
  o_fill_bucket-fill_bucket n bs ss = o_fill_bucket-skip bs [] n n ss tt (omega arith)

  pub branch_fill_bucket-fill_bucket :
      (n : ℕ) (bs : Bucket) (ss : List Block)
      → branch_fill_bucket eligible n bs ss ≡ fill_bucket eligible n bs ss
  branch_fill_bucket-fill_bucket n bs ss = branch-o n bs ss ∙ o_fill_bucket-fill_bucket n bs ss
