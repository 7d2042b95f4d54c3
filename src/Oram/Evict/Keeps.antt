-- ===== src/Oram/Evict/Keeps.antt =====
-- What `ORebuildStash` keeps, with and without the compression behind it.
use mathlib.Core.List.Perm
use mathlib.Core.List.{Permᴰ, Perm-prop}
use mathlib.Core.Logic.{∥∥₁_elim}
use fosketch.Prelude.{
  ℕ, suc, ◌-◌, ◌≡◌, refl, ap, ◌∙◌, inl, inr, List, [], ◌∷◌, ◌++◌, Perm, if◌then◌else◌, Bool-cases,
  length,
}
use fosketch.Oram.Block.{Block, Bucket, is_dummy, reals, reals-dummy, reals-real, blocks}
use fosketch.Oram.Sketch.{Sketch}
use fosketch.Oram.Stash.Places.{IsStash}
use fosketch.Oram.Evict.{
  Evicted, fill_bucket, rebuild_levels, rebuild_stash, o_rebuild_stash, compressed, clear_path,
}
use fosketch.Oram.Evict.Compress.{IdsFit, o_compress_stash_keeps}
use fosketch.Oram.Evict.Erased.{rebuild_stash-IsStash}
use fosketch.Oram.Evict.Rebuild.{rebuild_stash_keeps, rebuild_stash_variants}

reals-cons :
    (x : Block) (xs ys : List Block)
    → Perm (reals xs) (reals ys)
    → Perm (reals (x ∷ xs)) (reals (x ∷ ys))
reals-cons x xs ys p = elim (Bool-cases (is_dummy x)) [
  | inl d ↦ rw (reals-dummy x xs d, reals-dummy x ys d) p
  | inr d ↦ rw (reals-real x xs d, reals-real x ys d) (Perm.cons x p)
]

reals-swap : (x y : Block) (l : List Block) → Perm (reals (x ∷ y ∷ l)) (reals (y ∷ x ∷ l))
reals-swap x y l = elim (Bool-cases (is_dummy x)) [
  | inl d ↦
      rw (reals-dummy x (y ∷ l) d)
        (reals-cons y l (x ∷ l) (rw (reals-dummy x l d) (Perm.refl (reals l))))
  | inr d ↦ elim (Bool-cases (is_dummy y)) [
    | inl f ↦
        rw (reals-dummy y (x ∷ l) f)
          (reals-cons x (y ∷ l) l (rw (reals-dummy y l f) (Perm.refl (reals l))))
    | inr f ↦
        rw (reals-real x (y ∷ l) d, reals-real y l f, reals-real y (x ∷ l) f, reals-real x l d)
          (Perm.swap y x (reals l))
  ]
]

reals-Permᴰ : {xs ys : List Block} → Permᴰ xs ys → Perm (reals xs) (reals ys)
reals-Permᴰ Permᴰ.nil = Perm.refl _
reals-Permᴰ (Permᴰ.cons {b = b} {l₁ = l₁} {l₂ = l₂} e p) = rw e (reals-cons b l₁ l₂ (reals-Permᴰ p))
reals-Permᴰ (Permᴰ.swap {a' = a'} {b' = b'} {l = l} e f) = rw (e, f) (reals-swap b' a' l)
reals-Permᴰ (Permᴰ.trans p q) = Perm.trans (reals-Permᴰ p) (reals-Permᴰ q)

pub reals-perm : {xs ys : List Block} → Perm xs ys → Perm (reals xs) (reals ys)
reals-perm p = ∥∥₁_elim p Perm-prop reals-Permᴰ

rebuild_levels-length :
    (n : ℕ) (pos_map : List ℕ) (leaf up : ℕ) (path : List Bucket) (ss : List Block)
    → length (rebuild_levels (λ e. fill_bucket e n) pos_map leaf up (clear_path path) ss).path
      ≡ length path
unfolding rebuild_levels
rebuild_levels-length n pos_map leaf up [] ss = refl
rebuild_levels-length n pos_map leaf up (b ∷ path) ss =
    ap suc (rebuild_levels-length n pos_map leaf (up - 1) path ss)

pub record Kept (path : List Bucket) (sk : Sketch) (e : Evicted) : Type 0 where
  pub ok : IsStash e.sketch.stash
  pub tree : e.sketch.obliv_sk ≡ sk.obliv_sk
  pub levels : length e.path ≡ length path
  pub conserved : Perm (reals (blocks e.path) ++ reals e.sketch.stash.slots) (reals sk.stash.slots)

rebuild_stash-Kept :
    (path : List Bucket) (leaf : ℕ) (sk : Sketch)
    → IsStash sk.stash
    → IdsFit sk.stash.slots
    → Kept path sk (rebuild_stash path leaf sk)
unfolding rebuild_stash
rebuild_stash-Kept path leaf sk ok fit = record {
  ok = (rebuild_stash-IsStash path leaf sk ok fit).0;
  tree = refl;
  levels = rebuild_levels-length sk.stash.length_st sk.pos_map leaf sk.level path sk.stash.slots;
  conserved = (rebuild_stash_keeps path leaf sk).0;
}

compressed-Kept :
    (path : List Bucket) (sk : Sketch) (e : Evicted)
    → IdsFit e.sketch.stash.slots
    → Kept path sk e
    → Kept path sk (compressed e)
compressed-Kept path sk e fit k =
    let c = o_compress_stash_keeps e.sketch.stash k.ok fit in
    record {
      ok = c.1;
      tree = k.tree;
      levels = k.levels;
      conserved =
          Perm.trans (Perm.append (Perm.refl (reals (blocks e.path))) (reals-perm c.0)) k.conserved;
    }

-- `ORebuildStash`, whether or not it compresses the stash, keeps the stash well formed, does not touch
-- the tree, fills as many buckets as the path has, and loses or makes no block.
pub o_rebuild_stash_keeps :
    (path : List Bucket) (leaf : ℕ) (sk : Sketch)
    → IsStash sk.stash
    → IdsFit sk.stash.slots
    → Kept path sk (o_rebuild_stash path leaf sk)
o_rebuild_stash_keeps path leaf sk ok fit =
    let same = (rebuild_stash_variants path leaf sk).2 in
    let e = rebuild_stash path leaf sk in
    let plain = rebuild_stash-Kept path leaf sk ok fit in
    let fit' = (rebuild_stash-IsStash path leaf sk ok fit).1 in
    elim (Bool-cases sk.need_com_stash) [
      | inl asked ↦
          rw (same ∙ ap (λ b. if b then compressed e else e) asked)
            (compressed-Kept path sk e fit' plain)
      | inr left ↦ rw (same ∙ ap (λ b. if b then compressed e else e) left) plain
    ]
