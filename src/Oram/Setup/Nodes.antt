-- ===== src/Oram/Setup/Nodes.antt =====
-- After `Init_OCU` the tree is whole, the stash is well formed, and each block lies on its own path.
use native.Mathlib.Nat.{add-mul-div_right, two-pow-succ}
use fosketch.Prelude.{
  ℕ, zero, suc, ◌+◌, ◌-◌, ◌*◌, ◌/◌, ◌%◌, ◌^◌, ◌≤◌, ◌<◌, ◌≡◌, refl, ap, ◌∙◌, Bool, true, false, not,
  ◌&&◌, List, [], ◌∷◌, arith, length, length-set, length-replicate, set, get_or, replicate, ltb,
  leb, ◌==◌, if◌then◌else◌, Bool-cases, inl, inr,
}
use fosketch.Sorter.Bitonic.{sort}
use fosketch.Oram.Block.{Block, Bucket, is_real, erase_bid, by_pos}
use fosketch.Oram.Sketch.{Sketch, SketchType}
use fosketch.Oram.Stash.Places.{IsStash, init_stash-IsStash}
use fosketch.Oram.Tree.Path.{node, pow_split, two_pow-pos}
use fosketch.Oram.Setup.{
  Inputs, Filling, open_sketch, init_ok, floor_log2, n_block_of, put_block, place_blocks,
  make_blocks, note_leaves, init_levels, init_ocu, size_up, set_up, empty_tree,
}

-- A block that counts lies in place `k` of the tree only if that is a node on the way to its leaf.
abbrev OnWay : (level k : ℕ) → Block → Type 0
OnWay level k b = is_real b ≡ true → (up : ℕ) × (up ≤ level) × (node level b.pos up ≡ suc k)

abbrev InNode : (level k : ℕ) → List Block → Type 0
InNode level k [] = Unit {0}
InNode level k (b ∷ bs) = OnWay level k b × InNode level k bs

-- The buckets from place `k` on.
abbrev pub AllOnWay : (level k : ℕ) → List Bucket → Type 0
AllOnWay level k [] = Unit {0}
AllOnWay level k (b ∷ tree) = InNode level k b × AllOnWay level (k + 1) tree

InNode-set :
    (level k c : ℕ) (b : Block) (bs : List Block)
    → OnWay level k b
    → InNode level k bs
    → InNode level k (set bs c b)
InNode-set level k c b [] w h = tt
InNode-set level k zero b (x ∷ bs) w h = (w, h.1)
InNode-set level k (suc c) b (x ∷ bs) w h = (h.0, InNode-set level k c b bs w h.1)

AllOnWay-put :
    (level k m j c : ℕ) (b : Block) (tree : List Bucket)
    → m ≡ k + j
    → OnWay level m b
    → AllOnWay level k tree
    → AllOnWay level k (put_block j c b tree)
AllOnWay-put level k m j c b [] e w h = tt
AllOnWay-put level k m zero c b (x ∷ tree) e w h =
    let here : k ≡ m = omega arith in (InNode-set level k c b x (rw here w) h.0, h.1)
AllOnWay-put level k m (suc j) c b (x ∷ tree) e w h =
    (h.0, AllOnWay-put level (k + 1) m j c b tree (omega arith) w h.1)

-- The place of a block in the row of level `i`.
node-row :
    (level i up pos : ℕ) → level ≡ up + i → node level pos up ≡ suc (2 ^ i - 1 + pos / 2 ^ up)
node-row level i up pos e =
    let p : 2 ^ level ≡ 2 ^ i * 2 ^ up = ap (λ j. 2 ^ j) e ∙ pow_split up i in
    let q = two_pow-pos i in rw p (add-mul-div_right pos (2 ^ i) (two_pow-pos up) ∙ omega arith)

-- What stays true while the tree is filled.
abbrev IsFilled : (level : ℕ) → Filling → Type 0
IsFilled level st = AllOnWay level 0 st.tree × (length st.tree ≡ 2 ^ suc level - 1)

place_blocks-IsFilled :
    (level i up size_bucket start pre count : ℕ) (bs : List Block) (st : Filling)
    → level ≡ up + i
    → start ≡ 2 ^ i - 1
    → IsFilled level st
    → IsFilled level (place_blocks size_bucket up start pre count bs st)
unfolding place_blocks
place_blocks-IsFilled level i up size_bucket start pre count [] st e s h = h
place_blocks-IsFilled level i up size_bucket start pre count (b ∷ bs) st e s h =
    let cur = b.pos / 2 ^ up in
    let same = pre == cur in
    let count' = if same then count + 1 else 0 in
    let full = same && leb size_bucket count' in
    let tree' = put_block (start + cur) count' b st.tree in
    let way : OnWay level (start + cur) b =
      λ r. (up, omega arith, node-row level i up b.pos e ∙ omega arith) in
    let put =
      AllOnWay-put level 0 (start + cur) (start + cur) count' b st.tree (omega arith) way h.0 in
    let size = length-set st.tree (start + cur) (set (get_or st.tree (start + cur) []) count' b) in
    let skipped =
      place_blocks-IsFilled level i up size_bucket start pre count' bs
        (record st { n_failed = st.n_failed + 1 }) e s h in
    let placed =
      place_blocks-IsFilled level i up size_bucket start cur count' bs (record st { tree = tree' })
        e s (put, size ∙ h.1) in
    elim (Bool-cases full) [
      | inl yes_full ↦ rw yes_full skipped
      | inr not_full ↦ rw not_full placed
    ]

init_levels-IsFilled :
    (make : ℕ → Block) (level n_block size_bucket n end flag_start : ℕ) (st : Filling)
    → n ≤ suc level
    → end ≡ 2 ^ n - 1
    → IsFilled level st
    → IsFilled level (init_levels make level n_block size_bucket n end flag_start st)
unfolding init_levels
init_levels-IsFilled make level n_block size_bucket zero end flag_start st le e h = h
init_levels-IsFilled make level n_block size_bucket (suc i) end flag_start st le e h =
    let cur = 2 ^ i in
    let double = two-pow-succ i in
    let start : end - cur ≡ 2 ^ i - 1 = omega arith in
    let bs = make_blocks make cur flag_start in
    let filled =
      place_blocks-IsFilled level i (level - i) size_bucket (end - cur) (2 ^ 64 - 1) size_bucket
        (sort by_pos bs cur) (record st { pos_map = note_leaves bs st.pos_map }) (omega arith) start
        h in
    elim (Bool-cases (n_block / cur % 2 == 0)) [
      | inl skip ↦ rw skip (
          init_levels-IsFilled make level n_block size_bucket i (end - cur) flag_start st
            (omega arith) start h)
      | inr go ↦ rw go (
          init_levels-IsFilled make level n_block size_bucket i (end - cur) (flag_start + cur) _
            (omega arith) start filled)
    ]

InNode-empty : (level k n : ℕ) (b : Block) → InNode level k (replicate n (erase_bid b))
InNode-empty level k zero b = tt
InNode-empty level k (suc n) b = ((λ r. absurd (cc)), InNode-empty level k n b)

AllOnWay-empty : (level k n m : ℕ) (b : Block) → AllOnWay level k (empty_tree n m b)
AllOnWay-empty level k zero m b = tt
AllOnWay-empty level k (suc n) m b = (InNode-empty level k m b, AllOnWay-empty level (k + 1) n m b)

-- A tree of the size that `readPath` and `pushPath` take, with each block on the way to its leaf, and
-- a well-formed stash.
pub record IsSetUp (sk : Sketch) : Type 0 where
  pub full : length sk.obliv_sk ≡ 2 ^ suc sk.level - 1
  pub placed : AllOnWay sk.level 0 sk.obliv_sk
  pub stash : IsStash sk.stash

set_up-IsSetUp : (inp : Inputs) (sk : Sketch) → IsSetUp (set_up inp sk)
unfolding set_up
set_up-IsSetUp inp sk =
    let n_bucket = 2 ^ suc sk.level - 1 in
    let start : Filling = record {
      tree = empty_tree n_bucket sk.size_bucket inp.fresh_block;
      pos_map = inp.fresh_pos_map;
      n_failed = 0;
    } in
    let empty : IsFilled sk.level start = (
      AllOnWay-empty sk.level 0 n_bucket sk.size_bucket inp.fresh_block,
      length-replicate n_bucket (replicate sk.size_bucket (erase_bid inp.fresh_block)),
    ) in
    let h =
      init_levels-IsFilled _ sk.level sk.n_block sk.size_bucket (suc sk.level) n_bucket 0 start
        (omega arith) refl empty in
    record { full = h.1; placed = h.0; stash = init_stash-IsStash inp.fresh_block }

above : (a b : ℕ) → b < a → leb a b ≡ false
above a b h = ground arith

-- `Init_OCU` succeeds for every level below 16. The tree has then the size that `readPath` and
-- `pushPath` take, each block in it lies on the way to its leaf, and the stash is well formed.
pub init_ocu_lem :
    (w_sk size_bl size_bk : ℕ) (comp_stash : Bool) (inp : Inputs) (sk : Sketch)
    → (size_up w_sk size_bl size_bk comp_stash sk).level < 16
    → ((init_ocu w_sk size_bl size_bk comp_stash inp sk).ok ≡ true)
      × IsSetUp (init_ocu w_sk size_bl size_bk comp_stash inp sk).sketch
unfolding init_ocu
init_ocu_lem w_sk size_bl size_bk comp_stash inp sk lt =
    let sized = size_up w_sk size_bl size_bk comp_stash sk in
    let small : leb 16 sized.level ≡ false = above 16 sized.level lt in
    rw small (refl, set_up-IsSetUp inp sized)

below : (a b : ℕ) → leb a b ≡ not (ltb b a)
below a b = ground arith

-- A constructor leaves a sketch that `initOK` accepts if and only if the level fits: below 16.
pub open_sketch_lem :
    (t : SketchType) (w_sk size_bl size_bk : ℕ) (comp_stash : Bool) (inp : Inputs) (sk : Sketch)
    → init_ok (record sk { sketch_type = t }) ≡ true
    → init_ok (open_sketch t w_sk size_bl size_bk comp_stash inp sk)
      ≡ ltb (size_up w_sk size_bl size_bk comp_stash (record sk { sketch_type = t })).level 16
unfolding open_sketch init_ocu init_ok size_up set_up
open_sketch_lem t w_sk size_bl size_bk comp_stash inp sk known =
    let level = floor_log2 (n_block_of t w_sk size_bl sk.n_block) in
    elim (Bool-cases (ltb level 16)) [
      | inl fits ↦
          let small : leb 16 level ≡ false = below 16 level ∙ ap not fits in rw (small, fits) known
      | inr too_many ↦
          let large : leb 16 level ≡ true = below 16 level ∙ ap not too_many in
          rw (large, too_many) refl
    ]
