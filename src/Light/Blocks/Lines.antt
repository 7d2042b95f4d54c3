-- ===== src/Light/Blocks/Lines.antt =====
-- The array of `OUpdateCUSketch_B`, and what is copied back from it.
use native.Mathlib.Nat.{mod-lt, mod-eq_of_lt, mod-add-div}
use fosketch.Prelude.{
  ℕ, zero, suc, ◌+◌, ◌*◌, ◌/◌, ◌%◌, ◌^◌, ◌≤◌, ◌<◌, ◌≡◌, refl, ap, ap₂, ◌∙◌, List, [], ◌∷◌, ◌++◌,
  map, arith, length, ◌==◌, max, drop, get_or, if◌then◌else◌,
}
use fosketch.Counts.{Item}
use fosketch.Oram.Block.{Block, erase_bid, dummy_flag}
use fosketch.Light.Gather.{below, number-append, below-append, best-append, best-none}
use fosketch.Light.Update.{target}
use fosketch.Light.Update.Dump.{greatest}
use fosketch.Light.Blocks.{n_record, light_blocks, heavy_block, heavy_blocks}
use fosketch.Light.Blocks.Gathered.{
  bid_of_block, byte_at, get_or-one_byte, blocks_with, best_byte, blocks_with-light_blocks,
  best_byte-light_blocks, below-light_blocks, blocks_with-padding, below-padding,
}

-- The number of a counter is that of its block and that within the block.
one_cell :
    (q r b j cid cnt : ℕ)
    → r + n_record * q ≡ cid
    → r < n_record
    → j < n_record
    → (if q == b then (if 0 + j == r then cnt else 0) else 0)
      ≡ (if cid == n_record * b + j then cnt else 0)
one_cell q r b j cid cnt whole small small' = ground arith

module _ (hash32 : ℕ → ℕ → ℕ) (cus_hash nb mem : ℕ) (whole_blocks : mem ≡ n_record * nb)
    (some_block : 0 < nb) (few : nb ≤ dummy_flag) where
  abbrev targets : List Item → List Item
  targets = map (target hash32 cus_hash mem)

  -- The id of a heavy flow's block.
  heavy_bid :
      (x : Item)
      → let cid = hash32 x.flow_id cus_hash % mem in
        (cid / n_record % 2 ^ 16 ≡ cid / n_record) × (cid / n_record < nb)
  heavy_bid x =
      let cid = hash32 x.flow_id cus_hash % mem in
      let lt : cid < mem = mod-lt (hash32 x.flow_id cus_hash) (omega (arith, whole_blocks)) in
      let whole = mod-add-div cid n_record in
      let small : cid / n_record < nb = omega (arith, lt, whole, whole_blocks) in
      (mod-eq_of_lt (omega (arith, small)), small)

  pub below-heavy_blocks :
      (j : ℕ) (pos : ℕ → ℕ) (i : ℕ) (heavy : List Item)
      → below bid_of_block (byte_at j) nb (heavy_blocks pos i (targets heavy)) ≡ length heavy
  below-heavy_blocks j pos i [] = refl
  below-heavy_blocks j pos i (x ∷ heavy) =
      ground (arith, heavy_bid x, below-heavy_blocks j pos (i + 1) heavy)

  module _ (j : ℕ) (in_block : j < n_record) where
    -- A heavy flow's block has the flow's size at the flow's counter, and 0 elsewhere.
    one_flow :
        (b p : ℕ) (x : Item)
        → let t = target hash32 cus_hash mem x in
          (if (heavy_block p t).bid == b then byte_at j (heavy_block p t) else 0)
          ≡ (if t.flow_id == n_record * b + j then t.size else 0)
    one_flow b p x =
        let t = target hash32 cus_hash mem x in
        let cid = t.flow_id in
        let id = (heavy_bid x).0 in
        let byte = get_or-one_byte n_record 0 (cid % n_record) t.size j in_block in
        let whole = mod-add-div cid n_record in
        let small : cid % n_record < n_record = mod-lt cid (omega arith) in
        rw id (
          ap (λ v. if cid / n_record == b then v else 0) byte
          ∙ one_cell (cid / n_record) (cid % n_record) b j cid t.size whole small in_block)

    pub best_byte-heavy_blocks :
        (b : ℕ) (pos : ℕ → ℕ) (i : ℕ) (heavy : List Item)
        → best_byte j in_block b (heavy_blocks pos i (targets heavy))
          ≡ greatest (n_record * b + j) (targets heavy)
    best_byte-heavy_blocks b pos i [] = refl
    best_byte-heavy_blocks b pos i (x ∷ heavy) =
        ap₂ max (one_flow b (pos i) x) (best_byte-heavy_blocks b pos (i + 1) heavy)

    module _ (pos : ℕ → ℕ) (junk : List Block) (light : List ℕ) (heavy : List Item) where
      abbrev pub all_blocks : List Block
      all_blocks =
          light_blocks pos nb 0 light ++ (heavy_blocks pos nb (targets heavy) ++ map erase_bid junk)

      pub below-all_blocks : below bid_of_block (byte_at j) nb all_blocks ≡ nb + length heavy
      below-all_blocks =
          let lights = light_blocks pos nb 0 light in
          let heavies = heavy_blocks pos nb (targets heavy) in
          omega (
            arith,
            below-append bid_of_block (byte_at j) nb lights (heavies ++ map erase_bid junk),
            below-append bid_of_block (byte_at j) nb heavies (map erase_bid junk),
            below-light_blocks j in_block nb pos nb 0 light (omega arith) (omega arith),
            below-heavy_blocks j pos nb heavy,
            below-padding j in_block nb junk few,
          )

      pub blocks_with-all_blocks : (b : ℕ) → b < nb → 1 ≤ blocks_with j in_block b all_blocks
      blocks_with-all_blocks b lt = omega (
        arith,
        number-append bid_of_block (byte_at j) b (light_blocks pos nb 0 light)
            (heavy_blocks pos nb (targets heavy) ++ map erase_bid junk),
        blocks_with-light_blocks j in_block b pos nb 0 light (omega arith) (omega arith)
            (omega (arith, lt)),
      )

      pub best_byte-all_blocks :
          (b : ℕ)
          → b < nb
          → best_byte j in_block b all_blocks
            ≡ max (get_or light (n_record * b + j) 0) (greatest (n_record * b + j) (targets heavy))
      best_byte-all_blocks b lt =
          let lights = light_blocks pos nb 0 light in
          let heavies = heavy_blocks pos nb (targets heavy) in
          let at : 0 + b ≡ b = omega arith in
          let none_there = blocks_with-padding j in_block b junk (omega arith) in
          omega (
            arith,
            best-append bid_of_block (byte_at j) b lights (heavies ++ map erase_bid junk),
            best-append bid_of_block (byte_at j) b heavies (map erase_bid junk),
            ap (λ k. best_byte j in_block k lights) at,
            best_byte-light_blocks j in_block b pos nb 0 light (omega arith) lt,
            best_byte-heavy_blocks b pos nb heavy,
            best-none bid_of_block (byte_at j) b (map erase_bid junk) none_there,
          )

pub length-light_blocks :
    (pos : ℕ → ℕ) (n i : ℕ) (light : List ℕ) → length (light_blocks pos n i light) ≡ n
length-light_blocks pos zero i light = refl
length-light_blocks pos (suc n) i light =
    ap suc (length-light_blocks pos n (i + 1) (drop n_record light))

pub length-heavy_blocks :
    (pos : ℕ → ℕ) (i : ℕ) (ts : List Item) → length (heavy_blocks pos i ts) ≡ length ts
length-heavy_blocks pos i [] = refl
length-heavy_blocks pos i (t ∷ ts) = ap suc (length-heavy_blocks pos (i + 1) ts)
