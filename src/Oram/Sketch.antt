-- ===== src/Oram/Sketch.antt =====
-- The fields of `class FOSketch` that its methods read and change once `Init_OCU` has set them up.
use fosketch.Prelude.{ℕ, Bool, List, ◌/◌, ◌^◌, ◌==◌}
use fosketch.Oram.Block.{Bucket}
use fosketch.Oram.Stash.{Stash}

-- `sketchType`: 'X' is a sketch that is not set up.
pub data SketchType : Type 0 where
  broken : SketchType
  light : SketchType
  cu_sketch : SketchType
  stash_table : SketchType

pub record Sketch : Type 0 where
  pub sketch_type : SketchType
  pub size_block : ℕ
  pub size_bucket : ℕ
  pub level : ℕ
  pub n_record : ℕ
  pub payload_ind : ℕ
  pub n_block : ℕ
  pub need_com_stash : Bool
  pub global_set_oblivious : Bool
  pub global_added : ℕ
  -- the leaf of each block
  pub pos_map : List ℕ
  pub stash : Stash
  -- `OblivSK`, bucket by bucket
  pub obliv_sk : List Bucket

-- `pos >> (level - i)`
abbrev pub ancestor : ℕ → ℕ → ℕ
ancestor up leaf = leaf / 2 ^ up

-- May a block mapped to `pos` lie in the bucket that is `up` levels above `leaf`?
abbrev pub shares : (up leaf pos : ℕ) → Bool
shares up leaf pos = ancestor up pos == ancestor up leaf
