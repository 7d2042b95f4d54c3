-- ===== src/Oram/Tree.antt =====
-- The tree of buckets `OblivSK` and the methods that copy a path of it out and in: `readPath` and
-- `pushPath`. A path is a list of buckets, the root's first.
pub mod Path
pub mod Copy
use fosketch.Prelude.{
  ℕ, zero, suc, ◌+◌, ◌-◌, ◌*◌, ◌/◌, ◌%◌, ◌^◌, Bool, List, [], ◌∷◌, get_or, set, ◌==◌, if◌then◌else◌,
}
use fosketch.Oram.Block.{Bucket}

-- `delta *= 2; if(mask & leaf) delta++;`, where `mask` is a power of two.
abbrev pub descend : (delta mask leaf : ℕ) → ℕ
descend delta mask leaf = if leaf / mask % 2 == 1 then delta * 2 + 1 else delta * 2

-- The loop from the level below `delta`, with `n` levels to go.
pub read_levels : (n delta mask leaf : ℕ) → List Bucket → List Bucket
read_levels zero delta mask leaf tree = []
read_levels (suc n) delta mask leaf tree =
    let d = descend delta mask leaf in get_or tree (d - 1) [] ∷ read_levels n d (mask / 2) leaf tree

unfoldable pub read_path : (level leaf : ℕ) → List Bucket → List Bucket
unfolding read_levels
read_path level leaf tree = get_or tree 0 [] ∷ read_levels level 1 (2 ^ (level - 1)) leaf tree

pub push_levels : (delta mask leaf : ℕ) → List Bucket → List Bucket → List Bucket
push_levels delta mask leaf [] tree = tree
push_levels delta mask leaf (b ∷ path) tree =
    let d = descend delta mask leaf in push_levels d (mask / 2) leaf path (set tree (d - 1) b)

unfoldable pub push_path : (level leaf : ℕ) → List Bucket → List Bucket → List Bucket
unfolding push_levels
push_path level leaf [] tree = tree
push_path level leaf (b ∷ path) tree = push_levels 1 (2 ^ (level - 1)) leaf path (set tree 0 b)

-- The `delta` that both methods assert at the end.
unfoldable pub last_delta : (n delta mask leaf : ℕ) → ℕ
last_delta zero delta mask leaf = delta
last_delta (suc n) delta mask leaf = last_delta n (descend delta mask leaf) (mask / 2) leaf
