-- ===== src/Oram/Tree/Path.antt =====
-- Where the copies of a path go: the nodes that `readPath` and `pushPath` visit, counted from 1.
use native.Mathlib.Nat.{
  pow-suc, mul_assoc, one-le-pow, add-mul-div_right, div-div-eq-div-mul, div-eq_of_lt-le, div-one,
}
use fosketch.Prelude.{
  ℕ, zero, suc, ◌+◌, ◌-◌, ◌*◌, ◌/◌, ◌^◌, ◌≤◌, ◌<◌, ◌≡◌, refl, sym, ap, ap₂, ◌∙◌, List, [], ◌∷◌,
  arith, length, get_or, set,
}
use fosketch.Oram.Block.{Bucket}
use fosketch.Oram.Tree.{descend, read_levels, read_path, push_levels, push_path, last_delta}

-- The node `up` levels above the leaf.
abbrev pub node : (level leaf up : ℕ) → ℕ
node level leaf up = (leaf + 2 ^ level) / 2 ^ up

-- The last `n` nodes on the way down.
unfoldable pub nodes : (level leaf n : ℕ) → List ℕ
nodes level leaf zero = []
nodes level leaf (suc n) = node level leaf n ∷ nodes level leaf n

pub two_pow-pos : (n : ℕ) → 0 < 2 ^ n
two_pow-pos n = one-le-pow n 2 (omega arith)

pub node-half : (level leaf n : ℕ) → node level leaf (suc n) ≡ node level leaf n / 2
node-half level leaf n =
    ap (λ m. (leaf + 2 ^ level) / m) (pow-suc 2 n)
    ∙ sym (div-div-eq-div-mul (leaf + 2 ^ level) (2 ^ n) 2)

pub pow_split : (n m : ℕ) → 2 ^ (n + m) ≡ 2 ^ m * 2 ^ n
pow_split zero m = let e : 0 + m ≡ m = omega arith in rw e (omega arith)
pow_split (suc n) m =
    let s : suc n + m ≡ suc (n + m) = omega arith in
    ap (λ k. 2 ^ k) s
    ∙ pow-suc 2 (n + m)
    ∙ ap (λ k. k * 2) (pow_split n m)
    ∙ mul_assoc (2 ^ m) (2 ^ n) 2
    ∙ ap (λ k. 2 ^ m * k) (sym (pow-suc 2 n))

-- Below the root, the bit of the leaf is the bit of the node.
node-bit : (level leaf n m : ℕ) → level ≡ suc n + m → node level leaf n ≡ leaf / 2 ^ n + 2 ^ m * 2
node-bit level leaf n m e =
    let k : level ≡ n + suc m = omega arith in
    let p : 2 ^ level ≡ 2 ^ m * 2 * 2 ^ n =
      ap (λ j. 2 ^ j) k ∙ pow_split n (suc m) ∙ ap (λ j. j * 2 ^ n) (pow-suc 2 m) in
    rw p (add-mul-div_right leaf (2 ^ m * 2) (two_pow-pos n))

pub descend-node :
    (level leaf n : ℕ)
    → n < level
    → descend (node level leaf (suc n)) (2 ^ n) leaf ≡ node level leaf n
descend-node level leaf n lt =
    let h = node-half level leaf n in
    let b = node-bit level leaf n (level - suc n) (omega arith) in ground arith

pub node-root : (level leaf : ℕ) → leaf < 2 ^ level → node level leaf level ≡ 1
node-root level leaf lt = div-eq_of_lt-le (2 ^ level) (omega arith) (omega arith)

pub node-leaf : (level leaf : ℕ) → node level leaf 0 ≡ leaf + 2 ^ level
node-leaf level leaf = div-one (leaf + 2 ^ level)

mask-half : (n : ℕ) → 2 ^ suc n / 2 ≡ 2 ^ n
mask-half n = let e = pow-suc 2 n in omega (arith, e)

-- The nodes that the loops come to, in the order in which they come to them.
unfoldable pub visit : (n delta mask leaf : ℕ) → List ℕ
visit zero delta mask leaf = []
visit (suc n) delta mask leaf = let d = descend delta mask leaf in d ∷ visit n d (mask / 2) leaf

-- `mask` is the bit for the next of the `n` levels that are left.
abbrev IsMask : (n mask : ℕ) → Type 0
IsMask n mask = (m : ℕ) → n ≡ suc m → mask ≡ 2 ^ m

IsMask-half : (n mask : ℕ) → IsMask (suc n) mask → IsMask n (mask / 2)
IsMask-half n mask h m e = ap (λ x. x / 2) (h n refl ∙ ap (λ k. 2 ^ k) e) ∙ mask-half m

IsMask-first : (level : ℕ) → IsMask level (2 ^ (level - 1))
IsMask-first level m e = ap (λ k. 2 ^ k) (omega arith)

step-node :
    (level leaf n mask : ℕ)
    → n < level
    → IsMask (suc n) mask
    → descend (node level leaf (suc n)) mask leaf ≡ node level leaf n
step-node level leaf n mask lt h =
    ap (λ m. descend (node level leaf (suc n)) m leaf) (h n refl) ∙ descend-node level leaf n lt

visit-nodes :
    (level leaf n mask : ℕ)
    → n ≤ level
    → IsMask n mask
    → visit n (node level leaf n) mask leaf ≡ nodes level leaf n
unfolding visit nodes
visit-nodes level leaf zero mask le h = refl
visit-nodes level leaf (suc n) mask le h =
    let d = step-node level leaf n mask le h in
    let ih = visit-nodes level leaf n (mask / 2) (omega arith) (IsMask-half n mask h) in
    ap₂ ◌∷◌ d (ap (λ d. visit n d (mask / 2) leaf) d ∙ ih)

last_delta-node :
    (level leaf n mask : ℕ)
    → n ≤ level
    → IsMask n mask
    → last_delta n (node level leaf n) mask leaf ≡ leaf + 2 ^ level
unfolding last_delta
last_delta-node level leaf zero mask le h = node-leaf level leaf
last_delta-node level leaf (suc n) mask le h =
    let d = step-node level leaf n mask le h in
    let ih = last_delta-node level leaf n (mask / 2) (omega arith) (IsMask-half n mask h) in
    ap (λ d. last_delta n d (mask / 2) leaf) d ∙ ih

-- The loops of `readPath` and `pushPath` end at the node of the leaf, as both assert.
pub last_delta_lem :
    (level leaf : ℕ)
    → leaf < 2 ^ level
    → last_delta level 1 (2 ^ (level - 1)) leaf ≡ leaf + 2 ^ level
last_delta_lem level leaf lt =
    ap (λ d. last_delta level d (2 ^ (level - 1)) leaf) (sym (node-root level leaf lt))
    ∙ last_delta-node level leaf level (2 ^ (level - 1)) (omega arith) (IsMask-first level)

-- Copies by a list of nodes.
unfoldable pub read_at : List ℕ → List Bucket → List Bucket
read_at [] tree = []
read_at (d ∷ ds) tree = get_or tree (d - 1) [] ∷ read_at ds tree

unfoldable pub write_at : List ℕ → List Bucket → List Bucket → List Bucket
write_at [] path tree = tree
write_at (d ∷ ds) [] tree = tree
write_at (d ∷ ds) (b ∷ path) tree = write_at ds path (set tree (d - 1) b)

read_levels-visit :
    (n delta mask leaf : ℕ) (tree : List Bucket)
    → read_levels n delta mask leaf tree ≡ read_at (visit n delta mask leaf) tree
unfolding read_levels read_at visit
read_levels-visit zero delta mask leaf tree = refl
read_levels-visit (suc n) delta mask leaf tree =
    ap (◌∷◌ (get_or tree (descend delta mask leaf - 1) []))
      (read_levels-visit n (descend delta mask leaf) (mask / 2) leaf tree)

push_levels-visit :
    (delta mask leaf : ℕ) (path tree : List Bucket)
    → push_levels delta mask leaf path tree
      ≡ write_at (visit (length path) delta mask leaf) path tree
unfolding push_levels write_at visit
push_levels-visit delta mask leaf [] tree = refl
push_levels-visit delta mask leaf (b ∷ path) tree =
    let d = descend delta mask leaf in push_levels-visit d (mask / 2) leaf path (set tree (d - 1) b)

-- All nodes of a path, the root first.
pub read_path-nodes :
    (level leaf : ℕ) (tree : List Bucket)
    → leaf < 2 ^ level
    → read_path level leaf tree ≡ read_at (nodes level leaf (suc level)) tree
unfolding read_path read_at nodes
read_path-nodes level leaf tree lt =
    let root = node-root level leaf lt in
    let v = visit-nodes level leaf level (2 ^ (level - 1)) (omega arith) (IsMask-first level) in
    rw root (
      ap (◌∷◌ (get_or tree 0 [])) (
        read_levels-visit level 1 (2 ^ (level - 1)) leaf tree
        ∙ ap (λ ds. read_at ds tree)
            (ap (λ d. visit level d (2 ^ (level - 1)) leaf) (sym root) ∙ v)))

pub push_path-nodes :
    (level leaf : ℕ) (path tree : List Bucket)
    → leaf < 2 ^ level
    → length path ≡ suc level
    → push_path level leaf path tree ≡ write_at (nodes level leaf (suc level)) path tree
unfolding push_path write_at nodes
push_path-nodes level leaf [] tree lt len = absurd (omega arith)
push_path-nodes level leaf (b ∷ path) tree lt len =
    let root = node-root level leaf lt in
    let v = visit-nodes level leaf level (2 ^ (level - 1)) (omega arith) (IsMask-first level) in
    let full : length path ≡ level = omega arith in
    rw root (
      push_levels-visit 1 (2 ^ (level - 1)) leaf path (set tree 0 b)
      ∙ ap (λ ds. write_at ds path (set tree 0 b))
          (ap (λ n. visit n 1 (2 ^ (level - 1)) leaf) full
            ∙ ap (λ d. visit level d (2 ^ (level - 1)) leaf) (sym root)
            ∙ v))
