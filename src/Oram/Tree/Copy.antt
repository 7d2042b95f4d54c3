-- ===== src/Oram/Tree/Copy.antt =====
-- The copies of a path out of the tree and into it: they undo each other and touch nothing else.
use fosketch.Prelude.{
  ℕ, zero, suc, ◌+◌, ◌-◌, ◌/◌, ◌^◌, ◌≤◌, ◌<◌, ◌≡◌, ◌≢◌, refl, sym, ap, ap₂, ◌∙◌, List, [], ◌∷◌,
  arith, length, get_elem?, get_or, set, length-set, get_elem?-set_ne,
}
use native.Mathlib.Nat.{two-pow-succ, div-le_self, le-div_iff_mul-le, pow-le-pow_right}
use fosketch.Oram.Block.{Bucket}
use fosketch.Oram.Tree.{descend, read_path, push_path, push_levels}
use fosketch.Oram.Tree.Path.{
  node, nodes, node-half, two_pow-pos, read_at, write_at, read_path-nodes, push_path-nodes,
}

module _ {ℓ} {A : Type ℓ} where
  get_or-set_self : (xs : List A) (i : ℕ) (v d : A) → i < length xs → get_or (set xs i v) i d ≡ v
  get_or-set_self [] i v d h = absurd (omega arith)
  get_or-set_self (x ∷ xs) zero v d h = refl
  get_or-set_self (x ∷ xs) (suc i) v d h = get_or-set_self xs i v d (omega arith)

  get_or-set_ne :
      (xs : List A) (i j : ℕ) (v d : A) → i ≢ j → get_or (set xs i v) j d ≡ get_or xs j d
  get_or-set_ne [] i j v d h = refl
  get_or-set_ne (x ∷ xs) zero zero v d h = absurd (h refl)
  get_or-set_ne (x ∷ xs) zero (suc j) v d h = refl
  get_or-set_ne (x ∷ xs) (suc i) zero v d h = refl
  get_or-set_ne (x ∷ xs) (suc i) (suc j) v d h = get_or-set_ne xs i j v d (λ e. h (ap suc e))

  set-get_or : (xs : List A) (i : ℕ) (d : A) → set xs i (get_or xs i d) ≡ xs
  set-get_or [] i d = refl
  set-get_or (x ∷ xs) zero d = refl
  set-get_or (x ∷ xs) (suc i) d = ap (◌∷◌ x) (set-get_or xs i d)

-- The nodes go up, and stay within the tree.
abbrev Climbs : (b top : ℕ) → List ℕ → Type 0
Climbs b top [] = Unit {0}
Climbs b top (d ∷ ds) = (b < d) × (d ≤ top) × Climbs d top ds

Climbs-weaken : (a b top : ℕ) (ds : List ℕ) → a ≤ b → Climbs b top ds → Climbs a top ds
Climbs-weaken a b top [] le c = tt
Climbs-weaken a b top (d ∷ ds) le c = (omega (arith, c.0), c.1, c.2)

node-bounds :
    (level leaf n : ℕ)
    → leaf < 2 ^ level
    → n ≤ level
    → (0 < node level leaf n) × (node level leaf n < 2 ^ suc level)
node-bounds level leaf n lt le =
    let double = two-pow-succ level in
    let smaller = div-le_self (leaf + 2 ^ level) (2 ^ n) in
    let monotone = pow-le-pow_right {n = 2} (omega arith) le in
    (
      (le-div_iff_mul-le (two_pow-pos n)).1 (omega (arith, monotone)),
      omega (arith, double, smaller),
    )

nodes-Climbs :
    (level leaf n : ℕ)
    → leaf < 2 ^ level
    → n ≤ level
    → Climbs (node level leaf n) (2 ^ suc level - 1) (nodes level leaf n)
unfolding nodes
nodes-Climbs level leaf zero lt le = tt
nodes-Climbs level leaf (suc n) lt le =
    let b = node-bounds level leaf n lt (omega arith) in
    let h = node-half level leaf n in
    (omega (arith, b.0), omega (arith, b.1), nodes-Climbs level leaf n lt (omega arith))

-- A write below leaves the reads above as they are.
read_at-set :
    (b top : ℕ) (ds : List ℕ) (tree : List Bucket) (v : Bucket)
    → 0 < b
    → Climbs b top ds
    → read_at ds (set tree (b - 1) v) ≡ read_at ds tree
unfolding read_at
read_at-set b top [] tree v pos c = refl
read_at-set b top (d ∷ ds) tree v pos c =
    ap₂ ◌∷◌ (get_or-set_ne tree (b - 1) (d - 1) v [] (λ e. absurd (omega (arith, c.0))))
      (read_at-set b top ds tree v pos (Climbs-weaken b d top ds (omega (arith, c.0)) c.2))

-- Reads below a path do not see what is written along it.
get_or-write_at :
    (b top : ℕ) (ds : List ℕ) (path tree : List Bucket)
    → 0 < b
    → Climbs b top ds
    → get_or (write_at ds path tree) (b - 1) [] ≡ get_or tree (b - 1) []
unfolding write_at
get_or-write_at b top [] path tree pos c = refl
get_or-write_at b top (d ∷ ds) [] tree pos c = refl
get_or-write_at b top (d ∷ ds) (v ∷ path) tree pos c =
    get_or-write_at b top ds path (set tree (d - 1) v) pos
      (Climbs-weaken b d top ds (omega (arith, c.0)) c.2)
    ∙ get_or-set_ne tree (d - 1) (b - 1) v [] (λ e. absurd (omega (arith, c.0)))

read_at-write_at :
    (b top : ℕ) (ds : List ℕ) (path tree : List Bucket)
    → Climbs b top ds
    → length path ≡ length ds
    → top ≤ length tree
    → read_at ds (write_at ds path tree) ≡ path
unfolding read_at write_at
read_at-write_at b top [] [] tree c e le = refl
read_at-write_at b top [] (v ∷ path) tree c e le = absurd (omega arith)
read_at-write_at b top (d ∷ ds) [] tree c e le = absurd (omega arith)
read_at-write_at b top (d ∷ ds) (v ∷ path) tree c e le =
    let tree' = set tree (d - 1) v in
    let len = length-set tree (d - 1) v in
    let head = get_or-write_at d top ds path tree' (omega (arith, c.0)) c.2 in
    ap₂ ◌∷◌ (head ∙ get_or-set_self tree (d - 1) v [] (omega (arith, c.0, c.1)))
      (read_at-write_at d top ds path tree' c.2 (omega arith) (omega arith))

write_at-read_at :
    (b top : ℕ) (ds : List ℕ) (tree : List Bucket)
    → Climbs b top ds
    → write_at ds (read_at ds tree) tree ≡ tree
unfolding read_at write_at
write_at-read_at b top [] tree c = refl
write_at-read_at b top (d ∷ ds) tree c =
    ap (write_at ds (read_at ds tree)) (set-get_or tree (d - 1) [])
    ∙ write_at-read_at d top ds tree c.2

length-nodes : (level leaf n : ℕ) → length (nodes level leaf n) ≡ n
unfolding nodes
length-nodes level leaf zero = refl
length-nodes level leaf (suc n) = ap suc (length-nodes level leaf n)

length-read_at : (ds : List ℕ) (tree : List Bucket) → length (read_at ds tree) ≡ length ds
unfolding read_at
length-read_at [] tree = refl
length-read_at (d ∷ ds) tree = ap suc (length-read_at ds tree)

all-Climb :
    (level leaf : ℕ)
    → leaf < 2 ^ level
    → Climbs 0 (2 ^ suc level - 1) (nodes level leaf (suc level))
unfolding nodes
all-Climb level leaf lt =
    let b = node-bounds level leaf level lt (omega arith) in
    (b.0, omega (arith, b.1), nodes-Climbs level leaf level lt (omega arith))

pub length-read_path :
    (level leaf : ℕ) (tree : List Bucket)
    → leaf < 2 ^ level
    → length (read_path level leaf tree) ≡ suc level
length-read_path level leaf tree lt =
    ap length (read_path-nodes level leaf tree lt)
    ∙ length-read_at (nodes level leaf (suc level)) tree
    ∙ length-nodes level leaf (suc level)

length-push_levels :
    (delta mask leaf : ℕ) (path tree : List Bucket)
    → length (push_levels delta mask leaf path tree) ≡ length tree
unfolding push_levels
length-push_levels delta mask leaf [] tree = refl
length-push_levels delta mask leaf (b ∷ path) tree =
    let d = descend delta mask leaf in
    length-push_levels d (mask / 2) leaf path (set tree (d - 1) b) ∙ length-set tree (d - 1) b

pub length-push_path :
    (level leaf : ℕ) (path tree : List Bucket)
    → length (push_path level leaf path tree) ≡ length tree
unfolding push_path
length-push_path level leaf [] tree = refl
length-push_path level leaf (b ∷ path) tree =
    length-push_levels 1 (2 ^ (level - 1)) leaf path (set tree 0 b) ∙ length-set tree 0 b

-- In a tree of 2^(level+1) - 1 buckets, a path of level + 1 buckets that is written is read back.
pub read_path-push_path :
    (level leaf : ℕ) (path tree : List Bucket)
    → leaf < 2 ^ level
    → length path ≡ suc level
    → length tree ≡ 2 ^ suc level - 1
    → read_path level leaf (push_path level leaf path tree) ≡ path
read_path-push_path level leaf path tree lt len size =
    read_path-nodes level leaf (push_path level leaf path tree) lt
    ∙ ap (read_at (nodes level leaf (suc level))) (push_path-nodes level leaf path tree lt len)
    ∙ read_at-write_at 0 (2 ^ suc level - 1) (nodes level leaf (suc level)) path tree
        (all-Climb level leaf lt) (len ∙ sym (length-nodes level leaf (suc level))) (omega arith)

-- Writing back the path that was read changes nothing.
pub push_path-read_path :
    (level leaf : ℕ) (tree : List Bucket)
    → leaf < 2 ^ level
    → push_path level leaf (read_path level leaf tree) tree ≡ tree
push_path-read_path level leaf tree lt =
    push_path-nodes level leaf (read_path level leaf tree) tree lt
      (length-read_path level leaf tree lt)
    ∙ ap (λ p. write_at (nodes level leaf (suc level)) p tree) (read_path-nodes level leaf tree lt)
    ∙ write_at-read_at 0 (2 ^ suc level - 1) (nodes level leaf (suc level)) tree
        (all-Climb level leaf lt)

get_elem?-write_at :
    (level leaf n k : ℕ) (path tree : List Bucket)
    → leaf < 2 ^ level
    → n ≤ suc level
    → ((up : ℕ) → up < n → node level leaf up ≢ suc k)
    → get_elem? (write_at (nodes level leaf n) path tree) k ≡ get_elem? tree k
unfolding write_at nodes
get_elem?-write_at level leaf zero k path tree lt le h = refl
get_elem?-write_at level leaf (suc n) k [] tree lt le h = refl
get_elem?-write_at level leaf (suc n) k (b ∷ path) tree lt le h =
    let d = node level leaf n in
    let pos = node-bounds level leaf n lt (omega arith) in
    get_elem?-write_at level leaf n k path (set tree (d - 1) b) lt (omega arith)
      (λ up l. h up (omega arith))
    ∙ get_elem?-set_ne tree (d - 1) k b (λ e. h n (omega arith) (omega (arith, pos.0)))

-- A bucket that is no ancestor of the leaf keeps its blocks.
pub push_path-elsewhere :
    (level leaf k : ℕ) (path tree : List Bucket)
    → leaf < 2 ^ level
    → length path ≡ suc level
    → ((up : ℕ) → up ≤ level → (leaf + 2 ^ level) / 2 ^ up ≢ suc k)
    → get_elem? (push_path level leaf path tree) k ≡ get_elem? tree k
push_path-elsewhere level leaf k path tree lt len h =
    ap (λ t. get_elem? t k) (push_path-nodes level leaf path tree lt len)
    ∙ get_elem?-write_at level leaf (suc level) k path tree lt (omega arith)
        (λ up l. h up (omega arith))
