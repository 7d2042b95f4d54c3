-- ===== src/Oram/Access/Conserves.antt =====
-- One access of the path ORAM: the block is found and remapped, and nothing is lost.
use mathlib.Core.List.Perm
use mathlib.Core.List.{Mem}
use fosketch.Prelude.{
  ℕ, suc, ◌+◌, ◌-◌, ◌^◌, ◌≤◌, ◌<◌, ◌≡◌, ◌≢◌, refl, ap, ◌∙◌, true, List, ◌++◌, Perm, arith, length,
  get_or,
}
use fosketch.Oram.Block.{Block, Bucket, reals, blocks, dummy_flag}
use fosketch.Oram.Sketch.{Sketch}
use fosketch.Oram.Stash.{max_stash_num, pace_stash, o_write_to_stash}
use fosketch.Oram.Stash.Places.{IsStash}
use fosketch.Oram.Stash.Path.{o_write_to_stash_keeps, o_write_to_stash_places}
use fosketch.Oram.Read.{Read, o_read_from_stash}
use fosketch.Oram.Read.Lookup.{read_from_stash_hit, read_from_stash_variants}
use fosketch.Oram.Evict.{o_rebuild_stash}
use fosketch.Oram.Evict.Compress.{IdsFit}
use fosketch.Oram.Evict.Keeps.{o_rebuild_stash_keeps}
use fosketch.Oram.Tree.{read_path, push_path}
use fosketch.Oram.Tree.Copy.{read_path-push_path, length-read_path, length-push_path}
use fosketch.Oram.Access.{run_access, bid_of, o_access}
use fosketch.Oram.Access.Leaf.{lookup_leaf_lem}
use fosketch.Oram.Access.Content.{
  content, contents, has, has-perm, has-reals, find-First, contents-set, contents-Mem, IdsFit-set,
  IsStash-set, IdsFit-insert_path,
}

-- What the access to the block `bid` on the way to `leaf` asks of the sketch.
pub record Ready (bid leaf : ℕ) (sk : Sketch) : Type 0 where
  pub in_tree : leaf < 2 ^ sk.level
  pub full : length sk.obliv_sk ≡ 2 ^ suc sk.level - 1
  pub ok : IsStash sk.stash
  pub path_ids : IdsFit (blocks (read_path sk.level leaf sk.obliv_sk))
  pub stash_ids : IdsFit sk.stash.slots
  pub room :
      length (reals (blocks (read_path sk.level leaf sk.obliv_sk)))
        + length (reals sk.stash.slots)
        + pace_stash
      ≤ max_stash_num
  pub real : bid ≢ dummy_flag
  pub present :
      has bid (reals (blocks (read_path sk.level leaf sk.obliv_sk)) ++ reals sk.stash.slots) ≡ true

-- The blocks of a path and of the stash, without their leaves.
abbrev pub within_reach : (level leaf : ℕ) → Sketch → List (ℕ × List ℕ)
within_reach level leaf sk =
    contents (reals (blocks (read_path level leaf sk.obliv_sk)) ++ reals sk.stash.slots)

-- The lookup after the path is in the stash.
pub record Looked (bid pos : ℕ) (sk : Sketch) (r : Read) : Type 0 where
  pub found : r.found ≡ true
  pub named : r.buffer.bid ≡ bid
  pub moved : r.buffer.pos ≡ pos
  pub held : Mem (content r.buffer) (contents (reals sk.stash.slots))
  pub ok : IsStash r.sketch.stash
  pub ids : IdsFit r.sketch.stash.slots
  pub same : contents (reals r.sketch.stash.slots) ≡ contents (reals sk.stash.slots)
  pub tree : r.sketch.obliv_sk ≡ sk.obliv_sk
  pub level : r.sketch.level ≡ sk.level

o_read_from_stash-Looked :
    (bid pos : ℕ) (b : Block) (sk : Sketch)
    → bid ≢ dummy_flag
    → IsStash sk.stash
    → IdsFit sk.stash.slots
    → has bid sk.stash.slots ≡ true
    → Looked bid pos sk (o_read_from_stash bid pos b sk)
o_read_from_stash-Looked bid pos b sk real ok ids h =
    let f = find-First bid sk.stash.length_st 0 sk.stash.slots real ok.beyond h in
    let run =
      (read_from_stash_variants bid pos b sk).0
      ∙ read_from_stash_hit bid pos f.place b f.block sk (omega (arith, f.searched)) f.at f.named
          f.before in
    rw run (record {
      found = refl;
      named = f.named;
      moved = refl;
      held = contents-Mem sk.stash.slots f.place f.block f.at (ground (arith, f.named, real));
      ok = IsStash-set sk.stash f.place pos f.block f.at ok;
      ids = IdsFit-set f.place pos sk.stash.slots f.block f.at ids;
      same = contents-set sk.stash.slots f.place pos f.block f.at;
      tree = refl;
      level = refl;
    })

same_path :
    (p q : List Bucket) (ss : List Block) (x : List (ℕ × List ℕ))
    → p ≡ q
    → Perm (contents (reals (blocks q) ++ reals ss)) x
    → Perm (contents (reals (blocks p) ++ reals ss)) x
same_path p q ss x e h = rw e h

-- What the access leaves.
pub record Accessed (bid leaf pos : ℕ) (sk : Sketch) (r : Read) : Type 0 where
  pub found : r.found ≡ true
  pub named : r.buffer.bid ≡ bid
  pub moved : r.buffer.pos ≡ pos
  pub held : Mem (content r.buffer) (within_reach sk.level leaf sk)
  pub ok : IsStash r.sketch.stash
  pub full : length r.sketch.obliv_sk ≡ 2 ^ suc sk.level - 1
  pub conserved : Perm (within_reach sk.level leaf r.sketch) (within_reach sk.level leaf sk)

run_access_keeps :
    (bid leaf pos : ℕ) (buffer : Block) (sk : Sketch)
    → Ready bid leaf sk
    → Accessed bid leaf pos sk
        (run_access o_write_to_stash o_read_from_stash o_rebuild_stash bid leaf pos buffer sk)
unfolding run_access
run_access_keeps bid leaf pos buffer sk ready =
    let path = read_path sk.level leaf sk.obliv_sk in
    let st1 = o_write_to_stash (blocks path) sk.stash in
    let sk1 : Sketch = record sk { stash = st1 } in
    let w = o_write_to_stash_keeps (blocks path) sk.stash ready.ok ready.room in
    let places = o_write_to_stash_places (blocks path) sk.stash ready.ok ready.room in
    let ids : IdsFit st1.slots =
      rw places (IdsFit-insert_path (blocks path) sk.stash.slots ready.path_ids ready.stash_ids) in
    let here = has-reals bid st1.slots (has-perm bid w.1 ∙ ready.present) in
    let r = o_read_from_stash bid pos buffer sk1 in
    let looked = o_read_from_stash-Looked bid pos buffer sk1 ready.real w.0 ids here in
    let e = o_rebuild_stash path leaf r.sketch in
    let kept = o_rebuild_stash_keeps path leaf r.sketch looked.ok looked.ids in
    let size = ap length (kept.tree ∙ looked.tree) ∙ ready.full in
    let back =
      read_path-push_path sk.level leaf e.path e.sketch.obliv_sk ready.in_tree
        (kept.levels ∙ length-read_path sk.level leaf sk.obliv_sk ready.in_tree) size in
    let all : Perm (contents (reals (blocks e.path) ++ reals e.sketch.stash.slots))
        (within_reach sk.level leaf sk) =
      Perm.trans (Perm.map content kept.conserved) (rw looked.same (Perm.map content w.1)) in
    let tree' = push_path sk.level leaf e.path e.sketch.obliv_sk in
    let tree_path = read_path sk.level leaf tree' in
    let conserved' : Perm
        (contents (reals (blocks (read_path sk.level leaf tree')) ++ reals e.sketch.stash.slots))
        (within_reach sk.level leaf sk) =
      same_path tree_path e.path e.sketch.stash.slots _ back all in
    record {
      found = looked.found;
      named = looked.named;
      moved = looked.moved;
      held = (Perm.mem_iff (Perm.map content w.1)).0 looked.held;
      ok = kept.ok;
      full = length-push_path sk.level leaf e.path e.sketch.obliv_sk ∙ size;
      conserved = conserved';
    }

same_result :
    (bid leaf pos : ℕ) (sk : Sketch) (r r' : Read)
    → r ≡ r'
    → Accessed bid leaf pos sk r'
    → Accessed bid leaf pos sk r
same_result bid leaf pos sk r r' e h = rw e h

o_access-run_access :
    (index pos : ℕ) (buffer : Block) (sk : Sketch)
    → bid_of sk index < sk.n_block
    → o_access index pos buffer sk
      ≡ run_access o_write_to_stash o_read_from_stash o_rebuild_stash
          (bid_of sk index)
          (get_or sk.pos_map (bid_of sk index) 0)
          pos
          buffer
          sk
unfolding o_access
o_access-run_access index pos buffer sk lt =
    let bid = bid_of sk index in
    ap (λ l. run_access o_write_to_stash o_read_from_stash o_rebuild_stash bid l pos buffer sk)
      (lookup_leaf_lem sk.pos_map sk.n_block bid lt).0

pub o_access_keeps :
    (index pos : ℕ) (buffer : Block) (sk : Sketch)
    → bid_of sk index < sk.n_block
    → Ready (bid_of sk index) (get_or sk.pos_map (bid_of sk index) 0) sk
    → Accessed
        (bid_of sk index)
        (get_or sk.pos_map (bid_of sk index) 0)
        pos
        sk
        (o_access index pos buffer sk)
o_access_keeps index pos buffer sk lt ready =
    let bid = bid_of sk index in
    let leaf = get_or sk.pos_map bid 0 in
    same_result bid leaf pos sk _ _ (o_access-run_access index pos buffer sk lt)
      (run_access_keeps bid leaf pos buffer sk ready)
