-- ===== src/Tests/Path.antt =====
-- The path ORAM on a tree of three buckets.
use fosketch.Prelude.{
  ℕ, zero, suc, ◌+◌, ◌-◌, ◌/◌, ◌^◌, ◌≡◌, ◌≤◌, ◌≢◌, ap, refl, true, false, List, [], ◌∷◌, ◌++◌, Perm,
  arith, ltb, get_elem?, set, length, replicate, if◌then◌else◌,
}
use fosketch.Oram.Block.{dummy_flag, Block, Bucket, reals, blocks}
use fosketch.Oram.Sketch.{Sketch, cu_sketch}
use fosketch.Oram.Stash.{Stash, init_stash, default_stash_length, o_write_to_stash}
use fosketch.Oram.Stash.Write.{any_dummy}
use fosketch.Oram.Stash.Places.{IsStash, init_stash-IsStash, DummyFrom-within}
use fosketch.Oram.Stash.Path.{o_write_to_stash_keeps, o_write_to_stash_overflow}
use fosketch.Oram.Read.{
  read_from_stash, o_read_from_stash, o_read_from_stash_s, o_read_from_stash_f,
}
use fosketch.Oram.Read.Lookup.{
  made, read_from_stash_variants, read_from_stash_hit, read_from_stash_miss,
}
use fosketch.Oram.Evict.{
  rebuild_stash, o_rebuild_stash, o_rebuild_stash_s, o_rebuild_stash_f, compressed, count_real,
  o_compress_stash,
}
use fosketch.Oram.Evict.Rebuild.{OnPath, rebuild_stash_keeps, rebuild_stash_variants}
use fosketch.Oram.Evict.Compress.{IdsFit, o_compress_stash_keeps}
use fosketch.Oram.Tree.{read_path, push_path, last_delta}
use fosketch.Oram.Tree.Path.{last_delta_lem}
use fosketch.Oram.Tree.Copy.{read_path-push_path, push_path-elsewhere}
use fosketch.Oram.Evict.Keeps.{Kept, o_rebuild_stash_keeps}
use fosketch.Oram.Access.Content.{has}
use fosketch.Oram.Access.Conserves.{Ready}

abbrev pub free : Block
free = record { bid = 65535; pos = 0; payload = 0 ∷ 0 ∷ [] }

abbrev block_0 : Block
block_0 = record { bid = 0; pos = 1; payload = 10 ∷ 11 ∷ [] }

abbrev block_1 : Block
block_1 = record { bid = 1; pos = 0; payload = 20 ∷ 21 ∷ [] }

abbrev tree : List Bucket
tree = (block_0 ∷ free ∷ []) ∷ (free ∷ block_1 ∷ []) ∷ (free ∷ free ∷ []) ∷ []

abbrev two_path : List Bucket
two_path = (block_0 ∷ free ∷ []) ∷ (block_1 ∷ free ∷ []) ∷ []

abbrev fresh : Stash
fresh = init_stash free

abbrev filled : Stash
filled = record { slots = block_0 ∷ block_1 ∷ free ∷ []; length_st = 3 }

abbrev sketch : Sketch
sketch = record {
  sketch_type = cu_sketch;
  size_block = 6;
  size_bucket = 2;
  level = 1;
  n_record = 2;
  payload_ind = 4;
  n_block = 3;
  need_com_stash = true;
  global_set_oblivious = true;
  global_added = 0;
  pos_map = 1 ∷ 0 ∷ 1 ∷ [];
  stash = filled;
  obliv_sk = tree;
}

read_path-push_path_example : read_path 1 1 (push_path 1 1 two_path tree) ≡ two_path
read_path-push_path_example = read_path-push_path 1 1 two_path tree (omega arith) refl refl

no_ancestor : (up : ℕ) → up ≤ 1 → (1 + 2 ^ 1) / 2 ^ up ≢ 2
no_ancestor zero le e = absurd (omega arith)
no_ancestor (suc zero) le e = absurd (omega arith)
no_ancestor (suc (suc up)) le e = absurd (omega arith)

push_path-elsewhere_example : get_elem? (push_path 1 1 two_path tree) 1 ≡ get_elem? tree 1
push_path-elsewhere_example = push_path-elsewhere 1 1 1 two_path tree (omega arith) refl no_ancestor

last_delta_lem_example : last_delta 2 1 (2 ^ (2 - 1)) 3 ≡ 3 + 2 ^ 2
last_delta_lem_example = last_delta_lem 2 3 (omega arith)

reals_two : length (reals (blocks two_path)) ≡ 2
unfolding reals blocks
reals_two = refl

reals_fresh : length (reals fresh.slots) ≡ 0
unfolding reals init_stash
reals_fresh = refl

o_write_to_stash_keeps_example :
    IsStash (o_write_to_stash (blocks two_path) fresh)
    × Perm
        (reals (o_write_to_stash (blocks two_path) fresh).slots)
        (reals (blocks two_path) ++ reals fresh.slots)
o_write_to_stash_keeps_example =
    o_write_to_stash_keeps (blocks two_path) fresh (init_stash-IsStash free)
      (omega (arith, reals_two, reals_fresh))

abbrev crowded : Stash
crowded = record { slots = replicate 105 block_1; length_st = 105 }

crowded-IsStash : IsStash crowded
crowded-IsStash = record {
  whole = refl;
  searched = omega arith;
  inside = omega arith;
  beyond = DummyFrom-within 105 0 (replicate 105 block_1) (omega arith);
}

crowded_full : any_dummy 105 (replicate 105 block_1) ≡ false
unfolding any_dummy
crowded_full = refl

o_write_to_stash_overflow_example :
    ((o_write_to_stash (block_0 ∷ []) crowded).slots ≡ crowded.slots)
    × ((o_write_to_stash (block_0 ∷ []) crowded).length_st + 3 ≡ crowded.length_st)
o_write_to_stash_overflow_example =
    o_write_to_stash_overflow block_0 crowded refl crowded-IsStash (omega arith) crowded_full

read_from_stash_variants_example :
    (o_read_from_stash 1 1 free sketch ≡ read_from_stash 1 1 free sketch)
    × (o_read_from_stash_s 1 1 free sketch ≡ read_from_stash 1 1 free sketch)
    × (o_read_from_stash_f 1 1 free sketch ≡ read_from_stash 1 1 free sketch)
read_from_stash_variants_example = read_from_stash_variants 1 1 free sketch

read_from_stash_hit_example : read_from_stash 1 1 free sketch ≡ record {
  sketch = record sketch {
    pos_map = set sketch.pos_map 1 1;
    stash = record filled { slots = set filled.slots 1 (record block_1 { pos = 1 }) };
  };
  buffer = record block_1 { pos = 1 };
  found = true;
}
read_from_stash_hit_example =
    read_from_stash_hit 1 1 1 free block_1 sketch (omega arith) refl refl
      ((λ e. absurd (omega arith)), tt)

read_from_stash_miss_example : read_from_stash 2 0 free sketch ≡ record {
  sketch = record sketch {
    pos_map = set sketch.pos_map 2 0;
    stash = record filled { slots = set filled.slots 2 (made 2 0 2 free) };
    global_added = 0 + 1;
  };
  buffer = made 2 0 2 free;
  found = true;
}
read_from_stash_miss_example =
    read_from_stash_miss 2 0 2 free free sketch (omega arith) refl refl (refl, (refl, tt))
      (
        (λ e. absurd (omega arith)),
        ((λ e. absurd (omega arith)), ((λ e. absurd (omega arith)), tt)),
      )

rebuild_stash_keeps_example :
    Perm
      (reals (blocks (rebuild_stash two_path 1 sketch).path)
        ++ reals (rebuild_stash two_path 1 sketch).sketch.stash.slots)
      (reals filled.slots)
    × OnPath sketch.pos_map 1 1 (rebuild_stash two_path 1 sketch).path
rebuild_stash_keeps_example = rebuild_stash_keeps two_path 1 sketch

rebuild_stash_variants_example :
    (o_rebuild_stash_s two_path 1 sketch ≡ rebuild_stash two_path 1 sketch)
    × (o_rebuild_stash_f two_path 1 sketch ≡ rebuild_stash two_path 1 sketch)
    × (o_rebuild_stash two_path 1 sketch ≡ (
        if true
        then compressed (rebuild_stash two_path 1 sketch)
        else rebuild_stash two_path 1 sketch))
rebuild_stash_variants_example = rebuild_stash_variants two_path 1 sketch

IdsFit-replicate : (k : ℕ) (b : Block) → b.bid ≤ dummy_flag → IdsFit (replicate k b)
IdsFit-replicate zero b le = tt
IdsFit-replicate (suc k) b le = (le, IdsFit-replicate k b le)

o_compress_stash_keeps_example :
    Perm (o_compress_stash crowded).slots crowded.slots
    × IsStash (o_compress_stash crowded)
    × ((o_compress_stash crowded).length_st ≡ (
        if ltb (count_real 105 (o_compress_stash crowded).slots) default_stash_length
        then default_stash_length
        else count_real 105 (o_compress_stash crowded).slots))
o_compress_stash_keeps_example =
    o_compress_stash_keeps crowded crowded-IsStash (IdsFit-replicate 105 block_1 (omega arith))

abbrev pub ready_sketch : Sketch
ready_sketch = record sketch { stash = fresh }

fresh-IdsFit : IdsFit fresh.slots
unfolding init_stash
fresh-IdsFit = IdsFit-replicate 105 free (omega arith)

o_rebuild_stash_keeps_example : Kept two_path ready_sketch (o_rebuild_stash two_path 1 ready_sketch)
o_rebuild_stash_keeps_example =
    o_rebuild_stash_keeps two_path 1 ready_sketch (init_stash-IsStash free) fresh-IdsFit

path_reals : reals (blocks (read_path 1 0 tree)) ≡ block_0 ∷ block_1 ∷ []
unfolding read_path blocks reals
path_reals = refl

path-IdsFit : IdsFit (blocks (read_path 1 0 tree))
unfolding read_path blocks
path-IdsFit = (omega arith, (omega arith, (omega arith, (omega arith, tt))))

block_1_present : has 1 (block_0 ∷ block_1 ∷ [] ++ reals fresh.slots) ≡ true
unfolding has
block_1_present = refl

pub ready : Ready 1 0 ready_sketch
ready = record {
  in_tree = omega arith;
  full = refl;
  ok = init_stash-IsStash free;
  path_ids = path-IdsFit;
  stash_ids = fresh-IdsFit;
  room = omega (arith, ap length path_reals, reals_fresh);
  real = λ e. absurd (omega arith);
  present = rw path_reals block_1_present;
}
