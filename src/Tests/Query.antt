-- ===== src/Tests/Query.antt =====
-- Queries of flows, on the tree of Tests/Path.
use fosketch.Prelude.{ℕ, ◌+◌, ◌-◌, ◌%◌, List, [], ◌∷◌, ◌≡◌, refl, arith, get_or}
use fosketch.Oram.Sketch.{Sketch, stash_table}
use fosketch.Oram.Stash.{init_stash}
use fosketch.Oram.Access.Conserves.{Ready}
use fosketch.Oram.Query.{Globals, o_access_fid}
use fosketch.Oram.Query.Answers.{Holding, TableSize, o_access_fid_light, o_access_fid_table}
use fosketch.Tests.Path.{free, ready_sketch, ready}

abbrev globals : Globals
globals = record {
  st_hash = 0;
  cus_hash = 2;
  p_stash_heavy = record { flow_id = 5396; size = 9 } ∷ record { flow_id = 8; size = 4 } ∷ [];
  count_stash = 2;
}

abbrev add_seed : ℕ → ℕ → ℕ
add_seed flow_id seed = flow_id + seed

abbrev always_one : ℕ → ℕ → ℕ
always_one flow_id seed = 1

abbrev table_sketch : Sketch
table_sketch = record ready_sketch { sketch_type = stash_table }

table-Ready : Ready 1 0 table_sketch
table-Ready = record {
  in_tree = ready.in_tree;
  full = ready.full;
  ok = ready.ok;
  path_ids = ready.path_ids;
  stash_ids = ready.stash_ids;
  room = ready.room;
  real = ready.real;
  present = ready.present;
}

light_run : (o_access_fid add_seed globals 1 1 free ready_sketch).size ≡ 21
unfolding o_access_fid init_stash
light_run = refl

table_run : (o_access_fid always_one globals 5396 1 free table_sketch).size ≡ 9
unfolding o_access_fid init_stash
table_run = refl

o_access_fid_light_example :
    (payload : List ℕ) × Holding 1 ready_sketch payload
    × ((o_access_fid add_seed globals 1 1 free ready_sketch).size
        ≡ get_or payload (4 - 4 + 3 % 2) 0)
o_access_fid_light_example =
    o_access_fid_light add_seed globals 1 1 free ready_sketch refl (omega arith) ready

o_access_fid_table_example :
    (payload : List ℕ) × Holding 1 table_sketch payload
    × TableSize globals 5396 table_sketch payload
        (o_access_fid always_one globals 5396 1 free table_sketch).size
o_access_fid_table_example =
    o_access_fid_table always_one globals 5396 1 free table_sketch refl (omega arith) table-Ready
