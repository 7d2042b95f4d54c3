-- ===== src/Tests/Opening.antt =====
-- A sketch of four blocks is set up.
use fosketch.Prelude.{◌≡◌, ◌<◌, refl, true, false, [], ◌∷◌, arith, ltb}
use fosketch.Oram.Sketch.{Sketch, cu_sketch}
use fosketch.Oram.Setup.{Inputs, init_ocu, init_ok, open_sketch, size_up, floor_log2}
use fosketch.Oram.Setup.Nodes.{IsSetUp, init_ocu_lem, open_sketch_lem}

abbrev closed : Sketch
closed = record {
  sketch_type = cu_sketch;
  size_block = 0;
  size_bucket = 0;
  level = 0;
  n_record = 0;
  payload_ind = 0;
  n_block = 0;
  need_com_stash = false;
  global_set_oblivious = false;
  global_added = 0;
  pos_map = [];
  stash = record { slots = []; length_st = 0 };
  obliv_sk = [];
}

abbrev inputs : Inputs
inputs = record {
  source = 1 ∷ 2 ∷ 3 ∷ 4 ∷ 5 ∷ 6 ∷ 7 ∷ 8 ∷ [];
  draw = λ j. j;
  fresh_block = record { bid = 0; pos = 0; payload = 0 ∷ 0 ∷ [] };
  fresh_pos_map = 0 ∷ 0 ∷ 0 ∷ 0 ∷ [];
}

level_fits : (size_up 8 6 2 true closed).level < 16
unfolding size_up floor_log2
level_fits = omega arith

init_ocu_lem_example :
    ((init_ocu 8 6 2 true inputs closed).ok ≡ true)
    × IsSetUp (init_ocu 8 6 2 true inputs closed).sketch
init_ocu_lem_example = init_ocu_lem 8 6 2 true inputs closed level_fits

known_type : init_ok closed ≡ true
unfolding init_ok
known_type = refl

open_sketch_lem_example :
    init_ok (open_sketch cu_sketch 8 6 2 true inputs closed)
    ≡ ltb (size_up 8 6 2 true closed).level 16
open_sketch_lem_example = open_sketch_lem cu_sketch 8 6 2 true inputs closed known_type
