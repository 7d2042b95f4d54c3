-- ===== src/Light/Update.antt =====
-- Merging the lower half of the heavy flows into the light part: `OUpdateCUSketch` of
-- FOSketch/Enclave/FOSketch.h and the plain `UpdateCUSketch_NO` of FOSketch/Enclave/Enclave.cpp.
-- `SpookyHash::Hash32` on a flow and a seed is the parameter `hash32`.
pub mod Dump
pub mod Plain
pub mod Items
pub mod Scan
use fosketch.Prelude.{
  ℕ, zero, suc, ◌+◌, ◌%◌, ◌^◌, Bool, true, false, List, [], ◌∷◌, ◌++◌, map, arith, length, take,
  drop, get_or, set, ltb, if◌then◌else◌,
}
use fosketch.Sorter.Order.{Comparator}
use fosketch.Sorter.Exchange.{o_move}
use fosketch.Sorter.Power.{ceil_log2}
use fosketch.Sorter.Bitonic.{sort}
use fosketch.Counts.{Item}
use fosketch.Delta.{dummy_flow}
use fosketch.Light.Pass.{max_pass}

-- `greaterFlowID`. `smallerFlowID` is its opposite.
unfoldable pub greater_flow_id : Comparator Item
greater_flow_id = record {
  greater = λ x y. ltb y.flow_id x.flow_id;
  asym = λ x y h. ground arith;
  trans = λ x y z h k. ground arith;
}

-- A size as a counter of a byte.
abbrev pub capped : ℕ → ℕ
capped size = o_move 255 size (ltb 255 size)

-- The lines of the pass on one element: `tmpMax` and `curMax`, and the loss of the key.
abbrev pub raise : Item → Item → Item
raise acc x = record x { size = o_move x.size acc.size (ltb acc.size x.size) }

abbrev pub hide_flow : Item → Item
hide_flow x = record x { flow_id = dummy_flow }

-- The light part as items, from index `i` on.
pub numbered : (i : ℕ) → List ℕ → List Item
numbered i [] = []
numbered i (v ∷ light) = record { flow_id = i; size = v } ∷ numbered (i + 1) light

module _ (hash32 : ℕ → ℕ → ℕ) (cus_hash : ℕ) where
  -- The index of a heavy flow with its capped size.
  abbrev pub target : (num_light : ℕ) → Item → Item
  target num_light x = record {
    flow_id = hash32 x.flow_id cus_hash % num_light;
    size = capped x.size;
  }

  -- `junk` holds the sizes that stand in the padding of `dump`, which is not initialised.
  unfoldable pub o_update_cu_sketch : (junk light : List ℕ) → List Item → List ℕ
  unfolding numbered max_pass
  o_update_cu_sketch junk light heavy =
      let num_light = length light in
      let num = num_light + length heavy in
      let len = 2 ^ ceil_log2 num in
      let pad =
        map (λ (s : ℕ). let d : Item = record { flow_id = dummy_flow; size = s } in d) junk in
      let dump = numbered 0 light ++ (map (target num_light) heavy ++ pad) in
      let sorted = sort greater_flow_id dump len in
      let start : Item = record { flow_id = 0; size = 0 } in
      let passed =
        max_pass (λ (x : Item). x.flow_id) raise hide_flow true start (take num sorted)
        ++ drop num sorted in
      map (λ (x : Item). x.size % 256) (take num_light (sort greater_flow_id passed len))

  -- `UpdateCUSketch_NO`
  unfoldable pub update_cu_sketch_no : (light : List ℕ) → List Item → List ℕ
  update_cu_sketch_no light [] = light
  update_cu_sketch_no light (x ∷ heavy) =
      let t = target (length light) x in
      let light' =
        if ltb (get_or light t.flow_id 0) t.size then set light t.flow_id t.size else light in
      update_cu_sketch_no light' heavy
