-- ===== src/Delta.antt =====
-- `ODelta` of FOSketch/Enclave/OPrimitive.h: the change of each flow between two lists of items.
pub mod Change
use fosketch.Prelude.{
  ℕ, ◌+◌, ◌-◌, ◌%◌, ◌^◌, Bool, true, false, ◌&&◌, ◌||◌, List, [], ◌∷◌, map, ltb, ◌==◌,
  if◌then◌else◌,
}
use fosketch.Sorter.Exchange.{o_move}
use fosketch.Counts.{Item}

-- `DUMMY_FLOW`, the largest 32-bit word.
abbrev pub dummy_flow : ℕ
dummy_flow = 4294967295

abbrev pub dummy : Item
dummy = record { flow_id = dummy_flow; size = 0 }

-- A 32-bit word read as an `int`, with 2^31 added.
abbrev pub biased : ℕ → ℕ
biased a = (a + 2 ^ 31) % 2 ^ 32

-- `abs((int)a - (int)b)`, where the difference does not overflow.
abbrev pub abs_diff : ℕ → ℕ → ℕ
abs_diff a b = (biased a - biased b) + (biased b - biased a)

-- The body of the loop over `j`, for one item `y` of `L2`. `gamm` is a whole number; the calls pass 1.
unfoldable pub delta_item : (gamm : ℕ) (y x : Item) → Item
delta_item gamm y x =
    let is_match = x.flow_id == y.flow_id in
    let x' : Item = record {
      flow_id = x.flow_id;
      size = o_move (abs_diff x.size y.size) x.size is_match;
    } in
    o_move dummy x' (is_match && ltb x'.size gamm)

-- `Match[i]` after that loop.
unfoldable pub matched : Item → List Item → Bool
matched y [] = false
matched y (x ∷ l1) = (x.flow_id == y.flow_id) || matched y l1

pub record Deltas : Type 0 where
  pub l1 : List Item
  pub l2 : List Item

-- The loop over `i`. The matched items of `L2` are replaced in a loop of their own in the source.
unfoldable pub o_delta : (gamm : ℕ) (l1 l2 : List Item) → Deltas
unfolding delta_item matched
o_delta gamm l1 [] = record { l1 = l1; l2 = [] }
o_delta gamm l1 (y ∷ l2) =
    let rest = o_delta gamm (map (delta_item gamm y) l1) l2 in
    record { l1 = rest.l1; l2 = o_move dummy y (matched y l1) ∷ rest.l2 }
