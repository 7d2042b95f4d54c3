-- ===== src/Delta/Change.antt =====
-- What `ODelta` leaves of a flow that both lists have, and of one that only one of them has.
use fosketch.Prelude.{ℕ, ◌≢◌, List, [], ◌∷◌, ltb, if◌then◌else◌}
use fosketch.Counts.{Item}
use fosketch.Delta.{dummy, abs_diff}

-- No item of the list has the flow.
abbrev pub Without : (flow_id : ℕ) → List Item → Type 0
Without flow_id [] = Unit {0}
Without flow_id (y ∷ ys) = (y.flow_id ≢ flow_id) × Without flow_id ys

-- The item of a flow that both lists have: the change, or a dummy if that is below `gamm`.
abbrev pub changed : (gamm : ℕ) (x y : Item) → Item
changed gamm x y =
    let d = abs_diff x.size y.size in
    if ltb d gamm then dummy else record { flow_id = x.flow_id; size = d }
