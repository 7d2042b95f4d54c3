-- ===== src/Light/Pass.antt =====
-- The pass that `OUpdateCUSketch`, `OUpdateCUSketch_B` and `OUpdateCUSketch_BEx` make over elements
-- sorted by a key: the last element of a run of one key gets the maximum of the run, and the others
-- lose their key.
use fosketch.Prelude.{ℕ, Bool, List, [], ◌∷◌, ltb}
use fosketch.Sorter.Exchange.{o_move}

-- `join acc x` is `x` with the maxima of `acc` and `x`; `hide x` is `x` with the key `DUMMY_FLOW`.
module _ {E : Type 0} (key : E → ℕ) (join : E → E → E) (hide : E → E) where
  -- `cond` says that a run starts; `acc` is the element before, as the pass left it.
  unfoldable pub max_pass : (cond : Bool) (acc : E) → List E → List E
  max_pass cond acc [] = []
  max_pass cond acc (x ∷ []) = o_move x (join acc x) cond ∷ []
  max_pass cond acc (x ∷ y ∷ l) =
      let x' = o_move x (join acc x) cond in
      let cond' = ltb (key x') (key y) in o_move x' (hide x') cond' ∷ max_pass cond' x' (y ∷ l)
