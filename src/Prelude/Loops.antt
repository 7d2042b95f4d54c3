-- ===== src/Prelude/Loops.antt =====
-- Counted loops: `for (int i=lo; i<lo+n; i++)`, with what the body changes as a value.
use Prim.Native.Nat.{ℕ, zero, suc, ◌+◌}

-- The recursion is on the rounds that are left.
unfoldable pub for_range {ℓ} : {S : Type ℓ} → ℕ → ℕ → (ℕ → S → S) → S → S
for_range zero k step acc = acc
for_range (suc rounds) k step acc = for_range rounds (k + 1) step (step k acc)
