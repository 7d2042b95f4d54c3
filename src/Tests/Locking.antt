-- ===== src/Tests/Locking.antt =====
-- Threads at the spin lock.
use fosketch.Prelude.{◌≢◌, refl, inr, [], ◌∷◌, some, get_elem?, arith}
use fosketch.Spinlock.{Step, Reach, System, start, spinning, inside}
use fosketch.Spinlock.Exclusion.{mutual_exclusion}
use fosketch.Spinlock.Progress.{Gets, can_enter}

-- Two threads call `spin_lock`, and the second one is faster.
abbrev entered : System
entered = record { lock = 1; threads = spinning ∷ inside ∷ [] }

reached : Reach (start 2) entered
reached =
    Reach.next
      (Reach.next (Reach.next (Reach.next Reach.here (Step.enter _ 0 refl)) (Step.enter _ 1 refl))
        (Step.exchange _ 1 refl))
      (Step.exchange _ 0 refl)

mutual_exclusion_example : get_elem? entered.threads 0 ≢ some inside
mutual_exclusion_example =
    mutual_exclusion 2 entered 1 0 reached refl (λ e. absurd (omega (arith, e)))

can_enter_example : Gets entered 0 inside
can_enter_example = can_enter 2 entered 0 reached (inr refl)
