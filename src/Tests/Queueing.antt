-- ===== src/Tests/Queueing.antt =====
-- The message queue.
use fosketch.Prelude.{◌≡◌, refl, none, some, List, [], ◌∷◌, arith, leb}
use fosketch.Queue.{Links, Heap, queue_init, is_empty_queue, is_null, is_enough_queue}
use fosketch.Queue.Deque.{IsQueue}
use fosketch.Queue.Refine.{Call, back_in, front_in, front_out, back_out, run, run_refines}

abbrev no_links : Heap
no_links = λ a. record { next = none; prev = none }

abbrev calls : List Call
calls =
    back_in 7
    ∷ back_in 8
    ∷ front_in 9
    ∷ front_out
    ∷ back_out
    ∷ back_out
    ∷ front_out
    ∷ back_in 5
    ∷ []

run-calls :
    (run calls (queue_init no_links)).outs
    ≡ none ∷ none ∷ none ∷ some 9 ∷ some 8 ∷ some 7 ∷ none ∷ none ∷ []
unfolding run queue_init fosketch.Queue.write
run-calls = refl

run_refines_example :
    ((run calls (queue_init no_links)).outs
      ≡ none ∷ none ∷ none ∷ some 9 ∷ some 8 ∷ some 7 ∷ none ∷ none ∷ [])
    × IsQueue (run calls (queue_init no_links)).queue (5 ∷ [])
    × (is_empty_queue (run calls (queue_init no_links)).queue ≡ is_null (some 5))
    × (is_enough_queue (run calls (queue_init no_links)).queue ≡ leb 20 1)
run_refines_example = run_refines no_links calls (
  tt,
  (
    ((λ e. absurd (omega (arith, e))), tt),
    (
      ((λ e. absurd (omega (arith, e))), ((λ e. absurd (omega (arith, e))), tt)),
      (tt, (tt, (tt, (tt, (tt, tt))))),
    ),
  ),
)
