-- ===== src/Queue/Refine.antt =====
-- The queue refines a list with two ends.
use mathlib.Core.Path.{subst}
use fosketch.Prelude.{
  ℕ, ◌≡◌, refl, ap, ◌∙◌, inl, inr, List, [], ◌∷◌, ◌++◌, Option, none, length, leb,
}
use fosketch.Queue.{
  Heap, Queue, queue_init, is_null, is_empty_queue, is_enough_queue, push_back, push_front, Popped,
  pop_top, pop_front, pop_bottom, pop_back,
}
use fosketch.Queue.Segment.{first, last, Absent, last-append}
use fosketch.Queue.Deque.{
  IsQueue, queue_init-IsQueue, snoc-cases, push_back-IsQueue, push_front-IsQueue,
}
use fosketch.Queue.Pops.{pop_front-IsQueue, pop_back-IsQueue}

-- A call of one of the four methods that change the queue.
pub data Call : Type 0 where
  back_in : ℕ → Call
  front_in : ℕ → Call
  front_out : Call
  back_out : Call

abbrev pub answer_none : Queue → Popped
answer_none q = record { msg = none; queue = q }

unfoldable pub call : Call → Queue → Popped
unfolding push_back push_front pop_front pop_back
call (back_in m) q = answer_none (push_back m q)
call (front_in m) q = answer_none (push_front m q)
call front_out q = pop_front q
call back_out q = pop_back q

-- The list after a call, and the message that the call hands out.
pub record Listed : Type 0 where
  pub out : Option ℕ
  pub rest : List ℕ

-- All but the last.
abbrev pub but_last : List ℕ → List ℕ
but_last [] = []
but_last (x ∷ []) = []
but_last (x ∷ y ∷ xs) = x ∷ but_last (y ∷ xs)

abbrev pub tail : List ℕ → List ℕ
tail [] = []
tail (x ∷ xs) = xs

abbrev pub list_call : Call → List ℕ → Listed
list_call (back_in m) xs = record { out = none; rest = xs ++ m ∷ [] }
list_call (front_in m) xs = record { out = none; rest = m ∷ xs }
list_call front_out xs = record { out = first xs none; rest = tail xs }
list_call back_out xs = record { out = last none xs; rest = but_last xs }

-- A message is put in only while it is not in the queue.
abbrev pub Allowed : Call → List ℕ → Type 0
Allowed (back_in m) xs = Absent m xs
Allowed (front_in m) xs = Absent m xs
Allowed front_out xs = Unit {0}
Allowed back_out xs = Unit {0}

but_last-snoc : (ys : List ℕ) (b : ℕ) → but_last (ys ++ b ∷ []) ≡ ys
but_last-snoc [] b = refl
but_last-snoc (y ∷ []) b = refl
but_last-snoc (y ∷ z ∷ ys) b = ap (◌∷◌ y) (but_last-snoc (z ∷ ys) b)

-- One call gives what the list gives, and leaves a queue that holds the list.
pub record Agrees (p : Popped) (l : Listed) : Type 0 where
  pub out : p.msg ≡ l.out
  pub queue : IsQueue p.queue l.rest

empty_front : (q : Queue) → IsQueue q [] → Agrees (pop_front q) (list_call front_out [])
unfolding pop_front pop_top
empty_front q iq =
    let step = ap (λ o. pop_top o q) iq.top in rw step (record { out = refl; queue = iq })

empty_back : (q : Queue) → IsQueue q [] → Agrees (pop_back q) (list_call back_out [])
unfolding pop_back pop_bottom
empty_back q iq =
    let step = ap (λ o. pop_bottom o q) iq.bottom in rw step (record { out = refl; queue = iq })

call-Agrees :
    (c : Call) (q : Queue) (xs : List ℕ)
    → IsQueue q xs
    → Allowed c xs
    → Agrees (call c q) (list_call c xs)
unfolding call
call-Agrees (back_in m) q xs iq a = record { out = refl; queue = push_back-IsQueue m q xs iq a }
call-Agrees (front_in m) q xs iq a = record { out = refl; queue = push_front-IsQueue m q xs iq a }
call-Agrees front_out q [] iq a = empty_front q iq
call-Agrees front_out q (x ∷ xs) iq a =
    let p = pop_front-IsQueue q x xs iq in record { out = p.0; queue = p.1 }
call-Agrees back_out q xs iq a = elim (snoc-cases xs) [
  | inl e ↦ rw e (empty_back q (subst (IsQueue q) e iq))
  | inr s ↦
      let p = pop_back-IsQueue q s.0 s.1 (subst (IsQueue q) s.2 iq) in
      rw (s.2, last-append none s.0 (s.1 ∷ []), but_last-snoc s.0 s.1)
        (record { out = p.0; queue = p.1 })
]

-- A run of calls, with what they hand out, in order.
pub record Run : Type 0 where
  pub outs : List (Option ℕ)
  pub queue : Queue

unfoldable pub run : List Call → Queue → Run
unfolding call
run [] q = record { outs = []; queue = q }
run (c ∷ cs) q =
    let p = call c q in
    let rest = run cs p.queue in record { outs = p.msg ∷ rest.outs; queue = rest.queue }

abbrev pub list_outs : List Call → List ℕ → List (Option ℕ)
list_outs [] xs = []
list_outs (c ∷ cs) xs = (list_call c xs).out ∷ list_outs cs (list_call c xs).rest

abbrev pub list_rest : List Call → List ℕ → List ℕ
list_rest [] xs = xs
list_rest (c ∷ cs) xs = list_rest cs (list_call c xs).rest

abbrev pub AllAllowed : List Call → List ℕ → Type 0
AllAllowed [] xs = Unit {0}
AllAllowed (c ∷ cs) xs = Allowed c xs × AllAllowed cs (list_call c xs).rest

run-Agrees :
    (cs : List Call) (q : Queue) (xs : List ℕ)
    → IsQueue q xs
    → AllAllowed cs xs
    → ((run cs q).outs ≡ list_outs cs xs) × IsQueue (run cs q).queue (list_rest cs xs)
unfolding run
run-Agrees [] q xs iq a = (refl, iq)
run-Agrees (c ∷ cs) q xs iq a =
    let now = call-Agrees c q xs iq a.0 in
    let later = run-Agrees cs (call c q).queue (list_call c xs).rest now.queue a.1 in
    (
      ap (λ o. o ∷ (run cs (call c q).queue).outs) now.out ∙ ap (◌∷◌ (list_call c xs).out) later.0,
      later.1,
    )

-- A run of calls on a fresh queue, in which a message is only put in while it is not queued, hands out
-- what a list with two ends hands out, and leaves a queue whose links from the top to the bottom, and
-- whose count, are those of the list; the queue is empty if the list is, and holds enough if the list
-- has 20 messages or more.
pub run_refines :
    (h : Heap) (cs : List Call)
    → AllAllowed cs []
    → let r = run cs (queue_init h) in
      let xs = list_rest cs [] in
      (r.outs ≡ list_outs cs [])
      × IsQueue r.queue xs
      × (is_empty_queue r.queue ≡ is_null (first xs none))
      × (is_enough_queue r.queue ≡ leb 20 (length xs))
unfolding is_empty_queue is_enough_queue
run_refines h cs a =
    let r = run-Agrees cs (queue_init h) [] (queue_init-IsQueue h) a in
    (r.0, r.1, ap is_null r.1.top, ap (leb 20) r.1.count)
