-- ===== src/Queue.antt =====
-- The message queue of Common/Queue.c: messages linked in both directions, of which `prev` points to the
-- one that leaves the queue after it from the top. A method runs under the queue's lock.
pub mod Segment
pub mod Deque
pub mod Pops
pub mod Refine
use fosketch.Prelude.{ℕ, ◌+◌, ◌-◌, Bool, true, false, Option, none, some, leb, ◌==◌, if◌then◌else◌}

-- The links of `struct header_s`, as addresses; `none` is `NULL`.
pub record Links : Type 0 where
  pub next : Option ℕ
  pub prev : Option ℕ

-- The links of the message at each address.
abbrev pub Heap : Type 0
Heap = ℕ → Links

unfoldable pub write : Heap → ℕ → Links → Heap
write h p l a = if a == p then l else h a

abbrev pub set_next : Heap → ℕ → Option ℕ → Heap
set_next h p q = write h p (record { next = q; prev = (h p).prev })

abbrev pub set_prev : Heap → ℕ → Option ℕ → Heap
set_prev h p q = write h p (record { next = (h p).next; prev = q })

-- The two writes of `NULL` to a message's links.
abbrev pub unlink : Heap → ℕ → Heap
unlink h p = write h p (record { next = none; prev = none })

-- `if(p) p->next = NULL` and its like.
abbrev pub clear_next : Heap → Option ℕ → Heap
clear_next h none = h
clear_next h (some p) = set_next h p none

abbrev pub clear_prev : Heap → Option ℕ → Heap
clear_prev h none = h
clear_prev h (some p) = set_prev h p none

-- The queue and the memory. `lock` is 0 between two methods.
pub record Queue : Type 0 where
  pub top : Option ℕ
  pub bottom : Option ℕ
  pub n_msg : ℕ
  pub heap : Heap

unfoldable pub queue_init : Heap → Queue
queue_init h = record { top = none; bottom = none; n_msg = 0; heap = h }

abbrev pub is_null : Option ℕ → Bool
is_null none = true
is_null (some p) = false

unfoldable pub is_empty_queue : Queue → Bool
is_empty_queue q = is_null q.top

-- `ENOUGH_BAR`
abbrev pub enough_bar : ℕ
enough_bar = 20

unfoldable pub is_enough_queue : Queue → Bool
is_enough_queue q = leb enough_bar q.n_msg

-- `push_back`, by what `bottom` is.
pub push_behind : Option ℕ → ℕ → Queue → Queue
push_behind none m q = record q { top = some m; bottom = some m; n_msg = q.n_msg + 1 }
push_behind (some b) m q = record q {
  bottom = some m;
  n_msg = q.n_msg + 1;
  heap = set_next (set_prev q.heap b (some m)) m (some b);
}

unfoldable pub push_back : ℕ → Queue → Queue
unfolding push_behind
push_back m q = push_behind q.bottom m (record q { heap = unlink q.heap m })

-- `push_front`, by what `top` is.
pub push_before : Option ℕ → ℕ → Queue → Queue
push_before none m q = record q { top = some m; bottom = some m; n_msg = q.n_msg + 1 }
push_before (some t) m q = record q {
  top = some m;
  n_msg = q.n_msg + 1;
  heap = set_prev (set_next q.heap t (some m)) m (some t);
}

unfoldable pub push_front : ℕ → Queue → Queue
unfolding push_before
push_front m q = push_before q.top m (record q { heap = unlink q.heap m })

pub record Popped : Type 0 where
  pub msg : Option ℕ
  pub queue : Queue

-- What `pop_front` does with the message `m` at the top, whose `prev` is `rest`.
unfoldable pub take_top : (m : ℕ) (rest : Option ℕ) → Queue → Queue
take_top m rest q = record {
  top = rest;
  bottom = if is_null rest then none else q.bottom;
  n_msg = q.n_msg - 1;
  heap = unlink (clear_next q.heap rest) m;
}

pub pop_top : Option ℕ → Queue → Popped
unfolding take_top
pop_top none q = record { msg = none; queue = q }
pop_top (some m) q = record { msg = some m; queue = take_top m (q.heap m).prev q }

unfoldable pub pop_front : Queue → Popped
unfolding pop_top
pop_front q = pop_top q.top q

-- What `pop_back` does under the lock with the message `m` at the bottom, whose `next` is `rest`.
unfoldable pub take_bottom : (m : ℕ) (rest : Option ℕ) → Queue → Queue
take_bottom m rest q = record {
  top = if is_null rest then none else q.top;
  bottom = rest;
  n_msg = q.n_msg - 1;
  heap = unlink (clear_prev q.heap rest) m;
}

pub pop_bottom : Option ℕ → Queue → Popped
unfolding take_bottom
pop_bottom none q = record { msg = none; queue = q }
pop_bottom (some m) q = record { msg = some m; queue = take_bottom m (q.heap m).next q }

-- `pop_back` where nothing happens between its test and its lock.
unfoldable pub pop_back : Queue → Popped
unfolding pop_bottom
pop_back q = pop_bottom q.bottom q
