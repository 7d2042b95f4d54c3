-- ===== src/Spinlock.antt =====
-- The spin lock of Common/Spinlock.h, as the steps that threads take on its byte.
pub mod Exclusion
pub mod Progress
use fosketch.Prelude.{
  ℕ, ◌≡◌, ◌≢◌, Bool, true, false, List, [], ◌∷◌, some, get_elem?, set, replicate, ◌==◌,
  if◌then◌else◌,
}

-- Where a thread stands: outside, before the exchange in `spin_lock`, in the inner loop, or between
-- `spin_lock` and `spin_unlock`.
pub data Phase : Type 0 where
  outside : Phase
  trying : Phase
  spinning : Phase
  inside : Phase

pub record System : Type 0 where
  pub lock : ℕ
  pub threads : List Phase

-- `BUSY`
abbrev pub busy : ℕ
busy = 1

-- `xchg_8(lock, BUSY)` leaves `BUSY` and returns what the byte was: a thread gets in on 0.
abbrev pub after_xchg : (seen : ℕ) (missed : Phase) → Phase
after_xchg seen missed = if seen == 0 then inside else missed

abbrev pub move_to : System → ℕ → Phase → ℕ → System
move_to s i p lock = record { lock = lock; threads = set s.threads i p }

-- One step of thread `i`.
pub data Step : System → System → Type 0 where
  -- `spin_lock` is called
  enter :
      (s : System) (i : ℕ)
      → get_elem? s.threads i ≡ some outside
      → Step s (move_to s i trying s.lock)
  -- the exchange in `spin_lock`
  exchange :
      (s : System) (i : ℕ)
      → get_elem? s.threads i ≡ some trying
      → Step s (move_to s i (after_xchg s.lock spinning) busy)
  -- a read of the byte in `while (*lock)`
  look :
      (s : System) (i : ℕ)
      → get_elem? s.threads i ≡ some spinning
      → Step s (move_to s i (if s.lock == 0 then trying else spinning) s.lock)
  -- `spin_trylock`
  try_lock :
      (s : System) (i : ℕ)
      → get_elem? s.threads i ≡ some outside
      → Step s (move_to s i (after_xchg s.lock outside) busy)
  -- `spin_unlock`
  unlock :
      (s : System) (i : ℕ) → get_elem? s.threads i ≡ some inside → Step s (move_to s i outside 0)

pub data Reach (s : System) : System → Type 0 where
  here : Reach s s
  next : {t u : System} → Reach s t → Step t u → Reach s u

-- `SPINLOCK_INITIALIZER`, with `n` threads outside.
abbrev pub start : ℕ → System
start n = record { lock = 0; threads = replicate n outside }
