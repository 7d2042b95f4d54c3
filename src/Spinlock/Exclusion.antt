-- ===== src/Spinlock/Exclusion.antt =====
-- At most one thread is between `spin_lock` and `spin_unlock`.
use fosketch.Prelude.{
  ℕ, zero, suc, ◌+◌, ◌≤◌, ◌≡◌, ◌≢◌, refl, ap, inl, inr, Bool-cases, List, [], ◌∷◌, some, arith,
  get_elem?, set, replicate, ◌==◌, if◌then◌else◌,
}
use fosketch.Spinlock.{
  Phase, outside, trying, spinning, inside, System, busy, after_xchg, Step, Reach, start,
}

abbrev pub weight : Phase → ℕ
weight inside = 1
weight outside = 0
weight trying = 0
weight spinning = 0

-- How many threads are inside.
unfoldable pub insiders : List Phase → ℕ
insiders [] = 0
insiders (p ∷ ps) = weight p + insiders ps

insiders-set :
    (ps : List Phase) (i : ℕ) (p q : Phase)
    → get_elem? ps i ≡ some p
    → insiders (set ps i q) + weight p ≡ insiders ps + weight q
unfolding insiders
insiders-set [] i p q e = absurd (cc)
insiders-set (r ∷ ps) zero p q e = let same : r ≡ p = cc in omega (arith, ap weight same)
insiders-set (r ∷ ps) (suc i) p q e = omega (arith, insiders-set ps i p q e)

insiders-replicate : (n : ℕ) → insiders (replicate n outside) ≡ 0
unfolding insiders
insiders-replicate zero = refl
insiders-replicate (suc n) = omega (arith, insiders-replicate n)

-- The byte counts the threads inside, and is 0 or `BUSY`.
pub record IsLocked (s : System) : Type 0 where
  pub counts : insiders s.threads ≡ s.lock
  pub byte : s.lock ≤ busy

after_xchg-weight :
    (lock : ℕ) (p : Phase) → lock ≤ busy → weight p ≡ 0 → weight (after_xchg lock p) + lock ≡ busy
after_xchg-weight lock p le w = elim (Bool-cases (lock == 0)) [
  | inl e ↦ ground (arith, e)
  | inr e ↦ ground (arith, e)
]

pub Step-IsLocked : {s t : System} → Step s t → IsLocked s → IsLocked t
Step-IsLocked (Step.enter s i e) l = record {
  counts = omega (arith, insiders-set s.threads i outside trying e, l.counts);
  byte = l.byte;
}
Step-IsLocked (Step.exchange s i e) l =
    let w = after_xchg-weight s.lock spinning l.byte refl in
    record {
      counts =
          omega
            (arith, insiders-set s.threads i trying (after_xchg s.lock spinning) e, w, l.counts);
      byte = omega arith;
    }
Step-IsLocked (Step.look s i e) l =
    let to : Phase = if s.lock == 0 then trying else spinning in
    let w : weight to ≡ 0 = ground arith in
    record {
      counts = omega (arith, insiders-set s.threads i spinning to e, w, l.counts);
      byte = l.byte;
    }
Step-IsLocked (Step.try_lock s i e) l =
    let w = after_xchg-weight s.lock outside l.byte refl in
    record {
      counts =
          omega
            (arith, insiders-set s.threads i outside (after_xchg s.lock outside) e, w, l.counts);
      byte = omega arith;
    }
Step-IsLocked (Step.unlock s i e) l = record {
  counts = omega (arith, insiders-set s.threads i inside outside e, l.counts, l.byte);
  byte = omega arith;
}

pub Reach-IsLocked : {s t : System} → IsLocked s → Reach s t → IsLocked t
Reach-IsLocked l Reach.here = l
Reach-IsLocked l (Reach.next r st) = Step-IsLocked st (Reach-IsLocked l r)

pub start-IsLocked : (n : ℕ) → IsLocked (start n)
start-IsLocked n = record { counts = insiders-replicate n; byte = omega arith }

pub one-le-insiders : (ps : List Phase) (i : ℕ) → get_elem? ps i ≡ some inside → 1 ≤ insiders ps
unfolding insiders
one-le-insiders [] i e = absurd (cc)
one-le-insiders (p ∷ ps) zero e = let same : p ≡ inside = cc in omega (arith, ap weight same)
one-le-insiders (p ∷ ps) (suc i) e = omega (arith, one-le-insiders ps i e)

two_inside :
    (ps : List Phase) (i j : ℕ)
    → get_elem? ps i ≡ some inside
    → get_elem? ps j ≡ some inside
    → insiders ps ≤ 1
    → i ≡ j
unfolding insiders
two_inside [] i j e f le = absurd (cc)
two_inside (p ∷ ps) zero zero e f le = refl
two_inside (p ∷ ps) zero (suc j) e f le =
    let same : p ≡ inside = cc in absurd (omega (arith, ap weight same, one-le-insiders ps j f))
two_inside (p ∷ ps) (suc i) zero e f le =
    let same : p ≡ inside = cc in absurd (omega (arith, ap weight same, one-le-insiders ps i e))
two_inside (p ∷ ps) (suc i) (suc j) e f le = ap suc (two_inside ps i j e f (omega arith))

-- Whatever the order of their steps, while a thread is between `spin_lock` (or a `spin_trylock` that
-- returns 0) and `spin_unlock`, no other thread is.
pub mutual_exclusion :
    (n : ℕ) (s : System) (i j : ℕ)
    → Reach (start n) s
    → get_elem? s.threads i ≡ some inside
    → i ≢ j
    → get_elem? s.threads j ≢ some inside
mutual_exclusion n s i j r e other f =
    let l = Reach-IsLocked (start-IsLocked n) r in
    other (two_inside s.threads i j e f (omega (arith, l.counts, l.byte)))
