-- ===== src/Spinlock/Progress.antt =====
-- A thread that waits for the lock can always get it.
use fosketch.Prelude.{
  ℕ, suc, ◌≤◌, ◌≡◌, ◌≢◌, refl, sym, ap, ◌∙◌, ◌⊎◌, inl, inr, Bool-cases, List, [], ◌∷◌, some, arith,
  get_elem?, get_elem?-set_self, get_elem?-set_ne, lt-length, ◌==◌, if◌then◌else◌,
}
use fosketch.Spinlock.{
  Phase, outside, trying, spinning, inside, System, busy, after_xchg, move_to, Step, Reach, start,
}
use fosketch.Spinlock.Exclusion.{weight, insiders, IsLocked, Reach-IsLocked, start-IsLocked}

find_inside : (ps : List Phase) → 1 ≤ insiders ps → (j : ℕ) × (get_elem? ps j ≡ some inside)
unfolding insiders
find_inside [] h = absurd (omega arith)
find_inside (inside ∷ ps) h = (0, refl)
find_inside (outside ∷ ps) h = let r = find_inside ps (omega arith) in (suc r.0, r.1)
find_inside (trying ∷ ps) h = let r = find_inside ps (omega arith) in (suc r.0, r.1)
find_inside (spinning ∷ ps) h = let r = find_inside ps (omega arith) in (suc r.0, r.1)

-- A run of steps that ends with thread `i` in this phase.
abbrev pub Gets : System → ℕ → Phase → Type 0
Gets s i p = (t : System) × Reach s t × (get_elem? t.threads i ≡ some p)

-- The byte is clear, or one step clears it and leaves the other threads where they are.
free_byte :
    (s : System) (i : ℕ) (p : Phase)
    → IsLocked s
    → get_elem? s.threads i ≡ some p
    → weight p ≡ 0
    → (t : System) × Reach s t × (t.lock ≡ 0) × (get_elem? t.threads i ≡ some p)
free_byte s i p l e w = elim (Bool-cases (s.lock == 0)) [
  | inl f ↦ (s, Reach.here, ground (arith, f), e)
  | inr f ↦
      let holder = find_inside s.threads (ground (arith, f, l.counts)) in
      let j = holder.0 in
      let apart : j ≢ i = λ same.
        let at : get_elem? s.threads i ≡ some inside =
          ap (get_elem? s.threads) (sym same) ∙ holder.1 in
        let clash : p ≡ inside = cc in absurd (omega (arith, ap weight clash, w)) in
      (
        move_to s j outside 0,
        Reach.next Reach.here (Step.unlock s j holder.1),
        refl,
        get_elem?-set_ne s.threads j i outside apart ∙ e,
      )
]

-- From a state in which the byte is clear, the exchange gets in.
exchange_in :
    (s t : System) (i : ℕ)
    → Reach s t
    → t.lock ≡ 0
    → get_elem? t.threads i ≡ some trying
    → Gets s i inside
exchange_in s t i r f e =
    let to : after_xchg t.lock spinning ≡ inside = ground (arith, f) in
    (
      move_to t i (after_xchg t.lock spinning) busy,
      Reach.next r (Step.exchange t i e),
      get_elem?-set_self t.threads i (after_xchg t.lock spinning) (lt-length t.threads i e)
          ∙ ap some to,
    )

-- In every state that threads can reach, a thread that is in `spin_lock`, before its exchange or in
-- the inner loop, has a run of steps that lets it in: no state is a deadlock.
pub can_enter :
    (n : ℕ) (s : System) (i : ℕ)
    → Reach (start n) s
    → (get_elem? s.threads i ≡ some trying) ⊎ (get_elem? s.threads i ≡ some spinning)
    → Gets s i inside
can_enter n s i r (inl e) =
    let f = free_byte s i trying (Reach-IsLocked (start-IsLocked n) r) e refl in
    exchange_in s f.0 i f.1 f.2 f.3
can_enter n s i r (inr e) =
    let f = free_byte s i spinning (Reach-IsLocked (start-IsLocked n) r) e refl in
    let t = f.0 in
    let to : Phase = if t.lock == 0 then trying else spinning in
    let is_trying : to ≡ trying = ground (arith, f.2) in
    let u = move_to t i to t.lock in
    exchange_in s u i (Reach.next f.1 (Step.look t i f.3)) f.2
      (get_elem?-set_self t.threads i to (lt-length t.threads i f.3) ∙ ap some is_trying)
