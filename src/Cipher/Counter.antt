-- ===== src/Cipher/Counter.antt =====
-- `incr_ctr` counts, and comes back to a value only after all the others.
use fosketch.Prelude.{
  ℕ, zero, suc, ◌+◌, ◌*◌, ◌%◌, ◌<◌, ◌≡◌, ◌≢◌, refl, ap, ◌⊎◌, inl, inr, Bool-cases, ==_iff, List, [],
  ◌∷◌, arith, length, ◌==◌, AreBytes,
}
use fosketch.Cipher.{incr_ctr}

-- The number that the bytes stand for, and how many there are.
abbrev pub value : List ℕ → ℕ
value [] = 0
value (x ∷ bytes) = x + 256 * value bytes

abbrev pub span : List ℕ → ℕ
span [] = 1
span (x ∷ bytes) = 256 * span bytes

pub incr_ctr-AreBytes : (n : ℕ) (bytes : List ℕ) → AreBytes bytes → AreBytes (incr_ctr n bytes)
unfolding incr_ctr
incr_ctr-AreBytes zero bytes h = h
incr_ctr-AreBytes (suc n) [] h = tt
incr_ctr-AreBytes (suc n) (x ∷ bytes) h = elim (Bool-cases ((x + 1) % 256 == 0)) [
  | inl e ↦ rw e (omega arith, incr_ctr-AreBytes n bytes h.1)
  | inr e ↦ rw e (omega arith, h.1)
]

pub span-incr_ctr : (n : ℕ) (bytes : List ℕ) → span (incr_ctr n bytes) ≡ span bytes
unfolding incr_ctr
span-incr_ctr zero bytes = refl
span-incr_ctr (suc n) [] = refl
span-incr_ctr (suc n) (x ∷ bytes) = elim (Bool-cases ((x + 1) % 256 == 0)) [
  | inl e ↦ rw e (omega (arith, span-incr_ctr n bytes))
  | inr e ↦ rw e refl
]

pub length-incr_ctr : (n : ℕ) (bytes : List ℕ) → length (incr_ctr n bytes) ≡ length bytes
unfolding incr_ctr
length-incr_ctr zero bytes = refl
length-incr_ctr (suc n) [] = refl
length-incr_ctr (suc n) (x ∷ bytes) = elim (Bool-cases ((x + 1) % 256 == 0)) [
  | inl e ↦ rw e (omega (arith, length-incr_ctr n bytes))
  | inr e ↦ rw e refl
]

-- One step counts by one, or comes back to 0 from the last value.
pub value-incr_ctr :
    (bytes : List ℕ)
    → AreBytes bytes
    → let next = value (incr_ctr (length bytes) bytes) in
      (next ≡ value bytes + 1) ⊎ ((next ≡ 0) × (value bytes + 1 ≡ span bytes))
unfolding incr_ctr
value-incr_ctr [] h = inr (refl, refl)
value-incr_ctr (x ∷ bytes) h = elim (Bool-cases ((x + 1) % 256 == 0)) [
  | inl e ↦
      let wraps = (==_iff ((x + 1) % 256) 0).0 e in
      rw e elim (value-incr_ctr bytes h.1) [
        | inl up ↦ inl (omega (arith, wraps, h.0, up))
        | inr lap ↦ inr (omega (arith, wraps, h.0, lap.0, lap.1))
      ]
  | inr e ↦ rw e (inl (ground (arith, e, h.0)))
]

-- The counter after `k` calls.
unfoldable pub tick : (k : ℕ) → List ℕ → List ℕ
unfolding incr_ctr
tick zero bytes = bytes
tick (suc k) bytes = tick k (incr_ctr (length bytes) bytes)

-- `k` calls count by `k`, less a whole number of laps.
laps :
    (k : ℕ) (bytes : List ℕ)
    → AreBytes bytes
    → (q : ℕ) × (value bytes + k ≡ value (tick k bytes) + q * span bytes)
unfolding tick
laps zero bytes h = (0, omega arith)
laps (suc k) bytes h =
    let n = length bytes in
    let next = incr_ctr n bytes in
    let r = laps k next (incr_ctr-AreBytes n bytes h) in
    let same = span-incr_ctr n bytes in
    let r' : value next + k ≡ value (tick k next) + r.0 * span bytes = rw (← same) r.1 in
    elim (value-incr_ctr bytes h) [
      | inl up ↦ (r.0, omega (arith, up, r'))
      | inr lap ↦
          let more : suc r.0 * span bytes ≡ span bytes + r.0 * span bytes = grind arith in
          (suc r.0, omega (arith, lap.0, lap.1, r', more))
    ]

no_lap : (q s k : ℕ) → 0 < k → k < s → k ≡ q * s → ⊥
no_lap zero s k pos small e = absurd (omega arith)
no_lap (suc q) s k pos small e = absurd (grind arith)

-- After fewer calls than there are values, and at least one, the counter is another.
pub tick-ne :
    (k : ℕ) (bytes : List ℕ) → AreBytes bytes → 0 < k → k < span bytes → tick k bytes ≢ bytes
tick-ne k bytes h pos small e =
    let r = laps k bytes h in
    let back = ap value e in no_lap r.0 (span bytes) k pos small (omega (arith, r.1, back))
