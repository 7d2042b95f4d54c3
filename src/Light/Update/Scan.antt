-- ===== src/Light/Update/Scan.antt =====
-- `UpdateCUSketch_Scan` of FOSketch/Enclave/Enclave.cpp, which scans the whole light part for each flow.
use native.Mathlib.Nat.{mod-lt}
use fosketch.Prelude.{
  ℕ, zero, suc, ◌+◌, ◌≤◌, ◌<◌, ◌≡◌, refl, ap, ◌⊎◌, inl, inr, false, Bool-cases, List, [], ◌∷◌,
  arith, length, get_or, set, ltb, ◌==◌, if◌then◌else◌,
}
use fosketch.Sorter.Exchange.{o_move}
use fosketch.Counts.{Item}
use fosketch.Light.Update.{target, update_cu_sketch_no}
use fosketch.Light.Update.Plain.{length-set_greater}

-- The inner loop from place `j` on.
pub scan_light : (rounds j idx size : ℕ) → List ℕ → List ℕ
scan_light zero j idx size light = light
scan_light (suc rounds) j idx size light =
    let at_j = get_or light j 0 in
    let max = o_move size at_j (ltb at_j size) in
    scan_light rounds (j + 1) idx size (set light idx (o_move max (get_or light idx 0) (j == idx)))

module _ (hash32 : ℕ → ℕ → ℕ) (cus_hash : ℕ) where
  unfoldable pub update_cu_sketch_scan : List ℕ → List Item → List ℕ
  unfolding scan_light
  update_cu_sketch_scan light [] = light
  update_cu_sketch_scan light (x ∷ heavy) =
      let t = target hash32 cus_hash (length light) x in
      update_cu_sketch_scan (scan_light (length light) 0 t.flow_id t.size light) heavy

set-get_or : (l : List ℕ) (i : ℕ) → set l i (get_or l i 0) ≡ l
set-get_or [] i = refl
set-get_or (x ∷ l) zero = refl
set-get_or (x ∷ l) (suc i) = ap (◌∷◌ x) (set-get_or l i)

-- Away from the index the loop changes nothing.
scan_light-away :
    (rounds j idx size : ℕ) (light : List ℕ)
    → (idx < j) ⊎ (j + rounds ≤ idx)
    → scan_light rounds j idx size light ≡ light
unfolding scan_light
scan_light-away zero j idx size light away = refl
scan_light-away (suc rounds) j idx size light away =
    let other : (j == idx) ≡ false = ground (arith, away) in
    let on : (idx < j + 1) ⊎ (j + 1 + rounds ≤ idx) = further away in
    rw (other, set-get_or light idx) (scan_light-away rounds (j + 1) idx size light on)
  where
    further : (idx < j) ⊎ (j + suc rounds ≤ idx) → (idx < j + 1) ⊎ (j + 1 + rounds ≤ idx)
    further (inl lt) = inl (omega arith)
    further (inr le) = inr (omega arith)

-- At the index it keeps the greater one.
scan_light-at :
    (rounds j idx size : ℕ) (light : List ℕ)
    → j ≤ idx
    → idx < j + rounds
    → scan_light rounds j idx size light
      ≡ (if ltb (get_or light idx 0) size then set light idx size else light)
unfolding scan_light
scan_light-at zero j idx size light le lt = absurd (omega arith)
scan_light-at (suc rounds) j idx size light le lt = elim (Bool-cases (j == idx)) [
  | inl e ↦
      let same : j ≡ idx = ground (arith, e) in
      let behind : idx < idx + 1 = omega arith in
      elim (Bool-cases (ltb (get_or light idx 0) size)) [
        | inl more ↦
            rw (e, same, more)
              (scan_light-away rounds (idx + 1) idx size (set light idx size) (inl behind))
        | inr less ↦
            rw (e, same, less, set-get_or light idx)
              (scan_light-away rounds (idx + 1) idx size light (inl behind))
      ]
  | inr e ↦
      rw (e, set-get_or light idx)
        (scan_light-at rounds (j + 1) idx size light (ground (arith, e)) (omega arith))
]

module _ (hash32 : ℕ → ℕ → ℕ) (cus_hash : ℕ) where
  -- Over a light part with a counter the scan for each heavy flow does what the plain loop does.
  pub update_cu_sketch_scan-update_cu_sketch_no :
      (heavy : List Item) (light : List ℕ)
      → 0 < length light
      → update_cu_sketch_scan hash32 cus_hash light heavy
        ≡ update_cu_sketch_no hash32 cus_hash light heavy
  unfolding update_cu_sketch_scan update_cu_sketch_no
  update_cu_sketch_scan-update_cu_sketch_no [] light pos = refl
  update_cu_sketch_scan-update_cu_sketch_no (x ∷ heavy) light pos =
      let t = target hash32 cus_hash (length light) x in
      let light' =
        if ltb (get_or light t.flow_id 0) t.size then set light t.flow_id t.size else light in
      let inside : t.flow_id < 0 + length light =
        omega (arith, mod-lt (hash32 x.flow_id cus_hash) pos) in
      let one = scan_light-at (length light) 0 t.flow_id t.size light (omega arith) inside in
      rw one (
        update_cu_sketch_scan-update_cu_sketch_no heavy light'
          (omega (arith, pos, length-set_greater light t.flow_id t.size)))
