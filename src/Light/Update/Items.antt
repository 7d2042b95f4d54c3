-- ===== src/Light/Update/Items.antt =====
-- The oblivious merge of heavy flows into the light part does what the plain one does.
use native.Mathlib.Nat.{mod-eq_of_lt, pow-le-pow_right}
use native.Mathlib.Decide.{dec_lt}
use fosketch.Prelude.{
  ℕ, zero, suc, ◌+◌, ◌-◌, ◌%◌, ◌^◌, ◌≤◌, ◌<◌, ◌≡◌, refl, sym, ap, ap₂, ◌∙◌, List, [], ◌∷◌, map,
  arith, length, take, some, get_elem?, get_elem?-some, AreBytes,
}
use fosketch.Counts.{Item}
use fosketch.Delta.{dummy_flow}
use fosketch.Sorter.Power.{ceil_log2, ceil_log2_least}
use fosketch.Light.Sorts.{bitonic_lookup}
use fosketch.Light.Update.{greater_flow_id, o_update_cu_sketch, update_cu_sketch_no}
use fosketch.Light.Update.Dump.{
  item-Laws, greatest-target, all_items, length-all_items, below-all_items, count-all_items,
  greatest-all_items,
}
use fosketch.Light.Update.Plain.{length-update, update-greatest}

get_elem?-AreBytes : (l : List ℕ) (i v : ℕ) → AreBytes l → get_elem? l i ≡ some v → v < 256
get_elem?-AreBytes [] i v b e = absurd (cc)
get_elem?-AreBytes (u ∷ l) zero v b e = let same : u ≡ v = cc in omega (arith, b.0)
get_elem?-AreBytes (u ∷ l) (suc i) v b e = get_elem?-AreBytes l i v b.1 e

-- The sizes that are written back as bytes.
read_back :
    (n : ℕ) (zs : List Item) (ys : List ℕ)
    → length ys ≡ n
    → ((k : ℕ)
        → k < n
        → (z : Item) × (get_elem? zs k ≡ some z) × (z.size < 256) × (get_elem? ys k ≡ some z.size))
    → map (λ (x : Item). x.size % 256) (take n zs) ≡ ys
read_back zero zs [] e at = refl
read_back zero zs (y ∷ ys) e at = absurd (omega arith)
read_back (suc n) zs [] e at = absurd (omega arith)
read_back (suc n) [] (y ∷ ys) e at = let h = at 0 (omega arith) in absurd (cc)
read_back (suc n) (x ∷ zs) (y ∷ ys) e at =
    let h = at 0 (omega arith) in
    let here : x ≡ h.0 = cc in
    let out : y ≡ h.0.size = cc in
    let small : x.size < 256 = rw here h.2 in
    ap₂ ◌∷◌ (mod-eq_of_lt small ∙ ap (λ (u : Item). u.size) here ∙ sym out)
      (read_back n zs ys (omega arith) (λ k lt. at (suc k) (omega arith)))

-- The power of two at which the array ends.
pub two_pow-le : (num : ℕ) → num ≤ 2 ^ 30 → 2 ^ ceil_log2 num ≤ 2 ^ 30
two_pow-le num le =
    let (up, least) = ceil_log2_least num (omega arith) in
    elim (dec_lt 30 (ceil_log2 num)) [
      | yes lt ↦ absurd (omega (arith, least 30 lt))
      | no le' ↦ pow-le-pow_right {n = 2} (omega arith) {j = 30} (omega arith)
    ]

module _ (hash32 : ℕ → ℕ → ℕ) (cus_hash : ℕ) where
  -- For a light part of bytes, not empty and at most 2^30 elements long together with the heavy
  -- flows, and a padding that fills the array up to the power of two, the oblivious merge by two
  -- sorts and a pass leaves the counters that the plain loop over the heavy flows leaves.
  pub o_update_cu_sketch-update_cu_sketch_no :
      (junk light : List ℕ) (heavy : List Item)
      → AreBytes light
      → 0 < length light
      → length light + length heavy ≤ 2 ^ 30
      → length junk ≡ 2 ^ ceil_log2 (length light + length heavy) - (length light + length heavy)
      → o_update_cu_sketch hash32 cus_hash junk light heavy
        ≡ update_cu_sketch_no hash32 cus_hash light heavy
  unfolding o_update_cu_sketch greater_flow_id
  o_update_cu_sketch-update_cu_sketch_no junk light heavy bytes pos fits fill =
      let n = length light in
      let num = n + length heavy in
      let len = 2 ^ ceil_log2 num in
      let le = two_pow-le num fits in
      let start : Item = record { flow_id = 0; size = 0 } in
      let up = (ceil_log2_least num (omega arith)).0 in
      let small : n ≤ dummy_flow = omega arith in
      let found = λ (k : ℕ) (lt : k < n).
        bitonic_lookup item-Laws greater_flow_id (λ x y. refl) n k num len start
          (all_items hash32 cus_hash junk light heavy) small lt
          (omega (arith, length-all_items hash32 cus_hash junk light heavy)) le
          (below-all_items hash32 cus_hash junk light heavy pos small)
          (count-all_items hash32 cus_hash junk light heavy pos small) in
      read_back n _ (update_cu_sketch_no hash32 cus_hash light heavy)
        (length-update hash32 cus_hash heavy light)
        (λ k lt.
          let (z, at, key, worth) = found k lt in
          let (v, e) = get_elem?-some light k lt in
          let all = worth ∙ greatest-all_items hash32 cus_hash junk light heavy pos small k v e in
          let v_small = get_elem?-AreBytes light k v bytes e in
          let heavy_small = greatest-target hash32 cus_hash n k heavy in
          (
            z,
            at,
            omega (arith, all, v_small, heavy_small),
            update-greatest hash32 cus_hash k heavy light v e ∙ ap some (sym all),
          ))
