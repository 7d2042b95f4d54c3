-- ===== src/Light/Update/Plain.antt =====
-- The plain merge leaves the greatest of a counter and of the sizes that go to it.
use native.Mathlib.Nat.{mod-lt}
use fosketch.Prelude.{
  ℕ, zero, suc, ◌<◌, ◌≡◌, refl, ap, ◌∙◌, true, false, List, [], ◌∷◌, map, arith, length, get_or,
  set, ltb, ◌==◌, if◌then◌else◌, some, get_elem?, length-set, max, lt-length,
}
use fosketch.Counts.{Item}
use fosketch.Light.Update.{target, update_cu_sketch_no}
use fosketch.Light.Update.Dump.{greatest}

-- What the plain update does to the counters at one index.
pub length-set_greater :
    (light : List ℕ) (i s : ℕ)
    → length (if ltb (get_or light i 0) s then set light i s else light) ≡ length light
length-set_greater light i s =
    elim (ltb (get_or light i 0) s)
      as (λ b. length (if b then set light i s else light) ≡ length light) [
        | true ↦ length-set light i s
        | false ↦ refl
      ]

set_greater :
    (light : List ℕ) (i s k v : ℕ)
    → i < length light
    → get_elem? light k ≡ some v
    → get_elem? (if ltb (get_or light i 0) s then set light i s else light) k
      ≡ some (max v (if i == k then s else 0))
set_greater [] i s k v lt e = absurd (cc)
set_greater (u ∷ light) zero s zero v lt e = let same : u ≡ v = cc in rw (← same) (ground arith)
set_greater (u ∷ light) zero s (suc k) v lt e = ground arith
set_greater (u ∷ light) (suc i) s zero v lt e = ground arith
set_greater (u ∷ light) (suc i) s (suc k) v lt e =
    ground (arith, set_greater light i s k v (omega arith) e)

module _ (hash32 : ℕ → ℕ → ℕ) (cus_hash : ℕ) where
  pub length-update :
      (heavy : List Item) (light : List ℕ)
      → length (update_cu_sketch_no hash32 cus_hash light heavy) ≡ length light
  unfolding update_cu_sketch_no
  length-update [] light = refl
  length-update (x ∷ heavy) light =
      let t = target hash32 cus_hash (length light) x in
      length-update heavy _ ∙ length-set_greater light t.flow_id t.size

  -- The plain update leaves the greatest of the counter and the sizes that go to it.
  pub update-greatest :
      (k : ℕ) (heavy : List Item) (light : List ℕ) (v : ℕ)
      → get_elem? light k ≡ some v
      → get_elem? (update_cu_sketch_no hash32 cus_hash light heavy) k
        ≡ some (max v (greatest k (map (target hash32 cus_hash (length light)) heavy)))
  unfolding update_cu_sketch_no
  update-greatest k [] light v e = e ∙ ap some (omega arith)
  update-greatest k (x ∷ heavy) light v e =
      let t = target hash32 cus_hash (length light) x in
      let small : t.flow_id < length light =
        mod-lt (hash32 x.flow_id cus_hash) (omega (arith, lt-length light k e)) in
      let now = set_greater light t.flow_id t.size k v small e in
      let v' = max v (if t.flow_id == k then t.size else 0) in
      update-greatest k heavy _ v' now
      ∙ ap (λ m. some (max v' (greatest k (map (target hash32 cus_hash m) heavy))))
          (length-set_greater light t.flow_id t.size)
      ∙ ap some (omega arith)
