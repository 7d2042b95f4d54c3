-- ===== src/Light/Blocks/Merges.antt =====
-- The merge by cache lines does what the plain one does.
use fosketch.Prelude.{
  ℕ, ◌<◌, ◌≡◌, sym, ap, ◌∙◌, List, map, length, get_elem?-some, get_or, get_or-get, max,
}
use fosketch.Counts.{Item}
use fosketch.Oram.Block.{Block}
use fosketch.Light.Update.{target, update_cu_sketch_no}
use fosketch.Light.Update.Dump.{greatest}
use fosketch.Light.Update.Plain.{update-greatest}

module _ (hash32 : ℕ → ℕ → ℕ) (cus_hash : ℕ) where
  -- What the plain merge leaves in a counter.
  pub update_byte :
      (light : List ℕ) (heavy : List Item) (k : ℕ)
      → k < length light
      → get_or (update_cu_sketch_no hash32 cus_hash light heavy) k 0
        ≡ max (get_or light k 0) (greatest k (map (target hash32 cus_hash (length light)) heavy))
  update_byte light heavy k lt =
      let (v, e) = get_elem?-some light k lt in
      get_or-get (update_cu_sketch_no hash32 cus_hash light heavy) k 0 _
        (update-greatest hash32 cus_hash k heavy light v e)
      ∙ ap (λ u. max u (greatest k (map (target hash32 cus_hash (length light)) heavy)))
          (sym (get_or-get light k 0 v e))
