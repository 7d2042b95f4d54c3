-- ===== src/Oram/Query/Answers.antt =====
-- What a query of a flow answers.
use mathlib.Core.List.{Mem}
use mathlib.Core.Path.{subst}
use native.Mathlib.Decide.{dec_lt}
use fosketch.Prelude.{
  ℕ, zero, suc, ◌+◌, ◌-◌, ◌%◌, ◌≤◌, ◌<◌, ◌≡◌, ◌≢◌, refl, ap, ◌∙◌, Bool, true, false, List, arith,
  get_or, ◌==◌, if◌then◌else◌,
}
use fosketch.Prelude.Loops.{for_range}
use fosketch.Counts.{Item}
use fosketch.Oram.Block.{Block}
use fosketch.Oram.Sketch.{Sketch}
use fosketch.Oram.Read.{Read}
use fosketch.Oram.Access.{is_table, bid_of, o_access}
use fosketch.Oram.Access.Leaf.{for_range-miss}
use fosketch.Oram.Access.Conserves.{Ready, Accessed, o_access_keeps, within_reach}
use fosketch.Oram.Query.{Globals, item_at, heavy_at, index_of, scan_items, size_of, o_access_fid}

-- The last round that passes the test decides.
for_range-last {ℓ} :
    {A : Type ℓ} (n i t : ℕ) (test : ℕ → Bool) (v : ℕ → A) (a : A)
    → i ≤ t
    → t < i + n
    → test t ≡ true
    → ((k : ℕ) → t < k → k < i + n → test k ≡ false)
    → for_range n i (λ k x. if test k then v k else x) a ≡ v t
unfolding for_range
for_range-last zero i t test v a l u at after = absurd (omega arith)
for_range-last (suc n) i t test v a l u at after = elim (dec_lt i t) [
  | yes lt ↦
      for_range-last n (i + 1) t test v _ (omega arith) (omega arith) at
        (λ k p q. after k p (omega arith))
  | no ge ↦
      let here : i ≡ t = omega arith in
      let now : test i ≡ true = ap test here ∙ at in
      let rest =
        for_range-miss n (i + 1) test v (v i) (λ k p q. after k (omega arith) (omega arith)) in
      rw now (rest ∙ ap v here)
]

-- Among the items from `lo` to `n` none is of the flow.
abbrev pub NoneOf : (flow_id lo n : ℕ) → (ℕ → Item) → Type 0
NoneOf flow_id lo n item = (k : ℕ) → lo ≤ k → k < n → (item k).flow_id ≢ flow_id

scan_items-last :
    (flow_id n t : ℕ) (item : ℕ → Item) (size : ℕ)
    → t < n
    → (item t).flow_id ≡ flow_id
    → NoneOf flow_id (t + 1) n item
    → scan_items flow_id n item size ≡ (item t).size
unfolding scan_items
scan_items-last flow_id n t item size lt at after =
    for_range-last n 0 t (λ x. (item x).flow_id == flow_id) (λ x. (item x).size) size (omega arith)
      (omega arith) (ground (arith, at))
      (λ k p q. let differ = after k (omega arith) (omega arith) in ground (arith, differ))

scan_items-none :
    (flow_id n : ℕ) (item : ℕ → Item) (size : ℕ)
    → NoneOf flow_id 0 n item
    → scan_items flow_id n item size ≡ size
unfolding scan_items
scan_items-none flow_id n item size none_of =
    for_range-miss n 0 (λ x. (item x).flow_id == flow_id) (λ x. (item x).size) size
      (λ k p q. let differ = none_of k (omega arith) (omega arith) in ground (arith, differ))

-- The block of the path or the stash that holds the index, by its bytes.
abbrev pub Holding : (bid : ℕ) (sk : Sketch) (payload : List ℕ) → Type 0
Holding bid sk payload = Mem (bid, payload) (within_reach sk.level (get_or sk.pos_map bid 0) sk)

-- The size of a flow in a stash table: the last item of the flow in `pStashHeavy` counts, without one
-- there the last in the block, without one anywhere the size is 0.
pub record TableSize (g : Globals) (flow_id : ℕ) (sk : Sketch) (payload : List ℕ) (size : ℕ)
    : Type 0 where
  pub in_stash :
      (j : ℕ)
      → j < g.count_stash
      → (heavy_at g j).flow_id ≡ flow_id
      → NoneOf flow_id (j + 1) g.count_stash (heavy_at g)
      → size ≡ (heavy_at g j).size
  pub in_block :
      (x : ℕ)
      → x < sk.n_record
      → (item_at sk payload x).flow_id ≡ flow_id
      → NoneOf flow_id (x + 1) sk.n_record (item_at sk payload)
      → NoneOf flow_id 0 g.count_stash (heavy_at g)
      → size ≡ (item_at sk payload x).size
  pub nowhere :
      NoneOf flow_id 0 sk.n_record (item_at sk payload)
      → NoneOf flow_id 0 g.count_stash (heavy_at g)
      → size ≡ 0

two_scans :
    (g : Globals) (flow_id : ℕ) (sk : Sketch) (payload : List ℕ)
    → TableSize g flow_id sk payload (
        scan_items flow_id g.count_stash
          (heavy_at g)
          (scan_items flow_id sk.n_record (item_at sk payload) 0))
two_scans g flow_id sk payload = record {
  in_stash = λ j lt at after. scan_items-last flow_id g.count_stash j (heavy_at g) _ lt at after;
  in_block = λ x lt at after none_of.
      scan_items-none flow_id g.count_stash (heavy_at g) _ none_of
      ∙ scan_items-last flow_id sk.n_record x (item_at sk payload) 0 lt at after;
  nowhere = λ none_in none_of.
      scan_items-none flow_id g.count_stash (heavy_at g) _ none_of
      ∙ scan_items-none flow_id sk.n_record (item_at sk payload) 0 none_in;
}

Accessed-Holding :
    (bid pos : ℕ) (sk : Sketch) (r : Read)
    → Accessed bid (get_or sk.pos_map bid 0) pos sk r
    → Holding bid sk r.buffer.payload
Accessed-Holding bid pos sk r h =
    let reach = within_reach sk.level (get_or sk.pos_map bid 0) sk in
    subst (λ b. Mem (b, r.buffer.payload) reach) h.named h.held

size_of-light :
    (g : Globals) (flow_id index : ℕ) (sk : Sketch) (r : Read)
    → is_table sk.sketch_type ≡ false
    → r.found ≡ true
    → size_of g flow_id index sk r
      ≡ get_or r.buffer.payload (sk.payload_ind - 4 + index % sk.n_record) 0
unfolding size_of
size_of-light g flow_id index sk r light found = rw (light, found) refl

size_of-TableSize :
    (g : Globals) (flow_id index : ℕ) (sk : Sketch) (r : Read)
    → is_table sk.sketch_type ≡ true
    → r.found ≡ true
    → TableSize g flow_id sk r.buffer.payload (size_of g flow_id index sk r)
unfolding size_of
size_of-TableSize g flow_id index sk r table found =
    rw (table, found) (two_scans g flow_id sk r.buffer.payload)

module _ (hash32 : ℕ → ℕ → ℕ) where
  -- The answer of `OAccessFID` on a light sketch is the counter of the flow: the byte at the flow's
  -- index in the block with that index, which lies on its path or in the stash. The access to the block
  -- has what it needs.
  pub o_access_fid_light :
      (g : Globals) (flow_id pos : ℕ) (buffer : Block) (sk : Sketch)
      → let index = index_of hash32 g flow_id sk in
        let bid = bid_of sk index in
        is_table sk.sketch_type ≡ false
        → bid < sk.n_block
        → Ready bid (get_or sk.pos_map bid 0) sk
        → (payload : List ℕ) × Holding bid sk payload
          × ((o_access_fid hash32 g flow_id pos buffer sk).size
              ≡ get_or payload (sk.payload_ind - 4 + index % sk.n_record) 0)
  unfolding o_access_fid
  o_access_fid_light g flow_id pos buffer sk light lt ready =
      let index = index_of hash32 g flow_id sk in
      let r = o_access index pos buffer sk in
      let a = o_access_keeps index pos buffer sk lt ready in
      (
        r.buffer.payload,
        Accessed-Holding (bid_of sk index) pos sk r a,
        size_of-light g flow_id index sk r light a.found,
      )

  -- The answer of `OAccessFID` on a stash table, for the block with the flow's index, which lies on
  -- its path or in the stash: the size in the last item of the flow in `pStashHeavy`, else in the last
  -- one in the block, else 0. The access to the block has what it needs.
  pub o_access_fid_table :
      (g : Globals) (flow_id pos : ℕ) (buffer : Block) (sk : Sketch)
      → let index = index_of hash32 g flow_id sk in
        let bid = bid_of sk index in
        is_table sk.sketch_type ≡ true
        → bid < sk.n_block
        → Ready bid (get_or sk.pos_map bid 0) sk
        → (payload : List ℕ) × Holding bid sk payload
          × TableSize g flow_id sk payload (o_access_fid hash32 g flow_id pos buffer sk).size
  unfolding o_access_fid
  o_access_fid_table g flow_id pos buffer sk table lt ready =
      let index = index_of hash32 g flow_id sk in
      let r = o_access index pos buffer sk in
      let a = o_access_keeps index pos buffer sk lt ready in
      (
        r.buffer.payload,
        Accessed-Holding (bid_of sk index) pos sk r a,
        size_of-TableSize g flow_id index sk r table a.found,
      )
