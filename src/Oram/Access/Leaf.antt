-- ===== src/Oram/Access/Leaf.antt =====
-- The scans of `pos_map` come to the entry of the block, and the branching accesses agree.
use fosketch.Prelude.{
  ℕ, zero, suc, ◌+◌, ◌-◌, ◌*◌, ◌/◌, ◌%◌, ◌≤◌, ◌<◌, ◌≡◌, ◌≢◌, inl, inr, Bool-cases, refl, sym, ap,
  ◌∙◌, Bool, true, false, List, arith, if◌then◌else◌, ◌==◌, get_or, ==_iff,
}
use fosketch.Prelude.Loops.{for_range}
use fosketch.Oram.Block.{Block}
use fosketch.Oram.Sketch.{Sketch}
use fosketch.Oram.Stash.{o_write_to_stash_s, o_write_to_stash_f}
use fosketch.Oram.Read.{o_read_from_stash_s, o_read_from_stash_f}
use fosketch.Oram.Evict.{o_rebuild_stash_s, o_rebuild_stash_f}
use fosketch.Oram.Access.{
  lookup_leaf, lookup_leaf_s, pace, o_access_s, o_access_f, answer, run_access,
}

-- A round that the loop does not come to, or has behind it, changes nothing.
pub for_range-miss {ℓ} :
    {A : Type ℓ} (n i : ℕ) (test : ℕ → Bool) (v : ℕ → A) (a : A)
    → ((k : ℕ) → i ≤ k → k < i + n → test k ≡ false)
    → for_range n i (λ k x. if test k then v k else x) a ≡ a
unfolding for_range
for_range-miss zero i test v a h = refl
for_range-miss (suc n) i test v a h =
    let now = h i (omega arith) (omega arith) in
    rw now (for_range-miss n (i + 1) test v a (λ k l u. h k (omega arith) (omega arith)))

for_range-hit {ℓ} :
    {A : Type ℓ} (n i t : ℕ) (test : ℕ → Bool) (v : ℕ → A) (a : A)
    → i ≤ t
    → t < i + n
    → test t ≡ true
    → ((k : ℕ) → test k ≡ true → k ≡ t)
    → for_range n i (λ k x. if test k then v k else x) a ≡ v t
unfolding for_range
for_range-hit zero i t test v a l u at only = absurd (omega arith)
for_range-hit (suc n) i t test v a l u at only = elim (Bool-cases (test i)) [
  | inl now ↦
      let here : i ≡ t = only i now in
      let rest : (k : ℕ) → i + 1 ≤ k → k < i + 1 + n → test k ≡ false = λ k p q.
        elim (Bool-cases (test k)) [
          | inl again ↦ let e = only k again in absurd (omega arith)
          | inr past ↦ past
        ] in
      rw now (for_range-miss n (i + 1) test v (v i) rest ∙ ap v here)
  | inr other ↦
      let differ : i ≢ t = λ e. absurd (let f : test i ≡ true = ap test e ∙ at in cc) in
      let later : i + 1 ≤ t = omega arith in
      rw other (for_range-hit n (i + 1) t test v a later (omega arith) at only)
]

-- Every variant of the scan gives the block's leaf, if the block is one of the `nBlock`.
pub lookup_leaf_lem :
    (pos_map : List ℕ) (n_block bid : ℕ)
    → bid < n_block
    → (lookup_leaf pos_map n_block bid ≡ get_or pos_map bid 0)
      × (lookup_leaf_s pos_map n_block bid ≡ get_or pos_map bid 0)
unfolding lookup_leaf lookup_leaf_s
lookup_leaf_lem pos_map n_block bid lt = (
  for_range-hit ((n_block + pace - 1) / pace) 0 (bid / pace) (λ k. k * pace == bid - bid % pace)
      (λ k. get_or pos_map bid 0) 0 (omega arith) (omega arith) (ground arith)
      (λ k e. let m = (==_iff (k * pace) (bid - bid % pace)).0 e in omega arith),
  for_range-hit n_block 0 bid (λ i. i == bid) (λ i. get_or pos_map i 0) 0 (omega arith)
      (omega arith) (ground arith) (λ k e. (==_iff k bid).0 e),
)

-- The two branching accesses give the same answer and leave the same sketch for each index of a block
-- that there is.
pub o_access_variants :
    (index pos : ℕ) (buffer : Block) (sk : Sketch)
    → index / sk.n_record < sk.n_block
    → o_access_s index pos buffer sk ≡ o_access_f index pos buffer sk
unfolding o_access_s o_access_f o_write_to_stash_s o_write_to_stash_f o_read_from_stash_s
    o_read_from_stash_f o_rebuild_stash_s o_rebuild_stash_f
o_access_variants index pos buffer sk lt =
    let bid = index / sk.n_record in
    let leaf = lookup_leaf_lem sk.pos_map sk.n_block bid lt in
    ap
      (λ l.
        answer 255 sk index
          (run_access o_write_to_stash_f o_read_from_stash_f o_rebuild_stash_f bid l pos buffer sk))
      (leaf.1 ∙ sym leaf.0)
