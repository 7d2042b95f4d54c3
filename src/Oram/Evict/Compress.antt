-- ===== src/Oram/Evict/Compress.antt =====
-- `OCompressStash` sorts the searched slots by id, which puts the dummies last, and searches no
-- further than the blocks that count.
use mathlib.Core.List.Perm
use mathlib.Core.Logic.{∥∥₁_elim}
use mathlib.Core.List.{Mem, Memᴰ, mem-cons_self, mem-cons_of_mem}
use native.Mathlib.Decide.{dec_lt}
use native.Mathlib.Bridge.{le_prop}
use fosketch.Prelude.{
  ℕ, zero, suc, ◌+◌, ◌≤◌, ◌<◌, ◌≡◌, refl, sym, ◌∙◌, inl, inr, true, List, [], ◌∷◌, Perm, some,
  arith, if◌then◌else◌, Bool-cases, length-perm, get_elem?, ltb,
}
use fosketch.Sorter.Bitonic.{sort}
use fosketch.Sorter.Bitonic.Sorts.{sort-IsSorted}
use fosketch.Sorter.Sorted.{IsSorted}
use fosketch.Oram.Block.{Block, is_dummy, dummy_flag, by_bid}
use fosketch.Oram.Stash.{Stash, default_stash_length}
use fosketch.Oram.Stash.Write.{DummyFrom}
use fosketch.Oram.Stash.Places.{IsStash}
use fosketch.Oram.Evict.{count_real, o_compress_stash}

get_elem?-Mem {ℓ} : {A : Type ℓ} (xs : List A) (i : ℕ) {x : A} → get_elem? xs i ≡ some x → Mem x xs
get_elem?-Mem [] i e = absurd (cc)
get_elem?-Mem (y ∷ xs) zero {x} e = let same : y ≡ x = cc in rw same mem-cons_self
get_elem?-Mem (y ∷ xs) (suc i) e = mem-cons_of_mem y (get_elem?-Mem xs i e)

-- Every id is a 16-bit word.
abbrev pub IdsFit : List Block → Type 0
IdsFit [] = Unit {0}
IdsFit (s ∷ ss) = (s.bid ≤ dummy_flag) × IdsFit ss

IdsFit-Memᴰ : (ss : List Block) (x : Block) → IdsFit ss → Memᴰ x ss → x.bid ≤ dummy_flag
IdsFit-Memᴰ [] x h m = elim m [ ]
IdsFit-Memᴰ (s ∷ ss) x h (Memᴰ.head e) = rw e h.0
IdsFit-Memᴰ (s ∷ ss) x h (Memᴰ.tail m) = IdsFit-Memᴰ ss x h.1 m

IdsFit-Mem : (ss : List Block) (x : Block) → IdsFit ss → Mem x ss → x.bid ≤ dummy_flag
IdsFit-Mem ss x h m = ∥∥₁_elim m le_prop (IdsFit-Memᴰ ss x h)

-- The predicate on slots by their places.
DummyFrom-get :
    (n j : ℕ) (ss : List Block)
    → ((k : ℕ) (s : Block) → n ≤ j + k → get_elem? ss k ≡ some s → is_dummy s ≡ true)
    → DummyFrom n j ss
DummyFrom-get n j [] h = tt
DummyFrom-get n j (s ∷ ss) h = (
  (λ le. h 0 s (omega arith) refl),
  DummyFrom-get n (j + 1) ss (λ k x le e. h (suc k) x (omega arith) e),
)

get-DummyFrom :
    (n j k : ℕ) (ss : List Block) {s : Block}
    → DummyFrom n j ss
    → n ≤ j + k
    → get_elem? ss k ≡ some s
    → is_dummy s ≡ true
get-DummyFrom n j k [] d le e = absurd (cc)
get-DummyFrom n j zero (x ∷ ss) {s} d le e =
    let same : x ≡ s = cc in rw (← same) (d.0 (omega arith))
get-DummyFrom n j (suc k) (x ∷ ss) d le e = get-DummyFrom n (j + 1) k ss d.1 (omega arith) e

count_real-le : (n : ℕ) (ss : List Block) → count_real n ss ≤ n
unfolding count_real
count_real-le zero ss = omega arith
count_real-le (suc n) [] = omega arith
count_real-le (suc n) (s ∷ ss) = ground (arith, count_real-le n ss)

-- No block that counts stands behind a dummy.
abbrev RealsFirst : ℕ → List Block → Type 0
RealsFirst n ss =
    (i j : ℕ) (x y : Block)
    → i < j
    → j < n
    → get_elem? ss i ≡ some x
    → get_elem? ss j ≡ some y
    → is_dummy x ≡ true
    → is_dummy y ≡ true

count_real-end :
    (n k : ℕ) (ss : List Block) {s : Block}
    → RealsFirst n ss
    → count_real n ss ≤ k
    → k < n
    → get_elem? ss k ≡ some s
    → is_dummy s ≡ true
unfolding count_real
count_real-end zero k ss h le lt e = absurd (omega arith)
count_real-end (suc n) k [] h le lt e = absurd (cc)
count_real-end (suc n) zero (x ∷ ss) {s} h le lt e =
    let same : x ≡ s = cc in rw (← same) (ground arith)
count_real-end (suc n) (suc k) (x ∷ ss) h le lt e = elim (Bool-cases (is_dummy x)) [
  | inl d ↦ h 0 (suc k) x _ (omega arith) lt refl e d
  | inr r ↦
      count_real-end n k ss
        (λ i j a b p q ea eb d. h (suc i) (suc j) a b (omega arith) (omega arith) ea eb d)
        (ground arith) (omega arith) e
]

sorted-RealsFirst :
    (n : ℕ) (ss : List Block)
    → ((s : Block) → Mem s ss → s.bid ≤ dummy_flag)
    → IsSorted by_bid n ss
    → RealsFirst n ss
unfolding by_bid
sorted-RealsFirst n ss small sorted i j x y lt in_range ex ey d =
    let s = sorted i j x y lt in_range ex ey in
    let b = small y (get_elem?-Mem ss j ey) in ground arith

-- Compression keeps the blocks and leaves a well-formed stash: the searched slots are the blocks that
-- count and no others, but five at least. Ids are 16-bit words.
pub o_compress_stash_keeps :
    (st : Stash)
    → IsStash st
    → IdsFit st.slots
    → let st' = o_compress_stash st in
      Perm st'.slots st.slots
      × IsStash st'
      × (st'.length_st ≡ (
          if ltb (count_real st.length_st st'.slots) default_stash_length
          then default_stash_length
          else count_real st.length_st st'.slots))
unfolding o_compress_stash
o_compress_stash_keeps st ok small =
    let n = st.length_st in
    let s =
      sort-IsSorted by_bid st.slots n (omega (arith, ok.inside))
        (omega (arith, ok.inside, ok.whole)) in
    let sorted = sort by_bid st.slots n in
    let count = count_real-le n sorted in
    let first =
      sorted-RealsFirst n sorted (λ x m. IdsFit-Mem st.slots x small ((Perm.mem_iff s.1.perm).0 m))
        s.0 in
    let c = count_real n sorted in
    let len = if ltb c default_stash_length then default_stash_length else c in
    let free : (k : ℕ) (x : Block) → len ≤ 0 + k → get_elem? sorted k ≡ some x → is_dummy x ≡ true =
      λ k x le e. elim (dec_lt k n) [
        | yes lt ↦ count_real-end n k sorted first (ground arith) lt e
        | no ge ↦
            get-DummyFrom n 0 k st.slots ok.beyond (omega arith)
              (sym (s.1.outside k (inr (omega arith))) ∙ e)
      ] in
    (
      s.1.perm,
      record {
        whole = length-perm s.1.perm ∙ ok.whole;
        searched = ground arith;
        inside = ground (arith, ok.inside);
        beyond = DummyFrom-get len 0 sorted free;
      },
      refl,
    )
