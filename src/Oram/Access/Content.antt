-- ===== src/Oram/Access/Content.antt =====
-- The contents of blocks, without the leaves, and where a block with an id lies.
use mathlib.Core.List.{Permᴰ, Mem, mem-cons_self, mem-cons_of_mem}
use mathlib.Core.Logic.{∥∥₁_elim}
use mathlib.Core.Bool.{Bool-set}
use fosketch.Prelude.{
  ℕ, zero, suc, ◌+◌, ◌≤◌, ◌<◌, ◌≡◌, ◌≢◌, refl, ap, ◌∙◌, inl, inr, Bool, true, false, ◌||◌, List, [],
  ◌∷◌, map, Perm, some, set, get_elem?, arith, Bool-cases, ◌==◌, ==_iff, length-set,
}
use fosketch.Oram.Block.{Block, is_dummy, reals, reals-dummy, reals-real, dummy_flag}
use fosketch.Oram.Stash.{Stash}
use fosketch.Oram.Stash.Write.{DummyFrom, insert_first}
use fosketch.Oram.Stash.Path.{insert_path}
use fosketch.Oram.Stash.Places.{IsStash}
use fosketch.Oram.Read.Lookup.{Absent}
use fosketch.Oram.Evict.Compress.{IdsFit}

-- The id and the bytes of each block.
abbrev pub content : Block → ℕ × List ℕ
content b = (b.bid, b.payload)

abbrev pub contents : List Block → List (ℕ × List ℕ)
contents bs = map content bs

-- Does a block have the id?
unfoldable pub has : ℕ → List Block → Bool
has bid [] = false
has bid (s ∷ ss) = (s.bid == bid) || has bid ss

has-Permᴰ : (bid : ℕ) {xs ys : List Block} → Permᴰ xs ys → has bid xs ≡ has bid ys
unfolding has
has-Permᴰ bid Permᴰ.nil = refl
has-Permᴰ bid (Permᴰ.cons {b = b} e p) = rw e (ap (◌||◌ (b.bid == bid)) (has-Permᴰ bid p))
has-Permᴰ bid (Permᴰ.swap {a' = a'} {b' = b'} {l = l} e f) = rw (e, f) (ground arith)
has-Permᴰ bid (Permᴰ.trans p q) = has-Permᴰ bid p ∙ has-Permᴰ bid q

pub has-perm : (bid : ℕ) {xs ys : List Block} → Perm xs ys → has bid xs ≡ has bid ys
has-perm bid {xs} {ys} p = ∥∥₁_elim p (Bool-set (has bid xs) (has bid ys)) (has-Permᴰ bid)

pub has-reals : (bid : ℕ) (ss : List Block) → has bid (reals ss) ≡ true → has bid ss ≡ true
unfolding has reals
has-reals bid [] h = h
has-reals bid (s ∷ ss) h = ground (arith, has-reals bid ss)

-- A block with an id that no dummy has lies among the searched slots; this is the first of them.
pub record First (bid n j : ℕ) (ss : List Block) : Type 0 where
  pub place : ℕ
  pub block : Block
  pub at : get_elem? ss place ≡ some block
  pub named : block.bid ≡ bid
  pub before : Absent bid place ss
  pub searched : j + place < n

pub find-First :
    (bid n j : ℕ) (ss : List Block)
    → bid ≢ dummy_flag
    → DummyFrom n j ss
    → has bid ss ≡ true
    → First bid n j ss
unfolding has
find-First bid n j [] real d h = absurd (cc)
find-First bid n j (s ∷ ss) real d h = elim (Bool-cases (s.bid == bid)) [
  | inl e ↦
      let same = (==_iff s.bid bid).0 e in
      record {
        place = 0;
        block = s;
        at = refl;
        named = same;
        before = tt;
        searched = ground (arith, d.0);
      }
  | inr e ↦
      let f = find-First bid n (j + 1) ss real d.1 (ground arith) in
      record {
        place = suc f.place;
        block = f.block;
        at = f.at;
        named = f.named;
        before = ((λ same. absurd (ground (arith, same))), f.before);
        searched = omega (arith, f.searched);
      }
]

-- A new leaf for one block.
pub contents-set :
    (ss : List Block) (i pos : ℕ) (s : Block)
    → get_elem? ss i ≡ some s
    → contents (reals (set ss i (record s { pos = pos }))) ≡ contents (reals ss)
contents-set [] i pos s e = refl
contents-set (x ∷ ss) zero pos s e =
    let same : x ≡ s = cc in
    let s' = record s { pos = pos } in
    elim (Bool-cases (is_dummy s)) [
      | inl d ↦ rw (same, reals-dummy s' ss d, reals-dummy s ss d) refl
      | inr d ↦ rw (same, reals-real s' ss d, reals-real s ss d) refl
    ]
contents-set (x ∷ ss) (suc i) pos s e = elim (Bool-cases (is_dummy x)) [
  | inl d ↦
      rw (reals-dummy x (set ss i (record s { pos = pos })) d, reals-dummy x ss d)
        (contents-set ss i pos s e)
  | inr d ↦
      rw (reals-real x (set ss i (record s { pos = pos })) d, reals-real x ss d)
        (ap (◌∷◌ (content x)) (contents-set ss i pos s e))
]

-- A block that counts is among the contents.
pub contents-Mem :
    (ss : List Block) (i : ℕ) (s : Block)
    → get_elem? ss i ≡ some s
    → is_dummy s ≡ false
    → Mem (content s) (contents (reals ss))
contents-Mem [] i s e r = absurd (cc)
contents-Mem (x ∷ ss) zero s e r =
    let same : x ≡ s = cc in rw (same, reals-real s ss r) mem-cons_self
contents-Mem (x ∷ ss) (suc i) s e r = elim (Bool-cases (is_dummy x)) [
  | inl d ↦ rw (reals-dummy x ss d) (contents-Mem ss i s e r)
  | inr d ↦ rw (reals-real x ss d) (mem-cons_of_mem (content x) (contents-Mem ss i s e r))
]

DummyFrom-set :
    (n j i pos : ℕ) (ss : List Block) (s : Block)
    → get_elem? ss i ≡ some s
    → DummyFrom n j ss
    → DummyFrom n j (set ss i (record s { pos = pos }))
DummyFrom-set n j i pos [] s e d = tt
DummyFrom-set n j zero pos (x ∷ ss) s e d = let same : x ≡ s = cc in (rw (← same) d.0, d.1)
DummyFrom-set n j (suc i) pos (x ∷ ss) s e d = (d.0, DummyFrom-set n (j + 1) i pos ss s e d.1)

pub IdsFit-set :
    (i pos : ℕ) (ss : List Block) (s : Block)
    → get_elem? ss i ≡ some s
    → IdsFit ss
    → IdsFit (set ss i (record s { pos = pos }))
IdsFit-set i pos [] s e d = tt
IdsFit-set zero pos (x ∷ ss) s e d = let same : x ≡ s = cc in (rw (← same) d.0, d.1)
IdsFit-set (suc i) pos (x ∷ ss) s e d = (d.0, IdsFit-set i pos ss s e d.1)

pub IsStash-set :
    (st : Stash) (i pos : ℕ) (s : Block)
    → get_elem? st.slots i ≡ some s
    → IsStash st
    → IsStash (record st { slots = set st.slots i (record s { pos = pos }) })
IsStash-set st i pos s e ok = record {
  whole = length-set st.slots i (record s { pos = pos }) ∙ ok.whole;
  searched = ok.searched;
  inside = ok.inside;
  beyond = DummyFrom-set st.length_st 0 i pos st.slots s e ok.beyond;
}

IdsFit-insert_first :
    (p : Block) (ss : List Block) → p.bid ≤ dummy_flag → IdsFit ss → IdsFit (insert_first p ss)
unfolding insert_first
IdsFit-insert_first p [] le f = tt
IdsFit-insert_first p (s ∷ ss) le f = elim (Bool-cases (is_dummy s)) [
  | inl d ↦ rw d (le, f.1)
  | inr d ↦ rw d (f.0, IdsFit-insert_first p ss le f.1)
]

pub IdsFit-insert_path :
    (path ss : List Block) → IdsFit path → IdsFit ss → IdsFit (insert_path path ss)
unfolding insert_path
IdsFit-insert_path [] ss g f = f
IdsFit-insert_path (p ∷ path) ss g f = elim (Bool-cases (is_dummy p)) [
  | inl d ↦ rw d (IdsFit-insert_path path ss g.1 f)
  | inr d ↦ rw d (IdsFit-insert_path path (insert_first p ss) g.1 (IdsFit-insert_first p ss g.0 f))
]
