-- ===== src/Oram/Stash/Places.antt =====
-- The well-formedness of the stash, and the place that one more block takes in it.
use mathlib.Core.List.Perm
use fosketch.Prelude.{
  ℕ, zero, suc, ◌+◌, ◌≤◌, ◌<◌, ◌≡◌, refl, sym, ◌∙◌, inl, inr, true, false, List, [], ◌∷◌, Perm,
  arith, length, replicate, length-replicate, Bool-cases,
}
use fosketch.Oram.Block.{Block, is_dummy, erase_bid, reals, reals-dummy, reals-real}
use fosketch.Oram.Stash.{Stash, max_stash_num, default_stash_length, init_stash}
use fosketch.Oram.Stash.Write.{
  insert_first, insert_first-free, insert_first-taken, any_dummy, any_dummy-taken, DummyFrom,
}

-- The array is whole, the searched length is positive and inside it, and what lies beyond is free.
pub record IsStash (st : Stash) : Type 0 where
  pub whole : length st.slots ≡ max_stash_num
  pub searched : 0 < st.length_st
  pub inside : st.length_st ≤ max_stash_num
  pub beyond : DummyFrom st.length_st 0 st.slots

pub length-insert_first : (p : Block) (ss : List Block) → length (insert_first p ss) ≡ length ss
unfolding insert_first
length-insert_first p [] = refl
length-insert_first p (s ∷ ss) = ground (arith, length-insert_first p ss)

-- Without a dummy among the first `n`, there are `n` real blocks.
pub full_reals :
    (n : ℕ) (ss : List Block) → n ≤ length ss → any_dummy n ss ≡ false → n ≤ length (reals ss)
unfolding any_dummy reals
full_reals zero ss le h = omega arith
full_reals (suc n) [] le h = absurd (omega arith)
full_reals (suc n) (s ∷ ss) le h = ground (arith, full_reals n ss)

-- The slot at `n` is a dummy, so the first `m` have one if `n` is among them.
pub any_dummy-at :
    (n m j : ℕ) (ss : List Block)
    → DummyFrom n j ss
    → n < j + m
    → n < j + length ss
    → j ≤ n
    → any_dummy m ss ≡ true
unfolding any_dummy
any_dummy-at n m j [] d lt in_range le = absurd (omega arith)
any_dummy-at n zero j (s ∷ ss) d lt in_range le = absurd (omega arith)
any_dummy-at n (suc m) j (s ∷ ss) d lt in_range le =
    ground (arith, d.0, any_dummy-at n m (j + 1) ss d.1)

pub DummyFrom-insert :
    (p : Block) (n j m : ℕ) (ss : List Block)
    → n ≡ j + m
    → any_dummy m ss ≡ true
    → DummyFrom n j ss
    → DummyFrom n j (insert_first p ss)
unfolding any_dummy
DummyFrom-insert p n j zero ss e h d = absurd (cc)
DummyFrom-insert p n j (suc m) [] e h d = absurd (cc)
DummyFrom-insert p n j (suc m) (s ∷ ss) e h d = elim (Bool-cases (is_dummy s)) [
  | inl free ↦ rw (insert_first-free p s ss free) ((λ le. absurd (omega arith)), d.1)
  | inr taken ↦
      let h' : any_dummy m ss ≡ true = sym (any_dummy-taken m s ss taken) ∙ h in
      rw (insert_first-taken p s ss taken)
        (d.0, DummyFrom-insert p n (j + 1) m ss (omega arith) h' d.1)
]

pub reals-insert_first :
    (p : Block) (n : ℕ) (ss : List Block)
    → is_dummy p ≡ false
    → any_dummy n ss ≡ true
    → Perm (reals (insert_first p ss)) (p ∷ reals ss)
unfolding any_dummy
reals-insert_first p zero ss real h = absurd (cc)
reals-insert_first p (suc n) [] real h = absurd (cc)
reals-insert_first p (suc n) (s ∷ ss) real h = elim (Bool-cases (is_dummy s)) [
  | inl free ↦
      rw (insert_first-free p s ss free, reals-real p ss real, reals-dummy s ss free) (Perm.refl _)
  | inr taken ↦
      let ih = reals-insert_first p n ss real (sym (any_dummy-taken n s ss taken) ∙ h) in
      rw
        (
          insert_first-taken p s ss taken,
          reals-real s (insert_first p ss) taken,
          reals-real s ss taken,
        )
        (Perm.trans (Perm.cons s ih) (Perm.swap p s (reals ss)))
]

-- A stash whose slots are all dummies, and one without a slot beyond `length_st`.
DummyFrom-replicate : (n j k : ℕ) (b : Block) → DummyFrom n j (replicate k (erase_bid b))
DummyFrom-replicate n j zero b = tt
DummyFrom-replicate n j (suc k) b = ((λ le. refl), DummyFrom-replicate n (j + 1) k b)

pub DummyFrom-within : (n j : ℕ) (ss : List Block) → j + length ss ≤ n → DummyFrom n j ss
DummyFrom-within n j [] le = tt
DummyFrom-within n j (s ∷ ss) le =
    ((λ h. absurd (omega arith)), DummyFrom-within n (j + 1) ss (omega arith))

pub init_stash-IsStash : (b : Block) → IsStash (init_stash b)
unfolding init_stash
init_stash-IsStash b = record {
  whole = length-replicate max_stash_num (erase_bid b);
  searched = omega arith;
  inside = omega arith;
  beyond = DummyFrom-replicate default_stash_length 0 max_stash_num b;
}
