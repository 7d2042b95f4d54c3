-- ===== src/Oram/Block.antt =====
-- A block of `sizeBlock` bytes: its id, the leaf that it is mapped to, and the bytes behind these two
-- 16-bit words.
use fosketch.Prelude.{
  ℕ, Bool, List, [], ◌∷◌, ◌++◌, ◌==◌, if◌then◌else◌, true, false, ◌≡◌, refl, not, ltb, arith,
}
use fosketch.Sorter.Order.{Comparator}

pub record Block : Type 0 where
  pub bid : ℕ
  pub pos : ℕ
  pub payload : List ℕ

-- `DUMMY_FLAG`, the largest `bid_t`.
abbrev pub dummy_flag : ℕ
dummy_flag = 65535

abbrev pub is_dummy : Block → Bool
is_dummy b = b.bid == dummy_flag

abbrev pub is_real : Block → Bool
is_real b = not (is_dummy b)

-- `*(bid_t *)(…) = DUMMY_FLAG`: only the id is written.
abbrev pub erase_bid : Block → Block
erase_bid b = record b { bid = dummy_flag }

-- `sizeBucket` blocks side by side.
abbrev pub Bucket : Type 0
Bucket = List Block

-- The blocks that count, in order.
unfoldable pub reals : List Block → List Block
reals [] = []
reals (b ∷ bs) = if is_dummy b then reals bs else b ∷ reals bs

pub reals-dummy : (b : Block) (bs : List Block) → is_dummy b ≡ true → reals (b ∷ bs) ≡ reals bs
unfolding reals
reals-dummy b bs e = rw e refl

pub reals-real : (b : Block) (bs : List Block) → is_dummy b ≡ false → reals (b ∷ bs) ≡ b ∷ reals bs
unfolding reals
reals-real b bs e = rw e refl

pub reals-append : (xs ys : List Block) → reals (xs ++ ys) ≡ reals xs ++ reals ys
unfolding reals
reals-append [] ys = refl
reals-append (x ∷ xs) ys = ground (arith, reals-append xs ys)

-- `greater_SP`: by the id. `smaller_SP` is its opposite.
unfoldable pub by_bid : Comparator Block
by_bid = record {
  greater = λ x y. ltb y.bid x.bid;
  asym = λ x y h. ground arith;
  trans = λ x y z h k. ground arith;
}

-- `greater_FOS`: by the leaf.
unfoldable pub by_pos : Comparator Block
by_pos = record {
  greater = λ x y. ltb y.pos x.pos;
  asym = λ x y h. ground arith;
  trans = λ x y z h k. ground arith;
}

-- A path as the blocks that lie side by side in `Path`.
unfoldable pub blocks : List Bucket → List Block
blocks [] = []
blocks (b ∷ path) = b ++ blocks path
