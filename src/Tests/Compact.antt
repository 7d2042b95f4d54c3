-- ===== src/Tests/Compact.antt =====
-- The compression of a stash with gaps.
use fosketch.Prelude.{ℕ, [], ◌∷◌, ◌≡◌, refl, arith, replicate, map}
use fosketch.Oram.Block.{Block}
use fosketch.Oram.Stash.{Stash}
use fosketch.Oram.Stash.Places.{IsStash, DummyFrom-within}
use fosketch.Oram.Compact.{Compressed, compress_stash}
use fosketch.Oram.Compact.Order.{Compacted, compress_stash_keeps}

abbrev empty : Block
empty = record { bid = 65535; pos = 0; payload = 0 ∷ [] }

abbrev numbered : ℕ → Block
numbered n = record { bid = n; pos = 1; payload = n ∷ [] }

abbrev gappy : Stash
gappy = record {
  slots = empty ∷ numbered 7 ∷ empty ∷ empty ∷ numbered 4 ∷ replicate 100 empty;
  length_st = 105;
}

abbrev before : Compressed
before = record { stash = gappy; max_real_stash = 9; max_init_stash = 5 }

gappy-IsStash : IsStash gappy
gappy-IsStash = record {
  whole = refl;
  searched = omega arith;
  inside = omega arith;
  beyond = DummyFrom-within 105 0 gappy.slots (omega arith);
}

compress_stash_run :
    map (λ s. s.bid) (compress_stash before).stash.slots ≡ 7 ∷ 4 ∷ replicate 103 65535
unfolding compress_stash
compress_stash_run = refl

compress_stash_keeps_example :
    IsStash (compress_stash before).stash × Compacted before (compress_stash before)
compress_stash_keeps_example = compress_stash_keeps before gappy-IsStash
