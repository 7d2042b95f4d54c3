-- ===== src/Sorter/Bitonic/Loop.antt =====
-- The compare loop of `bitonicMerge` seen through a threshold, place by place.
use fosketch.Prelude.{
  ℕ, zero, suc, ◌+◌, ◌-◌, ◌≤◌, ◌≡◌, Bool, ◌&&◌, ◌||◌, List, arith, ltb, leb, ◌==◌, ◌∙◌,
  if◌then◌else◌,
}
use fosketch.Prelude.Loops.{for_range}
use fosketch.Sorter.Order.{Comparator}
use fosketch.Sorter.Exchange.{compare, bit, bit-compare}
use fosketch.Sorter.Bitonic.{compare_range}

-- One round ahead of the rest of the loop, on the thresholds alone.
rounds :
    (m count i k : ℕ) (p q : ℕ → Bool)
    → suc count ≤ m
    → ((l : ℕ)
        → q l ≡ (if i == l then p i && p (i + m) else if i + m == l then p i || p (i + m) else p l))
    → (if leb (i + 1) k && ltb k (i + 1 + count)
        then q k && q (k + m)
        else if leb (i + 1 + m) k && ltb k (i + 1 + m + count)
        then q (k - m) || q k
        else q k)
      ≡ (if leb i k && ltb k (i + suc count)
          then p k && p (k + m)
          else if leb (i + m) k && ltb k (i + m + suc count)
          then p (k - m) || p k
          else p k)
rounds m count i k p q h hq = ground (arith, hq k, hq (k + m), hq (k - m))

module _ {ℓ} {A : Type ℓ} (c : Comparator A) (dir : Bool) (t : A) where
  -- While the windows `[i, i + count)` and `[i + m, i + m + count)` do not meet.
  compare_loop-bit :
      (m count i : ℕ) (a : List A) (k : ℕ)
      → count ≤ m
      → bit c dir t (for_range count i (λ k s. compare c dir s k (k + m)) a) k ≡ (
          if leb i k && ltb k (i + count)
          then bit c dir t a k && bit c dir t a (k + m)
          else if leb (i + m) k && ltb k (i + m + count)
          then bit c dir t a (k - m) || bit c dir t a k
          else bit c dir t a k)
  unfolding for_range
  compare_loop-bit m zero i a k h = ground arith
  compare_loop-bit m (suc count) i a k h =
      compare_loop-bit m count (i + 1) (compare c dir a i (i + m)) k (omega arith)
      ∙ rounds m count i k (bit c dir t a) (bit c dir t (compare c dir a i (i + m))) h
          (λ l. bit-compare c dir t a i (i + m) l (omega arith))

  pub compare_range-bit :
      (m lo count : ℕ) (a : List A) (k : ℕ)
      → count ≤ m
      → bit c dir t (compare_range c dir m lo count a) k ≡ (
          if leb lo k && ltb k (lo + count)
          then bit c dir t a k && bit c dir t a (k + m)
          else if leb (lo + m) k && ltb k (lo + m + count)
          then bit c dir t a (k - m) || bit c dir t a k
          else bit c dir t a k)
  unfolding compare_range
  compare_range-bit m lo count a k h = compare_loop-bit m count lo a k h
