-- ===== src/Sorter/Bitonic/Shape.antt =====
-- The shapes of a bitonic piece under a threshold, and what one round of comparisons at distance
-- `m` makes of them. A shape is given with its bounds, so the number of false places is known.
use fosketch.Prelude.{
  ℕ, ◌+◌, ◌-◌, ◌≤◌, ◌<◌, ◌≡◌, Bool, not, ◌&&◌, ◌||◌, arith, ltb, leb, if◌then◌else◌,
}

-- True, then false from `a` up to `b`, then true.
pub record Valley (p : ℕ → Bool) (lo n a b : ℕ) : Type 0 where
  pub low : lo ≤ a
  pub ordered : a ≤ b
  pub high : b ≤ lo + n
  pub at : (k : ℕ) → lo ≤ k → k < lo + n → p k ≡ not (leb a k && ltb k b)

-- False, then true from `a` up to `b`, then false.
pub record Hill (p : ℕ → Bool) (lo n a b : ℕ) : Type 0 where
  pub low : lo ≤ a
  pub ordered : a ≤ b
  pub high : b ≤ lo + n
  pub at : (k : ℕ) → lo ≤ k → k < lo + n → p k ≡ (leb a k && ltb k b)

-- `q` is `p` after the comparisons of `k` and `k + m` for `lo ≤ k < lo + (n - m)`.
abbrev pub Halved : (ℕ → Bool) → (ℕ → Bool) → ℕ → ℕ → ℕ → Type 0
Halved p q lo n m =
    (k : ℕ)
    → q k ≡ (
        if leb lo k && ltb k (lo + (n - m))
        then p k && p (k + m)
        else if leb (lo + m) k && ltb k (lo + m + (n - m))
        then p (k - m) || p k
        else p k)

module _ {p q : ℕ → Bool} {lo n m : ℕ} (below : m < n) (twice : n ≤ m + m)
    (h : Halved p q lo n m) where
  module _ {a b : ℕ} (v : Valley p lo n a b) where
    -- At least `m` false places: they fill the lower part.
    pub wide-lower : m ≤ b - a → Valley q lo m lo (lo + m)
    wide-lower w = record {
      low = omega arith;
      ordered = omega arith;
      high = omega arith;
      at = λ k l u. ground (arith, h k, v.low, v.ordered, v.high, v.at k, v.at (k + m));
    }

    pub wide-upper : m ≤ b - a → Valley q (lo + m) (n - m) (a + m) b
    wide-upper w = record {
      low = omega (arith, v.low);
      ordered = omega (arith, v.ordered);
      high = omega (arith, v.high);
      at = λ k l u. ground (arith, h k, v.low, v.ordered, v.high, v.at k, v.at (k - m));
    }

    -- Fewer than `m`: the upper part is true, and the lower has one of three shapes.
    pub narrow-upper : b - a < m → Valley q (lo + m) (n - m) (lo + m) (lo + m)
    narrow-upper w = record {
      low = omega arith;
      ordered = omega arith;
      high = omega arith;
      at = λ k l u. ground (arith, h k, v.low, v.ordered, v.high, v.at k, v.at (k - m));
    }

    pub narrow-left : b ≤ lo + m → Valley q lo m a b
    narrow-left w = record {
      low = v.low;
      ordered = v.ordered;
      high = w;
      at = λ k l u. ground (arith, h k, v.low, v.ordered, v.high, v.at k, v.at (k + m));
    }

    pub narrow-right : lo + m ≤ a → Valley q lo m (a - m) (b - m)
    narrow-right w = record {
      low = omega arith;
      ordered = omega (arith, v.ordered);
      high = omega (arith, v.high);
      at = λ k l u. ground (arith, h k, v.low, v.ordered, v.high, v.at k, v.at (k + m));
    }

    pub narrow-across : b - a < m → a < lo + m → lo + m < b → Hill q lo m (b - m) a
    narrow-across w x y = record {
      low = omega arith;
      ordered = omega arith;
      high = omega arith;
      at = λ k l u. ground (arith, h k, v.low, v.ordered, v.high, v.at k, v.at (k + m));
    }

-- A hill is cut in two equal parts.
module _ (m : ℕ) {p q : ℕ → Bool} {lo n : ℕ} (half : n ≡ m + m) (h : Halved p q lo n m) where
  module _ {a b : ℕ} (v : Hill p lo n a b) where
    pub low-lower : b - a ≤ m → Hill q lo m lo lo
    low-lower w = record {
      low = omega arith;
      ordered = omega arith;
      high = omega arith;
      at = λ k l u. ground (arith, h k, v.low, v.ordered, v.high, v.at k, v.at (k + m));
    }

    pub low-upper_left : b ≤ lo + m → Hill q (lo + m) (n - m) (a + m) (b + m)
    low-upper_left w = record {
      low = omega (arith, v.low);
      ordered = omega (arith, v.ordered);
      high = omega (arith, v.high);
      at = λ k l u. ground (arith, h k, v.low, v.ordered, v.high, v.at k, v.at (k - m));
    }

    pub low-upper_right : lo + m ≤ a → Hill q (lo + m) (n - m) a b
    low-upper_right w = record {
      low = w;
      ordered = v.ordered;
      high = omega (arith, v.high);
      at = λ k l u. ground (arith, h k, v.low, v.ordered, v.high, v.at k, v.at (k - m));
    }

    pub low-upper_across : b - a ≤ m → a < lo + m → lo + m < b → Valley q (lo + m) (n - m) b (a + m)
    low-upper_across w x y = record {
      low = omega arith;
      ordered = omega arith;
      high = omega arith;
      at = λ k l u. ground (arith, h k, v.low, v.ordered, v.high, v.at k, v.at (k - m));
    }

    pub high-upper : m < b - a → Hill q (lo + m) (n - m) (lo + m) (lo + n)
    high-upper w = record {
      low = omega arith;
      ordered = omega arith;
      high = omega arith;
      at = λ k l u. ground (arith, h k, v.low, v.ordered, v.high, v.at k, v.at (k - m));
    }

    pub high-lower : m < b - a → Hill q lo m a (b - m)
    high-lower w = record {
      low = v.low;
      ordered = omega arith;
      high = omega (arith, v.high);
      at = λ k l u. ground (arith, h k, v.low, v.ordered, v.high, v.at k, v.at (k + m));
    }
