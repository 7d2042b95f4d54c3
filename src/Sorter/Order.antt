-- ===== src/Sorter/Order.antt =====
-- What a sorter asks of its comparator: `typedef bool (*Greater)(uint8_t *, uint8_t *)`.
use fosketch.Prelude.{
  ◌≡◌, Bool, true, false, not, ◌&&◌, ◌||◌, Option, none, some, arith, if◌then◌else◌,
}

-- `greater x y` is a strict weak order: `x` comes after `y`, and values may tie.
pub record Comparator {ℓ} (A : Type ℓ) : Type ℓ where
  pub greater : A → A → Bool
  pub asym : (x y : A) → greater x y ≡ true → greater y x ≡ false
  pub trans : (x y z : A) → greater x y ≡ false → greater y z ≡ false → greater x z ≡ false

module _ {ℓ} {A : Type ℓ} (c : Comparator A) where
  pub greater_irrefl : (x : A) → c.greater x x ≡ false
  greater_irrefl x = ground (arith, c.asym x x)

  -- The threshold view of a value: is it at or after `t`? In the other direction, is it before `t`?
  -- A place that holds nothing counts as after everything.
  abbrev pub bit_of : Bool → A → Option A → Bool
  bit_of dir t none = true
  bit_of true t (some x) = not (c.greater t x)
  bit_of false t (some x) = c.greater t x

  -- What a comparison does to the thresholds: the first place gets the conjunction.
  pub bit_of-first :
      (dir : Bool) (t x y : A)
      → bit_of dir t (some (if (if dir then c.greater x y else not (c.greater x y)) then y else x))
        ≡ (bit_of dir t (some x) && bit_of dir t (some y))
  bit_of-first true t x y = ground (arith, c.trans t y x, c.trans t x y, c.asym x y)
  bit_of-first false t x y = ground (arith, c.trans t y x, c.trans t x y, c.asym x y)

  pub bit_of-second :
      (dir : Bool) (t x y : A)
      → bit_of dir t (some (if (if dir then c.greater x y else not (c.greater x y)) then x else y))
        ≡ (bit_of dir t (some x) || bit_of dir t (some y))
  bit_of-second true t x y = ground (arith, c.trans t y x, c.trans t x y, c.asym x y)
  bit_of-second false t x y = ground (arith, c.trans t y x, c.trans t x y, c.asym x y)
