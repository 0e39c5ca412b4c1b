-- ===== src/Money/Rounding.antt =====
-- Rounding up: the least multiple of the unit that is no smaller.
use native.Mathlib.Nat.{div-add-mod', mod-lt, pow-suc}
use schulealsstaat.Base.{ℕ, zero, suc, ◌+◌, ◌-◌, ◌*◌, ◌^◌, ◌≤◌, ◌<◌, ◌≡◌, arith}
use schulealsstaat.Types.{grid_places}
use schulealsstaat.Money.{ceil_div, hgc_roundup, unit_of}

pub lt_of_mul-lt : (x y b : ℕ) → x * b < y * b → x < y
lt_of_mul-lt x y b h = grind arith

pub pow_pos : (n : ℕ) → 0 < 10 ^ n
pow_pos zero = omega arith
pow_pos (suc n) = rw pow-suc (omega (arith, pow_pos n))

pub unit_of_pos : (d : ℕ) → 0 < unit_of d
unfolding unit_of
unit_of_pos d = pow_pos (grid_places - d)

pub mul_pos : (a b : ℕ) → 0 < a → 0 < b → 0 < a * b
mul_pos a b h k = grind arith

pub le-ceil_div_mul : (a b : ℕ) → 0 < b → a ≤ ceil_div a b * b
unfolding ceil_div
le-ceil_div_mul a b h = omega (arith, div-add-mod' (a + b - 1) b, mod-lt (a + b - 1) h)

pub ceil_div_mul-lt : (a b : ℕ) → 0 < b → ceil_div a b * b < a + b
unfolding ceil_div
ceil_div_mul-lt a b h = omega (arith, div-add-mod' (a + b - 1) b, mod-lt (a + b - 1) h)

-- The two bounds determine the quotient.
pub ceil_div_unique : (a b q : ℕ) → 0 < b → a ≤ q * b → q * b < a + b → ceil_div a b ≡ q
ceil_div_unique a b q h lo hi = omega (
  arith,
  lt_of_mul-lt q (ceil_div a b + 1) b (omega (arith, le-ceil_div_mul a b h)),
  lt_of_mul-lt (ceil_div a b) (q + 1) b (omega (arith, ceil_div_mul-lt a b h)),
)

module _ (d a b : ℕ) (h : 0 < b) where
  -- Rounded up, no less than the fraction.
  pub le-hgc_roundup : a ≤ hgc_roundup d a b * b
  unfolding hgc_roundup
  le-hgc_roundup =
      omega (arith, le-ceil_div_mul a (b * unit_of d) (mul_pos b (unit_of d) h (unit_of_pos d)))

  -- And by less than one unit more.
  pub hgc_roundup-lt : hgc_roundup d a b * b < a + b * unit_of d
  unfolding hgc_roundup
  hgc_roundup-lt =
      omega (arith, ceil_div_mul-lt a (b * unit_of d) (mul_pos b (unit_of d) h (unit_of_pos d)))

  -- It is the only multiple of the unit with these bounds.
  pub hgc_roundup_unique :
      (q : ℕ)
      → a ≤ q * unit_of d * b
      → q * unit_of d * b < a + b * unit_of d
      → hgc_roundup d a b ≡ q * unit_of d
  unfolding hgc_roundup
  hgc_roundup_unique q lo hi = rw (
      ceil_div_unique a (b * unit_of d) q (mul_pos b (unit_of d) h (unit_of_pos d)) (omega arith)
        (omega arith))
