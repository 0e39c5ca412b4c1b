-- ===== src/Money/Tax.antt =====
-- The taxes of whole units, in exact arithmetic.
use schulealsstaat.Base.{ℕ, ◌+◌, ◌*◌, ◌≤◌, ◌<◌, ◌≡◌, refl, arith}
use schulealsstaat.Types.{Percent}
use schulealsstaat.Money.{hgc_roundup, gross2tax, net2tax, unit_of, ceil_div}
use schulealsstaat.Money.Rounding.{le-hgc_roundup, hgc_roundup-lt, lt_of_mul-lt}

-- `hgc_roundup` is a multiple of the unit.
roundup_units : (d a b : ℕ) → (q : ℕ) × (hgc_roundup d a b ≡ q * unit_of d)
unfolding hgc_roundup
roundup_units d a b = (ceil_div a (b * unit_of d), refl)

tax_units-le : (t q u n c : ℕ) → t * u * (c + n) < n * (q * u) + (c + n) * u → t * u ≤ q * u
tax_units-le t q u n c h = grind (arith, lt_of_mul-lt t (q + 1) (u * (c + n)) (omega arith))

-- For a percentage with a denominator that is not zero, the tax of a whole number of units never
-- exceeds them.
pub gross2tax-le :
    (d q : ℕ) (p : Percent) → 0 < p.den → gross2tax d (q * unit_of d) p ≤ q * unit_of d
unfolding gross2tax
gross2tax-le d q p h =
    let (t, e) = roundup_units d (p.num * (q * unit_of d)) (100 * p.den + p.num) in
    rw e (
      tax_units-le t q (unit_of d) p.num (100 * p.den)
        (rw e at (hgc_roundup-lt d (p.num * (q * unit_of d)) (100 * p.den + p.num) (omega arith))))

-- For a percentage with a denominator that is not zero, the tax added to a net amount is at
-- least the exact tax, by less than one unit.
net2tax_bounds :
    (d net : ℕ) (p : Percent)
    → 0 < p.den
    → (p.num * net ≤ net2tax d net p * (100 * p.den))
      × (net2tax d net p * (100 * p.den) < p.num * net + 100 * p.den * unit_of d)
unfolding net2tax
net2tax_bounds d net p h = (
  le-hgc_roundup d (p.num * net) (100 * p.den) (omega arith),
  hgc_roundup-lt d (p.num * net) (100 * p.den) (omega arith),
)

-- A net amount of whole units is sent as a gross amount of whole units.
pub net2tax_units : (d net : ℕ) (p : Percent) → (q : ℕ) × (net2tax d net p ≡ q * unit_of d)
unfolding net2tax
net2tax_units d net p = roundup_units d (p.num * net) (100 * p.den)
