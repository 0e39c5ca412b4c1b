-- ===== src/Money.antt =====
-- The money arithmetic of server/api/actions/transactions.js (`HGC_roundup`, `gross2tax`,
-- `net2tax`, `nDecimals`), in exact decimals: an amount is a number of grid points of
-- 10^-12 HGC (`grid_places`). The rounding errors of binary floating point are left
-- out, which the source's Math.ceil can turn into one unit more: its gross2tax of 0.385 is 0.03501.
pub mod Rounding
pub mod Tax
pub mod Decimals
use schulealsstaat.Base.{ℕ, zero, suc, ◌+◌, ◌-◌, ◌*◌, ◌/◌, ◌%◌, ◌^◌, ◌==◌, if◌then◌else◌}
use schulealsstaat.Base.Int.{ℤ, pos, negsuc, pos_part, neg_part}
use schulealsstaat.Types.{Percent, Amount, grid_places}

-- The grid points between two neighbours with `d` decimal places.
unfoldable pub unit_of : ℕ → ℕ
unit_of d = 10 ^ (grid_places - d)

-- The least `q` with `a ≤ q * b`.
unfoldable pub ceil_div : ℕ → ℕ → ℕ
ceil_div a b = (a + b - 1) / b

-- `HGC_roundup`, of the fraction `a / b` of grid points.
unfoldable pub hgc_roundup : ℕ → ℕ → ℕ → ℕ
unfolding ceil_div
hgc_roundup d a b = ceil_div a (b * unit_of d) * unit_of d

-- `tax * gross / (1 + tax)` for the tax `num / (100 * den)`.
unfoldable pub gross2tax : ℕ → ℕ → Percent → ℕ
gross2tax d gross p = hgc_roundup d (p.num * gross) (100 * p.den + p.num)

-- `tax * net`
unfoldable pub net2tax : ℕ → ℕ → Percent → ℕ
net2tax d net p = hgc_roundup d (p.num * net) (100 * p.den)

-- The decimal places of `v` grid points, where a grid point is the k-th place.
unfoldable pub places : ℕ → ℕ → ℕ
places zero v = 0
places (suc k) v = let rest = places k (v / 10) in if v % 10 == 0 then rest else suc k

-- `nDecimals`: the digits behind the point in the shortest decimal form.
unfoldable pub n_decimals : Amount → ℕ
unfolding places
n_decimals Amount.absent = 0
n_decimals (Amount.number v) = places grid_places (pos_part v + neg_part v)
n_decimals (Amount.other shown) = shown
