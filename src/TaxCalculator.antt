-- ===== src/TaxCalculator.antt =====
-- client/app/www/js/taxcalc.js: the app's tax calculator, on the amounts of `Money`.
use schulealsstaat.Base.{ℕ, ◌+◌, ◌*◌}
use schulealsstaat.Base.Int.{ℤ, pos, ◌-ℤ◌}
use schulealsstaat.Types.{Percent}
use schulealsstaat.Money.{hgc_roundup}

abbrev pub decplaces : ℕ
decplaces = 5

-- `gross2tax` and `net2tax` of the app
unfoldable pub tax_of_gross : ℕ → Percent → ℕ
tax_of_gross gross p = hgc_roundup decplaces (p.num * gross) (100 * p.den + p.num)

unfoldable pub tax_of_net : ℕ → Percent → ℕ
tax_of_net net p = hgc_roundup decplaces (p.num * net) (100 * p.den)

-- What `recalc` writes to `#to_net` and `#to_gross`.
unfoldable pub to_net : ℕ → Percent → ℤ
to_net gross p = pos gross -ℤ pos (tax_of_gross gross p)

unfoldable pub to_gross : ℕ → Percent → ℕ
to_gross net p = net + tax_of_net net p
