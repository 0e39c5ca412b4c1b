-- ===== src/Tests/Money.antt =====
-- The money arithmetic at a purchase of 9.09 HGC, net, with a tax of ten percent.
use schulealsstaat.Base.{◌≡◌, refl, arith}
use schulealsstaat.Base.Int.{pos, ◌-ℤ◌}
use schulealsstaat.Types.{Amount}
use schulealsstaat.Money.{gross2tax, net2tax, hgc_roundup, unit_of, n_decimals}
use schulealsstaat.Actions.Transactions.{split_amounts}
use schulealsstaat.Ledger.Entries.{IsAdmissible}
use schulealsstaat.Tests.World.{ten_percent}

-- 0.909 HGC of tax.
net_tax : net2tax 5 9090000000000 ten_percent ≡ 909000000000
unfolding net2tax hgc_roundup unit_of
net_tax = refl

two_places : n_decimals (Amount.number (pos 2550000000000)) ≡ 2
unfolding n_decimals
two_places = refl

admissible : IsAdmissible 5 Amount.absent (Amount.number (pos 9090000000000)) ten_percent
admissible = record {
  percent = omega arith;
  specified = refl;
  unambiguous = refl;
  sent_valid = refl;
  received_valid = refl;
  sent_places = λ n e. cc;
}

-- An amount finer than the tax is rounded to: the tax is more than all that is sent, so the
-- recipient would lose money.
received_negative :
    (split_amounts 5 (Amount.number (pos 1000000)) Amount.absent ten_percent).1
    ≡ pos 1000000 -ℤ pos 10000000
unfolding split_amounts gross2tax hgc_roundup unit_of ◌-ℤ◌
received_negative = refl
