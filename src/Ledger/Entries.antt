-- ===== src/Ledger/Entries.antt =====
-- The amounts of an entry, and how `transaction` splits them.
use schulealsstaat.Base.{ℕ, String, zero, suc, ◌+◌, ◌≤◌, ◌<◌, ◌≡◌, refl, false, not, ◌&&◌, Option}
use schulealsstaat.Base.Int.{ℤ, pos, ◌+ℤ◌, ◌-ℤ◌, ◌≤ℤ◌, int_laws}
use schulealsstaat.Types.{Amount, Percent, Entry, Student, grid_places}
use schulealsstaat.Server.{Settings}
use schulealsstaat.Money.{gross2tax, net2tax, unit_of, places}
use schulealsstaat.Money.Decimals.{places_multiple}
use schulealsstaat.Money.Tax.{gross2tax-le}
use schulealsstaat.Actions.Transactions.{truthy, is_invalid, split_amounts, make_entry}

-- An amount that passes the tests of `transaction` and shows at most `d` decimal places.
pub record IsAdmissible (d : ℕ) (sent received : Amount) (tax : Percent) : Type 0 where
  pub percent : 0 < tax.den
  pub specified : (not (truthy sent) && not (truthy received)) ≡ false
  pub unambiguous : (truthy sent && truthy received) ≡ false
  pub sent_valid : (truthy sent && is_invalid sent) ≡ false
  pub received_valid : (truthy received && is_invalid received) ≡ false
  pub sent_places : (n : ℕ) → sent ≡ Amount.number (pos n) → places grid_places n ≤ d

pub record IsFair (e : Entry) : Type 0 where
  pub sent_nonneg : pos 0 ≤ℤ e.amount_sent
  pub received_nonneg : pos 0 ≤ℤ e.amount_received
  pub tax_nonneg : pos 0 ≤ℤ e.amount_tax
  pub adds_up : e.amount_sent ≡ e.amount_received +ℤ e.amount_tax

-- With at most `d` decimal places the tax stays within the gross amount.
pub gross2tax-le_places :
    (d n : ℕ) (tax : Percent) → 0 < tax.den → places grid_places n ≤ d → gross2tax d n tax ≤ n
unfolding unit_of
gross2tax-le_places d n tax h k =
    let (q, e) = places_multiple grid_places n d k in rw e (gross2tax-le d q tax h)

abbrev pub FairAmounts : ℤ × ℤ × ℤ → Type 0
FairAmounts (s, r, t) = (pos 0 ≤ℤ s) × (pos 0 ≤ℤ r) × (pos 0 ≤ℤ t) × (s ≡ r +ℤ t)

gross_fair : (n t : ℕ) → t ≤ n → FairAmounts (pos n, pos n -ℤ pos t, pos t)
gross_fair n t h = omega int_laws

net_fair : (n t : ℕ) → FairAmounts (pos (n + t), pos n, pos t)
net_fair n t = omega int_laws

-- On every pair of amounts that passes the tests, the recipient and the tax account get what the
-- sender pays, and no amount is negative.
split_amounts-Fair :
    (d : ℕ) (sent received : Amount) (tax : Percent)
    → IsAdmissible d sent received tax
    → FairAmounts (split_amounts d sent received tax)
unfolding split_amounts
split_amounts-Fair d (Amount.number (pos (suc n))) Amount.absent tax h =
    gross_fair (suc n) (gross2tax d (suc n) tax)
      (gross2tax-le_places d (suc n) tax h.percent (h.sent_places (suc n) refl))
split_amounts-Fair d (Amount.number (pos (suc n))) (Amount.number (pos zero)) tax h =
    gross_fair (suc n) (gross2tax d (suc n) tax)
      (gross2tax-le_places d (suc n) tax h.percent (h.sent_places (suc n) refl))
split_amounts-Fair d (Amount.number (pos (suc n))) received tax h = cc h.unambiguous
split_amounts-Fair d Amount.absent (Amount.number (pos (suc n))) tax h =
    net_fair (suc n) (net2tax d (suc n) tax)
split_amounts-Fair d (Amount.number (pos zero)) (Amount.number (pos (suc n))) tax h =
    net_fair (suc n) (net2tax d (suc n) tax)
split_amounts-Fair d sent received tax h =
    cc (h.specified, h.unambiguous, h.sent_valid, h.received_valid)

pub make_entry-IsFair :
    (cfg : Settings) (time : ℕ) (sender recipient : Option Student) (taxinc : Student)
    (sent received : Amount) (tax : Percent) (comment : Option String)
    → IsAdmissible cfg.hgc_decimal_places sent received tax
    → IsFair (make_entry cfg time sender recipient taxinc sent received tax comment)
unfolding make_entry
make_entry-IsFair cfg time sender recipient taxinc sent received tax comment h =
    let f = split_amounts-Fair cfg.hgc_decimal_places sent received tax h in
    record { sent_nonneg = f.0; received_nonneg = f.1; tax_nonneg = f.2; adds_up = f.3 }
