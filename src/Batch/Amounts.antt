-- ===== src/Batch/Amounts.antt =====
-- The amounts of a transaction object on the page, and how the server reads them.
use schulealsstaat.Base.{Bool, true, false}
use schulealsstaat.Base.Int.{ℤ}
use schulealsstaat.Types.{Amount}

-- A property that is missing, `NaN`, or a number.
pub data Input : Type 0 where
  missing not_a_number : Input
  value : ℤ → Input

-- `"amount" in tr`
abbrev pub present : Input → Bool
present missing = false
present not_a_number = true
present (value n) = true

-- A copy through JSON makes `NaN` null.
abbrev pub as_payload : Input → Amount
as_payload missing = Amount.absent
as_payload not_a_number = Amount.absent
as_payload (value n) = Amount.number n

pub record Amounts : Type 0 where
  pub amount : Input
  pub amount_sent : Input
  pub amount_received : Input

-- Which radio button is chosen, if one is.
pub data AmountType : Type 0 where
  sent received taxfree none_chosen : AmountType

-- What `parseFloat` returns is a number or `NaN`, so a chosen input is not missing.
abbrev pub sent_input : AmountType → Input → Input
sent_input sent parsed = parsed
sent_input received parsed = missing
sent_input taxfree parsed = missing
sent_input none_chosen parsed = missing

abbrev pub received_input : AmountType → Input → Input
received_input sent parsed = missing
received_input received parsed = parsed
received_input taxfree parsed = missing
received_input none_chosen parsed = missing

abbrev pub taxfree_input : AmountType → Input → Input
taxfree_input sent parsed = missing
taxfree_input received parsed = missing
taxfree_input taxfree parsed = parsed
taxfree_input none_chosen parsed = missing

abbrev pub is_nan : Input → Bool
is_nan missing = false
is_nan not_a_number = true
is_nan (value n) = false
