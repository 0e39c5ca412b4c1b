-- ===== src/Batch/Business.antt =====
-- The rows of client/business/site/scripts.js.
use schulealsstaat.Base.{String, ◌||◌, Option, none, some, if◌then◌else◌}
use schulealsstaat.Actions.Transactions.{Payment}
use schulealsstaat.Batch.{Prepared, sends, stays}
use schulealsstaat.Batch.Amounts.{
  Input, Amounts, AmountType, present, as_payload, sent_input, received_input, taxfree_input,
  is_nan,
}

pub record Content : Type 0 where
  pub amounts : Amounts
  pub sender : String
  pub recipient : String
  pub sender_password : String
  pub comment : String

-- The action `transaction_taxfree` with a certificate, or `transaction`.
pub data Query : Type 0 where
  taxfree : String → Payment → Query
  taxed : Payment → Query

-- The page's inputs for the amounts are the values that were parsed.
pub record Form : Type 0 where
  pub amounttype : AmountType
  pub amount_sent : Input
  pub amount_received : Input
  pub amount_taxfree : Input
  pub sender : String
  pub recipient : String
  pub password : String
  pub comment : String

-- The handler of `#add_transaction`: the row that is added, if the amounts are numbers. The tax-free
-- amount is not tested.
unfoldable pub new_content : Form → Option Content
new_content f =
    let amount_sent = sent_input f.amounttype f.amount_sent in
    let amount_received = received_input f.amounttype f.amount_received in
    if is_nan amount_sent || is_nan amount_received
    then none
    else some (record {
      amounts = record {
        amount = taxfree_input f.amounttype f.amount_taxfree;
        amount_sent = amount_sent;
        amount_received = amount_received;
      };
      sender = f.sender;
      recipient = f.recipient;
      sender_password = f.password;
      comment = f.comment;
    })

abbrev pub payment_of : Content → Input → Payment
payment_of c amount_sent = record {
  sender = c.sender;
  sender_password = c.sender_password;
  recipient = c.recipient;
  amount_sent = as_payload amount_sent;
  amount_received = as_payload c.amounts.amount_received;
  comment = some c.comment;
}

-- `makeTransaction`, with the text of the chosen certificate file.
unfoldable pub prepare : Option String → Content → Prepared Query
prepare cert c =
    if present c.amounts.amount
    then elim cert [
      | none ↦ stays
      | some text ↦ sends (taxfree text (payment_of c c.amounts.amount))
    ]
    else sends (taxed (payment_of c c.amounts.amount_sent))
