-- ===== src/Batch/Admin.antt =====
-- The rows of client/adminpanel/site/maketransaction/scripts.js.
use schulealsstaat.Base.{
  zero, suc, String, Bool, true, false, ◌||◌, ◌&&◌, Option, none, some, if◌then◌else◌,
}
use schulealsstaat.Base.Int.{pos, negsuc}
use schulealsstaat.Types.{Percent, Amount}
use schulealsstaat.Batch.{Prepared, sends, makes_no_sense}
use schulealsstaat.Batch.Amounts.{
  Input, missing, not_a_number, value, Amounts, AmountType, as_payload, sent_input, received_input,
  is_nan,
}

-- `tax_percent`: missing, "default", or a number.
pub data Tax : Type 0 where
  untaxed default : Tax
  percent : Percent → Tax

pub record Content : Type 0 where
  pub spawn_money : Bool
  pub destroy_money : Bool
  -- the QR-IDs of the identified students
  pub sender : Option String
  pub recipient : Option String
  pub tax_percent : Tax
  pub amounts : Amounts
  pub comment : String

-- The payloads of the three actions, each of which is sent with the master certificate.
pub data Query : Type 0 where
  spawns : Option String → Amount → String → Query
  destroys : Option String → Amount → String → Query
  transfers : Option String → Option String → Amounts → Tax → String → Query

-- The inputs of the page, with the QR-IDs that `student_identify` has found for them.
pub record Form : Type 0 where
  pub spawn_money : Bool
  pub destroy_money : Bool
  pub amounttype : AmountType
  pub amount_sent : Input
  pub amount_received : Input
  pub tax_percent : Tax
  pub sender : String
  pub recipient : String
  pub comment : String

-- Whether a property counts as true.
abbrev pub truthy : Input → Bool
truthy missing = false
truthy not_a_number = false
truthy (value (pos zero)) = false
truthy (value (pos (suc n))) = true
truthy (value (negsuc n)) = true

abbrev pub amount_of : Input → Input → Input
amount_of amount_sent amount_received =
    if truthy amount_received
    then amount_received
    else if truthy amount_sent
    then amount_sent
    else missing

-- The handler of `#add_transaction` from the amounts on, once both students are identified.
unfoldable pub new_content : Form → Option Content
new_content f =
    let amount_sent = sent_input f.amounttype f.amount_sent in
    let amount_received = received_input f.amounttype f.amount_received in
    let special = f.spawn_money || f.destroy_money in
    if is_nan amount_sent || is_nan amount_received
    then none
    else some (record {
      spawn_money = f.spawn_money;
      destroy_money = f.destroy_money;
      sender = if f.spawn_money then none else some f.sender;
      recipient = if f.destroy_money then none else some f.recipient;
      tax_percent = if special then untaxed else f.tax_percent;
      amounts =
          if special
          then record {
            amount = amount_of amount_sent amount_received;
            amount_sent = missing;
            amount_received = missing;
          }
          else record {
            amount = missing;
            amount_sent = amount_sent;
            amount_received = amount_received;
          };
      comment = f.comment;
    })

-- A default tax is left out of the payload.
abbrev pub sent_tax : Tax → Tax
sent_tax untaxed = untaxed
sent_tax default = untaxed
sent_tax (percent p) = percent p

-- `makeTransaction`
unfoldable pub prepare : Content → Prepared Query
prepare c =
    if c.spawn_money && c.destroy_money
    then makes_no_sense
    else (if c.spawn_money
        then sends (spawns c.recipient (as_payload c.amounts.amount) c.comment)
        else (if c.destroy_money
            then sends (destroys c.sender (as_payload c.amounts.amount) c.comment)
            else sends
                (transfers c.sender c.recipient c.amounts (sent_tax c.tax_percent) c.comment)))
