-- ===== src/Actions/Transactions.antt =====
-- server/api/actions/transactions.js: the requests for transactions.
pub mod Cases
pub mod Perform
use Prim.Native.Char.{code}
use Prim.Native.String.{◌++◌ as str_append}
use schulealsstaat.Base.{
  ℕ, zero, suc, ◌+◌, String, Bool, true, false, not, ◌&&◌, ◌||◌, Option, none, some, List, [], ◌∷◌,
  ◌++◌, str_eq, ltb, leb, if◌then◌else◌,
}
use schulealsstaat.Base.Int.{ℤ, pos, negsuc, ◌-ℤ◌}
use schulealsstaat.Types.{
  Student, Profile, Percent, Entry, Amount, Answer, ok, invalid_password, invalid_sender,
  invalid_recipient, overspecified, underspecified, invalid_amount, too_many_decplaces,
  comment_too_long,
}
use schulealsstaat.Server.{
  Server, Settings, Crypto, Queued, Action, ◌>>=◌, ◌>>◌, pure, gets, modify, answer, refuse,
  refuse_if, some_or_refuse, branch,
}
use schulealsstaat.Money.{gross2tax, net2tax, n_decimals}
use schulealsstaat.Db.Students.{get_by_qrid_lean}
use schulealsstaat.Db.Transactions.{intent, write}
use schulealsstaat.Actions.Common.{check_password, student_public_only}

-- `transaction_queue`
unfoldable pub transaction_queue : ℕ → ℕ → Entry → ℕ → Action (Unit {0})
transaction_queue trid sender e rid =
    let item : Queued = record { trid = trid; sender = sender; entry = e; answer = rid } in
    modify (λ s. record s { queue = s.queue ++ some item ∷ [] })

-- `transaction_write`: after the write come `info`, the answer and the callback.
unfoldable pub transaction_write :
    Entry → ℕ → Action (Unit {0}) → Action (Unit {0}) → Action (Unit {0})
transaction_write e rid info cb = do write e rid; info; answer rid ok; cb

-- Whether an amount counts as true.
abbrev pub truthy : Amount → Bool
truthy Amount.absent = false
truthy (Amount.number (pos zero)) = false
truthy (Amount.number (pos (suc n))) = true
truthy (Amount.number (negsuc n)) = true
truthy (Amount.other shown) = true

-- `!Number.isFinite(a) || a <= 0`
abbrev pub is_invalid : Amount → Bool
is_invalid Amount.absent = true
is_invalid (Amount.number (pos zero)) = true
is_invalid (Amount.number (pos (suc n))) = false
is_invalid (Amount.number (negsuc n)) = true
is_invalid (Amount.other shown) = true

abbrev pub points : Amount → ℕ
points Amount.absent = 0
points (Amount.number (pos n)) = n
points (Amount.number (negsuc n)) = 0
points (Amount.other shown) = 0

-- The three amounts of an entry: sent, received, tax.
unfoldable pub split_amounts : ℕ → Amount → Amount → Percent → ℤ × ℤ × ℤ
split_amounts d amount_sent amount_received tax =
    let t =
      if truthy amount_sent
      then gross2tax d (points amount_sent) tax
      else net2tax d (points amount_received) tax in
    let sent = if truthy amount_sent then points amount_sent else points amount_received + t in
    let received =
      if truthy amount_received then pos (points amount_received) else pos sent -ℤ pos t in
    (pos sent, received, pos t)

-- The magic account in place of a student.
abbrev pub profile_of : String → Option Student → Profile
profile_of magic_account none = record {
  reference = none;
  special_name = none;
  firstname = none;
  lastname = none;
  country = none;
  type = none;
  qrid = magic_account;
}
profile_of magic_account (some st) = student_public_only st (some st.id)

-- A party of a transaction: no student for the magic account.
unfoldable pub get_party : Bool → String → Answer → ℕ → Action (Option Student)
get_party magic q missing rid =
    branch magic (pure none)
      do st ← some_or_refuse (← get_by_qrid_lean q rid) rid missing; pure (some st)

unfoldable pub make_entry :
    Settings
    → ℕ
    → Option Student
    → Option Student
    → Student
    → Amount
    → Amount
    → Percent
    → Option String
    → Entry
make_entry cfg time sender recipient taxinc amount_sent amount_received tax comment =
    let amounts = split_amounts cfg.hgc_decimal_places amount_sent amount_received tax in
    record {
      sender = profile_of cfg.magic_account sender;
      recipient = profile_of cfg.magic_account recipient;
      tax_recipient = taxinc.id;
      time = time;
      amount_sent = amounts.0;
      amount_received = amounts.1;
      amount_tax = amounts.2;
      percent_tax = tax;
      comment = comment;
    }

-- Spawned money is written at once; as `info`, the code passes a function that answers too.
-- Anything else asks for the permission to write and waits in the queue.
abbrev pub ask_permission : ℕ → Entry → ℕ → Action (Unit {0})
ask_permission sender e rid = do trid ← intent sender rid; transaction_queue trid sender e rid

unfoldable pub perform : Option Student → Entry → ℕ → Action (Unit {0})
perform none e rid s = transaction_write e rid (answer rid ok) (pure tt) s
perform (some st) e rid s = ask_permission st.id e rid s

unfoldable pub transaction :
    String → String → Amount → Amount → Percent → Option String → ℕ → Action (Unit {0})
transaction sender_qrid recipient_qrid amount_sent amount_received tax comment rid = do
  cfg ← gets (λ s. s.settings)
  let spawn_money = str_eq sender_qrid cfg.magic_account
  let destroy_money = str_eq recipient_qrid cfg.magic_account
  refuse_if (not (truthy amount_sent) && not (truthy amount_received)) rid underspecified
  refuse_if (truthy amount_sent && truthy amount_received) rid overspecified
  refuse_if (truthy amount_sent && is_invalid amount_sent) rid invalid_amount
  refuse_if (truthy amount_received && is_invalid amount_received) rid invalid_amount
  taxinc ←
      some_or_refuse (← get_by_qrid_lean cfg.taxinc_qrid rid) rid
        (Answer.error "no tax income account")
  sender ← get_party spawn_money sender_qrid invalid_sender rid
  recipient ← get_party destroy_money recipient_qrid invalid_recipient rid
  time ← gets (λ s. s.clock)
  perform sender
      (make_entry cfg time sender recipient taxinc amount_sent amount_received tax comment) rid

-- The payload of `transaction`.
pub record Payment : Type 0 where
  pub sender : String
  pub sender_password : String
  pub recipient : String
  pub amount_sent : Amount
  pub amount_received : Amount
  pub comment : Option String

-- The length of a text in UTF-16 code units.
abbrev pub utf16_length : String → ℕ
utf16_length String.[] = 0
utf16_length (String.◌∷◌ c s) = (if ltb (code c) 0x10000 then 1 else 2) + utf16_length s

abbrev pub comment_length : Option String → ℕ
comment_length none = 0
comment_length (some c) = utf16_length c

unfoldable pub transaction_normal : Crypto → Payment → ℕ → Percent → Action (Unit {0})
transaction_normal c p rid tax = do
  cfg ← gets (λ s. s.settings)
  refuse_if (ltb cfg.tr_comment_maxlen (comment_length p.comment)) rid comment_too_long
  refuse_if (truthy p.amount_sent && ltb cfg.hgc_tr_decimal_places (n_decimals p.amount_sent)) rid
      too_many_decplaces
  refuse_if
      (truthy p.amount_received && ltb cfg.hgc_tr_decimal_places (n_decimals p.amount_received)) rid
      too_many_decplaces
  st ← some_or_refuse (← get_by_qrid_lean p.sender rid) rid invalid_sender
  refuse_if (not (check_password c st p.sender_password)) rid invalid_password
  transaction p.sender p.recipient p.amount_sent p.amount_received tax p.comment rid

-- The action `transaction`.
unfoldable pub transaction_action : Crypto → Payment → ℕ → Action (Unit {0})
transaction_action c p rid = do
  tax ← gets (λ s. s.settings.transaction_tax_percent)
  transaction_normal c p rid tax

abbrev pub no_tax : Percent
no_tax = record { num = 0; den = 1 }

unfoldable pub transaction_taxfree : Crypto → Payment → ℕ → Action (Unit {0})
transaction_taxfree c p rid = transaction_normal c p rid no_tax

abbrev pub prefixed : String → Option String → Option String
prefixed name none = some name
prefixed name (some c) = some (str_append name (str_append " - " c))

unfoldable pub spawn_money : String → Amount → Option String → ℕ → Action (Unit {0})
spawn_money recipient amount comment rid = do
  sender ← gets (λ s. s.settings.magic_account)
  transaction sender recipient amount Amount.absent no_tax (prefixed "spawn_money" comment) rid

unfoldable pub destroy_money : String → Amount → Option String → ℕ → Action (Unit {0})
destroy_money sender amount comment rid = do
  recipient ← gets (λ s. s.settings.magic_account)
  transaction sender recipient amount Amount.absent no_tax (prefixed "destroy_money" comment) rid

-- The tax of a payload of `master_transaction`: none given, a negative number, or another.
pub data TaxPercent : Type 0 where
  default negative : TaxPercent
  given : Percent → TaxPercent

unfoldable pub master_tax : TaxPercent → ℕ → Action Percent
master_tax TaxPercent.default rid s = gets (λ s. s.settings.transaction_tax_percent) s
master_tax TaxPercent.negative rid s = refuse rid (Answer.error "invalid tax_percent") s
master_tax (TaxPercent.given p) rid s = pure p s

unfoldable pub master_transaction : Payment → TaxPercent → ℕ → Action (Unit {0})
master_transaction p tax rid = do
  tax_percent ← master_tax tax rid
  transaction p.sender p.recipient p.amount_sent p.amount_received tax_percent p.comment rid
