-- ===== src/Actions/Accounts.antt =====
-- server/api/actions/transactions.js: the requests that look at the transactions or delete one.
use schulealsstaat.Base.{
  ℕ, zero, suc, ◌-◌, String, Bool, true, false, not, ◌||◌, none, some, List, ◌++◌, map, length,
  drop, keep, ◌==◌,
}
use schulealsstaat.Base.Int.{ℤ, pos, negsuc, ltb_ℤ}
use schulealsstaat.Types.{
  Student, Percent, Transaction, Statement, Answer, ok, invalid_qrid, invalid_password, invalid_id,
}
use schulealsstaat.Server.{Crypto, Action, ◌>>=◌, ◌>>◌, answer, refuse_if, some_or_refuse}
use schulealsstaat.Db.Students.{get_by_qrid_lean}
use schulealsstaat.Db.Transactions.{get_balance, get_by_properties, get_by_id, remove, refers_to}
use schulealsstaat.Actions.Common.{check_password, student_public_only}

-- The action `get_balance`; the code answers the number's text.
unfoldable pub get_balance_action : Crypto → String → String → ℕ → Action (Unit {0})
get_balance_action c qrid password rid = do
  st ← some_or_refuse (← get_by_qrid_lean qrid rid) rid invalid_qrid
  refuse_if (not (check_password c st password)) rid invalid_password
  balance ← get_balance st.id rid
  answer rid (Answer.balance balance)

unfoldable pub get_balance_master : String → ℕ → Action (Unit {0})
get_balance_master qrid rid = do
  st ← some_or_refuse (← get_by_qrid_lean qrid rid) rid invalid_qrid
  balance ← get_balance st.id rid
  answer rid (Answer.balance balance)

abbrev pub zero_percent : Percent
zero_percent = record { num = 0; den = 1 }

abbrev pub statement_of : Transaction → Statement
statement_of t = record {
  sender = t.sender;
  recipient = t.recipient;
  time = t.time;
  amount_sent = t.amount_sent;
  amount_received = t.amount_received;
  amount_tax = t.amount_tax;
  percent_tax = t.percent_tax;
  transformed_taxinc = false;
  comment = t.comment;
}

-- A tax income shown as a transaction of its own.
abbrev pub taxinc_statement : Student → Transaction → Statement
taxinc_statement st t = record {
  sender = t.sender;
  recipient = student_public_only st none;
  time = t.time;
  amount_sent = t.amount_tax;
  amount_received = t.amount_tax;
  amount_tax = pos 0;
  percent_tax = zero_percent;
  transformed_taxinc = true;
  comment = some "!!! Transformed tax income transaction !!!";
}

abbrev pub has_tax : Transaction → Bool
has_tax t = ltb_ℤ (pos 0) t.amount_tax

abbrev pub is_party : ℕ → Transaction → Bool
is_party i t = refers_to i t.sender || refers_to i t.recipient

abbrev pub pays_tax_to : ℕ → Transaction → Bool
pays_tax_to i t = i == t.tax_recipient

-- The list that is answered: the account's transactions, then its tax incomes.
unfoldable pub statements_of : Student → List Transaction → List Transaction → List Statement
statements_of st tr tr_tax = map statement_of tr ++ map (taxinc_statement st) (keep has_tax tr_tax)

unfoldable pub get_last_transactions : Crypto → String → String → ℤ → ℕ → Action (Unit {0})
get_last_transactions c qrid password amount rid = do
  st ← some_or_refuse (← get_by_qrid_lean qrid rid) rid invalid_qrid
  refuse_if (not (check_password c st password)) rid invalid_password
  tr ← get_by_properties (is_party st.id) amount rid
  tr_tax ← get_by_properties (pays_tax_to st.id) amount rid
  answer rid (Answer.statements (statements_of st tr tr_tax))

-- `tr.slice(max(0, tr.length - amount), tr.length)`, if the amount is positive.
abbrev pub last_of {ℓ} : {A : Type ℓ} → ℤ → List A → List A
last_of (pos zero) xs = xs
last_of (pos (suc n)) xs = drop (length xs - suc n) xs
last_of (negsuc n) xs = xs

unfoldable pub find_transactions : (Transaction → Bool) → ℤ → ℕ → Action (Unit {0})
find_transactions query amount rid = do
  tr ← get_by_properties query amount rid
  answer rid (Answer.transactions (last_of amount tr))

unfoldable pub transaction_delete : ℕ → ℕ → Action (Unit {0})
transaction_delete id rid = do
  tr ← some_or_refuse (← get_by_id id rid) rid invalid_id
  remove tr.id
  answer rid ok
