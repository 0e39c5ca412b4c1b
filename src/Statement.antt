-- ===== src/Statement.antt =====
-- client/userterminal/site/statement/scripts.js and client/app/www/js/statement.js: how the clients
-- show the answer of `get_last_transactions`. Numbers stand for their printed forms.
pub mod Sums
pub mod Balance
use schulealsstaat.Base.{
  String, Bool, true, false, not, ◌&&◌, none, some, List, [], ◌∷◌, ◌++◌, str_eq, if◌then◌else◌,
}
use schulealsstaat.Base.Int.{ℤ, pos, ◌+ℤ◌, ◌-ℤ◌}
use schulealsstaat.Types.{Statement, Profile}

-- `is_sender`, without the tax income account's transactions with itself.
abbrev pub is_sender : String → Statement → Bool
is_sender qrid t = str_eq t.sender.qrid qrid && not t.transformed_taxinc

abbrev pub is_recipient : String → Statement → Bool
is_recipient qrid t = str_eq t.recipient.qrid qrid

pub data Description : Type 0 where
  outdated payment income nonsense : Description

abbrev pub describe : Bool → Bool → Description
describe false false = outdated
describe true false = payment
describe false true = income
describe true true = nonsense

-- A row of the terminal's table.
pub record Row : Type 0 where
  pub description : Description
  -- the class `dec`, or else `inc`
  pub decreases : Bool
  pub statement : Statement
  pub balance : ℤ

-- `bal_now` after a transaction.
unfoldable pub next_balance : String → Statement → ℤ → ℤ
next_balance qrid t bal =
    let less = if is_sender qrid t then bal -ℤ t.amount_sent else bal in
    if is_recipient qrid t then less +ℤ t.amount_received else less

-- `bal_now` after the loop, which runs from the end of the list to its beginning.
unfoldable pub balance_shown : String → List Statement → ℤ
balance_shown qrid [] = pos 0
balance_shown qrid (t ∷ ts) = next_balance qrid t (balance_shown qrid ts)

-- `render_transactions`
unfoldable pub render_transactions : String → List Statement → List Row
render_transactions qrid [] = []
render_transactions qrid (t ∷ ts) =
    render_transactions qrid ts
    ++ record {
      description = describe (is_sender qrid t) (is_recipient qrid t);
      decreases = is_sender qrid t;
      statement = t;
      balance = next_balance qrid t (balance_shown qrid ts);
    }
      ∷ []

-- An entry of the app's list: the other party, the class, and the signed amount.
pub record AppEntry : Type 0 where
  pub outgoing : Bool
  pub party : Profile
  pub amount : ℤ

unfoldable pub app_entry : String → Statement → AppEntry
app_entry qrid t =
    if is_sender qrid t
    then record { outgoing = true; party = t.recipient; amount = pos 0 -ℤ t.amount_sent }
    else record { outgoing = false; party = t.sender; amount = t.amount_received }

-- The app's entries, each put before those that are there.
unfoldable pub app_entries : String → List Statement → List AppEntry → List AppEntry
app_entries qrid [] shown = shown
app_entries qrid (t ∷ ts) shown = app_entries qrid ts (app_entry qrid t ∷ shown)
