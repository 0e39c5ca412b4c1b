-- ===== src/TransactionSearch.antt =====
-- client/adminpanel/site/viewtransactions/scripts.js: the query of the search, and the statistics
-- below the list that is found.
pub mod Sums
use schulealsstaat.Base.{
  ℕ, suc, ◌+◌, ◌*◌, String, Bool, true, false, Option, none, some, List, [], ◌∷◌, ◌++◌,
  if◌then◌else◌,
}
use schulealsstaat.Base.Int.{ℤ, pos, negsuc, ◌+ℤ◌, ◌-ℤ◌}
use schulealsstaat.Types.{Transaction}
use schulealsstaat.Actions.Transactions.{comment_length}

-- A row of the form: whether it matters, its text, and what `parseInt` makes of the text.
pub record Field : Type 0 where
  pub matters : Bool
  pub value : String
  pub number : Option ℤ

pub data Value : Type 0 where
  text : String → Value
  present : ℕ → Value
  milliseconds : ℤ → Value

abbrev pub Query : Type 0
Query = List (String × Value)

-- `addTableVal` of a text
abbrev pub add_table_val : Query → String → Field → Query
add_table_val query name f = if f.matters then query ++ (name, text f.value) ∷ [] else query

-- What `addTableVal` makes of a number of minutes: after the message on an invalid one, the
-- present date stays in the query.
abbrev pub minutes_before : ℕ → Option ℤ → Value
minutes_before now none = present now
minutes_before now (some (pos n)) = milliseconds (pos now -ℤ pos (n * 60 * 1000))
minutes_before now (some (negsuc n)) = milliseconds (pos (now + suc n * 60 * 1000))

abbrev pub add_minutes : ℕ → Query → String → Field → Query
add_minutes now query name f =
    if f.matters then query ++ (name, minutes_before now f.number) ∷ [] else query

abbrev pub unless_empty : Query → Option Query
unless_empty [] = none
unless_empty (x ∷ xs) = some (x ∷ xs)

-- The payload of `find_transactions`; of the three inner queries, empty ones are deleted.
pub record Payload : Type 0 where
  pub amount : ℤ
  pub query : Query
  pub amount_sent : Option Query
  pub amount_tax : Option Query
  pub time : Option Query

abbrev pub add_all : (String → Field) → Query → List (String × String) → Query
add_all inputs query [] = query
add_all inputs query ((name, selector) ∷ fields) =
    add_all inputs (add_table_val query name (inputs selector)) fields

-- The rows of the outer query, with their selectors.
abbrev pub rows : List (String × String)
rows =
    ("sender.qrid", "#sender_qrid")
    ∷ ("sender.country", "#sender_country")
    ∷ ("sender.firstname", "#sender_firstname")
    ∷ ("sender.lastname", "#sender_lastname")
    ∷ ("sender.special_name", "#sender_special_name")
    ∷ ("sender.type", "#sender_type")
    ∷ ("recipient.qrid", "#recipient_qrid")
    ∷ ("recipient.country", "#recipient_country")
    ∷ ("recipient.firstname", "#recipient_firstname")
    ∷ ("recipient.lastname", "#recipient_lastname")
    ∷ ("recipient.special_name", "#recipient_special_name")
    ∷ ("recipient.type", "#recipient_type")
    ∷ ("percent_tax", "#percent_tax")
    ∷ []

-- `#query`, where `all` is the choice of all transactions and `number` any other.
pub data Number : Type 0 where
  all : Number
  number : ℤ → Number

abbrev pub amount_of : Number → ℤ
amount_of all = negsuc 0
amount_of (number n) = n

unfoldable pub payload_of : Number → (String → Field) → ℕ → Payload
payload_of n inputs now = record {
  amount = amount_of n;
  query = add_all inputs [] rows;
  amount_sent =
      unless_empty (add_all inputs [] (("$gt", "#minimal_sent") ∷ ("$lt", "#maximal_sent") ∷ []));
  amount_tax =
      unless_empty (add_all inputs [] (("$gt", "#minimal_tax") ∷ ("$lt", "#maximal_tax") ∷ []));
  time = unless_empty (
      add_minutes now (add_minutes now [] "$lt" (inputs "#time_before")) "$gt"
        (inputs "#time_after"));
}

-- The sums of `render_transactions`; a missing comment has the length 0.
pub record Stats : Type 0 where
  pub total_number : ℕ
  pub total_tax : ℤ
  pub total_sent : ℤ
  pub total_received : ℤ
  pub total_comment_length : ℕ

abbrev pub counted : Transaction → Stats → Stats
counted tr st = record {
  total_number = st.total_number + 1;
  total_tax = st.total_tax +ℤ tr.amount_tax;
  total_sent = st.total_sent +ℤ tr.amount_sent;
  total_received = st.total_received +ℤ tr.amount_received;
  total_comment_length = st.total_comment_length + comment_length tr.comment;
}

unfoldable pub stats_from : Stats → List Transaction → Stats
stats_from st [] = st
stats_from st (tr ∷ trs) = stats_from (counted tr st) trs

abbrev pub nothing_counted : Stats
nothing_counted = record {
  total_number = 0;
  total_tax = pos 0;
  total_sent = pos 0;
  total_received = pos 0;
  total_comment_length = 0;
}

-- The sums and counts below the list, before they are rounded to three places for the page.
unfoldable pub stats : List Transaction → Stats
stats trs = stats_from nothing_counted trs
