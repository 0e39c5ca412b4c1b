-- ===== src/Tests/Pages.antt =====
-- The clients' pages, and the database connection, at small inputs.
use schulealsstaat.Base.{
  ℕ, suc, ◌*◌, ◌≡◌, ◌↔◌, ◌&&◌, refl, true, false, none, some, if◌then◌else◌, List, [], ◌∷◌, ◌++◌,
  arith,
}
use schulealsstaat.Base.Int.{ℤ, pos, negsuc}
use schulealsstaat.Types.{Student, Statement, Answer, ok}
use schulealsstaat.Db.Transactions.{balance_of}
use schulealsstaat.Actions.Common.{check_password}
use schulealsstaat.Actions.Accounts.{get_last_transactions}
use schulealsstaat.Statement.{balance_shown}
use schulealsstaat.Statement.Balance.{Agrees, statement_balance}
use schulealsstaat.Batch.{Row, Sheet, pending, start, queries_from}
use schulealsstaat.Batch.Amounts.{missing, value}
use schulealsstaat.Batch.Business.{Content, Query, prepare}
use schulealsstaat.Batch.Runs.{answer_all, settled}
use schulealsstaat.App.Page.{Own, Page, Form, initial, sending}
use schulealsstaat.App.Payment.{
  Event, confirms, submits, finds, goes_back, run, shown_of, payment_of, click_submit, is_waiting,
  click_confirm, times, on_confirm_click, on_submit_click, identified, back,
}
use schulealsstaat.App.Payment.Confirmed.{sends_what_is_shown}
use schulealsstaat.App.Longpolling as Longpolling
use schulealsstaat.Db.Reconnect.{fires, on_disconnect, connect_failed, on_open, recover, loaded}
use schulealsstaat.Db.Reconnect as Reconnect
use schulealsstaat.Db.Reconnect.Timer.{one_timer}
use schulealsstaat.NameInput.{has_double_space, remove_whitespace}
use schulealsstaat.NameInput.Cleaned.{squeezed, remove_whitespace_ends}
use schulealsstaat.StudentList.{Moment, calc_age, cond_compare, birth, between, equal}
use schulealsstaat.StudentList.Age.{before, search_by_age}
use schulealsstaat.Tests.World.{crypto, world, anna, ben, stored_gift, hgc}

anna-Agrees : Agrees anna stored_gift
anna-Agrees = record { sender = refl; recipient = refl; tax = omega arith }

statement_balance_example :
    (list : List Statement) × ((get_last_transactions crypto "anna" "pw"
        (negsuc 0)
        3
        world).1.answers
      ≡ [] ++ (3, Answer.statements list) ∷ [])
    × (balance_shown "anna" list ≡ balance_of 2 (stored_gift ∷ []))
unfolding check_password
statement_balance_example =
    statement_balance crypto "pw" 3 world anna refl refl refl (anna-Agrees, _)

abbrev to_ben : Row Content
to_ben = record {
  state = pending;
  errorcode = none;
  content = record {
    amounts = record { amount = missing; amount_sent = value (pos 5); amount_received = missing };
    sender = "anna";
    recipient = "ben";
    sender_password = "pw";
    comment = "";
  };
}

abbrev two_rows : Sheet Content Query
two_rows = record { rows = to_ben ∷ to_ben ∷ []; sent = [] }

settled_example :
    (start (prepare none) (
      answer_all
        (prepare none)
        ((1, Answer.nomoney) ∷ (0, ok) ∷ [])
        (start (prepare none) two_rows))).sent
    ≡ [] ++ queries_from (prepare none) 0 (to_ben ∷ to_ben ∷ [])
unfolding queries_from prepare
settled_example =
    settled (prepare none) two_rows ((1, Answer.nomoney) ∷ (0, ok) ∷ []) (refl, (refl, _))

abbrev app : Own
app = record { role = sending; qrid = "anna"; password = "pw" }

abbrev form : Form
form = record {
  qrid = "ben";
  firstname = "";
  lastname = "";
  type = "";
  comment = "for lunch";
  amount = some (pos (5 * hgc));
}

-- Anna looks at a payment, goes back, confirms it again, and submits it, twice.
abbrev visits : List Event
visits =
    confirms form
    ∷ finds (Answer.student ben)
    ∷ goes_back
    ∷ confirms form
    ∷ finds (Answer.student ben)
    ∷ submits ""
    ∷ []

abbrev page : Page
page = run (λ t. t) (λ a. "5.00") app visits initial

sends_what_is_shown_example :
    (st : Student) × (a : ℤ) × (page.window ≡ shown_of (λ t. t) (λ a'. "5.00") st a page.comment)
    × ((click_submit app "" page).payments
        ≡ page.payments
          ++ (if is_waiting page.paying
              then []
              else payment_of app "" st (some a) page.comment ∷ []))
unfolding run click_confirm times on_confirm_click identified on_submit_click click_submit back
sends_what_is_shown_example = sends_what_is_shown (λ t. t) (λ a. "5.00") app visits "" refl

abbrev logged_out : Longpolling.Storage
logged_out = record { qrid = none; password = none; last_sync = none }

abbrev logged_in : Longpolling.Storage
logged_in = record { qrid = some "anna"; password = some "pw"; last_sync = none }

stops_for_good_example :
    (Longpolling.run
      (Longpolling.ticks ∷ Longpolling.stores logged_in ∷ Longpolling.ticks ∷ [])
      (Longpolling.initial logged_out)).sent
    ≡ []
stops_for_good_example =
    Longpolling.stops_for_good logged_out (Longpolling.stores logged_in ∷ Longpolling.ticks ∷ [])
      refl

one_timer_example :
    let c = Reconnect.run 5000 (on_disconnect ∷ connect_failed ∷ fires 0 ∷ []) loaded in
    (c.failedstate ≡ true
      → (k : ℕ) × (i : ℕ) × (c.timers ≡ (k, i) ∷ [])
        × ((Reconnect.step 5000 (fires k) c).connects ≡ suc c.connects))
    × (c.failedstate ≡ false → c.timers ≡ [])
    × ((recover c).timers ≡ [])
one_timer_example = one_timer 5000 (on_disconnect ∷ connect_failed ∷ fires 0 ∷ [])

-- "a", three spaces, "b".
abbrev spaced : List ℕ
spaced = 97 ∷ 32 ∷ 32 ∷ 32 ∷ 98 ∷ []

remove_whitespace_ends_example :
    (remove_whitespace 5 spaced ≡ squeezed spaced) × (has_double_space (squeezed spaced) ≡ false)
remove_whitespace_ends_example = remove_whitespace_ends 5 spaced (omega arith)

abbrev today : Moment
today = record { year = 2016; month = 6; day = 4; time = 36000000 }

abbrev birthday : Moment
birthday = record { year = 2000; month = 6; day = 5; time = 0 }

search_by_age_example :
    (begin : Moment) × (end : Moment) × (cond_compare today equal 15
      ≡ (birth, between begin end) ∷ [])
    × (((before begin birthday && before birthday end) ≡ true) ↔ (calc_age today birthday ≡ pos 15))
search_by_age_example = search_by_age today birthday 15 refl (omega arith) refl (omega arith)
