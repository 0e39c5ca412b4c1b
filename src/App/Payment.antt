-- ===== src/App/Payment.antt =====
-- The pages of client/app/www/js/send.js and receive.js: a payment is entered, confirmed in a window
-- that covers the page, and submitted. jQuery's `one` binds a handler for a single click.
pub mod Confirmed
use schulealsstaat.Base.{
  ℕ, zero, suc, ◌+◌, ◌-◌, String, Bool, true, false, Option, none, some, List, [], ◌∷◌, ◌++◌,
  str_eq, if◌then◌else◌,
}
use schulealsstaat.Base.Int.{ℤ, pos, negsuc}
use schulealsstaat.Types.{Student, Amount, Answer, ok, nomoney, invalid_password}
use schulealsstaat.Actions.Students.{Search}
use schulealsstaat.Actions.Transactions.{Payment}
use schulealsstaat.App.{student2readable}
use schulealsstaat.App.Page.{
  Role, Own, Form, Shown, Notice, Page, sending, receiving, ambiguous, unknown_person, bad_amount,
  no_money, wrong_password, unknown_error, initial,
}

abbrev pub notify : Notice → Page → Page
notify n p = record p { notices = p.notices ++ n ∷ [] }

-- A handler that is bound several times runs several times.
unfoldable pub times : ℕ → (Page → Page) → Page → Page
times zero f p = p
times (suc n) f p = times n f (f p)

abbrev pub unless_empty : String → Option String
unless_empty t = if str_eq t "" then none else some t

abbrev pub search_of : Form → Search
search_of f = record {
  qrid = unless_empty f.qrid;
  firstname = unless_empty f.firstname;
  lastname = unless_empty f.lastname;
  special_name = none;
  type = unless_empty f.type;
}

-- `onConfirmClick`, up to its query.
unfoldable pub on_confirm_click : Form → Page → Page
on_confirm_click f p = record p {
  amount = f.amount;
  comment = f.comment;
  identifying = p.identifying + 1;
  searches = p.searches ++ search_of f ∷ [];
}

unfoldable pub click_confirm : Form → Page → Page
click_confirm f p =
    times p.confirm_handlers (on_confirm_click f) (record p { confirm_handlers = 0 })

-- `!amount || isNaN(amount) || amount <= 0` is false.
abbrev pub is_positive : Option ℤ → Option ℤ
is_positive none = none
is_positive (some (pos zero)) = none
is_positive (some (pos (suc n))) = some (pos (suc n))
is_positive (some (negsuc n)) = none

abbrev pub person_of : Answer → Option Student
person_of (Answer.student st) = some st
person_of other = none

abbrev pub is_multiple : Answer → Bool
is_multiple Answer.multiple = true
is_multiple other = false

-- `upper` is `toUpperCase`, `to_fixed` prints an amount with two places.
module _ (upper : String → String) (to_fixed : ℤ → String) where
  abbrev pub shown_of : Student → ℤ → String → Shown
  shown_of st a comment = record {
    person = student2readable upper st;
    amount = to_fixed a;
    comment = comment;
  }

  abbrev pub with_person : Student → Option ℤ → Page → Page
  with_person st none p = notify bad_amount p
  with_person st (some a) p = record p {
    party = some st;
    window = shown_of st a p.comment;
    window_open = true;
  }

  -- The callback of the query: `student_identify` answers no object but a student.
  unfoldable pub identified : Answer → Page → Page
  identified res p =
      let bound = record p {
        confirm_handlers = p.confirm_handlers + 1;
        identifying = p.identifying - 1;
      } in
      if is_multiple res then notify ambiguous bound else elim (person_of res) [
        | none ↦ notify unknown_person bound
        | some st ↦ with_person st (is_positive p.amount) bound
      ]

-- The error callback of the query.
unfoldable pub identify_failed : Page → Page
identify_failed p = record p {
  confirm_handlers = p.confirm_handlers + 1;
  identifying = p.identifying - 1;
}

-- `#confirm_back`; the window fades out, which is at once here.
unfoldable pub back : Page → Page
back p = record p { window_open = false }

abbrev pub amount_payload : Option ℤ → Amount
amount_payload none = Amount.absent
amount_payload (some a) = Amount.number a

-- The payload of `transaction`; receive.js reads the sender's password from the page.
abbrev pub payment_of : Own → String → Student → Option ℤ → String → Payment
payment_of own typed st a comment = elim own.role [
  | sending ↦ record {
    sender = own.qrid;
    sender_password = own.password;
    recipient = st.qrid;
    amount_sent = amount_payload a;
    amount_received = Amount.absent;
    comment = some comment;
  }
  | receiving ↦ record {
    sender = st.qrid;
    sender_password = typed;
    recipient = own.qrid;
    amount_sent = amount_payload a;
    amount_received = Amount.absent;
    comment = some comment;
  }
]

-- `onSubmitClick` throws if there is no person.
unfoldable pub on_submit_click : Own → String → Page → Page
on_submit_click own typed p = elim p.party [
  | none ↦ p
  | some st ↦ record p {
    paying = p.paying + 1;
    payments = p.payments ++ payment_of own typed st p.amount p.comment ∷ [];
  }
]

unfoldable pub click_submit : Own → String → Page → Page
click_submit own typed p =
    times p.submit_handlers (on_submit_click own typed) (record p { submit_handlers = 0 })

abbrev pub notice_of : Answer → Option Notice
notice_of ok = none
notice_of nomoney = some no_money
notice_of invalid_password = some wrong_password
notice_of other = some (unknown_error other)

abbrev pub after_paying : Option Notice → Page → Page
after_paying (some n) p = notify n p
after_paying none p = record p {
  balance_updates = p.balance_updates + 1;
  window_open = false;
  success = true;
}

unfoldable pub paid : Answer → Page → Page
paid res p =
    after_paying (notice_of res)
      (record p { submit_handlers = p.submit_handlers + 1; paying = p.paying - 1 })

unfoldable pub pay_failed : Page → Page
pay_failed p = record p { submit_handlers = p.submit_handlers + 1; paying = p.paying - 1 }

pub data Event : Type 0 where
  confirms : Form → Event
  goes_back : Event
  submits : String → Event
  finds paid_with : Answer → Event
  finds_error pay_error : Event

abbrev pub is_waiting : ℕ → Bool
is_waiting zero = false
is_waiting (suc n) = true

-- The window covers the page, so only one of the two can be clicked; a callback needs a query.
abbrev pub can_happen : Event → Page → Bool
can_happen (confirms f) p = if p.window_open then false else true
can_happen goes_back p = p.window_open
can_happen (submits typed) p = p.window_open
can_happen (finds res) p = is_waiting p.identifying
can_happen finds_error p = is_waiting p.identifying
can_happen (paid_with res) p = is_waiting p.paying
can_happen pay_error p = is_waiting p.paying

module _ (upper : String → String) (to_fixed : ℤ → String) (own : Own) where
  abbrev pub happen : Event → Page → Page
  happen (confirms f) p = click_confirm f p
  happen goes_back p = back p
  happen (submits typed) p = click_submit own typed p
  happen (finds res) p = identified upper to_fixed res p
  happen finds_error p = identify_failed p
  happen (paid_with res) p = paid res p
  happen pay_error p = pay_failed p

  -- What cannot happen is passed over.
  unfoldable pub run : List Event → Page → Page
  run [] p = p
  run (e ∷ es) p = run es (if can_happen e p then happen e p else p)
