-- ===== src/Terminal/Payment.antt =====
-- client/userterminal/site/transaction_simple/scripts.js, with the events of common.js.
pub mod Persons
pub mod Twice
use schulealsstaat.Base.{
  ℕ, zero, suc, String, Bool, true, false, not, Option, none, some, List, [], ◌∷◌, ◌++◌, length,
  get_elem?, set, ltb, str_eq, ◌⊎◌, inl, inr, if◌then◌else◌,
}
use schulealsstaat.Base.Int.{ℤ}
use schulealsstaat.Types.{
  Student, Amount, Answer, ok, nomoney, invalid_password, invalid_amount, comment_too_long,
}
use schulealsstaat.Actions.Transactions.{Payment, utf16_length}
use schulealsstaat.Terminal.{Identified, ambiguous, not_found, found, student_identify}

pub data Role : Type 0 where
  as_sender as_recipient : Role

pub data Message : Type 0 where
  ambiguous_person unknown_person no_sender no_recipient not_numeric too_many_decimals : Message
  no_money wrong_password bad_amount long_comment : Message
  unknown_error : Answer → Message
  unavailable : Message

-- One half of the page: `current_sender` or `current_recipient`, and the person that
-- `.section_complete` shows.
pub record Section : Type 0 where
  pub current : Option String
  pub complete : Option Student

-- A query with the variable `server_answered` of its handler, and whether its timer has run out.
pub record Query : Type 0 where
  pub server_answered : Bool
  pub timed_out : Bool

pub record Page : Type 0 where
  pub sender : Section
  pub recipient : Section
  pub confirm_disabled : Bool
  -- the message boxes, newest last, and whether the one for success is open
  pub messages : List Message
  pub success : Bool
  -- the payments that were sent, and their queries
  pub sent : List Payment
  pub queries : List Query

abbrev pub nobody : Section
nobody = record { current = none; complete = none }

abbrev pub initial : Page
initial = record {
  sender = nobody;
  recipient = nobody;
  confirm_disabled = false;
  messages = [];
  success = false;
  sent = [];
  queries = [];
}

-- `errorMessage`
abbrev pub error_message : Message → Page → Page
error_message m p = record p { messages = p.messages ++ m ∷ []; confirm_disabled = false }

abbrev pub with_section : Role → (Section → Section) → Page → Page
with_section as_sender f p = record p { sender = f p.sender }
with_section as_recipient f p = record p { recipient = f p.recipient }

-- An answer that comes after the page was reset shows the name in the section of the old page, and
-- sets the variable of the new one.
abbrev pub chosen : Bool → Student → Section → Section
chosen false st s = record { current = some st.qrid; complete = some st }
chosen true st s = record s { current = some st.qrid }

-- An answer to `student_identify` for one half, late or not: `handleIdentifyAnswer`, after the name
-- is shown.
abbrev pub identified : Role → Bool → Identified → Page → Page
identified role late ambiguous p = error_message ambiguous_person p
identified role late not_found p = error_message unknown_person p
identified role late (found st) p = with_section role (chosen late st) p

unfoldable pub identify : Role → Bool → Answer → Page → Page
identify role late res p = identified role late (student_identify res) p

-- A click on `.section_complete`.
unfoldable pub change : Role → Page → Page
change role p = with_section role (λ s. record s { complete = none }) p

-- `resetAll` loads the page's script again, which begins with the two variables.
unfoldable pub reset_all : Page → Page
reset_all p = record p {
  sender = nobody;
  recipient = nobody;
  confirm_disabled = false;
  success = false;
}

-- The inputs. The amount is what `parseFloat` returns where `isNumeric` holds, and `none` where not.
pub record Form : Type 0 where
  pub amount : Option ℤ
  pub comment : String
  pub password : String

-- `!current_sender`
abbrev pub truthy : Option String → Option String
truthy none = none
truthy (some t) = if str_eq t "" then none else some t

abbrev pub payment_of : String → String → ℤ → Form → Payment
payment_of sender recipient amount f = record {
  sender = sender;
  sender_password = f.password;
  recipient = recipient;
  amount_sent = Amount.number amount;
  amount_received = Amount.absent;
  comment = some f.comment;
}

abbrev pub second_length : List String → ℕ
second_length [] = 0
second_length (a ∷ []) = 0
second_length (a ∷ b ∷ rest) = utf16_length b

-- `nDecimals` of this page, with the pieces of a number's text between its points: it looks at the
-- second piece, whatever it holds.
unfoldable pub n_decimals : (ℤ → List String) → ℤ → ℕ
n_decimals pieces a = second_length (pieces a)

-- What `.confirm` makes of the page and its inputs: a message or a payment, with the number of
-- decimal places that the configuration allows.
unfoldable pub prepared :
    (ℤ → List String) → ℕ → Form → Option String → Option String → Message ⊎ Payment
prepared pieces places f none recipient = inl no_sender
prepared pieces places f (some sender) none = inl no_recipient
prepared pieces places f (some sender) (some recipient) = elim f.amount [
  | none ↦ inl not_numeric
  | some a ↦
      if ltb places (n_decimals pieces a)
      then inl too_many_decimals
      else inr (payment_of sender recipient a f)
]

abbrev pub confirmed : Message ⊎ Payment → Page → Page
confirmed (inl m) p = error_message m p
confirmed (inr payment) p = record p {
  sent = p.sent ++ payment ∷ [];
  queries = p.queries ++ record { server_answered = false; timed_out = false } ∷ [];
}

-- The handler of `.confirm`; a disabled button does nothing.
unfoldable pub confirm : (ℤ → List String) → ℕ → Form → Page → Page
confirm pieces places f p =
    if p.confirm_disabled
    then p
    else confirmed (prepared pieces places f (truthy p.sender.current) (truthy p.recipient.current))
        (record p { confirm_disabled = true })

abbrev pub message_of : Answer → Option Message
message_of ok = none
message_of nomoney = some no_money
message_of invalid_password = some wrong_password
message_of invalid_amount = some bad_amount
message_of comment_too_long = some long_comment
message_of other = some (unknown_error other)

abbrev pub after_answer : Option Message → Page → Page
after_answer none p = record p { success = true }
after_answer (some m) p = error_message m p

-- The callback of a query.
abbrev pub answered_for : Option Query → ℕ → Answer → Page → Page
answered_for none k res p = p
answered_for (some q) k res p =
    after_answer (message_of res)
      (record p { queries = set p.queries k (record q { server_answered = true }) })

unfoldable pub answered : ℕ → Answer → Page → Page
answered k res p = answered_for (get_elem? p.queries k) k res p

abbrev pub after_timer : Bool → Page → Page
after_timer true p = p
after_timer false p = error_message unavailable p

-- The timer of 1500 ms of a query.
abbrev pub timed_out_for : Option Query → ℕ → Page → Page
timed_out_for none k p = p
timed_out_for (some q) k p =
    after_timer q.server_answered
      (record p { queries = set p.queries k (record q { timed_out = true }) })

unfoldable pub times_out : ℕ → Page → Page
times_out k p = timed_out_for (get_elem? p.queries k) k p

pub data Event : Type 0 where
  -- whether the answer comes after a reset of the page that sent the query
  identifies : Role → Bool → Answer → Event
  changes : Role → Event
  resets : Event
  confirms : Form → Event
  answers : ℕ → Answer → Event
  timer : ℕ → Event

module _ (pieces : ℤ → List String) (places : ℕ) where
  unfoldable pub step : Event → Page → Page
  step (identifies role late res) p = identify role late res p
  step (changes role) p = change role p
  step resets p = reset_all p
  step (confirms f) p = confirm pieces places f p
  step (answers k res) p = answered k res p
  step (timer k) p = times_out k p

  unfoldable pub run : List Event → Page → Page
  run [] p = p
  run (e ∷ es) p = run es (step e p)
