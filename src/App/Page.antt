-- ===== src/App/Page.antt =====
-- The page on which client/app/www/js/send.js and receive.js enter a payment: its inputs, its
-- variables and what it shows.
use schulealsstaat.Base.{ℕ, String, Bool, false, Option, none, List, []}
use schulealsstaat.Base.Int.{ℤ}
use schulealsstaat.Types.{Student, Answer}
use schulealsstaat.Actions.Students.{Search}
use schulealsstaat.Actions.Transactions.{Payment}

-- send.js or receive.js, with the QR-ID and the password of the app's storage.
pub data Role : Type 0 where
  sending receiving : Role

pub record Own : Type 0 where
  pub role : Role
  pub qrid : String
  pub password : String

-- The inputs of the page. The amount is what `parseFloat` made of it; `none` is `NaN`.
pub record Form : Type 0 where
  pub qrid : String
  pub firstname : String
  pub lastname : String
  pub type : String
  pub comment : String
  pub amount : Option ℤ

-- What the confirmation window says.
pub record Shown : Type 0 where
  pub person : String
  pub amount : String
  pub comment : String

pub data Notice : Type 0 where
  ambiguous unknown_person bad_amount no_money wrong_password : Notice
  unknown_error : Answer → Notice

-- The variables of the script and what the page shows. The handlers bound to `#confirm` and
-- `#confirm_submit` and the queries without an answer are counted.
pub record Page : Type 0 where
  -- `amount`, `comment` and `current_recipient` or `current_sender`
  pub amount : Option ℤ
  pub comment : String
  pub party : Option Student
  pub window_open : Bool
  pub window : Shown
  pub success : Bool
  pub confirm_handlers : ℕ
  pub submit_handlers : ℕ
  pub identifying : ℕ
  pub paying : ℕ
  -- all queries and messages, in order
  pub searches : List Search
  pub payments : List Payment
  pub notices : List Notice
  pub balance_updates : ℕ

abbrev pub initial : Page
initial = record {
  amount = none;
  comment = "";
  party = none;
  window_open = false;
  window = record { person = ""; amount = ""; comment = "" };
  success = false;
  confirm_handlers = 1;
  submit_handlers = 1;
  identifying = 0;
  paying = 0;
  searches = [];
  payments = [];
  notices = [];
  balance_updates = 0;
}
