-- ===== src/Types.antt =====
-- The documents of the database and the data that requests and answers carry:
-- the schemas of server/api/db/students.js and server/api/db/transactions.js, and the payloads and
-- answers of server/api/actions. A field that a document may lack is an `Option`.
use schulealsstaat.Base.{ℕ, String, Bool, Option, List}
use schulealsstaat.Base.Int.{ℤ}

-- An entry of `appear`.
pub data AppearType : Type 0 where
  checkin checkout : AppearType

pub record Appear : Type 0 where
  pub type : AppearType
  pub time : ℕ

pub record Student : Type 0 where
  pub id : ℕ
  pub qrid : String
  pub firstname : Option String
  pub lastname : Option String
  pub picname : Option String
  pub country : Option String
  pub birth : String
  pub type : String
  pub special_name : Option String
  pub appear : List Appear
  pub pwdhash : String
  pub pwdsalt : String

-- `commonProfileSchema`: the copy of a student that a transaction keeps. The magic account has no
-- reference and no type.
pub record Profile : Type 0 where
  pub reference : Option ℕ
  pub special_name : Option String
  pub firstname : Option String
  pub lastname : Option String
  pub country : Option String
  pub type : Option String
  pub qrid : String

-- Amounts are exact decimals, counted in multiples of 10^-12 HGC.
abbrev pub grid_places : ℕ
grid_places = 12

-- A tax in percent: `num / den` percent.
pub record Percent : Type 0 where
  pub num : ℕ
  pub den : ℕ

-- What `transaction` hands to the database.
pub record Entry : Type 0 where
  pub sender : Profile
  pub recipient : Profile
  pub tax_recipient : ℕ
  pub time : ℕ
  pub amount_sent : ℤ
  pub amount_received : ℤ
  pub amount_tax : ℤ
  pub percent_tax : Percent
  pub comment : Option String

-- A stored transaction.
pub record Transaction : Type 0 where
  pub id : ℕ
  pub entry : Entry
  pub open entry use *

-- A document of the collection of pending transactions.
pub record PendingTransaction : Type 0 where
  pub id : ℕ
  pub sender : ℕ
  pub time : ℕ

-- An amount in a payload: missing or another falsy value; a number; or any other value, with the
-- number of decimal places that its printed form shows.
pub data Amount : Type 0 where
  absent : Amount
  number : ℤ → Amount
  other : ℕ → Amount

-- An item of the list that `get_last_transactions` answers.
pub record Statement : Type 0 where
  pub sender : Profile
  pub recipient : Profile
  pub time : ℕ
  pub amount_sent : ℤ
  pub amount_received : ℤ
  pub amount_tax : ℤ
  pub percent_tax : Percent
  pub transformed_taxinc : Bool
  pub comment : Option String

pub data Answer : Type 0 where
  ok nomoney invalid_qrid invalid_password invalid_sender invalid_recipient : Answer
  overspecified underspecified invalid_amount too_many_decplaces comment_too_long : Answer
  invalid_id invalid_date multiple timeout : Answer
  -- "error: " and a text
  error : String → Answer
  -- "error: database error [component]"
  database_error : String → Answer
  balance : ℤ → Answer
  statements : List Statement → Answer
  transactions : List Transaction → Answer
  students : List Student → Answer
  student : Student → Answer
