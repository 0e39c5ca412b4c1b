-- ===== src/Terminal/Accounts.antt =====
-- client/userterminal/site/password_change/scripts.js and balance_get/scripts.js: what is sent and
-- what is shown, for the person that was identified.
use schulealsstaat.Base.{String, not, Option, none, some, str_eq, ◌⊎◌, inl, inr, if◌then◌else◌}
use schulealsstaat.Base.Int.{ℤ}
use schulealsstaat.Types.{Answer, ok, invalid_password}

pub data Message : Type 0 where
  no_person passwords_differ wrong_password : Message
  unknown_error : Answer → Message

pub data Shown : Type 0 where
  error_message : Message → Shown
  success : Shown
  balance : ℤ → Shown

-- The payload of `password_change`.
pub record PasswordChange : Type 0 where
  pub qrid : String
  pub old_password : String
  pub password : String

-- `.confirm` of password_change, with the old password and the new one, twice.
unfoldable pub confirm_password :
    Option String → String → String → String → Message ⊎ PasswordChange
confirm_password none old_password new_password1 new_password2 = inl no_person
confirm_password (some qrid) old_password new_password1 new_password2 =
    if str_eq qrid ""
    then inl no_person
    else if not (str_eq new_password1 new_password2)
    then inl passwords_differ
    else inr (record { qrid = qrid; old_password = old_password; password = new_password1 })

-- The callback of `password_change`.
unfoldable pub password_answer : Answer → Shown
password_answer invalid_password = error_message wrong_password
password_answer ok = success
password_answer other = error_message (unknown_error other)

-- The payload of `get_balance`.
pub record BalanceQuery : Type 0 where
  pub qrid : String
  pub password : String

-- `.confirm` of balance_get.
unfoldable pub confirm_balance : Option String → String → Message ⊎ BalanceQuery
confirm_balance none password = inl no_person
confirm_balance (some qrid) password =
    if str_eq qrid "" then inl no_person else inr (record { qrid = qrid; password = password })

-- The callback of `get_balance`: a balance is a text that is a number.
unfoldable pub balance_answer : Answer → Shown
balance_answer invalid_password = error_message wrong_password
balance_answer (Answer.balance b) = balance b
balance_answer other = error_message (unknown_error other)
