-- ===== src/App.antt =====
-- The smartphone app: client/app/www/js/common.js. How it names a person and what it does with the
-- outcome of a query.
pub mod Page
pub mod Payment
pub mod Longpolling
use Prim.Native.String.{◌++◌ as str_append}
use schulealsstaat.Base.{
  zero, String, Bool, true, false, not, ◌&&◌, Option, none, some, List, [], ◌∷◌, str_eq,
  if◌then◌else◌,
}
use schulealsstaat.Base.Int.{ℤ, pos, negsuc}
use schulealsstaat.Types.{Student}
use schulealsstaat.Client.{
  Status, Reply, success_intranet, success_internet, error, error_unknown, error_spoof,
  error_encryption,
}

-- A property in a text: a missing one is "undefined".
abbrev pub shown : Option String → String
shown none = "undefined"
shown (some t) = t

abbrev pub full_name : Student → String
full_name st = str_append (shown st.firstname) (str_append " " (shown st.lastname))

-- `upper` is `toUpperCase`. The last `return` of the source is never reached.
unfoldable pub student2readable : (String → String) → Student → String
student2readable upper st =
    if str_eq st.type ""
    then str_append "Kontonummer '" (str_append st.qrid "'")
    else if not (str_eq st.type "visitor")
        && not (str_eq st.type "teacher")
        && not (str_eq st.type "legalentity")
        && not (str_eq st.type "other")
    then str_append (full_name st) (str_append ", Klasse " (upper st.type))
    else if str_eq st.type "visitor"
    then str_append "Besucher mit Kontonummer " st.qrid
    else if str_eq st.type "teacher"
    then str_append (full_name st) " (Lehrer/Lehrerin)"
    else if str_eq st.type "legalentity"
    then str_append (shown st.special_name) " (juristische Person)"
    else full_name st

-- What `action_app` does: `errorMessage` for a status, the callback, the callback for errors.
pub data Effect (A : Type 0) : Type 0 where
  reports : Status → Effect A
  calls_back : Reply A → Effect A
  calls_error : Status → Effect A

module _ {A : Type 0} where
  -- `if (cb_error) cb_error(status)` after a message.
  abbrev pub failing : Bool → Status → List (Effect A)
  failing cb_error status = reports status ∷ (if cb_error then calls_error status ∷ [] else [])

  -- The callback of `action_app`, which the client calls with an answer and a status, and whether
  -- `cb` and `cb_error` are given.
  unfoldable pub action_app : Bool → Bool → Reply A → Status → List (Effect A)
  action_app cb cb_error res error = failing cb_error error
  action_app cb cb_error res error_unknown = failing cb_error error_unknown
  action_app cb cb_error res error_spoof = failing cb_error error_spoof
  action_app cb cb_error res error_encryption = failing cb_error error_encryption
  action_app cb cb_error res success_intranet = if cb then calls_back res ∷ [] else []
  action_app cb cb_error res success_internet = if cb then calls_back res ∷ [] else []

-- `update_balance` keeps the answer if it is a number and not zero: `none` is `NaN`.
unfoldable pub update_balance : Option ℤ → Option ℤ → Option ℤ
update_balance none stored = stored
update_balance (some (pos zero)) stored = stored
update_balance (some balance) stored = some balance
