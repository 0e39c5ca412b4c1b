-- ===== src/Actions/Students.antt =====
-- server/api/actions/students.js
use Prim.Native.String.{◌++◌ as str_append}
use schulealsstaat.Base.{
  ℕ, suc, String, Bool, true, false, not, ◌&&◌, ◌||◌, Option, none, some, List, [], ◌∷◌, map, any,
  str_eq, if◌then◌else◌,
}
use schulealsstaat.Base.Int.{ℤ, pos}
use schulealsstaat.Types.{
  Student, AppearType, checkin, checkout, Answer, ok, multiple, invalid_qrid, invalid_password,
}
use schulealsstaat.Server.{
  Crypto, Action, ◌>>=◌, ◌>>◌, pure, gets, answer, refuse_if, some_or_refuse,
}
use schulealsstaat.Db.Students.{
  get_by_qrid, get_certain_by_qrid_lean, get_by_properties, add_appear, save, remove,
}
use schulealsstaat.Actions.Common.{check_password}

-- `crypto.randomBytes(n).toString("hex")`
unfoldable pub random_hex : Crypto → ℕ → Action String
random_hex c n s =
    (some (c.random_bytes s.random_calls n), record s { random_calls = suc s.random_calls })

-- `generate_pwdhash`: the salt and the hash.
unfoldable pub generate_pwdhash : Crypto → String → Action (String × String)
generate_pwdhash c pwd = do
  pwdsalt ← random_hex c 32
  pure (pwdsalt, c.sha256 (str_append pwd pwdsalt))

-- The query of a request is a test of the students, its `fields` a projection of them.
unfoldable pub students_get : (Student → Bool) → (Student → Student) → ℤ → ℕ → Action (Unit {0})
students_get query fields limit rid = do
  list ← get_by_properties query limit rid
  answer rid (Answer.students (map fields list))

abbrev pub allow_edit : List String
allow_edit =
    "firstname" ∷ "lastname" ∷ "qrid" ∷ "picname" ∷ "birth" ∷ "type" ∷ "special_name" ∷ "country"
    ∷ []

-- `st[prop] = value`, at the properties that may be edited.
unfoldable pub set_prop : String → String → Student → Student
set_prop prop value st =
    if str_eq prop "firstname"
    then record st { firstname = some value }
    else if str_eq prop "lastname"
    then record st { lastname = some value }
    else if str_eq prop "qrid"
    then record st { qrid = value }
    else if str_eq prop "picname"
    then record st { picname = some value }
    else if str_eq prop "birth"
    then record st { birth = value }
    else if str_eq prop "type"
    then record st { type = value }
    else if str_eq prop "special_name"
    then record st { special_name = some value }
    else if str_eq prop "country"
    then record st { country = some value }
    else st

unfoldable pub profile_edit : String → String → String → ℕ → Action (Unit {0})
profile_edit qrid prop value rid = do
  st ← some_or_refuse (← get_by_qrid qrid rid) rid (Answer.error "wrong qrid")
  refuse_if (not (any (str_eq prop) allow_edit)) rid
      (Answer.error (str_append "not allowed to edit " prop))
  save (set_prop prop value st)
  answer rid ok

unfoldable pub student_delete : String → ℕ → Action (Unit {0})
student_delete qrid rid = do
  st ← some_or_refuse (← get_by_qrid qrid rid) rid (Answer.error "invalid qrid")
  remove st
  answer rid ok

-- The payload of `student_identify`: a property is missing, or a text.
pub record Search : Type 0 where
  pub firstname : Option String
  pub lastname : Option String
  pub special_name : Option String
  pub qrid : Option String
  pub type : Option String

-- A text counts as true if it is not empty.
abbrev pub given : Option String → Bool
given none = false
given (some t) = not (str_eq t "")

-- How the database tests a field: a missing property tests nothing, an empty text is compared,
-- and any other is made a regular expression that matches the whole field, in any case.
module _ (matches : String → String → Bool) where
  abbrev pub field_test : Option String → Option String → Bool
  field_test none field = true
  field_test (some t) none = false
  field_test (some t) (some value) = if given (some t) then matches t value else str_eq value t

  abbrev pub qrid_test : Option String → String → Bool
  qrid_test none q = true
  qrid_test (some t) q = str_eq q t

  abbrev pub search_test : Search → Student → Bool
  search_test p st =
      field_test p.firstname st.firstname
      && field_test p.lastname st.lastname
      && field_test p.special_name st.special_name
      && field_test p.type (some st.type)
      && qrid_test p.qrid st.qrid

-- `student_public_fields`: what the projection leaves out is empty.
abbrev pub public_fields : Student → Student
public_fields st = record st { appear = []; pwdhash = ""; pwdsalt = "" }

-- The answer for the students that were found.
unfoldable pub identified : List Student → Answer
identified [] = Answer.error "not found"
identified (st ∷ []) = Answer.student (public_fields st)
identified (st ∷ other ∷ sts) = multiple

unfoldable pub student_identify : (String → String → Bool) → Search → ℕ → Action (Unit {0})
student_identify matches p rid = do
  refuse_if
      (not (
        given p.firstname
        || given p.lastname
        || given p.special_name
        || given p.qrid
        || given p.type))
      rid (Answer.error "underspecification")
  sts ← get_by_properties (search_test matches p) (pos 0) rid
  answer rid (identified sts)

unfoldable pub change_password : Crypto → Student → String → Action (Unit {0})
change_password c st new_password = do
  crypt ← generate_pwdhash c new_password
  save (record st { pwdhash = crypt.1; pwdsalt = crypt.0 })

unfoldable pub password_change : Crypto → String → String → String → ℕ → Action (Unit {0})
password_change c qrid old_password password rid = do
  st ← some_or_refuse (← get_by_qrid qrid rid) rid invalid_qrid
  refuse_if (not (check_password c st old_password)) rid invalid_password
  change_password c st password
  answer rid ok

unfoldable pub password_change_master : Crypto → String → String → ℕ → Action (Unit {0})
password_change_master c qrid password rid = do
  st ← some_or_refuse (← get_by_qrid qrid rid) rid invalid_qrid
  change_password c st password
  answer rid ok

-- The fields for the entrycheck client.
abbrev pub ec_fields : Student → Student
ec_fields st = record st { special_name = none; country = none; pwdhash = ""; pwdsalt = "" }

unfoldable pub ec_student_get : String → ℕ → Action (Unit {0})
ec_student_get qrid rid = do
  st ← some_or_refuse (← get_certain_by_qrid_lean qrid rid) rid (Answer.error "not found")
  answer rid (Answer.student (ec_fields st))

-- `ec_checkin` and `ec_checkout`
unfoldable pub ec_check : AppearType → String → ℕ → Action (Unit {0})
ec_check type qrid rid = do
  time ← gets (λ s. s.clock)
  success ← add_appear qrid (record { type = type; time = time }) rid
  answer rid (if success then ok else Answer.error "invalid qrid")

unfoldable pub ec_checkin : String → ℕ → Action (Unit {0})
ec_checkin qrid rid = ec_check checkin qrid rid

unfoldable pub ec_checkout : String → ℕ → Action (Unit {0})
ec_checkout qrid rid = ec_check checkout qrid rid
