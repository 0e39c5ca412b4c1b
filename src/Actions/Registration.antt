-- ===== src/Actions/Registration.antt =====
-- server/api/actions/students.js: `register_student`.
use Prim.Native.String.{◌++◌ as str_append}
use schulealsstaat.Base.{ℕ, zero, suc, String, Option, none, some, [], str_eq, if◌then◌else◌}
use schulealsstaat.Types.{Student, Answer, ok}
use schulealsstaat.Server.{Crypto, Action, ◌>>=◌, ◌>>◌, answer, branch}
use schulealsstaat.Db.Students.{get_by_qrid_lean, add}
use schulealsstaat.Actions.Students.{random_hex, generate_pwdhash, given}

pub record Registration : Type 0 where
  pub qrid : Option String
  pub password : String
  pub firstname : Option String
  pub lastname : Option String
  pub special_name : Option String
  pub picname : Option String
  pub country : Option String
  pub sclass : String
  pub subclass : String
  pub birthyear : String
  pub birthmonth : String
  pub birthday : String

abbrev pub class_of : Registration → String
class_of p = str_append p.sclass p.subclass

-- The text that is handed to `new Date`.
unfoldable pub birth_of : Registration → String
birth_of p =
    if str_eq (class_of p) "teacher"
    then "1970-1-1"
    else str_append p.birthyear
        (str_append "-" (str_append p.birthmonth (str_append "-" p.birthday)))

unfoldable pub new_student : Registration → String → String × String → Student
new_student p qrid crypt = record {
  id = 0;
  qrid = qrid;
  firstname = p.firstname;
  lastname = p.lastname;
  picname = p.picname;
  country = p.country;
  birth = birth_of p;
  type = class_of p;
  special_name = p.special_name;
  appear = [];
  pwdhash = crypt.1;
  pwdsalt = crypt.0;
}

-- The end of `regStudent`, for the QR-ID that was found to be free.
unfoldable pub register_as : Crypto → Registration → String → ℕ → Action (Unit {0})
register_as c p qrid rid = do
  crypt ← generate_pwdhash c p.password
  add (new_student p qrid crypt) rid
  answer rid ok

-- `regStudent` with no preset QR-ID: random ones are tried until one is free. The fuel bounds the
-- tries; out of fuel, the request is still waiting.
unfoldable pub try_random : ℕ → Crypto → Registration → ℕ → Action (Unit {0})
try_random zero c p rid s = (none, s)
try_random (suc fuel) c p rid s =
    let again = try_random fuel c p rid in
    (do
      qrid ← random_hex c 4
      st ← get_by_qrid_lean qrid rid
      elim st [ none ↦ register_as c p qrid rid | some other ↦ again ])
      s

preset : Crypto → Registration → String → ℕ → Action (Unit {0})
preset c p qrid rid = do
  st ← get_by_qrid_lean qrid rid
  elim st [
    | none ↦ register_as c p qrid rid
    | some other ↦
        answer rid (Answer.error (str_append "QR ID " (str_append qrid " already exists")))
  ]

abbrev text_of : Option String → String
text_of none = ""
text_of (some t) = t

unfoldable pub register_student : ℕ → Crypto → Registration → ℕ → Action (Unit {0})
unfolding preset
register_student fuel c p rid =
    branch (given p.qrid) (preset c p (text_of p.qrid) rid) (try_random fuel c p rid)
