-- ===== src/Terminal.antt =====
-- The terminals in client/userterminal/site: common.js, and what the pages transaction_simple,
-- password_change and balance_get have in common.
pub mod Payment
pub mod Accounts
use Prim.Native.String.{◌++◌ as str_append}
use schulealsstaat.Base.{
  String, Bool, true, false, not, ◌&&◌, Option, none, some, str_eq, if◌then◌else◌,
}
use schulealsstaat.Types.{Student, Answer}
use schulealsstaat.Actions.Students.{Search}
use schulealsstaat.App.{full_name, shown}

-- `student2readable` of common.js, where `upper` is `toUpperCase`.
unfoldable pub student2readable : (String → String) → Student → String
student2readable upper st =
    if str_eq st.type ""
    then "Keine genaue Beschreibung verfügbar"
    else if not (str_eq st.type "visitor")
        && not (str_eq st.type "teacher")
        && not (str_eq st.type "legalentity")
        && not (str_eq st.type "other")
    then str_append (full_name st) (str_append ", Klasse " (upper st.type))
    else if str_eq st.type "visitor"
    then str_append "Besucher mit Kontonummer " st.qrid
    else if str_eq st.type "teacher"
    then str_append (full_name st) " (Lehrer/Lehrerin)"
    else if str_eq st.type "legalentity"
    then str_append (shown st.special_name) " (juristische Person)"
    else full_name st

abbrev pub unless_empty : String → Option String
unless_empty t = if str_eq t "" then none else some t

-- `.name_ok`: the payload of `student_identify` by name and class.
unfoldable pub search_by_name : String → String → String → Search
search_by_name firstname lastname type = record {
  firstname = unless_empty firstname;
  lastname = unless_empty lastname;
  special_name = none;
  qrid = none;
  type = unless_empty type;
}

-- `.qrid_ok` and `.qrcode_scan`: the payload by QR-ID.
unfoldable pub search_by_qrid : String → Search
search_by_qrid qrid = record {
  firstname = none;
  lastname = none;
  special_name = none;
  qrid = some qrid;
  type = none;
}

-- What `student_identify` makes of an answer.
pub data Identified : Type 0 where
  ambiguous not_found : Identified
  found : Student → Identified

-- The callback of `student_identify`; the action answers no object but a student, or null.
unfoldable pub student_identify : Answer → Identified
student_identify Answer.multiple = ambiguous
student_identify (Answer.student st) = found st
student_identify other = not_found
