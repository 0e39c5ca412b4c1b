-- ===== src/Actions/Passwords.antt =====
-- What password_change of server/api/actions/students.js does to the stored student.
use Prim.Native.String.{◌++◌ as str_append}
use text.Mathlib.TextPositions.{eq_refl}
use schulealsstaat.Base.{
  ℕ, ◌≡◌, refl, ap, ◌∙◌, String, true, some, List, [], ◌∷◌, ◌++◌, arith, ◌==◌,
}
use schulealsstaat.Types.{Student, ok}
use schulealsstaat.Server.{Server, Crypto, query, command_silent}
use schulealsstaat.Db.Students.{find_qrid, has_qrid, qrid_free, others, replace, save, get_by_qrid}
use schulealsstaat.Actions.Common.{check_password}
use schulealsstaat.Actions.Students.{random_hex, generate_pwdhash, change_password, password_change}

eq_self : (n : ℕ) → (n == n) ≡ true
eq_self n = ground arith

find-replace :
    (q : String) (st new : Student) (xs : List Student)
    → find_qrid q xs ≡ some st
    → (new.id == st.id) ≡ true
    → has_qrid q new ≡ true
    → find_qrid q (replace new xs) ≡ some new
find-replace q st new [] f i h = cc
find-replace q st new (x ∷ xs) f i h = ground (arith, find-replace q st new xs)

found_has :
    (q : String) (st : Student) (xs : List Student)
    → find_qrid q xs ≡ some st
    → has_qrid q st ≡ true
found_has q st [] f = cc
found_has q st (x ∷ xs) f = ground (arith, found_has q st xs)

-- The student with the new salt and hash, at a server's count of random texts.
abbrev pub rehashed : Crypto → Student → String → Server → Student
rehashed c st pw s =
    let salt = c.random_bytes s.random_calls 32 in
    record st { pwdhash = c.sha256 (str_append pw salt); pwdsalt = salt }

changed :
    (c : Crypto) (qrid old pw : String) (rid : ℕ) (s : Server) (st : Student)
    → s.db.connected ≡ true
    → find_qrid qrid s.db.students ≡ some st
    → check_password c st old ≡ true
    → qrid_free st.qrid (others st.id s.db.students) ≡ true
    → let s' = (password_change c qrid old pw rid s).1 in
      (s'.answers ≡ s.answers ++ (rid, ok) ∷ [])
      × (s'.db.students ≡ replace (rehashed c st pw s) s.db.students)
unfolding password_change change_password generate_pwdhash random_hex save command_silent
    get_by_qrid query
changed c qrid old pw rid s st up f p u = rw (up, f, p, u) (refl, refl)

-- Whoever changes a password with the old one is answered ok, and the stored student is then
-- accepted with the new one, if the unique index holds and the database is connected.
pub password_change_accepts :
    (c : Crypto) (qrid old pw : String) (rid : ℕ) (s : Server) (st : Student)
    → s.db.connected ≡ true
    → find_qrid qrid s.db.students ≡ some st
    → check_password c st old ≡ true
    → qrid_free st.qrid (others st.id s.db.students) ≡ true
    → let s' = (password_change c qrid old pw rid s).1 in
      (s'.answers ≡ s.answers ++ (rid, ok) ∷ [])
      × ((st' : Student) × (find_qrid qrid s'.db.students ≡ some st')
          × (check_password c st' pw ≡ true))
unfolding check_password
password_change_accepts c qrid old pw rid s st up f p u =
    let (answers, students) = changed c qrid old pw rid s st up f p u in
    let new = rehashed c st pw s in
    (
      answers,
      (
        new,
        ap (find_qrid qrid) students
            ∙ find-replace qrid st new s.db.students f (eq_self st.id)
                (found_has qrid st s.db.students f),
        eq_refl new.pwdhash,
      ),
    )
