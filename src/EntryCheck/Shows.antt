-- ===== src/EntryCheck/Shows.antt =====
-- What a card shows after a check-in or a check-out: the entry check, the server and the check-in
-- time together.
use schulealsstaat.Base.{
  arith, ℕ, ◌≤◌, ◌+◌, ◌*◌, ◌≡◌, refl, sym, ap, ◌∙◌, String, Bool, true, false, Option, none, some,
  List, All, [], ◌∷◌, ◌++◌, if_cases, if◌then◌else◌,
}
use schulealsstaat.Types.{Student, Appear, AppearType, Answer, ok}
use mathlib.Core.List.{append_assoc}
use schulealsstaat.Server.{Server, say, set_db, query}
use schulealsstaat.Db.Students.{
  has_qrid, find_qrid, push_appear, add_appear, get_certain_by_qrid_lean,
}
use schulealsstaat.Actions.Students.{ec_check, ec_student_get, ec_fields}
use schulealsstaat.Checkin.Reference.{is_checkin}
use schulealsstaat.Checkin.Last.{calc_checkin_time-last}
use schulealsstaat.EntryCheck.{Found, found_of, found_in, since}

abbrev pushed : Appear → Student → Student
pushed a st = record st { appear = st.appear ++ a ∷ [] }

find-push :
    (q : String) (a : Appear) (sts : List Student) (st : Student)
    → find_qrid q sts ≡ some st
    → find_qrid q (push_appear q a sts) ≡ some (pushed a st)
find-push q a [] st e = cc
find-push q a (x ∷ xs) st e =
    let is : (b : Bool) → has_qrid q x ≡ b → (if b then some x else find_qrid q xs) ≡ some st =
      λ b h. sym (ap (λ t. if t then some x else find_qrid q xs) h) ∙ e in
    if_cases (λ r. find_qrid q r ≡ some (pushed a st)) (has_qrid q x)
      (λ h.
        if_cases (λ o. o ≡ some (pushed a st)) (has_qrid q x)
          (λ _.
            ap (λ (o : Option Student). elim o [ none ↦ none | some y ↦ some (pushed a y) ])
              (is true h))
          (λ g. cc (g, h)))
      (λ h.
        if_cases (λ o. o ≡ some (pushed a st)) (has_qrid q x) (λ g. cc (g, h))
          (λ _. find-push q a xs st (is false h)))

abbrev with_check : Appear → String → ℕ → Server → Server
with_check a q rid s =
    say rid ok (set_db (λ db. record db { students = push_appear q a db.students }) s)

ec_check_stores :
    (type : AppearType) (q : String) (rid : ℕ) (s : Server) (st : Student)
    → find_qrid q s.db.students ≡ some st
    → s.db.connected ≡ true
    → (ec_check type q rid s).1 ≡ with_check (record { type = type; time = s.clock }) q rid s
unfolding ec_check add_appear
ec_check_stores type q rid s st e up = rw (up, e) refl

ec_student_get_finds :
    (q : String) (rid : ℕ) (s : Server) (st : Student)
    → find_qrid q s.db.students ≡ some st
    → s.db.connected ≡ true
    → (ec_student_get q rid s).1 ≡ say rid (Answer.student (ec_fields st)) s
unfolding ec_student_get get_certain_by_qrid_lean query
ec_student_get_finds q rid s st e up = rw (up, e) refl

-- If a student with the QR-ID is in the database, the database is connected, and no appearance of
-- the student is later than now, then after a check-in or a check-out, a card that is scanned at any
-- time in the next twelve hours shows the student as inside exactly if it was a check-in.
pub check_shows :
    (type : AppearType) (q : String) (rid rid' now : ℕ) (s : Server) (st : Student)
    → find_qrid q s.db.students ≡ some st
    → s.db.connected ≡ true
    → All (λ (a : Appear). a.time ≤ s.clock) st.appear
    → now ≤ s.clock + 12 * 60 * 60 * 1000
    → s.clock ≤ now
    → (f : Found) × (res : Answer) × ((ec_student_get q rid' (ec_check type q rid s).1).1.answers
        ≡ s.answers ++ (rid, ok) ∷ (rid', res) ∷ [])
      × (found_in res now ≡ some f)
      × (f.inside ≡ is_checkin type)
unfolding found_in
check_shows type q rid rid' now s st e up earlier b l =
    let a : Appear = record { type = type; time = s.clock } in
    let stored = with_check a q rid s in
    (
      found_of (ec_fields (pushed a st)) now,
      Answer.student (ec_fields (pushed a st)),
      ap (λ s'. (ec_student_get q rid' s').1.answers) (ec_check_stores type q rid s st e up)
          ∙ ap (λ s'. s'.answers)
              (ec_student_get_finds q rid' stored (pushed a st) (find-push q a s.db.students st e)
                up)
          ∙ append_assoc s.answers _ _,
      refl,
      calc_checkin_time-last st.appear a (since now) now earlier (omega (arith, b)) l,
    )
