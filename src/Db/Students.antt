-- ===== src/Db/Students.antt =====
-- server/api/db/students.js: the queries on the collection of students. `qrid` has a unique index.
use schulealsstaat.Base.{
  ℕ, zero, suc, String, Bool, true, false, Option, none, some, List, [], ◌∷◌, ◌++◌, str_eq, first,
  keep, take, is_some, ◌==◌, if◌then◌else◌,
}
use schulealsstaat.Base.Int.{ℤ, pos, negsuc}
use schulealsstaat.Types.{Student, Appear}
use schulealsstaat.Server.{Action, query, command_silent, db_error, set_db}

abbrev pub has_qrid : String → Student → Bool
has_qrid q st = str_eq st.qrid q

-- `Student.findOne({qrid : qrid})`
abbrev pub find_qrid : String → List Student → Option Student
find_qrid q sts = first (has_qrid q) sts

-- A limit that is missing, zero or negative is no limit.
abbrev pub limited {ℓ} : {A : Type ℓ} → ℤ → List A → List A
limited (pos zero) xs = xs
limited (pos (suc n)) xs = take (suc n) xs
limited (negsuc n) xs = xs

-- What the unique index admits.
abbrev pub qrid_free : String → List Student → Bool
qrid_free q sts = elim (find_qrid q sts) [ none ↦ true | some st ↦ false ]

unfoldable pub get_by_qrid_lean : String → ℕ → Action (Option Student)
get_by_qrid_lean q rid = query "stdb.getByQridLean" rid (λ db. find_qrid q db.students)

unfoldable pub get_by_qrid : String → ℕ → Action (Option Student)
get_by_qrid q rid = query "stdb.getByQrid" rid (λ db. find_qrid q db.students)

unfoldable pub get_certain_by_qrid_lean : String → ℕ → Action (Option Student)
get_certain_by_qrid_lean q rid =
    query "stdb.getCertainByQridLean" rid (λ db. find_qrid q db.students)

-- The query of a request is a test of the documents.
unfoldable pub get_by_properties : (Student → Bool) → ℤ → ℕ → Action (List Student)
get_by_properties test limit rid =
    query "stdb.getCertainByProperties" rid (λ db. limited limit (keep test db.students))

-- `new Student(info).save()`: the id is new, and the unique index refuses a known `qrid`.
unfoldable pub add : Student → ℕ → Action Student
add info rid s =
    let st : Student = record info { id = s.db.next_id } in
    if s.db.connected
    then (if qrid_free info.qrid s.db.students
        then (
          some st,
          set_db (λ db. record db { students = db.students ++ st ∷ []; next_id = suc db.next_id })
              s,
        )
        else db_error "stdb.add" rid s)
    else db_error "stdb.add" rid s

-- `$push` on the first student with the `qrid`; the callback learns whether there was one.
abbrev pub push_appear : String → Appear → List Student → List Student
push_appear q spec [] = []
push_appear q spec (st ∷ sts) =
    let rest = push_appear q spec sts in
    if has_qrid q st then record st { appear = st.appear ++ spec ∷ [] } ∷ sts else st ∷ rest

unfoldable pub add_appear : String → Appear → ℕ → Action Bool
add_appear q spec rid s =
    if s.db.connected
    then (
      some (is_some (find_qrid q s.db.students)),
      set_db (λ db. record db { students = push_appear q spec db.students }) s,
    )
    else db_error "stdb.addAppear" rid s

-- Replaces the document with the id.
abbrev pub replace : Student → List Student → List Student
replace st [] = []
replace st (x ∷ xs) = let rest = replace st xs in if x.id == st.id then st ∷ xs else x ∷ rest

-- The documents with another id: the unique index compares with these.
abbrev pub others : ℕ → List Student → List Student
others i sts = keep (λ (x : Student). if x.id == i then false else true) sts

-- `st.save()` with no callback: where the unique index refuses, nothing is stored or reported.
unfoldable pub save : Student → Action (Unit {0})
save st = command_silent λ db.
    if qrid_free st.qrid (others st.id db.students)
    then record db { students = replace st db.students }
    else db

-- `st.remove()`
unfoldable pub remove : Student → Action (Unit {0})
remove st = command_silent (λ db. record db { students = others st.id db.students })
