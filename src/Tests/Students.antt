-- ===== src/Tests/Students.antt =====
-- The student accounts at concrete inputs.
use schulealsstaat.Base.{arith, ℕ, map, String, ◌≡◌, refl, true, some, [], ◌∷◌, ◌++◌}
use schulealsstaat.Types.{Student, Answer, ok}
use schulealsstaat.Db.Students.{find_qrid}
use schulealsstaat.StudentList.Profile.{edits, lost_after_rename}
use schulealsstaat.Db.Students.{replace}
use schulealsstaat.Db.Index.{IsIndexed, change, saves, change-IsIndexed}
use schulealsstaat.Actions.Common.{check_password}
use schulealsstaat.Actions.Students.{password_change}
use schulealsstaat.Actions.Passwords.{password_change_accepts}
use schulealsstaat.Tests.World.{world, crypto, anna, ben}

password_change_accepts_example :
    let s' = (password_change crypto "anna" "pw" "secret" 4 world).1 in
    (s'.answers ≡ [] ++ (4, ok) ∷ [])
    × ((st' : Student) × (find_qrid "anna" s'.db.students ≡ some st')
        × (check_password crypto st' "secret" ≡ true))
unfolding check_password
password_change_accepts_example =
    password_change_accepts crypto "anna" "pw" "secret" 4 world anna refl refl refl refl

world-IsIndexed : IsIndexed world.db
world-IsIndexed = record {
  distinct = (((refl, refl), ((refl, refl), tt)), (((refl, refl), tt), (tt, tt)));
  given = (omega arith, (omega arith, (omega arith, tt)));
}

-- Ben asks for Anna's QR-ID, which the index refuses.
change-IsIndexed_example : IsIndexed (change (saves (record ben { qrid = "anna" })) world).db
change-IsIndexed_example =
    change-IsIndexed (saves (record ben { qrid = "anna" })) world world-IsIndexed

-- Ben's QR-ID is edited, then his country, in one dialog.
lost_after_rename_example :
    let s' = edits ben (("qrid", "benjamin", 1) ∷ ("country", "de", 2) ∷ []) world in
    (s'.db.students ≡ replace (record ben { qrid = "benjamin" }) world.db.students)
    × (s'.answers
        ≡ (world.answers ++ (1, ok) ∷ [])
          ++ map
              (λ (e : String × String × ℕ). (e.2, Answer.error "wrong qrid"))
              (("country", "de", 2) ∷ []))
lost_after_rename_example =
    lost_after_rename ben ben "benjamin" 1 (("country", "de", 2) ∷ []) world world-IsIndexed refl
      refl refl refl
