-- ===== src/StudentList.antt =====
-- client/adminpanel/site/studentlist/scripts.js: the conditions of the search and the age that the
-- list shows. Dates are in one time zone; a text for an age is the number it stands for.
pub mod Age
pub mod Profile
use schulealsstaat.Base.{
  ℕ, zero, suc, ◌+◌, ◌-◌, ◌%◌, String, Bool, true, false, not, ◌&&◌, ◌||◌, Option, none, some, List,
  [], ◌∷◌, ◌++◌, map, ◌==◌, ltb, if◌then◌else◌,
}
use schulealsstaat.Base.Int.{ℤ, pos, ◌-ℤ◌}

-- A `Date`: months count from 0, the time of day in milliseconds.
pub record Moment : Type 0 where
  pub year : ℕ
  pub month : ℕ
  pub day : ℕ
  pub time : ℕ

-- `calcAge`, for a moment that is now.
unfoldable pub calc_age : Moment → Moment → ℤ
calc_age today birth_date =
    let age = pos today.year -ℤ pos birth_date.year in
    if ltb today.month birth_date.month
      || (today.month == birth_date.month && ltb today.day birth_date.day)
    then age -ℤ pos 1
    else age

abbrev pub is_leap : ℕ → Bool
is_leap y = (y % 4 == 0 && not (y % 100 == 0)) || y % 400 == 0

-- `setFullYear`, which turns a February 29 that the year lacks into March 1.
unfoldable pub set_full_year : ℕ → Moment → Moment
set_full_year y m =
    if m.month == 1 && m.day == 29 && not (is_leap y)
    then record { year = y; month = 2; day = 1; time = m.time }
    else record m { year = y }

pub data YesNo : Type 0 where
  yes no ignore_text : YesNo

pub data Comparison : Type 0 where
  greater smaller equal unequal ignore_date : Comparison

-- The tests of a query: a text, `$ne`, `$gt`, `$lt`, `$gt` with `$lt`, and a date.
pub data Test : Type 0 where
  is_text not_text : String → Test
  later earlier is_date : Moment → Test
  between : Moment → Moment → Test

pub data Criterium : Type 0 where
  firstname lastname special_name qrid type country birth : Criterium

-- `cond_yesno`
unfoldable pub cond_yesno : Criterium → YesNo → String → List (Criterium × Test)
cond_yesno crit yes value = (crit, is_text value) ∷ []
cond_yesno crit no value = (crit, not_text value) ∷ []
cond_yesno crit ignore_text value = []

-- `cond_compare` for the birth, which is its only criterium, at a moment that is now. An age that
-- is greater means an earlier birth. Ages are less than the present year: there is no year before 0.
unfoldable pub cond_compare : Moment → Comparison → ℕ → List (Criterium × Test)
cond_compare now greater value = (birth, earlier (set_full_year (now.year - value) now)) ∷ []
cond_compare now smaller value = (birth, later (set_full_year (now.year - value) now)) ∷ []
cond_compare now equal value =
    let shifted = set_full_year (now.year - value) now in
    let begin = set_full_year (shifted.year - 1) shifted in
    let year_after_bday = set_full_year (begin.year + 1) begin in
    (birth, between begin year_after_bday) ∷ []
cond_compare now unequal value = (birth, is_date (set_full_year (now.year - value) now)) ∷ []
cond_compare now ignore_date value = []

-- The page's inputs.
pub data Operator : Type 0 where
  and_all or_any nor_any none_given : Operator

pub record Form : Type 0 where
  pub yesno : Criterium → YesNo
  pub text : Criterium → String
  pub compare_birth : Comparison
  pub age : ℕ
  pub operator : Operator

-- `cond`: all tests, `$or` or `$nor` of some.
pub data Query : Type 0 where
  all_of one_of none_of : List (Criterium × Test) → Query

-- `condition`, in the order in which its properties are set.
unfoldable pub condition : Moment → Form → List (Criterium × Test)
condition now f =
    cond_yesno firstname (f.yesno firstname) (f.text firstname)
    ++ cond_yesno lastname (f.yesno lastname) (f.text lastname)
    ++ cond_yesno special_name (f.yesno special_name) (f.text special_name)
    ++ cond_yesno qrid (f.yesno qrid) (f.text qrid)
    ++ cond_yesno type (f.yesno type) (f.text type)
    ++ cond_yesno country (f.yesno country) (f.text country)
    ++ cond_compare now f.compare_birth f.age

abbrev pub unless_empty : (List (Criterium × Test) → Query) → List (Criterium × Test) → Option Query
unless_empty build [] = none
unless_empty build (c ∷ cs) = some (build (c ∷ cs))

-- The handler of `#loadfilter` up to the query; `none` is the alert that no criterium is given.
unfoldable pub loadfilter : Moment → Form → Option Query
loadfilter now f = elim f.operator [
  | and_all ↦ some (all_of (condition now f))
  | or_any ↦ unless_empty one_of (condition now f)
  | nor_any ↦ unless_empty none_of (condition now f)
  | none_given ↦ some (all_of [])
]
