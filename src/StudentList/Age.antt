-- ===== src/StudentList/Age.antt =====
-- client/adminpanel/site/studentlist/scripts.js: the search by age and the age that is shown.
use schulealsstaat.Base.{
  ℕ, ◌+◌, ◌-◌, ◌<◌, ◌≡◌, ◌↔◌, ◌∙◌, refl, sym, ap, if_cases, Bool, true, false, not, ◌&&◌, ◌||◌,
  ◌==◌, ltb, [], ◌∷◌, arith, if◌then◌else◌,
}
use schulealsstaat.Base.Int.{ℤ, pos, ◌-ℤ◌, pos_part, neg_part, int_laws}
use schulealsstaat.StudentList.{
  Moment, calc_age, set_full_year, cond_compare, equal, between, birth, is_leap,
}

-- Which of two moments is the earlier one.
unfoldable pub before : Moment → Moment → Bool
before a b =
    ltb a.year b.year
    || (a.year == b.year
        && (ltb a.month b.month
            || (a.month == b.month && (ltb a.day b.day || (a.day == b.day && ltb a.time b.time)))))

-- Whether the birthday is still to come in the year of a moment.
abbrev to_come : Moment → Moment → Bool
to_come today born =
    ltb today.month born.month || (today.month == born.month && ltb today.day born.day)

born_before :
    (today born : Moment) (y : ℕ)
    → 0 < today.time
    → born.time ≡ 0
    → before born (record today { year = y })
      ≡ (ltb born.year y || (born.year == y && not (to_come today born)))
unfolding before
born_before today born y h z = ground arith

born_after :
    (today born : Moment) (y : ℕ)
    → 0 < today.time
    → born.time ≡ 0
    → before (record today { year = y }) born
      ≡ (ltb y born.year || (y == born.year && to_come today born))
unfolding before
born_after today born y h z = ground arith

same_day :
    (y : ℕ) (m : Moment)
    → (m.month == 1 && m.day == 29) ≡ false
    → set_full_year y m ≡ record m { year = y }
unfolding set_full_year
same_day y m h =
    if_cases (λ m'. m' ≡ record m { year = y }) (m.month == 1 && m.day == 29 && not (is_leap y))
      (λ e. ground arith) (λ _. refl)

-- The age of someone born in a year, whose birthday is still to come or not.
abbrev age_in : Bool → ℕ → ℕ → ℤ
age_in late year born = if late then (pos year -ℤ pos born) -ℤ pos 1 else pos year -ℤ pos born

abbrev lag : Bool → ℕ
lag true = 1
lag false = 0

year_of_age :
    (late : Bool) (year born v : ℕ) → age_in late year born ≡ pos v → year ≡ born + v + lag late
year_of_age true year born v e = omega (int_laws, ap pos_part e, ap neg_part e)
year_of_age false year born v e = omega (int_laws, ap pos_part e, ap neg_part e)

age_of_year :
    (late : Bool) (year born v : ℕ) → year ≡ born + v + lag late → age_in late year born ≡ pos v
age_of_year true year born v e = omega int_laws
age_of_year false year born v e = omega int_laws

abbrev in_bounds : Bool → ℕ → ℕ → ℕ → Bool
in_bounds late year born v =
    (ltb (year - v - 1) born || ((year - v - 1) == born && late))
    && (ltb born (year - v) || (born == year - v && not late))

year_in_bounds :
    (late : Bool) (year born v : ℕ)
    → v < year
    → in_bounds late year born v ≡ true
    → year ≡ born + v + lag late
year_in_bounds true year born v h e = ground arith
year_in_bounds false year born v h e = ground arith

in_bounds_of_year :
    (late : Bool) (year born v : ℕ)
    → v < year
    → year ≡ born + v + lag late
    → in_bounds late year born v ≡ true
in_bounds_of_year true year born v h e = ground arith
in_bounds_of_year false year born v h e = ground arith

-- The test that the search for an age equal to `v` asks the database for is passed by exactly the
-- dates of birth for which the list shows the age `v`, if today is no February 29, it is past
-- midnight, dates of birth are midnights, and `v` is less than the present year.
pub search_by_age :
    (today born : Moment) (v : ℕ)
    → (today.month == 1 && today.day == 29) ≡ false
    → 0 < today.time
    → born.time ≡ 0
    → v < today.year
    → (begin : Moment) × (end : Moment) × (cond_compare today equal v
        ≡ (birth, between begin end) ∷ [])
      × (((before begin born && before born end) ≡ true) ↔ (calc_age today born ≡ pos v))
unfolding cond_compare calc_age
search_by_age today born v no_leap_day later midnight small =
    let year = today.year in
    let late = to_come today born in
    let begin : Moment = record today { year = year - v - 1 } in
    let end : Moment = record today { year = year - v } in
    let one_more : year - v - 1 + 1 ≡ year - v = omega arith in
    let tests : (before begin born && before born end) ≡ in_bounds late year born.year v =
      rw
        (
          born_after today born (year - v - 1) later midnight,
          born_before today born (year - v) later midnight,
        )
        refl in
    (
      begin,
      end,
      rw
          (
            same_day (year - v) today no_leap_day,
            same_day (year - v - 1) end no_leap_day,
            same_day (year - v - 1 + 1) begin no_leap_day,
            one_more,
          )
          refl,
      (
        λ e.
            age_of_year late year born.year v
              (year_in_bounds late year born.year v small (sym tests ∙ e)),
        λ e.
            tests
            ∙ in_bounds_of_year late year born.year v small (year_of_age late year born.year v e),
      ),
    )
