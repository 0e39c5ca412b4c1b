-- ===== src/Checkin.antt =====
-- client/common/checkintime.js: the time that a student was checked in within a period. Times are
-- whole milliseconds; the code divides them by 1000 and rounds the sum.
pub mod Reference
pub mod Bounds
pub mod Last
use schulealsstaat.Base.{
  ℕ, zero, suc, ◌+◌, ◌-◌, ◌*◌, ◌/◌, Bool, true, false, Option, none, some, List, [], ◌∷◌, ◌++◌, map,
  sort, leb, is_some, if◌then◌else◌,
}
use schulealsstaat.Base.Int.{ℤ, pos, negsuc, ◌+ℤ◌, ◌-ℤ◌, ltb_ℤ}
use schulealsstaat.Types.{Appear, AppearType, checkin, checkout}

-- An element of `checks`: the time is relative to the begin of the period.
pub record Check : Type 0 where
  pub type : AppearType
  pub time : ℤ

pub record Interval : Type 0 where
  pub checkin : ℤ
  pub checkout : ℤ

abbrev pub relative : ℕ → Appear → Check
relative begin a = record { type = a.type; time = pos a.time -ℤ pos begin }

unfoldable pub sorted_checks : ℕ → List Appear → List Check
sorted_checks begin appear =
    sort (λ (a b : Check). ltb_ℤ b.time a.time) (map (relative begin) appear)

-- The last check before the begin, with those behind it.
unfoldable pub last_check_before_begin : List Check → Option (Check × List Check)
last_check_before_begin [] = none
last_check_before_begin (x ∷ xs) = elim (last_check_before_begin xs) [
  | none ↦ if ltb_ℤ x.time (pos 0) then some (x, xs) else none
  | some found ↦ some found
]

-- The status at the begin: the check-in of the current interval, if there is one.
abbrev pub entered : AppearType → Option ℤ
entered checkin = some (pos 0)
entered checkout = none

-- The loop over the checks behind the begin, with the current interval and those that are finished.
unfoldable pub walk : ℤ → List Check → Option ℤ → List Interval → Option ℤ × List Interval
walk end [] current done = (current, done)
walk end (x ∷ xs) current done =
    let stay = walk end xs current done in
    let enter = walk end xs (some x.time) done in
    let leave = λ (since : ℤ).
      walk end xs none (done ++ record { checkin = since; checkout = x.time } ∷ []) in
    if ltb_ℤ end x.time then (current, done) else (elim x.type [
      | checkin ↦ elim current [ none ↦ enter | some since ↦ stay ]
      | checkout ↦ elim current [ none ↦ stay | some since ↦ leave since ]
    ])

-- The interval that is still open ends with the period.
abbrev pub finish : ℤ → Option ℤ × List Interval → List Interval
finish end (none, done) = done
finish end (some since, done) = done ++ record { checkin = since; checkout = end } ∷ []

unfoldable pub time_inside : List Interval → ℤ
time_inside [] = pos 0
time_inside (i ∷ is) = (i.checkout -ℤ i.checkin) +ℤ time_inside is

-- `Math.round(ms / 1000)`
abbrev pub round_seconds : ℤ → ℤ
round_seconds (pos n) = pos ((n + 500) / 1000)
round_seconds (negsuc n) =
    if leb (n + 1) 500 then pos 0 else negsuc ((n + 1 - 500 + 999) / 1000 - 1)

-- The checks behind the begin and the status there.
unfoldable pub start : List Check → List Check × Option ℤ
start checks = elim (last_check_before_begin checks) [
  | none ↦ (checks, none)
  | some (x, xs) ↦ (xs, entered x.type)
]

unfoldable pub intervals_of : ℤ → List Check → Option ℤ × List Interval
intervals_of end checks = let (xs, current) = start checks in walk end xs current []

-- The seconds inside, and whether the student is checked in at the end.
unfoldable pub calc_checkin_time : List Appear → ℕ → ℕ → ℤ × Bool
calc_checkin_time appear begin end =
    let r = intervals_of (pos end -ℤ pos begin) (sorted_checks begin appear) in
    (round_seconds (time_inside (finish (pos end -ℤ pos begin) r)), is_some r.0)
