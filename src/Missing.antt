-- ===== src/Missing.antt =====
-- client/adminpanel/site/missing/scripts.js: who was inside for too short a time.
use schulealsstaat.Base.{
  ℕ, ◌+◌, ◌/◌, ◌≡◌, refl, Bool, true, false, not, ◌&&◌, Option, List, [], ◌∷◌, String, sort, keep,
  Bool-cases, inl, inr, if◌then◌else◌,
}
use schulealsstaat.Base.Int.{ℤ, pos, negsuc, ◌-ℤ◌, ltb_ℤ}
use schulealsstaat.Types.{Student}
use schulealsstaat.Checkin.{calc_checkin_time}

pub data Group : Type 0 where
  long_enough was_there not_there : Group

pub record Row : Type 0 where
  pub student : Student
  pub checkin_time : ℤ
  pub present_at_end : Bool
  pub group : Group

-- `Math.ceil(seconds / 60)`
abbrev pub minutes_up : ℤ → ℤ
minutes_up (pos n) = pos ((n + 59) / 60)
minutes_up (negsuc n) = pos 0 -ℤ pos ((n + 1) / 60)

unfoldable pub group_of : ℤ → ℤ → Group
group_of selector_time checkin_time =
    if not (ltb_ℤ checkin_time selector_time)
    then long_enough
    else if ltb_ℤ (pos 0) checkin_time
    then was_there
    else not_there

-- The inputs: the period, the minutes that are enough, and whether only the missing are shown.
-- `less` compares the last names.
pub record Selection : Type 0 where
  pub begin : ℕ
  pub end : ℕ
  pub selector_time : ℤ
  pub missing_only : Bool

abbrev pub row_of : Selection → Student → Row
row_of sel st =
    let spec = calc_checkin_time st.appear sel.begin sel.end in
    record {
      student = st;
      checkin_time = minutes_up spec.0;
      present_at_end = spec.1;
      group = group_of sel.selector_time (minutes_up spec.0);
    }

abbrev pub is_missing : Row → Bool
is_missing row = elim row.group [ long_enough ↦ false | was_there ↦ true | not_there ↦ true ]

-- The loop over the list.
unfoldable pub rows_of : Selection → List Student → List Row
rows_of sel [] = []
rows_of sel (st ∷ sts) =
    let rest = rows_of sel sts in
    if not (is_missing (row_of sel st)) && sel.missing_only then rest else row_of sel st ∷ rest

unfoldable pub render_students :
    (Option String → Option String → Bool) → Selection → List Student → List Row
render_students less sel list =
    rows_of sel (sort (λ (a b : Student). less b.lastname a.lastname) list)

-- Showing only the missing leaves out the rows of the others, and no more.
rows_missing :
    (sel : Selection) (sts : List Student)
    → rows_of (record sel { missing_only = true }) sts
      ≡ keep is_missing (rows_of (record sel { missing_only = false }) sts)
unfolding rows_of
rows_missing sel [] = refl
rows_missing sel (st ∷ sts) = elim (Bool-cases (is_missing (row_of sel st))) [
  | inl e ↦ rw (e, rows_missing sel sts, e) refl
  | inr e ↦ rw (e, rows_missing sel sts, e) refl
]
