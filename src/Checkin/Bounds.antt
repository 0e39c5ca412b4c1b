-- ===== src/Checkin/Bounds.antt =====
-- client/common/checkintime.js: how long the time inside can be.
use schulealsstaat.Base.{
  ℕ, ◌≤◌, ◌≡◌, refl, inl, inr, Bool, true, false, Option, none, some, List, [], ◌∷◌, arith,
  Bool-cases, insert_sorted, sort, map, if◌then◌else◌,
}
use schulealsstaat.Base.Int.{ℤ, pos, negsuc, ◌-ℤ◌, ◌≤ℤ◌, ltb_ℤ, int_laws}
use schulealsstaat.Types.{Appear}
use schulealsstaat.Checkin.{
  Check, relative, sorted_checks, last_check_before_begin, start, entered, round_seconds,
  calc_checkin_time,
}
use schulealsstaat.Checkin.Reference.{
  presence, type_cases, stretch, is_checkin, presence_of, intervals-presence,
}

-- The times rise along the list, from a first one on.
abbrev pub Ascending : ℤ → List Check → Type 0
Ascending since [] = Unit
Ascending since (x ∷ xs) = (since ≤ℤ x.time) × Ascending x.time xs

abbrev Sorted : List Check → Type 0
Sorted [] = Unit
Sorted (x ∷ xs) = Ascending x.time xs

abbrev later : Check → Check → Bool
later a b = ltb_ℤ b.time a.time

not_later : (a b : ℤ) → ltb_ℤ a b ≡ false → b ≤ℤ a
not_later a b h = ground arith

is_later : (a b : ℤ) → ltb_ℤ a b ≡ true → a ≤ℤ b
is_later a b h = ground arith

insert-Ascending :
    (since : ℤ) (a : Check) (xs : List Check)
    → since ≤ℤ a.time
    → Ascending since xs
    → Ascending since (insert_sorted later a xs)
insert-Ascending since a [] h s = (h, tt)
insert-Ascending since a (x ∷ xs) h s = elim (Bool-cases (ltb_ℤ x.time a.time)) [
  | inl e ↦ rw e (s.0, insert-Ascending x.time a xs (is_later x.time a.time e) s.1)
  | inr e ↦ rw e (h, (not_later x.time a.time e, s.1))
]

insert-Sorted : (a : Check) (xs : List Check) → Sorted xs → Sorted (insert_sorted later a xs)
insert-Sorted a [] s = tt
insert-Sorted a (x ∷ xs) s = elim (Bool-cases (ltb_ℤ x.time a.time)) [
  | inl e ↦ rw e (insert-Ascending x.time a xs (is_later x.time a.time e) s)
  | inr e ↦ rw e (not_later x.time a.time e, s)
]

sort-Sorted : (xs : List Check) → Sorted (sort later xs)
sort-Sorted [] = tt
sort-Sorted (x ∷ xs) = insert-Sorted x (sort later xs) (sort-Sorted xs)

-- What lies behind the last check before the begin lies behind the begin.
abbrev BehindBegin : Option (Check × List Check) → List Check → Type 0
BehindBegin none xs = Ascending (pos 0) xs
BehindBegin (some (x, rest)) xs = Ascending (pos 0) rest

behind_step :
    (r : Option (Check × List Check)) (x : Check) (xs : List Check)
    → BehindBegin r xs
    → Ascending x.time xs
    → BehindBegin
        (elim r [
          | none ↦ if ltb_ℤ x.time (pos 0) then some (x, xs) else none
          | some found ↦ some found
        ])
        (x ∷ xs)
behind_step none x xs h s = elim (Bool-cases (ltb_ℤ x.time (pos 0))) [
  | inl e ↦ rw e h
  | inr e ↦ rw e (not_later x.time (pos 0) e, s)
]
behind_step (some (y, rest)) x xs h s = h

behind :
    (since : ℤ) (xs : List Check) → Ascending since xs → BehindBegin (last_check_before_begin xs) xs
unfolding last_check_before_begin
behind since [] s = tt
behind since (x ∷ xs) s = behind_step (last_check_before_begin xs) x xs (behind x.time xs s.1) s.1

stretch_bounds :
    (inside : Bool) (from to : ℤ)
    → from ≤ℤ to
    → (pos 0 ≤ℤ stretch inside from to) × (stretch inside from to ≤ℤ to -ℤ from)
stretch_bounds true from to h = (omega int_laws, omega int_laws)
stretch_bounds false from to h = (omega int_laws, omega int_laws)

presence_bounds :
    (end since : ℤ) (inside : Bool) (xs : List Check)
    → since ≤ℤ end
    → Ascending since xs
    → (pos 0 ≤ℤ presence end since inside xs) × (presence end since inside xs ≤ℤ end -ℤ since)
unfolding presence
presence_bounds end since inside [] h s = stretch_bounds inside since end h
presence_bounds end since inside (x ∷ xs) h s = elim (Bool-cases (ltb_ℤ end x.time)) [
  | inl e ↦ rw e (stretch_bounds inside since end h)
  | inr e ↦
      let ih = presence_bounds end x.time (is_checkin x.type) xs (not_later end x.time e) s.1 in
      let here = stretch_bounds inside since x.time s.0 in
      rw e (omega (int_laws, ih.0, here.0), omega (int_laws, ih.1, here.1))
]

-- What `start` hands to the loop: checks behind the begin, and an interval from the begin if any.
abbrev StartsWell : List Check × Option ℤ → Type 0
StartsWell (xs, none) = Ascending (pos 0) xs
StartsWell (xs, some entry) = Ascending (pos 0) xs × (entry ≡ pos 0)

entered-StartsWell :
    (x : Check) (rest : List Check) → Ascending (pos 0) rest → StartsWell (rest, entered x.type)
entered-StartsWell x rest h = elim (type_cases x.type) [ inl t ↦ rw t (h, refl) | inr t ↦ rw t h ]

start_step :
    (r : Option (Check × List Check)) (checks : List Check)
    → BehindBegin r checks
    → StartsWell (elim r [ none ↦ (checks, none) | some (x, xs) ↦ (xs, entered x.type) ])
start_step none checks h = h
start_step (some (x, rest)) checks h = entered-StartsWell x rest h

start-StartsWell : (xs : List Check) → Sorted xs → StartsWell (start xs)
unfolding start
start-StartsWell [] s = start_step (last_check_before_begin []) [] (behind (pos 0) [] tt)
start-StartsWell (x ∷ xs) s =
    start_step (last_check_before_begin (x ∷ xs)) (x ∷ xs) (behind x.time (x ∷ xs) (omega arith, s))

presence_of_bounds :
    (end : ℤ) (r : List Check × Option ℤ)
    → pos 0 ≤ℤ end
    → StartsWell r
    → (pos 0 ≤ℤ presence_of end r) × (presence_of end r ≤ℤ end)
presence_of_bounds end (xs, none) h s =
    let b = presence_bounds end (pos 0) false xs h s in (b.0, omega (int_laws, b.1))
presence_of_bounds end (xs, some entry) h (s, e) =
    let b = presence_bounds end (pos 0) true xs h s in
    rw e (omega (int_laws, b.0), omega (int_laws, b.1))

round_bounds :
    (a b : ℤ)
    → pos 0 ≤ℤ a
    → a ≤ℤ b
    → (pos 0 ≤ℤ round_seconds a) × (round_seconds a ≤ℤ round_seconds b)
round_bounds (pos m) (pos n) h k = (omega arith, omega arith)
round_bounds (negsuc m) b h k = absurd (omega arith)
round_bounds (pos m) (negsuc n) h k = absurd (omega arith)

-- For a period that does not end before it begins, the time inside lies between none and the whole
-- period, rounded alike, whatever checks are recorded and in whatever order.
pub calc_checkin_time_bounds :
    (appear : List Appear) (begin end : ℕ)
    → begin ≤ end
    → (pos 0 ≤ℤ (calc_checkin_time appear begin end).0)
      × ((calc_checkin_time appear begin end).0 ≤ℤ round_seconds (pos end -ℤ pos begin))
unfolding calc_checkin_time sorted_checks
calc_checkin_time_bounds appear begin end h =
    let period = pos end -ℤ pos begin in
    let checks = sort later (map (relative begin) appear) in
    let b =
      presence_of_bounds period (start checks) (omega int_laws)
        (start-StartsWell checks (sort-Sorted (map (relative begin) appear))) in
    rw (intervals-presence period checks)
      (round_bounds (presence_of period (start checks)) period b.0 b.1)
