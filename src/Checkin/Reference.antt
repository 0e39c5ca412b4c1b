-- ===== src/Checkin/Reference.antt =====
-- client/common/checkintime.js: the time inside, stretch by stretch.
use schulealsstaat.Base.{
  ◌≡◌, ◌⊎◌, refl, inl, inr, Bool, true, false, Option, none, some, List, [], ◌∷◌, ◌++◌, Bool-cases,
  if◌then◌else◌,
}
use schulealsstaat.Base.Int.{ℤ, pos, ◌+ℤ◌, ◌-ℤ◌, ltb_ℤ, int_laws}
use schulealsstaat.Types.{AppearType, checkin, checkout}
use schulealsstaat.Checkin.{Check, Interval, walk, finish, time_inside, start, intervals_of}

abbrev pub stretch : Bool → ℤ → ℤ → ℤ
stretch inside from to = if inside then to -ℤ from else pos 0

abbrev pub is_checkin : AppearType → Bool
is_checkin checkin = true
is_checkin checkout = false

-- From `since` on, with the status there: each check ends a stretch and says what the next one is,
-- until the period ends.
unfoldable pub presence : ℤ → ℤ → Bool → List Check → ℤ
presence end since inside [] = stretch inside since end
presence end since inside (x ∷ xs) =
    let rest = presence end x.time (is_checkin x.type) xs in
    if ltb_ℤ end x.time then stretch inside since end else stretch inside since x.time +ℤ rest

-- The same from the begin of the period, with what `start` found there.
abbrev pub presence_of : ℤ → List Check × Option ℤ → ℤ
presence_of end (xs, none) = presence end (pos 0) false xs
presence_of end (xs, some entry) = (pos 0 -ℤ entry) +ℤ presence end (pos 0) true xs

pub type_cases : (t : AppearType) → (t ≡ checkin) ⊎ (t ≡ checkout)
type_cases checkin = inl refl
type_cases checkout = inr refl

time_inside-append :
    (is : List Interval) (i : Interval)
    → time_inside (is ++ i ∷ []) ≡ time_inside is +ℤ (i.checkout -ℤ i.checkin)
unfolding time_inside
time_inside-append [] i = omega int_laws
time_inside-append (x ∷ is) i = rw (time_inside-append is i) (omega int_laws)

mutual
  unfolding walk presence

  walk_outside :
      (end since : ℤ) (xs : List Check) (done : List Interval)
      → time_inside (finish end (walk end xs none done))
        ≡ time_inside done +ℤ presence end since false xs
  walk_outside end since [] done = omega int_laws
  walk_outside end since (x ∷ xs) done = elim (Bool-cases (ltb_ℤ end x.time)) [
    | inl e ↦ rw e (omega int_laws)
    | inr e ↦ elim (type_cases x.type) [
      | inl t ↦ rw (e, t, walk_inside end x.time x.time xs done) (omega int_laws)
      | inr t ↦ rw (e, t, walk_outside end x.time xs done) (omega int_laws)
    ]
  ]

  walk_inside :
      (end entry since : ℤ) (xs : List Check) (done : List Interval)
      → time_inside (finish end (walk end xs (some entry) done))
        ≡ time_inside done +ℤ ((since -ℤ entry) +ℤ presence end since true xs)
  walk_inside end entry since [] done = rw (time_inside-append done) (omega int_laws)
  walk_inside end entry since (x ∷ xs) done = elim (Bool-cases (ltb_ℤ end x.time)) [
    | inl e ↦ rw (e, time_inside-append done) (omega int_laws)
    | inr e ↦ elim (type_cases x.type) [
      | inl t ↦ rw (e, t, walk_inside end entry x.time xs done) (omega int_laws)
      | inr t ↦
          rw
            (
              e,
              t,
              walk_outside end x.time xs
                  (done ++ record { checkin = entry; checkout = x.time } ∷ []),
              time_inside-append done (record { checkin = entry; checkout = x.time }),
            )
            (omega int_laws)
    ]
  ]

-- The intervals add up to the stretches that the checks mark as inside, whatever the order and
-- repetition of the checks.
pub intervals-presence :
    (end : ℤ) (checks : List Check)
    → time_inside (finish end (intervals_of end checks)) ≡ presence_of end (start checks)
unfolding intervals_of time_inside
intervals-presence end checks = go (start checks)
  where
    go :
        (r : List Check × Option ℤ)
        → time_inside (finish end (walk end r.0 r.1 [])) ≡ presence_of end r
    go (xs, none) = rw (walk_outside end (pos 0) xs []) (omega int_laws)
    go (xs, some entry) = rw (walk_inside end entry (pos 0) xs []) (omega int_laws)
