-- ===== src/Checkin/Last.antt =====
-- client/common/checkintime.js: the last check of a student and the status at the end of the period.
use schulealsstaat.Base.{
  ℕ, ◌≤◌, ◌≡◌, refl, ap, ◌∙◌, inl, inr, Bool, false, Option, none, some, List, All, [], ◌∷◌, ◌++◌,
  arith, Bool-cases, Option-cases, if_cases, All-map, All-sort, All-sort, insert_sorted, sort, map,
  is_some, if◌then◌else◌,
}
use schulealsstaat.Base.Int.{ℤ, pos, ◌-ℤ◌, ◌≤ℤ◌, ltb_ℤ, int_laws}
use schulealsstaat.Types.{Appear}
use schulealsstaat.Checkin.{
  Check, Interval, relative, sorted_checks, last_check_before_begin, start, entered, walk,
  intervals_of, calc_checkin_time,
}
use schulealsstaat.Checkin.Reference.{is_checkin, type_cases}

abbrev NotLater : ℤ → Check → Type 0
NotLater t c = c.time ≤ℤ t

abbrev later : Check → Check → Bool
later a b = ltb_ℤ b.time a.time

not_below : (a b : ℤ) → a ≤ℤ b → ltb_ℤ b a ≡ false
not_below a b h = ground arith

insert-last :
    (a x : Check) (ys : List Check)
    → a.time ≤ℤ x.time
    → insert_sorted later a (ys ++ x ∷ []) ≡ insert_sorted later a ys ++ x ∷ []
insert-last a x [] h = rw (not_below a.time x.time h) refl
insert-last a x (y ∷ ys) h = elim (Bool-cases (ltb_ℤ y.time a.time)) [
  | inl e ↦ rw (e, insert-last a x ys h) refl
  | inr e ↦ rw e refl
]

sort-last :
    (x : Check) (ys : List Check)
    → All (NotLater x.time) ys
    → sort later (ys ++ x ∷ []) ≡ sort later ys ++ x ∷ []
sort-last x [] h = refl
sort-last x (y ∷ ys) (h, hs) = rw (sort-last x ys hs) (insert-last y x (sort later ys) h)

-- Behind the last check before the begin there is at least the one that is added.
abbrev with_last : Check → Option (Check × List Check) → Option (Check × List Check)
with_last x none = none
with_last x (some (b, rest)) = some (b, rest ++ x ∷ [])

last_check-last :
    (x : Check) (ys : List Check)
    → pos 0 ≤ℤ x.time
    → last_check_before_begin (ys ++ x ∷ []) ≡ with_last x (last_check_before_begin ys)
unfolding last_check_before_begin
last_check-last x [] h = rw (not_below (pos 0) x.time h) refl
last_check-last x (y ∷ ys) h = elim (Option-cases (last_check_before_begin ys)) [
  | inl e ↦ elim (Bool-cases (ltb_ℤ y.time (pos 0))) [
    | inl b ↦ rw (last_check-last x ys h, e, b) refl
    | inr b ↦ rw (last_check-last x ys h, e, b) refl
  ]
  | inr (f, e) ↦ rw (last_check-last x ys h, e) refl
]

walk-last :
    (end : ℤ) (x : Check) (ys : List Check) (current : Option ℤ) (done : List Interval)
    → All (NotLater end) ys
    → x.time ≤ℤ end
    → is_some (walk end (ys ++ x ∷ []) current done).0 ≡ is_checkin x.type
unfolding walk
walk-last end x [] none done hs h = elim (type_cases x.type) [
  | inl t ↦ rw (not_below x.time end h, t) refl
  | inr t ↦ rw (not_below x.time end h, t) refl
]
walk-last end x [] (some since) done hs h = elim (type_cases x.type) [
  | inl t ↦ rw (not_below x.time end h, t) refl
  | inr t ↦ rw (not_below x.time end h, t) refl
]
walk-last end x (y ∷ ys) none done (g, gs) h = elim (type_cases y.type) [
  | inl t ↦ rw (not_below y.time end g, t) (walk-last end x ys (some y.time) done gs h)
  | inr t ↦ rw (not_below y.time end g, t) (walk-last end x ys none done gs h)
]
walk-last end x (y ∷ ys) (some since) done (g, gs) h = elim (type_cases y.type) [
  | inl t ↦ rw (not_below y.time end g, t) (walk-last end x ys (some since) done gs h)
  | inr t ↦
      rw (not_below y.time end g, t)
        (walk-last end x ys none (done ++ record { checkin = since; checkout = y.time } ∷ []) gs h)
]

-- What is behind the last check before the begin is not later either.
abbrev BehindAll : ℤ → Option (Check × List Check) → Type 0
BehindAll t none = Unit
BehindAll t (some (b, rest)) = All (NotLater t) rest

behind_step :
    (t : ℤ) (y : Check) (ys : List Check) (o : Option (Check × List Check))
    → All (NotLater t) ys
    → BehindAll t o
    → BehindAll t (elim o [
      | none ↦ if ltb_ℤ y.time (pos 0) then some (y, ys) else none
      | some found ↦ some found
    ])
behind_step t y ys none hs h = if_cases (BehindAll t) (ltb_ℤ y.time (pos 0)) (λ _. hs) (λ _. tt)
behind_step t y ys (some f) hs h = h

behind-All :
    (t : ℤ) (ys : List Check) → All (NotLater t) ys → BehindAll t (last_check_before_begin ys)
unfolding last_check_before_begin
behind-All t [] h = tt
behind-All t (y ∷ ys) (h, hs) =
    behind_step t y ys (last_check_before_begin ys) hs (behind-All t ys hs)

abbrev started : List Check → Option (Check × List Check) → List Check × Option ℤ
started checks none = (checks, none)
started checks (some (b, rest)) = (rest, entered b.type)

started_at :
    (checks : List Check) (o : Option (Check × List Check))
    → last_check_before_begin checks ≡ o
    → start checks ≡ started checks o
unfolding start
started_at checks none e = rw (start, e) refl
started_at checks (some f) e = rw (start, e) refl

intervals-last :
    (end : ℤ) (x : Check) (ys : List Check)
    → All (NotLater end) ys
    → x.time ≤ℤ end
    → pos 0 ≤ℤ x.time
    → is_some (intervals_of end (ys ++ x ∷ [])).0 ≡ is_checkin x.type
unfolding intervals_of
intervals-last end x ys hs h z =
    ap (λ (r : List Check × Option ℤ). is_some (walk end r.0 r.1 []).0)
      (started_at (ys ++ x ∷ []) (with_last x (last_check_before_begin ys))
        (last_check-last x ys z))
    ∙ walks (last_check_before_begin ys) (behind-All end ys hs)
  where
    walks :
        (o : Option (Check × List Check))
        → BehindAll end o
        → (let r = started (ys ++ x ∷ []) (with_last x o) in is_some (walk end r.0 r.1 []).0)
          ≡ is_checkin x.type
    walks none b = walk-last end x ys none [] hs h
    walks (some (b, rest)) g = walk-last end x rest (entered b.type) [] g h

relative-All :
    (begin t : ℕ) (bs : List Appear)
    → All (λ (a : Appear). a.time ≤ t) bs
    → All (NotLater (pos t -ℤ pos begin)) (map (relative begin) bs)
relative-All begin t [] h = tt
relative-All begin t (a ∷ bs) (h, hs) = (omega (arith, int_laws), relative-All begin t bs hs)

map-last :
    (begin : ℕ) (a : Appear) (bs : List Appear)
    → map (relative begin) (bs ++ a ∷ []) ≡ map (relative begin) bs ++ relative begin a ∷ []
map-last begin a [] = refl
map-last begin a (b ∷ bs) = ap (λ cs. relative begin b ∷ cs) (map-last begin a bs)

-- If no appearance is later than one that is added, and that one lies in the period, the student
-- is inside at the end of the period exactly if the one that is added is a check-in.
pub calc_checkin_time-last :
    (bs : List Appear) (a : Appear) (begin end : ℕ)
    → All (λ (b : Appear). b.time ≤ a.time) bs
    → begin ≤ a.time
    → a.time ≤ end
    → (calc_checkin_time (bs ++ a ∷ []) begin end).1 ≡ is_checkin a.type
unfolding calc_checkin_time sorted_checks
calc_checkin_time-last bs a begin end hs b e =
    let x = relative begin a in
    let ys = map (relative begin) bs in
    let over = pos end -ℤ pos begin in
    let before = relative-All begin end bs (
      All-map (λ (b : Appear). b.time ≤ a.time) (λ (b : Appear). b.time ≤ end)
        (λ b h. omega (arith, h, e)) bs hs) in
    ap (λ cs. is_some (intervals_of over (sort later cs)).0) (map-last begin a bs)
    ∙ ap (λ cs. is_some (intervals_of over cs).0) (sort-last x ys (relative-All begin a.time bs hs))
    ∙ intervals-last over x (sort later ys) (All-sort (NotLater over) later ys before)
        (omega (arith, int_laws)) (omega (arith, int_laws))
