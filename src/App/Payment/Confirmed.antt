-- ===== src/App/Payment/Confirmed.antt =====
-- client/app/www/js/send.js and receive.js: what the confirmation window shows and what is submitted.
use schulealsstaat.Base.{
  ℕ, zero, suc, ◌+◌, ◌≡◌, refl, sym, String, Bool, true, false, Option, none, some, List, [], ◌∷◌,
  ◌++◌, arith, if_cases, ◌⊎◌, inl, inr, Bool-cases, ap, if◌then◌else◌, ◌-◌,
}
use schulealsstaat.Base.Int.{ℤ, pos, negsuc}
use mathlib.Core.List.{append-nil}
use schulealsstaat.Types.{Student, Answer}
use schulealsstaat.App.Page.{Own, Page, Form, Notice, initial, unknown_person}
use schulealsstaat.App.Payment.{
  Event, confirms, goes_back, submits, finds, finds_error, paid_with, pay_error, times,
  on_confirm_click, click_confirm, identified, identify_failed, back, shown_of, on_submit_click,
  click_submit, payment_of, paid, pay_failed, can_happen, happen, run, after_paying, is_positive,
  person_of, is_multiple, is_waiting, with_person, notice_of, notify,
}

zero_or_one : (a b : ℕ) → a + b ≡ 1 → ((a ≡ 0) × (b ≡ 1)) ⊎ ((a ≡ 1) × (b ≡ 0))
zero_or_one zero b h = inl (refl, omega arith)
zero_or_one (suc zero) b h = inr (refl, omega arith)
zero_or_one (suc (suc a)) b h = omega arith

positive_is : (v : Option ℤ) (a : ℤ) → is_positive v ≡ some a → v ≡ some a
positive_is none a h = cc
positive_is (some (pos zero)) a h = cc
positive_is (some (pos (suc n))) a h = h
positive_is (some (negsuc n)) a h = cc

module _ (upper : String → String) (to_fixed : ℤ → String) where
  -- The window shows the person, the amount and the comment of the variables.
  abbrev Confirmed : Page → Type 0
  Confirmed p =
      (st : Student) × (a : ℤ) × (p.party ≡ some st)
      × (p.amount ≡ some a)
      × (p.window ≡ shown_of upper to_fixed st a p.comment)

  abbrev IsReady : Page → Type 0
  IsReady p =
      (p.confirm_handlers + p.identifying ≡ 1)
      × (p.submit_handlers + p.paying ≡ 1)
      × (p.window_open ≡ true → (p.identifying ≡ 0) × Confirmed p)

  click_confirm-IsReady :
      (f : Form) (p : Page) → p.window_open ≡ false → IsReady p → IsReady (click_confirm f p)
  unfolding click_confirm times on_confirm_click
  click_confirm-IsReady f p closed (c, s, w) =
      elim (zero_or_one p.confirm_handlers p.identifying c) [
        | inl e ↦ rw (e.0, e.1) (refl, s, λ o. cc (o, closed))
        | inr e ↦ rw (e.0, e.1) (refl, s, λ o. cc (o, closed))
      ]

  click_submit-IsReady :
      (own : Own) (typed : String) (p : Page)
      → p.window_open ≡ true
      → IsReady p
      → IsReady (click_submit own typed p)
  unfolding click_submit times on_submit_click
  click_submit-IsReady own typed p visible (c, s, w) =
      let (idle, (st, a, q, v, shown)) = w visible in
      elim (zero_or_one p.submit_handlers p.paying s) [
        | inl e ↦ rw (e.0, e.1) (c, refl, w)
        | inr e ↦ rw (e.0, e.1, q) (c, refl, λ _. (idle, (st, a, refl, v, shown)))
      ]

  closed_while_waiting :
      (p : Page) → is_waiting p.identifying ≡ true → IsReady p → p.window_open ≡ false
  closed_while_waiting p waits (c, s, w) = elim (Bool-cases p.window_open) [
    | inl e ↦ let (idle, rest) = w e in cc (waits, ap is_waiting idle)
    | inr e ↦ e
  ]

  with_person-IsReady :
      (st : Student) (o : Option ℤ) (p : Page)
      → is_positive p.amount ≡ o
      → p.identifying ≡ 0
      → IsReady p
      → IsReady (with_person upper to_fixed st o p)
  with_person-IsReady st none p e idle h = h
  with_person-IsReady st (some a) p e idle (c, s, w) =
      (c, s, λ _. (idle, (st, a, refl, positive_is p.amount a e, refl)))

  found-IsReady :
      (o : Option Student) (p : Page)
      → p.identifying ≡ 0
      → IsReady p
      → IsReady (elim o [
        | none ↦ notify unknown_person p
        | some st ↦ with_person upper to_fixed st (is_positive p.amount) p
      ])
  found-IsReady none p idle h = h
  found-IsReady (some st) p idle h = with_person-IsReady st (is_positive p.amount) p refl idle h

  answered-IsReady :
      (p : Page)
      → is_waiting p.identifying ≡ true
      → IsReady p
      → (p.identifying - 1 ≡ 0) × IsReady (identify_failed p)
  unfolding identify_failed
  answered-IsReady p waits (c, s, w) = elim (zero_or_one p.confirm_handlers p.identifying c) [
    | inl e ↦ rw (e.0, e.1) (refl, (refl, s, λ o. cc (o, closed_while_waiting p waits (c, s, w))))
    | inr e ↦ cc (waits, ap is_waiting e.1)
  ]

  identified-IsReady :
      (res : Answer) (p : Page)
      → is_waiting p.identifying ≡ true
      → IsReady p
      → IsReady (identified upper to_fixed res p)
  unfolding identified identify_failed
  identified-IsReady res p waits h =
      let (idle, ready) = answered-IsReady p waits h in
      if_cases IsReady (is_multiple res) (λ _. ready)
        (λ _. found-IsReady (person_of res) (identify_failed p) idle ready)

  pay_failed-IsReady : (p : Page) → is_waiting p.paying ≡ true → IsReady p → IsReady (pay_failed p)
  unfolding pay_failed
  pay_failed-IsReady p waits (c, s, w) = elim (zero_or_one p.submit_handlers p.paying s) [
    | inl e ↦ rw (e.0, e.1) (c, refl, w)
    | inr e ↦ cc (waits, ap is_waiting e.1)
  ]

  after_paying-IsReady : (o : Option Notice) (p : Page) → IsReady p → IsReady (after_paying o p)
  after_paying-IsReady none p (c, s, w) = (c, s, λ o. cc)
  after_paying-IsReady (some n) p h = h

  paid-IsReady :
      (res : Answer) (p : Page) → is_waiting p.paying ≡ true → IsReady p → IsReady (paid res p)
  unfolding paid pay_failed
  paid-IsReady res p waits h =
      after_paying-IsReady (notice_of res) (pay_failed p) (pay_failed-IsReady p waits h)

  back-IsReady : (p : Page) → IsReady p → IsReady (back p)
  unfolding back
  back-IsReady p (c, s, w) = (c, s, λ o. cc)

  not_true : (b : Bool) → (if b then false else true) ≡ true → b ≡ false
  not_true true h = cc
  not_true false h = refl

  happen-IsReady :
      (own : Own) (e : Event) (p : Page)
      → can_happen e p ≡ true
      → IsReady p
      → IsReady (happen upper to_fixed own e p)
  happen-IsReady own (confirms f) p can h = click_confirm-IsReady f p (not_true p.window_open can) h
  happen-IsReady own goes_back p can h = back-IsReady p h
  happen-IsReady own (submits typed) p can h = click_submit-IsReady own typed p can h
  happen-IsReady own (finds res) p can h = identified-IsReady res p can h
  happen-IsReady own finds_error p can h = (answered-IsReady p can h).1
  happen-IsReady own (paid_with res) p can h = paid-IsReady res p can h
  happen-IsReady own pay_error p can h = pay_failed-IsReady p can h

  run-IsReady :
      (own : Own) (es : List Event) (p : Page) → IsReady p → IsReady (run upper to_fixed own es p)
  unfolding run
  run-IsReady own [] p h = h
  run-IsReady own (e ∷ es) p h =
      let next : Page = if can_happen e p then happen upper to_fixed own e p else p in
      run-IsReady own es next
        (if_cases IsReady (can_happen e p) (λ can. happen-IsReady own e p can h) (λ _. h))

  initial-IsReady : IsReady initial
  initial-IsReady = (refl, refl, λ o. cc)

  -- However the user and the answers interleave from the opening of the page on: while the
  -- confirmation window is open, it shows the person, the amount and the comment that pressing
  -- submit sends; submit sends this payment once if no payment waits for its answer, and otherwise
  -- nothing. The window covers the page and closes at once.
  pub sends_what_is_shown :
      (own : Own) (es : List Event) (typed : String)
      → (run upper to_fixed own es initial).window_open ≡ true
      → let p = run upper to_fixed own es initial in
        (st : Student) × (a : ℤ) × (p.window ≡ shown_of upper to_fixed st a p.comment)
        × ((click_submit own typed p).payments
            ≡ p.payments
              ++ (if is_waiting p.paying
                  then []
                  else payment_of own typed st (some a) p.comment ∷ []))
  unfolding click_submit times on_submit_click
  sends_what_is_shown own es typed visible =
      let p = run upper to_fixed own es initial in
      let (c, s, w) = run-IsReady own es initial initial-IsReady in
      let (idle, (st, a, q, v, shown)) = w visible in
      (
        st,
        a,
        shown,
        elim (zero_or_one p.submit_handlers p.paying s) [
          | inl e ↦ rw (e.0, e.1) (sym (append-nil p.payments))
          | inr e ↦ rw (e.0, e.1, q, v) refl
        ],
      )
