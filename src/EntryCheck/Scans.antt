-- ===== src/EntryCheck/Scans.antt =====
-- client/entrycheck/www/default/scripts.js: the cards that are known, and the queries for them.
use schulealsstaat.Base.{
  ℕ, ◌+◌, ◌≡◌, refl, sym, ap, ◌∙◌, String, Option, none, some, List, [], ◌∷◌, ◌++◌, get_elem?,
  if_cases, arith,
}
use schulealsstaat.Types.{Answer, ok, AppearType}
use schulealsstaat.EntryCheck.{
  Page, Card, CheckQuery, Event, opened, contains, splice_qrid, add_action_card, remove_at,
  forget_timer, forget, read_lines, click_card, after_check, answer_check, show_card, click, press,
  close, checked, scans, reads, expires, shows, clicks, presses, closes, answers, step, run,
}
use schulealsstaat.EntryCheck.Counts.{
  count, Distinct, count-append, add-Distinct, drop-remove, count-remove, contains-get,
}

-- The list and the timers go together, and each time that a QR-ID was asked for has its timer.
pub record IsKept (p : Page) : Type 0 where
  pub timed : p.last_qrids ≡ p.timers
  pub distinct : Distinct p.timers
  pub counted : (q : String) → count q p.asked ≡ count q p.expired + count q p.timers

add-IsKept : (q : String) (p : Page) → IsKept p → IsKept (add_action_card q p)
unfolding add_action_card
add-IsKept q p h =
    if_cases IsKept (contains q p.last_qrids) (λ _. h)
      (λ fresh. record {
        timed = ap (λ xs. xs ++ q ∷ []) h.timed;
        distinct = add-Distinct q p.timers (ap (contains q) (sym h.timed) ∙ fresh) h.distinct;
        counted =
            λ r. omega (arith, count-append r q p.asked, count-append r q p.timers, h.counted r);
      })

forget_timer-IsKept :
    (i : ℕ) (o : Option String) (p : Page)
    → get_elem? p.timers i ≡ o
    → IsKept p
    → IsKept (forget_timer i o p)
unfolding splice_qrid
forget_timer-IsKept i none p e h = h
forget_timer-IsKept i (some q) p e h = record {
  timed =
      ap (splice_qrid q) h.timed
      ∙ if_cases (λ r. r ≡ remove_at i p.timers) (contains q p.timers)
          (λ _. drop-remove q p.timers i e h.distinct) (λ b. cc (b, contains-get q p.timers i e));
  distinct = λ r. omega (arith, h.distinct r, count-remove r q p.timers i e);
  counted =
      λ r. omega (arith, h.counted r, count-remove r q p.timers i e, count-append r q p.expired);
}

read_lines-IsKept : (qs : List String) (p : Page) → IsKept p → IsKept (read_lines qs p)
unfolding read_lines
read_lines-IsKept [] p h = h
read_lines-IsKept (q ∷ []) p h = h
read_lines-IsKept (q ∷ q' ∷ qs) p h =
    read_lines-IsKept (q' ∷ qs) (add_action_card q p) (add-IsKept q p h)

-- Cards and their queries do not touch the scans.
kept :
    (p : Page) (cards : List Card) (n : ℕ) (checks : List CheckQuery) (alerts : List Answer)
    → IsKept p
    → IsKept (record p { cards = cards; next_card = n; checks = checks; alerts = alerts })
kept p cards n checks alerts h = record {
  timed = h.timed;
  distinct = h.distinct;
  counted = h.counted;
}

click_card-IsKept :
    (type : AppearType) (o : Option Card) (p : Page) → IsKept p → IsKept (click_card type o p)
click_card-IsKept type none p h = h
click_card-IsKept type (some c) p h = kept p _ _ _ _ h

answer_check-IsKept :
    (o : Option CheckQuery) (res : Answer) (p : Page) → IsKept p → IsKept (answer_check o res p)
unfolding close
answer_check-IsKept none res p h = h
answer_check-IsKept (some q) res p h = after q res
  where
    after : (q : CheckQuery) (res : Answer) → IsKept (after_check q res p)
    after q ok = kept p _ _ _ _ h
    after q res = kept p _ _ _ _ h

step-IsKept : (e : Event) (p : Page) → IsKept p → IsKept (step e p)
unfolding step forget show_card click press close checked
step-IsKept (scans q) p h = add-IsKept q p h
step-IsKept (reads qs) p h = read_lines-IsKept qs p h
step-IsKept (expires i) p h = forget_timer-IsKept i (get_elem? p.timers i) p refl h
step-IsKept (shows q res now) p h = kept p _ _ _ _ h
step-IsKept (clicks type n) p h = click_card-IsKept type _ p h
step-IsKept (presses type) p h = kept p _ _ _ _ h
step-IsKept (closes n) p h = kept p _ _ _ _ h
step-IsKept (answers k res) p h = answer_check-IsKept _ res p h

run-IsKept : (es : List Event) (p : Page) → IsKept p → IsKept (run es p)
unfolding run
run-IsKept [] p h = h
run-IsKept (e ∷ es) p h = run-IsKept es (step e p) (step-IsKept e p h)

-- After any events from the loading of the page: last_qrids are the QR-IDs whose timers run, each of
-- them once, and each QR-ID was asked for as often as a timer ran out for it, and once more if its
-- timer runs.
pub asked_once :
    (es : List Event)
    → let p = run es opened in
      (p.last_qrids ≡ p.timers)
      × Distinct p.timers
      × ((q : String) → count q p.asked ≡ count q p.expired + count q p.timers)
asked_once es =
    let h =
      run-IsKept es opened
        (record { timed = refl; distinct = λ q. omega arith; counted = λ q. refl }) in
    (h.timed, h.distinct, h.counted)
