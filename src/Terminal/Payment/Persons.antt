-- ===== src/Terminal/Payment/Persons.antt =====
-- transaction_simple/scripts.js: the persons shown and the persons paid.
use schulealsstaat.Base.{
  ℕ, String, Bool, true, false, Option, none, some, List, [], ◌∷◌, ◌++◌, get_elem?, ltb, str_eq,
  ◌≡◌, ◌⊎◌, inl, inr, if_cases, All, refl, ap, ◌∙◌, subst,
}
use schulealsstaat.Base.Int.{ℤ}
use schulealsstaat.Types.{Student, Answer}
use schulealsstaat.Actions.Transactions.{Payment}
use schulealsstaat.Terminal.{Identified, ambiguous, not_found, found, student_identify}
use schulealsstaat.Terminal.Payment.{
  Role, Section, Page, Query, Form, Event, Message, as_sender, as_recipient, change, truthy,
  n_decimals, prepared, confirmed, confirm, identify, message_of, after_answer, answered,
  answered_for, timed_out_for, identified, after_timer, times_out, reset_all, payment_of, step, run,
  initial, identifies, changes, resets, confirms, answers, timer,
}

-- If a half shows a person, its variable is that person's QR-ID.
abbrev pub IsCurrent : Section → Type 0
IsCurrent s = elim s.complete [ none ↦ Unit | some st ↦ s.current ≡ some st.qrid ]

abbrev pub IsShown : Page → Type 0
IsShown p = IsCurrent p.sender × IsCurrent p.recipient

identified-IsShown :
    (role : Role) (r : Identified) (p : Page) → IsShown p → IsShown (identified role false r p)
identified-IsShown role ambiguous p h = h
identified-IsShown role not_found p h = h
identified-IsShown as_sender (found st) p (hs, hr) = (refl, hr)
identified-IsShown as_recipient (found st) p (hs, hr) = (hs, refl)

change-IsShown : (role : Role) (p : Page) → IsShown p → IsShown (change role p)
unfolding change
change-IsShown as_sender p (hs, hr) = (tt, hr)
change-IsShown as_recipient p (hs, hr) = (hs, tt)

confirmed-IsShown : (x : Message ⊎ Payment) (p : Page) → IsShown p → IsShown (confirmed x p)
confirmed-IsShown (inl m) p h = h
confirmed-IsShown (inr payment) p h = h

after_answer-IsShown : (m : Option Message) (p : Page) → IsShown p → IsShown (after_answer m p)
after_answer-IsShown none p h = h
after_answer-IsShown (some m) p h = h

answered_for-IsShown :
    (o : Option Query) (k : ℕ) (res : Answer) (p : Page)
    → IsShown p
    → IsShown (answered_for o k res p)
answered_for-IsShown none k res p h = h
answered_for-IsShown (some q) k res p h = after_answer-IsShown (message_of res) _ h

after_timer-IsShown : (b : Bool) (p : Page) → IsShown p → IsShown (after_timer b p)
after_timer-IsShown true p h = h
after_timer-IsShown false p h = h

timed_out_for-IsShown :
    (o : Option Query) (k : ℕ) (p : Page) → IsShown p → IsShown (timed_out_for o k p)
timed_out_for-IsShown none k p h = h
timed_out_for-IsShown (some q) k p h = after_timer-IsShown q.server_answered _ h

abbrev pub fresh : Query
fresh = record { server_answered = false; timed_out = false }

-- The page after a click that pays.
abbrev pub after_click : Page → String → String → ℤ → Form → Page
after_click p sender recipient a f = record p {
  confirm_disabled = true;
  sent = p.sent ++ payment_of sender recipient a f ∷ [];
  queries = p.queries ++ fresh ∷ [];
}

-- No answer about a person comes after the page that asked for it was reset.
abbrev pub IsPrompt : Event → Type 0
IsPrompt (identifies role late res) = late ≡ false
IsPrompt (changes role) = Unit
IsPrompt resets = Unit
IsPrompt (confirms f) = Unit
IsPrompt (answers k res) = Unit
IsPrompt (timer k) = Unit

module _ (pieces : ℤ → List String) (places : ℕ) where
  step-IsShown : (e : Event) (p : Page) → IsPrompt e → IsShown p → IsShown (step pieces places e p)
  unfolding step identify reset_all confirm answered times_out
  step-IsShown (identifies role late res) p prompt h =
      rw prompt (identified-IsShown role (student_identify res) p h)
  step-IsShown (changes role) p _ h = change-IsShown role p h
  step-IsShown resets p _ h = (tt, tt)
  step-IsShown (confirms f) p _ h =
      if_cases IsShown p.confirm_disabled (λ _. h)
        (λ _.
          confirmed-IsShown
            (prepared pieces places f (truthy p.sender.current) (truthy p.recipient.current)) _ h)
  step-IsShown (answers k res) p _ h = answered_for-IsShown (get_elem? p.queries k) k res p h
  step-IsShown (timer k) p _ h = timed_out_for-IsShown (get_elem? p.queries k) k p h

  run-IsShown :
      (es : List Event) (p : Page) → All IsPrompt es → IsShown p → IsShown (run pieces places es p)
  unfolding run
  run-IsShown [] p _ h = h
  run-IsShown (e ∷ es) p (prompt, rest) h =
      run-IsShown es (step pieces places e p) rest (step-IsShown e p prompt h)

  -- A person that a half shows is the one that its variable names.
  current_of :
      (s : Section) (st : Student) → s.complete ≡ some st → IsCurrent s → s.current ≡ some st.qrid
  current_of s st shows h =
      subst (λ o. elim o [ none ↦ Unit | some st ↦ s.current ≡ some st.qrid ]) shows h

  truthy-some : (t : String) → str_eq t "" ≡ false → truthy (some t) ≡ some t
  truthy-some t e = rw e refl

  -- What a click makes of a page that can pay.
  pub confirm_sends :
      (p : Page) (f : Form) (sender recipient : String) (a : ℤ)
      → p.confirm_disabled ≡ false
      → truthy p.sender.current ≡ some sender
      → truthy p.recipient.current ≡ some recipient
      → f.amount ≡ some a
      → ltb places (n_decimals pieces a) ≡ false
      → confirm pieces places f p ≡ after_click p sender recipient a f
  unfolding confirm prepared
  confirm_sends p f sender recipient a enabled hs hr amount fine =
      rw (enabled, hs, hr, amount, fine) refl

  -- After any events from the loading of the page, among which no answer about a person comes after
  -- the page was reset, if its halves show two persons whose QR-IDs are not empty, the button is enabled, and the amount is a number without more decimal places than
  -- allowed, then a click on it sends one more payment, of this amount, from the person shown as the
  -- sender to the one shown as the recipient.
  pub pays_the_shown :
      (es : List Event) (f : Form) (sender recipient : Student) (a : ℤ)
      → All IsPrompt es
      → (run pieces places es initial).sender.complete ≡ some sender
      → (run pieces places es initial).recipient.complete ≡ some recipient
      → str_eq sender.qrid "" ≡ false
      → str_eq recipient.qrid "" ≡ false
      → (run pieces places es initial).confirm_disabled ≡ false
      → f.amount ≡ some a
      → ltb places (n_decimals pieces a) ≡ false
      → (confirm pieces places f (run pieces places es initial)).sent
        ≡ (run pieces places es initial).sent ++ payment_of sender.qrid recipient.qrid a f ∷ []
  pays_the_shown es f sender recipient a prompt shows_s shows_r named_s named_r enabled amount
        fine =
      let p = run pieces places es initial in
      let (hs, hr) = run-IsShown es initial prompt (tt, tt) in
      ap (λ q. q.sent)
        (confirm_sends p f sender.qrid recipient.qrid a enabled
          (ap truthy (current_of p.sender sender shows_s hs) ∙ truthy-some sender.qrid named_s)
          (ap truthy (current_of p.recipient recipient shows_r hr)
            ∙ truthy-some recipient.qrid named_r)
          amount fine)
