-- ===== src/RegistrationDesk/Cards.antt =====
-- client/adminpanel/site/registration/scripts.js: the payments that are sent, and their accounts.
use schulealsstaat.Base.{
  ℕ, zero, suc, ◌≡◌, refl, String, false, ◌&&◌, Option, none, some, List, All, All-append, [], ◌∷◌,
  get_elem?, str_eq, is_some, if_cases, subst, not,
}
use schulealsstaat.Base.Int.{ℤ}
use schulealsstaat.Types.{Answer, ok}
use schulealsstaat.Actions.Transactions.{Payment}
use schulealsstaat.RegistrationDesk.Charges.{charges, run-IsCharged}
use schulealsstaat.RegistrationDesk.{
  invalid_value, no_settings, no_card, passwords_differ, lacks_value, lacks_card, is_unparsable,
  has_amount, is_class, work_of, Message, upload_failed, reload, Settings, Work, Page, Event, Next,
  Inputs, Stored, opened, above_zero, begin, after_upload, preload_money, charge, after_register,
  after_preload, send, step, run, shows, uploads, registers, sends, uploaded, registers_answered,
  preload_answered, qrid_text, tell,
}

-- An amount above zero has a card.
abbrev IsCarded : Work → Type 0
IsCarded w = (is_some (above_zero w.hgc_num) && str_eq (qrid_text w.registration) "") ≡ false

abbrev pub IsPaidOut : Payment → Type 0
IsPaidOut t = str_eq t.recipient "" ≡ false

record AreCarded (p : Page) : Type 0 where
  uploading : All IsCarded p.uploading
  registering : All IsCarded p.registering
  payments : All IsPaidOut p.payments

data NextCarded : Next → Type 0 where
  tells : (m : Message) → NextCarded (shows m)
  asks_upload : (w : Work) → IsCarded w → NextCarded (uploads w)
  asks_registration : (w : Work) → IsCarded w → NextCarded (registers w)

send-NextCarded :
    (i : Inputs) (stored : Stored) (picname : String) → NextCarded (send i stored picname)
unfolding send
send-NextCarded i stored picname =
    if_cases NextCarded (lacks_value i) (λ _. tells invalid_value)
      (λ _.
        if_cases NextCarded (is_unparsable stored && has_amount i) (λ _. tells no_settings)
          (λ _.
            if_cases NextCarded (lacks_card i) (λ _. tells no_card)
              (λ carded.
                if_cases NextCarded (not (str_eq i.registration.password i.password_repeat))
                  (λ _. tells passwords_differ)
                  (λ _.
                    if_cases NextCarded
                      (not (is_class "visitor" i) && not (is_class "legalentity" i))
                      (λ _. asks_upload (work_of i stored picname) carded)
                      (λ _. asks_registration (work_of i stored picname) carded)))))

begin-AreCarded : (n : Next) (p : Page) → NextCarded n → AreCarded p → AreCarded (begin n p)
begin-AreCarded (shows m) p (tells m') h = record {
  uploading = h.uploading;
  registering = h.registering;
  payments = h.payments;
}
begin-AreCarded (uploads w) p (asks_upload w' c) h = record {
  uploading = All-append IsCarded p.uploading _ h.uploading (c, tt);
  registering = h.registering;
  payments = h.payments;
}
begin-AreCarded (registers w) p (asks_registration w' c) h = record {
  uploading = h.uploading;
  registering = All-append IsCarded p.registering _ h.registering (c, tt);
  payments = h.payments;
}

-- What an answer finds among works that have cards.
abbrev Found : Option Work → Type 0
Found none = Unit
Found (some w) = IsCarded w

found_in : (ws : List Work) (k : ℕ) → All IsCarded ws → Found (get_elem? ws k)
found_in [] k h = tt
found_in (w ∷ ws) zero (h, hs) = h
found_in (w ∷ ws) (suc k) (h, hs) = found_in ws k hs

-- The page with other messages and counters.
kept :
    (p q : Page)
    → p.uploading ≡ q.uploading
    → p.registering ≡ q.registering
    → p.payments ≡ q.payments
    → AreCarded p
    → AreCarded q
kept p q u r t h = record {
  uploading = subst (All IsCarded) u h.uploading;
  registering = subst (All IsCarded) r h.registering;
  payments = subst (All IsPaidOut) t h.payments;
}

reload-AreCarded : (p : Page) → AreCarded p → AreCarded (reload p)
reload-AreCarded p h = record { uploading = tt; registering = tt; payments = h.payments }

after_upload-AreCarded :
    (o : Option Work) (res : Option String) (p : Page)
    → Found o
    → AreCarded p
    → AreCarded (after_upload o res p)
after_upload-AreCarded none res p f h = h
after_upload-AreCarded (some w) none p f h = kept p (tell upload_failed p) refl refl refl h
after_upload-AreCarded (some w) (some photores) p f h =
    if_cases AreCarded (str_eq photores "ok")
      (λ _. record {
        uploading = h.uploading;
        registering = All-append IsCarded p.registering _ h.registering (f, tt);
        payments = h.payments;
      })
      (λ _. kept p (tell upload_failed p) refl refl refl h)

preload_money-AreCarded :
    (s : Option Settings) (w : Work) (a : ℤ) (p : Page)
    → str_eq (qrid_text w.registration) "" ≡ false
    → AreCarded p
    → AreCarded (preload_money s w.registration a p)
preload_money-AreCarded none w a p c h = kept p _ refl refl refl h
preload_money-AreCarded (some s) w a p c h = record {
  uploading = h.uploading;
  registering = h.registering;
  payments = All-append IsPaidOut p.payments _ h.payments (c, tt);
}

charge-AreCarded :
    (w : Work) (a : Option ℤ) (p : Page)
    → (is_some a && str_eq (qrid_text w.registration) "") ≡ false
    → AreCarded p
    → AreCarded (charge w a p)
charge-AreCarded w none p c h = reload-AreCarded p h
charge-AreCarded w (some a) p c h =
    if_cases AreCarded (str_eq w.registration.sclass "visitor")
      (λ _. preload_money-AreCarded w.settings w a p c h) (λ _. reload-AreCarded p h)

after_register-AreCarded :
    (o : Option Work) (res : Answer) (p : Page)
    → Found o
    → AreCarded p
    → AreCarded (after_register o res p)
after_register-AreCarded none res p f h = h
after_register-AreCarded (some w) ok p f h =
    charge-AreCarded w (above_zero w.hgc_num) _ f (kept p _ refl refl refl h)
after_register-AreCarded (some w) res p f h = kept p _ refl refl refl h

after_preload-AreCarded :
    (n : ℕ) (res : Answer) (p : Page) → AreCarded p → AreCarded (after_preload n res p)
after_preload-AreCarded zero res p h = h
after_preload-AreCarded (suc n) ok p h = record {
  uploading = tt;
  registering = tt;
  payments = h.payments;
}
after_preload-AreCarded (suc n) res p h = record {
  uploading = tt;
  registering = tt;
  payments = h.payments;
}

step-AreCarded : (e : Event) (p : Page) → AreCarded p → AreCarded (step e p)
unfolding step
step-AreCarded (sends i stored picname) p h =
    begin-AreCarded (send i stored picname) p (send-NextCarded i stored picname) h
step-AreCarded (uploaded k res) p h =
    after_upload-AreCarded (get_elem? p.uploading k) res p (found_in p.uploading k h.uploading) h
step-AreCarded (registers_answered k res) p h =
    after_register-AreCarded (get_elem? p.registering k) res p
      (found_in p.registering k h.registering) h
step-AreCarded (preload_answered res) p h = after_preload-AreCarded p.paying res p h

run-AreCarded : (es : List Event) (p : Page) → AreCarded p → AreCarded (run es p)
unfolding run
run-AreCarded [] p h = h
run-AreCarded (e ∷ es) p h = run-AreCarded es (step e p) (step-AreCarded e p h)

-- Whatever is entered, sent and answered, in any order: the payments that were sent are, in order,
-- exactly one for each registration of a visitor that the server confirmed, with an amount above
-- zero and an account to take it from, and none of them goes to an empty QR-ID.
pub charged_once :
    (es : List Event)
    → ((run es opened).payments ≡ charges (run es opened).registered)
      × All IsPaidOut (run es opened).payments
charged_once es = (
  run-IsCharged es opened refl,
  (run-AreCarded es opened (record { uploading = tt; registering = tt; payments = tt })).payments,
)
