-- ===== src/RegistrationDesk/Charges.antt =====
-- Which cards are charged.
use schulealsstaat.Base.{
  ℕ, zero, suc, ◌≡◌, refl, sym, ap, ◌∙◌, String, Option, none, some, List, [], ◌∷◌, ◌++◌, get_elem?,
  str_eq, if_cases, Bool-cases, inl, inr, if◌then◌else◌,
}
use mathlib.Core.List.{append-nil, append_assoc}
use schulealsstaat.Base.Int.{ℤ}
use schulealsstaat.Types.{Answer, ok}
use schulealsstaat.Actions.Transactions.{Payment}
use schulealsstaat.RegistrationDesk.{
  tell, registration_done, Settings, Work, Page, Event, Next, above_zero, begin, after_upload,
  payment_of, preload_money, charge, after_register, after_preload, send, step, run, shows, uploads,
  registers, sends, uploaded, registers_answered, preload_answered,
}

-- The payment for a registration: of a visitor, with an amount above zero and an account.
abbrev pub charge_for : Work → Option Settings → Option ℤ → List Payment
charge_for w (some s) (some a) =
    if str_eq w.registration.sclass "visitor" then payment_of s w.registration a ∷ [] else []
charge_for w s a = []

abbrev pub charges : List Work → List Payment
charges [] = []
charges (w ∷ ws) = charge_for w w.settings (above_zero w.hgc_num) ++ charges ws

charges-append :
    (ws : List Work) (w : Work)
    → charges (ws ++ w ∷ []) ≡ charges ws ++ charge_for w w.settings (above_zero w.hgc_num)
charges-append [] w = append-nil _
charges-append (x ∷ ws) w =
    ap (λ ps. charge_for x x.settings (above_zero x.hgc_num) ++ ps) (charges-append ws w)
    ∙ sym (append_assoc (charge_for x x.settings (above_zero x.hgc_num)) (charges ws) _)

-- What a confirmed registration adds to the payments.
charge_lem :
    (w : Work) (s : Option Settings) (a : Option ℤ) (p : Page)
    → w.settings ≡ s
    → (charge w a p).payments ≡ p.payments ++ charge_for w s a
charge_lem w none none p e = sym (append-nil _)
charge_lem w (some s) none p e = sym (append-nil _)
charge_lem w none (some a) p e =
    if_cases (λ (q : Page). q.payments ≡ p.payments ++ []) (str_eq w.registration.sclass "visitor")
      (λ _. ap (λ o. (preload_money o w.registration a p).payments) e ∙ sym (append-nil _))
      (λ _. sym (append-nil _))
charge_lem w (some s) (some a) p e = elim (Bool-cases (str_eq w.registration.sclass "visitor")) [
  | inl v ↦ rw (v, e) refl
  | inr v ↦ rw v (sym (append-nil _))
]

charge-registered :
    (w : Work) (s : Option Settings) (a : Option ℤ) (p : Page)
    → w.settings ≡ s
    → (charge w a p).registered ≡ p.registered
charge-registered w s none p e = refl
charge-registered w none (some a) p e =
    if_cases (λ (q : Page). q.registered ≡ p.registered) (str_eq w.registration.sclass "visitor")
      (λ _. ap (λ o. (preload_money o w.registration a p).registered) e) (λ _. refl)
charge-registered w (some s) (some a) p e =
    if_cases (λ (q : Page). q.registered ≡ p.registered) (str_eq w.registration.sclass "visitor")
      (λ _. ap (λ o. (preload_money o w.registration a p).registered) e) (λ _. refl)

-- The payments are those for the registrations that were confirmed.
abbrev pub IsCharged : Page → Type 0
IsCharged p = p.payments ≡ charges p.registered

begin-IsCharged : (n : Next) (p : Page) → IsCharged p → IsCharged (begin n p)
begin-IsCharged (shows m) p h = h
begin-IsCharged (uploads w) p h = h
begin-IsCharged (registers w) p h = h

after_upload-IsCharged :
    (o : Option Work) (res : Option String) (p : Page)
    → IsCharged p
    → IsCharged (after_upload o res p)
after_upload-IsCharged none res p h = h
after_upload-IsCharged (some w) none p h = h
after_upload-IsCharged (some w) (some photores) p h =
    if_cases IsCharged (str_eq photores "ok") (λ _. h) (λ _. h)

after_register-IsCharged :
    (o : Option Work) (res : Answer) (p : Page) → IsCharged p → IsCharged (after_register o res p)
after_register-IsCharged none res p h = h
after_register-IsCharged (some w) ok p h =
    let q = tell registration_done (record p { registered = p.registered ++ w ∷ [] }) in
    charge_lem w w.settings (above_zero w.hgc_num) q refl
    ∙ ap (λ ps. ps ++ charge_for w w.settings (above_zero w.hgc_num)) h
    ∙ sym (
        ap charges (charge-registered w w.settings (above_zero w.hgc_num) q refl)
        ∙ charges-append p.registered w)
after_register-IsCharged (some w) res p h = h

after_preload-IsCharged :
    (n : ℕ) (res : Answer) (p : Page) → IsCharged p → IsCharged (after_preload n res p)
after_preload-IsCharged zero res p h = h
after_preload-IsCharged (suc n) ok p h = h
after_preload-IsCharged (suc n) res p h = h

step-IsCharged : (e : Event) (p : Page) → IsCharged p → IsCharged (step e p)
unfolding step
step-IsCharged (sends i stored picname) p h = begin-IsCharged (send i stored picname) p h
step-IsCharged (uploaded k res) p h = after_upload-IsCharged (get_elem? p.uploading k) res p h
step-IsCharged (registers_answered k res) p h =
    after_register-IsCharged (get_elem? p.registering k) res p h
step-IsCharged (preload_answered res) p h = after_preload-IsCharged p.paying res p h

pub run-IsCharged : (es : List Event) (p : Page) → IsCharged p → IsCharged (run es p)
unfolding run
run-IsCharged [] p h = h
run-IsCharged (e ∷ es) p h = run-IsCharged es (step e p) (step-IsCharged e p h)
