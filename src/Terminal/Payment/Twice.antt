-- ===== src/Terminal/Payment/Twice.antt =====
-- transaction_simple/scripts.js: a payment whose answer takes longer than the timer.
use schulealsstaat.Base.{
  ℕ, String, List, false, some, [], ◌∷◌, ◌++◌, length, get_elem?-middle, subst, ltb, ◌≡◌, refl, ap,
  sym, ◌∙◌,
}
use schulealsstaat.Base.Int.{ℤ}
use schulealsstaat.Terminal.Payment.{
  Page, Form, truthy, n_decimals, confirm, timed_out_for, times_out, payment_of,
}
use schulealsstaat.Terminal.Payment.Persons.{fresh, after_click, confirm_sends}

module _ (pieces : ℤ → List String) (places : ℕ) where
  -- On a page with an enabled button, two variables that are not empty, and a number without more
  -- decimal places than allowed, a click sends the payment, a second click before the answer changes
  -- nothing, and a second click after the timer has run out without an answer sends the payment again.
  pub pays_twice :
      (p : Page) (f : Form) (sender recipient : String) (a : ℤ)
      → p.confirm_disabled ≡ false
      → truthy p.sender.current ≡ some sender
      → truthy p.recipient.current ≡ some recipient
      → f.amount ≡ some a
      → ltb places (n_decimals pieces a) ≡ false
      → (confirm pieces places f (confirm pieces places f p) ≡ confirm pieces places f p)
        × ((confirm pieces places f (times_out (length p.queries) (confirm pieces places f p))).sent
            ≡ (p.sent ++ payment_of sender recipient a f ∷ [])
              ++ payment_of sender recipient a f ∷ [])
  unfolding confirm times_out
  pays_twice p f sender recipient a enabled hs hr amount fine =
      let once = confirm_sends pieces places p f sender recipient a enabled hs hr amount fine in
      let open_query = get_elem?-middle p.queries fresh [] in
      (
        subst (λ q. confirm pieces places f q ≡ q) (sym once) refl,
        ap (λ q. (confirm pieces places f (times_out (length p.queries) q)).sent) once
            ∙ ap
                (λ o.
                  (confirm pieces places f
                    (timed_out_for o (length p.queries) (after_click p sender recipient a f))).sent)
                open_query
            ∙ ap (λ q. q.sent)
                (confirm_sends pieces places
                  (timed_out_for (some fresh) (length p.queries)
                    (after_click p sender recipient a f))
                  f sender recipient a refl hs hr amount fine),
      )
