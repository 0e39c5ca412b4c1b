-- ===== src/Ledger/Requests.antt =====
-- The requests for transactions on a server with callbacks of a round.
use schulealsstaat.Base.{
  ℕ, zero, suc, List, All, [], ◌∷◌, ap, ◌==◌, String, ◌≤◌, ◌<◌, ◌≡◌, refl, false, ◌&&◌, Option,
  none, some, arith, All-append, ltb, if_cases,
}
use schulealsstaat.Base.Int.{pos}
use schulealsstaat.Types.{Amount, Percent, Entry, Answer, Student, grid_places}
use schulealsstaat.Server.{Server, Settings, Crypto, say}
use native.Mathlib.Nat.{add-zero}
use schulealsstaat.Actions.Common.{student_public_only}
use schulealsstaat.Money.{n_decimals, places}
use schulealsstaat.Actions.Transactions.{
  Payment, truthy, perform, make_entry, transaction, transaction_normal, transaction_action,
  transaction_taxfree, no_tax,
}
use schulealsstaat.Actions.Transactions.Cases.{
  AmountsPass, transaction_cases, transaction_normal_cases,
}
use schulealsstaat.Actions.Transactions.Perform.{perform_spawn, perform_enqueue}
use schulealsstaat.Ledger.Entries.{IsAdmissible, IsFair, make_entry-IsFair}
use schulealsstaat.Ledger.Solvency.{
  IsSound, QueuedFair, StoredFair, write-IsSolvent, QueueIds-suc, QueueIds-append,
}
use schulealsstaat.Ledger.Callbacks.{AllFit, AllFit-append, AllFit-write}
use schulealsstaat.Actions.Queue.Defs.{Callback}
use schulealsstaat.Db.Transactions.{refers_to}

-- A sound server, whose balances and queue some callbacks rely on.
pub record IsSafe (cs : List Callback) (js : List ℕ) (s : Server) : Type 0 where
  pub sound : IsSound s
  pub fit : AllFit s.queue s.db.transactions cs js

none_refers :
    (e : Entry) (js : List ℕ)
    → e.sender.reference ≡ none
    → All (λ j. refers_to j e.sender ≡ false) js
none_refers e [] r = tt
none_refers e (j ∷ js) r =
    (ap (λ o. elim o [ none ↦ false | some i ↦ j == i ]) r, none_refers e js r)

abbrev pub reference_of : Option Student → Option ℕ
reference_of none = none
reference_of (some st) = some st.id

make_entry-reference :
    (cfg : Settings) (time : ℕ) (sender recipient : Option Student) (taxinc : Student)
    (sent received : Amount) (tax : Percent) (comment : Option String)
    → (make_entry cfg time sender recipient taxinc sent received tax comment).sender.reference
      ≡ reference_of sender
unfolding make_entry student_public_only
make_entry-reference cfg time none recipient taxinc sent received tax comment = refl
make_entry-reference cfg time (some st) recipient taxinc sent received tax comment = refl

checked_places :
    (d places_max n : ℕ)
    → places_max ≤ d
    → (truthy (Amount.number (pos n)) && ltb places_max (n_decimals (Amount.number (pos n))))
      ≡ false
    → places grid_places n ≤ d
unfolding n_decimals places
checked_places d places_max zero le t = omega arith
checked_places d places_max (suc n) le t = not_more le (rw add-zero at t)
  where
    not_more :
        places_max ≤ d
        → ltb places_max (places grid_places (suc n)) ≡ false
        → places grid_places (suc n) ≤ d
    not_more le t = ground arith

admissible :
    (d places_max : ℕ) (sent received : Amount) (tax : Percent)
    → 0 < tax.den
    → places_max ≤ d
    → (truthy sent && ltb places_max (n_decimals sent)) ≡ false
    → AmountsPass sent received
    → IsAdmissible d sent received tax
admissible d places_max sent received tax h le t p = record {
  percent = h;
  specified = p.specified;
  unambiguous = p.unambiguous;
  sent_valid = p.sent_valid;
  received_valid = p.received_valid;
  sent_places = λ n e. checked_places d places_max n le (rw e at t);
}

module _ (cs : List Callback) (js : List ℕ) where
  say-IsSafe : (rid : ℕ) (x : Answer) (s : Server) → IsSafe cs js s → IsSafe cs js (say rid x s)
  say-IsSafe rid x s h = record {
    sound = record {
      configured = h.sound.configured;
      solvent = h.sound.solvent;
      queue_fair = h.sound.queue_fair;
      stored_fair = h.sound.stored_fair;
      queue_ids = h.sound.queue_ids;
    };
    fit = h.fit;
  }

  perform-IsSafe :
      (sender : Option Student) (e : Entry) (rid : ℕ) (s : Server)
      → IsSafe cs js s
      → IsFair e
      → e.sender.reference ≡ reference_of sender
      → IsSafe cs js (perform sender e rid s).1
  perform-IsSafe none e rid s h f r = rw (perform_spawn e rid s) (
      if_cases (IsSafe cs js) s.db.connected
        (λ _. record {
          sound = record {
            configured = h.sound.configured;
            solvent =
                write-IsSolvent s.db.transactions (record { id = s.db.next_id; entry = e })
                  h.sound.solvent f (rw r tt);
            queue_fair = h.sound.queue_fair;
            stored_fair = All-append StoredFair s.db.transactions _ h.sound.stored_fair (f, tt);
            queue_ids = QueueIds-suc s.db.next_id s.queue h.sound.queue_ids;
          };
          fit =
              AllFit-write s.queue s.db.transactions (record { id = s.db.next_id; entry = e }) cs js
                f (none_refers e js r) h.fit;
        })
        (λ _. say-IsSafe rid _ s h))
  perform-IsSafe (some st) e rid s h f r = rw (perform_enqueue st e rid s) (
      if_cases (IsSafe cs js) s.db.connected
        (λ _. record {
          sound = record {
            configured = h.sound.configured;
            solvent = h.sound.solvent;
            queue_fair = All-append QueuedFair s.queue _ h.sound.queue_fair ((f, r), tt);
            stored_fair = h.sound.stored_fair;
            queue_ids = QueueIds-append s.db.next_id _ s.queue refl h.sound.queue_ids;
          };
          fit = AllFit-append s.queue _ s.db.transactions cs js h.fit;
        })
        (λ _. say-IsSafe rid _ s h))

  -- A request keeps the money sound, whatever its amounts are.
  transaction-IsSafe :
      (sender recipient : String) (sent received : Amount) (tax : Percent) (comment : Option String)
      (rid : ℕ) (s : Server)
      → IsSafe cs js s
      → (AmountsPass sent received → IsAdmissible s.settings.hgc_decimal_places sent received tax)
      → IsSafe cs js (transaction sender recipient sent received tax comment rid s).1
  transaction-IsSafe sender recipient sent received tax comment rid s h a =
      transaction_cases (IsSafe cs js) rid s (λ x. say-IsSafe rid x s h) sender recipient sent
        received tax comment
        λ p taxinc st rst _ _.
          perform-IsSafe st (make_entry s.settings s.clock st rst taxinc sent received tax comment)
            rid s h
            (make_entry-IsFair s.settings s.clock st rst taxinc sent received tax comment (a p))
            (make_entry-reference s.settings s.clock st rst taxinc sent received tax comment)

  -- The checks of `transaction_normal` are enough for that, at every tax.
  pub transaction_normal-IsSafe :
      (c : Crypto) (p : Payment) (rid : ℕ) (tax : Percent) (s : Server)
      → 0 < tax.den
      → IsSafe cs js s
      → IsSafe cs js (transaction_normal c p rid tax s).1
  transaction_normal-IsSafe c p rid tax s den h =
      transaction_normal_cases (IsSafe cs js) rid s (λ x. say-IsSafe rid x s h) c p tax
        λ _ t _ st _ _.
          transaction-IsSafe p.sender p.recipient p.amount_sent p.amount_received tax p.comment rid
            s h
            (admissible s.settings.hgc_decimal_places s.settings.hgc_tr_decimal_places p.amount_sent
              p.amount_received tax den h.sound.configured.places t)

  -- The action `transaction`, with the configured tax, keeps every balance at zero or more and lets
  -- into the queue only entries whose amounts add up.
  pub transaction_action-IsSafe :
      (c : Crypto) (p : Payment) (rid : ℕ) (s : Server)
      → IsSafe cs js s
      → IsSafe cs js (transaction_action c p rid s).1
  unfolding transaction_action
  transaction_action-IsSafe c p rid s h =
      transaction_normal-IsSafe c p rid s.settings.transaction_tax_percent s
        h.sound.configured.percent h

  -- So does `transaction_taxfree`.
  pub transaction_taxfree-IsSafe :
      (c : Crypto) (p : Payment) (rid : ℕ) (s : Server)
      → IsSafe cs js s
      → IsSafe cs js (transaction_taxfree c p rid s).1
  unfolding transaction_taxfree
  transaction_taxfree-IsSafe c p rid s h =
      transaction_normal-IsSafe c p rid no_tax s (omega arith) h
