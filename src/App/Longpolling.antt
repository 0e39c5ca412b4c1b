-- ===== src/App/Longpolling.antt =====
-- `longpolling` of client/app/www/js/common.js: the interval, the poll and its callback.
use schulealsstaat.Base.{
  ℕ, zero, suc, ◌≡◌, refl, String, Bool, true, false, Option, none, some, List, [], ◌∷◌, ◌++◌, ◌+◌,
  ◌≤◌, ◌∙◌, arith, ◌⊎◌, inl, inr, ◌-◌, str_eq, if◌then◌else◌,
}

-- The entries of the app's storage that a poll needs: `none` is `undefined`.
pub record Storage : Type 0 where
  pub qrid : Option String
  pub password : Option String
  pub last_sync : Option ℕ

-- The payload of `transactions_poll`.
pub record PollQuery : Type 0 where
  pub qrid : String
  pub password : String
  pub date : ℕ

-- A page: `polling_active`, the storage, the polls that were sent, how many have no answer yet,
-- how many of the timers of 300 ms that follow an answer run, and the notifications.
pub record Page : Type 0 where
  pub polling_active : Bool
  pub storage : Storage
  pub sent : List PollQuery
  pub unanswered : ℕ
  pub resetting : ℕ
  pub balance_updates : ℕ
  pub notified : List ℕ

-- `if (!last_sync) last_sync = 0`
abbrev pub since : Option ℕ → ℕ
since none = 0
since (some t) = t

abbrev pub send_poll : String → String → Page → Page
send_poll qrid password p = record p {
  polling_active = true;
  sent =
      p.sent ++ record { qrid = qrid; password = password; date = since p.storage.last_sync } ∷ [];
  unanswered = suc p.unanswered;
}

-- A round of the interval: the flag is set before the storage is looked at.
unfoldable pub tick : Page → Page
tick p = if p.polling_active then p else elim p.storage.qrid [
  | none ↦ record p { polling_active = true }
  | some qrid ↦
      if str_eq qrid "" then record p { polling_active = true } else elim p.storage.password [
        | none ↦ record p { polling_active = true }
        | some password ↦ send_poll qrid password p
      ]
]

-- The callback, with the times of the transactions in the answer; `none` is an answer that is no
-- list. The pages of the app share the storage.
unfoldable pub polled : Option (List ℕ) → Page → Page
polled none p = record p { unanswered = p.unanswered - 1; resetting = suc p.resetting }
polled (some []) p = record p { unanswered = p.unanswered - 1; resetting = suc p.resetting }
polled (some (t ∷ ts)) p = record p {
  unanswered = p.unanswered - 1;
  resetting = suc p.resetting;
  storage = record p.storage { last_sync = some t };
  balance_updates = suc p.balance_updates;
  notified = p.notified ++ (t ∷ ts);
}

-- The timer of 300 ms.
unfoldable pub reset : Page → Page
reset p = record p { polling_active = false; resetting = p.resetting - 1 }

pub data Event : Type 0 where
  ticks : Event
  answers : Option (List ℕ) → Event
  resets : Event
  stores : Storage → Event

-- An answer needs a poll, and a reset an answer; what cannot happen is passed over.
unfoldable pub step : Event → Page → Page
step ticks p = tick p
step (answers res) p = elim p.unanswered [ zero ↦ p | suc n ↦ polled res p ]
step resets p = elim p.resetting [ zero ↦ p | suc n ↦ reset p ]
step (stores s) p = record p { storage = s }

unfoldable pub run : List Event → Page → Page
run [] p = p
run (e ∷ es) p = run es (step e p)

module _ (storage : Storage) where
  abbrev pub initial : Page
  initial = record {
    polling_active = false;
    storage = storage;
    sent = [];
    unanswered = 0;
    resetting = 0;
    balance_updates = 0;
    notified = [];
  }

-- One poll or one timer at most, and none of them while the flag is not set.
abbrev Single : Bool → ℕ → ℕ → Type 0
Single active unanswered resetting =
    (unanswered + resetting ≤ 1) × (active ≡ false → unanswered + resetting ≡ 0)

abbrev IsSingle : Page → Type 0
IsSingle p = Single p.polling_active p.unanswered p.resetting

zero_or_suc : (n : ℕ) → (n ≡ 0) ⊎ ((k : ℕ) × (n ≡ suc k))
zero_or_suc zero = inl refl
zero_or_suc (suc k) = inr (k, refl)

tick-IsSingle : (p : Page) → IsSingle p → IsSingle (tick p)
unfolding tick
tick-IsSingle p h = ground arith

polled-IsSingle :
    (res : Option (List ℕ)) (p : Page) (n : ℕ)
    → p.unanswered ≡ suc n
    → IsSingle p
    → IsSingle (polled res p)
unfolding polled
polled-IsSingle none p n e h = ground arith
polled-IsSingle (some []) p n e h = ground arith
polled-IsSingle (some (t ∷ ts)) p n e h = ground arith

step-IsSingle : (e : Event) (p : Page) → IsSingle p → IsSingle (step e p)
unfolding step reset
step-IsSingle ticks p h = tick-IsSingle p h
step-IsSingle (answers res) p h = elim (zero_or_suc p.unanswered) [
  | inl e ↦ ground (arith, e)
  | inr (n, e) ↦ let after = polled-IsSingle res p n e h in ground (arith, e, after)
]
step-IsSingle resets p h = ground arith
step-IsSingle (stores s) p h = h

-- A flag that is set, with nothing under way that would take it back.
abbrev IsStuck : Page → Type 0
IsStuck p = (p.polling_active ≡ true) × (p.unanswered ≡ 0) × (p.resetting ≡ 0)

step-IsStuck : (e : Event) (p : Page) → IsStuck p → IsStuck (step e p) × ((step e p).sent ≡ p.sent)
unfolding step tick
step-IsStuck ticks p h = ground arith
step-IsStuck (answers res) p h = ground arith
step-IsStuck resets p h = ground arith
step-IsStuck (stores s) p h = (h, refl)

run-IsStuck : (es : List Event) (p : Page) → IsStuck p → (run es p).sent ≡ p.sent
unfolding run
run-IsStuck [] p h = refl
run-IsStuck (e ∷ es) p h =
    let next = step-IsStuck e p h in run-IsStuck es (step e p) next.0 ∙ next.1

-- If the first round of the interval finds no QR-ID in the storage, the page never polls, whatever
-- is stored later and however long it is open.
pub stops_for_good :
    (storage : Storage) (es : List Event)
    → storage.qrid ≡ none
    → (run (ticks ∷ es) (initial storage)).sent ≡ []
unfolding run step tick
stops_for_good storage es h =
    run-IsStuck es (tick (initial storage)) (rw h (refl, refl, refl)) ∙ rw h refl
