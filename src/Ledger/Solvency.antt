-- ===== src/Ledger/Solvency.antt =====
-- What a server needs for its timer, and what writing an entry does to it.
use schulealsstaat.Base.{
  ℕ, zero, suc, ◌≤◌, ◌<◌, ◌≡◌, inl, inr, false, Option, none, some, List, [], ◌∷◌, ◌++◌, arith, All,
  All-append, get_elem?, set, Bool-cases, ◌==◌,
}
use schulealsstaat.Base.Int.{ℤ, pos, ◌+ℤ◌, ◌-ℤ◌, ◌≤ℤ◌, int_laws, sub_nonneg}
use schulealsstaat.Types.{Entry, Transaction}
use schulealsstaat.Server.{Server, Settings, Queued}
use schulealsstaat.Db.Transactions.{balance_of, income, payments, taxincome, sum_where, refers_to}
use schulealsstaat.Db.Balance.{effect, amount_if, balance_of-write}
use schulealsstaat.Ledger.Entries.{IsFair}
use schulealsstaat.Actions.Queue.{is_short}

abbrev pub IsSolvent : List Transaction → Type 0
IsSolvent trs = (i : ℕ) → pos 0 ≤ℤ balance_of i trs

-- A queued entry is fair, and charges the student whose permission it waits for.
abbrev pub QueuedFair : Option Queued → Type 0
QueuedFair none = Unit
QueuedFair (some q) = IsFair q.entry × (q.entry.sender.reference ≡ some q.sender)

abbrev pub StoredFair : Transaction → Type 0
StoredFair t = IsFair t.entry

-- Payments are tested for no more decimal places than the tax is rounded to.
pub record IsConfigured (cfg : Settings) : Type 0 where
  pub places : cfg.hgc_tr_decimal_places ≤ cfg.hgc_decimal_places
  pub percent : 0 < cfg.transaction_tax_percent.den

-- The queued transactions have numbers that were given before the next one, and no two the same.
abbrev pub Differs : Queued → Option Queued → Type 0
Differs q none = Unit
Differs q (some q') = (q.trid == q'.trid) ≡ false

abbrev pub QueueIds : ℕ → List (Option Queued) → Type 0
QueueIds n [] = Unit
QueueIds n (none ∷ qs) = QueueIds n qs
QueueIds n (some q ∷ qs) = (q.trid < n) × All (Differs q) qs × QueueIds n qs

pub record IsSound (s : Server) : Type 0 where
  pub configured : IsConfigured s.settings
  pub solvent : IsSolvent s.db.transactions
  pub queue_fair : All QueuedFair s.queue
  pub stored_fair : All StoredFair s.db.transactions
  pub queue_ids : QueueIds s.db.next_id s.queue

pub IsSolvent-nil : IsSolvent []
unfolding balance_of income payments taxincome sum_where ◌+ℤ◌ ◌-ℤ◌
IsSolvent-nil i = omega arith

-- What an entry can take off an account: the sent amount, and only if the account is the sender.
pub effect_lower :
    (i : ℕ) (e : Entry)
    → IsFair e
    → pos 0 ≤ℤ effect i e +ℤ amount_if (refers_to i e.sender) e.amount_sent
effect_lower i e f = elim (Bool-cases (refers_to i e.recipient)) [
  | inl a ↦ rw a (elim (Bool-cases (i == e.tax_recipient)) [
    | inl b ↦ rw b (omega (int_laws, f.received_nonneg, f.tax_nonneg))
    | inr b ↦ rw b (omega (int_laws, f.received_nonneg))
  ])
  | inr a ↦ rw a (elim (Bool-cases (i == e.tax_recipient)) [
    | inl b ↦ rw b (omega (int_laws, f.tax_nonneg))
    | inr b ↦ rw b (omega int_laws)
  ])
]

-- An entry of a student who can pay for it, or of the magic account, leaves everybody solvent.
abbrev pub CanPay : Option ℕ → ℤ → List Transaction → Type 0
CanPay none sent trs = Unit
CanPay (some j) sent trs = sent ≤ℤ balance_of j trs

charge_le :
    (i : ℕ) (r : Option ℕ) (sent : ℤ) (trs : List Transaction)
    → IsSolvent trs
    → CanPay r sent trs
    → amount_if (elim r [ none ↦ false | some j ↦ i == j ]) sent ≤ℤ balance_of i trs
charge_le i none sent trs h c = h i
charge_le i (some j) sent trs h c = elim (Bool-cases (i == j)) [
  | inl e ↦ rw e (let same : i ≡ j = ground arith in rw same c)
  | inr e ↦ rw e (h i)
]

pub write-IsSolvent :
    (trs : List Transaction) (t : Transaction)
    → IsSolvent trs
    → IsFair t.entry
    → CanPay t.entry.sender.reference t.entry.amount_sent trs
    → IsSolvent (trs ++ t ∷ [])
write-IsSolvent trs t h f c i = rw (balance_of-write i trs t) (
    omega (
      int_laws,
      effect_lower i t.entry f,
      charge_le i t.entry.sender.reference t.entry.amount_sent trs h c,
    ))

pub QueueIds-suc : (n : ℕ) (qs : List (Option Queued)) → QueueIds n qs → QueueIds (suc n) qs
QueueIds-suc n [] h = tt
QueueIds-suc n (none ∷ qs) h = QueueIds-suc n qs h
QueueIds-suc n (some q ∷ qs) (l, a, h) = (omega (arith, l), a, QueueIds-suc n qs h)

pub QueueIds-append :
    (n : ℕ) (new : Queued) (qs : List (Option Queued))
    → new.trid ≡ n
    → QueueIds n qs
    → QueueIds (suc n) (qs ++ some new ∷ [])
QueueIds-append n new [] e h = (omega (arith, e), tt, tt)
QueueIds-append n new (none ∷ qs) e h = QueueIds-append n new qs e h
QueueIds-append n new (some q ∷ qs) e (l, a, h) = (
  omega (arith, l),
  All-append (Differs q) qs (some new ∷ []) a (ground (arith, e, l), tt),
  QueueIds-append n new qs e h,
)

Differs-set :
    (q : Queued) (qs : List (Option Queued)) (k : ℕ)
    → All (Differs q) qs
    → All (Differs q) (set qs k none)
Differs-set q [] k h = tt
Differs-set q (x ∷ qs) zero (h, hs) = (tt, hs)
Differs-set q (x ∷ qs) (suc k) (h, hs) = (h, Differs-set q qs k hs)

pub QueueIds-set :
    (n : ℕ) (qs : List (Option Queued)) (k : ℕ) → QueueIds n qs → QueueIds n (set qs k none)
QueueIds-set n [] k h = tt
QueueIds-set n (none ∷ qs) zero h = h
QueueIds-set n (none ∷ qs) (suc k) h = QueueIds-set n qs k h
QueueIds-set n (some q ∷ qs) zero (l, a, h) = h
QueueIds-set n (some q ∷ qs) (suc k) (l, a, h) = (l, Differs-set q qs k a, QueueIds-set n qs k h)

pub All-set :
    (xs : List (Option Queued)) (i : ℕ) → All QueuedFair xs → All QueuedFair (set xs i none)
All-set [] i h = tt
All-set (x ∷ xs) zero h = (tt, h.1)
All-set (x ∷ xs) (suc i) h = (h.0, All-set xs i h.1)

pub All-get :
    (xs : List (Option Queued)) (i : ℕ) (q : Queued)
    → All QueuedFair xs
    → elim (get_elem? xs i) [ none ↦ none | some o ↦ o ] ≡ some q
    → QueuedFair (some q)
All-get [] i q h e = cc
All-get (none ∷ xs) zero q h e = cc
All-get (some x ∷ xs) zero q h e = let same : x ≡ q = cc in rw (← same) h.0
All-get (x ∷ xs) (suc i) q h e = All-get xs i q h.1 e

-- A sender who is not short of money can pay.
pub covered :
    (pe : Queued) (s : Server)
    → is_short pe s ≡ false
    → pe.entry.amount_sent ≤ℤ balance_of pe.sender s.db.transactions
covered pe s e = sub_nonneg (balance_of pe.sender s.db.transactions) pe.entry.amount_sent e
