-- ===== src/Ledger/Callbacks.antt =====
-- The callbacks of one round, and what they rely on.
use schulealsstaat.Base.{
  ℕ, zero, suc, ◌≤◌, ◌<◌, ◌≡◌, refl, sym, ap, ◌∙◌, subst, false, Option, none, some, List, [], ◌∷◌,
  ◌++◌, arith, All, All-append, get_elem?, set, length, ◌==◌, ==_iff,
}
use schulealsstaat.Base.Int.{ℤ, pos, ◌+ℤ◌, ◌≤ℤ◌, int_laws}
use schulealsstaat.Types.{Entry, Transaction}
use schulealsstaat.Server.{Queued}
use schulealsstaat.Db.Transactions.{balance_of, refers_to}
use schulealsstaat.Db.Balance.{effect, amount_if, balance_of-write}
use schulealsstaat.Actions.Queue.Defs.{Callback, permitted, balance_read, written}
use schulealsstaat.Ledger.Entries.{IsFair}
use schulealsstaat.Ledger.Solvency.{QueuedFair, effect_lower}

abbrev pub at : List (Option Queued) → ℕ → Option Queued
at qs i = elim (get_elem? qs i) [ none ↦ none | some q ↦ q ]

abbrev pub SenderIs : ℕ → Option Queued → Type 0
SenderIs j none = Unit
SenderIs j (some q) = q.sender ≡ j

-- A callback belongs to a sender.
abbrev pub Fits : List (Option Queued) → List Transaction → Callback → ℕ → Type 0
Fits qs trs (permitted i trid) j = (i < length qs) × SenderIs j (at qs i)
Fits qs trs (balance_read i trid pe bal) j =
    (pe.sender ≡ j) × QueuedFair (some pe) × (bal ≤ℤ balance_of pe.sender trs)
Fits qs trs (written i trid pe) j = Unit

abbrev pub AllFit : List (Option Queued) → List Transaction → List Callback → List ℕ → Type 0
AllFit qs trs [] [] = Unit
AllFit qs trs [] (j ∷ js) = ⊥
AllFit qs trs (c ∷ cs) [] = ⊥
AllFit qs trs (c ∷ cs) (j ∷ js) = Fits qs trs c j × AllFit qs trs cs js

-- No sender twice.
abbrev pub Other : ℕ → ℕ → Type 0
Other j k = (k == j) ≡ false

abbrev pub Distinct : List ℕ → Type 0
Distinct [] = Unit
Distinct (j ∷ js) = All (Other j) js × Distinct js

at-append : (qs ys : List (Option Queued)) (i : ℕ) → i < length qs → at (qs ++ ys) i ≡ at qs i
at-append [] ys i h = absurd (omega (arith, h))
at-append (q ∷ qs) ys zero h = refl
at-append (q ∷ qs) ys (suc i) h = at-append qs ys i (omega (arith, h))

at-set :
    (j : ℕ) (qs : List (Option Queued)) (i k : ℕ)
    → SenderIs j (at qs i)
    → SenderIs j (at (set qs k none) i)
at-set j [] i k h = h
at-set j (q ∷ qs) zero zero h = tt
at-set j (q ∷ qs) zero (suc k) h = h
at-set j (q ∷ qs) (suc i) zero h = h
at-set j (q ∷ qs) (suc i) (suc k) h = at-set j qs i k h

length-set :
    (qs : List (Option Queued)) (k : ℕ) (o : Option Queued) → length (set qs k o) ≡ length qs
length-set [] k o = refl
length-set (q ∷ qs) zero o = refl
length-set (q ∷ qs) (suc k) o = ap suc (length-set qs k o)

length_grows : (qs ys : List (Option Queued)) → length qs ≤ length (qs ++ ys)
length_grows [] ys = omega arith
length_grows (q ∷ qs) ys = omega (arith, length_grows qs ys)

Fits-append :
    (qs ys : List (Option Queued)) (trs : List Transaction) (c : Callback) (j : ℕ)
    → Fits qs trs c j
    → Fits (qs ++ ys) trs c j
Fits-append qs ys trs (permitted i trid) j (l, h) =
    (omega (arith, l, length_grows qs ys), subst (SenderIs j) (sym (at-append qs ys i l)) h)
Fits-append qs ys trs (balance_read i trid pe bal) j h = h
Fits-append qs ys trs (written i trid pe) j h = h

Fits-set :
    (qs : List (Option Queued)) (k : ℕ) (trs : List Transaction) (c : Callback) (j : ℕ)
    → Fits qs trs c j
    → Fits (set qs k none) trs c j
Fits-set qs k trs (permitted i trid) j (l, h) =
    (omega (arith, l, length-set qs k none), at-set j qs i k h)
Fits-set qs k trs (balance_read i trid pe bal) j h = h
Fits-set qs k trs (written i trid pe) j h = h

-- An entry of another sender takes nothing from an account.
gains : (i : ℕ) (e : Entry) → IsFair e → refers_to i e.sender ≡ false → pos 0 ≤ℤ effect i e
gains i e f r =
    let low =
      subst (λ b. pos 0 ≤ℤ effect i e +ℤ amount_if b e.amount_sent) r (effect_lower i e f) in
    no_charge (effect i e) low
  where
    no_charge : (x : ℤ) → pos 0 ≤ℤ x +ℤ pos 0 → pos 0 ≤ℤ x
    no_charge x h = omega (int_laws, h)

grows : (a b x : ℤ) → a ≤ℤ b → pos 0 ≤ℤ x → a ≤ℤ b +ℤ x
grows a b x h g = omega (int_laws, h, g)

-- What is written for another sender takes nothing from this one.
Fits-write :
    (qs : List (Option Queued)) (trs : List Transaction) (t : Transaction) (c : Callback) (j : ℕ)
    → IsFair t.entry
    → refers_to j t.sender ≡ false
    → Fits qs trs c j
    → Fits qs (trs ++ t ∷ []) c j
Fits-write qs trs t (permitted i trid) j f r h = h
Fits-write qs trs t (balance_read i trid pe bal) j f r (e, q, le) = (
  e,
  q,
  rw (balance_of-write pe.sender trs t) (
      grows bal (balance_of pe.sender trs) (effect pe.sender t.entry) le
        (gains pe.sender t.entry f (ap (λ k. refers_to k t.sender) e ∙ r))),
)
Fits-write qs trs t (written i trid pe) j f r h = h

pub AllFit-append :
    (qs ys : List (Option Queued)) (trs : List Transaction) (cs : List Callback) (js : List ℕ)
    → AllFit qs trs cs js
    → AllFit (qs ++ ys) trs cs js
AllFit-append qs ys trs [] [] h = tt
AllFit-append qs ys trs [] (j ∷ js) h = h
AllFit-append qs ys trs (c ∷ cs) [] h = h
AllFit-append qs ys trs (c ∷ cs) (j ∷ js) (h, hs) =
    (Fits-append qs ys trs c j h, AllFit-append qs ys trs cs js hs)

pub AllFit-set :
    (qs : List (Option Queued)) (k : ℕ) (trs : List Transaction) (cs : List Callback) (js : List ℕ)
    → AllFit qs trs cs js
    → AllFit (set qs k none) trs cs js
AllFit-set qs k trs [] [] h = tt
AllFit-set qs k trs [] (j ∷ js) h = h
AllFit-set qs k trs (c ∷ cs) [] h = h
AllFit-set qs k trs (c ∷ cs) (j ∷ js) (h, hs) =
    (Fits-set qs k trs c j h, AllFit-set qs k trs cs js hs)

pub AllFit-write :
    (qs : List (Option Queued)) (trs : List Transaction) (t : Transaction) (cs : List Callback)
    (js : List ℕ)
    → IsFair t.entry
    → All (λ j. refers_to j t.sender ≡ false) js
    → AllFit qs trs cs js
    → AllFit qs (trs ++ t ∷ []) cs js
AllFit-write qs trs t [] [] f r h = tt
AllFit-write qs trs t [] (j ∷ js) f r h = h
AllFit-write qs trs t (c ∷ cs) [] f r h = h
AllFit-write qs trs t (c ∷ cs) (j ∷ js) f (r, rs) (h, hs) =
    (Fits-write qs trs t c j f r h, AllFit-write qs trs t cs js f rs hs)

pub AllFit-join :
    (qs : List (Option Queued)) (trs : List Transaction) (cs more : List Callback) (js ms : List ℕ)
    → AllFit qs trs cs js
    → AllFit qs trs more ms
    → AllFit qs trs (cs ++ more) (js ++ ms)
AllFit-join qs trs [] more [] ms h g = g
AllFit-join qs trs [] more (j ∷ js) ms h g = elim h [ ]
AllFit-join qs trs (c ∷ cs) more [] ms h g = elim h [ ]
AllFit-join qs trs (c ∷ cs) more (j ∷ js) ms (h, hs) g = (h, AllFit-join qs trs cs more js ms hs g)

Other-sym : (j k : ℕ) → Other j k → Other k j
Other-sym j k h = ground (arith, ==_iff k j, ==_iff j k)

-- A sender whose callback has run may have another one.
pub Distinct-rotate :
    (j : ℕ) (js : List ℕ) → All (Other j) js → Distinct js → Distinct (js ++ j ∷ [])
Distinct-rotate j [] h d = (tt, tt)
Distinct-rotate j (k ∷ js) (h, hs) (g, d) =
    (All-append (Other k) js (j ∷ []) g (Other-sym j k h, tt), Distinct-rotate j js hs d)
