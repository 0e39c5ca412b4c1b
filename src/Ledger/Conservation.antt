-- ===== src/Ledger/Conservation.antt =====
-- The sum of all balances, and what a stored transaction does to it.
use mathlib.Core.Path.{fun_ext}
use schulealsstaat.Base.{
  ℕ, ◌+◌, ◌≡◌, refl, ap, inl, inr, false, Option, none, some, List, [], ◌∷◌, ◌++◌, arith,
  Bool-cases, ◌==◌, if◌then◌else◌,
}
use schulealsstaat.Base.Int.{ℤ, pos, pos_part, neg_part, ◌+ℤ◌, ◌-ℤ◌, int_laws}
use schulealsstaat.Types.{Entry, Transaction}
use schulealsstaat.Db.Transactions.{balance_of, refers_to}
use schulealsstaat.Db.Balance.{effect, amount_if, balance_of-write}

abbrev pub occurrences : ℕ → List ℕ → ℕ
occurrences j [] = 0
occurrences j (i ∷ is) = (if i == j then 1 else 0) + occurrences j is

pub sum_over : (ℕ → ℤ) → List ℕ → ℤ
sum_over f [] = pos 0
sum_over f (i ∷ is) = f i +ℤ sum_over f is

-- The money on the accounts of a list of ids.
unfoldable pub total : List ℕ → List Transaction → ℤ
total ids trs = sum_over (λ i. balance_of i trs) ids

sum_over-add :
    (f g : ℕ → ℤ) (is : List ℕ) → sum_over (λ i. f i +ℤ g i) is ≡ sum_over f is +ℤ sum_over g is
unfolding sum_over
sum_over-add f g [] = omega int_laws
sum_over-add f g (i ∷ is) = rw (sum_over-add f g is) (omega int_laws)

sum_over-sub :
    (f g : ℕ → ℤ) (is : List ℕ) → sum_over (λ i. f i -ℤ g i) is ≡ sum_over f is -ℤ sum_over g is
unfolding sum_over
sum_over-sub f g [] = omega int_laws
sum_over-sub f g (i ∷ is) = rw (sum_over-sub f g is) (omega int_laws)

sum_over-absent :
    (j : ℕ) (a : ℤ) (is : List ℕ)
    → occurrences j is ≡ 0
    → sum_over (λ i. amount_if (i == j) a) is ≡ pos 0
unfolding sum_over
sum_over-absent j a [] h = refl
sum_over-absent j a (i ∷ is) h = elim (Bool-cases (i == j)) [
  | inl e ↦ absurd (omega (arith, rw e at h))
  | inr e ↦ rw (e, sum_over-absent j a is (omega (arith, rw e at h))) (omega int_laws)
]

-- An account that is listed once takes its part of a sum once.
sum_over-once :
    (j : ℕ) (a : ℤ) (is : List ℕ)
    → occurrences j is ≡ 1
    → sum_over (λ i. amount_if (i == j) a) is ≡ a
unfolding sum_over
sum_over-once j a [] h = absurd (omega arith)
sum_over-once j a (i ∷ is) h = elim (Bool-cases (i == j)) [
  | inl e ↦ rw (e, sum_over-absent j a is (omega (arith, rw e at h))) (omega int_laws)
  | inr e ↦ rw (e, sum_over-once j a is (omega (arith, rw e at h))) (omega int_laws)
]

abbrev pub Listed : Option ℕ → List ℕ → Type 0
Listed none ids = Unit
Listed (some j) ids = occurrences j ids ≡ 1

abbrev pub amount_of : Option ℕ → ℤ → ℤ
amount_of none a = pos 0
amount_of (some j) a = a

sum_over-zero : (is : List ℕ) → sum_over (λ i. pos 0) is ≡ pos 0
unfolding sum_over
sum_over-zero [] = refl
sum_over-zero (i ∷ is) = rw (sum_over-zero is) (omega int_laws)

sum_over-party :
    (r : Option ℕ) (a : ℤ) (is : List ℕ)
    → Listed r is
    → sum_over (λ i. amount_if (elim r [ none ↦ false | some j ↦ i == j ]) a) is ≡ amount_of r a
sum_over-party none a is h = sum_over-zero is
sum_over-party (some j) a is h = sum_over-once j a is h

-- What an entry adds to the money on a list of accounts that holds all of its parties.
sum_over-effect :
    (e : Entry) (is : List ℕ)
    → Listed e.sender.reference is
    → Listed e.recipient.reference is
    → occurrences e.tax_recipient is ≡ 1
    → sum_over (λ i. effect i e) is
      ≡ (amount_of e.recipient.reference e.amount_received +ℤ e.amount_tax)
        -ℤ amount_of e.sender.reference e.amount_sent
sum_over-effect e is s r t = rw (
  sum_over-sub
      (λ i.
        amount_if (refers_to i e.recipient) e.amount_received
        +ℤ amount_if (i == e.tax_recipient) e.amount_tax)
      (λ i. amount_if (refers_to i e.sender) e.amount_sent) is,
  sum_over-add (λ i. amount_if (refers_to i e.recipient) e.amount_received)
      (λ i. amount_if (i == e.tax_recipient) e.amount_tax) is,
  sum_over-party e.recipient.reference e.amount_received is r,
  sum_over-party e.sender.reference e.amount_sent is s,
  sum_over-once e.tax_recipient e.amount_tax is t,
)

-- The money that an entry takes from the magic account, and what it sends there.
abbrev pub spawned_money : Entry → ℤ
spawned_money e = elim e.sender.reference [ none ↦ e.amount_sent | some j ↦ pos 0 ]

abbrev pub destroyed_money : Entry → ℤ
destroyed_money e = elim e.recipient.reference [ none ↦ e.amount_received | some j ↦ pos 0 ]

balance : (r : Option ℕ) (a : ℤ) → amount_of r a +ℤ elim r [ none ↦ a | some j ↦ pos 0 ] ≡ a
balance none a = omega int_laws
balance (some j) a = omega int_laws

-- Storing a transaction whose amounts add up changes the money on a list of accounts, which has
-- those of its parties and the tax account once each, by what the magic account spawns less what
-- is destroyed: between students, by nothing.
pub total-write :
    (ids : List ℕ) (trs : List Transaction) (t : Transaction)
    → t.amount_sent ≡ t.amount_received +ℤ t.amount_tax
    → Listed t.entry.sender.reference ids
    → Listed t.entry.recipient.reference ids
    → occurrences t.tax_recipient ids ≡ 1
    → total ids (trs ++ t ∷ []) +ℤ destroyed_money t.entry ≡ total ids trs +ℤ spawned_money t.entry
unfolding total
total-write ids trs t e s r x =
    rw
      (
        fun_ext (λ i. balance_of-write i trs t),
        sum_over-add (λ i. balance_of i trs) (λ i. effect i t.entry) ids,
        sum_over-effect t.entry ids s r x,
      )
      (omega (
        int_laws,
        ap pos_part e,
        ap neg_part e,
        ap pos_part (balance t.entry.sender.reference t.amount_sent),
        ap neg_part (balance t.entry.sender.reference t.amount_sent),
        ap pos_part (balance t.entry.recipient.reference t.amount_received),
        ap neg_part (balance t.entry.recipient.reference t.amount_received),
      ))
