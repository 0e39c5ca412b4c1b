-- ===== src/Db/Balance.antt =====
-- What a stored transaction does to the balances.
use schulealsstaat.Base.{
  ℕ, ◌≡◌, refl, inl, inr, Bool, Bool-cases, List, [], ◌∷◌, ◌++◌, ◌==◌, if◌then◌else◌,
}
use schulealsstaat.Base.Int.{ℤ, pos, ◌+ℤ◌, ◌-ℤ◌, int_laws}
use schulealsstaat.Types.{Entry, Transaction}
use schulealsstaat.Db.Transactions.{sum_where, income, payments, taxincome, balance_of, refers_to}

abbrev pub amount_if : Bool → ℤ → ℤ
amount_if b a = if b then a else pos 0

-- What an entry adds to a balance: the received amount for the recipient, the tax for the tax
-- account, and the sent amount off the sender.
abbrev pub effect : ℕ → Entry → ℤ
effect i e =
    (amount_if (refers_to i e.recipient) e.amount_received
      +ℤ amount_if (i == e.tax_recipient) e.amount_tax)
    -ℤ amount_if (refers_to i e.sender) e.amount_sent

sum_where-append :
    (test : Transaction → Bool) (field : Transaction → ℤ) (ts : List Transaction) (t : Transaction)
    → sum_where test field (ts ++ t ∷ []) ≡ sum_where test field ts +ℤ amount_if (test t) (field t)
unfolding sum_where
sum_where-append test field [] t = elim (Bool-cases (test t)) [
  | inl e ↦ rw e (omega int_laws)
  | inr e ↦ rw e (omega int_laws)
]
sum_where-append test field (x ∷ ts) t = elim (Bool-cases (test x)) [
  | inl e ↦ rw (e, sum_where-append test field ts t) (omega int_laws)
  | inr e ↦ rw (e, sum_where-append test field ts t) refl
]

pub balance_of-write :
    (i : ℕ) (ts : List Transaction) (t : Transaction)
    → balance_of i (ts ++ t ∷ []) ≡ balance_of i ts +ℤ effect i t.entry
unfolding balance_of income payments taxincome
balance_of-write i ts t =
    rw
      (
        sum_where-append (λ (x : Transaction). refers_to i x.recipient)
            (λ (x : Transaction). x.amount_received) ts t,
        sum_where-append (λ (x : Transaction). i == x.tax_recipient)
            (λ (x : Transaction). x.amount_tax) ts t,
        sum_where-append (λ (x : Transaction). refers_to i x.sender)
            (λ (x : Transaction). x.amount_sent) ts t,
      )
      (omega int_laws)

sum_where-cons :
    (test : Transaction → Bool) (field : Transaction → ℤ) (t : Transaction) (ts : List Transaction)
    → sum_where test field (t ∷ ts) ≡ sum_where test field ts +ℤ amount_if (test t) (field t)
unfolding sum_where
sum_where-cons test field t ts = elim (Bool-cases (test t)) [
  | inl e ↦ rw e (omega int_laws)
  | inr e ↦ rw e (omega int_laws)
]

pub balance_of-nil : (i : ℕ) → balance_of i [] ≡ pos 0
unfolding balance_of income payments taxincome sum_where
balance_of-nil i = omega int_laws

pub balance_of-cons :
    (i : ℕ) (t : Transaction) (ts : List Transaction)
    → balance_of i (t ∷ ts) ≡ balance_of i ts +ℤ effect i t.entry
unfolding balance_of income payments taxincome
balance_of-cons i t ts =
    rw
      (
        sum_where-cons (λ (x : Transaction). refers_to i x.recipient)
            (λ (x : Transaction). x.amount_received) t ts,
        sum_where-cons (λ (x : Transaction). i == x.tax_recipient)
            (λ (x : Transaction). x.amount_tax) t ts,
        sum_where-cons (λ (x : Transaction). refers_to i x.sender)
            (λ (x : Transaction). x.amount_sent) t ts,
      )
      (omega int_laws)
