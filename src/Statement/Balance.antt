-- ===== src/Statement/Balance.antt =====
-- The running balance of a full statement and the server's balance.
use schulealsstaat.Base.{
  ℕ, ◌≡◌, refl, sym, ap, ◌∙◌, String, Bool, true, false, ◌&&◌, some, List, [], ◌∷◌, ◌++◌, arith,
  keep, All, ltb, str_eq, inl, inr, Bool-cases, ◌==◌,
}
use mathlib.Core.Path.{ap₂}
use text.Mathlib.TextPositions.{eq_refl}
use schulealsstaat.Base.Int.{
  ℤ, pos, negsuc, pos_part, neg_part, ◌+ℤ◌, ◌-ℤ◌, ◌≤ℤ◌, ltb_ℤ, int_laws, -ℤ_parts,
}
use schulealsstaat.Types.{Student, Transaction, Statement, Answer}
use schulealsstaat.Server.{Server, Crypto, query}
use schulealsstaat.Db.Students.{find_qrid, get_by_qrid_lean}
use schulealsstaat.Db.Transactions.{balance_of, refers_to, latest, get_by_properties}
use schulealsstaat.Db.Balance.{amount_if, effect, balance_of-nil, balance_of-cons}
use schulealsstaat.Actions.Common.{check_password, student_public_only}
use schulealsstaat.Actions.Accounts.{
  statement_of, taxinc_statement, has_tax, is_party, pays_tax_to, statements_of,
  get_last_transactions,
}
use schulealsstaat.Statement.{next_balance, balance_shown, is_sender, is_recipient}
use schulealsstaat.Statement.Sums.{sum_of, sum_of-map, sum_of-append, sum_of-keep, sum_of-sort}

-- What a shown transaction adds to the balance.
abbrev delta : String → Statement → ℤ
delta qrid t =
    amount_if (is_recipient qrid t) t.amount_received -ℤ amount_if (is_sender qrid t) t.amount_sent

next_balance-delta :
    (qrid : String) (t : Statement) (bal : ℤ) → next_balance qrid t bal ≡ bal +ℤ delta qrid t
unfolding next_balance
next_balance-delta qrid t bal = elim (Bool-cases (is_sender qrid t)) [
  | inl e ↦ elim (Bool-cases (is_recipient qrid t)) [
    | inl f ↦ rw (e, f) (omega int_laws)
    | inr f ↦ rw (e, f) (omega int_laws)
  ]
  | inr e ↦ elim (Bool-cases (is_recipient qrid t)) [
    | inl f ↦ rw (e, f) (omega int_laws)
    | inr f ↦ rw (e, f) (omega int_laws)
  ]
]

balance_shown-sum :
    (qrid : String) (ts : List Statement) → balance_shown qrid ts ≡ sum_of (delta qrid) ts
unfolding balance_shown sum_of
balance_shown-sum qrid [] = refl
balance_shown-sum qrid (t ∷ ts) =
    next_balance-delta qrid t (balance_shown qrid ts)
    ∙ ap (λ s. s +ℤ delta qrid t) (balance_shown-sum qrid ts)

balance_of-sum :
    (i : ℕ) (ts : List Transaction)
    → balance_of i ts ≡ sum_of (λ (t : Transaction). effect i t.entry) ts
unfolding sum_of
balance_of-sum i [] = balance_of-nil i
balance_of-sum i (t ∷ ts) =
    balance_of-cons i t ts ∙ ap (λ s. s +ℤ effect i t.entry) (balance_of-sum i ts)

-- The copies of a student in a transaction have the student's QR-ID, and no other account's copies
-- have it; its tax is not negative.
pub record Agrees (st : Student) (t : Transaction) : Type 0 where
  pub sender : str_eq t.sender.qrid st.qrid ≡ refers_to st.id t.sender
  pub recipient : str_eq t.recipient.qrid st.qrid ≡ refers_to st.id t.recipient
  pub tax : pos 0 ≤ℤ t.amount_tax

abbrev as_party : Student → Transaction → ℤ
as_party st t = amount_if (is_party st.id t) (delta st.qrid (statement_of t))

abbrev as_tax_account : Student → Transaction → ℤ
as_tax_account st t =
    amount_if (pays_tax_to st.id t) (amount_if (has_tax t) (delta st.qrid (taxinc_statement st t)))

as_party-effect :
    (st : Student) (t : Transaction)
    → Agrees st t
    → as_party st t
      ≡ amount_if (refers_to st.id t.recipient) t.amount_received
        -ℤ amount_if (refers_to st.id t.sender) t.amount_sent
as_party-effect st t h = elim (Bool-cases (refers_to st.id t.sender)) [
  | inl e ↦ elim (Bool-cases (refers_to st.id t.recipient)) [
    | inl f ↦ rw (h.sender, h.recipient, e, f) refl
    | inr f ↦ rw (h.sender, h.recipient, e, f) refl
  ]
  | inr e ↦ elim (Bool-cases (refers_to st.id t.recipient)) [
    | inl f ↦ rw (h.sender, h.recipient, e, f) refl
    | inr f ↦ rw (h.sender, h.recipient, e, f) (omega int_laws)
  ]
]

tax_if_positive : (a : ℤ) → pos 0 ≤ℤ a → amount_if (ltb_ℤ (pos 0) a) (a -ℤ pos 0) ≡ a
tax_if_positive a h = ground (arith, -ℤ_parts a (pos 0))

and_false : (b : Bool) → (b && false) ≡ false
and_false true = refl
and_false false = refl

taxinc-delta :
    (st : Student) (t : Transaction) → delta st.qrid (taxinc_statement st t) ≡ t.amount_tax -ℤ pos 0
unfolding student_public_only
taxinc-delta st t = rw (eq_refl st.qrid, and_false (str_eq t.sender.qrid st.qrid)) refl

as_tax_account-effect :
    (st : Student) (t : Transaction)
    → Agrees st t
    → as_tax_account st t ≡ amount_if (st.id == t.tax_recipient) t.amount_tax
as_tax_account-effect st t h = elim (Bool-cases (st.id == t.tax_recipient)) [
  | inl e ↦ rw (e, taxinc-delta st t) (tax_if_positive t.amount_tax h.tax)
  | inr e ↦ rw e refl
]

together :
    (st : Student) (ts : List Transaction)
    → All (Agrees st) ts
    → sum_of (as_party st) ts +ℤ sum_of (as_tax_account st) ts
      ≡ sum_of (λ (t : Transaction). effect st.id t.entry) ts
unfolding sum_of
together st [] h = omega int_laws
together st (t ∷ ts) (h, hs) = omega (
  int_laws,
  ap pos_part (together st ts hs),
  ap neg_part (together st ts hs),
  ap pos_part (as_party-effect st t h),
  ap neg_part (as_party-effect st t h),
  ap pos_part (as_tax_account-effect st t h),
  ap neg_part (as_tax_account-effect st t h),
)

all_shown :
    (st : Student) (ts : List Transaction)
    → sum_of (delta st.qrid) (
        statements_of st
          (latest (is_party st.id) (negsuc 0) ts)
          (latest (pays_tax_to st.id) (negsuc 0) ts))
      ≡ sum_of (as_party st) ts +ℤ sum_of (as_tax_account st) ts
unfolding statements_of
all_shown st ts =
    let newer = λ (a b : Transaction). ltb a.time b.time in
    let tax = λ (t : Transaction). amount_if (has_tax t) (delta st.qrid (taxinc_statement st t)) in
    let party = λ (t : Transaction). delta st.qrid (statement_of t) in
    sum_of-append (delta st.qrid) _ _
    ∙ ap₂ ◌+ℤ◌
        (sum_of-map (delta st.qrid) statement_of _
          ∙ sum_of-sort party newer (keep (is_party st.id) ts)
          ∙ sum_of-keep party (is_party st.id) ts)
        (sum_of-map (delta st.qrid) (taxinc_statement st) _
          ∙ sum_of-keep (λ (t : Transaction). delta st.qrid (taxinc_statement st t)) has_tax _
          ∙ sum_of-sort tax newer (keep (pays_tax_to st.id) ts)
          ∙ sum_of-keep tax (pays_tax_to st.id) ts)

-- Where the stored transactions agree with a student's QR-ID and no tax is negative, the running
-- balance over the full list that the server answers ends at the student's balance.
balance_shown_full :
    (st : Student) (ts : List Transaction)
    → All (Agrees st) ts
    → balance_shown st.qrid (
        statements_of st
          (latest (is_party st.id) (negsuc 0) ts)
          (latest (pays_tax_to st.id) (negsuc 0) ts))
      ≡ balance_of st.id ts
balance_shown_full st ts h =
    balance_shown-sum st.qrid _ ∙ all_shown st ts ∙ together st ts h ∙ sym (balance_of-sum st.id ts)

-- The client asks for all transactions. If the database is connected and the password is right, the
-- request is answered once, with a list over which the running balance of the client, for the
-- QR-ID it asked for, ends at the balance that the server computes for the student, whatever order
-- the transactions have and whether or not the account receives taxes, also its own. The copies of
-- students in the stored transactions have to carry the student's present QR-ID, and no stored tax
-- is negative.
pub statement_balance :
    (c : Crypto) (password : String) (rid : ℕ) (s : Server) (st : Student)
    → s.db.connected ≡ true
    → find_qrid st.qrid s.db.students ≡ some st
    → check_password c st password ≡ true
    → All (Agrees st) s.db.transactions
    → (list : List Statement) × ((get_last_transactions c st.qrid password
          (negsuc 0)
          rid
          s).1.answers
        ≡ s.answers ++ (rid, Answer.statements list) ∷ [])
      × (balance_shown st.qrid list ≡ balance_of st.id s.db.transactions)
unfolding get_last_transactions get_by_qrid_lean get_by_properties query
statement_balance c password rid s st up found ok agrees = (
  statements_of st (latest (is_party st.id) (negsuc 0) s.db.transactions)
      (latest (pays_tax_to st.id) (negsuc 0) s.db.transactions),
  rw (up, found, ok) refl,
  balance_shown_full st s.db.transactions agrees,
)
