-- ===== src/Actions/Queue/Overlap.antt =====
-- Rounds of the timer that overlap: a second one begins before the callbacks of the first have run.
use schulealsstaat.Base.{ℕ, suc, ◌≡◌, true, false, some, List, [], ◌∷◌, ◌++◌, arith, ◌==◌}
use schulealsstaat.Base.Int.{pos, ◌+ℤ◌, ◌-ℤ◌, ◌≤ℤ◌, int_laws}
use schulealsstaat.Types.{Entry, Transaction, ok}
use schulealsstaat.Server.{Server, Queued, set_db}
use schulealsstaat.Db.Transactions.{balance_of, is_oldest, write_db, refers_to}
use schulealsstaat.Db.Balance.{effect, balance_of-write}
use schulealsstaat.Actions.Queue.Defs.{
  ask, call, Move, move, moves, fires, returns, queued_at, is_short,
}

-- Two rounds reach the same element before the first one's queries have returned.
abbrev pub overlapping : ℕ → List Move
overlapping i = fires i ∷ fires i ∷ returns ∷ returns ∷ returns ∷ returns ∷ returns ∷ returns ∷ []

abbrev pub twice : Entry → Server → Server
twice e s = set_db (write_db e) (set_db (write_db e) s)

-- Whenever an element is queued, its sender's oldest pending one, and covered by the balance,
-- two overlapping rounds store its transaction twice and answer twice.
pub overlapping_stores_twice :
    (i : ℕ) (pe : Queued) (s : Server)
    → queued_at i s ≡ some pe
    → is_oldest pe.trid pe.sender s.db.pending ≡ true
    → is_short pe s ≡ false
    → let end = (moves (record { server = s; callbacks = [] }) (overlapping i)).server in
      (end.db.transactions ≡ (twice pe.entry s).db.transactions)
      × (end.answers ≡ (s.answers ++ (pe.answer, ok) ∷ []) ++ (pe.answer, ok) ∷ [])
unfolding moves move call ask
overlapping_stores_twice i pe s e o b = (ground arith, ground arith)

charged :
    (j : ℕ) (e : Entry)
    → refers_to j e.sender ≡ true
    → refers_to j e.recipient ≡ false
    → (j == e.tax_recipient) ≡ false
    → effect j e ≡ (pos 0 +ℤ pos 0) -ℤ e.amount_sent
charged j e s r t = rw (s, r, t)

-- A sender who can pay the amount of a queued element that may be executed, but not twice, and
-- who gets nothing back from it as its recipient or by its tax, ends below zero after two
-- overlapping rounds.
pub overlapping_overdraws :
    (i : ℕ) (pe : Queued) (s : Server)
    → queued_at i s ≡ some pe
    → is_oldest pe.trid pe.sender s.db.pending ≡ true
    → is_short pe s ≡ false
    → refers_to pe.sender pe.entry.sender ≡ true
    → refers_to pe.sender pe.entry.recipient ≡ false
    → (pe.sender == pe.entry.tax_recipient) ≡ false
    → ¬ (pe.entry.amount_sent +ℤ pe.entry.amount_sent ≤ℤ balance_of pe.sender s.db.transactions)
    → let end = (moves (record { server = s; callbacks = [] }) (overlapping i)).server in
      ¬ (pos 0 ≤ℤ balance_of pe.sender end.db.transactions)
overlapping_overdraws i pe s e o b fs fr ft short h =
    let both = (overlapping_stores_twice i pe s e o b).0 in
    let one : Transaction = record { id = s.db.next_id; entry = pe.entry } in
    let two : Transaction = record { id = suc s.db.next_id; entry = pe.entry } in
    let after =
      rw
        (
          both,
          balance_of-write pe.sender (s.db.transactions ++ one ∷ []) two,
          balance_of-write pe.sender s.db.transactions one,
          charged pe.sender pe.entry fs fr ft,
        )
        at h in
    short (omega (int_laws, after))
