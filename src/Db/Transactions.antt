-- ===== src/Db/Transactions.antt =====
-- server/api/db/transactions.js: the transactions and the collection of pending transactions.
use schulealsstaat.Base.{
  ℕ, suc, ◌+◌, ◌*◌, Bool, true, false, Option, none, some, List, [], ◌∷◌, ◌++◌, first, keep, sort,
  ltb, leb, ◌==◌, if◌then◌else◌,
}
use schulealsstaat.Base.Int.{ℤ, pos, ◌+ℤ◌, ◌-ℤ◌}
use schulealsstaat.Types.{Entry, Transaction, PendingTransaction, Profile}
use schulealsstaat.Server.{Server, Db, Action, query, command, command_silent, set_db, db_error}
use schulealsstaat.Db.Students.{limited}

-- `pt.save()`: the callback gets the new id.
unfoldable pub intent : ℕ → ℕ → Action ℕ
intent sender rid s =
    let pt : PendingTransaction = record { id = s.db.next_id; sender = sender; time = s.clock } in
    if s.db.connected
    then (
      some s.db.next_id,
      set_db (λ db. record db { pending = db.pending ++ pt ∷ []; next_id = suc db.next_id }) s,
    )
    else db_error "trdb.intent" rid s

-- The oldest pending transaction of a sender; of two with one time, the one stored first.
abbrev pub oldest_pending : ℕ → List PendingTransaction → Option PendingTransaction
oldest_pending sender pts =
    first (λ (p : PendingTransaction). true)
      (sort (λ (a b : PendingTransaction). ltb b.time a.time)
        (keep (λ (p : PendingTransaction). p.sender == sender) pts))

abbrev pub is_oldest : ℕ → ℕ → List PendingTransaction → Bool
is_oldest trid sender pts = elim (oldest_pending sender pts) [
  | none ↦ false
  | some p ↦ p.id == trid
]

-- The callback is called only with the permission.
unfoldable pub check_write_permission : ℕ → ℕ → ℕ → Action Bool
check_write_permission trid sender rid =
    query "trdb.checkWritePermission" rid (λ db. is_oldest trid sender db.pending)

abbrev pub write_db : Entry → Db → Db
write_db e db = record db {
  transactions = db.transactions ++ record { id = db.next_id; entry = e } ∷ [];
  next_id = suc db.next_id;
}

unfoldable pub write : Entry → ℕ → Action (Unit {0})
write e rid = command "trdb.write" rid (write_db e)

abbrev pub drop_pending : ℕ → Db → Db
drop_pending trid db = record db {
  pending = keep (λ (p : PendingTransaction). if p.id == trid then false else true) db.pending;
}

unfoldable pub write_complete : ℕ → Action (Unit {0})
write_complete trid = command_silent (drop_pending trid)

-- The index of `time` with `expires`: the database removes what is older than the timeout, in
-- seconds, where the clock counts milliseconds.
unfoldable pub expire_pending : Server → Server
expire_pending s =
    set_db
      (λ db. record db {
        pending =
            keep
              (λ (p : PendingTransaction). leb s.clock (p.time + 1000 * s.settings.pending_timeout))
              db.pending;
      })
      s

unfoldable pub get_by_id : ℕ → ℕ → Action (Option Transaction)
get_by_id i rid =
    query "trdb.getById" rid (λ db. first (λ (t : Transaction). t.id == i) db.transactions)

-- The latest transactions that pass the test, at most `limit` of them.
abbrev pub latest : (Transaction → Bool) → ℤ → List Transaction → List Transaction
latest test limit trs =
    limited limit (sort (λ (a b : Transaction). ltb a.time b.time) (keep test trs))

unfoldable pub get_by_properties : (Transaction → Bool) → ℤ → ℕ → Action (List Transaction)
get_by_properties test limit rid =
    query "trdb.getByProperties (2)" rid (λ db. latest test limit db.transactions)

-- `tr.remove()`
unfoldable pub remove : ℕ → Action (Unit {0})
remove i = command_silent λ db. record db {
  transactions = keep (λ (t : Transaction). if t.id == i then false else true) db.transactions;
}

abbrev pub refers_to : ℕ → Profile → Bool
refers_to i p = elim p.reference [ none ↦ false | some j ↦ i == j ]

-- `{ $match } { $group : { $sum } }`: the sum of a field over the matching transactions.
unfoldable pub sum_where : (Transaction → Bool) → (Transaction → ℤ) → List Transaction → ℤ
sum_where test field [] = pos 0
sum_where test field (t ∷ ts) =
    let rest = sum_where test field ts in if test t then field t +ℤ rest else rest

unfoldable pub income : ℕ → List Transaction → ℤ
unfolding sum_where
income i =
    sum_where (λ (t : Transaction). refers_to i t.recipient)
      (λ (t : Transaction). t.amount_received)

unfoldable pub payments : ℕ → List Transaction → ℤ
unfolding sum_where
payments i =
    sum_where (λ (t : Transaction). refers_to i t.sender) (λ (t : Transaction). t.amount_sent)

unfoldable pub taxincome : ℕ → List Transaction → ℤ
unfolding sum_where
taxincome i =
    sum_where (λ (t : Transaction). i == t.tax_recipient) (λ (t : Transaction). t.amount_tax)

-- What `aggregationComplete` hands on once the three sums are there.
unfoldable pub balance_of : ℕ → List Transaction → ℤ
balance_of i trs = (income i trs +ℤ taxincome i trs) -ℤ payments i trs

-- The three aggregations run at once. Where the database does not answer, each of them fails and
-- calls `DB_error`, so the request is answered three times.
unfoldable pub get_balance : ℕ → ℕ → Action ℤ
get_balance i rid s =
    if s.db.connected
    then (some (balance_of i s.db.transactions), s)
    else (let (r1, s1) = db_error {A = ℤ} "trdb.getBalance (1)" rid s in
        let (r2, s2) = db_error {A = ℤ} "trdb.getBalance (2)" rid s1 in
        db_error "trdb.getBalance (3)" rid s2)
