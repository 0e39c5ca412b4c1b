-- ===== src/Actions/Transactions/Perform.antt =====
-- What performing a transaction that has passed the tests does.
use schulealsstaat.Base.{
  ℕ, suc, ◌≡◌, inl, inr, none, some, [], ◌∷◌, ◌++◌, arith, Bool-cases, if◌then◌else◌,
}
use schulealsstaat.Types.{Student, Entry, ok, database_error}
use schulealsstaat.Server.{Server, say, set_db}
use schulealsstaat.Db.Transactions.{intent, write_db}
use schulealsstaat.Db.Connected.{write_up, write_down}
use schulealsstaat.Actions.Transactions.{perform, transaction_write, transaction_queue}

-- Money is spawned: the entry is stored, and the request is answered twice.
abbrev pub spawned : Entry → ℕ → Server → Server
spawned e rid s = say rid ok (say rid ok (set_db (write_db e) s))

-- The permission is asked for, and the entry waits for it at the end of the queue.
abbrev pub enqueued : ℕ → Entry → ℕ → Server → Server
enqueued sender e rid s = record s {
  db = record db {
    pending = db.pending ++ record { id = db.next_id; sender = sender; time = s.clock } ∷ [];
    next_id = suc db.next_id;
  };
  queue =
      s.queue ++ some (record { trid = db.next_id; sender = sender; entry = e; answer = rid }) ∷ [];
}
  where
    open s use {db}

pub perform_spawn :
    (e : Entry) (rid : ℕ) (s : Server)
    → (perform none e rid s).1
      ≡ (if s.db.connected then spawned e rid s else say rid (database_error "trdb.write") s)
unfolding perform transaction_write
perform_spawn e rid s = elim (Bool-cases s.db.connected) [
  | inl c ↦ ground (arith, write_up s c e rid)
  | inr d ↦ ground (arith, write_down s d e rid)
]

pub perform_enqueue :
    (st : Student) (e : Entry) (rid : ℕ) (s : Server)
    → (perform (some st) e rid s).1 ≡ (
        if s.db.connected then enqueued st.id e rid s else say rid (database_error "trdb.intent") s)
unfolding perform intent transaction_queue
perform_enqueue st e rid s = ground arith
