-- ===== src/Actions/Queue/Defs.antt =====
-- server/api/actions/transactions.js: the timer that executes the queued transactions. A query's
-- callback waits in the event loop, and other callbacks and another round may run before it. The
-- callbacks are those of a connected database, and run in the order in which their queries were sent.
use schulealsstaat.Base.{
  ℕ, zero, suc, ◌*◌, Bool, Option, none, some, List, [], ◌∷◌, ◌++◌, get_elem?, set, length,
  if◌then◌else◌,
}
use schulealsstaat.Base.Int.{ℤ, pos, ◌-ℤ◌, ltb_ℤ}
use schulealsstaat.Types.{ok, nomoney, database_error}
use schulealsstaat.Server.{Server, Queued, say, set_db}
use schulealsstaat.Db.Transactions.{balance_of, is_oldest, write_db, drop_pending}

-- `delete pending_transactions[i]`
abbrev pub delete_queued : ℕ → Server → Server
delete_queued i s = record s { queue = set s.queue i none }

-- `pending_transactions[i]`, if it is there.
abbrev pub queued_at : ℕ → Server → Option Queued
queued_at i s = elim (get_elem? s.queue i) [ none ↦ none | some q ↦ q ]

-- A callback that the event loop has still to run, with what its query returned.
pub data Callback : Type 0 where
  -- `onWritePermission.bind(null, i, trid)`
  permitted : ℕ → ℕ → Callback
  -- the callback of `getBalance`, for the element read before, with the balance
  balance_read : ℕ → ℕ → Queued → ℤ → Callback
  -- the callback of `write`
  written : ℕ → ℕ → Queued → Callback

pub record Loop : Type 0 where
  pub server : Server
  pub callbacks : List Callback

-- What the timer does at one element: it asks for the permission.
unfoldable pub ask : ℕ → Server → List Callback
ask i s = elim (queued_at i s) [
  | none ↦ []
  | some pe ↦ if is_oldest pe.trid pe.sender s.db.pending then permitted i pe.trid ∷ [] else []
]

abbrev pub read_balance : ℕ → ℕ → Server → Option Queued → Server × List Callback
read_balance i trid s none = (s, [])
read_balance i trid s (some pe) =
    (s, balance_read i trid pe (balance_of pe.sender s.db.transactions) ∷ [])

-- A callback changes the server and starts the next query.
unfoldable pub call : Callback → Server → Server × List Callback
call (permitted i trid) s = read_balance i trid s (queued_at i s)
call (balance_read i trid pe bal) s =
    if ltb_ℤ (bal -ℤ pe.entry.amount_sent) (pos 0)
    then (delete_queued i (set_db (drop_pending trid) (say pe.answer nomoney s)), [])
    else (set_db (write_db pe.entry) s, written i trid pe ∷ [])
call (written i trid pe) s = (set_db (drop_pending trid) (delete_queued i (say pe.answer ok s)), [])

abbrev pub call_next : Server → List Callback → Loop
call_next s [] = record { server = s; callbacks = [] }
call_next s (c ∷ cs) = let (s', more) = call c s in record { server = s'; callbacks = cs ++ more }

pub data Move : Type 0 where
  -- the timer reaches an element
  fires : ℕ → Move
  -- the event loop runs the oldest callback
  returns : Move

unfoldable pub move : Loop → Move → Loop
move l (fires i) = record l { callbacks = l.callbacks ++ ask i l.server }
move l returns = call_next l.server l.callbacks

unfoldable pub moves : Loop → List Move → Loop
moves l [] = l
moves l (m ∷ ms) = moves (move l m) ms

-- The loop of a round: it asks for all permissions before any callback runs.
unfoldable pub asks : ℕ → ℕ → Server → List Callback
asks zero i s = []
asks (suc n) i s = ask i s ++ asks n (suc i) s

unfoldable pub round : Server → List Callback
round s = asks (length s.queue) 0 s

-- The oldest callbacks, a number of them.
unfoldable pub finish : ℕ → Loop → Loop
finish zero l = l
finish (suc n) l = finish n (move l returns)

-- What the loop answers while the database is not connected.
abbrev pub fail : Server → Option Queued → Server
fail s none = s
fail s (some pe) = say pe.answer (database_error "trdb.checkWritePermission") s

unfoldable pub failures : List (Option Queued) → Server → Server
failures [] s = s
failures (q ∷ qs) s = failures qs (fail s q)

-- A round of the timer whose callbacks run before anything else happens: each permission leads to
-- three callbacks at most.
unfoldable pub tick : Server → Server
tick s =
    if s.db.connected
    then (finish (3 * length s.queue) (record { server = s; callbacks = round s })).server
    else failures s.queue s

abbrev pub is_short : Queued → Server → Bool
is_short pe s = ltb_ℤ (balance_of pe.sender s.db.transactions -ℤ pe.entry.amount_sent) (pos 0)
