-- ===== src/Actions/Polling.antt =====
-- server/api/actions/polling.js: clients wait for transactions to a QR-ID. A timestamp is a
-- number of milliseconds.
use schulealsstaat.Base.{
  ℕ, zero, suc, String, Bool, true, false, not, ◌&&◌, Option, none, some, List, [], ◌∷◌, ◌++◌,
  str_eq, any, get_elem?, set, ltb, is_some, if◌then◌else◌,
}
use schulealsstaat.Base.Int.{pos}
use schulealsstaat.Types.{
  Transaction, Answer, invalid_qrid, invalid_password, invalid_date, timeout,
}
use schulealsstaat.Server.{
  Server, Poll, Crypto, Action, ◌>>=◌, ◌>>◌, modify, say, refuse_if, some_or_refuse,
}
use schulealsstaat.Db.Students.{get_certain_by_qrid_lean}
use schulealsstaat.Db.Transactions.{latest}
use schulealsstaat.Actions.Common.{check_password}
pub mod Laws
pub mod Answered

abbrev pub add_poll : Poll → Server → Server
add_poll p s = record s { polls = s.polls ++ some p ∷ [] }

-- `transactions_poll`. A date that is missing or not a finite number is `none`.
unfoldable pub transactions_poll : Crypto → String → String → Option ℕ → ℕ → Action (Unit {0})
transactions_poll c qrid password date rid = do
  st ← some_or_refuse (← get_certain_by_qrid_lean qrid rid) rid invalid_qrid
  refuse_if (not (check_password c st password)) rid invalid_password
  d ← some_or_refuse date rid invalid_date
  modify (add_poll (record { answer = rid; date = d; qrid = qrid }))

abbrev pub poll_at : ℕ → Server → Option Poll
poll_at idx s = elim (get_elem? s.polls idx) [ none ↦ none | some o ↦ o ]

-- `delete polls[idx]`
abbrev pub delete_poll : ℕ → Server → Server
delete_poll idx s = record s { polls = set s.polls idx none }

-- `polls[idx].answer(a)` and `delete polls[idx]`, if the poll is still there.
unfoldable pub finish_poll : ℕ → Answer → Server → Server
finish_poll idx a s = elim (poll_at idx s) [
  | none ↦ s
  | some p ↦ delete_poll idx (say p.answer a s)
]

-- The callback of `setTimeout`. An index is never used again, so the request that the callback
-- was made for is the one of the poll at its index.
unfoldable pub poll_timeout : ℕ → Server → Server
poll_timeout idx s = finish_poll idx timeout s

-- `handleDbPollAnswer`
unfoldable pub handle_db_poll_answer : List Transaction → ℕ → Server → Server
handle_db_poll_answer trgroup idx s = finish_poll idx (Answer.transactions trgroup) s

-- One condition of `query.$or`.
abbrev pub asks_for : Transaction → Option Poll → Bool
asks_for t none = false
asks_for t (some p) = ltb p.date t.time && str_eq p.qrid t.recipient.qrid

abbrev pub poll_query : List (Option Poll) → Transaction → Bool
poll_query polls t = any (asks_for t) polls

-- An object whose values are arrays, with its keys in the order of their creation:
-- `if (!groups[key]) groups[key] = []; groups[key].push(v)`
module _ {V : Type 0} where
  unfoldable pub push_group : String → V → List (String × List V) → List (String × List V)
  push_group key v [] = (key, v ∷ []) ∷ []
  push_group key v ((k, vs) ∷ gs) =
      let rest = push_group key v gs in
      if str_eq k key then (k, vs ++ v ∷ []) ∷ gs else (k, vs) ∷ rest

  unfoldable pub find_group : String → List (String × List V) → List V
  find_group key [] = []
  find_group key ((k, vs) ∷ gs) = if str_eq k key then vs else find_group key gs

-- `qrid_to_indices`, from an index on.
unfoldable pub index_polls :
    ℕ → List (Option Poll) → List (String × List ℕ) → List (String × List ℕ)
index_polls idx [] is = is
index_polls idx (none ∷ ps) is = index_polls (suc idx) ps is
index_polls idx (some p ∷ ps) is = index_polls (suc idx) ps (push_group p.qrid idx is)

-- `groups`
unfoldable pub group_transactions :
    List Transaction → List (String × List Transaction) → List (String × List Transaction)
group_transactions [] gs = gs
group_transactions (t ∷ ts) gs = group_transactions ts (push_group t.recipient.qrid t gs)

unfoldable pub answer_indices : List Transaction → List ℕ → Server → Server
answer_indices trs [] s = s
answer_indices trs (i ∷ is) s = answer_indices trs is (handle_db_poll_answer trs i s)

unfoldable pub answer_groups :
    List (String × List ℕ) → List (String × List Transaction) → Server → Server
answer_groups indices [] s = s
answer_groups indices ((qrid, trs) ∷ gs) s =
    answer_groups indices gs (answer_indices trs (find_group qrid indices) s)

-- What follows when the round's query returns; the indices are those of the round's beginning.
unfoldable pub polls_found : List (String × List ℕ) → List Transaction → Server → Server
polls_found indices trlist s = answer_groups indices (group_transactions trlist []) s

-- A round of the interval whose query returns before anything else happens. An error of the
-- database is not answered.
unfoldable pub poll_round : Server → Server
poll_round s =
    if any is_some s.polls && s.db.connected
    then polls_found (index_polls zero s.polls [])
        (latest (poll_query s.polls) (pos s.settings.poll_max) s.db.transactions) s
    else s
