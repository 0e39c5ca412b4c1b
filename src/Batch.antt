-- ===== src/Batch.antt =====
-- The lists of transactions of client/business/site/scripts.js and
-- client/adminpanel/site/maketransaction/scripts.js: rows that are waiting, sent and answered. What
-- a row holds and how it becomes a query differ, and are parameters here.
pub mod Amounts
pub mod Runs
pub mod Business
pub mod Admin
pub mod Totals
use schulealsstaat.Base.{
  ℕ, zero, suc, Bool, true, false, Option, none, some, List, [], ◌∷◌, ◌++◌, map, get_elem?, set,
  if◌then◌else◌,
}
use schulealsstaat.Types.{Answer, ok}

pub data State : Type 0 where
  pending complete nonsense failed : State

-- A transaction object: its state, its `errorcode`, and the rest.
pub record Row (T : Type 0) : Type 0 where
  pub state : State
  pub errorcode : Option Answer
  pub content : T

-- What `makeTransaction` does with a row: it sends a query, marks the row as nonsense, or sends
-- nothing because there is no certificate.
pub data Prepared (Q : Type 0) : Type 0 where
  sends : Q → Prepared Q
  makes_no_sense : Prepared Q
  stays : Prepared Q

-- The list, and the queries that were sent, each with the index that its callback has.
pub record Sheet (T Q : Type 0) : Type 0 where
  pub rows : List (Row T)
  pub sent : List (ℕ × Q)

abbrev pub is_pending : State → Bool
is_pending pending = true
is_pending complete = false
is_pending nonsense = false
is_pending failed = false

abbrev pub is_ok : Answer → Bool
is_ok ok = true
is_ok other = false

module _ {T : Type 0} where
  -- The assignments of the callback to the row at its index.
  abbrev pub with_answer : Answer → Row T → Row T
  with_answer res r =
      if is_ok res
      then record r { state = complete }
      else record r { state = failed; errorcode = some res }

  unfoldable pub answer_at : ℕ → Answer → List (Row T) → List (Row T)
  answer_at tid res [] = []
  answer_at zero res (r ∷ rs) = with_answer res r ∷ rs
  answer_at (suc i) res (r ∷ rs) = r ∷ answer_at i res rs

  -- `transactions.splice(listid, 1)`
  unfoldable pub delete_at : ℕ → List (Row T) → List (Row T)
  delete_at i [] = []
  delete_at zero (r ∷ rs) = rs
  delete_at (suc i) (r ∷ rs) = r ∷ delete_at i rs

  -- The handler of `#make_pending`.
  unfoldable pub make_pending : List (Row T) → List (Row T)
  make_pending [] = []
  make_pending (r ∷ rs) = record r { state = pending } ∷ make_pending rs

  -- `transactions.push(tr)` for a new row.
  unfoldable pub add_row : T → List (Row T) → List (Row T)
  add_row t rs = rs ++ record { state = pending; errorcode = none; content = t } ∷ []

-- What may happen on the page.
pub data Event (T : Type 0) : Type 0 where
  starts : Event T
  answered : ℕ → Answer → Event T
  deletes : ℕ → Event T
  adds : T → Event T
  resets : Event T
  uploads : List (Row T) → Event T

abbrev pub with_query : {Q : Type 0} → Option Q → ℕ → List (ℕ × Q) → List (ℕ × Q)
with_query none i rest = rest
with_query (some q) i rest = (i, q) ∷ rest

module _ {T Q : Type 0} (prepare : T → Prepared Q) where
  abbrev pub started_row : Row T → Row T
  started_row r =
      if is_pending r.state
      then elim (prepare r.content) [
        | sends q ↦ r
        | makes_no_sense ↦ record r { state = nonsense }
        | stays ↦ r
      ]
      else r

  abbrev pub query_of : Row T → Option Q
  query_of r =
      if is_pending r.state
      then elim (prepare r.content) [ sends q ↦ some q | makes_no_sense ↦ none | stays ↦ none ]
      else none

  -- The queries of the loop of `#start`, from an index on.
  unfoldable pub queries_from : ℕ → List (Row T) → List (ℕ × Q)
  queries_from i [] = []
  queries_from i (r ∷ rs) = let rest = queries_from (suc i) rs in with_query (query_of r) i rest

  unfoldable pub start : Sheet T Q → Sheet T Q
  start s = record { rows = map started_row s.rows; sent = s.sent ++ queries_from 0 s.rows }

  unfoldable pub step : Event T → Sheet T Q → Sheet T Q
  step starts s = start s
  step (answered tid res) s = record s { rows = answer_at tid res s.rows }
  step (deletes i) s = record s { rows = delete_at i s.rows }
  step (adds t) s = record s { rows = add_row t s.rows }
  step resets s = record s { rows = make_pending s.rows }
  step (uploads rs) s = record s { rows = rs }

  unfoldable pub steps : List (Event T) → Sheet T Q → Sheet T Q
  steps [] s = s
  steps (e ∷ es) s = steps es (step e s)
