-- ===== src/Server/Defs.antt =====
-- The state of an API worker with the database that it talks to, and the monad of its callbacks.
-- A handler answers through a request's number; the callback chain of a query that fails stops,
-- after `DB_error` (server/api/db/index.js) has answered.
use schulealsstaat.Base.{ℕ, String, Bool, Option, none, some, List, [], ◌∷◌, ◌++◌, if◌then◌else◌}
use schulealsstaat.Types.{
  Student, Entry, Transaction, PendingTransaction, Percent, Answer, database_error,
}

-- The configuration values that the actions read by `config.get`, as numbers and texts.
pub record Settings : Type 0 where
  pub hgc_tr_decimal_places : ℕ
  pub hgc_decimal_places : ℕ
  pub taxinc_qrid : String
  pub transaction_tax_percent : Percent
  pub tr_comment_maxlen : ℕ
  pub magic_account : String
  pub poll_max : ℕ
  pub pending_timeout : ℕ

pub record Db : Type 0 where
  pub students : List Student
  pub transactions : List Transaction
  pub pending : List PendingTransaction
  pub next_id : ℕ
  -- whether queries succeed
  pub connected : Bool

-- An element of `pending_transactions`.
pub record Queued : Type 0 where
  pub trid : ℕ
  pub sender : ℕ
  pub entry : Entry
  pub answer : ℕ

-- An element of `polls`.
pub record Poll : Type 0 where
  pub answer : ℕ
  pub date : ℕ
  pub qrid : String

-- `delete a[i]` leaves a hole, which is `none`.
pub record Server : Type 0 where
  pub db : Db
  pub settings : Settings
  pub queue : List (Option Queued)
  pub polls : List (Option Poll)
  -- what was answered, oldest first
  pub answers : List (ℕ × Answer)
  pub clock : ℕ
  -- how often `crypto.randomBytes` was called
  pub random_calls : ℕ

-- What the server uses of node's crypto module: SHA-256 in hexadecimal, and the text of the n-th
-- call of `randomBytes` for a number of bytes.
pub record Crypto : Type 0 where
  pub sha256 : String → String
  pub random_bytes : ℕ → ℕ → String

abbrev pub Action : Type 0 → Type 0
Action A = Server → Option A × Server

-- What follows a step: the rest of the chain, unless it has stopped.
abbrev pub then_run : {A B : Type 0} → (A → Action B) → Option A × Server → Option B × Server
then_run f (none, s) = (none, s)
then_run f (some a, s) = f a s

infixl 5 ◌>>=◌ ◌>>◌
abbrev pub ◌>>=◌ : {A B : Type 0} → Action A → (A → Action B) → Action B
◌>>=◌ m f s = then_run f (m s)

abbrev pub ◌>>◌ : {A B : Type 0} → Action A → Action B → Action B
m >> k = m >>= λ _. k

abbrev pub pure : {A : Type 0} → A → Action A
pure a s = (some a, s)

abbrev pub gets : {A : Type 0} → (Server → A) → Action A
gets f s = (some (f s), s)

abbrev pub modify : (Server → Server) → Action (Unit {0})
modify f s = (some tt, f s)

abbrev pub say : ℕ → Answer → Server → Server
say rid a s = record s { answers = s.answers ++ (rid, a) ∷ [] }

-- `answer(a)`
abbrev pub answer : ℕ → Answer → Action (Unit {0})
answer rid a = modify (say rid a)

-- `answer(a); return;`
abbrev pub refuse : {A : Type 0} → ℕ → Answer → Action A
refuse rid a s = (none, say rid a s)

abbrev pub refuse_if : Bool → ℕ → Answer → Action (Unit {0})
refuse_if b rid a s = if b then refuse rid a s else (some tt, s)

-- `if (!x) { answer(a); return; }`
abbrev pub some_or_refuse : {A : Type 0} → Option A → ℕ → Answer → Action A
some_or_refuse none rid a s = refuse rid a s
some_or_refuse (some x) rid a s = pure x s

-- `if (b) m else k`
abbrev pub branch : {A : Type 0} → Bool → Action A → Action A → Action A
branch b m k s = if b then m s else k s

-- `DB_error` as the caller of a query sees it: it answers, and no callback follows.
abbrev pub db_error : {A : Type 0} → String → ℕ → Action A
db_error component rid = refuse rid (database_error component)

-- A query: its callback runs if the database answers.
unfoldable pub query : {A : Type 0} → String → ℕ → (Db → A) → Action A
query component rid f s = if s.db.connected then (some (f s.db), s) else db_error component rid s

abbrev pub set_db : (Db → Db) → Server → Server
set_db f s = record s { db = f s.db }

-- A write that the callback waits for.
unfoldable pub command : String → ℕ → (Db → Db) → Action (Unit {0})
command component rid f s =
    if s.db.connected then (some tt, set_db f s) else db_error component rid s

-- A write whose failure is only logged, as in `st.save()`.
unfoldable pub command_silent : (Db → Db) → Action (Unit {0})
command_silent f s = if s.db.connected then (some tt, set_db f s) else (some tt, s)
