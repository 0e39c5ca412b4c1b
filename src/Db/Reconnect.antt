-- ===== src/Db/Reconnect.antt =====
-- server/api/db/index.js: losing the database connection and the timer that connects again. The
-- events of mongoose are inputs; the console log is left out.
pub mod Timer
use schulealsstaat.Base.{
  ℕ, zero, suc, Bool, true, false, not, Option, none, some, List, [], ◌∷◌, ◌++◌, keep, any, ◌==◌,
  if◌then◌else◌,
}

-- The module's variables, the timers that run (each with its interval in milliseconds), the number
-- of the next one, how often `db_connect` was called, and whether `ready` is exported.
pub record Connection : Type 0 where
  pub failedstate : Bool
  pub reconnect_interval : Option ℕ
  pub timers : List (ℕ × ℕ)
  pub next_timer : ℕ
  pub connects : ℕ
  pub ready : Bool

-- `mongoose.connect`, whose outcome is an event of its own.
unfoldable pub db_connect : Connection → Connection
db_connect c = record c { connects = suc c.connects }

-- `setInterval(db_connect, interval)`
unfoldable pub set_interval : ℕ → Connection → Connection
set_interval interval c = record c {
  reconnect_interval = some c.next_timer;
  timers = c.timers ++ (c.next_timer, interval) ∷ [];
  next_timer = suc c.next_timer;
}

unfoldable pub clear_interval : Connection → Connection
clear_interval c = elim c.reconnect_interval [
  | none ↦ c
  | some k ↦ record c { timers = keep (λ (t : ℕ × ℕ). not (t.0 == k)) c.timers }
]

-- The assignments that all failures have in common.
unfoldable pub fail : ℕ → Connection → Connection
fail interval c =
    let watched = if c.failedstate then c else set_interval interval c in
    record watched { failedstate = true }

-- The handlers of `open` and `reconnected`.
unfoldable pub recover : Connection → Connection
recover c =
    let cleared = if c.failedstate then clear_interval c else c in
    record cleared { failedstate = false }

pub data Event : Type 0 where
  -- the callback of `mongoose.connect`, with an error or without
  connect_failed connected : Event
  -- the events of the connection
  on_error on_open on_disconnect on_reconnected : Event
  -- a query that ends in `DB_error`
  query_failed : Event
  -- a round of the timer of a number, if it runs
  fires : ℕ → Event

-- The interval of the callback is `settings.mongodb_reconnect_interval`.
module _ (mongodb_reconnect_interval : ℕ) where
  unfoldable pub step : Event → Connection → Connection
  step connect_failed c = fail mongodb_reconnect_interval c
  step connected c = c
  step on_error c = fail 2000 c
  step on_open c = record (recover c) { ready = true }
  step on_disconnect c = fail 2000 c
  step on_reconnected c = recover c
  step query_failed c = fail 2000 c
  step (fires k) c = if any (λ (t : ℕ × ℕ). t.0 == k) c.timers then db_connect c else c

  unfoldable pub run : List Event → Connection → Connection
  run [] c = c
  run (e ∷ es) c = run es (step e c)

-- When the module is loaded, and after its call of `db_connect`.
abbrev pub loaded : Connection
loaded = db_connect (record {
  failedstate = false;
  reconnect_interval = none;
  timers = [];
  next_timer = 0;
  connects = 0;
  ready = false;
})
