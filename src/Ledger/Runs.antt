-- ===== src/Ledger/Runs.antt =====
-- A worker over time, with the database connected: the requests `transaction` and
-- `transaction_taxfree`, rounds of the timer, their callbacks one by one in the order of their
-- queries, the expiry of pending transactions, and time that passes.
use schulealsstaat.Base.{ℕ, ◌+◌, ◌≡◌, List, [], ◌∷◌, ◌++◌, sym, subst}
use schulealsstaat.Server.{Server, Crypto}
use schulealsstaat.Db.Transactions.{expire_pending}
use schulealsstaat.Actions.Queue.Defs.{Callback, Loop, move, returns, round}
use schulealsstaat.Actions.Transactions.{Payment, transaction_action, transaction_taxfree}
use schulealsstaat.Ledger.Solvency.{IsSound}
use schulealsstaat.Ledger.Requests.{IsSafe, transaction_action-IsSafe, transaction_taxfree-IsSafe}
use schulealsstaat.Ledger.Chain.{IsSafeLoop, call_next-IsSafeLoop}
use schulealsstaat.Ledger.Rounds.{round-IsSafeLoop}

pub data Event : Type 0 where
  pays pays_taxfree : Payment → ℕ → Event
  -- the timer asks for the permission of every element
  timer : Event
  -- the event loop runs the oldest callback
  continues : Event
  expiry : Event
  passes : ℕ → Event

module _ (c : Crypto) where
  unfoldable pub step : Loop → Event → Loop
  step l (pays p rid) = record l { server = (transaction_action c p rid l.server).1 }
  step l (pays_taxfree p rid) = record l { server = (transaction_taxfree c p rid l.server).1 }
  step l timer = record l { callbacks = l.callbacks ++ round l.server }
  step l continues = move l returns
  step l expiry = record l { server = expire_pending l.server }
  step l (passes t) = record l { server = record l.server { clock = l.server.clock + t } }

  unfoldable pub run : Loop → List Event → Loop
  run l [] = l
  run l (e ∷ es) = run (step l e) es

  -- A round of the timer begins only when the callbacks of the last one have run.
  abbrev pub IsCalm : Loop → Event → Type 0
  IsCalm l (pays p rid) = Unit
  IsCalm l (pays_taxfree p rid) = Unit
  IsCalm l timer = l.callbacks ≡ []
  IsCalm l continues = Unit
  IsCalm l expiry = Unit
  IsCalm l (passes t) = Unit

  abbrev pub AreApart : Loop → List Event → Type 0
  AreApart l [] = Unit
  AreApart l (e ∷ es) = IsCalm l e × AreApart (step l e) es

  unchanged :
      (cs : List Callback) (js : List ℕ) (s : Server) (time : ℕ)
      → IsSafe cs js s
      → IsSafe cs js (record s { clock = time })
  unchanged cs js s time h = record {
    sound = record {
      configured = h.sound.configured;
      solvent = h.sound.solvent;
      queue_fair = h.sound.queue_fair;
      stored_fair = h.sound.stored_fair;
      queue_ids = h.sound.queue_ids;
    };
    fit = h.fit;
  }

  expired :
      (cs : List Callback) (js : List ℕ) (s : Server)
      → IsSafe cs js s
      → IsSafe cs js (expire_pending s)
  unfolding expire_pending
  expired cs js s h = record {
    sound = record {
      configured = h.sound.configured;
      solvent = h.sound.solvent;
      queue_fair = h.sound.queue_fair;
      stored_fair = h.sound.stored_fair;
      queue_ids = h.sound.queue_ids;
    };
    fit = h.fit;
  }

  step-IsSafeLoop : (l : Loop) (e : Event) → IsCalm l e → IsSafeLoop l → IsSafeLoop (step l e)
  unfolding step move
  step-IsSafeLoop l (pays p rid) _ (js, h, d) =
      (js, transaction_action-IsSafe l.callbacks js c p rid l.server h, d)
  step-IsSafeLoop l (pays_taxfree p rid) _ (js, h, d) =
      (js, transaction_taxfree-IsSafe l.callbacks js c p rid l.server h, d)
  step-IsSafeLoop l timer calm (js, h, d) =
      subst (λ cs. IsSafeLoop (record { server = l.server; callbacks = cs ++ round l.server }))
        (sym calm) (round-IsSafeLoop l.server h.sound)
  step-IsSafeLoop l continues _ h = call_next-IsSafeLoop l.server l.callbacks h
  step-IsSafeLoop l expiry _ (js, h, d) = (js, expired l.callbacks js l.server h, d)
  step-IsSafeLoop l (passes t) _ (js, h, d) =
      (js, unchanged l.callbacks js l.server (l.server.clock + t) h, d)

  run-IsSafeLoop :
      (l : Loop) (es : List Event) → AreApart l es → IsSafeLoop l → IsSafeLoop (run l es)
  unfolding run
  run-IsSafeLoop l [] _ h = h
  run-IsSafeLoop l (e ∷ es) (calm, apart) h =
      run-IsSafeLoop (step l e) es apart (step-IsSafeLoop l e calm h)

  -- Start with a sound server and no callback under way. However the requests `transaction` and
  -- `transaction_taxfree`, rounds of the timer, the single callbacks of a round in the order of
  -- their queries, the expiry of pending transactions and the clock interleave, as long as no round
  -- begins before the callbacks of the last one have run, the server stays sound: no balance is
  -- negative, every queued or stored entry charges its sender what the others get, and no two queued
  -- ones have the same number.
  pub run-IsSound :
      (s : Server) (es : List Event)
      → IsSound s
      → AreApart (record { server = s; callbacks = [] }) es
      → IsSound (run (record { server = s; callbacks = [] }) es).server
  run-IsSound s es h apart =
      let (js, safe, _) =
        run-IsSafeLoop (record { server = s; callbacks = [] }) es apart
          ([], record { sound = h; fit = tt }, tt) in
      safe.sound
