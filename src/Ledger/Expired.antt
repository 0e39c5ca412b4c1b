-- ===== src/Ledger/Expired.antt =====
-- Payments whose pending transaction the database has removed.
use schulealsstaat.Base.{
  ℕ, zero, suc, ◌++◌, if◌then◌else◌, ◌+◌, ◌<◌, ◌≡◌, refl, ap, ◌∙◌, ◌*◌, keep, leb, true, List, [],
  ◌∷◌, length, All, arith, inl, inr, Option-cases,
}
use schulealsstaat.Types.{PendingTransaction}
use schulealsstaat.Server.{Server}
use schulealsstaat.Db.Transactions.{expire_pending}
use schulealsstaat.Actions.Queue.Defs.{queued_at, ask, asks, round, finish, failures, move, tick}

no_permission : (i : ℕ) (s : Server) → s.db.pending ≡ [] → ask i s ≡ []
unfolding ask
no_permission i s none_left = elim (Option-cases (queued_at i s)) [
  | inl e ↦ rw (ask, e) refl
  | inr (pe, e) ↦ rw (ask, e, none_left) refl
]

no_permissions : (n i : ℕ) (s : Server) → s.db.pending ≡ [] → asks n i s ≡ []
unfolding asks
no_permissions zero i s none_left = refl
no_permissions (suc n) i s none_left =
    ap (λ cs. cs ++ asks n (suc i) s) (no_permission i s none_left)
    ∙ no_permissions n (suc i) s none_left

finish_nothing :
    (n : ℕ) (s : Server) → (finish n (record { server = s; callbacks = [] })).server ≡ s
unfolding finish move
finish_nothing zero s = refl
finish_nothing (suc n) s = finish_nothing n s

expired_pending :
    (now timeout : ℕ) (ps : List PendingTransaction)
    → All (λ (p : PendingTransaction). p.time + 1000 * timeout < now) ps
    → keep (λ (p : PendingTransaction). leb now (p.time + 1000 * timeout)) ps ≡ []
expired_pending now timeout [] h = refl
expired_pending now timeout (p ∷ ps) (h, hs) = ground (arith, expired_pending now timeout ps hs)

-- If every pending transaction is older than the timeout, its expiry leaves the worker stuck: a timer
-- round after it changes nothing, so the payments that waited are neither settled nor answered,
-- although the database is connected.
pub expired_waits_for_ever :
    (s : Server)
    → s.db.connected ≡ true
    → All
        (λ (p : PendingTransaction). p.time + 1000 * s.settings.pending_timeout < s.clock)
        s.db.pending
    → tick (expire_pending s) ≡ expire_pending s
unfolding tick round expire_pending
expired_waits_for_ever s c old =
    let s' = expire_pending s in
    let none_left = expired_pending s.clock s.settings.pending_timeout s.db.pending old in
    ap
      (λ b.
        if b
        then (finish (3 * length s'.queue) (record { server = s'; callbacks = round s' })).server
        else failures s'.queue s')
      c
    ∙ ap (λ cs. (finish (3 * length s'.queue) (record { server = s'; callbacks = cs })).server)
        (no_permissions (length s'.queue) 0 s' none_left)
    ∙ finish_nothing (3 * length s'.queue) s'
