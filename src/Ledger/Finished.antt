-- ===== src/Ledger/Finished.antt =====
-- server/api/actions/transactions.js: how a round begins, and how long its callbacks last.
use schulealsstaat.Base.{
  ℕ, zero, suc, ◌+◌, ◌*◌, ◌≤◌, ◌<◌, ◌≡◌, refl, sym, ap, subst, inl, inr, true, false, Option, none,
  some, List, [], ◌∷◌, ◌++◌, arith, All, All-append, length, Bool-cases, ◌==◌, ==_iff, if_cases,
  if◌then◌else◌,
}
use schulealsstaat.Base.Int.{pos, ◌-ℤ◌, ltb_ℤ}
use schulealsstaat.Server.{Server, Queued}
use schulealsstaat.Db.Transactions.{is_oldest}
use schulealsstaat.Actions.Queue.Defs.{
  Callback, Loop, permitted, balance_read, written, ask, asks, round, call, read_balance, move,
  finish, tick, queued_at, failures,
}
use schulealsstaat.Ledger.Answers.{answered}
use schulealsstaat.Ledger.Settled.{IsAway, HasOne, IsCared, at_inside, finish-IsCared}

-- How many callbacks a callback leads to, itself included, at most.
abbrev cost : Callback → ℕ
cost (permitted k trid) = 3
cost (balance_read k trid q bal) = 2
cost (written k trid q) = 1

abbrev costs : List Callback → ℕ
costs [] = 0
costs (c ∷ cs) = cost c + costs cs

costs-append : (cs ds : List Callback) → costs (cs ++ ds) ≡ costs cs + costs ds
costs-append [] ds = omega arith
costs-append (c ∷ cs) ds = omega (arith, costs-append cs ds)

read_balance-cost :
    (k trid : ℕ) (s : Server) (o : Option Queued) → costs (read_balance k trid s o).1 < 3
read_balance-cost k trid s none = omega arith
read_balance-cost k trid s (some q) = omega arith

call-cost : (c : Callback) (s : Server) → costs (call c s).1 < cost c
unfolding call
call-cost (permitted k trid) s = read_balance-cost k trid s (queued_at k s)
call-cost (balance_read k trid q bal) s =
    if_cases (λ (r : Server × List Callback). costs r.1 < 2)
      (ltb_ℤ (bal -ℤ q.entry.amount_sent) (pos 0)) (λ _. omega arith) (λ _. omega arith)
call-cost (written k trid q) s = omega arith

finish_ends :
    (n : ℕ) (s : Server) (cs : List Callback)
    → costs cs ≤ n
    → (finish n (record { server = s; callbacks = cs })).callbacks ≡ []
unfolding finish move
finish_ends zero s [] h = refl
finish_ends zero s (permitted k trid ∷ cs) h = absurd (omega (arith, h))
finish_ends zero s (balance_read k trid q bal ∷ cs) h = absurd (omega (arith, h))
finish_ends zero s (written k trid q ∷ cs) h = absurd (omega (arith, h))
finish_ends (suc n) s [] h = finish_ends n s [] (omega arith)
finish_ends (suc n) s (c ∷ cs) h =
    finish_ends n (call c s).0 (cs ++ (call c s).1)
      (omega (arith, h, call-cost c s, costs-append cs (call c s).1))

module _ (s : Server) where
  ask-costs : (j : ℕ) (o : Option Queued) → queued_at j s ≡ o → costs (ask j s) ≤ 3
  unfolding ask
  ask-costs j none e = rw (ask, e) (omega arith)
  ask-costs j (some q) e =
      rw (ask, e)
        (if_cases (λ cs. costs cs ≤ 3) (is_oldest q.trid q.sender s.db.pending) (λ _. omega arith)
          (λ _. omega arith))

  asks-costs : (n j : ℕ) → costs (asks n j s) ≤ 3 * n
  unfolding asks
  asks-costs zero j = omega arith
  asks-costs (suc n) j = omega (
    arith,
    costs-append (ask j s) (asks n (suc j) s),
    ask-costs j (queued_at j s) refl,
    asks-costs n (suc j),
  )

  ask-IsAway :
      (i j : ℕ) (o : Option Queued)
      → queued_at j s ≡ o
      → (j == i) ≡ false
      → All (IsAway i) (ask j s)
  unfolding ask
  ask-IsAway i j none e a = rw (ask, e) tt
  ask-IsAway i j (some q) e a =
      rw (ask, e)
        (if_cases (λ cs. All (IsAway i) cs) (is_oldest q.trid q.sender s.db.pending) (λ _. (a, tt))
          (λ _. tt))

  asks-IsAway : (i n j : ℕ) → i < j → All (IsAway i) (asks n j s)
  unfolding asks
  asks-IsAway i zero j l = tt
  asks-IsAway i (suc n) j l =
      All-append (IsAway i) (ask j s) (asks n (suc j) s)
        (ask-IsAway i j (queued_at j s) refl (ground (arith, l, ==_iff j i)))
        (asks-IsAway i n (suc j) (omega (arith, l)))

  module _ (i : ℕ) (pe : Queued) (q : queued_at i s ≡ some pe)
      (old : is_oldest pe.trid pe.sender s.db.pending ≡ true) where
    ask_own : ask i s ≡ permitted i pe.trid ∷ []
    unfolding ask
    ask_own = rw (ask, q, old) refl

    HasOne-behind :
        (cs ds : List Callback) → All (IsAway i) cs → HasOne i pe ds → HasOne i pe (cs ++ ds)
    HasOne-behind [] ds a h = h
    HasOne-behind (c ∷ cs) ds (a, as') h = inr (a, HasOne-behind cs ds as' h)

    asks_own : (n j : ℕ) → j ≤ i → i < j + n → HasOne i pe (asks n j s)
    unfolding asks
    asks_own zero j le l = absurd (omega (arith, le, l))
    asks_own (suc n) j le l = elim (Bool-cases (j == i)) [
      | inl e ↦
          let same : i ≡ j = ground (arith, ==_iff j i) in
          subst (λ x. HasOne i pe (ask x s ++ asks n (suc j) s)) same
            (subst (λ cs. HasOne i pe (cs ++ asks n (suc j) s)) (sym ask_own)
              (inl ((pe.trid, inl refl), asks-IsAway i n (suc j) (omega (arith, same)))))
      | inr e ↦
          HasOne-behind (ask j s) (asks n (suc j) s) (ask-IsAway i j (queued_at j s) refl e)
            (asks_own n (suc j) (ground (arith, le, ==_iff j i, e)) (omega (arith, l)))
    ]

    round-IsCared : IsCared i pe (record { server = s; callbacks = round s })
    unfolding round
    round-IsCared =
        inr (q, asks_own (length s.queue) 0 (omega arith) (omega (arith, at_inside s.queue i pe q)))

tick_up :
    (s : Server)
    → s.db.connected ≡ true
    → tick s ≡ (finish (3 * length s.queue) (record { server = s; callbacks = round s })).server
unfolding tick
tick_up s up =
    ap
      (λ b.
        if b
        then (finish (3 * length s.queue) (record { server = s; callbacks = round s })).server
        else failures s.queue s)
      up

round-costs : (s : Server) → costs (round s) ≤ 3 * length s.queue
unfolding round
round-costs s = asks-costs s (length s.queue) 0

-- If the database is connected, a round whose callbacks run before anything else comes to an end:
-- the bound of `tick` is enough for all of them. Every element of the queue that was the oldest
-- pending one of its sender when the round began is then gone from the queue, and its request has
-- been answered.
pub oldest_served :
    (i : ℕ) (pe : Queued) (s : Server)
    → s.db.connected ≡ true
    → queued_at i s ≡ some pe
    → is_oldest pe.trid pe.sender s.db.pending ≡ true
    → ((finish (3 * length s.queue) (record { server = s; callbacks = round s })).callbacks ≡ [])
      × (queued_at i (tick s) ≡ none)
      × (0 < answered pe.answer (tick s).answers)
oldest_served i pe s up q old =
    let l : Loop = record { server = s; callbacks = round s } in
    let done = finish_ends (3 * length s.queue) s (round s) (round-costs s) in
    let (gone, told) =
      served (finish (3 * length s.queue) l) done
        (finish-IsCared i pe (3 * length s.queue) l (round-IsCared s i pe q old)) in
    (
      done,
      subst (λ s'. queued_at i s' ≡ none) (sym (tick_up s up)) gone,
      subst (λ s'. 0 < answered pe.answer s'.answers) (sym (tick_up s up)) told,
    )
  where
    served :
        (l : Loop)
        → l.callbacks ≡ []
        → IsCared i pe l
        → (queued_at i l.server ≡ none) × (0 < answered pe.answer l.server.answers)
    served l done (inl h) = h
    served l done (inr (_, h)) = elim (subst (HasOne i pe) done h) [ ]
