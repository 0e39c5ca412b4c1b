-- ===== src/Ledger/Settled.antt =====
-- server/api/actions/transactions.js: a round of the timer whose callbacks run before anything else.
use schulealsstaat.Base.{
  ℕ, zero, suc, ◌≤◌, ◌<◌, ◌≡◌, refl, sym, ◌∙◌, subst, ◌⊎◌, inl, inr, false, Option, none, some,
  List, [], ◌∷◌, ◌++◌, arith, All, All-append, length, set, ◌==◌, ==_iff, if_cases,
}
use schulealsstaat.Base.Int.{ℤ, pos, ◌-ℤ◌, ltb_ℤ}
use schulealsstaat.Types.{Answer}
use schulealsstaat.Server.{Server, Queued, say}
use schulealsstaat.Actions.Queue.Defs.{
  Callback, Loop, permitted, balance_read, written, call, call_next, read_balance, move, returns,
  finish, queued_at,
}
use schulealsstaat.Ledger.Callbacks.{at}
use schulealsstaat.Ledger.Answers.{answered, answered-append}

hole_stays : (qs : List (Option Queued)) (i k : ℕ) → at qs i ≡ none → at (set qs k none) i ≡ none
hole_stays [] i k h = h
hole_stays (q ∷ qs) zero zero h = refl
hole_stays (q ∷ qs) zero (suc k) h = h
hole_stays (q ∷ qs) (suc i) zero h = h
hole_stays (q ∷ qs) (suc i) (suc k) h = hole_stays qs i k h

at_own : (qs : List (Option Queued)) (i : ℕ) → at (set qs i none) i ≡ none
at_own [] i = refl
at_own (q ∷ qs) zero = refl
at_own (q ∷ qs) (suc i) = at_own qs i

at_other : (qs : List (Option Queued)) (i k : ℕ) → (k == i) ≡ false → at (set qs k none) i ≡ at qs i
at_other [] i k h = refl
at_other (q ∷ qs) zero zero h = cc
at_other (q ∷ qs) zero (suc k) h = refl
at_other (q ∷ qs) (suc i) zero h = refl
at_other (q ∷ qs) (suc i) (suc k) h =
    at_other qs i k (ground (arith, ==_iff (suc k) (suc i), ==_iff k i))

pub at_inside : (qs : List (Option Queued)) (i : ℕ) (q : Queued) → at qs i ≡ some q → i < length qs
at_inside [] i q h = cc
at_inside (o ∷ qs) zero q h = omega arith
at_inside (o ∷ qs) (suc i) q h = omega (arith, at_inside qs i q h)

abbrev pub index_of : Callback → ℕ
index_of (permitted k trid) = k
index_of (balance_read k trid pe bal) = k
index_of (written k trid pe) = k

abbrev pub IsAway : ℕ → Callback → Type 0
IsAway i c = (index_of c == i) ≡ false

module _ (i : ℕ) (pe : Queued) where
  -- A callback for the element.
  abbrev pub IsMine : Callback → Type 0
  IsMine c =
      (trid : ℕ) × ((c ≡ permitted i trid)
        ⊎ (((bal : ℤ) × (c ≡ balance_read i trid pe bal)) ⊎ (c ≡ written i trid pe)))

  -- Exactly one callback is for the element.
  abbrev pub HasOne : List Callback → Type 0
  HasOne [] = ⊥
  HasOne (c ∷ cs) = (IsMine c × All (IsAway i) cs) ⊎ (IsAway i c × HasOne cs)

  -- The element was answered and taken from the queue, or a callback for it is under way.
  abbrev pub IsServed : Server → Type 0
  IsServed s = (queued_at i s ≡ none) × (0 < answered pe.answer s.answers)

  abbrev pub IsCared : Loop → Type 0
  IsCared l = IsServed l.server ⊎ ((queued_at i l.server ≡ some pe) × HasOne l.callbacks)

  HasOne-append : (cs more : List Callback) → HasOne cs → All (IsAway i) more → HasOne (cs ++ more)
  HasOne-append [] more h a = elim h [ ]
  HasOne-append (c ∷ cs) more (inl (m, as')) a = inl (m, All-append (IsAway i) cs more as' a)
  HasOne-append (c ∷ cs) more (inr (x, h)) a = inr (x, HasOne-append cs more h a)

  HasOne-last :
      (cs : List Callback) (c : Callback) → All (IsAway i) cs → IsMine c → HasOne (cs ++ c ∷ [])
  HasOne-last [] c a m = inl (m, tt)
  HasOne-last (x ∷ cs) c (a, as') m = inr (a, HasOne-last cs c as' m)

  say_more :
      (r : ℕ) (x : Answer) (s : Server)
      → answered pe.answer s.answers ≤ answered pe.answer (say r x s).answers
  say_more r x s = omega (arith, answered-append pe.answer r x s.answers)

  say_own : (x : Answer) (s : Server) → 0 < answered pe.answer (say pe.answer x s).answers
  say_own x s =
      ground (arith, answered-append pe.answer pe.answer x s.answers, ==_iff pe.answer pe.answer)

  read_balance-IsServed :
      (k trid : ℕ) (s : Server) (o : Option Queued)
      → IsServed s
      → IsServed (read_balance k trid s o).0
  read_balance-IsServed k trid s none h = h
  read_balance-IsServed k trid s (some q) h = h

  call-IsServed : (c : Callback) (s : Server) → IsServed s → IsServed (call c s).0
  unfolding call
  call-IsServed (permitted k trid) s h = read_balance-IsServed k trid s (queued_at k s) h
  call-IsServed (balance_read k trid q bal) s (n, a) =
      if_cases (λ (r : Server × List Callback). IsServed r.0)
        (ltb_ℤ (bal -ℤ q.entry.amount_sent) (pos 0))
        (λ _. (hole_stays s.queue i k n, omega (arith, a, say_more q.answer _ s))) (λ _. (n, a))
  call-IsServed (written k trid q) s (n, a) =
      (hole_stays s.queue i k n, omega (arith, a, say_more q.answer _ s))

  abbrev IsUntouched : Server → Server × List Callback → Type 0
  IsUntouched s r = (queued_at i r.0 ≡ queued_at i s) × All (IsAway i) r.1

  read_balance-IsUntouched :
      (k trid : ℕ) (s : Server) (o : Option Queued)
      → (k == i) ≡ false
      → IsUntouched s (read_balance k trid s o)
  read_balance-IsUntouched k trid s none a = (refl, tt)
  read_balance-IsUntouched k trid s (some q) a = (refl, (a, tt))

  call-IsUntouched : (c : Callback) (s : Server) → IsAway i c → IsUntouched s (call c s)
  unfolding call
  call-IsUntouched (permitted k trid) s a = read_balance-IsUntouched k trid s (queued_at k s) a
  call-IsUntouched (balance_read k trid q bal) s a =
      if_cases (IsUntouched s) (ltb_ℤ (bal -ℤ q.entry.amount_sent) (pos 0))
        (λ _. (at_other s.queue i k a, tt)) (λ _. (refl, (a, tt)))
  call-IsUntouched (written k trid q) s a = (at_other s.queue i k a, tt)

  abbrev after : List Callback → Server × List Callback → Loop
  after cs r = record { server = r.0; callbacks = cs ++ r.1 }

  call-IsCared :
      (c : Callback) (cs : List Callback) (s : Server)
      → queued_at i s ≡ some pe
      → IsMine c
      → All (IsAway i) cs
      → IsCared (after cs (call c s))
  unfolding call
  call-IsCared c cs s q (trid, inl e) a =
      subst (λ x. IsCared (after cs (call x s))) (sym e)
        (subst (λ o. IsCared (after cs (read_balance i trid s o))) (sym q)
          (inr (q, HasOne-last cs _ a (trid, inr (inl (_, refl))))))
  call-IsCared c cs s q (trid, inr (inl (bal, e))) a =
      subst (λ x. IsCared (after cs (call x s))) (sym e)
        (if_cases (λ r. IsCared (after cs r)) (ltb_ℤ (bal -ℤ pe.entry.amount_sent) (pos 0))
          (λ _. inl (at_own s.queue i, say_own _ s))
          (λ _. inr (q, HasOne-last cs _ a (trid, inr (inr refl)))))
  call-IsCared c cs s q (trid, inr (inr e)) a =
      subst (λ x. IsCared (after cs (call x s))) (sym e) (inl (at_own s.queue i, say_own _ s))

  call_next-IsCared :
      (s : Server) (cs : List Callback)
      → IsCared (record { server = s; callbacks = cs })
      → IsCared (call_next s cs)
  call_next-IsCared s [] h = h
  call_next-IsCared s (c ∷ cs) (inl h) = inl (call-IsServed c s h)
  call_next-IsCared s (c ∷ cs) (inr (q, inl (m, a))) = call-IsCared c cs s q m a
  call_next-IsCared s (c ∷ cs) (inr (q, inr (a, h))) =
      let (same, more) = call-IsUntouched c s a in
      inr (same ∙ q, HasOne-append cs (call c s).1 h more)

  pub finish-IsCared : (n : ℕ) (l : Loop) → IsCared l → IsCared (finish n l)
  unfolding finish move
  finish-IsCared zero l h = h
  finish-IsCared (suc n) l h =
      finish-IsCared n (move l returns) (call_next-IsCared l.server l.callbacks h)
