-- ===== src/Actions/Polling/Answered.antt =====
-- server/api/actions/polling.js: the polls that wait, their timeouts, and the queries that return.
use schulealsstaat.Base.{
  ℕ, zero, suc, ◌+◌, ◌≡◌, refl, String, Option, none, some, List, [], ◌∷◌, arith, get_elem?, set,
  ◌⊎◌, inl, inr, Option-cases, subst,
}
use schulealsstaat.Types.{Transaction, Answer, timeout}
use schulealsstaat.Server.{Server, Poll}
use schulealsstaat.Actions.Polling.{
  poll_at, finish_poll, poll_timeout, polls_found, answer_groups, answer_indices,
  handle_db_poll_answer, group_transactions, find_group,
}
use schulealsstaat.Actions.Polling.Laws.{
  PollEvent, found, time_out, poll_event, poll_events, polling, promised, poll_events-promised,
  finish_poll_hole, finish_poll_there,
}
use schulealsstaat.Ledger.Answers.{answered}

abbrev poll_in : List (Option Poll) → ℕ → Option Poll
poll_in os i = elim (get_elem? os i) [ none ↦ none | some o ↦ o ]

set_other :
    (os : List (Option Poll)) (i j : ℕ) → poll_in os i ≡ none → poll_in (set os j none) i ≡ none
set_other [] i j h = h
set_other (o ∷ os) zero zero h = refl
set_other (o ∷ os) zero (suc j) h = h
set_other (o ∷ os) (suc i) zero h = h
set_other (o ∷ os) (suc i) (suc j) h = set_other os i j h

set_own : (os : List (Option Poll)) (i : ℕ) → poll_in (set os i none) i ≡ none
set_own [] i = refl
set_own (o ∷ os) zero = refl
set_own (o ∷ os) (suc i) = set_own os i

-- A poll that was answered does not come back.
finish_other :
    (i j : ℕ) (a : Answer) (s : Server) → poll_at i s ≡ none → poll_at i (finish_poll j a s) ≡ none
finish_other i j a s h = elim (Option-cases (poll_at j s)) [
  | inl e ↦ rw (finish_poll_hole j a s e) h
  | inr (p, e) ↦ rw (finish_poll_there j a s p e) (set_other s.polls i j h)
]

finish_own : (i : ℕ) (a : Answer) (s : Server) → poll_at i (finish_poll i a s) ≡ none
finish_own i a s = elim (Option-cases (poll_at i s)) [
  | inl e ↦ rw (finish_poll_hole i a s e) e
  | inr (p, e) ↦ rw (finish_poll_there i a s p e) (set_own s.polls i)
]

indices_other :
    (i : ℕ) (trs : List Transaction) (is : List ℕ) (s : Server)
    → poll_at i s ≡ none
    → poll_at i (answer_indices trs is s) ≡ none
unfolding answer_indices handle_db_poll_answer
indices_other i trs [] s h = h
indices_other i trs (j ∷ is) s h =
    indices_other i trs is (finish_poll j (Answer.transactions trs) s)
      (finish_other i j (Answer.transactions trs) s h)

groups_other :
    (i : ℕ) (indices : List (String × List ℕ)) (gs : List (String × List Transaction)) (s : Server)
    → poll_at i s ≡ none
    → poll_at i (answer_groups indices gs s) ≡ none
unfolding answer_groups
groups_other i indices [] s h = h
groups_other i indices ((q, trs) ∷ gs) s h =
    groups_other i indices gs (answer_indices trs (find_group q indices) s)
      (indices_other i trs (find_group q indices) s h)

-- The timer of the poll at an index runs out.
abbrev pub TimesOut : ℕ → List PollEvent → Type 0
TimesOut i [] = ⊥
TimesOut i (found indices trlist ∷ es) = TimesOut i es
TimesOut i (time_out j ∷ es) = (j ≡ i) ⊎ TimesOut i es

closed :
    (i : ℕ) (es : List PollEvent) (s : Server)
    → (poll_at i s ≡ none) ⊎ TimesOut i es
    → poll_at i (poll_events es s) ≡ none
unfolding poll_events poll_event polls_found poll_timeout
closed i [] s (inl h) = h
closed i [] s (inr t) = elim t [ ]
closed i (found indices trlist ∷ es) s (inl h) =
    closed i es (polls_found indices trlist s)
      (inl (groups_other i indices (group_transactions trlist []) s h))
closed i (found indices trlist ∷ es) s (inr t) = closed i es (polls_found indices trlist s) (inr t)
closed i (time_out j ∷ es) s (inl h) =
    closed i es (poll_timeout j s) (inl (finish_other i j timeout s h))
closed i (time_out j ∷ es) s (inr (inl e)) =
    closed i es (poll_timeout j s)
      (inl (subst (λ k. poll_at k (finish_poll j timeout s) ≡ none) e (finish_own j timeout s)))
closed i (time_out j ∷ es) s (inr (inr t)) = closed i es (poll_timeout j s) (inr t)

no_polls :
    (rid : ℕ) (os : List (Option Poll)) → ((i : ℕ) → poll_in os i ≡ none) → polling rid os ≡ 0
no_polls rid [] h = refl
no_polls rid (none ∷ os) h = omega (arith, no_polls rid os (λ i. h (suc i)))
no_polls rid (some p ∷ os) h = let e : some p ≡ none = h 0 in cc

-- In any order of timeouts and of queries returning, with the indices of any earlier time and any
-- result, and with no new poll: if the timer of every poll that waits at the start runs out in the
-- end, each request gets exactly as many answers as it has polls waiting, so that every poll is
-- answered once.
pub poll_events_answer_once :
    (rid : ℕ) (es : List PollEvent) (s : Server)
    → ((i : ℕ) (p : Poll) → poll_at i s ≡ some p → TimesOut i es)
    → answered rid (poll_events es s).answers ≡ answered rid s.answers + polling rid s.polls
unfolding promised
poll_events_answer_once rid es s timers =
    omega (arith, poll_events-promised rid es s, no_polls rid (poll_events es s).polls all_closed)
  where
    all_closed : (i : ℕ) → poll_in (poll_events es s).polls i ≡ none
    all_closed i = elim (Option-cases (poll_at i s)) [
      | inl e ↦ closed i es s (inl e)
      | inr (p, e) ↦ closed i es s (inr (timers i p e))
    ]
