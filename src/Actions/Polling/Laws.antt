-- ===== src/Actions/Polling/Laws.antt =====
-- server/api/actions/polling.js: the polls that wait, and their answers.
use schulealsstaat.Base.{
  ℕ, zero, suc, ◌+◌, ◌≡◌, refl, ap, ◌∙◌, String, Option, none, some, List, [], ◌∷◌, ◌++◌, arith,
  get_elem?, set, inl, inr, Option-cases,
}
use schulealsstaat.Types.{Transaction, Answer, timeout}
use schulealsstaat.Server.{Server, Poll, say}
use schulealsstaat.Actions.Polling.{
  poll_at, delete_poll, finish_poll, poll_timeout, handle_db_poll_answer, answer_indices,
  answer_groups, polls_found, group_transactions, find_group,
}
use schulealsstaat.Ledger.Answers.{answered, answered-append, one_if}

abbrev pub polls_for : ℕ → Option Poll → ℕ
polls_for rid none = 0
polls_for rid (some p) = one_if p.answer rid

-- How many polls wait for a request.
abbrev pub polling : ℕ → List (Option Poll) → ℕ
polling rid [] = 0
polling rid (o ∷ os) = polls_for rid o + polling rid os

-- The answers that a request has had and will have from its polls.
unfoldable pub promised : ℕ → Server → ℕ
promised rid s = answered rid s.answers + polling rid s.polls

polling-append :
    (rid : ℕ) (p : Poll) (os : List (Option Poll))
    → polling rid (os ++ some p ∷ []) ≡ polling rid os + one_if p.answer rid
polling-append rid p [] = omega arith
polling-append rid p (o ∷ os) = omega (arith, polling-append rid p os)

polling-set :
    (rid : ℕ) (p : Poll) (os : List (Option Poll)) (i : ℕ)
    → elim (get_elem? os i) [ none ↦ none | some o ↦ o ] ≡ some p
    → polling rid (set os i none) + one_if p.answer rid ≡ polling rid os
polling-set rid p [] i e = cc
polling-set rid p (none ∷ os) zero e = cc
polling-set rid p (some x ∷ os) zero e = let same : x ≡ p = cc in rw same (omega arith)
polling-set rid p (o ∷ os) (suc i) e = omega (arith, polling-set rid p os i e)

pub finish_poll_hole :
    (idx : ℕ) (a : Answer) (s : Server) → poll_at idx s ≡ none → finish_poll idx a s ≡ s
unfolding finish_poll
finish_poll_hole idx a s e = ground arith

pub finish_poll_there :
    (idx : ℕ) (a : Answer) (s : Server) (p : Poll)
    → poll_at idx s ≡ some p
    → finish_poll idx a s ≡ delete_poll idx (say p.answer a s)
unfolding finish_poll
finish_poll_there idx a s p e = ground arith

finish_poll-promised :
    (rid idx : ℕ) (a : Answer) (s : Server) → promised rid (finish_poll idx a s) ≡ promised rid s
unfolding promised
finish_poll-promised rid idx a s = elim (Option-cases (poll_at idx s)) [
  | inl e ↦ ap (promised rid) (finish_poll_hole idx a s e)
  | inr (p, e) ↦
      rw (finish_poll_there idx a s p e)
        (omega (arith, answered-append rid p.answer a s.answers, polling-set rid p s.polls idx e))
]

answer_indices-promised :
    (rid : ℕ) (trs : List Transaction) (is : List ℕ) (s : Server)
    → promised rid (answer_indices trs is s) ≡ promised rid s
unfolding answer_indices handle_db_poll_answer
answer_indices-promised rid trs [] s = refl
answer_indices-promised rid trs (i ∷ is) s =
    answer_indices-promised rid trs is (finish_poll i (Answer.transactions trs) s)
    ∙ finish_poll-promised rid i (Answer.transactions trs) s

answer_groups-promised :
    (rid : ℕ) (indices : List (String × List ℕ)) (gs : List (String × List Transaction))
    (s : Server)
    → promised rid (answer_groups indices gs s) ≡ promised rid s
unfolding answer_groups
answer_groups-promised rid indices [] s = refl
answer_groups-promised rid indices ((q, trs) ∷ gs) s =
    answer_groups-promised rid indices gs (answer_indices trs (find_group q indices) s)
    ∙ answer_indices-promised rid trs (find_group q indices) s

-- What happens to the polls besides new ones: a query of a round returns, or time runs out.
pub data PollEvent : Type 0 where
  found : List (String × List ℕ) → List Transaction → PollEvent
  time_out : ℕ → PollEvent

unfoldable pub poll_event : PollEvent → Server → Server
poll_event (found indices trlist) s = polls_found indices trlist s
poll_event (time_out idx) s = poll_timeout idx s

unfoldable pub poll_events : List PollEvent → Server → Server
poll_events [] s = s
poll_events (e ∷ es) s = poll_events es (poll_event e s)

-- In any order of timeouts and of queries returning, with the indices of any earlier time and any
-- result, the answers that a request has had and the polls that will answer it keep their sum.
pub poll_events-promised :
    (rid : ℕ) (es : List PollEvent) (s : Server) → promised rid (poll_events es s) ≡ promised rid s
unfolding poll_events poll_event polls_found poll_timeout
poll_events-promised rid [] s = refl
poll_events-promised rid (found indices trlist ∷ es) s =
    poll_events-promised rid es (polls_found indices trlist s)
    ∙ answer_groups-promised rid indices (group_transactions trlist []) s
poll_events-promised rid (time_out idx ∷ es) s =
    poll_events-promised rid es (poll_timeout idx s) ∙ finish_poll-promised rid idx timeout s
