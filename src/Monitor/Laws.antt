-- ===== src/Monitor/Laws.antt =====
-- What the numbers of a report mean.
use schulealsstaat.Base.{
  ℕ, ◌+◌, ◌≡◌, refl, sym, subst, true, false, none, some, List, [], ◌∷◌, arith, keep, length,
  is_some, All, inl, inr, Option-cases, if_cases,
}
use schulealsstaat.Monitor.{
  RequestId, Perf, Master, MessageType, req_begin, req_after_decrypt, req_after_action, req_end,
  find_perf, put_perf, delete_perf, mark, known, fresh, on_message, deprecate, report, is_finished,
  is_pending, in_decrypt, in_action, in_encrypt, count_if, same_id,
}

-- The action is not done before the decryption.
abbrev pub IsStaged : RequestId × Perf → Type 0
IsStaged (_, p) = is_some p.after_decrypt ≡ false → is_some p.after_action ≡ false

-- A message that the action is done is about a request that is decrypted.
abbrev pub Follows : MessageType → RequestId → Master → Type 0
Follows req_begin id m = Unit
Follows req_after_decrypt id m = Unit
Follows req_after_action id m =
    (p : Perf) → find_perf id m.perfdata ≡ some p → is_some p.after_decrypt ≡ true
Follows req_end id m = Unit

put_perf-IsStaged :
    (id : RequestId) (p : Perf) (ps : List (RequestId × Perf))
    → IsStaged (id, p)
    → All IsStaged ps
    → All IsStaged (put_perf id p ps)
unfolding put_perf
put_perf-IsStaged id p [] h hs = (h, tt)
put_perf-IsStaged id p ((i, q) ∷ ps) h (g, hs) =
    if_cases (All IsStaged) (same_id i id) (λ _. (h, hs)) (λ _. (g, put_perf-IsStaged id p ps h hs))

delete_perf-IsStaged :
    (id : RequestId) (ps : List (RequestId × Perf))
    → All IsStaged ps
    → All IsStaged (delete_perf id ps)
unfolding delete_perf
delete_perf-IsStaged id [] hs = tt
delete_perf-IsStaged id ((i, q) ∷ ps) (g, hs) =
    if_cases (All IsStaged) (same_id i id) (λ _. hs) (λ _. (g, delete_perf-IsStaged id ps hs))

found-IsStaged :
    (id : RequestId) (ps : List (RequestId × Perf)) (p : Perf)
    → All IsStaged ps
    → find_perf id ps ≡ some p
    → IsStaged (id, p)
unfolding find_perf
found-IsStaged id [] p hs e = cc
found-IsStaged id ((i, q) ∷ ps) p (g, hs) e =
    if_cases (λ r. r ≡ some p → IsStaged (id, p)) (same_id i id)
      (λ _ e. let same : q ≡ p = cc in subst (λ (x : Perf). IsStaged (id, x)) same g)
      (λ _ e. found-IsStaged id ps p hs e) e

mark-IsStaged :
    (type : MessageType) (id : RequestId) (now : ℕ) (m : Master) (p : Perf)
    → Follows type id m
    → find_perf id m.perfdata ≡ some p
    → IsStaged (id, p)
    → IsStaged (id, mark type now p)
unfolding mark
mark-IsStaged req_begin id now m p f e h = h
mark-IsStaged req_after_decrypt id now m p f e h = λ n. cc
mark-IsStaged req_after_action id now m p f e h = λ n. cc (n, f p e)
mark-IsStaged req_end id now m p f e h = h

known_keeps :
    (type : MessageType) (id : RequestId) (now : ℕ) (m : Master)
    → find_perf id m.perfdata ≡ none
    → known type id now m ≡ m
unfolding known
known_keeps type id now m e = ground arith

known_marks :
    (type : MessageType) (id : RequestId) (now : ℕ) (m : Master) (p : Perf)
    → find_perf id m.perfdata ≡ some p
    → known type id now m ≡ record m { perfdata = put_perf id (mark type now p) m.perfdata }
unfolding known
known_marks type id now m p e = ground arith

known-IsStaged :
    (type : MessageType) (id : RequestId) (now : ℕ) (m : Master)
    → Follows type id m
    → All IsStaged m.perfdata
    → All IsStaged (known type id now m).perfdata
known-IsStaged type id now m f hs = elim (Option-cases (find_perf id m.perfdata)) [
  | inl e ↦ subst (λ (m : Master). All IsStaged m.perfdata) (sym (known_keeps type id now m e)) hs
  | inr (p, e) ↦
      subst (λ (m : Master). All IsStaged m.perfdata) (sym (known_marks type id now m p e))
        (put_perf-IsStaged id (mark type now p) m.perfdata
          (mark-IsStaged type id now m p f e (found-IsStaged id m.perfdata p hs e)) hs)
]

-- As long as workers report the end of an action only for requests whose decryption they have
-- reported, every message leaves the known requests in order.
on_message-IsStaged :
    (type : MessageType) (id : RequestId) (now : ℕ) (m : Master)
    → Follows type id m
    → All IsStaged m.perfdata
    → All IsStaged (on_message type id now m).perfdata
unfolding on_message
on_message-IsStaged req_begin id now m f hs =
    put_perf-IsStaged id (fresh now) m.perfdata (λ _. refl) hs
on_message-IsStaged req_after_decrypt id now m f hs = known-IsStaged req_after_decrypt id now m f hs
on_message-IsStaged req_after_action id now m f hs = known-IsStaged req_after_action id now m f hs
on_message-IsStaged req_end id now m f hs = known-IsStaged req_end id now m f hs

stages :
    (ps : List (RequestId × Perf))
    → All IsStaged ps
    → count_if in_decrypt (keep is_pending ps)
        + count_if in_action (keep is_pending ps)
        + count_if in_encrypt (keep is_pending ps)
      ≡ length (keep is_pending ps)
stages [] hs = refl
stages ((i, p) ∷ ps) (h, hs) = ground (arith, h, stages ps hs)

-- When the known requests are in order, the report counts each pending request in exactly one of
-- the three stages.
report_stages :
    (now : ℕ) (m : Master)
    → All IsStaged m.perfdata
    → let r = report now m in r.pending_decrypt + r.pending_action + r.pending_encrypt ≡ r.n_pending
unfolding report
report_stages now m hs = stages m.perfdata hs

partition :
    (ps : List (RequestId × Perf))
    → length (keep is_finished ps) + length (keep is_pending ps) ≡ length ps
partition [] = refl
partition ((i, p) ∷ ps) = ground (arith, partition ps)

-- A request that is forgotten leaves the others in order.
pub deprecate-IsStaged :
    (id : RequestId) (m : Master) → All IsStaged m.perfdata → All IsStaged (deprecate id m).perfdata
unfolding deprecate
deprecate-IsStaged id m hs = delete_perf-IsStaged id m.perfdata hs

-- A report counts each known request either as finished or as pending.
report_partition :
    (now : ℕ) (m : Master) → let r = report now m in r.n_finished + r.n_pending ≡ length m.perfdata
unfolding report
report_partition now m = partition m.perfdata
