-- ===== src/Ledger/Rounds.antt =====
-- server/api/actions/transactions.js: the callbacks that a round of the timer starts with.
use schulealsstaat.Base.{
  ℕ, suc, ◌+◌, ◌<◌, ◌≡◌, refl, sym, ap, subst, inl, inr, true, false, Option, none, some, List, [],
  ◌∷◌, ◌++◌, arith, All, length, Bool-cases, ◌==◌, ==_iff, if_cases, if◌then◌else◌,
}
use schulealsstaat.Types.{PendingTransaction}
use schulealsstaat.Server.{Server, Queued}
use schulealsstaat.Db.Transactions.{is_oldest, oldest_pending}
use schulealsstaat.Actions.Queue.Defs.{Callback, permitted, ask, asks, round, queued_at}
use schulealsstaat.Ledger.Solvency.{Differs, QueueIds, IsSound}
use schulealsstaat.Ledger.Callbacks.{at, SenderIs, AllFit, Other, Distinct}
use schulealsstaat.Ledger.Chain.{IsSafeLoop}

same_id :
    (o : Option PendingTransaction) (t t' : ℕ)
    → elim o [ none ↦ false | some p ↦ p.id == t ] ≡ true
    → elim o [ none ↦ false | some p ↦ p.id == t' ] ≡ true
    → t ≡ t'
same_id none t t' h g = cc
same_id (some p) t t' h g = ground (arith, ==_iff p.id t, ==_iff p.id t')

-- A sender has only one oldest transaction.
distinct_senders :
    (p q : Queued) (pts : List PendingTransaction)
    → is_oldest p.trid p.sender pts ≡ true
    → is_oldest q.trid q.sender pts ≡ true
    → Differs q (some p)
    → Other q.sender p.sender
distinct_senders p q pts hp hq d = elim (Bool-cases (p.sender == q.sender)) [
  | inr e ↦ e
  | inl e ↦
      let same : p.sender ≡ q.sender = ground (arith, ==_iff p.sender q.sender) in
      let ids : p.trid ≡ q.trid =
        same_id (oldest_pending q.sender pts) p.trid q.trid
          (subst (λ k. is_oldest p.trid k pts ≡ true) same hp) hq in
      ground (arith, ==_iff q.trid p.trid, ids, d)
]

module _ (s : Server) where
  abbrev permission : ℕ → Option Queued → List Callback
  permission i none = []
  permission i (some pe) =
      if is_oldest pe.trid pe.sender s.db.pending then permitted i pe.trid ∷ [] else []

  ask_at : (i : ℕ) (o : Option Queued) → queued_at i s ≡ o → ask i s ≡ permission i o
  unfolding ask
  ask_at i none e = rw (ask, e) refl
  ask_at i (some pe) e = rw (ask, e) refl

  -- The callbacks for a part of the queue belong to different senders, those of the part.
  abbrev Made : List (Option Queued) → List Callback → Type 0
  Made qs cs =
      (js : List ℕ) × AllFit s.queue s.db.transactions cs js
      × Distinct js
      × ((pe : Queued)
          → All (Differs pe) qs
          → is_oldest pe.trid pe.sender s.db.pending ≡ true
          → All (Other pe.sender) js)

  abbrev AreNew : Option Queued → List (Option Queued) → Type 0
  AreNew none qs = Unit
  AreNew (some q) qs = All (Differs q) qs

  extended :
      (i : ℕ) (o : Option Queued) (qs : List (Option Queued)) (cs : List Callback)
      → i < length s.queue
      → queued_at i s ≡ o
      → AreNew o qs
      → Made qs cs
      → Made (o ∷ qs) (permission i o ++ cs)
  extended i none qs cs l e a (js, fit, d, m) = (js, fit, d, λ pe h old. m pe h.1 old)
  extended i (some pe) qs cs l e a (js, fit, d, m) =
      if_cases (λ ps. Made (some pe ∷ qs) (ps ++ cs)) (is_oldest pe.trid pe.sender s.db.pending)
        (λ old. (
          pe.sender ∷ js,
          ((l, subst (SenderIs pe.sender) (sym e) refl), fit),
          (m pe a old, d),
          λ q h old'. (distinct_senders pe q s.db.pending old old' h.0, m q h.1 old'),
        ))
        (λ _. (js, fit, d, λ q h old. m q h.1 old))

  are_new :
      (n : ℕ) (o : Option Queued) (qs : List (Option Queued))
      → QueueIds n (o ∷ qs)
      → AreNew o qs × QueueIds n qs
  are_new n none qs h = (tt, h)
  are_new n (some q) qs (l, a, h) = (a, h)

  asks-Made :
      (n i : ℕ) (qs : List (Option Queued))
      → ((k : ℕ) → at s.queue (i + k) ≡ at qs k)
      → i + length qs ≡ length s.queue
      → QueueIds n qs
      → Made qs (asks (length qs) i s)
  unfolding asks
  asks-Made n i [] h l ids = ([], tt, tt, λ pe _ _. tt)
  asks-Made n i (o ∷ qs) h l ids =
      let (new, rest) = are_new n o qs ids in
      let here : queued_at i s ≡ o = subst (λ x. at s.queue x ≡ o) (omega arith) (h 0) in
      let later =
        asks-Made n (suc i) qs (λ k. subst (λ x. at s.queue x ≡ at qs k) (omega arith) (h (suc k)))
          (omega (arith, l)) rest in
      subst (λ ps. Made (o ∷ qs) (ps ++ asks (length qs) (suc i) s)) (sym (ask_at i o here))
        (extended i o qs (asks (length qs) (suc i) s) (omega (arith, l)) here new later)

  -- The callbacks of a round on a sound server find what they rely on.
  pub round-IsSafeLoop : IsSound s → IsSafeLoop (record { server = s; callbacks = round s })
  unfolding round
  round-IsSafeLoop h =
      let (js, fit, d, _) =
        asks-Made s.db.next_id 0 s.queue (λ k. ap (at s.queue) (omega arith)) (omega arith)
          h.queue_ids in
      (js, record { sound = h; fit = fit }, d)
