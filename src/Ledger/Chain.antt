-- ===== src/Ledger/Chain.antt =====
-- server/api/actions/transactions.js: what one callback of the timer does to a sound server.
use schulealsstaat.Base.{
  ℕ, ◌≡◌, refl, sym, ap, ◌∙◌, subst, false, Option, none, some, List, [], ◌∷◌, ◌++◌, All, All-map,
  All-append, ◌==◌, if_cases,
}
use schulealsstaat.Base.Int.{ℤ, pos, ◌-ℤ◌, ◌≤ℤ◌, ltb_ℤ, int_laws, sub_nonneg}
use schulealsstaat.Types.{Transaction, Answer}
use schulealsstaat.Server.{Server, Queued, say, set_db}
use schulealsstaat.Db.Transactions.{balance_of, refers_to, write_db, drop_pending}
use schulealsstaat.Actions.Queue.Defs.{
  Callback, Loop, permitted, balance_read, written, call, call_next, read_balance, queued_at,
  delete_queued,
}
use schulealsstaat.Ledger.Solvency.{
  QueuedFair, StoredFair, write-IsSolvent, QueueIds-suc, QueueIds-set, All-set, All-get,
}
use schulealsstaat.Ledger.Callbacks.{
  SenderIs, Fits, Other, Distinct, AllFit-set, AllFit-write, AllFit-join, Distinct-rotate,
}
use schulealsstaat.Ledger.Requests.{IsSafe}

-- The queries that a callback starts: none, or one for the same sender.
abbrev pub Follows : List (Option Queued) → List Transaction → ℕ → List Callback → Type 0
Follows qs trs j [] = Unit
Follows qs trs j (c ∷ []) = Fits qs trs c j
Follows qs trs j (c ∷ d ∷ cs) = ⊥

abbrev pub IsNext : List Callback → List ℕ → ℕ → Server × List Callback → Type 0
IsNext cs js j (s, more) = IsSafe cs js s × Follows s.queue s.db.transactions j more

-- A loop whose callbacks belong to different senders, and find what they rely on.
abbrev pub IsSafeLoop : Loop → Type 0
IsSafeLoop l = (js : List ℕ) × IsSafe l.callbacks js l.server × Distinct js

le_refl : (x : ℤ) → x ≤ℤ x
le_refl x = omega int_laws

paid : (bal sent x : ℤ) → ltb_ℤ (bal -ℤ sent) (pos 0) ≡ false → bal ≤ℤ x → sent ≤ℤ x
paid bal sent x h le = omega (int_laws, sub_nonneg bal sent h, le)

module _ (cs : List Callback) (js : List ℕ) where
  settled-IsSafe :
      (i trid rid : ℕ) (x : Answer) (s : Server)
      → IsSafe cs js s
      → IsSafe cs js (delete_queued i (set_db (drop_pending trid) (say rid x s)))
  settled-IsSafe i trid rid x s h = record {
    sound = record {
      configured = h.sound.configured;
      solvent = h.sound.solvent;
      queue_fair = All-set s.queue i h.sound.queue_fair;
      stored_fair = h.sound.stored_fair;
      queue_ids = QueueIds-set s.db.next_id s.queue i h.sound.queue_ids;
    };
    fit = AllFit-set s.queue i s.db.transactions cs js h.fit;
  }

  written-IsSafe :
      (pe : Queued) (s : Server)
      → IsSafe cs js s
      → QueuedFair (some pe)
      → pe.entry.amount_sent ≤ℤ balance_of pe.sender s.db.transactions
      → All (Other pe.sender) js
      → IsSafe cs js (set_db (write_db pe.entry) s)
  written-IsSafe pe s h (f, r) can others =
      let t : Transaction = record { id = s.db.next_id; entry = pe.entry } in
      record {
        sound = record {
          configured = h.sound.configured;
          solvent = write-IsSolvent s.db.transactions t h.sound.solvent f (rw r can);
          queue_fair = h.sound.queue_fair;
          stored_fair =
              All-append StoredFair s.db.transactions (t ∷ []) h.sound.stored_fair (f, tt);
          queue_ids = QueueIds-suc s.db.next_id s.queue h.sound.queue_ids;
        };
        fit =
            AllFit-write s.queue s.db.transactions t cs js f
              (All-map (Other pe.sender) (λ j. refers_to j pe.entry.sender ≡ false)
                (λ k o. ap (λ r'. elim r' [ none ↦ false | some i ↦ k == i ]) r ∙ o) js others)
              h.fit;
      }

  permission-IsNext :
      (i trid j : ℕ) (s : Server) (o : Option Queued)
      → queued_at i s ≡ o
      → SenderIs j o
      → IsSafe cs js s
      → IsNext cs js j (read_balance i trid s o)
  permission-IsNext i trid j s none e f h = (h, tt)
  permission-IsNext i trid j s (some pe) e f h = (
    h,
    (
      f,
      All-get s.queue i pe h.sound.queue_fair e,
      le_refl (balance_of pe.sender s.db.transactions),
    ),
  )

  call-IsNext :
      (c : Callback) (j : ℕ) (s : Server)
      → IsSafe cs js s
      → Fits s.queue s.db.transactions c j
      → All (Other j) js
      → IsNext cs js j (call c s)
  unfolding call
  call-IsNext (permitted i trid) j s h (l, f) others =
      permission-IsNext i trid j s (queued_at i s) refl f h
  call-IsNext (balance_read i trid pe bal) j s h (e, fair, le) others =
      if_cases (IsNext cs js j) (ltb_ℤ (bal -ℤ pe.entry.amount_sent) (pos 0))
        (λ _. (settled-IsSafe i trid pe.answer _ s h, tt))
        (λ b. (
          written-IsSafe pe s h fair
              (paid bal pe.entry.amount_sent (balance_of pe.sender s.db.transactions) b le)
              (subst (λ k. All (Other k) js) (sym e) others),
          tt,
        ))
  call-IsNext (written i trid pe) j s h f others = (settled-IsSafe i trid pe.answer _ s h, tt)

append-nil : (js : List ℕ) → js ++ [] ≡ js
append-nil [] = refl
append-nil (j ∷ js) = ap (λ ks. j ∷ ks) (append-nil js)

joined :
    (cs : List Callback) (j : ℕ) (js : List ℕ) (s : Server) (more : List Callback)
    → IsNext cs js j (s, more)
    → All (Other j) js
    → Distinct js
    → IsSafeLoop (record { server = s; callbacks = cs ++ more })
joined cs j js s [] (h, f) others d = (
  js ++ [],
  record { sound = h.sound; fit = AllFit-join s.queue s.db.transactions cs [] js [] h.fit tt },
  subst Distinct (sym (append-nil js)) d,
)
joined cs j js s (c ∷ []) (h, f) others d = (
  js ++ j ∷ [],
  record {
    sound = h.sound;
    fit = AllFit-join s.queue s.db.transactions cs (c ∷ []) js (j ∷ []) h.fit (f, tt);
  },
  Distinct-rotate j js others d,
)
joined cs j js s (c ∷ d ∷ more) (h, f) others _ = elim f [ ]

-- The oldest callback keeps what the others rely on, and leaves what the next one will.
pub call_next-IsSafeLoop :
    (s : Server) (cs : List Callback)
    → IsSafeLoop (record { server = s; callbacks = cs })
    → IsSafeLoop (call_next s cs)
call_next-IsSafeLoop s [] h = h
call_next-IsSafeLoop s (c ∷ cs) ([], h, d) = elim h.fit [ ]
call_next-IsSafeLoop s (c ∷ cs) (j ∷ js, h, (others, d)) =
    let (s', more) = call c s in
    joined cs j js s' more
      (call-IsNext cs js c j s (record { sound = h.sound; fit = h.fit.1 }) h.fit.0 others) others d
