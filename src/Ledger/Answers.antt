-- ===== src/Ledger/Answers.antt =====
-- How often a request is answered.
use schulealsstaat.Base.{
  ℕ, suc, ◌+◌, ◌≡◌, String, Bool, true, false, Option, none, some, List, [], ◌∷◌, ◌++◌, arith,
  str_eq, ◌==◌, if◌then◌else◌,
}
use text.Mathlib.TextPositions.{eq_refl}
use schulealsstaat.Base.Int.{pos}
use schulealsstaat.Types.{Answer, Amount, Student, ok, invalid_sender, invalid_recipient}
use schulealsstaat.Server.{Server}
use schulealsstaat.Actions.Transactions.{
  transaction, spawn_money, get_party, make_entry, no_tax, prefixed,
}
use schulealsstaat.Db.Connected.{get_by_qrid_lean_up}
use schulealsstaat.Db.Students.{find_qrid}
use schulealsstaat.Actions.Transactions.Perform.{perform_spawn}

-- How often a request was answered.
abbrev pub answered : ℕ → List (ℕ × Answer) → ℕ
answered rid [] = 0
answered rid (a ∷ log) = (if a.0 == rid then 1 else 0) + answered rid log

abbrev pub one_if : ℕ → ℕ → ℕ
one_if r rid = if r == rid then 1 else 0

pub answered-append :
    (rid r : ℕ) (x : Answer) (log : List (ℕ × Answer))
    → answered rid (log ++ (r, x) ∷ []) ≡ answered rid log + one_if r rid
answered-append rid r x [] = omega arith
answered-append rid r x (a ∷ log) = omega (arith, answered-append rid r x log)

party_magic :
    (s : Server) (b : Bool) (q : String) (x : Answer) (rid : ℕ)
    → b ≡ true
    → get_party b q x rid s ≡ (some none, s)
unfolding get_party
party_magic s b q x rid h = ground arith

party_found :
    (s : Server) (b : Bool) (q : String) (x : Answer) (rid : ℕ) (st : Student)
    → s.db.connected ≡ true
    → b ≡ false
    → find_qrid q s.db.students ≡ some st
    → get_party b q x rid s ≡ (some (some st), s)
unfolding get_party
party_found s b q x rid st c h f = ground (arith, get_by_qrid_lean_up s c q rid, f)

-- When money is spawned for a known student, with the tax account there and the database
-- connected, the request is answered twice: `transaction_write` is handed a function that answers
-- in the place of its logger, and answers itself.
pub spawn_money_answers_twice :
    (n : ℕ) (recipient : String) (comment : Option String) (rid : ℕ) (s : Server)
    (taxinc st : Student)
    → s.db.connected ≡ true
    → find_qrid s.settings.taxinc_qrid s.db.students ≡ some taxinc
    → str_eq recipient s.settings.magic_account ≡ false
    → find_qrid recipient s.db.students ≡ some st
    → (spawn_money recipient (Amount.number (pos (suc n))) comment rid s).1.answers
      ≡ (s.answers ++ (rid, ok) ∷ []) ++ (rid, ok) ∷ []
unfolding spawn_money transaction
spawn_money_answers_twice n recipient comment rid s taxinc st c t m f = ground (
  arith,
  get_by_qrid_lean_up s c s.settings.taxinc_qrid rid,
  t,
  party_magic s (str_eq s.settings.magic_account s.settings.magic_account) s.settings.magic_account
      invalid_sender rid (eq_refl s.settings.magic_account),
  party_found s (str_eq recipient s.settings.magic_account) recipient invalid_recipient rid st c m
      f,
  perform_spawn
      (make_entry s.settings s.clock none (some st) taxinc (Amount.number (pos (suc n)))
        Amount.absent no_tax (prefixed "spawn_money" comment))
      rid s,
)
