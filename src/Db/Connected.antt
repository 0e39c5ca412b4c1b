-- ===== src/Db/Connected.antt =====
-- The queries and writes that the queue uses, with the database connected and without.
use schulealsstaat.Base.{ℕ, String, ◌≡◌, true, false, none, some, arith}
use schulealsstaat.Types.{Entry, database_error}
use schulealsstaat.Server.{Server, set_db, say, query, command, command_silent}
use schulealsstaat.Db.Students.{get_by_qrid_lean, find_qrid}
use schulealsstaat.Db.Transactions.{
  write, write_db, write_complete, drop_pending, check_write_permission, is_oldest, get_balance,
  balance_of,
}

module _ (s : Server) (c : s.db.connected ≡ true) where
  pub write_up : (e : Entry) (rid : ℕ) → write e rid s ≡ (some tt, set_db (write_db e) s)
  unfolding write command
  write_up e rid = ground arith

  pub write_complete_up :
      (trid : ℕ) → write_complete trid s ≡ (some tt, set_db (drop_pending trid) s)
  unfolding write_complete command_silent
  write_complete_up trid = ground arith

  pub check_write_permission_up :
      (trid sender rid : ℕ)
      → check_write_permission trid sender rid s ≡ (some (is_oldest trid sender s.db.pending), s)
  unfolding check_write_permission query
  check_write_permission_up trid sender rid = ground arith

  pub get_balance_up :
      (i rid : ℕ) → get_balance i rid s ≡ (some (balance_of i s.db.transactions), s)
  unfolding get_balance
  get_balance_up i rid = ground arith

  pub get_by_qrid_lean_up :
      (q : String) (rid : ℕ) → get_by_qrid_lean q rid s ≡ (some (find_qrid q s.db.students), s)
  unfolding get_by_qrid_lean query
  get_by_qrid_lean_up q rid = ground arith

pub check_write_permission_down :
    (s : Server)
    → s.db.connected ≡ false
    → (trid sender rid : ℕ)
    → check_write_permission trid sender rid s
      ≡ (none, say rid (database_error "trdb.checkWritePermission") s)
unfolding check_write_permission query
check_write_permission_down s c trid sender rid = ground arith

pub write_down :
    (s : Server)
    → s.db.connected ≡ false
    → (e : Entry) (rid : ℕ) → write e rid s ≡ (none, say rid (database_error "trdb.write") s)
unfolding write command
write_down s c e rid = ground arith
