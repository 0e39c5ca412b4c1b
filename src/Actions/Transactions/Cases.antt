-- ===== src/Actions/Transactions/Cases.antt =====
-- How a request for a transaction can end: it is answered with the reason of a refusal, or it
-- passes every test and is performed.
use schulealsstaat.Base.{
  ℕ, String, ◌≡◌, refl, sym, ◌∙◌, Bool, true, false, not, ◌&&◌, Option, none, some, str_eq, ltb,
  arith,
}
use schulealsstaat.Types.{
  Student, Percent, Amount, Answer, invalid_sender, invalid_recipient, overspecified,
  underspecified, invalid_amount, too_many_decplaces, comment_too_long, invalid_password,
}
use schulealsstaat.Server.{Server, Crypto, ◌>>=◌, then_run, pure, say, some_or_refuse, query}
use schulealsstaat.Server.Reads.{
  Reads, goes_on, query-Reads, refuse_if-Reads, some_or_refuse-Reads, branch-Reads, bind-Reads,
  passed, found, after_reads,
}
use schulealsstaat.Money.{n_decimals}
use schulealsstaat.Db.Students.{get_by_qrid_lean, find_qrid}
use schulealsstaat.Actions.Common.{check_password}
use schulealsstaat.Actions.Transactions.{
  Payment, truthy, is_invalid, get_party, make_entry, perform, transaction, transaction_normal,
  comment_length,
}

pub get_by_qrid_lean-Reads :
    (q : String) (rid : ℕ) (s : Server) → Reads rid s (get_by_qrid_lean q rid s)
unfolding get_by_qrid_lean
get_by_qrid_lean-Reads q rid s =
    query-Reads "stdb.getByQridLean" rid (λ db. find_qrid q db.students) s

pub looked_up :
    (q : String) (rid : ℕ) (s : Server) (o : Option Student)
    → get_by_qrid_lean q rid s ≡ (some o, s)
    → o ≡ find_qrid q s.db.students
unfolding get_by_qrid_lean query
looked_up q rid s o e = ground arith

pub accepted : (b : Bool) → not b ≡ false → b ≡ true
accepted true e = refl
accepted false e = cc

-- A student is looked up, and a missing one is answered.
pub lookup-Reads :
    (q : String) (rid : ℕ) (x : Answer) (s : Server)
    → Reads rid s ((get_by_qrid_lean q rid >>= λ r. some_or_refuse r rid x) s)
lookup-Reads q rid x s =
    bind-Reads (λ r. some_or_refuse r rid x) rid s (get_by_qrid_lean-Reads q rid s)
      (λ r. some_or_refuse-Reads r rid x s)

get_party-Reads :
    (magic : Bool) (q : String) (x : Answer) (rid : ℕ) (s : Server)
    → Reads rid s (get_party magic q x rid s)
unfolding get_party
get_party-Reads magic q x rid s = branch-Reads magic rid s (goes_on none refl) (
    bind-Reads _ rid s (get_by_qrid_lean-Reads q rid s)
      λ r. bind-Reads _ rid s (some_or_refuse-Reads r rid x s) λ st. goes_on (some st) refl)

-- The magic account stands for no student, anybody else for one.
abbrev pub PartyOf : Bool → Option Student → Type 0
PartyOf true o = o ≡ none
PartyOf false o = (st : Student) × (o ≡ some st)

party_some :
    (rid : ℕ) (x : Answer) (r : Option (Option Student) × Server) (o : Option Student) (s : Server)
    → then_run (λ st. some_or_refuse st rid x >>= λ st. pure (some st)) r ≡ (some o, s)
    → (st : Student) × (o ≡ some st)
party_some rid x (none, s') o s e = cc
party_some rid x (some none, s') o s e = cc
party_some rid x (some (some st), s') o s e = (st, cc)

got_party :
    (magic : Bool) (q : String) (x : Answer) (rid : ℕ) (s : Server) (o : Option Student)
    → get_party magic q x rid s ≡ (some o, s)
    → PartyOf magic o
unfolding get_party
got_party true q x rid s o e = cc
got_party false q x rid s o e = party_some rid x (get_by_qrid_lean q rid s) o s e

-- The tests that `transaction` makes before it looks anybody up.
pub record AmountsPass (sent received : Amount) : Type 0 where
  pub specified : (not (truthy sent) && not (truthy received)) ≡ false
  pub unambiguous : (truthy sent && truthy received) ≡ false
  pub sent_valid : (truthy sent && is_invalid sent) ≡ false
  pub received_valid : (truthy received && is_invalid received) ≡ false

module _ {ℓ} (P : Server → Type ℓ) (rid : ℕ) (s : Server) (h : (x : Answer) → P (say rid x s)) where
  pub transaction_cases :
      (sender_qrid recipient_qrid : String) (sent received : Amount) (tax : Percent)
      (comment : Option String)
      → (AmountsPass sent received
          → (taxinc : Student) (sender recipient : Option Student)
          → PartyOf (str_eq sender_qrid s.settings.magic_account) sender
          → PartyOf (str_eq recipient_qrid s.settings.magic_account) recipient
          → P
              (perform sender
                (make_entry s.settings s.clock sender recipient taxinc sent received tax comment)
                rid
                s).1)
      → P (transaction sender_qrid recipient_qrid sent received tax comment rid s).1
  unfolding transaction
  transaction_cases sender_qrid recipient_qrid sent received tax comment k =
      after_reads P _ rid s (refuse_if-Reads _ rid underspecified s) h λ _ a.
        after_reads P _ rid s (refuse_if-Reads _ rid overspecified s) h λ _ b.
          after_reads P _ rid s (refuse_if-Reads _ rid invalid_amount s) h λ _ c.
            after_reads P _ rid s (refuse_if-Reads _ rid invalid_amount s) h λ _ d.
              after_reads P _ rid s (get_by_qrid_lean-Reads s.settings.taxinc_qrid rid s) h λ o _.
                after_reads P _ rid s
                  (some_or_refuse-Reads o rid (Answer.error "no tax income account") s) h
                  λ taxinc _.
                    after_reads P _ rid s (get_party-Reads _ sender_qrid invalid_sender rid s) h
                      λ sender e.
                        after_reads P _ rid s
                          (get_party-Reads _ recipient_qrid invalid_recipient rid s) h
                          λ recipient f.
                            k
                              (record {
                                specified = passed _ rid underspecified s a;
                                unambiguous = passed _ rid overspecified s b;
                                sent_valid = passed _ rid invalid_amount s c;
                                received_valid = passed _ rid invalid_amount s d;
                              })
                              taxinc sender recipient
                              (got_party _ sender_qrid invalid_sender rid s sender e)
                              (got_party _ recipient_qrid invalid_recipient rid s recipient f)

  pub transaction_normal_cases :
      (c : Crypto) (p : Payment) (tax : Percent)
      → (ltb s.settings.tr_comment_maxlen (comment_length p.comment) ≡ false
          → (truthy p.amount_sent
              && ltb s.settings.hgc_tr_decimal_places (n_decimals p.amount_sent))
            ≡ false
          → (truthy p.amount_received
              && ltb s.settings.hgc_tr_decimal_places (n_decimals p.amount_received))
            ≡ false
          → (st : Student) → find_qrid p.sender s.db.students ≡ some st
          → check_password c st p.sender_password ≡ true
          → P
              (transaction p.sender p.recipient p.amount_sent p.amount_received tax p.comment rid
                s).1)
      → P (transaction_normal c p rid tax s).1
  unfolding transaction_normal
  transaction_normal_cases c p tax k =
      after_reads P _ rid s (refuse_if-Reads _ rid comment_too_long s) h λ _ a.
        after_reads P _ rid s (refuse_if-Reads _ rid too_many_decplaces s) h λ _ b.
          after_reads P _ rid s (refuse_if-Reads _ rid too_many_decplaces s) h λ _ d.
            after_reads P _ rid s (get_by_qrid_lean-Reads p.sender rid s) h λ o e.
              after_reads P _ rid s (some_or_refuse-Reads o rid invalid_sender s) h λ st f.
                after_reads P _ rid s (refuse_if-Reads _ rid invalid_password s) h λ _ g.
                  k (passed _ rid comment_too_long s a) (passed _ rid too_many_decplaces s b)
                    (passed _ rid too_many_decplaces s d) st
                    (sym (looked_up p.sender rid s o e) ∙ found o rid invalid_sender s f)
                    (accepted (check_password c st p.sender_password)
                      (passed _ rid invalid_password s g))
