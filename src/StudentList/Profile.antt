-- ===== src/StudentList/Profile.antt =====
-- The dialog for one student of client/adminpanel/site/studentlist/scripts.js, and its changes on
-- the server.
use schulealsstaat.Base.{
  ℕ, ◌≡◌, refl, sym, ap, ◌∙◌, subst, String, true, false, Option, none, some, List, All, All-map,
  map, [], ◌∷◌, ◌++◌, str_eq, str_eq_iff, ◌==◌, ==_iff, if_cases, Bool-cases, inl, inr,
  if◌then◌else◌,
}
use mathlib.Core.List.{append-nil, append_assoc}
use schulealsstaat.Base.Int.{ℤ}
use schulealsstaat.Types.{Student, Amount, Answer, ok}
use schulealsstaat.Server.{Server, say, set_db, query, command_silent}
use schulealsstaat.Db.Students.{has_qrid, find_qrid, replace, others, qrid_free, save, get_by_qrid}
use schulealsstaat.Db.Index.{Apart, Distinct, IsIndexed}
use schulealsstaat.Actions.Students.{profile_edit, set_prop}
use schulealsstaat.Actions.Transactions.{Payment}

-- The payload of `profile_edit`, for `current_profile`.
pub record Edit : Type 0 where
  pub qrid : String
  pub prop : String
  pub value : String

unfoldable pub edit_of : Student → String → String → Edit
edit_of current_profile prop value = record {
  qrid = current_profile.qrid;
  prop = prop;
  value = value;
}

-- `#fee_deduct`, with `FEE_TARGET_ACCOUNT` and the amount; the password of the sender is not sent.
unfoldable pub fee_of : Student → String → ℤ → Payment
fee_of current_profile fee_target_account amount = record {
  sender = current_profile.qrid;
  sender_password = "";
  recipient = fee_target_account;
  amount_sent = Amount.number amount;
  amount_received = Amount.absent;
  comment = some "Bearbeitungsgebühr";
}

-- The clicks on `.profile_edit` while the dialog shows a student, each with the property, the value
-- and its request: `current_profile` is not changed by the answers.
unfoldable pub edits : Student → List (String × String × ℕ) → Server → Server
edits current_profile [] s = s
edits current_profile ((prop, value, rid) ∷ es) s =
    let e = edit_of current_profile prop value in
    edits current_profile es (profile_edit e.qrid e.prop e.value rid s).1

All-find :
    (P : Student → Type 0) (q : String) (xs : List Student) (st : Student)
    → All P xs
    → find_qrid q xs ≡ some st
    → P st
All-find P q [] st h e = cc
All-find P q (x ∷ xs) st (h, hs) e = elim (Bool-cases (has_qrid q x)) [
  | inl b ↦
      let same : some x ≡ some st = sym (ap (λ t. if t then some x else find_qrid q xs) b) ∙ e in
      subst P (ap (λ (o : Option Student). elim o [ none ↦ x | some y ↦ y ]) same) h
  | inr b ↦ All-find P q xs st hs (sym (ap (λ t. if t then some x else find_qrid q xs) b) ∙ e)
]

find-none :
    (q : String) (xs : List Student)
    → All (λ (y : Student). has_qrid q y ≡ false) xs
    → find_qrid q xs ≡ none
find-none q [] h = refl
find-none q (x ∷ xs) (h, hs) = ap (λ t. if t then some x else find_qrid q xs) h ∙ find-none q xs hs

-- No student has the QR-ID any more, when the one who had it has been stored with another.
find-replace :
    (q : String) (new st : Student) (xs : List Student)
    → has_qrid q new ≡ false
    → new.id ≡ st.id
    → Distinct xs
    → find_qrid q xs ≡ some st
    → find_qrid q (replace new xs) ≡ none
find-replace q new st [] n i d e = cc
find-replace q new st (x ∷ xs) n i (a, d) e = elim (Bool-cases (has_qrid q x)) [
  | inl b ↦
      let same =
        ap (λ (o : Option Student). elim o [ none ↦ x | some y ↦ y ])
          (sym (ap (λ t. if t then some x else find_qrid q xs) b) ∙ e) in
      if_cases (λ r. find_qrid q r ≡ none) (x.id == new.id)
        (λ _. find-none q (new ∷ xs) (
          n,
          All-map (Apart x) (λ (y : Student). has_qrid q y ≡ false)
              (λ y h. subst (λ r. has_qrid r y ≡ false) ((str_eq_iff x.qrid q).0 b) h.0) xs a,
        ))
        (λ g. cc (g, (==_iff x.id new.id).1 (ap (λ (y : Student). y.id) same ∙ sym i)))
  | inr b ↦
      let inside = sym (ap (λ t. if t then some x else find_qrid q xs) b) ∙ e in
      let differs = (All-find (Apart x) q xs st a inside).1 in
      if_cases (λ r. find_qrid q r ≡ none) (x.id == new.id)
        (λ g. cc (differs, (==_iff st.id x.id).1 (sym i ∙ sym ((==_iff x.id new.id).0 g))))
        (λ _.
          ap (λ t. if t then some x else find_qrid q (replace new xs)) b
          ∙ find-replace q new st xs n i d inside)
]

refused :
    (q prop value : String) (rid : ℕ) (s : Server)
    → find_qrid q s.db.students ≡ none
    → s.db.connected ≡ true
    → (profile_edit q prop value rid s).1 ≡ say rid (Answer.error "wrong qrid") s
unfolding profile_edit get_by_qrid query
refused q prop value rid s e up = rw (up, e) refl

edits-refused :
    (st : Student) (es : List (String × String × ℕ)) (s : Server)
    → find_qrid st.qrid s.db.students ≡ none
    → s.db.connected ≡ true
    → edits st es s ≡ record s {
      answers = s.answers ++ map (λ (e : String × String × ℕ). (e.2, Answer.error "wrong qrid")) es;
    }
unfolding edits edit_of
edits-refused st [] s e up = ap (λ as'. record s { answers = as' }) (sym (append-nil s.answers))
edits-refused st ((prop, value, rid) ∷ es) s e up =
    ap (edits st es) (refused st.qrid prop value rid s e up)
    ∙ edits-refused st es (say rid (Answer.error "wrong qrid") s) e up
    ∙ ap (λ as'. record s { answers = as' }) (append_assoc s.answers _ _)

renamed :
    (st : Student) (q v : String) (rid : ℕ) (s : Server)
    → find_qrid q s.db.students ≡ some st
    → s.db.connected ≡ true
    → qrid_free v (others st.id s.db.students) ≡ true
    → (profile_edit q "qrid" v rid s).1
      ≡ say rid ok
          (set_db (λ db. record db { students = replace (record st { qrid = v }) db.students }) s)
unfolding profile_edit get_by_qrid query save command_silent set_prop
renamed st q v rid s e up free = rw (up, e, free) refl

-- If no two students have the same QR-ID, the database is connected and has the student of the
-- dialog, and a new QR-ID is another one and free, then after the QR-ID is edited, every further edit
-- in the same dialog is refused as one of a wrong QR-ID, and only the first one changes a student.
pub lost_after_rename :
    (current_profile st : Student) (v : String) (rid : ℕ) (es : List (String × String × ℕ))
    (s : Server)
    → IsIndexed s.db
    → find_qrid current_profile.qrid s.db.students ≡ some st
    → s.db.connected ≡ true
    → str_eq v current_profile.qrid ≡ false
    → qrid_free v (others st.id s.db.students) ≡ true
    → let s' = edits current_profile (("qrid", v, rid) ∷ es) s in
      (s'.db.students ≡ replace (record st { qrid = v }) s.db.students)
      × (s'.answers
          ≡ (s.answers ++ (rid, ok) ∷ [])
            ++ map (λ (e : String × String × ℕ). (e.2, Answer.error "wrong qrid")) es)
unfolding edits edit_of
lost_after_rename current_profile st v rid es s indexed e up other free =
    let q = current_profile.qrid in
    let new : Student = record st { qrid = v } in
    let s' = say rid ok (set_db (λ db. record db { students = replace new db.students }) s) in
    let all =
      ap (edits current_profile es) (renamed st q v rid s e up free)
      ∙ edits-refused current_profile es s'
          (find-replace q new st s.db.students other refl indexed.distinct e) up in
    (ap (λ r. r.db.students) all, ap (λ r. r.answers) all)
