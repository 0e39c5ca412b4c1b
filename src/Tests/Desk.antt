-- ===== src/Tests/Desk.antt =====
-- The entry check and the search of the admin panel at small inputs.
use schulealsstaat.Base.{
  String, ◌≡◌, ◌+◌, ◌*◌, none, false, length, All, refl, true, some, List, [], ◌∷◌, ◌++◌, arith,
}
use schulealsstaat.Base.Int.{pos}
use schulealsstaat.Types.{Answer, ok, checkin}
use schulealsstaat.Server.{Server}
use schulealsstaat.Actions.Students.{ec_check, ec_student_get}
use schulealsstaat.EntryCheck.{
  Event, Found, opened, scans, reads, expires, presses, shows, run, found_in,
}
use schulealsstaat.EntryCheck.Counts.{Distinct, count}
use schulealsstaat.EntryCheck.Scans.{asked_once}
use schulealsstaat.EntryCheck.Shows.{check_shows}
use schulealsstaat.Actions.Registration.{Registration}
use schulealsstaat.RegistrationDesk as Desk
use schulealsstaat.RegistrationDesk.Charges.{charges}
use schulealsstaat.RegistrationDesk.Cards.{IsPaidOut, charged_once}
use schulealsstaat.Tests.World.{hgc, world, anna}

-- Anna is held to the scanner twice, Ben once, and Anna again when her timer has run out.
abbrev door : List Event
door =
    scans "anna"
    ∷ scans "anna"
    ∷ reads ("ben" ∷ "" ∷ [])
    ∷ shows "anna" (Answer.student anna) 50000000
    ∷ presses checkin
    ∷ expires 0
    ∷ scans "anna"
    ∷ []

asked_once_example :
    let p = run door opened in
    (p.last_qrids ≡ p.timers)
    × Distinct p.timers
    × ((q : String) → count q p.asked ≡ count q p.expired + count q p.timers)
asked_once_example = asked_once door

abbrev noon : Server
noon = record world { clock = 50000000 }

check_shows_example :
    (f : Found) × (res : Answer) × ((ec_student_get "anna" 8
        (ec_check checkin "anna" 7 noon).1).1.answers
      ≡ noon.answers ++ (7, ok) ∷ (8, res) ∷ [])
    × (found_in res 60000000 ≡ some f)
    × (f.inside ≡ true)
check_shows_example =
    check_shows checkin "anna" 7 8 60000000 noon anna refl refl tt (omega arith) (omega arith)

abbrev visitor : Registration
visitor = record {
  qrid = some "v1";
  password = "secret";
  firstname = none;
  lastname = none;
  special_name = none;
  picname = none;
  country = none;
  sclass = "visitor";
  subclass = "";
  birthyear = "1970";
  birthmonth = "1";
  birthday = "1";
}

-- A visitor is registered and charged with 5 HGC.
abbrev registers_visitor : List Desk.Event
registers_visitor =
    Desk.sends
      (record {
        registration = visitor;
        password_repeat = "secret";
        enters_value = false;
        chosen = some (pos (5 * hgc));
        entered = none;
      })
      (Desk.kept (record { qrid = "cb"; password = "pw" })) "pic"
    ∷ Desk.registers_answered 0 ok
    ∷ Desk.preload_answered ok
    ∷ []

charged_once_example :
    ((Desk.run registers_visitor Desk.opened).payments
      ≡ charges (Desk.run registers_visitor Desk.opened).registered)
    × All IsPaidOut (Desk.run registers_visitor Desk.opened).payments
charged_once_example = charged_once registers_visitor

-- One payment is sent.
charged_visitor : length (Desk.run registers_visitor Desk.opened).payments ≡ 1
unfolding Desk.run Desk.step Desk.send
charged_visitor = refl
