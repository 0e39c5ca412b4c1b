-- ===== src/EntryCheck.antt =====
-- client/entrycheck/www/default/scripts.js: the cards that are scanned at the door, the list of
-- those scanned in the last five seconds, and the check-ins and check-outs that are sent.
pub mod Counts
pub mod Scans
pub mod Shows
use schulealsstaat.Base.{
  ℕ, zero, suc, ◌+◌, ◌-◌, ◌*◌, ◌/◌, String, Bool, true, false, not, Option, none, some, List, [],
  ◌∷◌, ◌++◌, get_elem?, first, keep, any, map, str_eq, ◌==◌, if◌then◌else◌,
}
use schulealsstaat.Base.Int.{ℤ, pos, negsuc}
use schulealsstaat.Types.{Student, Answer, ok, AppearType}
use schulealsstaat.App.{full_name}
use schulealsstaat.Checkin.{calc_checkin_time}

-- Seconds
abbrev pub presence_since : ℕ
presence_since = 12 * 60 * 60

-- What a card shows of a student that was found.
pub record Found : Type 0 where
  pub inside : Bool
  pub minutes : ℤ
  pub name : String
  pub class : String

pub record Card : Type 0 where
  pub number : ℕ
  pub qrid : String
  pub found : Option Found

-- A check-in or check-out that was sent from a card.
pub record CheckQuery : Type 0 where
  pub type : AppearType
  pub card : ℕ
  pub qrid : String

pub record Page : Type 0 where
  pub last_qrids : List String
  -- the QR-IDs whose timers of five seconds run, in the order in which they were started
  pub timers : List String
  -- the QR-IDs that were asked for, and those whose timers ran out
  pub asked : List String
  pub expired : List String
  pub cards : List Card
  pub next_card : ℕ
  pub checks : List CheckQuery
  pub alerts : List Answer

abbrev pub opened : Page
opened = record {
  last_qrids = [];
  timers = [];
  asked = [];
  expired = [];
  cards = [];
  next_card = 0;
  checks = [];
  alerts = [];
}

abbrev pub contains : String → List String → Bool
contains q qs = any (str_eq q) qs

-- `splice(indexOf(q), 1)`: the first one goes; if there is none, `indexOf` is -1 and the last goes.
abbrev pub drop_last : List String → List String
drop_last [] = []
drop_last (x ∷ []) = []
drop_last (x ∷ y ∷ xs) = x ∷ drop_last (y ∷ xs)

abbrev pub drop_first : String → List String → List String
drop_first q [] = []
drop_first q (x ∷ xs) = let rest = drop_first q xs in if str_eq q x then xs else x ∷ rest

unfoldable pub splice_qrid : String → List String → List String
splice_qrid q qs = if contains q qs then drop_first q qs else drop_last qs

-- `addActionCard`, up to its query.
unfoldable pub add_action_card : String → Page → Page
add_action_card q p = if contains q p.last_qrids then p else record p {
  last_qrids = p.last_qrids ++ q ∷ [];
  timers = p.timers ++ q ∷ [];
  asked = p.asked ++ q ∷ [];
}

-- The timer that was started before the others that run, counted from 0.
abbrev pub remove_at : ℕ → List String → List String
remove_at i [] = []
remove_at zero (x ∷ xs) = xs
remove_at (suc i) (x ∷ xs) = x ∷ remove_at i xs

abbrev pub forget_timer : ℕ → Option String → Page → Page
forget_timer i none p = p
forget_timer i (some q) p = record p {
  timers = remove_at i p.timers;
  expired = p.expired ++ q ∷ [];
  last_qrids = splice_qrid q p.last_qrids;
}

unfoldable pub forget : ℕ → Page → Page
forget i p = forget_timer i (get_elem? p.timers i) p

-- `Math.floor(seconds / 60)`
abbrev pub minutes_of : ℤ → ℤ
minutes_of (pos n) = pos (n / 60)
minutes_of (negsuc n) = negsuc (n / 60)

-- The period begins twelve hours before now.
abbrev pub since : ℕ → ℕ
since now = now - presence_since * 1000

abbrev pub found_of : Student → ℕ → Found
found_of st now =
    let spec = calc_checkin_time st.appear (since now) now in
    record { inside = spec.1; minutes = minutes_of spec.0; name = full_name st; class = st.type }

unfoldable pub found_in : Answer → ℕ → Option Found
found_in (Answer.student st) now = some (found_of st now)
found_in other now = none

-- The callback of `ec_student_get`.
unfoldable pub show_card : String → Answer → ℕ → Page → Page
show_card q res now p = record p {
  cards = p.cards ++ record { number = p.next_card; qrid = q; found = found_in res now } ∷ [];
  next_card = suc p.next_card;
}

-- The lines of a block that `split` made: the last one is left out.
unfoldable pub read_lines : List String → Page → Page
read_lines [] p = p
read_lines (q ∷ []) p = p
read_lines (q ∷ q' ∷ qs) p = read_lines (q' ∷ qs) (add_action_card q p)

abbrev pub check_of : AppearType → Card → CheckQuery
check_of type c = record { type = type; card = c.number; qrid = c.qrid }

abbrev pub has_number : ℕ → Card → Bool
has_number n c = c.number == n

abbrev pub click_card : AppearType → Option Card → Page → Page
click_card type none p = p
click_card type (some c) p = record p { checks = p.checks ++ check_of type c ∷ [] }

-- `.checkin` and `.checkout` of a card.
unfoldable pub click : AppearType → ℕ → Page → Page
click type n p = click_card type (first (has_number n) p.cards) p

-- The keys click the buttons of all cards.
unfoldable pub press : AppearType → Page → Page
press type p = record p { checks = p.checks ++ map (check_of type) p.cards }

unfoldable pub close : ℕ → Page → Page
close n p = record p { cards = keep (λ (c : Card). not (has_number n c)) p.cards }

abbrev pub after_check : CheckQuery → Answer → Page → Page
after_check q ok p = close q.card p
after_check q res p = record p { alerts = p.alerts ++ res ∷ [] }

abbrev pub answer_check : Option CheckQuery → Answer → Page → Page
answer_check none res p = p
answer_check (some q) res p = after_check q res p

-- The callback of `ec_checkin` and `ec_checkout`.
unfoldable pub checked : ℕ → Answer → Page → Page
checked k res p = answer_check (get_elem? p.checks k) res p

pub data Event : Type 0 where
  scans : String → Event
  reads : List String → Event
  expires : ℕ → Event
  shows : String → Answer → ℕ → Event
  clicks : AppearType → ℕ → Event
  presses : AppearType → Event
  closes : ℕ → Event
  answers : ℕ → Answer → Event

unfoldable pub step : Event → Page → Page
step (scans q) p = add_action_card q p
step (reads qs) p = read_lines qs p
step (expires i) p = forget i p
step (shows q res now) p = show_card q res now p
step (clicks type n) p = click type n p
step (presses type) p = press type p
step (closes n) p = close n p
step (answers k res) p = checked k res p

unfoldable pub run : List Event → Page → Page
run [] p = p
run (e ∷ es) p = run es (step e p)
