-- ===== src/RegistrationDesk.antt =====
-- client/adminpanel/site/registration/scripts.js: the registration by the administration, which
-- charges the cards of visitors.
pub mod Charges
pub mod Cards
use schulealsstaat.Base.{
  ℕ, zero, suc, ◌+◌, String, Bool, true, false, not, ◌&&◌, ◌||◌, Option, none, some, List, [], ◌∷◌,
  ◌++◌, get_elem?, str_eq, is_some, if◌then◌else◌,
}
use schulealsstaat.Base.Int.{ℤ, pos, negsuc}
use schulealsstaat.Types.{Amount, Answer, ok}
use schulealsstaat.Actions.Registration.{Registration}
use schulealsstaat.Actions.Transactions.{Payment}

-- The account that money is taken from, as it is kept in the browser.
pub record Settings : Type 0 where
  pub qrid : String
  pub password : String

-- What `JSON.parse` makes of what the browser keeps: an exception after `settings_forget`, null
-- where nothing was ever kept, or the settings.
pub data Stored : Type 0 where
  unparsable never_kept : Stored
  kept : Settings → Stored

-- The inputs: `registration` with the texts of the form, whether the amount is entered, and what
-- `parseFloat` makes of the choice and of the entered text.
pub record Inputs : Type 0 where
  pub registration : Registration
  pub password_repeat : String
  pub enters_value : Bool
  pub chosen : Option ℤ
  pub entered : Option ℤ

pub data Message : Type 0 where
  invalid_value no_settings no_card passwords_differ : Message
  upload_failed : Message
  registration_failed : Answer → Message
  registration_done : Message
  preloaded : Message
  preload_failed : Answer → Message

-- The variables of `send` that its callbacks use.
pub record Work : Type 0 where
  pub registration : Registration
  pub hgc_num : Option ℤ
  pub settings : Option Settings

abbrev pub above_zero : Option ℤ → Option ℤ
above_zero none = none
above_zero (some (pos zero)) = none
above_zero (some (pos (suc n))) = some (pos (suc n))
above_zero (some (negsuc n)) = none

abbrev pub is_unparsable : Stored → Bool
is_unparsable unparsable = true
is_unparsable other = false

abbrev pub settings_of : Stored → Option Settings
settings_of (kept s) = some s
settings_of other = none

abbrev pub qrid_text : Registration → String
qrid_text rg = elim rg.qrid [ none ↦ "" | some q ↦ q ]

abbrev pub hgc_num_of : Inputs → Option ℤ
hgc_num_of i = if i.enters_value then i.entered else i.chosen

-- What `send` does: a message, the upload of the picture, or the registration.
pub data Next : Type 0 where
  shows : Message → Next
  uploads registers : Work → Next

abbrev pub is_class : String → Inputs → Bool
is_class class i = str_eq i.registration.sclass class

abbrev pub has_amount : Inputs → Bool
has_amount i = is_some (above_zero (hgc_num_of i))

abbrev pub lacks_value : Inputs → Bool
lacks_value i = is_class "visitor" i && i.enters_value && not (is_some i.entered)

abbrev pub lacks_card : Inputs → Bool
lacks_card i = has_amount i && str_eq (qrid_text i.registration) ""

abbrev pub work_of : Inputs → Stored → String → Work
work_of i stored picname = record {
  registration = record i.registration { picname = some picname };
  hgc_num = hgc_num_of i;
  settings = settings_of stored;
}

unfoldable pub send : Inputs → Stored → String → Next
send i stored picname =
    if lacks_value i
    then shows invalid_value
    else if is_unparsable stored && has_amount i
    then shows no_settings
    else if lacks_card i
    then shows no_card
    else if not (str_eq i.registration.password i.password_repeat)
    then shows passwords_differ
    else if not (is_class "visitor" i) && not (is_class "legalentity" i)
    then uploads (work_of i stored picname)
    else registers (work_of i stored picname)

-- The queries whose callbacks are waiting, and what has happened: the messages, the registrations
-- that were confirmed, the payments that were sent, and the exceptions.
pub record Page : Type 0 where
  pub uploading : List Work
  pub registering : List Work
  pub paying : ℕ
  pub messages : List Message
  pub registered : List Work
  pub payments : List Payment
  pub exceptions : ℕ

abbrev pub opened : Page
opened = record {
  uploading = [];
  registering = [];
  paying = 0;
  messages = [];
  registered = [];
  payments = [];
  exceptions = 0;
}

abbrev pub tell : Message → Page → Page
tell m p = record p { messages = p.messages ++ m ∷ [] }

-- `window.location.reload()`: no callback is waiting any more.
abbrev pub reload : Page → Page
reload p = record p { uploading = []; registering = []; paying = 0 }

abbrev pub begin : Next → Page → Page
begin (shows m) p = tell m p
begin (uploads w) p = record p { uploading = p.uploading ++ w ∷ [] }
begin (registers w) p = record p { registering = p.registering ++ w ∷ [] }

abbrev pub after_upload : Option Work → Option String → Page → Page
after_upload none res p = p
after_upload (some w) none p = tell upload_failed p
after_upload (some w) (some photores) p =
    if str_eq photores "ok"
    then record p { registering = p.registering ++ w ∷ [] }
    else tell upload_failed p

-- `preload_money`, with the amount.
abbrev pub payment_of : Settings → Registration → ℤ → Payment
payment_of s rg a = record {
  sender = s.qrid;
  sender_password = s.password;
  recipient = qrid_text rg;
  amount_sent = Amount.number a;
  amount_received = Amount.absent;
  comment = some "Besucher - Aufladung";
}

abbrev pub preload_money : Option Settings → Registration → ℤ → Page → Page
preload_money none rg a p = record p { exceptions = p.exceptions + 1 }
preload_money (some s) rg a p = record p {
  payments = p.payments ++ payment_of s rg a ∷ [];
  paying = p.paying + 1;
}

-- The end of the callback of `register_student`.
abbrev pub charge : Work → Option ℤ → Page → Page
charge w none p = reload p
charge w (some a) p =
    if str_eq w.registration.sclass "visitor"
    then preload_money w.settings w.registration a p
    else reload p

abbrev pub after_register : Option Work → Answer → Page → Page
after_register none res p = p
after_register (some w) ok p =
    charge w (above_zero w.hgc_num)
      (tell registration_done (record p { registered = p.registered ++ w ∷ [] }))
after_register (some w) res p = tell (registration_failed res) p

abbrev pub after_preload : ℕ → Answer → Page → Page
after_preload zero res p = p
after_preload (suc n) ok p = reload (tell preloaded p)
after_preload (suc n) res p = reload (tell (preload_failed res) p)

-- A click on `send`, and the answers: of the k-th upload or registration that was sent since the
-- page was loaded, and of a payment.
pub data Event : Type 0 where
  sends : Inputs → Stored → String → Event
  uploaded : ℕ → Option String → Event
  registers_answered : ℕ → Answer → Event
  preload_answered : Answer → Event

unfoldable pub step : Event → Page → Page
step (sends i stored picname) p = begin (send i stored picname) p
step (uploaded k res) p = after_upload (get_elem? p.uploading k) res p
step (registers_answered k res) p = after_register (get_elem? p.registering k) res p
step (preload_answered res) p = after_preload p.paying res p

unfoldable pub run : List Event → Page → Page
run [] p = p
run (e ∷ es) p = run es (step e p)
