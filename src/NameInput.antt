-- ===== src/NameInput.antt =====
-- client/registration/site/scripts.js: how the registration page cleans names and sends a form. Texts
-- that are cleaned are lists of UTF-16 code units. The change to capitals is not modelled.
pub mod Cleaned
use schulealsstaat.Base.{
  ℕ, zero, suc, ◌<◌, String, Bool, true, false, not, ◌&&◌, ◌||◌, Option, none, some, List, [], ◌∷◌,
  ◌==◌, str_eq, any, ltb, if◌then◌else◌,
}
use schulealsstaat.Actions.Transactions.{utf16_length}
use schulealsstaat.Actions.Registration.{Registration}
use schulealsstaat.Types.{Answer, ok}

abbrev pub space : ℕ
space = 32

abbrev pub starts_with_space : List ℕ → Bool
starts_with_space [] = false
starts_with_space (c ∷ cs) = c == space

-- `name.indexOf("  ") >= 0`
unfoldable pub has_double_space : List ℕ → Bool
has_double_space [] = false
has_double_space (c ∷ cs) = (c == space && starts_with_space cs) || has_double_space cs

-- `name.replace("  ", " ")`, which replaces the first occurrence.
unfoldable pub replace_double_space : List ℕ → List ℕ
replace_double_space [] = []
replace_double_space (c ∷ cs) =
    let rest = replace_double_space cs in
    if c == space && starts_with_space cs then cs else c ∷ rest

-- The `while` loop of `remove_whitespace` on fuel.
unfoldable pub remove_whitespace : ℕ → List ℕ → List ℕ
remove_whitespace zero cs = cs
remove_whitespace (suc fuel) cs =
    let rest = remove_whitespace fuel (replace_double_space cs) in
    if has_double_space cs then rest else cs

-- The loop over the legal characters: the character after one that is deleted takes its index and is
-- not looked at.
unfoldable pub delete_illegal : (ℕ → Bool) → List ℕ → List ℕ
delete_illegal legal [] = []
delete_illegal legal (c ∷ []) = if legal c then c ∷ [] else []
delete_illegal legal (c ∷ d ∷ ds) =
    let looked = delete_illegal legal (d ∷ ds) in
    let skipped = delete_illegal legal ds in if legal c then c ∷ looked else d ∷ skipped

-- `sanitize_names` runs every 100 ms.
unfoldable pub repeatedly : ℕ → (List ℕ → List ℕ) → List ℕ → List ℕ
repeatedly zero f cs = cs
repeatedly (suc n) f cs = repeatedly n f (f cs)

abbrev pub pwd_minlen : ℕ
pwd_minlen = 6

-- The inputs of the page: the fields of the registration, and the password repeated.
pub record Form : Type 0 where
  pub registration : Registration
  pub password_repeat : String

pub data Message : Type 0 where
  passwords_differ password_too_short : Message
  upload_failed : Message
  registration_failed registration_done : Message

-- What a handler does next: a message, the upload of the picture, the registration.
pub data Next : Type 0 where
  shows : Message → Next
  uploads registers : Registration → Next

-- `onSendClick`, with the random name of the picture.
unfoldable pub on_send_click : String → Form → Next
on_send_click picname f =
    if not (str_eq f.registration.password f.password_repeat)
    then shows passwords_differ
    else if ltb (utf16_length f.registration.password) pwd_minlen
    then shows password_too_short
    else uploads (record f.registration { picname = some picname })

-- The callback of `webcamserv_upload`, whose first argument is a text or null.
unfoldable pub on_uploaded : Registration → Option String → Next
on_uploaded rgdat none = shows upload_failed
on_uploaded rgdat (some photores) =
    if str_eq photores "ok" then registers rgdat else shows upload_failed

-- The callback of `register_student`.
unfoldable pub on_registered : Answer → Message
on_registered ok = registration_done
on_registered other = registration_failed
