-- ===== src/Http.antt =====
-- server/api/main.js: where a request to the API server goes.
use Prim.Native.Char.{Char}
use Prim.Native.String.append
use Prim.Native.String.{◌++◌ as str_append}
use schulealsstaat.Base.{
  ◌≡◌, refl, ap, ◌∙◌, String, Bool, true, false, Option, none, some, List, [], ◌∷◌, arith, str_eq,
  if◌then◌else◌,
}

-- `url.substring(1)`
unfoldable pub without_first : String → String
without_first String.[] = String.[]
without_first (String.◌∷◌ c s) = s

abbrev pub add_char : Char → List String → List String
add_char c [] = String.◌∷◌ c String.[] ∷ []
add_char c (f ∷ fs) = String.◌∷◌ c f ∷ fs

abbrev pub is_slash : Char → Bool
is_slash c = str_eq (String.◌∷◌ c String.[]) "/"

-- `s.split("/")`
unfoldable pub split : String → List String
split String.[] = "" ∷ []
split (String.◌∷◌ c s) = let rest = split s in if is_slash c then "" ∷ rest else add_char c rest

-- What the server does: the answer to a ping with the status 204, an action with its name, the
-- empty answer to a CORS preflight, or an empty answer.
pub data Route : Type 0 where
  ping preflight nothing : Route
  action : Option String → Route

abbrev pub second : List String → Option String
second [] = none
second (a ∷ []) = none
second (a ∷ b ∷ rest) = some b

abbrev pub head : List String → String
head [] = ""
head (a ∷ rest) = a

-- The handler of `http.createServer`, for a URL and whether the method is POST.
unfoldable pub route : String → Bool → Route
route url is_post =
    let query = split (without_first url) in
    if str_eq (head query) "ping"
    then ping
    else (if str_eq (head query) "action"
        then (if is_post then action (second query) else preflight)
        else nothing)

-- No fragment ends inside the text.
unfoldable pub no_slash : String → Bool
no_slash String.[] = true
no_slash (String.◌∷◌ c s) = let rest = no_slash s in if is_slash c then false else rest

split_name : (name : String) → no_slash name ≡ true → split name ≡ name ∷ []
unfolding no_slash split
split_name String.[] h = refl
split_name (String.◌∷◌ c s) h = ground (arith, split_name s)

slash : (t : String) → str_append "/" t ≡ String.◌∷◌ "/" t
slash t = append.cons "/" "" t ∙ ap (λ (r : String). String.◌∷◌ "/" r) (append.nil t)

split_slash : (t : String) → split (str_append "/" t) ≡ "" ∷ split t
unfolding split
split_slash t = rw (slash t) refl

split-append :
    (w t : String) → no_slash w ≡ true → split (str_append w (str_append "/" t)) ≡ w ∷ split t
unfolding split no_slash
split-append String.[] t h = rw (append.nil (str_append "/" t)) (split_slash t)
split-append (String.◌∷◌ c w) t h =
    ground (arith, append.cons c w (str_append "/" t), split-append w t)

-- A POST request to `/action/` and a name without a slash is routed to the action of that name.
route_action :
    (name : String)
    → no_slash name ≡ true
    → route (str_append "/" (str_append "action" (str_append "/" name))) true ≡ action (some name)
unfolding route without_first no_slash
route_action name h =
    let path =
      split-append "action" name refl
      ∙ ap (λ (l : List String). "action" ∷ l) (split_name name h) in
    rw (slash (str_append "action" (str_append "/" name)), path) refl
