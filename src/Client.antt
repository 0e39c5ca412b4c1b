-- ===== src/Client.antt =====
-- client/common/api.js: how a client reaches the API server. jQuery, the network, RSA, AES and JSON
-- are parameters.
pub mod Laws
pub mod Roundtrip
use Prim.Native.String.{◌++◌ as str_append}
use schulealsstaat.Base.{
  ℕ, String, Bool, true, false, not, Option, none, some, List, [], ◌∷◌, ◌==◌, str_eq, if◌then◌else◌,
}
use schulealsstaat.Gate.{Query}

abbrev pub timeout_intranet : ℕ
timeout_intranet = 1500

abbrev pub timeout_internet : ℕ
timeout_internet = 4000

abbrev pub timeout_query : ℕ
timeout_query = 5000

abbrev pub timeout_polling : ℕ
timeout_polling = 60000

-- `APIURL`
abbrev pub api_url : String
api_url = "http://api.saeu:1230/"

abbrev pub gateways : List String
gateways = "http://frankfurt.centralbank.eu:1230/" ∷ "http://amsterdam.centralbank.eu:1230/" ∷ []

-- The query status codes.
pub data Status : Type 0 where
  success_intranet success_internet error error_unknown error_spoof error_encryption : Status

-- The first argument of the callback: null, a text about the decryption, or the answer.
pub data Reply (A : Type 0) : Type 0 where
  null : Reply A
  undecryptable : String → Reply A
  value : A → Reply A

-- The client's cryptography and JSON.
pub record Crypt (P A : Type 0) : Type 0 where
  -- `pubkey.encrypt`
  pub encrypt_passphrase : String → String
  -- `GibberishAES.enc` and `GibberishAES.dec` with a text and a passphrase; `dec` may throw
  pub enc : String → String → String
  pub dec : String → String → Option String
  pub stringify_query : Query P → String
  -- of `passphrase` and `encrypted`
  pub stringify_post : String → String → String
  pub parse_answer : String → Option A

-- `$.ajax`: what the server at a URL returns within a timeout, `none` for the error callback.
pub record Network : Type 0 where
  -- the HTTP status of a GET
  pub get : String → ℕ → Option ℕ
  -- the text that a POST with some data returns
  pub post : String → String → ℕ → Option String

pub record Decrypted : Type 0 where
  pub value : String
  pub success : Bool

-- The URLs that the query was posted to, and the calls of the callback.
pub record Outcome (A : Type 0) : Type 0 where
  pub posted : List String
  pub calls : List (Reply A × Status)

module _ {P A : Type 0} (c : Crypt P A) (net : Network) where
  unfoldable pub decrypt_answer : String → String → Decrypted
  decrypt_answer passphrase answer = elim (c.dec answer passphrase) [
    | some t ↦ record { value = t; success = true }
    | none ↦ record { value = str_append "error: (while decrypting) " answer; success = false }
  ]

  -- The `success` function: an answer that is no JSON throws, and nothing is called.
  unfoldable pub on_success : String → String → String → List (Reply A × Status)
  on_success passphrase url res =
      let d = decrypt_answer passphrase res in
      let status = if str_eq url api_url then success_intranet else success_internet in
      if not d.success
      then (undecryptable d.value, error_encryption) ∷ []
      else elim (c.parse_answer d.value) [ none ↦ [] | some a ↦ (Reply.value a, status) ∷ [] ]

  module _ (name passphrase : String) (query : Query P) (polling : Bool) where
    -- `post`
    unfoldable pub post_data : String
    post_data =
        c.stringify_post (c.encrypt_passphrase passphrase)
          (c.enc (c.stringify_query query) passphrase)

    unfoldable pub perform_query : String → List (Reply A × Status)
    perform_query url =
        let timeout = if polling then timeout_polling else timeout_query in
        elim (net.post (str_append url (str_append "action/" name)) post_data timeout) [
          | none ↦ (null, error_unknown) ∷ []
          | some res ↦ on_success passphrase url res
        ]

    unfoldable pub ping_and_perform : String → ℕ → Outcome A → Outcome A
    ping_and_perform url timeout error_cb = elim (net.get (str_append url "ping/") timeout) [
      | none ↦ error_cb
      | some status ↦
          if status == 204
          then record { posted = url ∷ []; calls = perform_query url }
          else record { posted = []; calls = (null, error_spoof) ∷ [] }
    ]

    -- `next`, with the gateways that are left. There is at least one at its first call.
    unfoldable pub next : List String → Outcome A
    next [] = record { posted = []; calls = (null, error) ∷ [] }
    next (url ∷ urls) = ping_and_perform url timeout_internet (next urls)

    -- `send_query`, with the gateways in the order that the random sort leaves them in.
    unfoldable pub send_query : List String → Outcome A
    send_query shuffled = ping_and_perform api_url timeout_intranet (next shuffled)

  unfoldable pub action : String → P → String → List String → Outcome A
  action name payload passphrase =
      send_query name passphrase (record { payload = payload; cert = none }) false

  unfoldable pub action_poll : String → P → String → List String → Outcome A
  action_poll name payload passphrase =
      send_query name passphrase (record { payload = payload; cert = none }) true

  -- With the certificate's text that `get_cert` loads.
  unfoldable pub action_cert : String → P → String → String → List String → Outcome A
  action_cert name payload cert passphrase =
      send_query name passphrase (record { payload = payload; cert = some cert }) false

  -- With the text of the file that was chosen, if there is one.
  unfoldable pub action_mastercert : String → P → Option String → String → List String → Outcome A
  action_mastercert name payload file passphrase shuffled = elim file [
    | none ↦ record { posted = []; calls = [] }
    | some cert ↦
        send_query name passphrase (record { payload = payload; cert = some cert }) false shuffled
  ]
