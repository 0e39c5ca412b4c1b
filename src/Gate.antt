-- ===== src/Gate.antt =====
-- server/api/actions/index.js: the registry of actions and the handling of a request, from the
-- POST data to the answers. JSON, RSA and AES are parameters: each fails or returns a value.
pub mod Laws
use schulealsstaat.Base.{
  ℕ, zero, suc, String, Bool, true, false, Option, none, some, List, [], ◌∷◌, ◌++◌, str_eq,
  if◌then◌else◌,
}
use schulealsstaat.Cert.{check}

-- The decrypted query.
pub record Query (P : Type 0) : Type 0 where
  pub payload : P
  pub cert : Option String

-- What the handler of an action does: its answers, and the exception that it ends with, if any.
pub record Effect (A : Type 0) : Type 0 where
  pub answers : List A
  pub thrown : Option String

pub record Registered (P A : Type 0) : Type 0 where
  -- `false` is no certificate
  pub cert : Option (List String)
  pub action : P → Effect A

abbrev pub Registry : Type 0 → Type 0 → Type 0
Registry P A = List (String × Registered P A)

-- What is written to the response: a plain text, an encrypted error, or an encrypted answer.
pub data Response (A : Type 0) : Type 0 where
  plain : String → Response A
  error : String → Response A
  reply : A → Response A

-- Whether the handler of the request ends, or an exception that nothing catches stops the worker.
pub data Ending : Type 0 where
  finished crashed : Ending

-- The parts of the transport that are not in the repository.
pub record Transport (P : Type 0) : Type 0 where
  -- `JSON.parse(post)`: `encrypted` and `passphrase`
  pub parse : String → Option (String × String)
  -- `decrypt_aes_key`
  pub decrypt_key : String → Option String
  -- AES decryption with the key, then `JSON.parse`
  pub decrypt_query : String → String → Option (Query P)
  pub sha256 : String → String
  pub read_file : String → String

module _ {A : Type 0} where
  replies : List A → List (Response A)
  replies [] = []
  replies (a ∷ rest) = reply a ∷ replies rest

  -- One call of the action: an exception is caught and answered.
  unfoldable pub run_action : Effect A → List (Response A)
  unfolding replies
  run_action e = elim e.thrown [
    | none ↦ replies e.answers
    | some x ↦ replies e.answers ++ error x ∷ []
  ]

  unfoldable pub run_times : ℕ → Effect A → List (Response A)
  run_times zero e = []
  run_times (suc n) e = run_action e ++ run_times n e

module _ {P A : Type 0} where
  unfoldable pub find_action : String → Registry P A → Option (Registered P A)
  find_action name [] = none
  find_action name ((n, r) ∷ rs) = if str_eq n name then some r else find_action name rs

  unfoldable pub put_action : String → Registered P A → Registry P A → Registry P A
  put_action name r [] = (name, r) ∷ []
  put_action name r ((n, q) ∷ rs) =
      if str_eq n name then (name, r) ∷ rs else (n, q) ∷ put_action name r rs

  unfoldable pub register_action : String → (P → Effect A) → Registry P A → Registry P A
  register_action name action = put_action name (record { cert = none; action = action })

  unfoldable pub register_action_cert :
      String → List String → (P → Effect A) → Registry P A → Registry P A
  register_action_cert name cert action =
      put_action name (record { cert = some cert; action = action })

  module _ (t : Transport P) where
    -- With the query decrypted: the certificate is checked, and the action is run once for each
    -- call of the callback.
    unfoldable pub authorize : Registered P A → Query P → List (Response A)
    authorize r q =
        let v = check t.sha256 t.read_file r.cert q.cert in
        if v.denied
        then error "incorrect certificate" ∷ []
        else run_times v.calls (r.action q.payload)

    -- A query that cannot be decrypted is answered, but the code goes on with `query.cert` of an
    -- undefined `query`, outside of any `try`.
    unfoldable pub with_key : Registered P A → String → String → List (Response A) × Ending
    with_key r encrypted aes_key = elim (t.decrypt_query encrypted aes_key) [
      | none ↦ (error "decrypt_query" ∷ [], crashed)
      | some q ↦ (authorize r q, finished)
    ]

    unfoldable pub with_post : Registered P A → String → List (Response A) × Ending
    with_post r post = elim (t.parse post) [
      | none ↦ (plain "error: parse" ∷ [], finished)
      | some (encrypted, passphrase) ↦ elim (t.decrypt_key passphrase) [
        | none ↦ (plain "error: decrypt" ∷ [], finished)
        | some aes_key ↦ with_key r encrypted aes_key
      ]
    ]

    unfoldable pub prepare_action : Registry P A → String → String → List (Response A) × Ending
    prepare_action actions name post = elim (find_action name actions) [
      | none ↦ (plain "error: invalid action" ∷ [], finished)
      | some r ↦ with_post r post
    ]
