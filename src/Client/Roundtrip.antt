-- ===== src/Client/Roundtrip.antt =====
-- The whole way of a query: client/common/api.js encrypts it, server/api/actions/index.js decrypts
-- it, runs the action and encrypts the answer, and the client decrypts that.
use Prim.Native.String.{◌++◌ as str_append}
use schulealsstaat.Base.{◌≡◌, ap, ◌∙◌, String, false, Option, none, some, List, [], ◌∷◌, arith}
use schulealsstaat.Gate.{
  Query, Effect, Registry, Response, Transport, plain, error, reply, find_action, prepare_action,
  with_post, with_key, authorize, run_action, run_times,
}
use schulealsstaat.Cert.{check, calls_of}
use schulealsstaat.Client.{
  success_intranet, Reply, Crypt, Network, api_url, timeout_intranet, timeout_query, decrypt_answer,
  on_success, post_data, perform_query, next, Outcome, send_query, action,
}
use schulealsstaat.Client.Laws.{verified}

-- The server's side of JSON and AES.
pub record Encoder (A : Type 0) : Type 0 where
  pub stringify : A → String
  pub stringify_error : String → String
  -- of a text with a key
  pub encrypt : String → String → String

module _ {A : Type 0} (e : Encoder A) where
  -- `encrypt_query` in `API_answer`; the errors before the key is known are plain.
  unfoldable pub encode : String → Response A → String
  encode key (plain t) = t
  encode key (error t) = e.encrypt (e.stringify_error t) key
  encode key (reply a) = e.encrypt (e.stringify a) key

  -- The client gets what the first call of `res.end` writes, if there is one.
  unfoldable pub first_text : String → List (Response A) → Option String
  first_text key [] = none
  first_text key (r ∷ rs) = some (encode key r)

abbrev pub without_cert : {P : Type 0} → P → Query P
without_cert payload = record { payload = payload; cert = none }

module _ {P A : Type 0} (c : Crypt P A) (t : Transport P) (e : Encoder A) where
  served :
      (name passphrase : String) (payload : P) (handler : P → Effect A) (actions : Registry P A)
      (net : Network)
      → let encrypted = c.enc (c.stringify_query (without_cert payload)) passphrase in
        let key = c.encrypt_passphrase passphrase in
        t.parse (c.stringify_post key encrypted) ≡ some (encrypted, key)
        → t.decrypt_key (c.encrypt_passphrase passphrase) ≡ some passphrase
        → t.decrypt_query (c.enc (c.stringify_query (without_cert payload)) passphrase) passphrase
          ≡ some (without_cert payload)
        → find_action name actions ≡ some (record { cert = none; action = handler })
        → (prepare_action t actions name
            (post_data c net name passphrase (without_cert payload) false)).0
          ≡ run_times 1 (handler payload)
  unfolding prepare_action with_post with_key authorize check calls_of post_data
  served name passphrase payload handler actions net parsed rsa aes f = ground arith

  performed :
      (name passphrase : String) (q : Query P) (net : Network) (text : String) (a : A)
      → net.post
          (str_append api_url (str_append "action/" name))
          (post_data c net name passphrase q false)
          timeout_query
        ≡ some text
      → c.dec text passphrase ≡ some (e.stringify a)
      → c.parse_answer (e.stringify a) ≡ some a
      → perform_query c net name passphrase q false api_url ≡ (Reply.value a, success_intranet) ∷ []
  unfolding perform_query on_success decrypt_answer
  performed name passphrase q net text a got d j = ground arith

  first_reply :
      (key : String) (f : Effect A) (a : A) (rest : List A)
      → f.answers ≡ a ∷ rest
      → first_text e key (run_times 1 f) ≡ some (e.encrypt (e.stringify a) key)
  unfolding first_text encode run_times run_action
  first_reply key f a rest h = ground arith

  -- If the post, the key, the query and the answer survive being encoded and decoded, the ping to
  -- the API server is answered with the status 204, and the query's answer is the first text that
  -- the server's gate writes, then the callback of an action without a certificate is called once,
  -- with the first answer of the action, and with the status of the intranet.
  pub action_roundtrip :
      (name passphrase : String) (payload : P) (handler : P → Effect A) (actions : Registry P A)
      (net : Network) (shuffled : List String) (a : A) (rest : List A)
      → let encrypted = c.enc (c.stringify_query (without_cert payload)) passphrase in
        let key = c.encrypt_passphrase passphrase in
        t.parse (c.stringify_post key encrypted) ≡ some (encrypted, key)
        → t.decrypt_key (c.encrypt_passphrase passphrase) ≡ some passphrase
        → t.decrypt_query (c.enc (c.stringify_query (without_cert payload)) passphrase) passphrase
          ≡ some (without_cert payload)
        → c.dec (e.encrypt (e.stringify a) passphrase) passphrase ≡ some (e.stringify a)
        → c.parse_answer (e.stringify a) ≡ some a
        → find_action name actions ≡ some (record { cert = none; action = handler })
        → (handler payload).answers ≡ a ∷ rest
        → net.get (str_append api_url "ping/") timeout_intranet ≡ some 204
        → ((post : String)
            → net.post (str_append api_url (str_append "action/" name)) post timeout_query
              ≡ first_text e passphrase (prepare_action t actions name post).0)
        → (action c net name payload passphrase shuffled).calls
          ≡ (Reply.value a, success_intranet) ∷ []
  unfolding action send_query
  action_roundtrip name passphrase payload handler actions net shuffled a rest =
      λ parsed rsa aes back json f h p reached.
        let q = without_cert payload in
        let got =
          reached (post_data c net name passphrase q false)
          ∙ ap (first_text e passphrase)
              (served name passphrase payload handler actions net parsed rsa aes f)
          ∙ first_reply passphrase (handler payload) a rest h in
        ap (λ (o : Outcome A). o.calls)
          (verified c net name passphrase q false api_url timeout_intranet
            (next c net name passphrase q false shuffled) p)
        ∙ performed name passphrase q net (e.encrypt (e.stringify a) passphrase) a got back json
