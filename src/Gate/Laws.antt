-- ===== src/Gate/Laws.antt =====
-- server/api/actions/index.js: queries without a certificate.
use schulealsstaat.Base.{
  ◌≡◌, refl, sym, ◌∙◌, inl, inr, String, true, false, ◌&&◌, Option, some, List, [], ◌∷◌, arith,
  str_eq, str_eq_iff, any, if◌then◌else◌,
}
use text.Mathlib.TextPositions.{eq_refl}
use schulealsstaat.Cert.{check, check_iff, provided, opens, without_last, text_or_empty}
use schulealsstaat.Gate.{
  Query, Effect, Registered, Registry, Transport, error, finished, find_action, put_action,
  register_action_cert, authorize, with_key, with_post, prepare_action,
}

check_denied :
    (sha256 read_file : String → String) (files : List String) (cert : Option String)
    → (provided cert
        && any (opens sha256 read_file (sha256 (without_last (text_or_empty cert)))) files)
      ≡ false
    → (check sha256 read_file (some files) cert).denied ≡ true
check_denied sha256 read_file files cert c = elim (check_iff sha256 read_file files cert) [
  | inl (d, _) ↦ d
  | inr (_, o, _) ↦ cc (sym c ∙ o)
]

module _ {P A : Type 0} where
  find-put :
      (name other : String) (r : Registered P A) (rs : Registry P A)
      → find_action other (put_action name r rs)
        ≡ (if str_eq name other then some r else find_action other rs)
  unfolding find_action put_action
  find-put name other r [] = refl
  find-put name other r ((n, q) ∷ rs) = ground (
    arith,
    str_eq_iff name other,
    str_eq_iff n name,
    str_eq_iff n other,
    find-put name other r rs,
  )

  registered :
      (name : String) (files : List String) (action : P → Effect A) (actions : Registry P A)
      → find_action name (register_action_cert name files action actions)
        ≡ some (record { cert = some files; action = action })
  unfolding register_action_cert
  registered name files action actions =
      rw (find-put name name (record { cert = some files; action = action }) actions, eq_refl name)

  module _ (t : Transport P) where
    -- A query that is decrypted, without a certificate whose hash stands in one of the files that
    -- its action was registered with: the action is not run, and the only answer is the refusal.
    pub protected :
        (name : String) (files : List String) (action : P → Effect A) (actions : Registry P A)
        (post encrypted passphrase aes_key : String) (q : Query P)
        → t.parse post ≡ some (encrypted, passphrase)
        → t.decrypt_key passphrase ≡ some aes_key
        → t.decrypt_query encrypted aes_key ≡ some q
        → (provided q.cert
            && any
                (opens t.sha256 t.read_file (t.sha256 (without_last (text_or_empty q.cert))))
                files)
          ≡ false
        → prepare_action t (register_action_cert name files action actions) name post
          ≡ (error "incorrect certificate" ∷ [], finished)
    unfolding prepare_action with_post with_key authorize
    protected name files action actions post encrypted passphrase aes_key q p k d c = ground (
      arith,
      registered name files action actions,
      check_denied t.sha256 t.read_file files q.cert c,
    )
