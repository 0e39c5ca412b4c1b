-- ===== src/Cert.antt =====
-- server/common/cert.js: which certificates give access. The hash function and the hash files
-- stand for node's crypto and fs modules.
use schulealsstaat.Base.{
  ℕ, ◌+◌, ◌<◌, ◌≡◌, refl, ◌⊎◌, String, Bool, true, false, Option, none, some, List, [], ◌∷◌, ◌&&◌,
  arith, str_eq, any, ◌==◌, if◌then◌else◌,
}

-- `text.slice(0, -1)`
unfoldable pub without_last : String → String
without_last String.[] = String.[]
without_last (String.◌∷◌ c String.[]) = String.[]
without_last (String.◌∷◌ c (String.◌∷◌ d s)) = String.◌∷◌ c (without_last (String.◌∷◌ d s))

-- How often `cb` is called, and whether `cb_false` is.
pub record Verdict : Type 0 where
  pub calls : ℕ
  pub denied : Bool

abbrev pub provided : Option String → Bool
provided none = false
provided (some c) = if str_eq c "" then false else true

abbrev pub text_or_empty : Option String → String
text_or_empty none = ""
text_or_empty (some c) = c

module _ (sha256 : String → String) (read_file : String → String) where
  abbrev pub opens : String → String → Bool
  opens hash fn = str_eq (without_last (read_file fn)) hash

  -- The loop over the hash files has no `break`: every file that fits calls `cb`.
  unfoldable pub matching : String → List String → ℕ
  matching hash [] = 0
  matching hash (fn ∷ fns) = (if opens hash fn then 1 else 0) + matching hash fns

  unfoldable pub calls_of : List String → Option String → ℕ
  calls_of hashfiles cert =
      if provided cert then matching (sha256 (without_last (text_or_empty cert))) hashfiles else 0

  unfoldable pub check : Option (List String) → Option String → Verdict
  check none cert = record { calls = 1; denied = false }
  check (some hashfiles) cert = record {
    calls = calls_of hashfiles cert;
    denied = calls_of hashfiles cert == 0;
  }

  any-matching :
      (hash : String) (fns : List String)
      → any (opens hash) fns ≡ (if matching hash fns == 0 then false else true)
  unfolding matching
  any-matching hash [] = refl
  any-matching hash (fn ∷ fns) = ground (arith, any-matching hash fns)

  -- A protected action is let through exactly if a certificate is provided and its hash stands in
  -- one of the action's files; otherwise, and only then, it is refused.
  pub check_iff :
      (hashfiles : List String) (cert : Option String)
      → ((check (some hashfiles) cert).denied ≡ true)
          × (provided cert && any (opens (sha256 (without_last (text_or_empty cert)))) hashfiles
              ≡ false)
        ⊎ (0 < (check (some hashfiles) cert).calls)
          × (provided cert && any (opens (sha256 (without_last (text_or_empty cert)))) hashfiles
              ≡ true)
          × ((check (some hashfiles) cert).denied ≡ false)
  unfolding check calls_of
  check_iff hashfiles cert =
      ground (arith, any-matching (sha256 (without_last (text_or_empty cert))) hashfiles)
