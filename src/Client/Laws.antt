-- ===== src/Client/Laws.antt =====
-- What a client may rely on when it sends a query, and the whole way to an action and back.
use Prim.Native.String.{◌++◌ as str_append}
use schulealsstaat.Base.{
  ℕ, ◌≤◌, ◌≡◌, String, Bool, false, none, some, List, [], ◌∷◌, arith, length, ◌==◌, ==_iff, All,
  inl, inr, Option-cases, Bool-cases,
}
use schulealsstaat.Gate.{Query}
use schulealsstaat.Client.{
  Status, null, Crypt, Network, Outcome, api_url, timeout_intranet, timeout_internet, on_success,
  perform_query, ping_and_perform, next, send_query,
}

module _ {P A : Type 0} (c : Crypt P A) (net : Network) where
  -- A server that answered the ping the way the API server does.
  abbrev pub Verified : String → Type 0
  Verified url = (t : ℕ) × (net.get (str_append url "ping/") t ≡ some 204)

  -- The query goes to one server at most, which has been verified, and the callback is called once
  -- at most.
  abbrev pub IsCareful : Outcome A → Type 0
  IsCareful o = (length o.posted ≤ 1) × (length o.calls ≤ 1) × All Verified o.posted

  perform_query_once :
      (name passphrase : String) (query : Query P) (polling : Bool) (url : String)
      → length (perform_query c net name passphrase query polling url) ≤ 1
  unfolding perform_query on_success
  perform_query_once name passphrase query polling url = ground arith

  unanswered :
      (name passphrase : String) (query : Query P) (polling : Bool) (url : String) (timeout : ℕ)
      (o : Outcome A)
      → net.get (str_append url "ping/") timeout ≡ none
      → ping_and_perform c net name passphrase query polling url timeout o ≡ o
  unfolding ping_and_perform
  unanswered name passphrase query polling url timeout o e = ground arith

  pub verified :
      (name passphrase : String) (query : Query P) (polling : Bool) (url : String) (timeout : ℕ)
      (o : Outcome A)
      → net.get (str_append url "ping/") timeout ≡ some 204
      → ping_and_perform c net name passphrase query polling url timeout o ≡ record {
        posted = url ∷ [];
        calls = perform_query c net name passphrase query polling url;
      }
  unfolding ping_and_perform
  verified name passphrase query polling url timeout o e = ground arith

  spoofed :
      (name passphrase : String) (query : Query P) (polling : Bool) (url : String) (timeout : ℕ)
      (o : Outcome A) (status : ℕ)
      → net.get (str_append url "ping/") timeout ≡ some status
      → (status == 204) ≡ false
      → ping_and_perform c net name passphrase query polling url timeout o
        ≡ record { posted = []; calls = (null, Status.error_spoof) ∷ [] }
  unfolding ping_and_perform
  spoofed name passphrase query polling url timeout o status e n = ground arith

  ping_and_perform-IsCareful :
      (name passphrase : String) (query : Query P) (polling : Bool) (url : String) (timeout : ℕ)
      (o : Outcome A)
      → IsCareful o
      → IsCareful (ping_and_perform c net name passphrase query polling url timeout o)
  ping_and_perform-IsCareful name passphrase query polling url timeout o h =
      elim (Option-cases (net.get (str_append url "ping/") timeout)) [
        | inl e ↦ rw (unanswered name passphrase query polling url timeout o e) h
        | inr (status, e) ↦ elim (Bool-cases (status == 204)) [
          | inl y ↦
              let is_204 = rw ((==_iff status 204).0 y) at e in
              rw (verified name passphrase query polling url timeout o is_204) (
                omega arith,
                perform_query_once name passphrase query polling url,
                ((timeout, is_204), tt),
              )
          | inr n ↦
              rw (spoofed name passphrase query polling url timeout o status e n)
                (omega arith, omega arith, tt)
        ]
      ]

  next-IsCareful :
      (name passphrase : String) (query : Query P) (polling : Bool) (urls : List String)
      → IsCareful (next c net name passphrase query polling urls)
  unfolding next
  next-IsCareful name passphrase query polling [] = (omega arith, omega arith, tt)
  next-IsCareful name passphrase query polling (url ∷ urls) =
      ping_and_perform-IsCareful name passphrase query polling url timeout_internet _
        (next-IsCareful name passphrase query polling urls)

  -- Whatever the network does, a query is posted to one server at most and only to one whose
  -- answer to the ping had the status 204, and the callback is called at most once.
  pub send_query-IsCareful :
      (name passphrase : String) (query : Query P) (polling : Bool) (shuffled : List String)
      → IsCareful (send_query c net name passphrase query polling shuffled)
  unfolding send_query
  send_query-IsCareful name passphrase query polling shuffled =
      ping_and_perform-IsCareful name passphrase query polling api_url timeout_intranet _
        (next-IsCareful name passphrase query polling shuffled)
