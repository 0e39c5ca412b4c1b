-- ===== src/Tests/Clients.antt =====
-- The polls, the client's queries, the statistics and the pictures at concrete inputs.
use schulealsstaat.Base.{
  ℕ, zero, suc, ◌+◌, inl, inr, ◌==◌, if◌then◌else◌, ◌≡◌, refl, String, false, none, some, List, [],
  ◌∷◌, All,
}
use schulealsstaat.Server.{Server, Poll}
use schulealsstaat.Cert.{check, calls_of, matching, without_last}
use schulealsstaat.Gate.{Registered, Transport, find_action, prepare_action}
use schulealsstaat.Client.{Crypt, Network, Reply, success_intranet, gateways, action, send_query}
use schulealsstaat.Client.Laws.{IsCareful, send_query-IsCareful}
use schulealsstaat.Client.Roundtrip.{Encoder, first_text, action_roundtrip}
use schulealsstaat.Monitor.{Master, fresh}
use schulealsstaat.Monitor.Laws.{IsStaged}
use schulealsstaat.Webcam.{Host, read_file, sent, upload_image, get_image}
use schulealsstaat.Webcam.Laws.{upload-get}
use schulealsstaat.Actions.Polling.{poll_at}
use schulealsstaat.Actions.Polling.Laws.{PollEvent, found, time_out, poll_events, polling}
use schulealsstaat.Actions.Polling.Answered.{TimesOut, poll_events_answer_once}
use schulealsstaat.Ledger.Answers.{answered}
use schulealsstaat.Tests.World.{world}

-- Anna's two devices wait for transactions.
abbrev polled : Server
polled = record world {
  polls =
      some (record { answer = 7; date = 0; qrid = "anna" })
      ∷ some (record { answer = 8; date = 0; qrid = "anna" })
      ∷ [];
}

-- Cryptography that leaves everything as it is, and JSON of texts.
abbrev crypt : Crypt String String
crypt = record {
  encrypt_passphrase = λ k. k;
  enc = λ x k. x;
  dec = λ x k. some x;
  stringify_query = λ q. q.payload;
  stringify_post = λ k x. x;
  parse_answer = λ x. some x;
}

-- The intranet is down, and the first gateway is not the API server.
abbrev spoofing : Network
spoofing = record { get = λ url t. if t == 1500 then none else some 200; post = λ url x t. some x }

send_query-IsCareful_example : IsCareful crypt spoofing (
    send_query crypt spoofing "student_get" "key"
      (record { payload = "x"; cert = none })
      false
      gateways)
send_query-IsCareful_example =
    send_query-IsCareful crypt spoofing "student_get" "key" (record { payload = "x"; cert = none })
      false gateways

abbrev requests : Master
requests = record {
  perfdata =
      (record { pid = 1; count = 0 }, record (fresh 5) { after_decrypt = some 6 })
      ∷ (record { pid = 1; count = 1 }, fresh 6)
      ∷ [];
  n_req = 2;
}

requests-IsStaged : All IsStaged requests.perfdata
requests-IsStaged = (λ e. refl, (λ e. refl, tt))

abbrev host : Host
host = record {
  parse = λ data'. some (record { name = data'; pic = "pixels" });
  img_path = λ f. f;
  strip = λ p. p;
  from_base64 = λ b. b;
  to_base64 = λ b. b;
  sha256 = λ t. t;
  read_cert = λ fn. "key.";
}

-- For the upload of "a", the picture is what `get` answers with the right certificate.
upload-get_example :
    let (answer, fs) = upload_image host "a" [] in
    (answer ≡ sent "ok") × (get_image host "a" "key?" fs ≡ sent "pixels")
unfolding read_file check calls_of matching without_last
upload-get_example =
    upload-get host "a" "key?" (record { name = "a"; pic = "pixels" }) [] refl refl refl refl

-- A server with one action, and a network with nothing between.
abbrev transport : Transport String
transport = record {
  parse = λ x. some (x, "key");
  decrypt_key = λ k. some k;
  decrypt_query = λ x k. some (record { payload = x; cert = none });
  sha256 = λ x. x;
  read_file = λ fn. "key.";
}

abbrev encoder : Encoder String
encoder = record { stringify = λ x. x; stringify_error = λ x. x; encrypt = λ x k. x }

abbrev served_actions : List (String × Registered String String)
served_actions =
    ("echo", record { cert = none; action = λ p. record { answers = p ∷ []; thrown = none } }) ∷ []

abbrev intranet : Network
intranet = record {
  get = λ url t. some 204;
  post = λ url x t. first_text encoder "key" (prepare_action transport served_actions "echo" x).0;
}

action_roundtrip_example :
    (action crypt intranet "echo" "hello" "key" gateways).calls
    ≡ (Reply.value "hello", success_intranet) ∷ []
unfolding find_action
action_roundtrip_example =
    action_roundtrip crypt transport encoder "echo" "key" "hello"
      (λ p. record { answers = p ∷ []; thrown = none }) served_actions intranet gateways "hello" []
      refl refl refl refl refl refl refl refl (λ post. refl)

-- A query returns nothing, and then both timers run out.
abbrev waits_in_vain : List PollEvent
waits_in_vain = found (("anna", 0 ∷ 1 ∷ []) ∷ []) [] ∷ time_out 1 ∷ time_out 0 ∷ []

polled_timers : (i : ℕ) (p : Poll) → poll_at i polled ≡ some p → TimesOut i waits_in_vain
polled_timers zero p e = inr (inl refl)
polled_timers (suc zero) p e = inl refl
polled_timers (suc (suc i)) p e = cc

poll_events_answer_once_example :
    answered 7 (poll_events waits_in_vain polled).answers
    ≡ answered 7 polled.answers + polling 7 polled.polls
poll_events_answer_once_example = poll_events_answer_once 7 waits_in_vain polled polled_timers
