-- ===== src/Monitor.antt =====
-- server/api/monitor.js: what the master process knows of the running requests. The current time
-- is an argument, and a time counts as set once it has a value.
pub mod Laws
use schulealsstaat.Base.{
  ℕ, zero, suc, ◌+◌, ◌-◌, String, Bool, true, false, not, ◌&&◌, Option, none, some, List, [], ◌∷◌,
  ◌==◌, any, is_some, keep, length, str_eq, if◌then◌else◌,
}

-- `process.pid + "_" + count`
pub record RequestId : Type 0 where
  pub pid : ℕ
  pub count : ℕ

abbrev pub same_id : RequestId → RequestId → Bool
same_id a b = a.pid == b.pid && a.count == b.count

pub data MessageType : Type 0 where
  req_begin req_after_decrypt req_after_action req_end : MessageType

pub record Message : Type 0 where
  pub type : MessageType
  pub id : Option RequestId

-- An element of `perfdata`.
pub record Perf : Type 0 where
  pub begin : ℕ
  pub after_decrypt : Option ℕ
  pub after_action : Option ℕ
  pub end : Option ℕ

pub record Master : Type 0 where
  pub perfdata : List (RequestId × Perf)
  pub n_req : ℕ

-- `perfdata[id]`
unfoldable pub find_perf : RequestId → List (RequestId × Perf) → Option Perf
find_perf id [] = none
find_perf id ((i, p) ∷ ps) = if same_id i id then some p else find_perf id ps

unfoldable pub put_perf : RequestId → Perf → List (RequestId × Perf) → List (RequestId × Perf)
put_perf id p [] = (id, p) ∷ []
put_perf id p ((i, q) ∷ ps) =
    let rest = put_perf id p ps in if same_id i id then (id, p) ∷ ps else (i, q) ∷ rest

-- `delete perfdata[id]`
unfoldable pub delete_perf : RequestId → List (RequestId × Perf) → List (RequestId × Perf)
delete_perf id [] = []
delete_perf id ((i, p) ∷ ps) =
    let rest = delete_perf id ps in if same_id i id then ps else (i, p) ∷ rest

-- The assignment that a message other than `req_begin` makes to a known element.
unfoldable pub mark : MessageType → ℕ → Perf → Perf
mark req_begin now p = p
mark req_after_decrypt now p = record p { after_decrypt = some now }
mark req_after_action now p = record p { after_action = some now }
mark req_end now p = record p { end = some now }

unfoldable pub known : MessageType → RequestId → ℕ → Master → Master
known type id now m = elim (find_perf id m.perfdata) [
  | none ↦ m
  | some p ↦ record m { perfdata = put_perf id (mark type now p) m.perfdata }
]

abbrev pub fresh : ℕ → Perf
fresh now = record { begin = now; after_decrypt = none; after_action = none; end = none }

-- `worker.on("message")` for a message with an id.
unfoldable pub on_message : MessageType → RequestId → ℕ → Master → Master
on_message req_begin id now m = record {
  perfdata = put_perf id (fresh now) m.perfdata;
  n_req = suc m.n_req;
}
on_message req_after_decrypt id now m = known req_after_decrypt id now m
on_message req_after_action id now m = known req_after_action id now m
on_message req_end id now m = known req_end id now m

-- The timeout that `req_begin` sets.
unfoldable pub deprecate : RequestId → Master → Master
deprecate id m = record m { perfdata = delete_perf id m.perfdata }

-- The numbers of a performance report; a mean is its sum and its count.
pub record Report : Type 0 where
  pub new_requests : ℕ
  pub n_finished : ℕ
  pub total_worktime : ℕ
  pub n_pending : ℕ
  pub pending_decrypt : ℕ
  pub pending_action : ℕ
  pub pending_encrypt : ℕ
  pub total_pending_since : ℕ

abbrev pub is_finished : RequestId × Perf → Bool
is_finished (_, p) = is_some p.end

abbrev pub is_pending : RequestId × Perf → Bool
is_pending (_, p) = not (is_some p.end)

abbrev pub in_decrypt : RequestId × Perf → Bool
in_decrypt (_, p) = not (is_some p.after_decrypt)

abbrev pub in_action : RequestId × Perf → Bool
in_action (_, p) = is_some p.after_decrypt && not (is_some p.after_action)

abbrev pub in_encrypt : RequestId × Perf → Bool
in_encrypt (_, p) = is_some p.after_action && not (is_some p.end)

abbrev pub count_if : (RequestId × Perf → Bool) → List (RequestId × Perf) → ℕ
count_if test [] = 0
count_if test (p ∷ ps) = (if test p then 1 else 0) + count_if test ps

-- `end - begin`; the clock does not run backwards.
abbrev pub worktime : List (RequestId × Perf) → ℕ
worktime [] = 0
worktime ((_, p) ∷ ps) = (elim p.end [ none ↦ 0 | some t ↦ t - p.begin ]) + worktime ps

abbrev pub pending_since : ℕ → List (RequestId × Perf) → ℕ
pending_since now [] = 0
pending_since now ((_, p) ∷ ps) = (now - p.begin) + pending_since now ps

unfoldable pub report : ℕ → Master → Report
report now m =
    let finished = keep is_finished m.perfdata in
    let pending = keep is_pending m.perfdata in
    record {
      new_requests = m.n_req;
      n_finished = length finished;
      total_worktime = worktime finished;
      n_pending = length pending;
      pending_decrypt = count_if in_decrypt pending;
      pending_action = count_if in_action pending;
      pending_encrypt = count_if in_encrypt pending;
      total_pending_since = pending_since now pending;
    }

-- `n_req = 0` at the end of a report.
unfoldable pub reported : Master → Master
reported m = record m { n_req = 0 }

-- A worker counts the requests that it reports. It does not report the polls.
pub record Worker : Type 0 where
  pub pid : ℕ
  pub count : ℕ

abbrev pub blacklist : List String
blacklist = "transactions_poll" ∷ []

abbrev pub is_blacklisted : String → Bool
is_blacklisted name = any (str_eq name) blacklist

-- `req_begin`: the id that it returns, the message that it sends, and the worker after it.
unfoldable pub begin_request : String → Worker → Option RequestId × List Message × Worker
begin_request name w =
    let id : RequestId = record { pid = w.pid; count = w.count } in
    if is_blacklisted name
    then (none, [], w)
    else (some id, record { type = req_begin; id = some id } ∷ [], record w { count = suc w.count })

-- `req_after_decrypt`, `req_after_action` and `req_end`
unfoldable pub send_message : MessageType → Option RequestId → String → List Message
send_message type id name = if is_blacklisted name then [] else record { type = type; id = id } ∷ []
