-- ===== src/Tests/Services.antt =====
-- The gate, the configuration and the check-in time at concrete inputs.
use schulealsstaat.Base.{◌≡◌, refl, String, Bool, true, false, none, some, List, [], ◌∷◌, arith}
use schulealsstaat.Base.Int.{pos, ◌≤ℤ◌, ◌+ℤ◌, ◌-ℤ◌}
use schulealsstaat.Types.{Appear, checkin, checkout}
use schulealsstaat.Cert.{without_last}
use schulealsstaat.Gate.{Effect, Transport, error, finished, prepare_action, register_action_cert}
use schulealsstaat.Gate.Laws.{protected}
use schulealsstaat.Config.{Worker, get, update_config, set_config}
use schulealsstaat.Config.Sync.{get-update_config-set_config}
use schulealsstaat.Checkin.{
  Check, calc_checkin_time, round_seconds, time_inside, intervals_of, start, walk,
  last_check_before_begin, sorted_checks,
}
use schulealsstaat.Checkin.Bounds.{calc_checkin_time_bounds}

abbrev same_text : String → String
same_text t = t

-- Every certificate file holds `key` and one more character.
abbrev key_file : String → String
key_file fn = "key."

abbrev transport : Bool → Transport String
transport readable = record {
  parse = λ post. some (post, post);
  decrypt_key = λ k. some k;
  decrypt_query = λ e k. elim readable [
    | true ↦ some (record { payload = e; cert = some "bad?" })
    | false ↦ none
  ];
  sha256 = same_text;
  read_file = key_file;
}

abbrev echo : String → Effect String
echo p = record { answers = p ∷ []; thrown = none }

protected_example :
    prepare_action
      (transport true)
      (register_action_cert "student_delete" ("master_hash" ∷ []) echo [])
      "student_delete"
      "x"
    ≡ (error "incorrect certificate" ∷ [], finished)
unfolding without_last
protected_example =
    protected (transport true) "student_delete" ("master_hash" ∷ []) echo [] "x" "x" "x" "x"
      (record { payload = "x"; cert = some "bad?" }) refl refl refl refl

abbrev worker : Worker
worker = record {
  log = record { key = "poll_max"; value = some "20"; time = 3 } ∷ [];
  config = ("poll_max", "50") ∷ ("magic_account", "Zentralbank") ∷ [];
  clock = 8;
  connected = true;
}

get-update_config-set_config_example :
    get "poll_max" (update_config (set_config "poll_max" "30" worker)) ≡ some "30"
get-update_config-set_config_example =
    get-update_config-set_config "poll_max" "poll_max" "30" worker refl (omega arith, tt)

abbrev day : List Appear
day =
    record { type = checkout; time = 9000 }
    ∷ record { type = checkin; time = 2000 }
    ∷ record { type = checkin; time = 4000 }
    ∷ []

inside_five_seconds : calc_checkin_time day 4000 20000 ≡ (pos 5, false)
unfolding calc_checkin_time sorted_checks intervals_of start last_check_before_begin walk
    time_inside ◌-ℤ◌ ◌+ℤ◌
inside_five_seconds = refl

calc_checkin_time_bounds_example :
    (pos 0 ≤ℤ (calc_checkin_time day 4000 20000).0)
    × ((calc_checkin_time day 4000 20000).0 ≤ℤ round_seconds (pos 20000 -ℤ pos 4000))
calc_checkin_time_bounds_example = calc_checkin_time_bounds day 4000 20000 (omega arith)

abbrev checks : List Check
checks = record { type = checkin; time = pos 3 } ∷ record { type = checkout; time = pos 8 } ∷ []
