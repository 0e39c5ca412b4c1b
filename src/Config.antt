-- ===== src/Config.antt =====
-- server/api/config/index.js, server/api/db/config.js and server/api/actions/config.js: the log of
-- configuration changes in the database, and the copy that each worker keeps.
pub mod Sync
use schulealsstaat.Base.{
  ℕ, String, Bool, true, false, Option, none, some, List, [], ◌∷◌, ◌++◌, sort, str_eq, ltb, is_some,
  if◌then◌else◌,
}

-- A document of the log; a deletion is logged as `null`.
pub record Entry : Type 0 where
  pub key : String
  pub value : Option String
  pub time : ℕ

-- A worker: the log that it shares with the others, its copy, the time and the connection.
pub record Worker : Type 0 where
  pub log : List Entry
  pub config : List (String × String)
  pub clock : ℕ
  pub connected : Bool

module _ {V : Type 0} where
  unfoldable pub lookup : String → List (String × V) → Option V
  lookup k [] = none
  lookup k ((j, v) ∷ m) = if str_eq j k then some v else lookup k m

  unfoldable pub insert : String → V → List (String × V) → List (String × V)
  insert k v [] = (k, v) ∷ []
  insert k v ((j, w) ∷ m) = if str_eq j k then (k, v) ∷ m else (j, w) ∷ insert k v m

  -- `delete config[k]`
  unfoldable pub erase : String → List (String × V) → List (String × V)
  erase k [] = []
  erase k ((j, w) ∷ m) = let rest = erase k m in if str_eq j k then rest else (j, w) ∷ rest

-- `db.config.set`: the failure of a write is only logged.
unfoldable pub db_set : String → Option String → Worker → Worker
db_set key value w =
    if w.connected
    then record w { log = w.log ++ record { key = key; value = value; time = w.clock } ∷ [] }
    else w

-- `$group` with `$last`: of the entries of a key, in the order of their times, the last one stays.
abbrev pub group : List Entry → List (String × Option String) → List (String × Option String)
group [] groups = groups
group (e ∷ es) groups = group es (insert e.key e.value groups)

-- The aggregation of `db.config.load`.
unfoldable pub load : List Entry → List (String × Option String)
load log = group (sort (λ (a b : Entry). ltb b.time a.time) log) []

abbrev pub same_value : Option String → String → Bool
same_value none v = false
same_value (some w) v = str_eq w v

-- One iteration of the loop of `update_config`.
unfoldable pub update_key : String → Option String → List (String × String) → List (String × String)
update_key key none config = if is_some (lookup key config) then erase key config else config
update_key key (some value) config =
    if same_value (lookup key config) value then config else insert key value config

abbrev pub update_keys :
    List (String × Option String) → List (String × String) → List (String × String)
update_keys [] config = config
update_keys ((k, v) ∷ cfg_new) config = update_keys cfg_new (update_key k v config)

-- `update_config`: the callback does not run if the database does not answer.
unfoldable pub update_config : Worker → Worker
update_config w = if w.connected then record w { config = update_keys (load w.log) w.config } else w

-- `config.set`
unfoldable pub set_config : String → String → Worker → Worker
set_config key value w = db_set key (some value) w

-- `config.del`
unfoldable pub del : String → Worker → Worker
del key w = let w' = db_set key none w in record w' { config = erase key w'.config }

-- `config.get`
unfoldable pub get : String → Worker → Option String
get key w = lookup key w.config

unfoldable pub get_all : Worker → List (String × String)
get_all w = w.config

pub data Answer : Type 0 where
  ok : Answer
  value : Option String → Answer
  values : List (String × String) → Answer

-- The actions `config_get`, `config_set`, `config_del` and `config_getall`.
pub data Request : Type 0 where
  config_get config_del : String → Request
  config_set : String → String → Request
  config_getall : Request

unfoldable pub handle : Request → Worker → Answer × Worker
handle (config_get key) w = (value (get key w), w)
handle (config_set key v) w = (ok, set_config key v w)
handle (config_del key) w = (ok, del key w)
handle config_getall w = (values (get_all w), w)
