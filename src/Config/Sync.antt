-- ===== src/Config/Sync.antt =====
-- server/api/config/index.js: what a worker's copy holds after an update.
use text.Mathlib.TextPositions.{eq_refl}
use schulealsstaat.Base.{
  ℕ, ◌≡◌, refl, inl, inr, String, Bool, true, Option, none, some, List, [], ◌∷◌, ◌++◌, arith,
  str_eq, str_eq_iff, Option-cases, ◌≤◌, sort, insert_sorted, ltb, if◌then◌else◌,
}
use schulealsstaat.Config.{
  Entry, Worker, lookup, insert, erase, group, load, update_key, update_keys, update_config, get,
  set_config, del, db_set,
}

abbrev newer : Entry → Entry → Bool
newer a b = ltb b.time a.time

module _ {V : Type 0} where
  pub lookup-insert :
      (k j : String) (v : V) (m : List (String × V))
      → lookup j (insert k v m) ≡ (if str_eq k j then some v else lookup j m)
  unfolding lookup insert
  lookup-insert k j v [] = refl
  lookup-insert k j v ((i, w) ∷ m) =
      ground (arith, str_eq_iff k j, str_eq_iff i k, str_eq_iff i j, lookup-insert k j v m)

  pub lookup-erase :
      (k j : String) (m : List (String × V))
      → lookup j (erase k m) ≡ (if str_eq k j then none else lookup j m)
  unfolding lookup erase
  lookup-erase k j [] = ground arith
  lookup-erase k j ((i, w) ∷ m) =
      ground (arith, str_eq_iff k j, str_eq_iff i k, str_eq_iff i j, lookup-erase k j m)

-- What a worker should have for a key: what the log says, or what it had.
abbrev pub or_old : Option (Option String) → Option String → Option String
or_old none old = old
or_old (some v) old = v

lookup-update_key :
    (k j : String) (v : Option String) (m : List (String × String))
    → lookup j (update_key k v m) ≡ (if str_eq k j then v else lookup j m)
unfolding update_key
lookup-update_key k j none m = ground (arith, lookup-erase k j m, str_eq_iff k j)
lookup-update_key k j (some v) m = elim (Option-cases (lookup k m)) [
  | inl e ↦ ground (arith, lookup-insert k j v m, str_eq_iff k j)
  | inr (w, e) ↦ ground (arith, lookup-insert k j v m, str_eq_iff k j, str_eq_iff w v)
]

-- The keys of the groups are distinct.
abbrev pub Distinct : List (String × Option String) → Type 0
Distinct [] = Unit
Distinct ((k, v) ∷ m) = (lookup k m ≡ none) × Distinct m

insert-Distinct :
    (k : String) (v : Option String) (m : List (String × Option String))
    → Distinct m
    → Distinct (insert k v m)
unfolding insert lookup
insert-Distinct k v [] d = (refl, tt)
insert-Distinct k v ((j, w) ∷ m) d =
    ground (arith, lookup-insert k j v m, insert-Distinct k v m d.1, str_eq_iff j k, str_eq_iff k j)

group-Distinct :
    (es : List Entry) (m : List (String × Option String)) → Distinct m → Distinct (group es m)
group-Distinct [] m d = d
group-Distinct (e ∷ es) m d =
    group-Distinct es (insert e.key e.value m) (insert-Distinct e.key e.value m d)

lookup-update_keys :
    (k : String) (ms : List (String × Option String)) (m : List (String × String))
    → Distinct ms
    → lookup k (update_keys ms m) ≡ or_old (lookup k ms) (lookup k m)
unfolding lookup
lookup-update_keys k [] m d = refl
lookup-update_keys k ((j, v) ∷ ms) m d = ground (
  arith,
  lookup-update_keys k ms (update_key j v m) d.1,
  lookup-update_key j k v m,
  str_eq_iff j k,
)

load-Distinct : (log : List Entry) → Distinct (load log)
unfolding load
load-Distinct log = group-Distinct (sort newer log) [] tt

-- After an update with the database connected, a worker has for every key that the log names what
-- the log says last, a deletion included, and for every other key what it had before.
get-update_config :
    (k : String) (w : Worker)
    → w.connected ≡ true
    → get k (update_config w) ≡ or_old (lookup k (load w.log)) (get k w)
unfolding get update_config
get-update_config k w c =
    ground (arith, lookup-update_keys k (load w.log) w.config (load-Distinct w.log))

-- Entries no newer than one that follows stay before it.
abbrev pub NoneNewer : ℕ → List Entry → Type 0
NoneNewer t [] = Unit
NoneNewer t (e ∷ es) = (e.time ≤ t) × NoneNewer t es

insert-last :
    (a e : Entry) (es : List Entry)
    → a.time ≤ e.time
    → insert_sorted newer a (es ++ e ∷ []) ≡ insert_sorted newer a es ++ e ∷ []
insert-last a e [] h = ground arith
insert-last a e (x ∷ es) h = ground (arith, insert-last a e es h)

sort-last :
    (e : Entry) (es : List Entry)
    → NoneNewer e.time es
    → sort newer (es ++ e ∷ []) ≡ sort newer es ++ e ∷ []
sort-last e [] h = refl
sort-last e (x ∷ es) h = rw (sort-last e es h.1) (insert-last x e (sort newer es) h.0)

group-last :
    (e : Entry) (es : List Entry) (m : List (String × Option String))
    → group (es ++ e ∷ []) m ≡ insert e.key e.value (group es m)
group-last e [] m = refl
group-last e (x ∷ es) m = group-last e es (insert x.key x.value m)

load-set :
    (key : String) (value : Option String) (t : ℕ) (log : List Entry)
    → NoneNewer t log
    → (j : String)
    → lookup j (load (log ++ record { key = key; value = value; time = t } ∷ []))
      ≡ (if str_eq key j then some value else lookup j (load log))
unfolding load
load-set key value t log h j =
    let e : Entry = record { key = key; value = value; time = t } in
    rw (sort-last e log h, group-last e (sort newer log) [])
      (lookup-insert key j value (group (sort newer log) []))

abbrev pub logged : String → Option String → Worker → Worker
logged key value w = record w {
  log = w.log ++ record { key = key; value = value; time = w.clock } ∷ [];
}

db_set_up :
    (key : String) (value : Option String) (w : Worker)
    → w.connected ≡ true
    → db_set key value w ≡ logged key value w
unfolding db_set
db_set_up key value w c = ground arith

-- A worker that sets a key while the database is connected, and no entry of the log is from the
-- future, has the new value after its next update; every other key is as the update would have
-- left it without.
pub get-update_config-set_config :
    (key j value : String) (w : Worker)
    → w.connected ≡ true
    → NoneNewer w.clock w.log
    → get j (update_config (set_config key value w))
      ≡ (if str_eq key j then some value else get j (update_config w))
unfolding set_config get
get-update_config-set_config key j value w c h = rw (db_set_up key (some value) w c) (
    ground (
      arith,
      get-update_config j (logged key (some value) w) c,
      get-update_config j w c,
      load-set key (some value) w.clock w.log h j,
    ))

-- While the database is connected and no entry of the log is from the future, a deleted key is
-- gone at once, and stays away after the next update.
get-del :
    (key : String) (w : Worker)
    → w.connected ≡ true
    → NoneNewer w.clock w.log
    → (get key (del key w) ≡ none) × (get key (update_config (del key w)) ≡ none)
unfolding del get
get-del key w c h =
    let gone : Worker = let w' = logged key none w in record w' { config = erase key w'.config } in
    rw (db_set_up key none w c) (
      ground (arith, lookup-erase key key w.config, eq_refl key),
      ground
          (arith, get-update_config key gone c, load-set key none w.clock w.log h key, eq_refl key),
    )
