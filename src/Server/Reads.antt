-- ===== src/Server/Reads.antt =====
-- The steps of a callback chain that only look at the server: they go on with the state as it
-- was, or they answer and the chain stops.
use schulealsstaat.Base.{
  ℕ, String, ◌≡◌, refl, inl, inr, Bool, true, false, Option, none, some, Bool-cases, arith,
  if◌then◌else◌,
}
use schulealsstaat.Types.{Answer, database_error}
use schulealsstaat.Server.Defs.{Server, Db, Action, then_run, say, refuse_if, some_or_refuse, query}

-- What a step that only looks can return at a state, for the request that it answers.
pub data Reads {A : Type 0} (rid : ℕ) (s : Server) (r : Option A × Server) : Type 0 where
  goes_on : (a : A) → r ≡ (some a, s) → Reads rid s r
  stops : (x : Answer) → r ≡ (none, say rid x s) → Reads rid s r

pub query-Reads :
    {A : Type 0} (component : String) (rid : ℕ) (f : Db → A) (s : Server)
    → Reads rid s (query component rid f s)
unfolding query
query-Reads component rid f s = elim (Bool-cases s.db.connected) [
  | inl c ↦ goes_on (f s.db) (ground arith)
  | inr c ↦ stops (database_error component) (ground arith)
]

pub refuse_if-Reads :
    (b : Bool) (rid : ℕ) (x : Answer) (s : Server) → Reads rid s (refuse_if b rid x s)
refuse_if-Reads true rid x s = stops x refl
refuse_if-Reads false rid x s = goes_on tt refl

pub some_or_refuse-Reads :
    {A : Type 0} (o : Option A) (rid : ℕ) (x : Answer) (s : Server)
    → Reads rid s (some_or_refuse o rid x s)
some_or_refuse-Reads none rid x s = stops x refl
some_or_refuse-Reads (some a) rid x s = goes_on a refl

pub branch-Reads :
    {A : Type 0} (b : Bool) (rid : ℕ) (s : Server) {x y : Option A × Server}
    → Reads rid s x
    → Reads rid s y
    → Reads rid s (if b then x else y)
branch-Reads true rid s h g = h
branch-Reads false rid s h g = g

pub bind-Reads :
    {A B : Type 0} (f : A → Action B) (rid : ℕ) (s : Server) {r : Option A × Server}
    → Reads rid s r
    → ((a : A) → Reads rid s (f a s))
    → Reads rid s (then_run f r)
bind-Reads f rid s (goes_on a e) h = rw (e, then_run) (h a)
bind-Reads f rid s (stops x e) h = stops x (rw (e, then_run))

-- A passed guard.
pub passed :
    (b : Bool) (rid : ℕ) (x : Answer) (s : Server) → refuse_if b rid x s ≡ (some tt, s) → b ≡ false
passed true rid x s e = cc
passed false rid x s e = refl

pub found :
    {A : Type 0} (o : Option A) (rid : ℕ) (x : Answer) (s : Server) {a : A}
    → some_or_refuse o rid x s ≡ (some a, s)
    → o ≡ some a
found none rid x s e = cc
found (some b) rid x s e = cc

-- What holds of the state with any answer to the request, and after what follows, holds in the end.
pub after_reads {ℓ} :
    (P : Server → Type ℓ) {A B : Type 0} (f : A → Action B) (rid : ℕ) (s : Server)
    {r : Option A × Server}
    → Reads rid s r
    → ((x : Answer) → P (say rid x s))
    → ((a : A) → r ≡ (some a, s) → P (f a s).1)
    → P (then_run f r).1
after_reads P f rid s (goes_on a e) h k = rw (e, then_run) (k a e)
after_reads P f rid s (stops x e) h k = rw (e, then_run) (h x)
