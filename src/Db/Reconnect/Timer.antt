-- ===== src/Db/Reconnect/Timer.antt =====
-- server/api/db/index.js: the timer that connects again.
use schulealsstaat.Base.{
  ℕ, suc, ◌≡◌, refl, ap, subst, Bool, true, false, Option, some, List, [], ◌∷◌, any, ◌==◌, ==_iff,
  arith, if_cases, inl, inr, Bool-cases,
}
use schulealsstaat.Db.Reconnect.{
  Connection, Event, connect_failed, connected, on_error, on_open, on_disconnect, on_reconnected,
  query_failed, fires, db_connect, set_interval, clear_interval, fail, recover, step, run, loaded,
}

abbrev Watched : Bool → Option ℕ → List (ℕ × ℕ) → Type 0
Watched true handle timers = (k : ℕ) × (i : ℕ) × (handle ≡ some k) × (timers ≡ (k, i) ∷ [])
Watched false handle timers = timers ≡ []

abbrev pub IsWatched : Connection → Type 0
IsWatched c = Watched c.failedstate c.reconnect_interval c.timers

same : (k : ℕ) → (k == k) ≡ true
same k = ground (arith, ==_iff k k)

by_state :
    {b : Bool} (c : Connection)
    → c.failedstate ≡ b
    → IsWatched c
    → Watched b c.reconnect_interval c.timers
by_state c e h = subst (λ b. Watched b c.reconnect_interval c.timers) e h

fail-IsWatched : (i : ℕ) (c : Connection) → IsWatched c → IsWatched (fail i c)
unfolding fail set_interval
fail-IsWatched i c h = elim (Bool-cases c.failedstate) [
  | inl e ↦ rw e (by_state c e h)
  | inr e ↦ rw (e, by_state c e h) (c.next_timer, i, refl, refl)
]

recover-timers : (c : Connection) → IsWatched c → (recover c).timers ≡ []
unfolding recover clear_interval
recover-timers c h = elim (Bool-cases c.failedstate) [
  | inl e ↦ let (k, i, handle, one) = by_state c e h in rw (e, handle, one, same k) refl
  | inr e ↦ rw e (by_state c e h)
]

recover-IsWatched : (c : Connection) → IsWatched c → IsWatched (recover c)
unfolding recover
recover-IsWatched c h = recover-timers c h

fires-timer :
    (k i : ℕ) (c : Connection) (interval : ℕ)
    → c.timers ≡ (k, i) ∷ []
    → step interval (fires k) c ≡ db_connect c
unfolding step
fires-timer k i c interval one =
    let runs : any (λ (t : ℕ × ℕ). t.0 == k) c.timers ≡ true = rw (one, same k) refl in
    if_cases (λ c'. c' ≡ db_connect c) (any (λ (t : ℕ × ℕ). t.0 == k) c.timers) (λ _. refl)
      (λ e. cc (e, runs))

module _ (interval : ℕ) where
  step-IsWatched : (e : Event) (c : Connection) → IsWatched c → IsWatched (step interval e c)
  unfolding step recover db_connect
  step-IsWatched connect_failed c h = fail-IsWatched interval c h
  step-IsWatched connected c h = h
  step-IsWatched on_error c h = fail-IsWatched 2000 c h
  step-IsWatched on_open c h = recover-timers c h
  step-IsWatched on_disconnect c h = fail-IsWatched 2000 c h
  step-IsWatched on_reconnected c h = recover-timers c h
  step-IsWatched query_failed c h = fail-IsWatched 2000 c h
  step-IsWatched (fires k) c h =
      if_cases IsWatched (any (λ (t : ℕ × ℕ). t.0 == k) c.timers) (λ _. h) (λ _. h)

  run-IsWatched : (es : List Event) (c : Connection) → IsWatched c → IsWatched (run interval es c)
  unfolding run
  run-IsWatched [] c h = h
  run-IsWatched (e ∷ es) c h = run-IsWatched es (step interval e c) (step-IsWatched e c h)

  loaded-IsWatched : IsWatched loaded
  unfolding db_connect
  loaded-IsWatched = refl

  -- Whatever sequence of failures, failed queries, attempts and recoveries there is: while the
  -- connection counts as failed exactly one timer runs, and its next round tries to connect; while
  -- it does not, no timer runs; and a recovery stops the timer.
  pub one_timer :
      (es : List Event)
      → let c = run interval es loaded in
        (c.failedstate ≡ true
          → (k : ℕ) × (i : ℕ) × (c.timers ≡ (k, i) ∷ [])
            × ((step interval (fires k) c).connects ≡ suc c.connects))
        × (c.failedstate ≡ false → c.timers ≡ [])
        × ((recover c).timers ≡ [])
  unfolding db_connect
  one_timer es =
      let c = run interval es loaded in
      let h = run-IsWatched es loaded loaded-IsWatched in
      (
        λ e.
            let (k, i, handle, one) = by_state c e h in
            (k, i, one, ap (λ (c' : Connection). c'.connects) (fires-timer k i c interval one)),
        λ e. by_state c e h,
        recover-timers c h,
      )
