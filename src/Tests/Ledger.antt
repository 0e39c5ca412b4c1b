-- ===== src/Tests/Ledger.antt =====
-- The ledger in the small world.
use schulealsstaat.Base.{List, ◌<◌, ◌≡◌, refl, none, [], ◌∷◌, ◌++◌, arith}
use schulealsstaat.Base.Int.{pos, ◌+ℤ◌, ◌-ℤ◌, ◌≤ℤ◌}
use schulealsstaat.Types.{Amount, ok}
use schulealsstaat.Db.Transactions.{balance_of, income, payments, taxincome, sum_where}
use schulealsstaat.Actions.Queue.{finish, queued_at, tick, moves, move, call, ask, asks, round}
use schulealsstaat.Actions.Queue.Overlap.{
  overlapping, twice, overlapping_stores_twice, overlapping_overdraws,
}
use schulealsstaat.Actions.Transactions.{spawn_money}
use schulealsstaat.Ledger.Conservation.{total, total-write}
use schulealsstaat.Ledger.Answers.{answered, spawn_money_answers_twice}
use schulealsstaat.Ledger.Runs.{
  Event, pays, timer, continues, expiry, passes, step, run, run-IsSound,
}
use schulealsstaat.Ledger.Solvency.{IsSound}
use schulealsstaat.Ledger.Finished.{oldest_served}
use schulealsstaat.Ledger.Expired.{expired_waits_for_ever}
use schulealsstaat.Db.Transactions.{expire_pending}
use schulealsstaat.Server.{Server}
use schulealsstaat.Tests.World.{
  crypto, payment, world-IsSound, world, waiting, purchase, stored_gift, taxinc, ben,
}

-- Anna pays again while a round is under way.
abbrev interleaved : List Event
interleaved =
    timer
    ∷ continues
    ∷ pays payment 2
    ∷ continues
    ∷ passes 50
    ∷ continues
    ∷ timer
    ∷ continues
    ∷ expiry
    ∷ continues
    ∷ []

run-IsSound_example :
    IsSound (run crypto (record { server = world; callbacks = [] }) interleaved).server
unfolding run step move call ask round asks balance_of income payments taxincome sum_where ◌+ℤ◌ ◌-ℤ◌
run-IsSound_example =
    run-IsSound crypto world interleaved world-IsSound
      (refl, (tt, (tt, (tt, (tt, (tt, (refl, (tt, (tt, (tt, tt))))))))))

overlapping_stores_twice_example :
    let end = (moves (record { server = world; callbacks = [] }) (overlapping 0)).server in
    (end.db.transactions ≡ (twice purchase world).db.transactions)
    × (end.answers ≡ ([] ++ (1, ok) ∷ []) ++ (1, ok) ∷ [])
unfolding balance_of income payments taxincome sum_where ◌+ℤ◌ ◌-ℤ◌
overlapping_stores_twice_example = overlapping_stores_twice 0 waiting world refl refl refl

overlapping_overdraws_example :
    let end = (moves (record { server = world; callbacks = [] }) (overlapping 0)).server in
    ¬ (pos 0 ≤ℤ balance_of 2 end.db.transactions)
unfolding balance_of income payments taxincome sum_where ◌+ℤ◌ ◌-ℤ◌
overlapping_overdraws_example =
    overlapping_overdraws 0 waiting world refl refl refl refl refl refl (omega arith)

total-write_example :
    total (1 ∷ 2 ∷ 3 ∷ []) (stored_gift ∷ record { id = 10; entry = purchase } ∷ []) +ℤ pos 0
    ≡ total (1 ∷ 2 ∷ 3 ∷ []) (stored_gift ∷ []) +ℤ pos 0
unfolding ◌+ℤ◌
total-write_example =
    total-write (1 ∷ 2 ∷ 3 ∷ []) (stored_gift ∷ []) (record { id = 10; entry = purchase }) refl refl
      refl refl

spawn_money_answers_twice_example :
    (spawn_money "ben" (Amount.number (pos 5)) none 4 world).1.answers
    ≡ ([] ++ (4, ok) ∷ []) ++ (4, ok) ∷ []
spawn_money_answers_twice_example =
    spawn_money_answers_twice 4 "ben" none 4 world taxinc ben refl refl refl refl

-- More than three minutes later.
abbrev late_world : Server
late_world = record world { clock = 400000 }

expired_waits_for_ever_example : tick (expire_pending late_world) ≡ expire_pending late_world
expired_waits_for_ever_example = expired_waits_for_ever late_world refl (omega arith, tt)

oldest_served_example :
    ((finish 3 (record { server = world; callbacks = round world })).callbacks ≡ [])
    × (queued_at 0 (tick world) ≡ none)
    × (0 < answered 1 (tick world).answers)
oldest_served_example = oldest_served 0 waiting world refl refl refl
