-- ===== src/TransactionSearch/Sums.antt =====
-- The statistics of the admin panel over what the server finds.
use schulealsstaat.Base.{◌≡◌}
use schulealsstaat.Base.Int.{pos, ◌+ℤ◌, ◌≤ℤ◌}
use schulealsstaat.Server.{Server}
use schulealsstaat.TransactionSearch.{Stats}

-- The sums so far add up, and none is negative.
abbrev AddsUp : Stats → Type 0
AddsUp st =
    (st.total_sent ≡ st.total_received +ℤ st.total_tax)
    × (pos 0 ≤ℤ st.total_received)
    × (pos 0 ≤ℤ st.total_tax)
