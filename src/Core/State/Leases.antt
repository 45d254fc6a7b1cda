-- ===== src/Core/State/Leases.antt =====
-- Leases and availability: crates/psst-core/src/state.rs.
use psst.Prelude.{◌+◌, ◌≤◌, ◌<◌, ◌≡◌, ◌↔◌, ◌⊎◌, none, arith}
use psst.Prelude.Int.{i64_max}
use psst.Core.Error.{ok}
use psst.Core.Time.{UnixMillis, Duration, as_millis, checked_add}
use psst.Core.State.{at, renew_lease}

-- A renewal at an unclosed instance succeeds exactly when the lease has not run out and the new
-- expiry fits an i64; the lease then ends at the later of the old expiry and `now + as_millis duration`.
pub renew_lease-at :
    (expiry now : UnixMillis) (duration : Duration) (r : UnixMillis)
    → (renew_lease (at none expiry now) expiry now duration ≡ ok r) ↔ (
        (now < expiry)
        × (now + as_millis duration ≤ i64_max)
        × (expiry ≤ r)
        × (now + as_millis duration ≤ r)
        × ((r ≡ expiry) ⊎ (r ≡ now + as_millis duration)))
unfolding renew_lease at checked_add
renew_lease-at expiry now duration r = ground arith
