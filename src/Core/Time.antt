-- ===== src/Core/Time.antt =====
-- crates/psst-core/src/time.rs: timestamps at or after the Unix epoch. A `UnixMillis` is held as the
-- natural number that it wraps; `now.checked_add` fails past `i64::MAX`.
use psst.Prelude.{ℕ, ◌+◌, ◌*◌, ◌/◌, Option, none, some, ltb, if◌then◌else◌}
use psst.Prelude.Int.{ℤ, pos, negsuc, i64_max, is_negative}
use psst.Core.Error.{Result, ok, err, InvalidValue, new_invalid}

abbrev pub UnixMillis : Type 0
UnixMillis = ℕ

abbrev magnitude : ℤ → ℕ
magnitude (pos n) = n
magnitude (negsuc n) = 0

-- `UnixMillis::new`.
unfoldable pub new : ℤ → Result InvalidValue UnixMillis
new value =
    if is_negative value
    then err (new_invalid "timestamp" "must not precede the Unix epoch")
    else ok (magnitude value)

-- A `std::time::Duration` is held in nanoseconds.
abbrev pub Duration : Type 0
Duration = ℕ

abbrev pub from_secs : ℕ → Duration
from_secs s = s * 1_000_000_000

-- `Duration::as_millis`.
abbrev pub as_millis : Duration → ℕ
as_millis d = d / 1_000_000

unfoldable pub checked_add : UnixMillis → Duration → Option UnixMillis
checked_add t duration =
    if ltb i64_max (as_millis duration)
    then none
    else if ltb i64_max (t + as_millis duration)
    then none
    else some (t + as_millis duration)
