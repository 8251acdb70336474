-- ===== src/Time.antt =====
-- The clock (time.Time, time.Duration). An instant is a number of nanoseconds since Go's zero time
-- (year 1), so `IsZero` is a comparison with 0; a duration is a number of nanoseconds. The
-- differences that the code takes are written as sums on the other side of the comparison.
use hydra_umc_job_dispatcher.Common.{ℕ, Bool, ◌+◌, ◌*◌, ◌/◌, ◌==◌, ltb}
use hydra_umc_job_dispatcher.Common.Int.{ℤ, sub_ℕ}

abbrev pub Instant : Type 0
Instant = ℕ

abbrev pub Duration : Type 0
Duration = ℕ

-- t.UnixMilli(), for the seconds between year 1 and 1970
unfoldable pub unix_milli : Instant → ℤ
unix_milli t = sub_ℕ (t / 1000000) 62135596800000

abbrev pub is_zero : Instant → Bool
is_zero t = t == 0

abbrev pub second : Duration
second = 1000000000

abbrev pub max_heartbeat_future_skew : Duration
max_heartbeat_future_skew = 60 * second

unfoldable pub heartbeat_from_future : Instant → Instant → Bool
heartbeat_from_future now heartbeat = ltb (now + max_heartbeat_future_skew) heartbeat
