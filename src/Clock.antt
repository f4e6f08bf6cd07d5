-- ===== src/Clock.antt =====
-- firmware/components/revlink_time/revlink_time.c: the wall clock, anchored to a monotonic one.
pub mod Trusted
pub mod Torn
mod Tests
use revlink_sidecar.Base.{
  ℕ, ◌+◌, ◌-◌, ◌/◌, ltb, if◌then◌else◌, Bool, true, false, not, ◌||◌, uint64_max,
}

abbrev pub minimum_trusted_utc : ℕ
minimum_trusted_utc = 1577836800

-- `unlisted` is a value above `REVLINK_TIME_RTC`.
pub data TimeSource : Type 0 where
  untrusted client network rtc unlisted : TimeSource

-- `has_monotonic` says that the configured callback is not null.
pub record TimeService : Type 0 where
  pub has_monotonic : Bool
  pub observed_utc : ℕ
  pub observed_monotonic_ms : ℕ
  pub source : TimeSource

abbrev pub is_untrusted : TimeSource → Bool
is_untrusted untrusted = true
is_untrusted _ = false

abbrev pub is_unlisted : TimeSource → Bool
is_unlisted unlisted = true
is_unlisted _ = false

-- `false` leaves the service as it was.
unfoldable pub init : TimeService → Bool → Bool × TimeService
init t has_callback =
    if has_callback
    then (
      true,
      record {
        has_monotonic = true;
        observed_utc = 0;
        observed_monotonic_ms = 0;
        source = untrusted;
      },
    )
    else (false, t)

-- `monotonic` is what the callback answers.
unfoldable pub observe : TimeService → TimeSource → ℕ → ℕ → Bool × TimeService
observe t source utc_seconds monotonic =
    if not t.has_monotonic
      || is_untrusted source
      || is_unlisted source
      || ltb utc_seconds minimum_trusted_utc
    then (false, t)
    else (
      true,
      record t { observed_monotonic_ms = monotonic; observed_utc = utc_seconds; source = source },
    )

-- The time, and its source; `-` does not wrap where it is used.
unfoldable pub now : TimeService → ℕ → ℕ × TimeSource
now t monotonic =
    let elapsed_seconds = (monotonic - t.observed_monotonic_ms) / 1000 in
    if not t.has_monotonic || is_untrusted t.source
    then (0, untrusted)
    else if ltb monotonic t.observed_monotonic_ms
    then (0, untrusted)
    else if ltb (uint64_max - elapsed_seconds) t.observed_utc
    then (0, untrusted)
    else (t.observed_utc + elapsed_seconds, t.source)
