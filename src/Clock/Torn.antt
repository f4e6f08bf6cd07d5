-- ===== src/Clock/Torn.antt =====
-- firmware/components/revlink_time/revlink_time.c: the three atomic stores of `revlink_time_observe` one by
-- one, and what a reader that runs between them answers. The first two stores are relaxed, and the source,
-- which the third one releases, is trusted already from the observation before.
use revlink_sidecar.Base.{ℕ, ◌+◌, ◌-◌, ◌/◌, ◌≡◌, ◌≢◌, ◌≤◌, true, arith, uint64_max}
use revlink_sidecar.Clock.{TimeSource, untrusted, TimeService, observe, now}

unfoldable pub store_monotonic : TimeService → ℕ → TimeService
store_monotonic t monotonic = record t { observed_monotonic_ms = monotonic }

unfoldable pub store_utc : TimeService → ℕ → TimeService
store_utc t utc = record t { observed_utc = utc }

unfoldable pub store_source : TimeService → TimeSource → TimeService
store_source t source = record t { source = source }

-- An observation that is taken is these three stores.
pub observe-stores :
    (t : TimeService) (s : TimeSource) (utc monotonic : ℕ)
    → (observe t s utc monotonic).0 ≡ true
    → (observe t s utc monotonic).1 ≡ store_source (store_utc (store_monotonic t monotonic) utc) s
unfolding observe store_monotonic store_utc store_source
observe-stores t s utc monotonic h = ground arith

-- A reader between the first and the second store of an observation runs back: when the clock already
-- answers from an anchor `before`, and an observation at `monotonic` has stored its monotonic time but not
-- yet its UTC time, the reader's time is behind the one that the clock answered before the store, by at
-- least the whole seconds from the old anchor to the new one. It is a trusted answer all the same.
pub torn_now_runs_back :
    (t : TimeService) (monotonic later : ℕ)
    → t.has_monotonic ≡ true
    → t.source ≢ untrusted
    → t.observed_monotonic_ms ≤ monotonic
    → monotonic ≤ later
    → t.observed_utc + (later - t.observed_monotonic_ms) / 1000 ≤ uint64_max
    → ((now (store_monotonic t monotonic) later).1 ≡ t.source)
      × ((now (store_monotonic t monotonic) later).0 + (monotonic - t.observed_monotonic_ms) / 1000
          ≤ (now t later).0)
unfolding now store_monotonic
torn_now_runs_back t monotonic later c s old new fits = ground arith
