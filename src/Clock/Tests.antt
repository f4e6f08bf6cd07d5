-- ===== src/Clock/Tests.antt =====
-- Tests of the wall clock, and its theorems at concrete inputs.
use revlink_sidecar.Base.{◌≡◌, ◌+◌, ◌-◌, ◌/◌, ◌≤◌, refl, [], ◌∷◌, arith, ℕ, false, true}
use revlink_sidecar.Clock.{untrusted, client, network, TimeService, init, observe, now}
use revlink_sidecar.Clock.Torn.{store_monotonic, torn_now_runs_back}
use revlink_sidecar.Clock.Trusted.{Observation, run, TimeOk, now-observe}

-- Before `init` has run.
abbrev blank : TimeService
blank = record {
  has_monotonic = false;
  observed_utc = 0;
  observed_monotonic_ms = 0;
  source = untrusted;
}

abbrev service : TimeService
service = (init blank true).1

abbrev observation : ℕ → ℕ → Observation
observation utc monotonic = record { source = client; utc_seconds = utc; monotonic = monotonic }

service-TimeOk : TimeOk service
unfolding init
service-TimeOk = ground arith

abbrev observed : TimeService
observed = run service (observation 1750000000 5000 ∷ observation 5 6000 ∷ [])

observed_now : now observed 8500 ≡ (1750000003, client)
unfolding init run observe now
observed_now = refl

now-observe_example : now (observe service network 1750000000 5000).1 8500 ≡ (1750000003, network)
unfolding init observe
now-observe_example =
    now-observe service network 1750000000 5000 8500 refl (omega arith) (omega arith)

-- An hour after the first observation a second one has stored its first value only: an hour is lost.
torn_now_runs_back_example :
    ((now (store_monotonic observed 3605000) 3606000).1 ≡ client)
    × ((now (store_monotonic observed 3605000) 3606000).0 + (3605000 - 5000) / 1000
        ≤ (now observed 3606000).0)
unfolding init run observe now
torn_now_runs_back_example =
    torn_now_runs_back observed 3605000 3606000 refl (λ e. cc) (omega arith) (omega arith)
      (omega arith)
