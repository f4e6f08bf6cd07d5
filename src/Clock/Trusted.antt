-- ===== src/Clock/Trusted.antt =====
-- What the wall clock answers after any observations.
use revlink_sidecar.Base.{
  ℕ, ◌+◌, ◌-◌, ◌/◌, ◌≡◌, ◌≢◌, ◌≤◌, ◌⊎◌, true, List, [], ◌∷◌, arith, uint64_max,
}
use revlink_sidecar.Clock.{
  TimeSource, untrusted, unlisted, TimeService, observe, now, minimum_trusted_utc,
}

-- An observation: its source, its time and the monotonic clock's.
pub record Observation : Type 0 where
  pub source : TimeSource
  pub utc_seconds : ℕ
  pub monotonic : ℕ

unfoldable pub run : TimeService → List Observation → TimeService
run t [] = t
run t (o ∷ os) = run (observe t o.source o.utc_seconds o.monotonic).1 os

pub record TimeOk (t : TimeService) : Type 0 where
  pub known : t.source ≢ unlisted
  pub recent : t.source ≢ untrusted → minimum_trusted_utc ≤ t.observed_utc

observe-TimeOk :
    (t : TimeService) (s : TimeSource) (utc monotonic : ℕ)
    → TimeOk t
    → TimeOk (observe t s utc monotonic).1
unfolding observe
observe-TimeOk t s utc monotonic v = ground arith

run-TimeOk : (t : TimeService) (os : List Observation) → TimeOk t → TimeOk (run t os)
unfolding run
run-TimeOk t [] v = v
run-TimeOk t (o ∷ os) v =
    run-TimeOk (observe t o.source o.utc_seconds o.monotonic).1 os
      (observe-TimeOk t o.source o.utc_seconds o.monotonic v)

now-TimeOk :
    (t : TimeService) (monotonic : ℕ)
    → TimeOk t
    → let (utc, source) = now t monotonic in
      ((utc ≡ 0) × (source ≡ untrusted))
      ⊎ ((minimum_trusted_utc ≤ utc)
          × (utc ≤ uint64_max)
          × (source ≢ untrusted)
          × (source ≢ unlisted))
unfolding now
now-TimeOk t monotonic v = ground arith

-- After any observations the clock answers 0 from no source, or a time of at least the trusted minimum that
-- fits 64 bits, from a listed source.
pub now_is_trusted :
    (t : TimeService) (os : List Observation) (monotonic : ℕ)
    → TimeOk t
    → let (utc, source) = now (run t os) monotonic in
      ((utc ≡ 0) × (source ≡ untrusted))
      ⊎ ((minimum_trusted_utc ≤ utc)
          × (utc ≤ uint64_max)
          × (source ≢ untrusted)
          × (source ≢ unlisted))
now_is_trusted t os monotonic v = now-TimeOk (run t os) monotonic (run-TimeOk t os v)

-- An observation that is taken is what the clock answers from then on: its time and the whole seconds that
-- the monotonic clock has advanced since, with its source.
pub now-observe :
    (t : TimeService) (s : TimeSource) (utc before later : ℕ)
    → (observe t s utc before).0 ≡ true
    → before ≤ later
    → utc + (later - before) / 1000 ≤ uint64_max
    → now (observe t s utc before).1 later ≡ (utc + (later - before) / 1000, s)
unfolding now observe
now-observe t s utc before later h o f = ground arith
