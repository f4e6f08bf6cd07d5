-- ===== src/Update/Tests.antt =====
-- Tests of the update gate, and its theorems at concrete inputs.
use revlink_sidecar.Base.{◌≡◌, refl, List, [], ◌∷◌, ◌++◌, arith, ℕ, false, saturated_add}
use revlink_sidecar.Update.{
  HealthValue, ready, recoverable, failed, unknown, Observation, Gate, on_nvs, on_network, rejected,
  init, observe, decide, first_blocker, valid_observation,
}
use revlink_sidecar.Update.Decision.{Timed, run, IsHealthy, accepted_needs_health}

-- Before `init` has run.
abbrev blank : Gate
blank = record {
  timeout_ms = 0;
  display_required = false;
  state = rejected;
  blocker = on_nvs;
  elapsed_ms = 0;
}

abbrev gate : Gate
gate = (init blank 60000 false).1

abbrev seen : HealthValue → Observation
seen network = record {
  nvs = ready;
  storage = recoverable;
  display = failed;
  network = network;
  portal = ready;
  usb = ready;
  safety_policy = ready;
}

abbrev observations : List Timed
observations = (seen unknown, 1000) ∷ (seen ready, 1000) ∷ (seen failed, 1000) ∷ []

network_blocks : (observe gate (seen unknown) 1000).blocker ≡ on_network
unfolding observe init decide first_blocker valid_observation saturated_add
network_blocks = refl

accepted_needs_health_example :
    (before : List Timed) × (o : Observation) × (elapsed : ℕ) × (after : List Timed) × (observations
      ≡ before ++ (o, elapsed) ∷ after)
    × IsHealthy false o
unfolding init run observe decide first_blocker valid_observation saturated_add
accepted_needs_health_example = accepted_needs_health gate observations (ground arith) refl
