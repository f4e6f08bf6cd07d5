-- ===== src/Network/Tests.antt =====
-- Tests of the network coordinator, and its theorems at concrete inputs.
use revlink_sidecar.Base.{◌≡◌, refl, true, List, [], ◌∷◌, arith, pos}
use revlink_sidecar.Network.{
  connecting, NetworkEventKind, start, scan_selected, client_connected, client_unhealthy,
  transfer_started, NetworkEvent, NetworkConfig, no_action, zero_network_snapshot, transition, init,
}
use revlink_sidecar.Network.Handle.{
  handle, run, dispatch, on_start, on_scan_selected, on_client_connected, on_transfer_started,
}
use revlink_sidecar.Network.Invariant.{HasConfigType, NetworkOk, run-NetworkOk}
use revlink_sidecar.Network.Transfer.{transfer_undisturbed}
use revlink_sidecar.Network.Budget.{IsAsked, budget_spent}

abbrev config : NetworkConfig
config = record {
  startup_timeout_ms = 15000;
  startup_attempt_limit = 3;
  reconnect_timeout_ms = 30000;
  health_probe_interval_ms = 60000;
  health_failure_threshold = 2;
}

config-HasConfigType : HasConfigType config
config-HasConfigType = omega arith

config_accepted : (init (config, zero_network_snapshot) config).0 ≡ true
unfolding init
config_accepted = refl

abbrev event : NetworkEventKind → NetworkEvent
event kind = record { kind = kind; network_id = 5; elapsed_ms = 0; platform_error = pos 0 }

abbrev joining : List NetworkEvent
joining = event start ∷ event scan_selected ∷ []

abbrev transferring : List NetworkEvent
transferring =
    event start ∷ event scan_selected ∷ event client_connected ∷ event transfer_started ∷ []

joining_connects : (run config zero_network_snapshot joining).state ≡ connecting
unfolding run handle dispatch on_start on_scan_selected transition
joining_connects = refl

run-NetworkOk_example : NetworkOk config (run config zero_network_snapshot joining)
unfolding init
run-NetworkOk_example =
    run-NetworkOk (config, zero_network_snapshot) config joining config-HasConfigType
      config_accepted

transfer_undisturbed_example :
    let s = run config zero_network_snapshot transferring in
    ((handle config s (event client_unhealthy)).1.state ≡ s.state)
    × ((handle config s (event client_unhealthy)).1.selected_network_id ≡ s.selected_network_id)
    × ((handle config s (event client_unhealthy)).2 ≡ no_action)
unfolding run handle dispatch on_start on_scan_selected on_client_connected on_transfer_started
    transition
transfer_undisturbed_example =
    transfer_undisturbed config (run config zero_network_snapshot transferring)
      (event client_unhealthy) refl refl refl

budget_spent_example :
    IsAsked config (run config zero_network_snapshot joining) (7000 ∷ 0 ∷ 8000 ∷ [])
unfolding run handle dispatch on_start on_scan_selected transition
budget_spent_example =
    budget_spent config (run config zero_network_snapshot joining) (7000 ∷ 0 ∷ 8000 ∷ []) refl
      (omega arith) (omega arith) (omega arith)
