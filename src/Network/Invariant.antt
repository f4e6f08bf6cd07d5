-- ===== src/Network/Invariant.antt =====
-- What holds of the network coordinator after any events.
use revlink_sidecar.Base.{
  ℕ, ◌≡◌, ◌≢◌, ◌≤◌, ◌<◌, Bool, true, false, List, [], ◌∷◌, arith, uint32_max,
}
use revlink_sidecar.Network.{
  NetworkState, connecting, client_ready, NetworkEventKind, start, scan_selected, scan_empty,
  client_connected, client_failed, client_lost, client_healthy, client_unhealthy, hotspot_started,
  hotspot_failed, retry_saved, force_hotspot, transfer_started, transfer_finished, tick, stop,
  unlisted, NetworkEvent, NetworkConfig, NetworkSnapshot, is_joining, is_timed, is_searching,
  is_stopped, timeout_of, transition, request_hotspot, handle_tick, zero_network_snapshot, init,
}
use revlink_sidecar.Network.Handle.{
  on_start, on_scan_selected, on_scan_empty, on_client_connected, on_client_failed, on_client_lost,
  on_client_healthy, on_client_unhealthy, on_hotspot, on_retry_saved, on_force_hotspot,
  on_transfer_started, on_transfer_finished, dispatch, handle, run,
}

-- An accepted configuration, of `uint32_t` fields.
pub record ConfigOk (c : NetworkConfig) : Type 0 where
  pub startup_timeout : c.startup_timeout_ms ≢ 0
  pub attempt_limit : c.startup_attempt_limit ≢ 0
  pub reconnect_timeout : c.reconnect_timeout_ms ≢ 0
  pub probe_interval : c.health_probe_interval_ms ≢ 0
  pub failure_threshold : c.health_failure_threshold ≢ 0
  pub startup_u32 : c.startup_timeout_ms ≤ uint32_max
  pub attempt_u32 : c.startup_attempt_limit ≤ uint32_max
  pub reconnect_u32 : c.reconnect_timeout_ms ≤ uint32_max

-- The states that hold a saved network.
abbrev pub holds_network : NetworkState → Bool
holds_network client_ready = true
holds_network s = is_joining s

pub record NetworkOk (c : NetworkConfig) (s : NetworkSnapshot) : Type 0 where
  pub budget : s.phase_timeout_ms ≡ timeout_of c s.state
  pub in_time : is_timed s.state ≡ true → s.phase_elapsed_ms < s.phase_timeout_ms
  pub selected : holds_network s.state ≡ true → s.selected_network_id ≢ 0
  pub unselected : holds_network s.state ≡ false → s.selected_network_id ≡ 0
  pub attempts : s.startup_attempt_count ≤ c.startup_attempt_limit
  pub probe_due : s.health_elapsed_ms < c.health_probe_interval_ms
  pub healthy_enough :
      s.state ≡ client_ready → s.consecutive_health_failures < c.health_failure_threshold
  pub search_idle : is_searching s.state ≡ true → s.transfer_active ≡ false
  pub stopped_idle : is_stopped s.state ≡ true → s.transfer_active ≡ false
  pub connecting_idle : s.state ≡ connecting → s.transfer_active ≡ false

module _ (c : NetworkConfig) (k : ConfigOk c) where
  pub start-NetworkOk : NetworkOk c zero_network_snapshot
  start-NetworkOk = ground arith

  module _ (s : NetworkSnapshot) (v : NetworkOk c s) where
    handle_tick-NetworkOk : (elapsed : ℕ) → NetworkOk c (handle_tick c s elapsed).1
    unfolding handle_tick request_hotspot transition
    handle_tick-NetworkOk elapsed = ground arith

    client_failed-NetworkOk : (e : NetworkEvent) → NetworkOk c (dispatch client_failed c s e).1
    unfolding dispatch on_client_failed request_hotspot transition
    client_failed-NetworkOk e = ground arith

    dispatch-NetworkOk :
        (kind : NetworkEventKind) (e : NetworkEvent) → NetworkOk c (dispatch kind c s e).1
    unfolding dispatch on_start on_scan_selected on_scan_empty on_client_connected on_client_lost
        on_client_healthy on_client_unhealthy on_hotspot on_retry_saved on_force_hotspot
        on_transfer_started on_transfer_finished request_hotspot transition
    dispatch-NetworkOk start e = ground arith
    dispatch-NetworkOk scan_selected e = ground arith
    dispatch-NetworkOk scan_empty e = ground arith
    dispatch-NetworkOk client_connected e = ground arith
    dispatch-NetworkOk client_failed e = client_failed-NetworkOk e
    dispatch-NetworkOk client_lost e = ground arith
    dispatch-NetworkOk client_healthy e = ground arith
    dispatch-NetworkOk client_unhealthy e = ground arith
    dispatch-NetworkOk hotspot_started e = ground arith
    dispatch-NetworkOk hotspot_failed e = ground arith
    dispatch-NetworkOk retry_saved e = ground arith
    dispatch-NetworkOk force_hotspot e = ground arith
    dispatch-NetworkOk transfer_started e = ground arith
    dispatch-NetworkOk transfer_finished e = ground arith
    dispatch-NetworkOk tick e = handle_tick-NetworkOk e.elapsed_ms
    dispatch-NetworkOk stop e = start-NetworkOk
    dispatch-NetworkOk unlisted e = v

  pub run_from-NetworkOk :
      (s : NetworkSnapshot) (es : List NetworkEvent) → NetworkOk c s → NetworkOk c (run c s es)
  unfolding run handle
  run_from-NetworkOk s [] v = v
  run_from-NetworkOk s (e ∷ es) v =
      run_from-NetworkOk (dispatch e.kind c s e).1 es (dispatch-NetworkOk s v e.kind e)

  run-start-NetworkOk : (es : List NetworkEvent) → NetworkOk c (run c zero_network_snapshot es)
  run-start-NetworkOk es = run_from-NetworkOk zero_network_snapshot es start-NetworkOk

-- The fields of a configuration are `uint32_t`.
pub record HasConfigType (c : NetworkConfig) : Type 0 where
  pub startup_u32 : c.startup_timeout_ms ≤ uint32_max
  pub attempt_u32 : c.startup_attempt_limit ≤ uint32_max
  pub reconnect_u32 : c.reconnect_timeout_ms ≤ uint32_max

init-ConfigOk :
    (old : NetworkConfig × NetworkSnapshot) (c : NetworkConfig)
    → HasConfigType c
    → (init old c).0 ≡ true
    → ConfigOk (init old c).1 × ((init old c).2 ≡ zero_network_snapshot)
unfolding init
init-ConfigOk old c t h = ground arith

-- After a successful `init` and any events the coordinator is in order: a timed phase has time left of its
-- budget, a network is selected exactly while one is joined or being joined, attempts, health failures and
-- the time to the next probe are within their limits, and no transfer runs while the radio is stopped,
-- searches or makes its first connection.
pub run-NetworkOk :
    (old : NetworkConfig × NetworkSnapshot) (c : NetworkConfig) (es : List NetworkEvent)
    → HasConfigType c
    → (init old c).0 ≡ true
    → NetworkOk (init old c).1 (run (init old c).1 (init old c).2 es)
run-NetworkOk old c es t h =
    let (ok, cleared) = init-ConfigOk old c t h in
    rw cleared (run-start-NetworkOk (init old c).1 ok es)
