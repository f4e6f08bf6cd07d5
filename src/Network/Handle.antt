-- ===== src/Network/Handle.antt =====
-- `revlink_network_coordinator_handle`, one function for each group of events.
use revlink_sidecar.Base.{
  ℕ, ◌+◌, ◌==◌, ltb, leb, if◌then◌else◌, true, false, not, ◌&&◌, ◌||◌, ℤ, pos, saturated_add, List,
  [], ◌∷◌, ◌%◌, ◌^◌,
}
use revlink_sidecar.Network.{
  NetworkState, searching, connecting, client_ready, reconnecting, hotspot_ready, faulted,
  NetworkEventKind, start, scan_selected, scan_empty, client_connected, client_failed, client_lost,
  client_healthy, client_unhealthy, hotspot_started, hotspot_failed, retry_saved, force_hotspot,
  transfer_started, transfer_finished, tick, stop, unlisted, NetworkEvent, ActionKind, scan_saved,
  connect_saved, recover_saved, stop_radio, ok, invalid_argument, invalid_state, transfer_locked,
  NetworkConfig, NetworkSnapshot, Handled, Action, no_action, act, zero_network_snapshot,
  is_client_ready, is_ready_state, is_searching, is_stopped, is_faulted, is_joining,
  is_reconnecting, is_hotspot_starting, is_hotspot_ready, transition, request_hotspot, handle_tick,
}

abbrev pub selected_action : ActionKind → NetworkSnapshot → Action
selected_action kind s = record { kind = kind; network_id = s.selected_network_id }

-- The search for a saved network.
unfoldable pub on_start : NetworkConfig → NetworkSnapshot → Handled
on_start c s =
    if not (is_stopped s.state) && not (is_faulted s.state)
    then (invalid_state, s, no_action)
    else (
      ok,
      transition c
          (record s {
            last_platform_error = pos 0;
            selected_network_id = 0;
            startup_attempt_count = 0;
            transfer_active = false;
          })
          searching,
      act scan_saved,
    )

unfoldable pub on_scan_selected : NetworkConfig → NetworkSnapshot → ℕ → Handled
on_scan_selected c s network_id =
    if not (is_searching s.state) || network_id == 0
    then (if network_id == 0 then invalid_argument else invalid_state, s, no_action)
    else (
      ok,
      transition c (record s { selected_network_id = network_id; startup_attempt_count = 1 })
          connecting,
      record { kind = connect_saved; network_id = network_id },
    )

unfoldable pub on_scan_empty : NetworkConfig → NetworkSnapshot → Handled
on_scan_empty c s =
    if not (is_searching s.state) then (invalid_state, s, no_action) else request_hotspot c s

-- The client connection. `startup_attempt_count` is below a `uint32_t`, so `++` does not wrap.
unfoldable pub on_client_connected : NetworkConfig → NetworkSnapshot → Handled
on_client_connected c s = if not (is_joining s.state) then (invalid_state, s, no_action) else (
  ok,
  transition c
      (record s {
        last_platform_error = pos 0;
        health_elapsed_ms = 0;
        consecutive_health_failures = 0;
      })
      client_ready,
  no_action,
)

unfoldable pub on_client_failed : NetworkConfig → NetworkSnapshot → ℤ → Handled
on_client_failed c s error =
    let failed = record s { last_platform_error = error } in
    if not (is_joining s.state)
    then (invalid_state, s, no_action)
    else if is_reconnecting s.state
    then (ok, failed, no_action)
    else if ltb s.startup_attempt_count c.startup_attempt_limit
    then (
      ok,
      transition c
          (record failed { startup_attempt_count = (s.startup_attempt_count + 1) % 2 ^ 32 })
          connecting,
      selected_action recover_saved s,
    )
    else request_hotspot c failed

unfoldable pub on_client_lost : NetworkConfig → NetworkSnapshot → ℤ → Handled
on_client_lost c s error =
    if not (is_client_ready s.state) || s.selected_network_id == 0
    then (invalid_state, s, no_action)
    else (
      ok,
      transition c (record s { last_platform_error = error }) reconnecting,
      selected_action connect_saved s,
    )

unfoldable pub on_client_healthy : NetworkSnapshot → Handled
on_client_healthy s =
    if not (is_client_ready s.state)
    then (invalid_state, s, no_action)
    else (ok, record s { last_platform_error = pos 0; consecutive_health_failures = 0 }, no_action)

unfoldable pub on_client_unhealthy : NetworkConfig → NetworkSnapshot → ℤ → Handled
on_client_unhealthy c s error =
    let failures = saturated_add s.consecutive_health_failures 1 in
    let t = record s { last_platform_error = error; consecutive_health_failures = failures } in
    if not (is_client_ready s.state)
    then (invalid_state, s, no_action)
    else if s.transfer_active
    then (transfer_locked, s, no_action)
    else if leb c.health_failure_threshold failures
    then (ok, transition c t reconnecting, selected_action recover_saved s)
    else (ok, t, no_action)

-- The hotspot, and the owner's choices.
unfoldable pub on_hotspot : NetworkConfig → NetworkSnapshot → NetworkState → ℤ → Handled
on_hotspot c s state error =
    if not (is_hotspot_starting s.state)
    then (invalid_state, s, no_action)
    else (ok, transition c (record s { last_platform_error = error }) state, no_action)

unfoldable pub on_retry_saved : NetworkConfig → NetworkSnapshot → Handled
on_retry_saved c s =
    if not (is_ready_state s.state)
    then (invalid_state, s, no_action)
    else if s.transfer_active
    then (transfer_locked, s, no_action)
    else (
      ok,
      transition c (record s { last_platform_error = pos 0; selected_network_id = 0 }) searching,
      act scan_saved,
    )

unfoldable pub on_force_hotspot : NetworkConfig → NetworkSnapshot → Handled
on_force_hotspot c s =
    if is_stopped s.state || is_hotspot_starting s.state || is_hotspot_ready s.state
    then (invalid_state, s, no_action)
    else if s.transfer_active
    then (transfer_locked, s, no_action)
    else request_hotspot c s

unfoldable pub on_transfer_started : NetworkSnapshot → Handled
on_transfer_started s =
    if not (is_ready_state s.state) || s.transfer_active
    then (invalid_state, s, no_action)
    else (ok, record s { transfer_active = true }, no_action)

unfoldable pub on_transfer_finished : NetworkSnapshot → Handled
on_transfer_finished s =
    if not s.transfer_active
    then (invalid_state, s, no_action)
    else (ok, record s { transfer_active = false }, no_action)

unfoldable pub dispatch :
    NetworkEventKind → NetworkConfig → NetworkSnapshot → NetworkEvent → Handled
dispatch start c s e = on_start c s
dispatch scan_selected c s e = on_scan_selected c s e.network_id
dispatch scan_empty c s e = on_scan_empty c s
dispatch client_connected c s e = on_client_connected c s
dispatch client_failed c s e = on_client_failed c s e.platform_error
dispatch client_lost c s e = on_client_lost c s e.platform_error
dispatch client_healthy c s e = on_client_healthy s
dispatch client_unhealthy c s e = on_client_unhealthy c s e.platform_error
dispatch hotspot_started c s e = on_hotspot c s hotspot_ready (pos 0)
dispatch hotspot_failed c s e = on_hotspot c s faulted e.platform_error
dispatch retry_saved c s e = on_retry_saved c s
dispatch force_hotspot c s e = on_force_hotspot c s
dispatch transfer_started c s e = on_transfer_started s
dispatch transfer_finished c s e = on_transfer_finished s
dispatch tick c s e = handle_tick c s e.elapsed_ms
dispatch stop c s e = (ok, zero_network_snapshot, act stop_radio)
dispatch unlisted c s e = (invalid_argument, s, no_action)

unfoldable pub handle : NetworkConfig → NetworkSnapshot → NetworkEvent → Handled
handle c s e = dispatch e.kind c s e

-- The snapshot after a list of events.
unfoldable pub run : NetworkConfig → NetworkSnapshot → List NetworkEvent → NetworkSnapshot
run c s [] = s
run c s (e ∷ es) = run c (handle c s e).1 es
