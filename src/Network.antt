-- ===== src/Network.antt =====
-- firmware/components/revlink_network/revlink_network_coordinator.c: the radio's policy. A saved network
-- is searched for and joined within time budgets; else the device opens its own hotspot.
pub mod Handle
pub mod Invariant
pub mod Transfer
pub mod Budget
mod Tests
use revlink_sidecar.Base.{
  ℕ, ◌+◌, ◌==◌, ltb, leb, if◌then◌else◌, Bool, true, false, not, ◌&&◌, ◌||◌, ℤ, pos, saturated_add,
}

pub data NetworkState : Type 0 where
  stopped searching connecting client_ready reconnecting : NetworkState
  hotspot_starting hotspot_ready faulted : NetworkState

-- `unlisted` stands for a number outside the enum.
pub data NetworkEventKind : Type 0 where
  start scan_selected scan_empty client_connected client_failed client_lost : NetworkEventKind
  client_healthy client_unhealthy hotspot_started hotspot_failed retry_saved : NetworkEventKind
  force_hotspot transfer_started transfer_finished tick stop unlisted : NetworkEventKind

pub record NetworkEvent : Type 0 where
  pub kind : NetworkEventKind
  pub network_id : ℕ
  pub elapsed_ms : ℕ
  pub platform_error : ℤ

pub data ActionKind : Type 0 where
  nothing scan_saved connect_saved recover_saved probe_client start_hotspot stop_radio : ActionKind

pub record Action : Type 0 where
  pub kind : ActionKind
  pub network_id : ℕ

pub data NetworkStatus : Type 0 where
  ok invalid_argument invalid_state transfer_locked : NetworkStatus

pub record NetworkConfig : Type 0 where
  pub startup_timeout_ms : ℕ
  pub startup_attempt_limit : ℕ
  pub reconnect_timeout_ms : ℕ
  pub health_probe_interval_ms : ℕ
  pub health_failure_threshold : ℕ

pub record NetworkSnapshot : Type 0 where
  pub state : NetworkState
  pub selected_network_id : ℕ
  pub phase_elapsed_ms : ℕ
  pub phase_timeout_ms : ℕ
  pub startup_attempt_count : ℕ
  pub health_elapsed_ms : ℕ
  pub consecutive_health_failures : ℕ
  pub last_platform_error : ℤ
  pub transfer_active : Bool

-- A handler's result. The configuration never changes, so it is an argument of the handlers.
abbrev pub Handled : Type 0
Handled = NetworkStatus × NetworkSnapshot × Action

abbrev pub no_action : Action
no_action = record { kind = nothing; network_id = 0 }

abbrev pub act : ActionKind → Action
act kind = record { kind = kind; network_id = 0 }

abbrev pub zero_network_snapshot : NetworkSnapshot
zero_network_snapshot = record {
  state = stopped;
  selected_network_id = 0;
  phase_elapsed_ms = 0;
  phase_timeout_ms = 0;
  startup_attempt_count = 0;
  health_elapsed_ms = 0;
  consecutive_health_failures = 0;
  last_platform_error = pos 0;
  transfer_active = false;
}

-- The test of `revlink_network_coordinator_init`.
unfoldable pub valid_config : NetworkConfig → Bool
valid_config c = not (
    c.startup_timeout_ms == 0
    || c.startup_attempt_limit == 0
    || c.reconnect_timeout_ms == 0
    || c.health_probe_interval_ms == 0
    || c.health_failure_threshold == 0)

-- The coordinator is its configuration and its snapshot; `false` leaves it as it was.
unfoldable pub init :
    NetworkConfig × NetworkSnapshot → NetworkConfig → Bool × NetworkConfig × NetworkSnapshot
unfolding valid_config
init old config =
    if valid_config config then (true, config, zero_network_snapshot) else (false, old.0, old.1)

abbrev pub is_client_ready : NetworkState → Bool
is_client_ready client_ready = true
is_client_ready _ = false

abbrev pub is_ready_state : NetworkState → Bool
is_ready_state client_ready = true
is_ready_state hotspot_ready = true
is_ready_state _ = false

abbrev pub is_searching : NetworkState → Bool
is_searching searching = true
is_searching _ = false

abbrev pub is_stopped : NetworkState → Bool
is_stopped stopped = true
is_stopped _ = false

abbrev pub is_faulted : NetworkState → Bool
is_faulted faulted = true
is_faulted _ = false

abbrev pub is_joining : NetworkState → Bool
is_joining connecting = true
is_joining reconnecting = true
is_joining _ = false

abbrev pub is_reconnecting : NetworkState → Bool
is_reconnecting reconnecting = true
is_reconnecting _ = false

abbrev pub is_hotspot_starting : NetworkState → Bool
is_hotspot_starting hotspot_starting = true
is_hotspot_starting _ = false

abbrev pub is_hotspot_ready : NetworkState → Bool
is_hotspot_ready hotspot_ready = true
is_hotspot_ready _ = false

-- The states with a time budget.
abbrev pub is_timed : NetworkState → Bool
is_timed s = is_searching s || is_joining s

abbrev pub timeout_of : NetworkConfig → NetworkState → ℕ
timeout_of c searching = c.startup_timeout_ms
timeout_of c connecting = c.startup_timeout_ms
timeout_of c reconnecting = c.reconnect_timeout_ms
timeout_of c _ = 0

unfoldable pub transition : NetworkConfig → NetworkSnapshot → NetworkState → NetworkSnapshot
transition c s state = record s {
  state = state;
  phase_elapsed_ms = 0;
  health_elapsed_ms = if is_client_ready state then s.health_elapsed_ms else 0;
  phase_timeout_ms = timeout_of c state;
}

unfoldable pub request_hotspot : NetworkConfig → NetworkSnapshot → Handled
request_hotspot c s =
    let t = transition c s hotspot_starting in
    (ok, record t { selected_network_id = 0 }, act start_hotspot)

unfoldable pub handle_tick : NetworkConfig → NetworkSnapshot → ℕ → Handled
handle_tick c s elapsed =
    let probed = saturated_add s.health_elapsed_ms elapsed in
    let waited = saturated_add s.phase_elapsed_ms elapsed in
    if elapsed == 0
    then (invalid_argument, s, no_action)
    else if is_client_ready s.state
    then (if s.transfer_active
        then (ok, record s { health_elapsed_ms = 0 }, no_action)
        else if leb c.health_probe_interval_ms probed
        then (
          ok,
          record s { health_elapsed_ms = 0 },
          record { kind = probe_client; network_id = s.selected_network_id },
        )
        else (ok, record s { health_elapsed_ms = probed }, no_action))
    else if not (is_timed s.state)
    then (ok, s, no_action)
    else if leb s.phase_timeout_ms waited
    then request_hotspot c (record s { phase_elapsed_ms = waited })
    else (ok, record s { phase_elapsed_ms = waited }, no_action)
