-- ===== src/Update.antt =====
-- firmware/components/revlink_update/revlink_update_health.c: the gate that decides whether a new firmware
-- is kept.
pub mod Decision
mod Tests
use revlink_sidecar.Base.{
  ℕ, ◌==◌, leb, if◌then◌else◌, Bool, true, false, not, ◌&&◌, ◌||◌, saturated_add,
}

-- `unlisted` is any other value of the enum's type.
pub data HealthValue : Type 0 where
  unknown ready recoverable failed unlisted : HealthValue

pub data HealthState : Type 0 where
  waiting accepted timed_out rejected : HealthState

pub data Blocker : Type 0 where
  no_blocker on_nvs on_storage on_display on_network on_portal on_usb on_safety_policy : Blocker

pub record Observation : Type 0 where
  pub nvs : HealthValue
  pub storage : HealthValue
  pub display : HealthValue
  pub network : HealthValue
  pub portal : HealthValue
  pub usb : HealthValue
  pub safety_policy : HealthValue

-- The fields of the C `config` and `snapshot`.
pub record Gate : Type 0 where
  pub timeout_ms : ℕ
  pub display_required : Bool
  pub state : HealthState
  pub blocker : Blocker
  pub elapsed_ms : ℕ

abbrev pub valid_health_value : HealthValue → Bool
valid_health_value unlisted = false
valid_health_value _ = true

abbrev pub is_ready : HealthValue → Bool
is_ready ready = true
is_ready _ = false

abbrev pub is_recoverable : HealthValue → Bool
is_recoverable recoverable = true
is_recoverable _ = false

abbrev pub is_failed : HealthValue → Bool
is_failed failed = true
is_failed _ = false

abbrev pub is_waiting : HealthState → Bool
is_waiting waiting = true
is_waiting _ = false

abbrev pub is_clear : Blocker → Bool
is_clear no_blocker = true
is_clear _ = false

unfoldable pub first_blocker : Bool → Observation → Blocker
first_blocker display_required o =
    if not (is_ready o.nvs)
    then on_nvs
    else if not (is_ready o.storage) && not (is_recoverable o.storage)
    then on_storage
    else if display_required && not (is_ready o.display)
    then on_display
    else if not (is_ready o.network)
    then on_network
    else if not (is_ready o.portal)
    then on_portal
    else if not (is_ready o.usb)
    then on_usb
    else if not (is_ready o.safety_policy)
    then on_safety_policy
    else no_blocker

-- `false` leaves the gate as it was.
unfoldable pub init : Gate → ℕ → Bool → Bool × Gate
init g timeout display = if timeout == 0 then (false, g) else (
  true,
  record {
    timeout_ms = timeout;
    display_required = display;
    state = waiting;
    blocker = on_nvs;
    elapsed_ms = 0;
  },
)

unfoldable pub valid_observation : Observation → Bool
valid_observation o =
    valid_health_value o.nvs
    && valid_health_value o.storage
    && valid_health_value o.display
    && valid_health_value o.network
    && valid_health_value o.portal
    && valid_health_value o.usb
    && valid_health_value o.safety_policy

-- The verdict on a gate whose time and blocker are up to date.
unfoldable pub decide : Gate → Observation → Gate
decide g o =
    if is_failed o.safety_policy
    then record g { state = rejected; blocker = on_safety_policy }
    else if is_clear g.blocker
    then record g { state = accepted }
    else if leb g.timeout_ms g.elapsed_ms
    then record g { state = timed_out }
    else g

unfoldable pub observe : Gate → Observation → ℕ → Gate
observe g o elapsed =
    if not (is_waiting g.state)
    then g
    else if not (valid_observation o)
    then record g { state = rejected; blocker = no_blocker }
    else decide
        record g {
          elapsed_ms = saturated_add g.elapsed_ms elapsed;
          blocker = first_blocker g.display_required o;
        }
        o
