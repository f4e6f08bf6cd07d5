-- ===== src/UsbControl.antt =====
-- firmware/components/revlink_usb_control/revlink_usb_control.c: the power and the data lines of the USB
-- link. The driver's callbacks are calls whose answers are given; `initialized` says that `init` has run,
-- which has checked that the callbacks are not null.
pub mod Lines
pub mod Order
mod Tests
use revlink_sidecar.Base.{
  ℕ, ◌==◌, if◌then◌else◌, Bool, true, false, not, ◌&&◌, ◌||◌, List, [], ◌∷◌, ◌++◌,
}

pub data UsbStatus : Type 0 where
  ok invalid_argument invalid_state driver_error : UsbStatus

pub data LinkState : Type 0 where
  uninitialized isolated attaching attached isolating fault : LinkState

-- `unlisted` is any other value of the enum's type.
pub data VbusMode : Type 0 where
  supplied_by_revlink externally_powered unlisted : VbusMode

-- The configured times, the fields of the C `snapshot`, and `initialized`.
pub record Control : Type 0 where
  pub vbus_settle_ms : ℕ
  pub data_settle_ms : ℕ
  pub isolate_settle_ms : ℕ
  pub state : LinkState
  pub data_connected : Bool
  pub vbus_enabled : Bool
  pub vbus_mode : VbusMode
  pub initialized : Bool

-- A call of the driver: the value set, and the driver's answer.
pub data Call : Type 0 where
  set_data_connected : (enabled answer : Bool) → Call
  set_vbus_enabled : (enabled answer : Bool) → Call
  delay : (delay_ms : ℕ) → Call

abbrev pub Done : Type 0
Done = UsbStatus × Control × List Call

abbrev pub valid_mode : VbusMode → Bool
valid_mode unlisted = false
valid_mode _ = true

abbrev pub is_supplied : VbusMode → Bool
is_supplied supplied_by_revlink = true
is_supplied _ = false

abbrev pub is_isolated : LinkState → Bool
is_isolated isolated = true
is_isolated _ = false

abbrev pub is_attached : LinkState → Bool
is_attached attached = true
is_attached _ = false

unfoldable pub delay_if_requested : ℕ → List Call
delay_if_requested delay_ms = if delay_ms == 0 then [] else delay delay_ms ∷ []

abbrev pub enter_fault : Control → Control
enter_fault c = record c { state = fault }

-- What `force_isolate` leaves, by the driver's two answers.
unfoldable pub isolated_by : Control → Bool → Bool → UsbStatus × Control
isolated_by c data_disabled vbus_disabled =
    let c' = record c {
      state = isolating;
      data_connected = not data_disabled && c.data_connected;
      vbus_enabled = not vbus_disabled && c.vbus_enabled;
    } in
    if data_disabled && vbus_disabled
    then (ok, record c' { state = isolated; vbus_mode = supplied_by_revlink })
    else (driver_error, enter_fault c')

unfoldable pub isolate_calls : Control → Bool → Bool → List Call
isolate_calls c data_disabled vbus_disabled =
    set_data_connected false data_disabled ∷ delay_if_requested c.isolate_settle_ms
    ++ set_vbus_enabled false vbus_disabled ∷ []

unfoldable pub force_isolate : Control → Bool → Bool → Done
force_isolate c data_disabled vbus_disabled =
    if c.initialized
    then (let (status, c') = isolated_by c data_disabled vbus_disabled in
        (status, c', isolate_calls c data_disabled vbus_disabled))
    else (invalid_state, c, [])

-- `has_callbacks` says that none of the three callbacks is null.
unfoldable pub init : Control → Bool → ℕ → ℕ → ℕ → Bool → Bool → Done
init c has_callbacks vbus_settle data_settle isolate_settle data_disabled vbus_disabled =
    if has_callbacks
    then force_isolate
        record {
          vbus_settle_ms = vbus_settle;
          data_settle_ms = data_settle;
          isolate_settle_ms = isolate_settle;
          state = uninitialized;
          data_connected = false;
          vbus_enabled = false;
          vbus_mode = supplied_by_revlink;
          initialized = true;
        }
        data_disabled vbus_disabled
    else (invalid_argument, c, [])

-- The driver's answers while it attaches; the last two are those of an isolation after a failure.
pub record Answers : Type 0 where
  pub vbus : Bool
  pub connected : Bool
  pub data_disabled : Bool
  pub vbus_disabled : Bool

-- A call has failed: the link is isolated, the status of that is dropped, and the link is in fault.
unfoldable pub give_up : Control → Answers → Done
give_up c answers =
    let (status, c', calls) =
      force_isolate (enter_fault c) answers.data_disabled answers.vbus_disabled in
    (driver_error, enter_fault c', calls)

-- The data line, once the power line is set.
unfoldable pub connect_data : Control → Answers → Done
connect_data c answers =
    if answers.connected
    then (
      ok,
      record c { data_connected = true; state = attached },
      set_data_connected true true ∷ delay_if_requested c.data_settle_ms,
    )
    else (let (status, c', calls) = give_up c answers in
        (status, c', set_data_connected true false ∷ calls))

-- Both branches on the mode: the power line is set to `supplied`, and its settling waited for if it is on.
unfoldable pub set_power : Control → Answers → Done
set_power c answers =
    let supplied = is_supplied c.vbus_mode in
    if answers.vbus
    then (let (status, c', calls) = connect_data (record c { vbus_enabled = supplied }) answers in
        (
          status,
          c',
          set_vbus_enabled supplied true
                ∷ (if supplied then delay_if_requested c.vbus_settle_ms else [])
              ++ calls,
        ))
    else (let (status, c', calls) = give_up c answers in
        (status, c', set_vbus_enabled supplied false ∷ calls))

unfoldable pub attach : Control → VbusMode → Answers → Done
attach c vbus_mode answers =
    if not c.initialized
    then (invalid_state, c, [])
    else if not (valid_mode vbus_mode)
    then (invalid_argument, c, [])
    else if not (is_isolated c.state)
    then (invalid_state, c, [])
    else set_power (record c { state = attaching; vbus_mode = vbus_mode }) answers

unfoldable pub isolate : Control → Bool → Bool → Done
isolate c data_disabled vbus_disabled =
    if not c.initialized
    then (invalid_state, c, [])
    else if is_isolated c.state
    then (ok, c, [])
    else if not (is_attached c.state)
    then (invalid_state, c, [])
    else force_isolate c data_disabled vbus_disabled
