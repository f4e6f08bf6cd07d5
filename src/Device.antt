-- ===== src/Device.antt =====
-- firmware/components/revlink_core/revlink_device_service.c and include/revlink_device_service.h: the
-- state machine of the one AccessPort that may be attached.
pub mod Invariant
pub mod Graph
pub mod Revision
mod Tests
use revlink_sidecar.Base.{
  ℕ, zero, ◌==◌, ltb, if◌then◌else◌, Bool, true, false, not, ◌&&◌, ◌||◌, Option, none, some, List,
  [], ◌∷◌, ℤ, pos,
}

pub data CoreStatus : Type 0 where
  ok invalid_argument invalid_transition not_authorized not_supported platform_error : CoreStatus

pub data DeviceState : Type 0 where
  stopped waiting inspecting available session_active conflict faulted : DeviceState

-- `unlisted` stands for a number outside the enum, which the `default` branch takes.
pub data EventKind : Type 0 where
  monitor_started attached accepted session_opened session_closed detached : EventKind
  multiple_detected failure unlisted : EventKind

pub record Identity : Type 0 where
  pub vendor_id : ℕ
  pub product_id : ℕ
  pub address : ℕ
  pub configuration_count : ℕ
  pub matching_configuration_count : ℕ
  pub interface_number : ℕ
  pub bulk_out_endpoint : ℕ
  pub bulk_in_endpoint : ℕ
  pub bulk_max_packet_size : ℕ
  pub attachment_generation : ℕ
  pub high_speed : Bool

abbrev pub zero_identity : Identity
zero_identity = record {
  vendor_id = 0;
  product_id = 0;
  address = 0;
  configuration_count = 0;
  matching_configuration_count = 0;
  interface_number = 0;
  bulk_out_endpoint = 0;
  bulk_in_endpoint = 0;
  bulk_max_packet_size = 0;
  attachment_generation = 0;
  high_speed = false;
}

pub record DeviceEvent : Type 0 where
  pub kind : EventKind
  pub identity : Identity
  pub platform_error : ℤ
  pub eligible_device_count : ℕ
  pub topology_revision : ℕ
  pub software_reenumeration : Bool

pub record DeviceSnapshot : Type 0 where
  pub state : DeviceState
  pub identity : Identity
  pub last_platform_error : ℤ
  pub eligible_device_count : ℕ
  pub topology_revision : ℕ
  pub conflict_recovery_required : Bool

-- `observer` says whether the observer is not NULL.
pub record DeviceService : Type 0 where
  pub snapshot : DeviceSnapshot
  pub observer : Bool

abbrev pub zero_snapshot : DeviceSnapshot
zero_snapshot = record {
  state = stopped;
  identity = zero_identity;
  last_platform_error = pos 0;
  eligible_device_count = 0;
  topology_revision = 0;
  conflict_recovery_required = false;
}

abbrev pub identity_matches : Identity → Identity → Bool
identity_matches l r =
    l.vendor_id == r.vendor_id
    && l.product_id == r.product_id
    && l.address == r.address
    && l.attachment_generation == r.attachment_generation

-- What the observer is called with, if there is one.
abbrev pub publish_snapshot : DeviceService → Option DeviceSnapshot
publish_snapshot s = if s.observer then some s.snapshot else none

abbrev pub event_has_topology_revision : EventKind → Bool
event_has_topology_revision attached = true
event_has_topology_revision accepted = true
event_has_topology_revision detached = true
event_has_topology_revision multiple_detected = true
event_has_topology_revision _ = false

unfoldable pub init : Bool → DeviceService
init observer = record { snapshot = zero_snapshot; observer = observer }

-- An early `return` of a status, or the snapshot with its next state.
pub data Outcome : Type 0 where
  refused : CoreStatus → Outcome
  next : DeviceSnapshot → Outcome

abbrev detach : DeviceSnapshot → DeviceSnapshot
detach s = record s { eligible_device_count = 0; identity = zero_identity; state = waiting }

-- The `switch` of `revlink_device_service_handle`, on the event's kind and the current state.
unfoldable pub switch : EventKind → DeviceState → DeviceSnapshot → DeviceEvent → Outcome
switch monitor_started stopped s e = next (record s { state = waiting })
switch monitor_started _ s e = refused invalid_transition
switch attached waiting s e =
    next (record s { identity = e.identity; eligible_device_count = 0; state = inspecting })
switch attached _ s e = refused invalid_transition
switch accepted inspecting s e =
    if identity_matches s.identity e.identity
    then next (record s { identity = e.identity; eligible_device_count = 1; state = available })
    else refused invalid_transition
switch accepted _ s e = refused invalid_transition
switch session_opened available s e = next (record s { state = session_active })
switch session_opened _ s e = refused invalid_transition
switch session_closed conflict s e = next (record s { state = conflict })
switch session_closed session_active s e = next (record s { state = available })
switch session_closed _ s e = refused invalid_transition
switch detached stopped s e = refused invalid_transition
switch detached waiting s e = refused invalid_transition
switch detached conflict s e =
    if not (e.eligible_device_count == 0)
    then next (record s { eligible_device_count = e.eligible_device_count; state = conflict })
    else next (record s {
      eligible_device_count = e.eligible_device_count;
      conflict_recovery_required = false;
      identity = zero_identity;
      state = waiting;
    })
switch detached _ s e = next (detach s)
switch multiple_detected stopped s e = refused invalid_transition
switch multiple_detected _ s e =
    if ltb e.eligible_device_count 2
    then refused invalid_transition
    else next (record s {
      identity = zero_identity;
      eligible_device_count = e.eligible_device_count;
      conflict_recovery_required = true;
      state = conflict;
    })
switch failure conflict s e =
    next (record s { last_platform_error = e.platform_error; state = conflict })
switch failure _ s e = next (record s { last_platform_error = e.platform_error; state = faulted })
switch unlisted _ s e = refused invalid_argument

-- The event carries a revision that counts.
abbrev pub is_revised : DeviceEvent → Bool
is_revised e = event_has_topology_revision e.kind && not (e.topology_revision == 0)

unfoldable pub revise : DeviceEvent → DeviceSnapshot → DeviceSnapshot
revise e s = if is_revised e then record s { topology_revision = e.topology_revision } else s

unfoldable pub step : DeviceSnapshot → DeviceEvent → Outcome
step s e =
    if is_revised e && ltb e.topology_revision s.topology_revision
    then refused invalid_transition
    else elim (switch e.kind s.state s e) [
      | refused status ↦ refused status
      | next s' ↦ next (revise e s')
    ]

-- The status, the service afterwards, and what was published.
unfoldable pub handle :
    DeviceService → DeviceEvent → CoreStatus × DeviceService × Option DeviceSnapshot
handle d e = elim (step d.snapshot e) [
  | refused status ↦ (status, d, none)
  | next s ↦ (ok, record d { snapshot = s }, publish_snapshot (record d { snapshot = s }))
]

-- `revlink_device_service_handle` on pointers; `none` is NULL.
pub handle_pointers :
    Option DeviceService
    → Option DeviceEvent
    → CoreStatus × Option DeviceService × Option DeviceSnapshot
handle_pointers none e = (invalid_argument, none, none)
handle_pointers (some d) none = (invalid_argument, some d, none)
handle_pointers (some d) (some e) =
    let (status, d', published) = handle d e in (status, some d', published)

pub snapshot_of : Option DeviceService → DeviceSnapshot
snapshot_of none = zero_snapshot
snapshot_of (some d) = d.snapshot
