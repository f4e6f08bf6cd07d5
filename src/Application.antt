-- ===== src/Application.antt =====
-- firmware/components/revlink_application/revlink_application.c: the device service, the safety policy
-- and the sync coordinator joined. The device service's observer is `handle_device_snapshot`, which may
-- start a sync of its own; so one device event can call the transport.
-- Each operation takes the transport's answers and returns the calls that leave the application.
pub mod Commands
pub mod React
pub mod Authorize
pub mod Ready
pub mod Flags
pub mod Disarmed
pub mod Attach
mod Tests
use revlink_sidecar.Base.{
  ℕ, suc, ◌+◌, ◌%◌, ◌==◌, ltb, leb, if◌then◌else◌, Bool, true, false, not, ◌&&◌, ◌||◌, Option, none,
  some, List, [], ◌∷◌, ◌++◌, map,
}
use revlink_sidecar.Device
use revlink_sidecar.Device.{
  CoreStatus, DeviceState, waiting, inspecting, available, conflict, stopped, EventKind, attached,
  detached, multiple_detected, DeviceEvent, DeviceSnapshot, DeviceService,
}
use revlink_sidecar.Safety
use revlink_sidecar.Safety.{Operation, discover, SafetyPolicy}
use revlink_sidecar.Sync.Coordinator
use revlink_sidecar.Sync.Coordinator.{
  SyncStatus, SyncState, queued, running, SyncPolicy, SyncEvent, SyncEventKind, completion, failure,
  cancellation, SyncSnapshot, SyncConfig, Call, is_active, is_ok, is_cancellable,
}

abbrev pub auto_sync_retry_limit : ℕ
auto_sync_retry_limit = 1

-- `state_observer` says whether the platform's observer is not NULL.
pub record ApplicationConfig : Type 0 where
  pub allow_device_writes : Bool
  pub allow_device_deletes : Bool
  pub state_observer : Bool
  pub sync_policy : SyncPolicy
  pub sync : SyncConfig
  pub retry_unclean_readonly_close_once : Bool

pub record Application : Type 0 where
  pub device_service : DeviceService
  pub safety_policy : SafetyPolicy
  pub sync_coordinator : Coordinator.Coordinator
  pub state_observer : Bool
  pub previous_device_state : DeviceState
  pub auto_sync_attempted : Bool
  pub preserve_attachment_across_reenumeration : Bool
  pub retry_unclean_readonly_close_once : Bool
  pub unclean_close_recovery_attempted : Bool
  pub auto_sync_disarmed_by_conflict : Bool
  pub auto_sync_active : Bool
  pub auto_sync_retry_eligible : Bool
  pub auto_sync_retry_count : ℕ

-- What leaves the application: the platform's observer is called, or the coordinator makes a call.
pub data Effect : Type 0 where
  observed : DeviceSnapshot → Effect
  called : Call → Effect

-- What the transport's callbacks answer, if they are called.
pub record Answers : Type 0 where
  pub request : SyncStatus
  pub recover : SyncStatus
  pub cancel : SyncStatus

-- A handler's result: the application afterwards and what left it.
abbrev pub Handled : Type 0
Handled = Application × List Effect

abbrev pub device_state : Application → DeviceState
device_state a = a.device_service.snapshot.state

abbrev pub sync_state : Application → SyncState
sync_state a = a.sync_coordinator.snapshot.state

-- `++count` of a `uint8_t`.
abbrev pub count_retry : Bool → ℕ → ℕ
count_retry retry n = if retry then (n + 1) % 256 else n

unfoldable pub request_automatic_sync : Application → Bool → Answers → SyncStatus × Handled
request_automatic_sync a retry answers =
    let (status, c, calls) = Coordinator.request a.sync_coordinator answers.request in
    let b = record a {
      sync_coordinator = c;
      auto_sync_retry_count = count_retry retry a.auto_sync_retry_count;
      auto_sync_retry_eligible = false;
    } in
    (
      status,
      (
        if is_ok status
            then record b {
              auto_sync_attempted = true;
              auto_sync_active = true;
              unclean_close_recovery_attempted = false;
            }
            else if not retry
            then record b { auto_sync_retry_eligible = true }
            else b,
        map called calls,
      ),
    )

abbrev pub reset_auto_sync : Application → Application
reset_auto_sync a = record a {
  auto_sync_attempted = false;
  auto_sync_active = false;
  auto_sync_retry_eligible = false;
  auto_sync_retry_count = 0;
}

abbrev pub is_waiting : DeviceState → Bool
is_waiting waiting = true
is_waiting _ = false

abbrev pub is_inspecting : DeviceState → Bool
is_inspecting inspecting = true
is_inspecting _ = false

abbrev pub is_available : DeviceState → Bool
is_available available = true
is_available _ = false

abbrev pub is_conflict : DeviceState → Bool
is_conflict conflict = true
is_conflict _ = false

-- The two branches that forget the last attachment's automatic sync.
unfoldable pub note_state : Application → DeviceSnapshot → Application
note_state a s =
    let b = record a { previous_device_state = s.state } in
    if is_waiting s.state
      && not a.preserve_attachment_across_reenumeration
      && not a.auto_sync_disarmed_by_conflict
    then reset_auto_sync b
    else if is_inspecting s.state
        && is_waiting a.previous_device_state
        && not a.preserve_attachment_across_reenumeration
        && not a.auto_sync_disarmed_by_conflict
    then reset_auto_sync b
    else b

-- `previous` is the state before the snapshot.
unfoldable pub start_on_attach : Application → DeviceState → DeviceSnapshot → Answers → Handled
start_on_attach a previous s answers =
    let became_available = is_available s.state && is_inspecting previous in
    let (b, effects) =
      (let started : Handled = (request_automatic_sync a false answers).1 in
        if became_available
          && a.sync_coordinator.policy.auto_sync_on_attach
          && not a.auto_sync_attempted
        then started
        else (a, [])) in
    (
      if became_available then record b { preserve_attachment_across_reenumeration = false } else b,
      effects,
    )

unfoldable pub handle_device_snapshot : Application → DeviceSnapshot → Answers → Handled
handle_device_snapshot a s answers =
    let (b, effects) = start_on_attach (note_state a s) a.previous_device_state s answers in
    (b, (if a.state_observer then observed s ∷ [] else []) ++ effects)

-- The application is left as it was where the status is not `ok`.
unfoldable pub init : Application → ApplicationConfig → CoreStatus × Application
init a config =
    if not config.sync.request
      || not config.sync.cancel
      || (config.retry_unclean_readonly_close_once && not config.sync.recover_session)
    then (CoreStatus.invalid_argument, a)
    else (
      CoreStatus.ok,
      record {
        device_service = Device.init true;
        safety_policy = record {
          allow_device_writes = config.allow_device_writes;
          allow_device_deletes = config.allow_device_deletes;
        };
        sync_coordinator = (Coordinator.init a.sync_coordinator config.sync config.sync_policy).1;
        state_observer = config.state_observer;
        previous_device_state = stopped;
        auto_sync_attempted = false;
        preserve_attachment_across_reenumeration = false;
        retry_unclean_readonly_close_once = config.retry_unclean_readonly_close_once;
        unclean_close_recovery_attempted = false;
        auto_sync_disarmed_by_conflict = false;
        auto_sync_active = false;
        auto_sync_retry_eligible = false;
        auto_sync_retry_count = 0;
      },
    )

abbrev pub disarm : Application → Application
disarm a = record a {
  preserve_attachment_across_reenumeration = false;
  auto_sync_attempted = true;
  auto_sync_active = false;
  auto_sync_retry_eligible = false;
  auto_sync_disarmed_by_conflict = true;
}

-- The branch of MULTIPLE_DETECTED: no automatic sync from here on, and the active one is cancelled.
unfoldable pub on_multiple : Application → Answers → Handled
on_multiple a answers =
    let b = disarm a in
    let (status, c, calls) = Coordinator.cancel b.sync_coordinator answers.cancel in
    if is_cancellable (sync_state b)
    then (record b { sync_coordinator = c }, map called calls)
    else (b, [])

abbrev pub is_multiple : EventKind → Bool
is_multiple multiple_detected = true
is_multiple _ = false

unfoldable pub note_reenumeration : Application → EventKind → Bool → Application
note_reenumeration a detached software = record a {
  preserve_attachment_across_reenumeration = software;
}
note_reenumeration a attached software = record a {
  preserve_attachment_across_reenumeration = software;
}
note_reenumeration a _ software = a

-- The device service publishes to `handle_device_snapshot`, as the last thing that it does.
unfoldable pub deliver : Application → DeviceEvent → Answers → CoreStatus × Handled
deliver a e answers =
    let (status, d, published) = Device.handle a.device_service e in
    let b = record a { device_service = d } in
    (status, elim published [ none ↦ (b, []) | some s ↦ handle_device_snapshot b s answers ])

-- What precedes the device service's part.
unfoldable pub prepare : Application → DeviceEvent → Answers → Handled
prepare a e answers =
    let (b, effects) = (if is_multiple e.kind then on_multiple a answers else (a, [])) in
    (note_reenumeration b e.kind e.software_reenumeration, effects)

unfoldable pub handle_device_event : Application → DeviceEvent → Answers → CoreStatus × Handled
handle_device_event a e answers =
    if not (e.topology_revision == 0)
      && ltb e.topology_revision a.device_service.snapshot.topology_revision
    then (CoreStatus.invalid_transition, (a, []))
    else let (b, first) = prepare a e answers in
      let (status, after) = deliver b e answers in (status, (after.0, first ++ after.1))
