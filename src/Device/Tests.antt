-- ===== src/Device/Tests.antt =====
-- Tests of the device service, and its theorems at concrete inputs.
use revlink_sidecar.Base.{ℕ, ◌≡◌, refl, true, false, none, List, [], ◌∷◌, pos, arith}
use revlink_sidecar.Device.{
  CoreStatus, stopped, waiting, available, conflict, EventKind, monitor_started, attached, accepted,
  detached, multiple_detected, Identity, zero_identity, DeviceEvent, DeviceSnapshot, DeviceService,
  init, switch, revise, step, handle,
}
use revlink_sidecar.Device.Invariant.{IsValid}
use revlink_sidecar.Device.Graph.{◌⟶◌, step-⟶}
use revlink_sidecar.Device.Revision.{run, run-IsValid, run_stale}

abbrev port : Identity
port = record zero_identity { vendor_id = 0x1a84; address = 3; attachment_generation = 1 }

abbrev event : EventKind → ℕ → ℕ → DeviceEvent
event kind count revision = record {
  kind = kind;
  identity = port;
  platform_error = pos 0;
  eligible_device_count = count;
  topology_revision = revision;
  software_reenumeration = false;
}

abbrev attaching : List DeviceEvent
attaching = event monitor_started 0 0 ∷ event attached 1 1 ∷ event accepted 1 2 ∷ []

abbrev colliding : List DeviceEvent
colliding = event monitor_started 0 0 ∷ event attached 1 1 ∷ event multiple_detected 2 3 ∷ []

attaching_available : (run (init true) attaching).snapshot.state ≡ available
unfolding run init handle step switch revise
attaching_available = refl

run-IsValid_example : IsValid (run (init true) attaching).snapshot
run-IsValid_example = run-IsValid true attaching

step-⟶_example : stopped ⟶ waiting
unfolding step switch revise init
step-⟶_example =
    step-⟶ (init true).snapshot (record (init true).snapshot { state = waiting })
      (event monitor_started 0 0) refl

abbrev waiting_service : DeviceService
waiting_service = run (init true) (event monitor_started 0 0 ∷ [])

run_stale_example :
    handle
      (run (handle waiting_service (event attached 1 7)).1 (event accepted 1 8 ∷ []))
      (event detached 0 5)
    ≡ (
      CoreStatus.invalid_transition,
      run (handle waiting_service (event attached 1 7)).1 (event accepted 1 8 ∷ []),
      none,
    )
unfolding run init handle step switch revise
run_stale_example =
    run_stale waiting_service (event attached 1 7) (event detached 0 5) (event accepted 1 8 ∷ [])
      refl refl refl (omega arith)

abbrev in_conflict : DeviceSnapshot
in_conflict = record {
  state = conflict;
  identity = zero_identity;
  last_platform_error = pos 0;
  eligible_device_count = 2;
  topology_revision = 3;
  conflict_recovery_required = true;
}

abbrev resolved : DeviceSnapshot
resolved = record in_conflict {
  state = waiting;
  eligible_device_count = 0;
  topology_revision = 4;
  conflict_recovery_required = false;
}
