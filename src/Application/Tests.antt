-- ===== src/Application/Tests.antt =====
-- Runs of the application, and its theorems at concrete inputs.
use revlink_sidecar.Base.{ℕ, ◌≡◌, inr, refl, true, false, List, [], ◌∷◌, pos, arith}
use revlink_sidecar.Device
use revlink_sidecar.Device.{
  CoreStatus, DeviceState, available, EventKind, monitor_started, attached, accepted,
  multiple_detected, zero_identity, DeviceEvent,
}
use revlink_sidecar.Sync.Coordinator
use revlink_sidecar.Sync.Coordinator.{
  SyncStatus, zero_sync_snapshot, requested, published, SyncEvent, failure,
}
use revlink_sidecar.Application.{
  Application, ApplicationConfig, Answers, called, device_state, init, request_automatic_sync,
  note_state, start_on_attach, handle_device_snapshot, note_reenumeration, prepare, deliver,
  handle_device_event,
}
use revlink_sidecar.Application.React.{Command, device_event, ask_again, react, run, asks}
use revlink_sidecar.Application.Ready.{react-starts}
use revlink_sidecar.Application.Flags.{FlagsOk}
use revlink_sidecar.Application.Disarmed.{conflict_silences}
use revlink_sidecar.Application.Attach.{DeviceOk, run-ok}

abbrev config : ApplicationConfig
config = record {
  allow_device_writes = false;
  allow_device_deletes = false;
  state_observer = false;
  sync_policy = record { auto_sync_on_attach = true };
  sync = record { request = true; recover_session = true; cancel = true; observer = false };
  retry_unclean_readonly_close_once = true;
}

-- An application before `init`.
abbrev blank : Application
blank = record {
  device_service = record { snapshot = Device.zero_snapshot; observer = false };
  safety_policy = record { allow_device_writes = false; allow_device_deletes = false };
  sync_coordinator = record {
    policy = record { auto_sync_on_attach = false };
    snapshot = zero_sync_snapshot;
    config = record { request = false; recover_session = false; cancel = false; observer = false };
  };
  state_observer = false;
  previous_device_state = Device.stopped;
  auto_sync_attempted = false;
  preserve_attachment_across_reenumeration = false;
  retry_unclean_readonly_close_once = false;
  unclean_close_recovery_attempted = false;
  auto_sync_disarmed_by_conflict = false;
  auto_sync_active = false;
  auto_sync_retry_eligible = false;
  auto_sync_retry_count = 0;
}

abbrev event : EventKind → ℕ → Command
event kind revision = device_event (record {
  kind = kind;
  identity = zero_identity;
  platform_error = pos 0;
  eligible_device_count = 2;
  topology_revision = revision;
  software_reenumeration = false;
})

abbrev willing : Answers
willing = record { request = SyncStatus.ok; recover = SyncStatus.ok; cancel = SyncStatus.ok }

abbrev busy : Answers
busy = record willing { request = SyncStatus.transport_error }

abbrev attaching : Answers → List (Command × Answers)
attaching answers =
    (event monitor_started 0, willing)
    ∷ (event attached 1, willing)
    ∷ (event accepted 2, answers)
    ∷ []

abbrev started : Application
started = (init blank config).1

-- An attached device starts the sync by itself.
attach_syncs : (run started (attaching willing)).1 ≡ called requested ∷ []
unfolding run react init handle_device_event prepare note_reenumeration deliver Device.handle
    Device.step Device.switch Device.revise Device.init handle_device_snapshot start_on_attach
    note_state request_automatic_sync Coordinator.request Coordinator.init
attach_syncs = refl

run-ok_example :
    FlagsOk (run started (attaching busy)).0 × DeviceOk (run started (attaching busy)).0
unfolding init
run-ok_example = run-ok blank config (attaching busy) refl

abbrev inspecting_application : Application
inspecting_application =
    (run started ((event monitor_started 0, willing) ∷ (event attached 1, willing) ∷ [])).0

react-starts_example :
    device_state (react inspecting_application (event accepted 2) willing).0 ≡ available
unfolding run react init handle_device_event prepare note_reenumeration deliver Device.handle
    Device.step Device.switch Device.revise Device.init handle_device_snapshot start_on_attach
    note_state request_automatic_sync Coordinator.request Coordinator.init
react-starts_example = react-starts inspecting_application (event accepted 2) willing refl

started-FlagsOk : FlagsOk started
unfolding init
started-FlagsOk = ground arith

conflict_silences_example :
    asks
      (run started
        ((event multiple_detected 1, willing) ∷ (ask_again, willing) ∷ attaching willing)).1
    ≡ false
unfolding init Device.init
conflict_silences_example =
    conflict_silences started
      (record {
        kind = multiple_detected;
        identity = zero_identity;
        platform_error = pos 0;
        eligible_device_count = 2;
        topology_revision = 1;
        software_reenumeration = false;
      })
      willing ((ask_again, willing) ∷ attaching willing) started-FlagsOk refl (inr (omega arith))
      (ground arith)
