-- ===== src/Application/Ready.antt =====
-- The transport is asked for work only on behalf of an available device.
use revlink_sidecar.Base.{
  ◌≡◌, refl, true, false, some, Option-cases, inl, inr, List, [], ◌∷◌, ◌++◌, map, arith,
}
use revlink_sidecar.Device
use revlink_sidecar.Device.{DeviceState, available, DeviceEvent, DeviceSnapshot}
use revlink_sidecar.Sync.Coordinator
use revlink_sidecar.Sync.Coordinator.{
  Call, requested, recovered, cancel_called, published, SyncStatus, SyncEvent, SyncPolicy,
  is_active,
}
use revlink_sidecar.Application.{
  Application, Effect, observed, called, Answers, device_state, request_automatic_sync, note_state,
  start_on_attach, handle_device_snapshot, on_multiple, prepare, deliver, handle_device_event,
}
use revlink_sidecar.Application.Commands.{
  request_sync, auto_sync_retry_needed, retry_auto_sync, cancel_sync, note_sync_event,
  recover_close, handle_sync_event,
}
use revlink_sidecar.Application.React.{
  Command, react, starts, device_event, sync_event, configure, ask, ask_again, stop,
}

handle_device_snapshot-starts :
    (a : Application) (s : DeviceSnapshot) (answers : Answers)
    → starts (handle_device_snapshot a s answers).1 ≡ true
    → s.state ≡ available
unfolding handle_device_snapshot start_on_attach request_automatic_sync note_state
    Coordinator.request
handle_device_snapshot-starts a s answers h = ground arith

handle_device_snapshot-device :
    (a : Application) (s : DeviceSnapshot) (answers : Answers)
    → (handle_device_snapshot a s answers).0.device_service ≡ a.device_service
unfolding handle_device_snapshot start_on_attach request_automatic_sync note_state
handle_device_snapshot-device a s answers = ground arith

-- The device service publishes the snapshot that it then has.
handle-published :
    (d : Device.DeviceService) (e : DeviceEvent) (s : DeviceSnapshot)
    → (Device.handle d e).2 ≡ some s
    → (Device.handle d e).1.snapshot ≡ s
unfolding Device.handle
handle-published d e s h = ground arith

deliver-starts :
    (a : Application) (e : DeviceEvent) (answers : Answers)
    → starts (deliver a e answers).1.1 ≡ true
    → device_state (deliver a e answers).1.0 ≡ available
unfolding deliver
deliver-starts a e answers h = elim (Option-cases (Device.handle a.device_service e).2) [
  | inl quiet ↦ ground arith
  | inr (s, told) ↦ ground (
    arith,
    handle-published a.device_service e s told,
    handle_device_snapshot-starts
        (record a { device_service = (Device.handle a.device_service e).1 }) s answers,
    handle_device_snapshot-device
        (record a { device_service = (Device.handle a.device_service e).1 }) s answers,
  )
]

starts-append : (xs ys : List Effect) → starts xs ≡ false → starts (xs ++ ys) ≡ starts ys
starts-append [] ys h = refl
starts-append (called requested ∷ xs) ys h = cc
starts-append (called recovered ∷ xs) ys h = cc
starts-append (called cancel_called ∷ xs) ys h = starts-append xs ys h
starts-append (called (published s) ∷ xs) ys h = starts-append xs ys h
starts-append (observed s ∷ xs) ys h = starts-append xs ys h

prepare-starts :
    (a : Application) (e : DeviceEvent) (answers : Answers) → starts (prepare a e answers).1 ≡ false
unfolding prepare on_multiple Coordinator.cancel
prepare-starts a e answers = ground arith

handle_device_event-starts :
    (a : Application) (e : DeviceEvent) (answers : Answers)
    → starts (handle_device_event a e answers).1.1 ≡ true
    → device_state (handle_device_event a e answers).1.0 ≡ available
unfolding handle_device_event
handle_device_event-starts a e answers h = ground (
  arith,
  prepare-starts a e answers,
  deliver-starts (prepare a e answers).0 e answers,
  starts-append (prepare a e answers).1 (deliver (prepare a e answers).0 e answers).1.1,
)

request_sync-starts :
    (a : Application) (answers : Answers)
    → starts (request_sync a answers).1.1 ≡ true
    → device_state (request_sync a answers).1.0 ≡ available
unfolding request_sync Coordinator.request
request_sync-starts a answers h = ground arith

retry_auto_sync-starts :
    (a : Application) (answers : Answers)
    → starts (retry_auto_sync a answers).1.1 ≡ true
    → device_state (retry_auto_sync a answers).1.0 ≡ available
unfolding retry_auto_sync request_automatic_sync auto_sync_retry_needed Coordinator.request
retry_auto_sync-starts a answers h = ground arith

handle_event-starts :
    (c : Coordinator.Coordinator) (e : SyncEvent)
    → starts (map called (Coordinator.handle_event c e).2) ≡ false
unfolding Coordinator.handle_event
handle_event-starts c e = ground arith

recover_close-starts :
    (a : Application) (e : SyncEvent) (answers : Answers)
    → starts (recover_close a e answers).1.1 ≡ true
    → device_state (recover_close a e answers).1.0 ≡ available
unfolding recover_close
recover_close-starts a e answers h = ground arith

handle_sync_event-starts :
    (a : Application) (e : SyncEvent) (answers : Answers)
    → starts (handle_sync_event a e answers).1.1 ≡ true
    → device_state (handle_sync_event a e answers).1.0 ≡ available
unfolding handle_sync_event
handle_sync_event-starts a e answers h = ground (
  arith,
  handle_event-starts a.sync_coordinator e,
  recover_close-starts (note_sync_event b e) e answers,
  starts-append (map called (Coordinator.handle_event a.sync_coordinator e).2)
      (recover_close (note_sync_event b e) e answers).1.1,
)
  where
    b : Application
    b = record a { sync_coordinator = (Coordinator.handle_event a.sync_coordinator e).1 }

cancel_sync-starts :
    (a : Application) (answers : Answers) → starts (cancel_sync a answers).1.1 ≡ false
unfolding cancel_sync Coordinator.cancel
cancel_sync-starts a answers = ground arith

-- Whatever happens to the application, it asks the transport for a sync or for the recovery of a session
-- only if the device is available then.
pub react-starts :
    (a : Application) (c : Command) (answers : Answers)
    → starts (react a c answers).1 ≡ true
    → device_state (react a c answers).0 ≡ available
unfolding react
react-starts a (device_event e) answers h = handle_device_event-starts a e answers h
react-starts a (sync_event e) answers h = handle_sync_event-starts a e answers h
react-starts a (configure policy) answers h = cc
react-starts a ask answers h = request_sync-starts a answers h
react-starts a ask_again answers h = retry_auto_sync-starts a answers h
react-starts a stop answers h = cc (cancel_sync-starts a answers)
