-- ===== src/Application/Flags.antt =====
-- The flags of the automatic sync: the retry counter stays within its limit, and after a conflict nothing
-- starts by itself.
use revlink_sidecar.Base.{◌≡◌, ◌≤◌, true, false, Option-cases, inl, inr, arith}
use revlink_sidecar.Device
use revlink_sidecar.Device.{DeviceState, DeviceEvent, DeviceSnapshot}
use revlink_sidecar.Sync.Coordinator
use revlink_sidecar.Sync.Coordinator.{
  SyncEvent, SyncPolicy, Call, requested, recovered, cancel_called, published,
}
use revlink_sidecar.Application.{
  Application, Answers, auto_sync_retry_limit, request_automatic_sync, note_state, start_on_attach,
  handle_device_snapshot, on_multiple, note_reenumeration, prepare, deliver, handle_device_event,
}
use revlink_sidecar.Application.Commands.{
  request_sync, auto_sync_retry_needed, retry_auto_sync, cancel_sync, note_sync_event,
  recover_close, handle_sync_event, set_sync_policy,
}
use revlink_sidecar.Application.React.{
  Command, react, device_event, sync_event, configure, ask, ask_again, stop,
}

pub record FlagsOk (a : Application) : Type 0 where
  -- So `++auto_sync_retry_count`, an 8-bit addition, does not wrap.
  pub retry_capped : a.auto_sync_retry_count ≤ auto_sync_retry_limit
  pub disarmed_attempted : a.auto_sync_disarmed_by_conflict ≡ true → a.auto_sync_attempted ≡ true
  pub disarmed_inactive : a.auto_sync_disarmed_by_conflict ≡ true → a.auto_sync_active ≡ false
  pub disarmed_ineligible :
      a.auto_sync_disarmed_by_conflict ≡ true → a.auto_sync_retry_eligible ≡ false

handle_device_snapshot-FlagsOk :
    (a : Application) (s : DeviceSnapshot) (answers : Answers)
    → FlagsOk a
    → FlagsOk (handle_device_snapshot a s answers).0
unfolding handle_device_snapshot start_on_attach request_automatic_sync note_state
handle_device_snapshot-FlagsOk a s answers f = ground arith

deliver-FlagsOk :
    (a : Application) (e : DeviceEvent) (answers : Answers)
    → FlagsOk a
    → FlagsOk (deliver a e answers).1.0
unfolding deliver
deliver-FlagsOk a e answers f = elim (Option-cases (Device.handle a.device_service e).2) [
  | inl quiet ↦ ground arith
  | inr (s, told) ↦ ground (
    arith,
    handle_device_snapshot-FlagsOk
        (record a { device_service = (Device.handle a.device_service e).1 }) s answers,
  )
]

pub prepare-FlagsOk :
    (a : Application) (e : DeviceEvent) (answers : Answers)
    → FlagsOk a
    → FlagsOk (prepare a e answers).0
unfolding prepare on_multiple note_reenumeration
prepare-FlagsOk a e answers f = ground arith

pub handle_device_event-FlagsOk :
    (a : Application) (e : DeviceEvent) (answers : Answers)
    → FlagsOk a
    → FlagsOk (handle_device_event a e answers).1.0
unfolding handle_device_event
handle_device_event-FlagsOk a e answers f =
    ground (arith, prepare-FlagsOk a e answers, deliver-FlagsOk (prepare a e answers).0 e answers)

request_sync-FlagsOk :
    (a : Application) (answers : Answers) → FlagsOk a → FlagsOk (request_sync a answers).1.0
unfolding request_sync
request_sync-FlagsOk a answers f = ground arith

retry_auto_sync-FlagsOk :
    (a : Application) (answers : Answers) → FlagsOk a → FlagsOk (retry_auto_sync a answers).1.0
unfolding retry_auto_sync auto_sync_retry_needed request_automatic_sync
retry_auto_sync-FlagsOk a answers f = ground arith

pub note_sync_event-FlagsOk :
    (a : Application) (e : SyncEvent) → FlagsOk a → FlagsOk (note_sync_event a e)
unfolding note_sync_event
note_sync_event-FlagsOk a e f = ground arith

recover_close-FlagsOk :
    (a : Application) (e : SyncEvent) (answers : Answers)
    → FlagsOk a
    → FlagsOk (recover_close a e answers).1.0
unfolding recover_close
recover_close-FlagsOk a e answers f = ground arith

handle_sync_event-FlagsOk :
    (a : Application) (e : SyncEvent) (answers : Answers)
    → FlagsOk a
    → FlagsOk (handle_sync_event a e answers).1.0
unfolding handle_sync_event
handle_sync_event-FlagsOk a e answers f =
    ground
      (arith, note_sync_event-FlagsOk b e, recover_close-FlagsOk (note_sync_event b e) e answers)
  where
    b : Application
    b = record a { sync_coordinator = (Coordinator.handle_event a.sync_coordinator e).1 }

-- Every command keeps the flags in order.
pub react-FlagsOk :
    (a : Application) (c : Command) (answers : Answers) → FlagsOk a → FlagsOk (react a c answers).0
unfolding react set_sync_policy cancel_sync
react-FlagsOk a (device_event e) answers f = handle_device_event-FlagsOk a e answers f
react-FlagsOk a (sync_event e) answers f = handle_sync_event-FlagsOk a e answers f
react-FlagsOk a (configure policy) answers f = ground arith
react-FlagsOk a ask answers f = request_sync-FlagsOk a answers f
react-FlagsOk a ask_again answers f = retry_auto_sync-FlagsOk a answers f
react-FlagsOk a stop answers f = ground arith
