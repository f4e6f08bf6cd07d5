-- ===== src/Application/React.antt =====
-- Everything that can happen to the application, as one function of its state.
use revlink_sidecar.Base.{Bool, true, false, List, [], ◌∷◌, ◌++◌}
use revlink_sidecar.Device.{DeviceEvent}
use revlink_sidecar.Sync.Coordinator.{SyncEvent, SyncPolicy, requested, recovered}
use revlink_sidecar.Application.{Application, Effect, called, Answers, Handled, handle_device_event}
use revlink_sidecar.Application.Commands.{
  set_sync_policy, request_sync, retry_auto_sync, cancel_sync, handle_sync_event,
}

pub data Command : Type 0 where
  device_event : DeviceEvent → Command
  sync_event : SyncEvent → Command
  configure : SyncPolicy → Command
  ask ask_again stop : Command

unfoldable pub react : Application → Command → Answers → Handled
react a (device_event e) answers = (handle_device_event a e answers).1
react a (sync_event e) answers = (handle_sync_event a e answers).1
react a (configure policy) answers = ((set_sync_policy a policy).1, [])
react a ask answers = (request_sync a answers).1
react a ask_again answers = (retry_auto_sync a answers).1
react a stop answers = (cancel_sync a answers).1

-- A run gives each command the answers that the transport has for it.
unfoldable pub run : Application → List (Command × Answers) → Handled
run a [] = (a, [])
run a ((c, answers) ∷ rest) =
    let (b, effects) = react a c answers in let (last, more) = run b rest in (last, effects ++ more)

-- Some effect asks the transport for a sync.
abbrev pub asks : List Effect → Bool
asks [] = false
asks (called requested ∷ effects) = true
asks (_ ∷ effects) = asks effects

-- Some effect asks the transport for a sync or for the recovery of a session.
abbrev pub starts : List Effect → Bool
starts [] = false
starts (called requested ∷ effects) = true
starts (called recovered ∷ effects) = true
starts (_ ∷ effects) = starts effects
