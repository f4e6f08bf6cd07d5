-- ===== src/Application/Attach.antt =====
-- The whole application from its start: its invariant, and the automatic sync with its one retry.
use revlink_sidecar.Base.{
  ◌≡◌, ◌⊎◌, ◌∙◌, sym, ap, true, false, none, some, inl, inr, List, [], ◌∷◌, arith,
}
use revlink_sidecar.Device
use revlink_sidecar.Device.{
  CoreStatus, DeviceState, DeviceEvent, DeviceSnapshot, EventKind, available, inspecting,
}
use revlink_sidecar.Device.Invariant.{init-IsValid, step-IsValid}
use revlink_sidecar.Sync.Coordinator.{SyncEvent, SyncPolicy}
use revlink_sidecar.Application.{
  Application, ApplicationConfig, Answers, device_state, request_automatic_sync, note_state,
  start_on_attach, init, handle_device_snapshot, on_multiple, note_reenumeration, prepare, deliver,
  handle_device_event,
}
use revlink_sidecar.Application.Commands.{
  request_sync, auto_sync_retry_needed, retry_auto_sync, cancel_sync, note_sync_event,
  recover_close, handle_sync_event, set_sync_policy,
}
use revlink_sidecar.Application.React.{
  Command, react, run, asks, device_event, sync_event, configure, ask, ask_again, stop,
}
use revlink_sidecar.Application.Flags.{FlagsOk, react-FlagsOk}

-- The device's part of the application: its snapshot is valid, the application observes it, and it has
-- seen its last state.
pub record DeviceOk (a : Application) : Type 0 where
  pub valid : Device.Invariant.IsValid a.device_service.snapshot
  pub observed : a.device_service.observer ≡ true
  pub tracked : a.previous_device_state ≡ device_state a

-- An operation that has nothing to do with the device.
abbrev Same : Application → Application → Type 0
Same a b =
    (b.device_service ≡ a.device_service) × (b.previous_device_state ≡ a.previous_device_state)

Same-DeviceOk : (a b : Application) → Same a b → DeviceOk a → DeviceOk b
Same-DeviceOk a b (same, seen) ok = record {
  valid = rw same ok.valid;
  observed = rw same ok.observed;
  tracked = rw (same, seen) ok.tracked;
}

handle_device_snapshot-tracks :
    (a : Application) (s : DeviceSnapshot) (answers : Answers)
    → ((handle_device_snapshot a s answers).0.device_service ≡ a.device_service)
      × ((handle_device_snapshot a s answers).0.previous_device_state ≡ s.state)
unfolding handle_device_snapshot start_on_attach request_automatic_sync note_state
handle_device_snapshot-tracks a s answers = ground arith

prepare-Same :
    (a : Application) (e : DeviceEvent) (answers : Answers) → Same a (prepare a e answers).0
unfolding prepare on_multiple note_reenumeration
prepare-Same a e answers = ground arith

handle-cases :
    (d : Device.DeviceService) (e : DeviceEvent)
    → d.observer ≡ true
    → (((Device.handle d e).1 ≡ d) × ((Device.handle d e).2 ≡ none))
      ⊎ ((Device.step d.snapshot e ≡ Device.next (Device.handle d e).1.snapshot)
          × ((Device.handle d e).2 ≡ some (Device.handle d e).1.snapshot)
          × ((Device.handle d e).1.observer ≡ true))
unfolding Device.handle
handle-cases d e o = ground arith

deliver-quiet :
    (a : Application) (e : DeviceEvent) (answers : Answers)
    → (Device.handle a.device_service e).2 ≡ none
    → ((deliver a e answers).1.0.device_service ≡ (Device.handle a.device_service e).1)
      × ((deliver a e answers).1.0.previous_device_state ≡ a.previous_device_state)
unfolding deliver
deliver-quiet a e answers quiet = ground arith

deliver-told :
    (a : Application) (e : DeviceEvent) (answers : Answers) (s : DeviceSnapshot)
    → (Device.handle a.device_service e).2 ≡ some s
    → ((deliver a e answers).1.0.device_service ≡ (Device.handle a.device_service e).1)
      × ((deliver a e answers).1.0.previous_device_state ≡ s.state)
unfolding deliver
deliver-told a e answers s told = ground (
  arith,
  handle_device_snapshot-tracks (record a { device_service = (Device.handle a.device_service e).1 })
      s answers,
)

deliver-DeviceOk :
    (a : Application) (e : DeviceEvent) (answers : Answers)
    → DeviceOk a
    → DeviceOk (deliver a e answers).1.0
deliver-DeviceOk a e answers ok = elim (handle-cases a.device_service e ok.observed) [
  | inl (same, quiet) ↦
      let (service, seen) = deliver-quiet a e answers quiet in
      Same-DeviceOk a (deliver a e answers).1.0 (service ∙ same, seen) ok
  | inr (stepped, told, observed) ↦
      let (service, seen) =
        deliver-told a e answers (Device.handle a.device_service e).1.snapshot told in
      record {
        valid = rw service (
            step-IsValid a.device_service.snapshot (Device.handle a.device_service e).1.snapshot e
              ok.valid stepped);
        observed = rw service observed;
        tracked = seen ∙ ap (λ (x : Device.DeviceService). x.snapshot.state) (sym service);
      }
]

handle_device_event-DeviceOk :
    (a : Application) (e : DeviceEvent) (answers : Answers)
    → DeviceOk a
    → DeviceOk (handle_device_event a e answers).1.0
unfolding handle_device_event
handle_device_event-DeviceOk a e answers ok =
    let b = (prepare a e answers).0 in
    let done = deliver-DeviceOk b e answers (Same-DeviceOk a b (prepare-Same a e answers) ok) in
    ground (arith, ok, done)

-- The operations that the device has no part in.
other-Same :
    (a : Application) (answers : Answers)
    → Same a (request_sync a answers).1.0
      × Same a (retry_auto_sync a answers).1.0
      × Same a (cancel_sync a answers).1.0
      × ((policy : SyncPolicy) → Same a (set_sync_policy a policy).1)
unfolding request_sync retry_auto_sync request_automatic_sync cancel_sync set_sync_policy
other-Same a answers = (ground arith, ground arith, ground arith, λ policy. ground arith)

handle_sync_event-Same :
    (a : Application) (e : SyncEvent) (answers : Answers)
    → Same a (handle_sync_event a e answers).1.0
unfolding handle_sync_event recover_close note_sync_event
handle_sync_event-Same a e answers = ground arith

react-DeviceOk :
    (a : Application) (c : Command) (answers : Answers)
    → DeviceOk a
    → DeviceOk (react a c answers).0
unfolding react
react-DeviceOk a (device_event e) answers ok = handle_device_event-DeviceOk a e answers ok
react-DeviceOk a (sync_event e) answers ok =
    Same-DeviceOk a _ (handle_sync_event-Same a e answers) ok
react-DeviceOk a (configure policy) answers ok =
    Same-DeviceOk a _ ((other-Same a answers).3 policy) ok
react-DeviceOk a ask answers ok = Same-DeviceOk a _ (other-Same a answers).0 ok
react-DeviceOk a ask_again answers ok = Same-DeviceOk a _ (other-Same a answers).1 ok
react-DeviceOk a stop answers ok = Same-DeviceOk a _ (other-Same a answers).2 ok

init-ok :
    (old : Application) (config : ApplicationConfig)
    → (init old config).0 ≡ CoreStatus.ok
    → FlagsOk (init old config).1 × DeviceOk (init old config).1
unfolding init Device.init
init-ok old config h = ground (arith, init-IsValid true)

run_from-ok :
    (a : Application) (entries : List (Command × Answers))
    → FlagsOk a × DeviceOk a
    → FlagsOk (run a entries).0 × DeviceOk (run a entries).0
unfolding run
run_from-ok a [] ok = ok
run_from-ok a ((c, answers) ∷ rest) ok =
    run_from-ok (react a c answers).0 rest
      (react-FlagsOk a c answers ok.0, react-DeviceOk a c answers ok.1)

-- From an accepted configuration on, whatever happens: the retry counter stays within its limit, a
-- disarmed application counts its automatic sync as attempted, not active and not due again, and the
-- device's snapshot is valid and its last state known to the application.
pub run-ok :
    (old : Application) (config : ApplicationConfig) (entries : List (Command × Answers))
    → (init old config).0 ≡ CoreStatus.ok
    → FlagsOk (run (init old config).1 entries).0 × DeviceOk (run (init old config).1 entries).0
run-ok old config entries h = run_from-ok (init old config).1 entries (init-ok old config h)

-- The automatic sync is retried at most once: a retry that reaches the transport finds the counter at
-- zero and leaves it at one, and then no retry is due.
pub retry_auto_sync_once :
    (a : Application) (answers : Answers)
    → asks (retry_auto_sync a answers).1.1 ≡ true
    → (a.auto_sync_retry_count ≡ 0)
      × ((retry_auto_sync a answers).1.0.auto_sync_retry_count ≡ 1)
      × (auto_sync_retry_needed (retry_auto_sync a answers).1.0 ≡ false)
unfolding retry_auto_sync auto_sync_retry_needed request_automatic_sync
retry_auto_sync_once a answers h = ground arith
