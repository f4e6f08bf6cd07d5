-- ===== src/Application/Disarmed.antt =====
-- After several devices were seen at once, no sync starts by itself until the owner asks for one.
use revlink_sidecar.Base.{
  ◌≡◌, ◌≢◌, ◌≤◌, ◌⊎◌, refl, ◌∙◌, true, false, Option-cases, inl, inr, List, [], ◌∷◌, ◌++◌, map,
  arith, All,
}
use revlink_sidecar.Device
use revlink_sidecar.Device.{DeviceState, DeviceEvent, DeviceSnapshot, multiple_detected}
use revlink_sidecar.Sync.Coordinator
use revlink_sidecar.Sync.Coordinator.{
  SyncEvent, SyncPolicy, Call, requested, recovered, cancel_called, published,
}
use revlink_sidecar.Application.{
  Application, Effect, observed, called, Answers, Handled, note_state, start_on_attach,
  handle_device_snapshot, on_multiple, note_reenumeration, prepare, deliver, handle_device_event,
}
use revlink_sidecar.Application.Commands.{
  auto_sync_retry_needed, retry_auto_sync, cancel_sync, note_sync_event, recover_close,
  handle_sync_event, set_sync_policy,
}
use revlink_sidecar.Application.React.{
  Command, react, run, asks, device_event, sync_event, configure, ask, ask_again, stop,
}
use revlink_sidecar.Application.Flags.{
  FlagsOk, react-FlagsOk, note_sync_event-FlagsOk, prepare-FlagsOk, handle_device_event-FlagsOk,
}

-- A handler's result: it asked for no sync and the application is still disarmed.
record IsStill (r : Handled) : Type 0 where
  silent : asks r.1 ≡ false
  disarmed : r.0.auto_sync_disarmed_by_conflict ≡ true

asks-append : (xs ys : List Effect) → asks xs ≡ false → asks ys ≡ false → asks (xs ++ ys) ≡ false
asks-append [] ys h k = k
asks-append (called requested ∷ xs) ys h k = cc
asks-append (called recovered ∷ xs) ys h k = asks-append xs ys h k
asks-append (called cancel_called ∷ xs) ys h k = asks-append xs ys h k
asks-append (called (published s) ∷ xs) ys h k = asks-append xs ys h k
asks-append (observed s ∷ xs) ys h k = asks-append xs ys h k

module _ (a : Application) (f : FlagsOk a) (d : a.auto_sync_disarmed_by_conflict ≡ true)
    (answers : Answers) where
  handle_device_snapshot-IsStill :
      (s : DeviceSnapshot) → IsStill (handle_device_snapshot a s answers)
  unfolding handle_device_snapshot start_on_attach note_state
  handle_device_snapshot-IsStill s = ground arith

  prepare-IsStill : (e : DeviceEvent) → IsStill (prepare a e answers)
  unfolding prepare on_multiple note_reenumeration Coordinator.cancel
  prepare-IsStill e = ground arith

  retry_auto_sync-IsStill : IsStill (retry_auto_sync a answers).1
  unfolding retry_auto_sync auto_sync_retry_needed
  retry_auto_sync-IsStill = ground arith

  cancel_sync-IsStill : IsStill (cancel_sync a answers).1
  unfolding cancel_sync Coordinator.cancel
  cancel_sync-IsStill = ground arith

  recover_close-IsStill : (e : SyncEvent) → IsStill (recover_close a e answers).1
  unfolding recover_close Coordinator.recover_session
  recover_close-IsStill e = ground arith

  set_sync_policy-IsStill : (policy : SyncPolicy) → IsStill ((set_sync_policy a policy).1, [])
  unfolding set_sync_policy
  set_sync_policy-IsStill policy = ground arith

deliver-IsStill :
    (a : Application) (e : DeviceEvent) (answers : Answers)
    → FlagsOk a
    → a.auto_sync_disarmed_by_conflict ≡ true
    → IsStill (deliver a e answers).1
unfolding deliver
deliver-IsStill a e answers f d = elim (Option-cases (Device.handle a.device_service e).2) [
  | inl quiet ↦ ground arith
  | inr (s, told) ↦ ground (
    arith,
    handle_device_snapshot-IsStill
        (record a { device_service = (Device.handle a.device_service e).1 }) (ground arith) d
        answers s,
  )
]

handle_device_event-IsStill :
    (a : Application) (e : DeviceEvent) (answers : Answers)
    → FlagsOk a
    → a.auto_sync_disarmed_by_conflict ≡ true
    → IsStill (handle_device_event a e answers).1
unfolding handle_device_event
handle_device_event-IsStill a e answers f d = ground (
  arith,
  prepare-IsStill a f d answers e,
  prepare-FlagsOk a e answers f,
  deliver-IsStill (prepare a e answers).0 e answers,
  asks-append (prepare a e answers).1 (deliver (prepare a e answers).0 e answers).1.1,
)

handle_event-asks :
    (c : Coordinator.Coordinator) (e : SyncEvent)
    → asks (map called (Coordinator.handle_event c e).2) ≡ false
unfolding Coordinator.handle_event
handle_event-asks c e = ground arith

note_sync_event-disarmed :
    (a : Application) (e : SyncEvent)
    → (note_sync_event a e).auto_sync_disarmed_by_conflict ≡ a.auto_sync_disarmed_by_conflict
unfolding note_sync_event
note_sync_event-disarmed a e = ground arith

handle_sync_event-IsStill :
    (a : Application) (e : SyncEvent) (answers : Answers)
    → FlagsOk a
    → a.auto_sync_disarmed_by_conflict ≡ true
    → IsStill (handle_sync_event a e answers).1
unfolding handle_sync_event
handle_sync_event-IsStill a e answers f d = ground (
  arith,
  handle_event-asks a.sync_coordinator e,
  recover_close-IsStill (note_sync_event b e) (note_sync_event-FlagsOk b e (ground arith))
      (note_sync_event-disarmed b e ∙ d) answers e,
  asks-append (map called (Coordinator.handle_event a.sync_coordinator e).2)
      (recover_close (note_sync_event b e) e answers).1.1,
)
  where
    b : Application
    b = record a { sync_coordinator = (Coordinator.handle_event a.sync_coordinator e).1 }

react-IsStill :
    (a : Application) (c : Command) (answers : Answers)
    → FlagsOk a
    → a.auto_sync_disarmed_by_conflict ≡ true
    → c ≢ ask
    → IsStill (react a c answers)
unfolding react
react-IsStill a (device_event e) answers f d n = handle_device_event-IsStill a e answers f d
react-IsStill a (sync_event e) answers f d n = handle_sync_event-IsStill a e answers f d
react-IsStill a (configure policy) answers f d n = set_sync_policy-IsStill a f d answers policy
react-IsStill a ask answers f d n = absurd (n refl)
react-IsStill a ask_again answers f d n = retry_auto_sync-IsStill a f d answers
react-IsStill a stop answers f d n = cancel_sync-IsStill a f d answers

-- No command of the run is the owner's request.
abbrev pub NoAsk : List (Command × Answers) → Type 0
NoAsk = All (λ (entry : Command × Answers). entry.0 ≢ ask)

run-IsStill :
    (a : Application) (entries : List (Command × Answers))
    → FlagsOk a
    → a.auto_sync_disarmed_by_conflict ≡ true
    → NoAsk entries
    → IsStill (run a entries)
unfolding run
run-IsStill a [] f d n = record { silent = refl; disarmed = d }
run-IsStill a ((c, answers) ∷ rest) f d (n, ns) =
    let first = react-IsStill a c answers f d n in
    let after =
      run-IsStill (react a c answers).0 rest (react-FlagsOk a c answers f) first.disarmed ns in
    record {
      silent =
          asks-append (react a c answers).1 (run (react a c answers).0 rest).1 first.silent
            after.silent;
      disarmed = after.disarmed;
    }

multiple-IsStill :
    (a : Application) (e : DeviceEvent) (answers : Answers)
    → e.kind ≡ multiple_detected
    → IsStill (prepare a e answers)
unfolding prepare on_multiple note_reenumeration Coordinator.cancel
multiple-IsStill a e answers k = ground arith

-- The event is not older than the newest topology revision.
abbrev pub IsFresh : Application → DeviceEvent → Type 0
IsFresh a e =
    (e.topology_revision ≡ 0) ⊎ (a.device_service.snapshot.topology_revision ≤ e.topology_revision)

multiple_event-IsStill :
    (a : Application) (e : DeviceEvent) (answers : Answers)
    → FlagsOk a
    → e.kind ≡ multiple_detected
    → IsFresh a e
    → IsStill (handle_device_event a e answers).1
unfolding handle_device_event
multiple_event-IsStill a e answers f k fresh =
    let told = multiple-IsStill a e answers k in
    ground (
      arith,
      deliver-IsStill (prepare a e answers).0 e answers (prepare-FlagsOk a e answers f)
          told.disarmed,
      asks-append (prepare a e answers).1 (deliver (prepare a e answers).0 e answers).1.1,
    )

-- From the moment that an event which is not stale reports several devices, nothing that happens, that
-- event included, makes the application ask the transport for a sync, until the owner asks for one.
pub conflict_silences :
    (a : Application) (e : DeviceEvent) (answers : Answers) (rest : List (Command × Answers))
    → FlagsOk a
    → e.kind ≡ multiple_detected
    → IsFresh a e
    → NoAsk rest
    → asks (run a ((device_event e, answers) ∷ rest)).1 ≡ false
unfolding run react
conflict_silences a e answers rest f k fresh n =
    let first = multiple_event-IsStill a e answers f k fresh in
    let after =
      run-IsStill (handle_device_event a e answers).1.0 rest
        (handle_device_event-FlagsOk a e answers f) first.disarmed n in
    asks-append (handle_device_event a e answers).1.1
      (run (handle_device_event a e answers).1.0 rest).1 first.silent after.silent
