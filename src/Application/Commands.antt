-- ===== src/Application/Commands.antt =====
-- The application's other operations: what the owner, the portal and the transport ask of it.
use revlink_sidecar.Base.{
  ◌==◌, ltb, leb, if◌then◌else◌, Bool, true, false, not, ◌&&◌, ◌||◌, some, [], ◌++◌, map,
}
use revlink_sidecar.Device.{CoreStatus}
use revlink_sidecar.Safety
use revlink_sidecar.Safety.{Operation, discover}
use revlink_sidecar.Sync.Coordinator
use revlink_sidecar.Sync.Coordinator.{
  SyncStatus, SyncPolicy, SyncEvent, SyncEventKind, completion, failure, cancellation, SyncSnapshot,
  is_active, is_ok,
}
use revlink_sidecar.Application.{
  Application, called, Answers, Handled, device_state, sync_state, is_available, is_conflict,
  request_automatic_sync, auto_sync_retry_limit,
}

abbrev pub is_discover : Operation → Bool
is_discover discover = true
is_discover _ = false

unfoldable pub authorize : Application → Operation → CoreStatus
authorize a operation =
    if is_conflict (device_state a) && not (is_discover operation)
    then CoreStatus.not_authorized
    else Safety.authorize (some a.safety_policy) operation

unfoldable pub set_sync_policy : Application → SyncPolicy → SyncStatus × Application
set_sync_policy a policy =
    let (status, c) = Coordinator.set_policy a.sync_coordinator policy in
    let b = record a { sync_coordinator = c } in
    (
      status,
      if is_ok status && not policy.auto_sync_on_attach
          then record b { auto_sync_active = false; auto_sync_retry_eligible = false }
          else b,
    )

unfoldable pub request_sync : Application → Answers → SyncStatus × Handled
request_sync a answers =
    let (status, c, calls) = Coordinator.request a.sync_coordinator answers.request in
    let b = record a { sync_coordinator = c } in
    if not (is_available (device_state a)) then (SyncStatus.invalid_state, (a, [])) else (
      status,
      (
        if is_ok status
            then record b {
              auto_sync_attempted = true;
              auto_sync_active = false;
              auto_sync_retry_eligible = false;
              auto_sync_disarmed_by_conflict = false;
              unclean_close_recovery_attempted = false;
            }
            else b,
        map called calls,
      ),
    )

unfoldable pub auto_sync_retry_needed : Application → Bool
auto_sync_retry_needed a =
    if not a.sync_coordinator.policy.auto_sync_on_attach
      || a.auto_sync_disarmed_by_conflict
      || not a.auto_sync_retry_eligible
      || leb auto_sync_retry_limit a.auto_sync_retry_count
    then false
    else is_available (device_state a)
      && not a.device_service.snapshot.conflict_recovery_required
      && not (is_active (sync_state a))

unfoldable pub retry_auto_sync : Application → Answers → SyncStatus × Handled
retry_auto_sync a answers =
    if not (auto_sync_retry_needed a)
    then (SyncStatus.invalid_state, (a, []))
    else request_automatic_sync a true answers

unfoldable pub cancel_sync : Application → Answers → SyncStatus × Handled
cancel_sync a answers =
    let (status, c, calls) = Coordinator.cancel a.sync_coordinator answers.cancel in
    (status, (record a { sync_coordinator = c }, map called calls))

abbrev pub is_failure : SyncEventKind → Bool
is_failure failure = true
is_failure _ = false

abbrev pub is_end : SyncEventKind → Bool
is_end completion = true
is_end failure = true
is_end cancellation = true
is_end _ = false

-- The flags of the automatic sync after an event that the coordinator took.
unfoldable pub note_sync_event : Application → SyncEvent → Application
note_sync_event a e =
    if is_failure e.kind
      && a.auto_sync_active
      && not e.close_recovery_attempt
      && not e.data_phase_completed
      && e.downloaded == 0
      && e.downloaded_bytes == 0
      && ltb a.auto_sync_retry_count auto_sync_retry_limit
    then record a { auto_sync_retry_eligible = true }
    else if is_end e.kind
    then record a { auto_sync_active = false; auto_sync_retry_eligible = false }
    else a

abbrev pub recoverable_close_failure : SyncEvent → Bool
recoverable_close_failure e =
    is_failure e.kind
    && not e.close_recovery_attempt
    && e.data_phase_completed
    && not e.session_close_acknowledged

-- One attempt to close a session that the device did not see closed.
unfoldable pub recover_close : Application → SyncEvent → Answers → SyncStatus × Handled
recover_close a e answers =
    let (status, c, calls) = Coordinator.recover_session a.sync_coordinator answers.recover in
    if not a.retry_unclean_readonly_close_once
      || not (recoverable_close_failure e)
      || a.unclean_close_recovery_attempted
    then (SyncStatus.ok, (a, []))
    else if not (is_available (device_state a))
        || a.device_service.snapshot.conflict_recovery_required
    then (SyncStatus.ok, (a, []))
    else (
      status,
      (
        record a { unclean_close_recovery_attempted = true; sync_coordinator = c },
        map called calls,
      ),
    )

unfoldable pub handle_sync_event : Application → SyncEvent → Answers → SyncStatus × Handled
handle_sync_event a e answers =
    let (status, c, calls) = Coordinator.handle_event a.sync_coordinator e in
    let b = record a { sync_coordinator = c } in
    let (last, after) = recover_close (note_sync_event b e) e answers in
    if not (is_ok status)
    then (status, (b, map called calls))
    else (last, (after.0, map called calls ++ after.1))
