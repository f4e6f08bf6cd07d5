-- ===== src/Sync/Coordinator/Tests.antt =====
-- Tests of the sync coordinator, and its theorems at concrete inputs.
use revlink_sidecar.Base.{◌+◌, ◌≡◌, ◌≢◌, refl, true, false, List, [], ◌∷◌, pos, none}
use revlink_sidecar.Sync.Coordinator.{
  ok, transport_error, SyncEvent, SyncEventKind, started, completion, Coordinator,
  zero_sync_snapshot, request, handle_event, is_active, is_cancellable,
}
use revlink_sidecar.Sync.Coordinator.Cycle.{
  Input, ask, stop, event, react, run, load, count_taken, is_start, is_end, run-balanced,
}
use revlink_sidecar.Sync.Coordinator.Calls.{starts, cancels, shown, react-calls}

abbrev resting : Coordinator
resting = record {
  policy = record { auto_sync_on_attach = true };
  snapshot = zero_sync_snapshot;
  config = record { request = true; recover_session = true; cancel = true; observer = true };
}

abbrev report : SyncEventKind → SyncEvent
report kind = record {
  kind = kind;
  candidates = 4;
  downloaded = 2;
  skipped = 2;
  downloaded_bytes = 100;
  pending = 0;
  close_recovery_attempt = false;
  data_phase_completed = true;
  session_close_sent = true;
  session_close_acknowledged = true;
  platform_error = pos 0;
}

abbrev inputs : List Input
inputs =
    ask ok ∷ ask ok ∷ event (report started) ∷ event (report completion) ∷ ask transport_error ∷ []

run-inputs : count_taken is_start resting inputs ≡ 1
unfolding count_taken react request handle_event
run-inputs = refl

run-balanced_example :
    load resting.snapshot.state + count_taken is_start resting inputs
    ≡ load (run resting inputs).0.snapshot.state + count_taken is_end resting inputs
run-balanced_example = run-balanced resting inputs

react-calls_example :
    let (status, c', calls) = react resting (stop ok) in
    (starts calls ≡ true → (is_active resting.snapshot.state ≡ false) × (is_start (stop ok) ≡ true))
    × (cancels calls ≡ true → is_cancellable resting.snapshot.state ≡ true)
    × (status ≢ ok → (c' ≡ resting) × (shown calls ≡ none))
react-calls_example = react-calls resting (stop ok)
