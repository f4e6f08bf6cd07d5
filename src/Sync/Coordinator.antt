-- ===== src/Sync/Coordinator.antt =====
-- firmware/components/revlink_sync/revlink_sync_coordinator.c: at most one sync operation at a time,
-- started and cancelled through the transport's callbacks, followed through its events.
-- An operation takes what the callback that it may call answers, and returns the calls that it makes.
pub mod Cycle
pub mod Calls
mod Tests
use revlink_sidecar.Base.{
  ℕ, Bool, true, false, not, ◌&&◌, ◌||◌, if◌then◌else◌, List, [], ◌∷◌, ◌++◌, ℤ, pos,
}

pub data SyncStatus : Type 0 where
  ok invalid_argument invalid_state transport_error : SyncStatus

pub data SyncState : Type 0 where
  idle queued running cancelling completed failed cancelled : SyncState

-- `unlisted` stands for a number outside the enum.
pub data SyncEventKind : Type 0 where
  started progress completion failure cancellation unlisted : SyncEventKind

pub record SyncPolicy : Type 0 where
  pub auto_sync_on_attach : Bool

pub record SyncEvent : Type 0 where
  pub kind : SyncEventKind
  pub candidates : ℕ
  pub downloaded : ℕ
  pub skipped : ℕ
  pub downloaded_bytes : ℕ
  pub pending : ℕ
  pub close_recovery_attempt : Bool
  pub data_phase_completed : Bool
  pub session_close_sent : Bool
  pub session_close_acknowledged : Bool
  pub platform_error : ℤ

pub record SyncSnapshot : Type 0 where
  pub state : SyncState
  pub candidates : ℕ
  pub downloaded : ℕ
  pub skipped : ℕ
  pub downloaded_bytes : ℕ
  pub pending : ℕ
  pub close_recovery_attempt : Bool
  pub data_phase_completed : Bool
  pub session_close_sent : Bool
  pub session_close_acknowledged : Bool
  pub last_platform_error : ℤ

-- Which callbacks are not NULL. What they answer is an argument of each operation.
pub record SyncConfig : Type 0 where
  pub request : Bool
  pub recover_session : Bool
  pub cancel : Bool
  pub observer : Bool

pub record Coordinator : Type 0 where
  pub policy : SyncPolicy
  pub snapshot : SyncSnapshot
  pub config : SyncConfig

pub data Call : Type 0 where
  requested recovered cancel_called : Call
  published : SyncSnapshot → Call

abbrev pub zero_sync_snapshot : SyncSnapshot
zero_sync_snapshot = record {
  state = idle;
  candidates = 0;
  downloaded = 0;
  skipped = 0;
  downloaded_bytes = 0;
  pending = 0;
  close_recovery_attempt = false;
  data_phase_completed = false;
  session_close_sent = false;
  session_close_acknowledged = false;
  last_platform_error = pos 0;
}

abbrev pub publish : Coordinator → List Call
publish c = if c.config.observer then published c.snapshot ∷ [] else []

abbrev pub is_active : SyncState → Bool
is_active queued = true
is_active running = true
is_active cancelling = true
is_active _ = false

abbrev pub is_ok : SyncStatus → Bool
is_ok ok = true
is_ok _ = false

-- The coordinator is left as it was where the status is not `ok`.
unfoldable pub init : Coordinator → SyncConfig → SyncPolicy → SyncStatus × Coordinator
init c config policy =
    if not config.request || not config.cancel
    then (invalid_argument, c)
    else (ok, record { policy = policy; snapshot = zero_sync_snapshot; config = config })

unfoldable pub set_policy : Coordinator → SyncPolicy → SyncStatus × Coordinator
set_policy c policy = (ok, record c { policy = policy })

abbrev pub queue : Coordinator → Bool → Coordinator
queue c close_recovery_attempt = record c {
  snapshot = record zero_sync_snapshot {
    state = queued;
    close_recovery_attempt = close_recovery_attempt;
  };
}

-- `present` says whether the callback is not NULL, `answer` is its result, `call` what calling it is.
unfoldable pub request_operation :
    Coordinator → Bool → SyncStatus → Call → Bool → SyncStatus × Coordinator × List Call
request_operation c present answer call close_recovery_attempt =
    if is_active c.snapshot.state
    then (invalid_state, c, [])
    else if not present
    then (invalid_state, c, [])
    else if not (is_ok answer)
    then (answer, c, call ∷ [])
    else (ok, queue c close_recovery_attempt, call ∷ publish (queue c close_recovery_attempt))

unfoldable pub request : Coordinator → SyncStatus → SyncStatus × Coordinator × List Call
unfolding request_operation
request c answer = request_operation c c.config.request answer requested false

unfoldable pub recover_session : Coordinator → SyncStatus → SyncStatus × Coordinator × List Call
unfolding request_operation
recover_session c answer = request_operation c c.config.recover_session answer recovered true

abbrev pub is_cancellable : SyncState → Bool
is_cancellable queued = true
is_cancellable running = true
is_cancellable _ = false

abbrev pub with_state : Coordinator → SyncState → Coordinator
with_state c state = record c { snapshot = record (c.snapshot) { state = state } }

unfoldable pub cancel : Coordinator → SyncStatus → SyncStatus × Coordinator × List Call
cancel c answer =
    if not (is_cancellable c.snapshot.state)
    then (invalid_state, c, [])
    else if not (is_ok answer)
    then (answer, c, cancel_called ∷ [])
    else (ok, with_state c cancelling, cancel_called ∷ publish (with_state c cancelling))

-- An early `return` of a status, or the state to go to.
pub data NextState : Type 0 where
  refused : SyncStatus → NextState
  enter : SyncState → NextState

-- The `switch` of `revlink_sync_coordinator_handle_event`.
unfoldable pub next_state : SyncEventKind → SyncState → NextState
next_state started cancelling = enter cancelling
next_state started queued = enter running
next_state started _ = refused invalid_state
next_state progress running = enter running
next_state progress cancelling = enter cancelling
next_state progress _ = refused invalid_state
next_state completion running = enter completed
next_state completion _ = refused invalid_state
next_state failure s = if not (is_active s) then refused invalid_state else enter failed
next_state cancellation s = if not (is_active s) then refused invalid_state else enter cancelled
next_state unlisted _ = refused invalid_argument

abbrev pub record_event : SyncState → SyncEvent → SyncSnapshot
record_event state e = record {
  state = state;
  candidates = e.candidates;
  downloaded = e.downloaded;
  skipped = e.skipped;
  downloaded_bytes = e.downloaded_bytes;
  pending = e.pending;
  close_recovery_attempt = e.close_recovery_attempt;
  data_phase_completed = e.data_phase_completed;
  session_close_sent = e.session_close_sent;
  session_close_acknowledged = e.session_close_acknowledged;
  last_platform_error = e.platform_error;
}

unfoldable pub handle_event : Coordinator → SyncEvent → SyncStatus × Coordinator × List Call
unfolding next_state
handle_event c e = elim (next_state e.kind c.snapshot.state) [
  | refused status ↦ (status, c, [])
  | enter state ↦ (
    ok,
    record c { snapshot = record_event state e },
    publish (record c { snapshot = record_event state e }),
  )
]
