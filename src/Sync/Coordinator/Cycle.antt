-- ===== src/Sync/Coordinator/Cycle.antt =====
-- The life of one sync operation, over any commands and events.
use revlink_sidecar.Base.{
  ℕ, ◌+◌, ◌≡◌, refl, Bool, true, false, List, [], ◌∷◌, arith, if◌then◌else◌, ◌++◌, ◌&&◌,
}
use revlink_sidecar.Sync.Coordinator.{
  SyncStatus, SyncState, SyncEvent, SyncPolicy, Coordinator, Call, is_active, is_ok, set_policy,
  request, recover_session, cancel, handle_event, SyncEventKind,
}

-- What the application or the transport does to the coordinator; each call carries the callback's answer.
pub data Input : Type 0 where
  ask : SyncStatus → Input
  recover : SyncStatus → Input
  stop : SyncStatus → Input
  event : SyncEvent → Input
  configure : SyncPolicy → Input

unfoldable pub react : Coordinator → Input → SyncStatus × Coordinator × List Call
react c (ask answer) = request c answer
react c (recover answer) = recover_session c answer
react c (stop answer) = cancel c answer
react c (event e) = handle_event c e
react c (configure policy) = let (status, c') = set_policy c policy in (status, c', [])

unfoldable pub run : Coordinator → List Input → Coordinator × List Call
run c [] = (c, [])
run c (i ∷ is) =
    let (status, c', calls) = react c i in let (last, rest) = run c' is in (last, calls ++ rest)

abbrev pub is_start : Input → Bool
is_start (ask answer) = true
is_start (recover answer) = true
is_start _ = false

abbrev pub is_end_kind : SyncEventKind → Bool
is_end_kind SyncEventKind.completion = true
is_end_kind SyncEventKind.failure = true
is_end_kind SyncEventKind.cancellation = true
is_end_kind _ = false

abbrev pub is_end : Input → Bool
is_end (event e) = is_end_kind e.kind
is_end _ = false

-- How many inputs of a run are of a sort and are answered `ok`.
unfoldable pub count_taken : (Input → Bool) → Coordinator → List Input → ℕ
count_taken p c [] = 0
count_taken p c (i ∷ is) =
    let (status, c', calls) = react c i in
    (if p i && is_ok status then 1 else 0) + count_taken p c' is

abbrev pub load : SyncState → ℕ
load s = if is_active s then 1 else 0

react-load :
    (c : Coordinator) (i : Input)
    → let (status, c', calls) = react c i in
      load c.snapshot.state + (if is_start i && is_ok status then 1 else 0)
      ≡ load c'.snapshot.state + (if is_end i && is_ok status then 1 else 0)
unfolding react request recover_session cancel handle_event set_policy
react-load c (ask answer) = ground arith
react-load c (recover answer) = ground arith
react-load c (stop answer) = ground arith
react-load c (event e) = ground arith
react-load c (configure policy) = ground arith

-- Operations that were accepted and operations that have ended balance: the difference is one while an
-- operation is active, and none otherwise. So no operation starts while another is active.
pub run-balanced :
    (c : Coordinator) (is : List Input)
    → load c.snapshot.state + count_taken is_start c is
      ≡ load (run c is).0.snapshot.state + count_taken is_end c is
unfolding count_taken run
run-balanced c [] = refl
run-balanced c (i ∷ is) = omega (arith, react-load c i, run-balanced (react c i).1 is)
