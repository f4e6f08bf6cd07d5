-- ===== src/Sync/Coordinator/Calls.antt =====
-- Which callbacks the coordinator calls, and when.
use revlink_sidecar.Base.{◌≡◌, ◌≢◌, Bool, true, false, List, [], ◌∷◌, arith, Option, some, none}
use revlink_sidecar.Sync.Coordinator.{
  ok, Coordinator, Call, requested, recovered, cancel_called, published, SyncSnapshot, is_active,
  is_cancellable, set_policy, request, recover_session, cancel, handle_event,
}
use revlink_sidecar.Sync.Coordinator.Cycle.{
  Input, ask, recover, stop, event, configure, react, is_start,
}

-- Some call asks the transport to start an operation.
abbrev pub starts : List Call → Bool
starts [] = false
starts (requested ∷ calls) = true
starts (recovered ∷ calls) = true
starts (_ ∷ calls) = starts calls

abbrev pub cancels : List Call → Bool
cancels [] = false
cancels (cancel_called ∷ calls) = true
cancels (_ ∷ calls) = cancels calls

-- The last snapshot that the observer was called with.
abbrev pub shown : List Call → Option SyncSnapshot
shown [] = none
shown (published s ∷ calls) = some s
shown (_ ∷ calls) = shown calls

-- The transport is asked to start an operation only while none is active, and by no event; it is asked to
-- cancel one only while it is queued or runs. A refusal, the transport's included, changes nothing and
-- publishes nothing.
pub react-calls :
    (c : Coordinator) (i : Input)
    → let (status, c', calls) = react c i in
      (starts calls ≡ true → (is_active c.snapshot.state ≡ false) × (is_start i ≡ true))
      × (cancels calls ≡ true → is_cancellable c.snapshot.state ≡ true)
      × (status ≢ ok → (c' ≡ c) × (shown calls ≡ none))
unfolding react request recover_session cancel handle_event set_policy
react-calls c (ask answer) = (λ h. ground arith, λ h. ground arith, λ h. ground arith)
react-calls c (recover answer) = (λ h. ground arith, λ h. ground arith, λ h. ground arith)
react-calls c (stop answer) = (λ h. ground arith, λ h. ground arith, λ h. ground arith)
react-calls c (event e) = (λ h. ground arith, λ h. ground arith, λ h. ground arith)
react-calls c (configure policy) = (λ h. ground arith, λ h. ground arith, λ h. ground arith)
