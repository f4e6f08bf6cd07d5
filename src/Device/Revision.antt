-- ===== src/Device/Revision.antt =====
-- Runs of the device service over any events: the invariant, the topology revision, refused events, and
-- the way out of a conflict.
use revlink_sidecar.Base.{◌≡◌, ◌≢◌, ◌≤◌, ◌<◌, Bool, true, false, none, List, [], ◌∷◌, arith}
use revlink_sidecar.Device.{
  CoreStatus, waiting, conflict, detached, DeviceEvent, DeviceSnapshot, DeviceService, next, init,
  switch, revise, is_revised, step, handle, publish_snapshot,
}
use revlink_sidecar.Device.Invariant.{IsValid, init-IsValid, step-IsValid}

-- The service after a list of events.
unfoldable pub run : DeviceService → List DeviceEvent → DeviceService
run d [] = d
run d (e ∷ es) = run (handle d e).1 es

handle-IsValid :
    (d : DeviceService) (e : DeviceEvent) → IsValid d.snapshot → IsValid (handle d e).1.snapshot
unfolding handle
handle-IsValid d e v = ground (arith, step-IsValid d.snapshot (handle d e).1.snapshot e v)

run_from-IsValid :
    (d : DeviceService) (es : List DeviceEvent) → IsValid d.snapshot → IsValid (run d es).snapshot
unfolding run
run_from-IsValid d [] v = v
run_from-IsValid d (e ∷ es) v = run_from-IsValid (handle d e).1 es (handle-IsValid d e v)

-- After any events at all the snapshot is valid: the recovery flag stands exactly in a conflict, a
-- conflict counts at least one device and has no identity, an available device or an open session counts
-- one device, and a service that waits or is stopped counts none and has no identity.
pub run-IsValid :
    (observer : Bool) (es : List DeviceEvent) → IsValid (run (init observer) es).snapshot
run-IsValid observer es = run_from-IsValid (init observer) es (init-IsValid observer)

-- An event that is not taken changes nothing and publishes nothing; one that is taken publishes exactly
-- the new snapshot, if there is an observer.
pub handle_atomic :
    (d : DeviceService) (e : DeviceEvent)
    → (((handle d e).0 ≢ CoreStatus.ok) → ((handle d e).1 ≡ d) × ((handle d e).2 ≡ none))
      × (((handle d e).0 ≡ CoreStatus.ok)
          → (step d.snapshot e ≡ next (handle d e).1.snapshot)
            × ((handle d e).2 ≡ publish_snapshot (handle d e).1)
            × ((handle d e).1.observer ≡ d.observer))
unfolding handle step switch
handle_atomic d e = (λ h. ground arith, λ h. ground arith)

step-revision :
    (s s' : DeviceSnapshot) (e : DeviceEvent)
    → step s e ≡ next s'
    → (s.topology_revision ≤ s'.topology_revision)
      × (is_revised e ≡ true → s'.topology_revision ≡ e.topology_revision)
unfolding step switch revise
step-revision s s' e h = ground arith

handle-revision_le :
    (d : DeviceService) (e : DeviceEvent)
    → d.snapshot.topology_revision ≤ (handle d e).1.snapshot.topology_revision
unfolding handle
handle-revision_le d e = ground (arith, step-revision d.snapshot (handle d e).1.snapshot e)

run-revision_le :
    (d : DeviceService) (es : List DeviceEvent)
    → d.snapshot.topology_revision ≤ (run d es).snapshot.topology_revision
unfolding run
run-revision_le d [] = omega arith
run-revision_le d (e ∷ es) =
    omega (arith, handle-revision_le d e, run-revision_le (handle d e).1 es)

handle-stale :
    (d : DeviceService) (late : DeviceEvent)
    → is_revised late ≡ true
    → late.topology_revision < d.snapshot.topology_revision
    → handle d late ≡ (CoreStatus.invalid_transition, d, none)
unfolding handle step
handle-stale d late rev older = ground arith

taken-revision :
    (d : DeviceService) (e : DeviceEvent)
    → (handle d e).0 ≡ CoreStatus.ok
    → is_revised e ≡ true
    → (handle d e).1.snapshot.topology_revision ≡ e.topology_revision
taken-revision d e taken rev =
    (step-revision d.snapshot (handle d e).1.snapshot e ((handle_atomic d e).1 taken).0).1 rev

-- Once an event with a revision is taken, every later event of an older (nonzero) revision is refused,
-- whatever happens in between.
pub run_stale :
    (d : DeviceService) (e late : DeviceEvent) (es : List DeviceEvent)
    → (handle d e).0 ≡ CoreStatus.ok
    → is_revised e ≡ true
    → is_revised late ≡ true
    → late.topology_revision < e.topology_revision
    → handle (run (handle d e).1 es) late
      ≡ (CoreStatus.invalid_transition, run (handle d e).1 es, none)
run_stale d e late es taken rev rev_late older =
    handle-stale (run (handle d e).1 es) late rev_late
      (omega (arith, run-revision_le (handle d e).1 es, taken-revision d e taken rev))

-- A conflict ends only by a detach event that reports no eligible device, and then the service waits with
-- its recovery flag down.
pub conflict_resolved :
    (s s' : DeviceSnapshot) (e : DeviceEvent)
    → s.state ≡ conflict
    → step s e ≡ next s'
    → s'.state ≢ conflict
    → (e.kind ≡ detached)
      × (e.eligible_device_count ≡ 0)
      × (s'.state ≡ waiting)
      × (s'.conflict_recovery_required ≡ false)
unfolding step switch revise
conflict_resolved s s' e c h out = ground arith
