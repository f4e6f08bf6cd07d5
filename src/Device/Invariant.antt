-- ===== src/Device/Invariant.antt =====
-- What holds of the device service between two events.
use revlink_sidecar.Base.{◌≡◌, ◌≢◌, ◌⊎◌, Bool, true, arith}
use revlink_sidecar.Device.{
  stopped, waiting, available, session_active, conflict, DeviceEvent, DeviceSnapshot, zero_identity,
  next, init, switch, revise, step,
}

pub record IsValid (s : DeviceSnapshot) : Type 0 where
  -- The flag that asks for recovery stands exactly while several devices are in conflict.
  pub conflict_flagged : s.state ≡ conflict → s.conflict_recovery_required ≡ true
  pub flag_conflicts : s.conflict_recovery_required ≡ true → s.state ≡ conflict
  pub conflict_counted : s.state ≡ conflict → s.eligible_device_count ≢ 0
  pub available_single : s.state ≡ available → s.eligible_device_count ≡ 1
  pub session_single : s.state ≡ session_active → s.eligible_device_count ≡ 1
  pub waiting_empty :
      (s.state ≡ waiting) ⊎ (s.state ≡ stopped)
      → (s.eligible_device_count ≡ 0) × (s.identity ≡ zero_identity)
  pub conflict_anonymous : s.state ≡ conflict → s.identity ≡ zero_identity

pub init-IsValid : (observer : Bool) → IsValid (init observer).snapshot
unfolding init
init-IsValid observer = ground arith

pub step-IsValid :
    (s s' : DeviceSnapshot) (e : DeviceEvent) → IsValid s → step s e ≡ next s' → IsValid s'
unfolding step switch revise
step-IsValid s s' e v h = ground arith
