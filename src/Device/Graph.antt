-- ===== src/Device/Graph.antt =====
-- The transition diagram of the device states.
use revlink_sidecar.Base.{◌≡◌, ◌≢◌, arith}
use revlink_sidecar.Device.{
  DeviceState, stopped, waiting, inspecting, available, session_active, conflict, faulted,
  DeviceEvent, DeviceSnapshot, next, switch, revise, step,
}

-- The device has been seen and its monitor runs.
pub data HasDevice : DeviceState → Type 0 where
  inspecting_device : HasDevice inspecting
  available_device : HasDevice available
  session_device : HasDevice session_active
  faulted_device : HasDevice faulted

infix 40 ◌⟶◌
pub data ◌⟶◌ : DeviceState → DeviceState → Type 0 where
  start : stopped ⟶ waiting
  attach : waiting ⟶ inspecting
  accept : inspecting ⟶ available
  open_session : available ⟶ session_active
  close_session : session_active ⟶ available
  stay : conflict ⟶ conflict
  resolve : conflict ⟶ waiting
  remove : {s : DeviceState} → HasDevice s → s ⟶ waiting
  collide : {s : DeviceState} → s ≢ stopped → s ⟶ conflict
  fail : {s : DeviceState} → s ≢ conflict → s ⟶ faulted

-- A step that is taken follows an edge of the diagram: so a device is available only from inspection,
-- and a session opens only on an available device.
pub step-⟶ : (s s' : DeviceSnapshot) (e : DeviceEvent) → step s e ≡ next s' → s.state ⟶ s'.state
unfolding step switch revise
step-⟶ s s' e h = grind (
  arith, start, attach, accept, open_session, close_session, stay, resolve, remove, collide, fail,
  inspecting_device, available_device, session_device, faulted_device,
)
