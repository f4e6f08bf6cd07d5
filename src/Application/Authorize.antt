-- ===== src/Application/Authorize.antt =====
-- What the application lets be done to the device, and that no operation loosens it.
use revlink_sidecar.Base.{◌≡◌, ◌≢◌, ◌↔◌, true, arith}
use revlink_sidecar.Device.{CoreStatus, DeviceState, conflict}
use revlink_sidecar.Safety
use revlink_sidecar.Safety.{
  Operation, discover, read_device, write_map, write_startup_screen, delete_device_file, unlisted,
  SafetyPolicy,
}
use revlink_sidecar.Application.{Application, device_state}
use revlink_sidecar.Application.Commands.{authorize}

-- Discovery is always permitted; nothing else is during a conflict. Reading needs no switch, writing needs
-- one, and deleting needs the separate switch too.
pub data Permitted (s : DeviceState) (p : SafetyPolicy) : Operation → Type 0 where
  may_discover : Permitted s p discover
  may_read : s ≢ conflict → Permitted s p read_device
  may_write_map : s ≢ conflict → p.allow_device_writes ≡ true → Permitted s p write_map
  may_write_screen :
      s ≢ conflict → p.allow_device_writes ≡ true → Permitted s p write_startup_screen
  may_delete :
      s ≢ conflict
      → p.allow_device_writes ≡ true
      → p.allow_device_deletes ≡ true
      → Permitted s p delete_device_file

authorize-ok :
    (a : Application) (operation : Operation)
    → authorize a operation ≡ CoreStatus.ok
    → Permitted (device_state a) a.safety_policy operation
unfolding authorize Safety.authorize
authorize-ok a discover h = may_discover
authorize-ok a read_device h = may_read (λ e. ground arith)
authorize-ok a write_map h = may_write_map (λ e. ground arith) (ground arith)
authorize-ok a write_startup_screen h = may_write_screen (λ e. ground arith) (ground arith)
authorize-ok a delete_device_file h = may_delete (λ e. ground arith) (ground arith) (ground arith)
authorize-ok a unlisted h = absurd (ground arith)

Permitted-authorize :
    (a : Application) {operation : Operation}
    → Permitted (device_state a) a.safety_policy operation
    → authorize a operation ≡ CoreStatus.ok
unfolding authorize Safety.authorize
Permitted-authorize a may_discover = ground arith
Permitted-authorize a (may_read free) = ground arith
Permitted-authorize a (may_write_map free writes) = ground arith
Permitted-authorize a (may_write_screen free writes) = ground arith
Permitted-authorize a (may_delete free writes deletes) = ground arith

-- The application authorises exactly the permitted operations: discovery always; during a conflict
-- nothing else; writes by the switch for writes, and deletion by that switch and the one for deletion.
pub authorize-Permitted :
    (a : Application) (operation : Operation)
    → (authorize a operation ≡ CoreStatus.ok) ↔ Permitted (device_state a) a.safety_policy operation
authorize-Permitted a operation = (authorize-ok a operation, Permitted-authorize a)
