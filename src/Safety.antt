-- ===== src/Safety.antt =====
-- firmware/components/revlink_core/revlink_safety_policy.c: which operations on the device are allowed.
use revlink_sidecar.Base.{Bool, false, ◌&&◌, if◌then◌else◌, Option, none, some}
use revlink_sidecar.Device.{CoreStatus, ok, invalid_argument, not_authorized}

-- `unlisted` stands for a number outside the enum.
pub data Operation : Type 0 where
  discover read_device write_map write_startup_screen delete_device_file unlisted : Operation

pub record SafetyPolicy : Type 0 where
  pub allow_device_writes : Bool
  pub allow_device_deletes : Bool

abbrev pub policy_default : SafetyPolicy
policy_default = record { allow_device_writes = false; allow_device_deletes = false }

-- `none` is a NULL pointer.
unfoldable pub authorize : Option SafetyPolicy → Operation → CoreStatus
authorize none operation = invalid_argument
authorize (some p) discover = ok
authorize (some p) read_device = ok
authorize (some p) write_map = if p.allow_device_writes then ok else not_authorized
authorize (some p) write_startup_screen = if p.allow_device_writes then ok else not_authorized
authorize (some p) delete_device_file =
    if p.allow_device_writes && p.allow_device_deletes then ok else not_authorized
authorize (some p) unlisted = invalid_argument
