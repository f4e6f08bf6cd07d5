-- ===== src/StagedMap/Apply.antt =====
-- The decision to write a staged map to an attached AccessPort:
-- firmware/components/revlink_staged_map/revlink_staged_map.c, `revlink_staged_map_evaluate_apply`.
use revlink_sidecar.Base.{
  ℕ, ◌==◌, leb, Bool, true, false, not, ◌||◌, if◌then◌else◌, Option, none, some, List, strnlen,
  mem_eq,
}
use revlink_sidecar.StagedMap.{part_number_capacity, serial_capacity}

pub data Decision : Type 0 where
  allowed writes_not_compiled consent_disabled auto_apply_disabled nothing_staged unpinned :
      Decision
  no_device target_mismatch sync_incomplete transfer_busy recovery_required : Decision
  already_attempted : Decision

pub record ApplyContext : Type 0 where
  pub writes_compiled : Bool
  pub consent_enabled : Bool
  pub auto_apply_enabled : Bool
  pub staged : Bool
  pub target_part_number : List ℕ
  pub target_serial : List ℕ
  pub device_identified : Bool
  pub attached_part_number : List ℕ
  pub attached_serial : List ℕ
  pub sync_completed_clean : Bool
  pub sync_pending : ℕ
  pub transfer_running : Bool
  pub recovery_required : Bool
  pub already_attempted_this_attach : Bool

unfoldable pub bounded_equal : List ℕ → List ℕ → ℕ → Bool
bounded_equal a b capacity =
    let len = strnlen a capacity in
    if len == 0 || leb capacity len
    then false
    else if not (strnlen b capacity == len)
    then false
    else mem_eq len a b

-- The checks that follow the comparison of the targets.
unfoldable pub evaluate_transport : ApplyContext → Decision
evaluate_transport c =
    if c.recovery_required
    then recovery_required
    else if c.already_attempted_this_attach
    then already_attempted
    else if c.transfer_running
    then transfer_busy
    else if not c.sync_completed_clean || not (c.sync_pending == 0)
    then sync_incomplete
    else allowed

unfoldable pub evaluate_target : ApplyContext → Decision
evaluate_target c =
    if strnlen c.target_part_number part_number_capacity == 0
      || strnlen c.target_serial serial_capacity == 0
    then unpinned
    else if not c.device_identified || strnlen c.attached_serial serial_capacity == 0
    then no_device
    else if not (bounded_equal c.target_serial c.attached_serial serial_capacity)
        || not (bounded_equal c.target_part_number c.attached_part_number part_number_capacity)
    then target_mismatch
    else evaluate_transport c

-- `none` is a NULL pointer.
unfoldable pub evaluate_apply : Option ApplyContext → Decision
evaluate_apply none = writes_not_compiled
evaluate_apply (some c) =
    if not c.writes_compiled
    then writes_not_compiled
    else if not c.consent_enabled
    then consent_disabled
    else if not c.auto_apply_enabled
    then auto_apply_disabled
    else if not c.staged
    then nothing_staged
    else evaluate_target c

unfoldable pub is_transient : Decision → Bool
is_transient sync_incomplete = true
is_transient transfer_busy = true
is_transient _ = false
