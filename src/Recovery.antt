-- ===== src/Recovery.antt =====
-- firmware/components/revlink_storage_recovery/revlink_storage_recovery.c: a card is formatted only after
-- two double presses within a time limit.
pub mod Consent
mod Tests
use revlink_sidecar.Base.{
  ℕ, ◌+◌, ◌-◌, ◌/◌, ◌%◌, ◌^◌, ◌==◌, ltb, leb, if◌then◌else◌, Bool, true, false, not, ◌&&◌, ◌||◌,
  saturated_add,
}

pub data RecoveryState : Type 0 where
  unavailable awaiting_request awaiting_confirmation formatting : RecoveryState

pub data RecoveryAction : Type 0 where
  no_action show_warning warning_timed_out format_requested : RecoveryAction

pub record Recovery : Type 0 where
  pub state : RecoveryState
  pub confirmation_timeout_ms : ℕ
  pub confirmation_elapsed_ms : ℕ

-- `false` leaves the state as it was.
unfoldable pub init : Recovery → Bool → ℕ → Bool × Recovery
init r format_available timeout = if timeout == 0 then (false, r) else (
  true,
  record {
    state = if format_available then awaiting_request else unavailable;
    confirmation_timeout_ms = timeout;
    confirmation_elapsed_ms = 0;
  },
)

-- The two branches of `revlink_storage_recovery_double_press` that act, and the rest.
unfoldable pub press : RecoveryState → Recovery → RecoveryAction × Recovery
press awaiting_request r =
    (show_warning, record r { state = awaiting_confirmation; confirmation_elapsed_ms = 0 })
press awaiting_confirmation r =
    if ltb r.confirmation_elapsed_ms r.confirmation_timeout_ms
    then (format_requested, record r { state = formatting })
    else (no_action, r)
press _ r = (no_action, r)

unfoldable pub double_press : Recovery → RecoveryAction × Recovery
double_press r = press r.state r

abbrev pub is_awaiting_confirmation : RecoveryState → Bool
is_awaiting_confirmation awaiting_confirmation = true
is_awaiting_confirmation _ = false

unfoldable pub tick : Recovery → ℕ → RecoveryAction × Recovery
tick r elapsed =
    let waited = saturated_add r.confirmation_elapsed_ms elapsed in
    if elapsed == 0 || not (is_awaiting_confirmation r.state)
    then (no_action, r)
    else if ltb waited r.confirmation_timeout_ms
    then (no_action, record r { confirmation_elapsed_ms = waited })
    else (warning_timed_out, record r { state = awaiting_request; confirmation_elapsed_ms = 0 })

-- The remaining time is positive, so `-` does not wrap; `+ 999` is that of a `uint32_t`.
unfoldable pub seconds_remaining : Recovery → ℕ
seconds_remaining r =
    if not (is_awaiting_confirmation r.state)
      || leb r.confirmation_timeout_ms r.confirmation_elapsed_ms
    then 0
    else (r.confirmation_timeout_ms - r.confirmation_elapsed_ms + 999) % 2 ^ 32 / 1000

unfoldable pub format_failed : Recovery → Recovery
format_failed r = record r { confirmation_elapsed_ms = 0; state = awaiting_request }
