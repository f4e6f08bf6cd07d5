-- ===== src/Recovery/Tests.antt =====
-- Tests of the storage recovery, and its theorems at concrete inputs.
use revlink_sidecar.Base.{saturated_add, ◌≡◌, refl, ◌<◌, ℕ, List, [], ◌∷◌, ◌++◌, arith, map, true}
use revlink_sidecar.Recovery.{
  Recovery, format_requested, show_warning, unavailable, init, double_press, press, tick,
  format_failed, seconds_remaining,
}
use revlink_sidecar.Recovery.Consent.{
  Input, pressed, ticked, failed, react, run, total, RecoveryOk, two_presses_format,
  format_needs_two_presses,
}

-- Before `init` has run.
abbrev blank : Recovery
blank = record { state = unavailable; confirmation_timeout_ms = 0; confirmation_elapsed_ms = 0 }

abbrev ready : Recovery
ready = (init blank true 10000).1

ready-RecoveryOk : RecoveryOk ready
unfolding init
ready-RecoveryOk = ground arith

warning_seconds : seconds_remaining (run ready (pressed ∷ ticked 1500 ∷ [])) ≡ 9
unfolding seconds_remaining run react init double_press press tick saturated_add
warning_seconds = refl

late_press_is_a_new_request :
    (react (run ready (pressed ∷ ticked 10000 ∷ [])) pressed).0 ≡ show_warning
unfolding run react init double_press press tick saturated_add
late_press_is_a_new_request = refl

abbrev inputs : List Input
inputs = pressed ∷ ticked 10000 ∷ pressed ∷ failed ∷ pressed ∷ ticked 400 ∷ ticked 600 ∷ []

two_presses_format_example :
    ((react ready pressed).0 ≡ show_warning)
    × ((react (run (react ready pressed).1 (map ticked (400 ∷ 600 ∷ []))) pressed).0
        ≡ format_requested)
unfolding init
two_presses_format_example =
    two_presses_format ready (400 ∷ 600 ∷ []) refl (omega arith) (omega arith)

format_needs_two_presses_example :
    (pressed ≡ pressed)
    × ((before : List Input) × (ticks : List ℕ) × (inputs ≡ before ++ pressed ∷ map ticked ticks)
        × (total ticks < 10000))
unfolding init run react double_press press tick format_failed saturated_add
format_needs_two_presses_example =
    format_needs_two_presses ready inputs pressed ready-RecoveryOk (omega arith) (ground arith) refl
