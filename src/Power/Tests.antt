-- ===== src/Power/Tests.antt =====
-- Tests of the power button, and its theorems at concrete inputs.
use revlink_sidecar.Base.{◌+◌, ◌≡◌, refl, List, [], ◌∷◌, ◌++◌, arith, map, false, saturated_add}
use revlink_sidecar.Power.{Button, init, update, note_candidate, settle, hold_on, conclude}
use revlink_sidecar.Power.Press.{
  Sample, run, ButtonOk, is_shutdown, is_short_press, is_action, load, count, releases,
  shutdowns_and_short_presses, down, bounce_is_ignored,
}

-- Before `init` has run.
abbrev blank : Button
blank = record {
  debounce_ms = 0;
  shutdown_hold_ms = 0;
  candidate_ms = 0;
  pressed_ms = 0;
  candidate_pressed = false;
  stable_pressed = false;
  shutdown_latched = false;
}

abbrev button : Button
button = (init blank 50 2000).1

button-ButtonOk : ButtonOk button
unfolding init
button-ButtonOk = ground arith

-- A short press, then a long one.
abbrev samples : List Sample
samples =
    map down (10 ∷ 60 ∷ 300 ∷ [])
    ++ (false, 10) ∷ (false, 60) ∷ map down (10 ∷ 60 ∷ 1500 ∷ 700 ∷ 900 ∷ [])

one_short_press : count is_short_press button samples ≡ 1
unfolding count init update note_candidate settle hold_on conclude saturated_add
one_short_press = refl

one_shutdown : count is_shutdown button samples ≡ 1
unfolding count init update note_candidate settle hold_on conclude saturated_add
one_shutdown = refl

shutdowns_and_short_presses_example :
    load button.shutdown_latched
      + count is_shutdown button samples
      + count is_short_press button samples
    ≡ load (run button samples).shutdown_latched + releases button samples
shutdowns_and_short_presses_example = shutdowns_and_short_presses button samples button-ButtonOk

-- The button once a press is debounced.
abbrev pressed : Button
pressed = run button (map down (10 ∷ 60 ∷ []))

bounce_is_ignored_example :
    (count is_action button (map down (20 ∷ 20 ∷ [])) ≡ 0)
    × ((run button (map down (20 ∷ 20 ∷ []))).stable_pressed ≡ false)
unfolding init
bounce_is_ignored_example =
    bounce_is_ignored button 20 (20 ∷ []) (omega arith) refl refl (omega arith) (omega arith)
