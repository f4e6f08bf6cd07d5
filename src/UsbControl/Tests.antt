-- ===== src/UsbControl/Tests.antt =====
-- Tests of the USB link, and its theorems at concrete inputs.
use revlink_sidecar.Base.{◌≡◌, refl, List, [], ◌∷◌, arith, false, true}
use revlink_sidecar.UsbControl.{
  uninitialized, isolated, supplied_by_revlink, externally_powered, Control, set_data_connected,
  set_vbus_enabled, delay, Answers, init, force_isolate, isolated_by, isolate_calls,
  delay_if_requested, attach, set_power, connect_data,
}
use revlink_sidecar.UsbControl.Lines.{
  Lines, drive_all, Input, attached_with, isolated_with, forced_with, run, LinkOk, run-LinkOk,
}
use revlink_sidecar.UsbControl.Order.{init-LinkOk}

-- Before `init` has run.
abbrev blank : Control
blank = record {
  vbus_settle_ms = 0;
  data_settle_ms = 0;
  isolate_settle_ms = 0;
  state = uninitialized;
  data_connected = false;
  vbus_enabled = false;
  vbus_mode = supplied_by_revlink;
  initialized = false;
}

-- Both lines are on when the program starts.
abbrev live : Lines
live = record { connected = true; powered = true }

abbrev link : Control
link = (init blank true 100 20 50 true true).1

abbrev lines : Lines
lines = drive_all live (init blank true 100 20 50 true true).2

init-LinkOk_example : (link.state ≡ isolated) × LinkOk link lines
unfolding init force_isolate isolated_by
init-LinkOk_example = init-LinkOk blank true 100 20 50 true true live refl

abbrev answers : Answers
answers = record { vbus = true; connected = true; data_disabled = true; vbus_disabled = true }

attach_calls :
    (attach link supplied_by_revlink answers).2
    ≡ set_vbus_enabled true true ∷ delay 100 ∷ set_data_connected true true ∷ delay 20 ∷ []
unfolding attach set_power connect_data init force_isolate isolated_by delay_if_requested
attach_calls = refl

abbrev inputs : List Input
inputs =
    attached_with supplied_by_revlink answers
    ∷ isolated_with true true
    ∷ attached_with externally_powered answers
    ∷ isolated_with true false
    ∷ forced_with true true
    ∷ []

run-LinkOk_example : LinkOk (run link inputs).0 (drive_all lines (run link inputs).1)
unfolding init force_isolate isolated_by isolate_calls delay_if_requested
run-LinkOk_example = run-LinkOk link inputs lines (ground arith)
