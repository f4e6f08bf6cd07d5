-- ===== src/Power.antt =====
-- firmware/components/revlink_power/revlink_power_button.c: the debounced power button.
pub mod Press
mod Tests
use revlink_sidecar.Base.{
  ℕ, ◌==◌, leb, if◌then◌else◌, Bool, true, false, not, ◌&&◌, ◌||◌, saturated_add, ◌xor◌,
}

pub data ButtonAction : Type 0 where
  no_action short_press_released shutdown_requested : ButtonAction

-- `debounce_ms` and `shutdown_hold_ms` are the fields of the C `config`.
pub record Button : Type 0 where
  pub debounce_ms : ℕ
  pub shutdown_hold_ms : ℕ
  pub candidate_ms : ℕ
  pub pressed_ms : ℕ
  pub candidate_pressed : Bool
  pub stable_pressed : Bool
  pub shutdown_latched : Bool

-- `false` leaves the button as it was.
unfoldable pub init : Button → ℕ → ℕ → Bool × Button
init b debounce hold = if debounce == 0 || hold == 0 then (false, b) else (
  true,
  record {
    debounce_ms = debounce;
    shutdown_hold_ms = hold;
    candidate_ms = 0;
    pressed_ms = 0;
    candidate_pressed = false;
    stable_pressed = false;
    shutdown_latched = false;
  },
)

unfoldable pub note_candidate : Button → Bool → ℕ → Button
note_candidate b raw elapsed =
    if raw xor b.candidate_pressed
    then record b { candidate_pressed = raw; candidate_ms = elapsed }
    else record b { candidate_ms = saturated_add b.candidate_ms elapsed }

-- `stable_changed`, `short_press_released` and the button.
unfoldable pub settle : Button → Bool × Bool × Button
settle b =
    if (b.candidate_pressed xor b.stable_pressed) && leb b.debounce_ms b.candidate_ms
    then (
      true,
      not b.candidate_pressed && not b.shutdown_latched,
      record b {
        stable_pressed = b.candidate_pressed;
        shutdown_latched = b.candidate_pressed && b.shutdown_latched;
        pressed_ms = 0;
      },
    )
    else (false, false, b)

unfoldable pub hold_on : Button → Bool → ℕ → Button
hold_on b stable_changed elapsed =
    if b.stable_pressed && not stable_changed
    then record b { pressed_ms = saturated_add b.pressed_ms elapsed }
    else b

unfoldable pub conclude : Button → Bool → ButtonAction × Button
conclude b released =
    if b.stable_pressed && not b.shutdown_latched && leb b.shutdown_hold_ms b.pressed_ms
    then (shutdown_requested, record b { shutdown_latched = true })
    else if released
    then (short_press_released, b)
    else (no_action, b)

unfoldable pub update : Button → Bool → ℕ → ButtonAction × Button
update b raw elapsed =
    if elapsed == 0
    then (no_action, b)
    else (let (changed, released, b') = settle (note_candidate b raw elapsed) in
        conclude (hold_on b' changed elapsed) released)
