-- ===== src/Power/Press.antt =====
-- What one press of the power button can lead to, over any samples of the pin.
use revlink_sidecar.Base.{
  ℕ, ◌+◌, ◌≡◌, ◌≢◌, ◌≤◌, ◌<◌, refl, Bool, true, false, not, ◌&&◌, List, [], ◌∷◌, arith,
  if◌then◌else◌, uint32_max, saturated_add, map, ◌⊎◌, inl, inr, ap,
}
use revlink_sidecar.Power.{
  Button, ButtonAction, no_action, short_press_released, shutdown_requested, note_candidate, settle,
  hold_on, conclude, update,
}

-- The pin's level and the time since the sample before.
abbrev pub Sample : Type 0
Sample = Bool × ℕ

unfoldable pub run : Button → List Sample → Button
run b [] = b
run b ((raw, elapsed) ∷ ss) = run (update b raw elapsed).1 ss

pub record ButtonOk (b : Button) : Type 0 where
  pub debounced : b.debounce_ms ≢ 0
  pub held : b.shutdown_hold_ms ≢ 0
  pub latched_pressed : b.shutdown_latched ≡ true → b.stable_pressed ≡ true
  pub released_idle : b.stable_pressed ≡ false → b.pressed_ms ≡ 0
  pub unlatched_early :
      b.stable_pressed ≡ true → b.shutdown_latched ≡ false → b.pressed_ms < b.shutdown_hold_ms

update-ButtonOk :
    (b : Button) (raw : Bool) (elapsed : ℕ) → ButtonOk b → ButtonOk (update b raw elapsed).1
unfolding update note_candidate settle hold_on conclude
update-ButtonOk b raw elapsed v = ground arith

abbrev pub is_shutdown : ButtonAction → Bool
is_shutdown shutdown_requested = true
is_shutdown _ = false

abbrev pub is_short_press : ButtonAction → Bool
is_short_press short_press_released = true
is_short_press _ = false

abbrev pub load : Bool → ℕ
load b = if b then 1 else 0

-- How many samples of a run lead to an action of a sort.
unfoldable pub count : (ButtonAction → Bool) → Button → List Sample → ℕ
count p b [] = 0
count p b ((raw, elapsed) ∷ ss) =
    let (action, b') = update b raw elapsed in load (p action) + count p b' ss

-- How many samples of a run release the debounced button.
unfoldable pub releases : Button → List Sample → ℕ
releases b [] = 0
releases b ((raw, elapsed) ∷ ss) =
    let b' = (update b raw elapsed).1 in
    load (b.stable_pressed && not b'.stable_pressed) + releases b' ss

update-load :
    (b : Button) (raw : Bool) (elapsed : ℕ)
    → ButtonOk b
    → let (action, b') = update b raw elapsed in
      load b.shutdown_latched + load (is_shutdown action) + load (is_short_press action)
      ≡ load b'.shutdown_latched + load (b.stable_pressed && not b'.stable_pressed)
unfolding update note_candidate settle hold_on conclude
update-load b raw elapsed v = ground arith

-- Every release of the debounced button ends either a press that requested one shutdown or a press that
-- is reported as short: over any samples, the shutdowns and the short presses together are the releases,
-- but for a shutdown that was latched at the start and one that is latched at the end.
pub shutdowns_and_short_presses :
    (b : Button) (ss : List Sample)
    → ButtonOk b
    → load b.shutdown_latched + count is_shutdown b ss + count is_short_press b ss
      ≡ load (run b ss).shutdown_latched + releases b ss
unfolding run count releases
shutdowns_and_short_presses b [] v = omega arith
shutdowns_and_short_presses b ((raw, elapsed) ∷ ss) v =
    let rest =
      shutdowns_and_short_presses (update b raw elapsed).1 ss (update-ButtonOk b raw elapsed v) in
    omega (arith, rest, update-load b raw elapsed v)

-- A sample at which the pin reads pressed.
abbrev pub down : ℕ → Sample
down elapsed = (true, elapsed)

abbrev pub total : List ℕ → ℕ
total [] = 0
total (n ∷ ns) = n + total ns

pub data AllPositive : List ℕ → Type 0 where
  no_time : AllPositive []
  some_time : {n : ℕ} {ns : List ℕ} → n ≢ 0 → AllPositive ns → AllPositive (n ∷ ns)

-- A pressed button whose shutdown is latched stays so, and nothing more is requested.
quiet_one :
    (b : Button) (n : ℕ)
    → b.stable_pressed ≡ true
    → b.candidate_pressed ≡ true
    → b.shutdown_latched ≡ true
    → let (action, b') = update b true n in
      (action ≡ no_action)
      × (b'.stable_pressed ≡ true)
      × (b'.candidate_pressed ≡ true)
      × (b'.shutdown_latched ≡ true)
unfolding update note_candidate settle hold_on conclude
quiet_one b n s c l = ground arith

latched_quiet :
    (b : Button) (ns : List ℕ)
    → b.stable_pressed ≡ true
    → b.candidate_pressed ≡ true
    → b.shutdown_latched ≡ true
    → count is_shutdown b (map down ns) ≡ 0
unfolding count
latched_quiet b [] s c l = refl
latched_quiet b (n ∷ ns) s c l =
    let (a, s', c', l') = quiet_one b n s c l in
    omega (arith, ap (λ x. load (is_shutdown x)) a, latched_quiet (update b true n).1 ns s' c' l')

hold_one :
    (b : Button) (n : ℕ)
    → n ≢ 0
    → b.stable_pressed ≡ true
    → b.candidate_pressed ≡ true
    → b.shutdown_latched ≡ false
    → b.pressed_ms ≤ uint32_max
    → b.shutdown_hold_ms ≤ uint32_max
    → let (action, b') = update b true n in
      (b'.stable_pressed ≡ true)
      × (b'.candidate_pressed ≡ true)
      × (b'.shutdown_hold_ms ≡ b.shutdown_hold_ms)
      × (((action ≡ shutdown_requested) × (b'.shutdown_latched ≡ true))
          ⊎ ((action ≡ no_action)
              × (b'.shutdown_latched ≡ false)
              × (b'.pressed_ms ≡ b.pressed_ms + n)
              × (b.pressed_ms + n < b.shutdown_hold_ms)))
unfolding update note_candidate settle hold_on conclude saturated_add
hold_one b n nz s c l u v = ground arith

-- A button that is pressed, debounced and has not requested a shutdown requests exactly one over samples
-- that all read pressed, once the press time reaches `shutdown_hold_ms`.
pub held_button_shuts_down :
    (b : Button) (ns : List ℕ)
    → AllPositive ns
    → b.stable_pressed ≡ true
    → b.candidate_pressed ≡ true
    → b.shutdown_latched ≡ false
    → b.shutdown_hold_ms ≤ uint32_max
    → b.pressed_ms < b.shutdown_hold_ms
    → b.shutdown_hold_ms ≤ b.pressed_ms + total ns
    → count is_shutdown b (map down ns) ≡ 1
unfolding count
held_button_shuts_down b [] p s c l v early long = absurd (omega arith)
held_button_shuts_down b (n ∷ ns) (some_time nz p) s c l v early long =
    let (s', c', h', rest) = hold_one b n nz s c l (omega arith) v in
    elim rest [
      | inl (a, l') ↦
          omega
            (arith, ap (λ x. load (is_shutdown x)) a, latched_quiet (update b true n).1 ns s' c' l')
      | inr (a, l', e, small) ↦ omega (
        arith,
        ap (λ x. load (is_shutdown x)) a,
        held_button_shuts_down (update b true n).1 ns p s' c' l' (omega arith) (omega arith)
            (omega arith),
      )
    ]

-- A sample at which the pin reads pressed, on a button that counts as released.
bounce_one :
    (b : Button) (n : ℕ)
    → b.stable_pressed ≡ false
    → b.candidate_pressed ≡ true
    → b.debounce_ms ≤ uint32_max
    → b.candidate_ms + n < b.debounce_ms
    → let (action, b') = update b true n in
      (action ≡ no_action)
      × (b'.stable_pressed ≡ false)
      × (b'.candidate_pressed ≡ true)
      × (b'.debounce_ms ≡ b.debounce_ms)
      × (b'.candidate_ms ≡ b.candidate_ms + n)
unfolding update note_candidate settle hold_on conclude saturated_add
bounce_one b n s c u h = ground arith

abbrev pub is_action : ButtonAction → Bool
is_action no_action = false
is_action _ = true

bounces_quiet :
    (b : Button) (ns : List ℕ)
    → b.stable_pressed ≡ false
    → b.candidate_pressed ≡ true
    → b.debounce_ms ≤ uint32_max
    → b.candidate_ms + total ns < b.debounce_ms
    → (count is_action b (map down ns) ≡ 0) × ((run b (map down ns)).stable_pressed ≡ false)
unfolding count run
bounces_quiet b [] s c u h = (refl, s)
bounces_quiet b (n ∷ ns) s c u h =
    let (a, s', c', d', e) = bounce_one b n s c u (omega arith) in
    let (quiet, released) =
      bounces_quiet (update b true n).1 ns s' c' (omega arith) (omega arith) in
    (omega (arith, ap (λ x. load (is_action x)) a), released)

first_bounce :
    (b : Button) (n : ℕ)
    → n ≢ 0
    → b.stable_pressed ≡ false
    → b.candidate_pressed ≡ false
    → n < b.debounce_ms
    → let (action, b') = update b true n in
      (action ≡ no_action)
      × (b'.stable_pressed ≡ false)
      × (b'.candidate_pressed ≡ true)
      × (b'.debounce_ms ≡ b.debounce_ms)
      × (b'.candidate_ms ≡ n)
unfolding update note_candidate settle hold_on conclude
first_bounce b n nz s c h = ground arith

-- A pin that reads pressed for less than `debounce_ms`, on a released button at rest, leads to no action
-- and leaves the button released.
pub bounce_is_ignored :
    (b : Button) (n : ℕ) (ns : List ℕ)
    → n ≢ 0
    → b.stable_pressed ≡ false
    → b.candidate_pressed ≡ false
    → b.debounce_ms ≤ uint32_max
    → n + total ns < b.debounce_ms
    → (count is_action b (map down (n ∷ ns)) ≡ 0)
      × ((run b (map down (n ∷ ns))).stable_pressed ≡ false)
unfolding count run
bounce_is_ignored b n ns nz s c u h =
    let (a, s', c', d', e) = first_bounce b n nz s c (omega arith) in
    let (quiet, released) =
      bounces_quiet (update b true n).1 ns s' c' (omega arith) (omega arith) in
    (omega (arith, ap (λ x. load (is_action x)) a), released)
