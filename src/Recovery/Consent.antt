-- ===== src/Recovery/Consent.antt =====
-- When a format is requested, over any run of the buttons and the clock.
use revlink_sidecar.Base.{
  ℕ, ◌+◌, ◌≡◌, ◌≢◌, ◌≤◌, ◌<◌, refl, ap, ◌∙◌, List, [], ◌∷◌, ◌++◌, arith, map, uint32_max,
  saturated_add,
}
use revlink_sidecar.Recovery.{
  awaiting_request, awaiting_confirmation, RecoveryAction, no_action, show_warning,
  format_requested, Recovery, press, double_press, tick, format_failed,
}

-- What the platform does to the recovery.
pub data Input : Type 0 where
  pressed : Input
  ticked : ℕ → Input
  failed : Input

unfoldable pub react : Recovery → Input → RecoveryAction × Recovery
react r pressed = double_press r
react r (ticked elapsed) = tick r elapsed
react r failed = (no_action, format_failed r)

unfoldable pub run : Recovery → List Input → Recovery
run r [] = r
run r (i ∷ is) = run (react r i).1 is

pub record RecoveryOk (r : Recovery) : Type 0 where
  pub limited : r.confirmation_timeout_ms ≢ 0
  pub in_time :
      r.state ≡ awaiting_confirmation → r.confirmation_elapsed_ms < r.confirmation_timeout_ms

react-RecoveryOk : (r : Recovery) (i : Input) → RecoveryOk r → RecoveryOk (react r i).1
unfolding react double_press press tick format_failed
react-RecoveryOk r pressed v = ground arith
react-RecoveryOk r (ticked elapsed) v = ground arith
react-RecoveryOk r failed v = ground arith

-- The milliseconds of a list of ticks.
abbrev pub total : List ℕ → ℕ
total [] = 0
total (n ∷ ns) = n + total ns

tick_in_time :
    (r : Recovery) (n : ℕ)
    → r.state ≡ awaiting_confirmation
    → r.confirmation_timeout_ms ≤ uint32_max
    → r.confirmation_elapsed_ms + n < r.confirmation_timeout_ms
    → let r' = (tick r n).1 in
      (r'.state ≡ awaiting_confirmation)
      × (r'.confirmation_timeout_ms ≡ r.confirmation_timeout_ms)
      × (r'.confirmation_elapsed_ms ≡ r.confirmation_elapsed_ms + n)
unfolding tick saturated_add
tick_in_time r n s u h = ground arith

confirm_in_time :
    (r : Recovery) (ticks : List ℕ)
    → r.state ≡ awaiting_confirmation
    → r.confirmation_timeout_ms ≤ uint32_max
    → r.confirmation_elapsed_ms + total ticks < r.confirmation_timeout_ms
    → (react (run r (map ticked ticks)) pressed).0 ≡ format_requested
unfolding run react double_press press
confirm_in_time r [] s u h = ground arith
confirm_in_time r (n ∷ ns) s u h =
    let (s', u', e') = tick_in_time r n s u (omega arith) in
    confirm_in_time (tick r n).1 ns s' (omega arith) (omega arith)

-- The first double press on a card that may be formatted shows the warning and formats nothing; a second
-- one requests the format if the ticks between them stay below the time limit.
pub two_presses_format :
    (r : Recovery) (ticks : List ℕ)
    → r.state ≡ awaiting_request
    → r.confirmation_timeout_ms ≤ uint32_max
    → total ticks < r.confirmation_timeout_ms
    → ((react r pressed).0 ≡ show_warning)
      × ((react (run (react r pressed).1 (map ticked ticks)) pressed).0 ≡ format_requested)
unfolding react double_press press
two_presses_format r ticks s u h = (
  ground arith,
  confirm_in_time (double_press r).1 ticks (ground arith) (ground (arith, u)) (ground (arith, h)),
)

-- How a run can end in the warning: by ticks alone from a warning, or by a double press and then ticks.
-- `elapsed` is the time that the warning has been shown at the end.
data Warned (r : Recovery) (is : List Input) (elapsed : ℕ) : Type 0 where
  still :
      (ticks : List ℕ)
      → is ≡ map ticked ticks
      → r.state ≡ awaiting_confirmation
      → elapsed ≡ r.confirmation_elapsed_ms + total ticks
      → Warned r is elapsed
  since :
      (before : List Input) (ticks : List ℕ)
      → is ≡ before ++ pressed ∷ map ticked ticks
      → elapsed ≡ total ticks
      → Warned r is elapsed

tick-awaiting :
    (r : Recovery) (n : ℕ)
    → r.confirmation_timeout_ms ≤ uint32_max
    → (tick r n).1.state ≡ awaiting_confirmation
    → (r.state ≡ awaiting_confirmation)
      × ((tick r n).1.confirmation_elapsed_ms ≡ r.confirmation_elapsed_ms + n)
unfolding tick saturated_add
tick-awaiting r n u h = ground arith

press-awaiting :
    (r : Recovery)
    → RecoveryOk r
    → (double_press r).1.state ≡ awaiting_confirmation
    → (double_press r).1.confirmation_elapsed_ms ≡ 0
unfolding double_press press
press-awaiting r v h = ground arith

timeout-react :
    (r : Recovery) (i : Input) → (react r i).1.confirmation_timeout_ms ≡ r.confirmation_timeout_ms
unfolding react double_press press tick format_failed
timeout-react r pressed = ground arith
timeout-react r (ticked n) = ground arith
timeout-react r failed = ground arith

Warned-pressed :
    (r : Recovery) (is : List Input) (elapsed : ℕ)
    → RecoveryOk r
    → Warned (double_press r).1 is elapsed
    → Warned r (pressed ∷ is) elapsed
Warned-pressed r is elapsed v (still ticks e s t) =
    since [] ticks (ap (λ x. pressed ∷ x) e) (omega (arith, press-awaiting r v s))
Warned-pressed r is elapsed v (since before ticks e t) =
    since (pressed ∷ before) ticks (ap (λ x. pressed ∷ x) e) t

Warned-ticked :
    (r : Recovery) (n : ℕ) (is : List Input) (elapsed : ℕ)
    → r.confirmation_timeout_ms ≤ uint32_max
    → Warned (tick r n).1 is elapsed
    → Warned r (ticked n ∷ is) elapsed
Warned-ticked r n is elapsed u (still ticks e s t) =
    let (was, grew) = tick-awaiting r n u s in
    still (n ∷ ticks) (ap (λ x. ticked n ∷ x) e) was (omega arith)
Warned-ticked r n is elapsed u (since before ticks e t) =
    since (ticked n ∷ before) ticks (ap (λ x. ticked n ∷ x) e) t

Warned-failed :
    (r : Recovery) (is : List Input) (elapsed : ℕ)
    → Warned (format_failed r) is elapsed
    → Warned r (failed ∷ is) elapsed
unfolding format_failed
Warned-failed r is elapsed (still ticks e s t) = absurd (ground arith)
Warned-failed r is elapsed (since before ticks e t) =
    since (failed ∷ before) ticks (ap (λ x. failed ∷ x) e) t

run-Warned :
    (r : Recovery) (is : List Input)
    → RecoveryOk r
    → r.confirmation_timeout_ms ≤ uint32_max
    → (run r is).state ≡ awaiting_confirmation
    → Warned r is (run r is).confirmation_elapsed_ms
unfolding run react
run-Warned r [] v u h = still [] refl h (omega arith)
run-Warned r (pressed ∷ is) v u h =
    Warned-pressed r is (run (double_press r).1 is).confirmation_elapsed_ms v (
      run-Warned (double_press r).1 is (react-RecoveryOk r pressed v)
        (omega (arith, timeout-react r pressed)) h)
run-Warned r (ticked n ∷ is) v u h =
    Warned-ticked r n is (run (tick r n).1 is).confirmation_elapsed_ms u (
      run-Warned (tick r n).1 is (react-RecoveryOk r (ticked n) v)
        (omega (arith, timeout-react r (ticked n))) h)
run-Warned r (failed ∷ is) v u h =
    Warned-failed r is (run (format_failed r) is).confirmation_elapsed_ms (
      run-Warned (format_failed r) is (react-RecoveryOk r failed v)
        (omega (arith, timeout-react r failed)) h)

timeout-run :
    (r : Recovery) (is : List Input)
    → (run r is).confirmation_timeout_ms ≡ r.confirmation_timeout_ms
unfolding run
timeout-run r [] = refl
timeout-run r (i ∷ is) = timeout-run (react r i).1 is ∙ timeout-react r i

press-requests :
    (r : Recovery) (i : Input)
    → (react r i).0 ≡ format_requested
    → (i ≡ pressed)
      × (r.state ≡ awaiting_confirmation)
      × (r.confirmation_elapsed_ms < r.confirmation_timeout_ms)
unfolding react double_press press tick
press-requests r pressed h = ground arith
press-requests r (ticked n) h = absurd (ground arith)
press-requests r failed h = absurd (ground arith)

-- A format is requested only by a double press that follows another double press with nothing between
-- them but ticks, which together stay below the time limit; this over any inputs, from a state that does
-- not already show the warning.
pub format_needs_two_presses :
    (r : Recovery) (is : List Input) (i : Input)
    → RecoveryOk r
    → r.confirmation_timeout_ms ≤ uint32_max
    → r.state ≢ awaiting_confirmation
    → (react (run r is) i).0 ≡ format_requested
    → (i ≡ pressed)
      × ((before : List Input) × (ticks : List ℕ) × (is ≡ before ++ pressed ∷ map ticked ticks)
          × (total ticks < r.confirmation_timeout_ms))
format_needs_two_presses r is i v u n h =
    let (press, shown, time) = press-requests (run r is) i h in
    (press, split (run-Warned r is v u shown) time)
  where
    split :
        Warned r is (run r is).confirmation_elapsed_ms
        → (run r is).confirmation_elapsed_ms < (run r is).confirmation_timeout_ms
        → (before : List Input) × (ticks : List ℕ) × (is ≡ before ++ pressed ∷ map ticked ticks)
          × (total ticks < r.confirmation_timeout_ms)
    split (still ticks e s t) time = absurd (n s)
    split (since before ticks e t) time = (before, ticks, e, omega (arith, timeout-run r is))
