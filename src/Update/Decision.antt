-- ===== src/Update/Decision.antt =====
-- What the update gate decides, and when, over any observations.
use revlink_sidecar.Base.{
  ℕ, ◌+◌, ◌≡◌, ◌≢◌, ◌≤◌, ◌<◌, ◌⊎◌, inl, inr, refl, ap, Bool, true, List, [], ◌∷◌, ◌++◌, arith,
  subst, sym, ◌∙◌, uint32_max, saturated_add,
}
use revlink_sidecar.Update.{
  ready, recoverable, HealthState, waiting, accepted, timed_out, rejected, Observation, Gate,
  no_blocker, first_blocker, decide, observe,
}

-- An observation and the time since the one before.
abbrev pub Timed : Type 0
Timed = Observation × ℕ

unfoldable pub run : Gate → List Timed → Gate
run g [] = g
run g ((o, elapsed) ∷ os) = run (observe g o elapsed) os

-- Every part is ready, but that the storage may be recoverable and a display that is not required is free.
pub record IsHealthy (display_required : Bool) (o : Observation) : Type 0 where
  pub nvs : o.nvs ≡ ready
  pub storage : (o.storage ≡ ready) ⊎ (o.storage ≡ recoverable)
  pub display : display_required ≡ true → o.display ≡ ready
  pub network : o.network ≡ ready
  pub portal : o.portal ≡ ready
  pub usb : o.usb ≡ ready
  pub safety_policy : o.safety_policy ≡ ready

first_blocker-IsHealthy :
    (display : Bool) (o : Observation) → first_blocker display o ≡ no_blocker → IsHealthy display o
unfolding first_blocker
first_blocker-IsHealthy display o h = ground arith

observe-accepted :
    (g : Gate) (o : Observation) (elapsed : ℕ)
    → (observe g o elapsed).state ≡ accepted
    → (g.state ≡ accepted) ⊎ (first_blocker g.display_required o ≡ no_blocker)
unfolding observe decide
observe-accepted g o elapsed h = ground arith

observe-display :
    (g : Gate) (o : Observation) (elapsed : ℕ)
    → ((observe g o elapsed).display_required ≡ g.display_required)
      × ((observe g o elapsed).timeout_ms ≡ g.timeout_ms)
unfolding observe decide
observe-display g o elapsed = ground arith

accepted-cases : (s : HealthState) → (s ≡ accepted) ⊎ (s ≢ accepted)
accepted-cases accepted = inl refl
accepted-cases waiting = inr (ground arith)
accepted-cases timed_out = inr (ground arith)
accepted-cases rejected = inr (ground arith)

-- A firmware is accepted only on a healthy observation: over any observations, from a gate that has not
-- accepted, one of them was healthy if the gate ends accepted.
pub accepted_needs_health :
    (g : Gate) (os : List Timed)
    → g.state ≢ accepted
    → (run g os).state ≡ accepted
    → (before : List Timed) × (o : Observation) × (elapsed : ℕ) × (after : List Timed) × (os
        ≡ before ++ (o, elapsed) ∷ after)
      × IsHealthy g.display_required o
unfolding run
accepted_needs_health g [] n h = absurd (n h)
accepted_needs_health g ((o, elapsed) ∷ os) n h =
    elim (accepted-cases (observe g o elapsed).state) [
      | inl now ↦ elim (observe-accepted g o elapsed now) [
        | inl was ↦ absurd (n was)
        | inr clear ↦ ([], o, elapsed, os, refl, first_blocker-IsHealthy g.display_required o clear)
      ]
      | inr not_now ↦
          let (before, o', elapsed', after, e, healthy) =
            accepted_needs_health (observe g o elapsed) os not_now h in
          (
            (o, elapsed) ∷ before,
            o',
            elapsed',
            after,
            ap (λ x. (o, elapsed) ∷ x) e,
            subst (λ d. IsHealthy d o') (observe-display g o elapsed).0 healthy,
          )
    ]

observe-decided :
    (g : Gate) (o : Observation) (elapsed : ℕ) → g.state ≢ waiting → observe g o elapsed ≡ g
unfolding observe
observe-decided g o elapsed h = ground arith

-- A gate that has decided stays as it is, whatever is observed.
pub decision_is_final : (g : Gate) (os : List Timed) → g.state ≢ waiting → run g os ≡ g
unfolding run
decision_is_final g [] h = refl
decision_is_final g ((o, elapsed) ∷ os) h =
    let same = observe-decided g o elapsed h in ap (λ x. run x os) same ∙ decision_is_final g os h

abbrev pub total : List Timed → ℕ
total [] = 0
total ((o, elapsed) ∷ os) = elapsed + total os

observe-waiting :
    (g : Gate) (o : Observation) (elapsed : ℕ)
    → g.timeout_ms ≤ uint32_max
    → (observe g o elapsed).state ≡ waiting
    → ((observe g o elapsed).elapsed_ms ≡ g.elapsed_ms + elapsed)
      × (g.elapsed_ms + elapsed < g.timeout_ms)
unfolding observe decide saturated_add
observe-waiting g o elapsed u h = ground arith

waiting-cases : (s : HealthState) → (s ≡ waiting) ⊎ (s ≢ waiting)
waiting-cases waiting = inl refl
waiting-cases accepted = inr (ground arith)
waiting-cases timed_out = inr (ground arith)
waiting-cases rejected = inr (ground arith)

run-waiting : (g : Gate) (os : List Timed) → (run g os).state ≡ waiting → g.state ≡ waiting
run-waiting g os h = elim (waiting-cases g.state) [
  | inl was ↦ was
  | inr decided ↦ absurd (decided (ap (λ x. x.state) (sym (decision_is_final g os decided)) ∙ h))
]

-- The gate never waits for longer than its time limit: after one observation or more whose times reach
-- `timeout_ms`, it has decided.
pub decided_in_time :
    (g : Gate) (o : Observation) (elapsed : ℕ) (os : List Timed)
    → g.timeout_ms ≤ uint32_max
    → g.timeout_ms ≤ g.elapsed_ms + elapsed + total os
    → (run g ((o, elapsed) ∷ os)).state ≢ waiting
unfolding run
decided_in_time g o elapsed [] u long still =
    let (e, early) = observe-waiting g o elapsed u still in omega arith
decided_in_time g o elapsed ((o', elapsed') ∷ os) u long still =
    let g' = observe g o elapsed in
    let (e, early) = observe-waiting g o elapsed u (run-waiting g' ((o', elapsed') ∷ os) still) in
    decided_in_time g' o' elapsed' os (omega (arith, observe-display g o elapsed))
      (omega (arith, observe-display g o elapsed)) still
