-- ===== src/Network/Budget.antt =====
-- The time budget of a phase: the search, the first connection and a reconnection end.
use revlink_sidecar.Base.{
  ℕ, ◌+◌, ◌≡◌, ◌≤◌, ◌<◌, ◌⊎◌, inl, inr, true, List, [], ◌∷◌, ◌++◌, refl, ap, ◌∙◌, arith,
  saturated_add, uint32_max, map, pos,
}
use revlink_sidecar.Network.{
  ok, act, start_hotspot, hotspot_starting, tick, NetworkEvent, NetworkConfig, NetworkSnapshot,
  is_timed, transition, request_hotspot, handle_tick,
}
use revlink_sidecar.Network.Handle.{dispatch, handle, run}

-- A tick of so many milliseconds.
abbrev pub tick_of : ℕ → NetworkEvent
tick_of elapsed = record {
  kind = tick;
  network_id = 0;
  elapsed_ms = elapsed;
  platform_error = pos 0;
}

abbrev pub total : List ℕ → ℕ
total [] = 0
total (n ∷ ns) = n + total ns

tick-timed :
    (c : NetworkConfig) (s : NetworkSnapshot) (elapsed : ℕ)
    → is_timed s.state ≡ true
    → s.phase_timeout_ms ≤ uint32_max
    → s.phase_elapsed_ms ≤ uint32_max
    → let s' = (handle c s (tick_of elapsed)).1 in
      (s'.state ≡ hotspot_starting)
        × ((handle c s (tick_of elapsed)).0 ≡ ok)
        × ((handle c s (tick_of elapsed)).2 ≡ act start_hotspot)
      ⊎ ((s'.state ≡ s.state)
          × (s'.phase_timeout_ms ≡ s.phase_timeout_ms)
          × (s'.phase_elapsed_ms ≡ s.phase_elapsed_ms + elapsed)
          × ((s.phase_elapsed_ms + elapsed < s.phase_timeout_ms) ⊎ (elapsed ≡ 0)))
unfolding handle dispatch handle_tick request_hotspot transition saturated_add
tick-timed c s elapsed t b l = ground arith

tick-hotspot :
    (c : NetworkConfig) (s : NetworkSnapshot) (elapsed : ℕ)
    → s.state ≡ hotspot_starting
    → (handle c s (tick_of elapsed)).1.state ≡ hotspot_starting
unfolding handle dispatch handle_tick
tick-hotspot c s elapsed h = ground arith

run-hotspot :
    (c : NetworkConfig) (s : NetworkSnapshot) (ticks : List ℕ)
    → s.state ≡ hotspot_starting
    → (run c s (map tick_of ticks)).state ≡ hotspot_starting
unfolding run
run-hotspot c s [] h = h
run-hotspot c s (n ∷ ns) h = run-hotspot c (handle c s (tick_of n)).1 ns (tick-hotspot c s n h)

-- Among the ticks is one, up to which the phase lasts, that is answered with the action to start the
-- hotspot; the coordinator waits for the hotspot from there on.
pub record IsAsked (c : NetworkConfig) (s : NetworkSnapshot) (ticks : List ℕ) : Type 0 where
  pub before : List ℕ
  pub last : ℕ
  pub after : List ℕ
  pub parts : ticks ≡ before ++ last ∷ after
  pub lasts : (run c s (map tick_of before)).state ≡ s.state
  pub accepted : (handle c (run c s (map tick_of before)) (tick_of last)).0 ≡ ok
  pub asked : (handle c (run c s (map tick_of before)) (tick_of last)).2 ≡ act start_hotspot
  pub waits : (run c s (map tick_of ticks)).state ≡ hotspot_starting

IsAsked-tick :
    (c : NetworkConfig) (s : NetworkSnapshot) (n : ℕ) (ns : List ℕ)
    → (handle c s (tick_of n)).1.state ≡ s.state
    → IsAsked c (handle c s (tick_of n)).1 ns
    → IsAsked c s (n ∷ ns)
unfolding run
IsAsked-tick c s n ns same a = record {
  before = n ∷ a.before;
  last = a.last;
  after = a.after;
  parts = ap (λ r. n ∷ r) a.parts;
  lasts = a.lasts ∙ same;
  accepted = a.accepted;
  asked = a.asked;
  waits = a.waits;
}

-- In a phase with a time budget, ticks that together reach what is left of it make the coordinator ask for
-- the hotspot, however they are cut up and whatever their order: one of them, up to which the phase lasts, is
-- answered with the action to start the hotspot, and after all of them the hotspot is waited for.
pub budget_spent :
    (c : NetworkConfig) (s : NetworkSnapshot) (ticks : List ℕ)
    → is_timed s.state ≡ true
    → s.phase_timeout_ms ≤ uint32_max
    → s.phase_elapsed_ms < s.phase_timeout_ms
    → s.phase_timeout_ms ≤ s.phase_elapsed_ms + total ticks
    → IsAsked c s ticks
unfolding run
budget_spent c s [] t b l spent = absurd (omega arith)
budget_spent c s (n ∷ ns) t b l spent = elim (tick-timed c s n t b (omega arith)) [
  | inl (starting, accepted, asked) ↦ record {
    before = [];
    last = n;
    after = ns;
    parts = refl;
    lasts = refl;
    accepted = accepted;
    asked = asked;
    waits = run-hotspot c (handle c s (tick_of n)).1 ns starting;
  }
  | inr (same, timeout, elapsed, left) ↦ IsAsked-tick c s n ns same (
      budget_spent c (handle c s (tick_of n)).1 ns (rw same t) (omega arith) (omega arith)
        (omega arith))
]
