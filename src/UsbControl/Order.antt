-- ===== src/UsbControl/Order.antt =====
-- In what order the two lines of the USB link are switched.
use revlink_sidecar.Base.{
  ℕ, ◌≡◌, refl, ap, Bool, true, false, not, ◌&&◌, ◌||◌, List, [], ◌∷◌, ◌++◌, arith, Bool-cases, inl,
  inr, ◌∙◌,
}
use revlink_sidecar.UsbControl.{
  enter_fault, isolated, attaching, Control, Call, set_data_connected, set_vbus_enabled, delay,
  is_supplied, delay_if_requested, isolated_by, isolate_calls, force_isolate, Answers, give_up,
  connect_data, set_power, init, ok,
}
use revlink_sidecar.UsbControl.Lines.{
  Lines, drive, drive_all, is_ordered, Input, attached_with, isolated_with, forced_with, react, run,
  LinkOk, delay_one, power_one, set_power-on, attach-cases, isolate-cases, react-LinkOk,
}

is_ordered-append :
    (l : Lines) (cs bs : List Call)
    → is_ordered l cs ≡ true
    → is_ordered (drive_all l cs) bs ≡ true
    → is_ordered l (cs ++ bs) ≡ true
is_ordered-append l [] bs h k = k
is_ordered-append l (set_data_connected enabled answer ∷ cs) bs h k =
    is_ordered-append (drive l (set_data_connected enabled answer)) cs bs h k
is_ordered-append l (delay n ∷ cs) bs h k = is_ordered-append l cs bs h k
is_ordered-append l (set_vbus_enabled false answer ∷ cs) bs h k =
    is_ordered-append (drive l (set_vbus_enabled false answer)) cs bs h k
is_ordered-append l (set_vbus_enabled true answer ∷ cs) bs h k =
    let rest = is_ordered-append (drive l (set_vbus_enabled true answer)) cs bs in ground arith

isolate_calls-ordered :
    (c : Control) (d v : Bool) (l : Lines) → is_ordered l (isolate_calls c d v) ≡ true
unfolding isolate_calls
isolate_calls-ordered c d v l =
    (delay_one (drive l (set_data_connected false d)) c.isolate_settle_ms
      (set_vbus_enabled false v ∷ [])).1

force_isolate-ordered :
    (c : Control) (d v : Bool) (l : Lines) → is_ordered l (force_isolate c d v).2 ≡ true
unfolding force_isolate
force_isolate-ordered c d v l = let calls = isolate_calls-ordered c d v l in ground arith

delays_ordered : (l : Lines) (n : ℕ) → is_ordered l (delay_if_requested n) ≡ true
unfolding delay_if_requested
delays_ordered l n = ground arith

give_up-ordered : (c : Control) (a : Answers) (l : Lines) → is_ordered l (give_up c a).2 ≡ true
unfolding give_up
give_up-ordered c a l = force_isolate-ordered (enter_fault c) a.data_disabled a.vbus_disabled l

connect_data-ordered :
    (c : Control) (a : Answers) (l : Lines) → is_ordered l (connect_data c a).2 ≡ true
unfolding connect_data
connect_data-ordered c a l =
    let isolation = give_up-ordered c a (drive l (set_data_connected true false)) in
    let settled = delays_ordered (drive l (set_data_connected true true)) c.data_settle_ms in
    ground arith

set_power-fails-ordered :
    (c : Control) (a : Answers) (l : Lines)
    → a.vbus ≡ false
    → l.connected ≡ false
    → is_ordered l (set_power c a).2 ≡ true
unfolding set_power
set_power-fails-ordered c a l failed off =
    let isolation =
      give_up-ordered c a (drive l (set_vbus_enabled (is_supplied c.vbus_mode) false)) in
    ground arith

set_power-ordered :
    (c : Control) (a : Answers) (l : Lines)
    → l.connected ≡ false
    → is_ordered l (set_power c a).2 ≡ true
set_power-ordered c a l off = elim (Bool-cases a.vbus) [
  | inl on ↦
      let supplied = is_supplied c.vbus_mode in
      let powered = record c { vbus_enabled = supplied } in
      let (same, calls) = set_power-on c a on in
      let rest = connect_data-ordered powered a (record l { powered = supplied }) in
      ap (is_ordered l) calls
      ∙ (power_one l supplied c.vbus_settle_ms (connect_data powered a).2).1
      ∙ only_when_off supplied off rest
  | inr failed ↦ set_power-fails-ordered c a l failed off
]
  where
    only_when_off : (s : Bool) {x y : Bool} → x ≡ false → y ≡ true → ((not s || not x) && y) ≡ true
    only_when_off s h k = ground arith

react-ordered :
    (c : Control) (i : Input) (l : Lines) → LinkOk c l → is_ordered l (react c i).2 ≡ true
unfolding react
react-ordered c (forced_with d p) l v = force_isolate-ordered c d p l
react-ordered c (isolated_with d p) l v = elim (isolate-cases c d p) [
  | inl (same, quiet) ↦ ap (is_ordered l) quiet
  | inr e ↦ ap (λ x. is_ordered l x.2) e ∙ force_isolate-ordered c d p l
]
react-ordered c (attached_with mode a) l v = elim (attach-cases c mode a) [
  | inl (same, quiet) ↦ ap (is_ordered l) quiet
  | inr (was, e, calls) ↦
      ap (is_ordered l) calls
      ∙ set_power-ordered (record c { state = attaching; vbus_mode = mode }) a l
          (v.when_isolated was).0
]

-- Over any operations and answers, from a link whose state fits its lines, RevLink switches its power on only
-- while the data line is off. A driver's `true` means that the line is set, its `false` that it is left.
pub power_before_data :
    (c : Control) (is : List Input) (l : Lines) → LinkOk c l → is_ordered l (run c is).1 ≡ true
unfolding run
power_before_data c [] l v = refl
power_before_data c (i ∷ is) l v =
    let (status, c', calls) = react c i in
    is_ordered-append l calls (run c' is).1 (react-ordered c i l v)
      (power_before_data c' is (drive_all l calls) (react-LinkOk c i l v))

-- A successful `init` isolates the link, whatever the levels of the lines were: both lines are off and the
-- link is in the state from which the other theorems run.
pub init-LinkOk :
    (c : Control) (n : Bool) (vbus data_settle settle : ℕ) (d v : Bool) (l : Lines)
    → (init c n vbus data_settle settle d v).0 ≡ ok
    → let (status, c', calls) = init c n vbus data_settle settle d v in
      (c'.state ≡ isolated) × LinkOk c' (drive_all l calls)
unfolding init force_isolate isolated_by isolate_calls delay_if_requested
init-LinkOk c n vbus data_settle settle d v l h = ground arith
