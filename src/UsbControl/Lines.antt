-- ===== src/UsbControl/Lines.antt =====
-- What happens on the two lines of the USB link, over any operations and answers of the driver.
use revlink_sidecar.Base.{
  ℕ, ◌≡◌, ◌≢◌, ◌⊎◌, refl, ap, Bool, true, false, not, ◌&&◌, ◌||◌, List, [], ◌∷◌, ◌++◌, arith,
  if◌then◌else◌, Bool-cases, inl, inr, sym, ◌∙◌, subst₂, subst,
}
use revlink_sidecar.UsbControl.{
  isolated, attaching, attached, isolating, fault, VbusMode, Control, Call, set_data_connected,
  set_vbus_enabled, delay, Done, is_supplied, delay_if_requested, isolated_by, isolate_calls,
  force_isolate, Answers, give_up, connect_data, set_power, attach, isolate,
}

-- The levels of the two lines.
pub record Lines : Type 0 where
  pub connected : Bool
  pub powered : Bool

-- The driver's contract: a call that it answers with `true` has set its line, and one that it answers with
-- `false` has left it.
abbrev pub drive : Lines → Call → Lines
drive l (set_data_connected enabled answer) = record l {
  connected = if answer then enabled else l.connected;
}
drive l (set_vbus_enabled enabled answer) = record l {
  powered = if answer then enabled else l.powered;
}
drive l (delay delay_ms) = l

abbrev pub drive_all : Lines → List Call → Lines
drive_all l [] = l
drive_all l (call ∷ calls) = drive_all (drive l call) calls

-- Power is switched on only while the data line is off.
abbrev pub is_ordered : Lines → List Call → Bool
is_ordered l [] = true
is_ordered l (set_vbus_enabled true answer ∷ calls) =
    not l.connected && is_ordered (drive l (set_vbus_enabled true answer)) calls
is_ordered l (call ∷ calls) = is_ordered (drive l call) calls

-- One operation, with the driver's answers.
pub data Input : Type 0 where
  attached_with : VbusMode → Answers → Input
  isolated_with : (data_disabled vbus_disabled : Bool) → Input
  forced_with : (data_disabled vbus_disabled : Bool) → Input

unfoldable pub react : Control → Input → Done
react c (attached_with mode answers) = attach c mode answers
react c (isolated_with d v) = isolate c d v
react c (forced_with d v) = force_isolate c d v

unfoldable pub run : Control → List Input → Control × List Call
run c [] = (c, [])
run c (i ∷ is) =
    let (status, c', calls) = react c i in let (last, rest) = run c' is in (last, calls ++ rest)

-- The link's state against the levels of its lines.
pub record LinkOk (c : Control) (l : Lines) : Type 0 where
  pub settled : (c.state ≢ attaching) × (c.state ≢ isolating)
  pub when_isolated : c.state ≡ isolated → (l.connected ≡ false) × (l.powered ≡ false)
  pub when_attached :
      c.state ≡ attached → (l.connected ≡ true) × (l.powered ≡ is_supplied c.vbus_mode)
  pub shown : c.state ≢ fault → (c.data_connected ≡ l.connected) × (c.vbus_enabled ≡ l.powered)

drive_all-append :
    (l : Lines) (cs bs : List Call) → drive_all l (cs ++ bs) ≡ drive_all (drive_all l cs) bs
drive_all-append l [] bs = refl
drive_all-append l (a ∷ cs) bs = drive_all-append (drive l a) cs bs

pub delay_one :
    (l : Lines) (n : ℕ) (bs : List Call)
    → (drive_all l (delay_if_requested n ++ bs) ≡ drive_all l bs)
      × (is_ordered l (delay_if_requested n ++ bs) ≡ is_ordered l bs)
unfolding delay_if_requested
delay_one l n bs = ground arith

force_isolate-LinkOk :
    (c : Control) (d v : Bool) (l : Lines)
    → LinkOk c l
    → let (status, c', calls) = force_isolate c d v in LinkOk c' (drive_all l calls)
unfolding force_isolate isolated_by isolate_calls delay_if_requested
force_isolate-LinkOk c d v l ok = ground arith

LinkOk-fault : (c : Control) (l : Lines) → c.state ≡ fault → LinkOk c l
LinkOk-fault c l h = ground arith

give_up-fault : (c : Control) (a : Answers) → (give_up c a).1.state ≡ fault
unfolding give_up
give_up-fault c a = refl

-- The link before its data line is connected: the power line is as the mode wants it.
record IsPowered (c : Control) (l : Lines) : Type 0 where
  off : l.connected ≡ false
  power : l.powered ≡ is_supplied c.vbus_mode
  power_shown : c.vbus_enabled ≡ l.powered

connect_data-fault :
    (c : Control) (a : Answers) → a.connected ≡ false → (connect_data c a).1.state ≡ fault
unfolding connect_data give_up
connect_data-fault c a h = ground arith

connect_data-attached :
    (c : Control) (a : Answers) (l : Lines)
    → a.connected ≡ true
    → IsPowered c l
    → let (status, c', calls) = connect_data c a in LinkOk c' (drive_all l calls)
unfolding connect_data delay_if_requested
connect_data-attached c a l h p = ground arith

connect_data-LinkOk :
    (c : Control) (a : Answers) (l : Lines)
    → IsPowered c l
    → let (status, c', calls) = connect_data c a in LinkOk c' (drive_all l calls)
connect_data-LinkOk c a l p = elim (Bool-cases a.connected) [
  | inl on ↦ connect_data-attached c a l on p
  | inr off ↦
      LinkOk-fault (connect_data c a).1 (drive_all l (connect_data c a).2)
        (connect_data-fault c a off)
]

set_power-fault : (c : Control) (a : Answers) → a.vbus ≡ false → (set_power c a).1.state ≡ fault
unfolding set_power give_up
set_power-fault c a h = ground arith

-- The calls that follow the power line's, from the levels that it leaves.
pub power_one :
    (l : Lines) (supplied : Bool) (n : ℕ) (calls : List Call)
    → let all =
        set_vbus_enabled supplied true ∷ (if supplied then delay_if_requested n else []) ++ calls in
      let l' = record l { powered = supplied } in
      (drive_all l all ≡ drive_all l' calls)
      × (is_ordered l all ≡ ((not supplied || not l.connected) && is_ordered l' calls))
power_one l true n calls =
    let (driven, ordered) = delay_one (record l { powered = true }) n calls in
    (driven, ap (λ x. not l.connected && x) ordered)
power_one l false n calls = (refl, refl)

pub set_power-on :
    (c : Control) (a : Answers)
    → a.vbus ≡ true
    → let supplied = is_supplied c.vbus_mode in
      let (status, c', calls) = connect_data (record c { vbus_enabled = supplied }) a in
      ((set_power c a).1 ≡ c')
      × ((set_power c a).2
          ≡ set_vbus_enabled supplied true
              ∷ (if supplied then delay_if_requested c.vbus_settle_ms else [])
            ++ calls)
unfolding set_power
set_power-on c a h = ground arith

set_power-LinkOk :
    (c : Control) (a : Answers) (l : Lines)
    → l.connected ≡ false
    → let (status, c', calls) = set_power c a in LinkOk c' (drive_all l calls)
set_power-LinkOk c a l off = elim (Bool-cases a.vbus) [
  | inl on ↦
      let supplied = is_supplied c.vbus_mode in
      let powered = record c { vbus_enabled = supplied } in
      let (same, calls) = set_power-on c a on in
      subst₂ LinkOk (sym same)
        (sym (
          ap (drive_all l) calls
          ∙ (power_one l supplied c.vbus_settle_ms (connect_data powered a).2).0))
        (connect_data-LinkOk powered a (record l { powered = supplied })
          (record { off = off; power = refl; power_shown = refl }))
  | inr failed ↦
      LinkOk-fault (set_power c a).1 (drive_all l (set_power c a).2) (set_power-fault c a failed)
]

pub attach-cases :
    (c : Control) (mode : VbusMode) (a : Answers)
    → (((attach c mode a).1 ≡ c) × ((attach c mode a).2 ≡ []))
      ⊎ ((c.state ≡ isolated)
          × ((attach c mode a).1
              ≡ (set_power (record c { state = attaching; vbus_mode = mode }) a).1)
          × ((attach c mode a).2
              ≡ (set_power (record c { state = attaching; vbus_mode = mode }) a).2))
unfolding attach
attach-cases c mode a = ground arith

attach-LinkOk :
    (c : Control) (mode : VbusMode) (a : Answers) (l : Lines)
    → LinkOk c l
    → let (status, c', calls) = attach c mode a in LinkOk c' (drive_all l calls)
attach-LinkOk c mode a l v = elim (attach-cases c mode a) [
  | inl (same, quiet) ↦ subst₂ LinkOk (sym same) (ap (drive_all l) (sym quiet)) v
  | inr (was, e, calls) ↦ subst₂ LinkOk (sym e) (ap (drive_all l) (sym calls)) (
      set_power-LinkOk (record c { state = attaching; vbus_mode = mode }) a l
        (v.when_isolated was).0)
]

pub isolate-cases :
    (c : Control) (d v : Bool)
    → (((isolate c d v).1 ≡ c) × ((isolate c d v).2 ≡ [])) ⊎ (isolate c d v ≡ force_isolate c d v)
unfolding isolate
isolate-cases c d v = ground arith

pub react-LinkOk :
    (c : Control) (i : Input) (l : Lines)
    → LinkOk c l
    → let (status, c', calls) = react c i in LinkOk c' (drive_all l calls)
unfolding react
react-LinkOk c (attached_with mode a) l v = attach-LinkOk c mode a l v
react-LinkOk c (forced_with d p) l v = force_isolate-LinkOk c d p l v
react-LinkOk c (isolated_with d p) l v = elim (isolate-cases c d p) [
  | inl (same, quiet) ↦ subst₂ LinkOk (sym same) (ap (drive_all l) (sym quiet)) v
  | inr e ↦
      subst₂ LinkOk (ap (λ x. x.1) (sym e)) (ap (λ x. drive_all l x.2) (sym e))
        (force_isolate-LinkOk c d p l v)
]

-- Over any operations and answers, from a link whose state fits its lines: an isolated link has both lines
-- off, an attached one has its data line on and its power line on just if RevLink supplies the power, no
-- operation ends between these states, and the flags shown are the lines' levels unless the link is in
-- fault. A driver's `true` means that the line is set, its `false` that the line is left.
pub run-LinkOk :
    (c : Control) (is : List Input) (l : Lines)
    → LinkOk c l
    → let (c', calls) = run c is in LinkOk c' (drive_all l calls)
unfolding run
run-LinkOk c [] l v = v
run-LinkOk c (i ∷ is) l v =
    let (status, c', calls) = react c i in
    subst (LinkOk (run c' is).0) (sym (drive_all-append l calls (run c' is).1))
      (run-LinkOk c' is (drive_all l calls) (react-LinkOk c i l v))
