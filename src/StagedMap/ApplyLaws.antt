-- ===== src/StagedMap/ApplyLaws.antt =====
-- When a staged map may be written without its owner's hand.
use revlink_sidecar.Base.{
  ℕ, ◌≡◌, refl, sym, ap, ◌∙◌, Bool, true, false, ◌||◌, ◌↔◌, some, List, strnlen, arith, mem_eq→take,
  take→mem_eq, text_of, length-text_of, strnlen-le-length, length, take,
}
use revlink_sidecar.StagedMap.{part_number_capacity, serial_capacity}
use revlink_sidecar.StagedMap.Fields.{IsText}
use revlink_sidecar.StagedMap.Apply.{
  Decision, allowed, ApplyContext, bounded_equal, evaluate_transport, evaluate_target,
  evaluate_apply, is_transient,
}

-- The two fields hold the same text, which is not empty and ends inside its field.
abbrev pub SameText : List ℕ → List ℕ → ℕ → Type 0
SameText a b capacity = IsText a capacity × (text_of a capacity ≡ text_of b capacity)

pub bounded_equal-SameText :
    (a b : List ℕ) (capacity : ℕ) → bounded_equal a b capacity ≡ true → SameText a b capacity
unfolding bounded_equal
bounded_equal-SameText a b capacity h = ground (arith, mem_eq→take (strnlen a capacity) a b)

pub SameText-bounded_equal :
    (a b : List ℕ) (capacity : ℕ) → SameText a b capacity → bounded_equal a b capacity ≡ true
unfolding bounded_equal
SameText-bounded_equal a b capacity (text, same) = ground (
  arith,
  ends,
  take→mem_eq (strnlen a capacity) a b (strnlen-le-length a capacity)
      (omega (arith, ends, strnlen-le-length b capacity)) (same ∙ ap (λ n. take n b) ends),
)
  where
    ends : strnlen b capacity ≡ strnlen a capacity
    ends =
        sym (length-text_of b capacity (strnlen-le-length b capacity))
        ∙ ap length (sym same)
        ∙ length-text_of a capacity (strnlen-le-length a capacity)

-- What the owner and the staged file must say for a write that no hand starts.
pub record IsCleared (c : ApplyContext) : Type 0 where
  pub writes_compiled : c.writes_compiled ≡ true
  pub consent : c.consent_enabled ≡ true
  pub auto_apply : c.auto_apply_enabled ≡ true
  pub staged : c.staged ≡ true
  pub identified : c.device_identified ≡ true
  pub same_serial : SameText c.target_serial c.attached_serial serial_capacity
  pub same_part_number : SameText c.target_part_number c.attached_part_number part_number_capacity
  pub settled : c.recovery_required ≡ false
  pub first_attempt : c.already_attempted_this_attach ≡ false

-- No transfer runs, and the read-only sync has left nothing to do.
pub record IsQuiet (c : ApplyContext) : Type 0 where
  pub idle : c.transfer_running ≡ false
  pub clean : c.sync_completed_clean ≡ true
  pub nothing_pending : c.sync_pending ≡ 0

-- The other serial is not empty either.
SameText-serial :
    (a b : List ℕ) (capacity : ℕ) → SameText a b capacity → strnlen b capacity ≡ strnlen a capacity
SameText-serial a b capacity (text, same) =
    sym (length-text_of b capacity (strnlen-le-length b capacity))
    ∙ ap length (sym same)
    ∙ length-text_of a capacity (strnlen-le-length a capacity)

abbrev is_allowed : Decision → Bool
is_allowed allowed = true
is_allowed _ = false

module _ (c : ApplyContext) where
  IsCleared-evaluate_apply : IsCleared c → evaluate_apply (some c) ≡ evaluate_transport c
  unfolding evaluate_apply evaluate_target
  IsCleared-evaluate_apply k = ground (
    arith,
    SameText-bounded_equal c.target_serial c.attached_serial serial_capacity k.same_serial,
    SameText-bounded_equal c.target_part_number c.attached_part_number part_number_capacity
        k.same_part_number,
    SameText-serial c.target_serial c.attached_serial serial_capacity k.same_serial,
  )

  -- The decisions that only the last checks give.
  abbrev is_late : Decision → Bool
  is_late d = is_allowed d || is_transient d

  is_late-IsCleared : is_late (evaluate_apply (some c)) ≡ true → IsCleared c
  unfolding evaluate_apply evaluate_target evaluate_transport is_transient
  is_late-IsCleared h = ground (
    arith,
    bounded_equal-SameText c.target_serial c.attached_serial serial_capacity,
    bounded_equal-SameText c.target_part_number c.attached_part_number part_number_capacity,
  )

  evaluate_transport-allowed : IsCleared c → (evaluate_transport c ≡ allowed) ↔ IsQuiet c
  unfolding evaluate_transport
  evaluate_transport-allowed k = (λ h. ground arith, λ q. ground arith)

  evaluate_transport-transient :
      IsCleared c → (is_transient (evaluate_transport c) ≡ true) ↔ (¬ IsQuiet c)
  unfolding evaluate_transport is_transient
  evaluate_transport-transient k = (λ h q. ground arith, λ q. ground (arith))

  -- A write that no hand starts is allowed exactly when the build and the owner enable it, the staged
  -- file's serial and part number are those of the identified device, nothing waits for recovery, it is
  -- the first attempt of this attachment, no transfer runs, and the sync is complete with nothing
  -- pending.
  pub evaluate_apply-allowed : (evaluate_apply (some c) ≡ allowed) ↔ (IsCleared c × IsQuiet c)
  unfolding is_transient
  evaluate_apply-allowed = (
    λ h.
        let k = is_late-IsCleared (rw h refl) in
        (k, (evaluate_transport-allowed k).0 (sym (IsCleared-evaluate_apply k) ∙ h)),
    λ (k, q). IsCleared-evaluate_apply k ∙ (evaluate_transport-allowed k).1 q,
  )

  -- A decision is transient exactly when all that could still change during the attachment (the sync and
  -- the transfer) is what refuses the write.
  pub evaluate_apply-transient :
      (is_transient (evaluate_apply (some c)) ≡ true) ↔ (IsCleared c × (¬ IsQuiet c))
  unfolding is_transient
  evaluate_apply-transient = (
    λ h.
        let k = is_late-IsCleared (ground arith) in
        (k, (evaluate_transport-transient k).0 (rw (IsCleared-evaluate_apply k) at h)),
    λ (k, q). rw (IsCleared-evaluate_apply k) ((evaluate_transport-transient k).1 q),
  )
