-- ===== src/StagedMap/Tests.antt =====
-- Tests of the staged map's codec and decision, and their theorems at concrete inputs.
use revlink_sidecar.Base.{
  mem_eq, Segment, All, All-replicate, le_bytes, le_bytes-All, write_all, write_all-All,
  write_at-All, read_at, length-write_at, length-write_all, ltb, ◌<◌, ◌↔◌, strnlen, length, true,
  [], ◌∷◌, List, ℕ, false, some, ◌≡◌, ◌≤◌, refl, arith, replicate,
}
use revlink_sidecar.Sync.Text.{all_of}
use revlink_sidecar.Crc.{crc32_update}
use revlink_sidecar.StagedMap.{
  ok, StagedRecord, HasCType, record_bytes, magic, version, name_capacity, path_capacity,
  part_number_capacity, serial_capacity,
}
use revlink_sidecar.StagedMap.Codec.{crc32_ieee, encode, decode}
use revlink_sidecar.StagedMap.RoundTrip.{
  IsEncodable, canonical, decode-encode, segments, encoded, cleared,
}
use revlink_sidecar.StagedMap.Fields.{field}
use revlink_sidecar.StagedMap.Decoded.{IsStored, decode_ok}
use revlink_sidecar.StagedMap.Apply.{
  ApplyContext, allowed, target_mismatch, evaluate_apply, evaluate_target, evaluate_transport,
  bounded_equal,
}
use revlink_sidecar.StagedMap.ApplyLaws.{IsCleared, IsQuiet, evaluate_apply-allowed}

-- The check value of the CRC-32 catalogue: "123456789".
crc32_check :
    crc32_ieee (0x31 ∷ 0x32 ∷ 0x33 ∷ 0x34 ∷ 0x35 ∷ 0x36 ∷ 0x37 ∷ 0x38 ∷ 0x39 ∷ []) ≡ 0xcbf43926
unfolding crc32_ieee crc32_update
crc32_check = refl

abbrev tuned : StagedRecord
tuned = record {
  kind = 0;
  size = 4096;
  sha256 = replicate 32 0xaa;
  name = 0x61 ∷ 0x62 ∷ replicate 126 0;
  destination = 0x6d ∷ replicate 255 0;
  target_part_number = 0x50 ∷ replicate 39 0;
  target_serial = 0x53 ∷ 0x31 ∷ replicate 62 0;
}

tuned-HasCType : HasCType tuned
tuned-HasCType = omega arith

tuned-IsEncodable : IsEncodable tuned
unfolding strnlen
tuned-IsEncodable = record {
  size_set = omega arith;
  kind_known = refl;
  name_text = omega arith;
  destination_text = omega arith;
  part_number_text = omega arith;
  serial_text = omega arith;
}

decode-encode_example :
    (b : List ℕ) × (encode (some tuned) (some (replicate 540 7)) 600
      ≡ (ok, some b, some record_bytes))
    × (decode (some b) record_bytes (some tuned) ≡ (ok, some (canonical tuned)))
decode-encode_example =
    decode-encode tuned tuned (replicate 540 7) 600 tuned-HasCType tuned-IsEncodable (omega arith)
      (omega arith)

abbrev IsByte : ℕ → Type 0
IsByte b = b < 256

bytes_test : (bs : List ℕ) → all_of (λ b. ltb b 256) bs ≡ true → All IsByte bs
bytes_test [] h = tt
bytes_test (b ∷ bs) h = (ground arith, bytes_test bs (ground arith))

segments-tuned : All (λ (s : Segment). All IsByte s.1) (segments tuned)
unfolding strnlen
segments-tuned = (
  le_bytes-All magic,
  (
    le_bytes-All version,
    (
      le_bytes-All tuned.kind,
      (
        le_bytes-All tuned.size,
        (
          bytes_test tuned.sha256 refl,
          (
            bytes_test (field tuned.name name_capacity) refl,
            (
              bytes_test (field tuned.destination path_capacity) refl,
              (
                bytes_test (field tuned.target_part_number part_number_capacity) refl,
                (bytes_test (field tuned.target_serial serial_capacity) refl, tt),
              ),
            ),
          ),
        ),
      ),
    ),
  ),
)

-- What `encode` writes into a buffer of sevens.
abbrev written : List ℕ
written = encoded tuned (replicate 540 7)

written-All : All IsByte written
written-All =
    let body = write_all (segments tuned) (cleared (replicate 540 7)) in
    write_at-All IsByte 536 (le_bytes (crc32_ieee (read_at 0 536 body))) body
      (le_bytes-All (crc32_ieee (read_at 0 536 body)))
      (write_all-All IsByte (segments tuned) (cleared (replicate 540 7)) segments-tuned (
        write_at-All IsByte 0 (replicate 540 0) (replicate 540 7)
          (All-replicate IsByte 540 0 (omega arith)) (All-replicate IsByte 540 7 (omega arith))))

length-written : record_bytes ≤ length written
length-written =
    let body = write_all (segments tuned) (cleared (replicate 540 7)) in
    omega (
      arith,
      length-write_at 536 (le_bytes (crc32_ieee (read_at 0 536 body))) body,
      length-write_all (segments tuned) (cleared (replicate 540 7)),
      length-write_at 0 (replicate 540 0) (replicate 540 7),
    )

decode_ok_example :
    (decode (some written) record_bytes (some tuned) ≡ (ok, some (canonical tuned)))
    ↔ (record_bytes ≤ record_bytes) × IsStored written (canonical tuned)
decode_ok_example =
    decode_ok written record_bytes tuned (canonical tuned) written-All length-written

abbrev attached : ApplyContext
attached = record {
  writes_compiled = true;
  consent_enabled = true;
  auto_apply_enabled = true;
  staged = true;
  target_part_number = 0x50 ∷ replicate 39 0;
  target_serial = 0x53 ∷ 0x31 ∷ replicate 62 0;
  device_identified = true;
  attached_part_number = 0x50 ∷ replicate 39 0;
  attached_serial = 0x53 ∷ 0x31 ∷ replicate 62 0;
  sync_completed_clean = true;
  sync_pending = 0;
  transfer_running = false;
  recovery_required = false;
  already_attempted_this_attach = false;
}

attached_allowed : evaluate_apply (some attached) ≡ allowed
unfolding evaluate_apply evaluate_target evaluate_transport bounded_equal strnlen mem_eq
attached_allowed = refl

-- The same serial with one more character is another device.
other_device :
    evaluate_apply
      (some (record attached { attached_serial = 0x53 ∷ 0x31 ∷ 0x32 ∷ replicate 61 0 }))
    ≡ target_mismatch
unfolding evaluate_apply evaluate_target evaluate_transport bounded_equal strnlen mem_eq
other_device = refl

evaluate_apply-allowed_example :
    (evaluate_apply (some attached) ≡ allowed) ↔ (IsCleared attached × IsQuiet attached)
evaluate_apply-allowed_example = evaluate_apply-allowed attached

abbrev transferring : ApplyContext
transferring = record attached { transfer_running = true }
