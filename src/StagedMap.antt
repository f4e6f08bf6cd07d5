-- ===== src/StagedMap.antt =====
-- firmware/components/revlink_staged_map: a map file staged on the microSD card for one AccessPort.
-- This file has the types and constants of include/revlink_staged_map.h; `Codec` is the on-disk
-- record, `Apply` the decision to write it to a device.
pub mod Codec
pub mod Fields
pub mod RoundTrip
pub mod Decoded
pub mod Encoded
pub mod Apply
pub mod ApplyLaws
mod Tests
use revlink_sidecar.Base.{ℕ, ◌≡◌, ◌≤◌, ◌<◌, List, Bool, length, uint32_max}

abbrev pub magic : ℕ
magic = 0x544c5652

abbrev pub version : ℕ
version = 1

abbrev pub sha256_bytes : ℕ
sha256_bytes = 32

abbrev pub name_capacity : ℕ
name_capacity = 128

abbrev pub path_capacity : ℕ
path_capacity = 256

abbrev pub part_number_capacity : ℕ
part_number_capacity = 40

abbrev pub serial_capacity : ℕ
serial_capacity = 64

abbrev pub record_bytes : ℕ
record_bytes = 540

pub data Status : Type 0 where
  ok invalid_argument truncated bad_magic unsupported_version bad_checksum malformed_field : Status

-- `revlink_staged_map_kind_t`; the code compares the number, which may lie outside the enum.
abbrev pub kind_map : ℕ
kind_map = 0

abbrev pub kind_startup_image : ℕ
kind_startup_image = 1

-- The arrays are lists of bytes, as long as the array.
pub record StagedRecord : Type 0 where
  pub kind : ℕ
  pub size : ℕ
  pub sha256 : List ℕ
  pub name : List ℕ
  pub destination : List ℕ
  pub target_part_number : List ℕ
  pub target_serial : List ℕ

-- What the C type says of every value: a `uint32_t`, and arrays of their lengths.
pub record HasCType (r : StagedRecord) : Type 0 where
  pub size_u32 : r.size ≤ uint32_max
  pub sha256_len : length r.sha256 ≡ sha256_bytes
  pub name_len : length r.name ≡ name_capacity
  pub destination_len : length r.destination ≡ path_capacity
  pub part_number_len : length r.target_part_number ≡ part_number_capacity
  pub serial_len : length r.target_serial ≡ serial_capacity
