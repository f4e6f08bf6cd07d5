-- ===== src/Protocol/Target.antt =====
-- Which files may be deleted and uploaded: `revlink_ap_validate_delete_target` and
-- `revlink_ap_validate_upload_target` of firmware/components/accessport_protocol/revlink_accessport_protocol.c.
use revlink_sidecar.Base.{
  ℕ, ◌+◌, ◌-◌, ltb, leb, ◌==◌, not, if◌then◌else◌, Bool, false, ◌&&◌, ◌||◌, Option, none, some,
  List, [], ◌∷◌, take, drop, mem_eq,
}
use revlink_sidecar.Protocol.{
  ApStatus, ok, invalid_argument, upload_target_rejected, max_chunk_payload, byte,
}

-- "maps/".
abbrev pub maps_prefix : List ℕ
maps_prefix = 0x6d ∷ 0x61 ∷ 0x70 ∷ 0x73 ∷ 0x2f ∷ []

-- "datalog/".
abbrev pub datalog_prefix : List ℕ
datalog_prefix = 0x64 ∷ 0x61 ∷ 0x74 ∷ 0x61 ∷ 0x6c ∷ 0x6f ∷ 0x67 ∷ 0x2f ∷ []

-- "images/startup_screen.fb".
abbrev pub startup_path : List ℕ
startup_path =
    0x69 ∷ 0x6d ∷ 0x61 ∷ 0x67 ∷ 0x65 ∷ 0x73 ∷ 0x2f ∷ 0x73 ∷ 0x74 ∷ 0x61 ∷ 0x72 ∷ 0x74 ∷ 0x75 ∷ 0x70
    ∷ 0x5f ∷ 0x73 ∷ 0x63 ∷ 0x72 ∷ 0x65 ∷ 0x65 ∷ 0x6e ∷ 0x2e ∷ 0x66 ∷ 0x62 ∷ []

-- ".ptm".
abbrev pub map_extension : List ℕ
map_extension = 0x2e ∷ 0x70 ∷ 0x74 ∷ 0x6d ∷ []

abbrev pub startup_screen_bytes : ℕ
startup_screen_bytes = 153600

pub data UploadKind : Type 0 where
  upload_map upload_startup_screen : UploadKind

abbrev pub starts_with_dot : List ℕ → Bool
starts_with_dot [] = false
starts_with_dot (b ∷ bs) = b == 0x2e

-- The scan of the name: a NUL, a separator, or two dots.
abbrev pub unsafe_name : List ℕ → Bool
unsafe_name [] = false
unsafe_name (b ∷ bs) =
    b == 0x00 || b == 0x2f || b == 0x5c || (b == 0x2e && starts_with_dot bs) || unsafe_name bs

abbrev pub name_status : List ℕ → ApStatus
name_status name = if unsafe_name name then upload_target_rejected else ok

-- The first `len` bytes of the path count.
unfoldable pub validate_delete_target : Option (List ℕ) → ℕ → ApStatus
validate_delete_target none len = invalid_argument
validate_delete_target (some path) len =
    if ltb 5 len && mem_eq 5 path maps_prefix
    then name_status (drop 5 (take len path))
    else if ltb 8 len && mem_eq 8 path datalog_prefix
    then name_status (drop 8 (take len path))
    else upload_target_rejected

abbrev pub lower : ℕ → ℕ
lower b = if leb 0x41 b && leb b 0x5a then b + (0x61 - 0x41) else b

abbrev pub ascii_equal_case_insensitive : ℕ → ℕ → Bool
ascii_equal_case_insensitive left right = lower left == lower right

abbrev pub is_map_extension : List ℕ → Bool
is_map_extension e =
    ascii_equal_case_insensitive (byte e 0) (byte map_extension 0)
    && ascii_equal_case_insensitive (byte e 1) (byte map_extension 1)
    && ascii_equal_case_insensitive (byte e 2) (byte map_extension 2)
    && ascii_equal_case_insensitive (byte e 3) (byte map_extension 3)

-- A map: the directory, the size, the name and its extension.
unfoldable pub map_target : List ℕ → ℕ → ℕ → ApStatus × Option UploadKind
map_target path len file_size =
    if leb len 9
      || not (mem_eq 5 path maps_prefix)
      || file_size == 0
      || ltb max_chunk_payload file_size
    then (upload_target_rejected, none)
    else if unsafe_name (drop 5 (take len path))
    then (upload_target_rejected, none)
    else if is_map_extension (drop (len - 4) path)
    then (ok, some upload_map)
    else (upload_target_rejected, none)

-- `has_kind` is a non-NULL `kind`; the second part is what is stored in it.
unfoldable pub validate_upload_target :
    Option (List ℕ) → ℕ → ℕ → Bool → ApStatus × Option UploadKind
validate_upload_target none len file_size has_kind = (invalid_argument, none)
validate_upload_target (some path) len file_size has_kind =
    if not has_kind
    then (invalid_argument, none)
    else if len == 24 && mem_eq 24 path startup_path
    then if file_size == startup_screen_bytes
      then (ok, some upload_startup_screen)
      else (upload_target_rejected, none)
    else map_target path len file_size
