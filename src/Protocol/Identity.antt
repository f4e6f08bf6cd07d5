-- ===== src/Protocol/Identity.antt =====
-- The payload of the device's identity, `revlink_ap_parse_device_identity_payload` of
-- firmware/components/accessport_protocol/revlink_accessport_protocol.c: six lines of text. A text of the
-- structure is a list of bytes without the NUL behind it.
use revlink_sidecar.Base.{
  ℕ, ltb, leb, ◌==◌, not, if◌then◌else◌, Bool, true, false, ◌&&◌, ◌||◌, Option, none, some, ◌>>=◌,
  List, [], ◌∷◌, ◌++◌, length,
}
use revlink_sidecar.Protocol.{ApStatus, ok, invalid_argument, invalid_frame}
use revlink_sidecar.Protocol.Listing.{read_lp_view}

pub record DeviceInfo : Type 0 where
  pub firmware : List ℕ
  pub part_number : List ℕ
  pub serial : List ℕ
  pub install_status : List ℕ
  pub vehicle : List ℕ
  pub trailing_field : List ℕ

-- A byte that may stand in a field.
abbrev pub is_field_byte : Bool → ℕ → Bool
is_field_byte true b =
    (leb b'a' b && leb b b'z')
    || (leb b'A' b && leb b b'Z')
    || (leb b'0' b && leb b b'9')
    || b == b'-'
    || b == b'_'
is_field_byte false b = not (ltb b 0x20 || b == 0x7f)

-- The loop over the bytes of a field.
unfoldable pub is_field_text : Bool → List ℕ → Bool
is_field_text serial_field [] = true
is_field_text serial_field (b ∷ bs) = is_field_byte serial_field b && is_field_text serial_field bs

unfoldable pub copy_identity_field : List ℕ → ℕ → Bool → Option (List ℕ)
copy_identity_field value capacity serial_field =
    if length value == 0 || leb capacity (length value) || not (is_field_text serial_field value)
    then none
    else some value

-- A line without the carriage return at its end.
unfoldable pub without_return : List ℕ → List ℕ
without_return [] = []
without_return (b ∷ []) = if b == 0x0d then [] else b ∷ []
without_return (b ∷ c ∷ bs) = b ∷ without_return (c ∷ bs)

-- A line that is not empty is the next field, of which there are six.
unfoldable pub end_line : List ℕ → List (List ℕ) → Option (List (List ℕ))
end_line line fields =
    if length (without_return line) == 0
    then some fields
    else if leb 6 (length fields)
    then none
    else some (fields ++ without_return line ∷ [])

-- The loop over the text: the line that has begun, and the fields so far.
unfoldable pub split_fields : List ℕ → List ℕ → List (List ℕ) → Option (List (List ℕ))
split_fields [] line fields = end_line line fields
split_fields (b ∷ bs) line fields =
    let ends = b == 0x0a in
    (if ends then end_line line fields else some fields)
    >>= split_fields bs (if ends then [] else line ++ b ∷ [])

unfoldable pub identity_of : List (List ℕ) → Option DeviceInfo
identity_of (f0 ∷ f1 ∷ f2 ∷ f3 ∷ f4 ∷ f5 ∷ []) = do
  firmware ← copy_identity_field f0 64 false
  part_number ← copy_identity_field f1 40 false
  serial ← copy_identity_field f2 64 true
  install_status ← copy_identity_field f3 40 false
  vehicle ← copy_identity_field f4 192 false
  trailing_field ← copy_identity_field f5 40 false
  some (record {
    firmware = firmware;
    part_number = part_number;
    serial = serial;
    install_status = install_status;
    vehicle = vehicle;
    trailing_field = trailing_field;
  })
identity_of fields = none

-- What is stored in `*identity`, if the payload is one.
unfoldable pub read_identity : List ℕ → ℕ → Option DeviceInfo
read_identity payload len = do
  text ← read_lp_view payload len 0
  fields ← if not (text.1 == len) || length text.0 == 0 then none else split_fields text.0 [] []
  identity_of fields

abbrev pub identity_status : Option DeviceInfo → ApStatus × Option DeviceInfo
identity_status none = (invalid_frame, none)
identity_status (some identity) = (ok, some identity)

-- `has_identity` says whether the pointer is not NULL.
unfoldable pub parse_device_identity : Option (List ℕ) → ℕ → Bool → ApStatus × Option DeviceInfo
parse_device_identity none len has_identity = (invalid_argument, none)
parse_device_identity (some payload) len has_identity =
    if not has_identity
    then (invalid_argument, none)
    else identity_status (read_identity payload len)
