-- ===== src/Protocol/IdentityLaws.antt =====
-- What is accepted as a device's identity.
use revlink_sidecar.Base.{
  ◌&&◌, ◌⊎◌, ◌≢◌, ◌≤◌, All, ℕ, ◌≡◌, ◌<◌, refl, ap, sym, subst, leb, ◌==◌, not, Bool, Bool-cases,
  inl, inr, true, false, ◌||◌, Option, none, some, ◌>>=◌, List, [], ◌∷◌, length, arith,
}
use revlink_sidecar.Protocol.{ApStatus, ok}
use revlink_sidecar.Protocol.AckLaws.{none_refused}
use revlink_sidecar.Protocol.Listing.{read_lp_view}
use revlink_sidecar.Protocol.Identity.{
  DeviceInfo, is_field_byte, is_field_text, copy_identity_field, identity_of, read_identity,
  identity_status, parse_device_identity,
}

some-bind {ℓ} :
    {A B : Type ℓ} (m : Option A) (f : A → Option B) (b : B)
    → (m >>= f) ≡ some b
    → (a : A) × ((m ≡ some a) × (f a ≡ some b))
some-bind none f b h = absurd cc
some-bind (some a) f b h = (a, (refl, h))

-- A byte that may stand in the serial number: a letter, a digit, a dash or an underscore; in another field:
-- no control character.
abbrev pub IsPermitted : Bool → ℕ → Type 0
IsPermitted true b =
    ((b'a' ≤ b) × (b ≤ b'z'))
    ⊎ (((b'A' ≤ b) × (b ≤ b'Z')) ⊎ (((b'0' ≤ b) × (b ≤ b'9')) ⊎ ((b ≡ b'-') ⊎ (b ≡ b'_'))))
IsPermitted false b = (0x20 ≤ b) × (b ≢ 0x7f)

is_field_byte→IsPermitted :
    (serial_field : Bool) (b : ℕ) → is_field_byte serial_field b ≡ true → IsPermitted serial_field b
is_field_byte→IsPermitted true b h = ground arith
is_field_byte→IsPermitted false b h = ground arith

both : (x y : Bool) → x && y ≡ true → (x ≡ true) × (y ≡ true)
both true y h = (refl, h)
both false y h = absurd cc

is_field_text→IsPermitted :
    (serial_field : Bool) (bs : List ℕ)
    → is_field_text serial_field bs ≡ true
    → All (IsPermitted serial_field) bs
unfolding is_field_text
is_field_text→IsPermitted serial_field [] h = tt
is_field_text→IsPermitted serial_field (b ∷ bs) h =
    let tests = both (is_field_byte serial_field b) (is_field_text serial_field bs) h in
    (
      is_field_byte→IsPermitted serial_field b tests.0,
      is_field_text→IsPermitted serial_field bs tests.1,
    )

-- A text of a field: not empty, with room for the NUL behind it, and of permitted bytes.
abbrev pub IsField : Bool → ℕ → List ℕ → Type 0
IsField serial_field capacity value =
    (0 < length value) × (length value < capacity) × All (IsPermitted serial_field) value

copy_identity_field-IsField :
    (value : List ℕ) (capacity : ℕ) (serial_field : Bool) (stored : List ℕ)
    → copy_identity_field value capacity serial_field ≡ some stored
    → IsField serial_field capacity stored
unfolding copy_identity_field
copy_identity_field-IsField value capacity serial_field stored h =
    elim (Bool-cases (
      length value == 0 || leb capacity (length value) || not (is_field_text serial_field value))) [
        | inl bad ↦ absurd (let gone : none ≡ some stored = rw bad at h in cc)
        | inr good ↦
            let same : some value ≡ some stored = rw good at h in
            let equal : value ≡ stored = cc in
            let tests =
              none_refused (length value == 0) (leb capacity (length value))
                (is_field_text serial_field value) good in
            let long = tests.0 in
            let short = tests.1 in
            subst (IsField serial_field capacity) equal
              (ground arith, ground arith, is_field_text→IsPermitted serial_field value tests.2)
      ]

abbrev pub IsIdentity : DeviceInfo → Type 0
IsIdentity i =
    IsField false 64 i.firmware
    × IsField false 40 i.part_number
    × IsField true 64 i.serial
    × IsField false 40 i.install_status
    × IsField false 192 i.vehicle
    × IsField false 40 i.trailing_field

identity_of-IsIdentity :
    (fields : List (List ℕ)) (i : DeviceInfo) → identity_of fields ≡ some i → IsIdentity i
unfolding identity_of
identity_of-IsIdentity [] i h = absurd cc
identity_of-IsIdentity (f0 ∷ []) i h = absurd cc
identity_of-IsIdentity (f0 ∷ f1 ∷ []) i h = absurd cc
identity_of-IsIdentity (f0 ∷ f1 ∷ f2 ∷ []) i h = absurd cc
identity_of-IsIdentity (f0 ∷ f1 ∷ f2 ∷ f3 ∷ []) i h = absurd cc
identity_of-IsIdentity (f0 ∷ f1 ∷ f2 ∷ f3 ∷ f4 ∷ []) i h = absurd cc
identity_of-IsIdentity (f0 ∷ f1 ∷ f2 ∷ f3 ∷ f4 ∷ f5 ∷ f6 ∷ fs) i h = absurd cc
identity_of-IsIdentity (f0 ∷ f1 ∷ f2 ∷ f3 ∷ f4 ∷ f5 ∷ []) i h =
    let a = some-bind (copy_identity_field f0 64 false) _ i h in
    let b = some-bind (copy_identity_field f1 40 false) _ i a.1.1 in
    let c = some-bind (copy_identity_field f2 64 true) _ i b.1.1 in
    let d = some-bind (copy_identity_field f3 40 false) _ i c.1.1 in
    let e = some-bind (copy_identity_field f4 192 false) _ i d.1.1 in
    let f = some-bind (copy_identity_field f5 40 false) _ i e.1.1 in
    let same : record {
      firmware = a.0;
      part_number = b.0;
      serial = c.0;
      install_status = d.0;
      vehicle = e.0;
      trailing_field = f.0;
    }
        ≡ i =
      cc in
    subst IsIdentity same (
      copy_identity_field-IsField f0 64 false a.0 a.1.0,
      copy_identity_field-IsField f1 40 false b.0 b.1.0,
      copy_identity_field-IsField f2 64 true c.0 c.1.0,
      copy_identity_field-IsField f3 40 false d.0 d.1.0,
      copy_identity_field-IsField f4 192 false e.0 e.1.0,
      copy_identity_field-IsField f5 40 false f.0 f.1.0,
    )

read_identity-IsIdentity :
    (payload : List ℕ) (len : ℕ) (i : DeviceInfo)
    → read_identity payload len ≡ some i
    → IsIdentity i
unfolding read_identity
read_identity-IsIdentity payload len i h =
    let text = some-bind (read_lp_view payload len 0) _ i h in
    let fields = some-bind _ identity_of i text.1.1 in identity_of-IsIdentity fields.0 i fields.1.1

-- Where an identity is stored, the answer is `ok`, and each text of it is not empty and fits its array with the
-- NUL. The serial number has letters, digits, dashes and underscores only, the other texts no control character.
pub parse_device_identity-IsIdentity :
    (payload : List ℕ) (len : ℕ) (s : ApStatus) (i : DeviceInfo)
    → parse_device_identity (some payload) len true ≡ (s, some i)
    → (s ≡ ok) × IsIdentity i
unfolding parse_device_identity
parse_device_identity-IsIdentity payload len s i h = stored (read_identity payload len) refl h
  where
    stored :
        (o : Option DeviceInfo)
        → read_identity payload len ≡ o
        → identity_status o ≡ (s, some i)
        → (s ≡ ok) × IsIdentity i
    stored none p q = absurd (let gone : none ≡ some i = ap (λ r. r.1) q in cc)
    stored (some found) p q =
        let same : some found ≡ some i = ap (λ r. r.1) q in
        let equal : found ≡ i = cc in
        (
          sym (ap (λ r. r.0) q),
          subst IsIdentity equal (read_identity-IsIdentity payload len found p),
        )
