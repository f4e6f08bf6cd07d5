-- ===== src/Protocol/Payloads.antt =====
-- The payloads of the requests of firmware/components/accessport_protocol, written out, and how a
-- builder's record arrives.
use revlink_sidecar.Base.{
  ℕ, zero, suc, ◌+◌, ◌^◌, ◌≡◌, ◌≤◌, ◌<◌, refl, ap, ◌∙◌, true, false, Option, none, some, List, [],
  ◌∷◌, ◌++◌, length, replicate, le_bytes, All-append, arith,
}
use revlink_sidecar.Protocol.{
  IsBytes, record_overhead, max_record_size, slice_of, checked_add, is_missing,
}
use revlink_sidecar.Protocol.Writer.{Write, Writes, writer_bytes, writer_bytes-Writes}
use revlink_sidecar.Protocol.Record.{
  Built, build, build_sized, build_record, size_of_lp, size_of_two,
}
use revlink_sidecar.Protocol.Frame.{build_lem}
use revlink_sidecar.Protocol.Parse.{RecordView, parse_record}
use revlink_sidecar.Protocol.RoundTrip.{parse_record-frame, view}

-- The receiver parses as many bytes as the builder reports.
abbrev pub received : Built → Option RecordView
received b = elim b.output_length [ none ↦ none | some n ↦ (parse_record b.output n true).1 ]

-- A text with its length in front.
abbrev pub lp : List ℕ → List ℕ
lp bs = le_bytes (length bs) ++ bs

abbrev pub select_map_payload : List ℕ → List ℕ
select_map_payload name = replicate 2 0 ++ (lp name ++ replicate 26 0)

-- A download and a delete.
abbrev pub file_payload : List ℕ → List ℕ → List ℕ
file_payload name path = (0x00 ∷ 0x01 ∷ []) ++ (lp name ++ (replicate 27 0 ++ lp path))

abbrev pub upload_payload : List ℕ → List ℕ → ℕ → ℕ → List ℕ
upload_payload name path time size =
    (0x00 ∷ 0x01 ∷ [])
    ++ (lp name ++ (le_bytes time ++ (le_bytes size ++ (replicate 19 0 ++ lp path))))

pub le_bytes-IsBytes : (v : ℕ) → IsBytes (le_bytes v)
unfolding le_bytes
le_bytes-IsBytes v = (omega arith, (omega arith, (omega arith, (omega arith, tt))))

pub zeros-IsBytes : (n : ℕ) → IsBytes (replicate n 0)
zeros-IsBytes zero = tt
zeros-IsBytes (suc n) = (omega arith, zeros-IsBytes n)

pub both : (xs ys : List ℕ) → IsBytes xs → IsBytes ys → IsBytes (xs ++ ys)
both = All-append (λ (b : ℕ). b < 256)

pub lp-IsBytes : (bs : List ℕ) → IsBytes bs → IsBytes (lp bs)
lp-IsBytes bs h = both (le_bytes (length bs)) bs (le_bytes-IsBytes (length bs)) h

pub received-build :
    (opcode : ℕ) (f : Write) (bs out : List ℕ) (capacity : ℕ)
    → opcode < 2 ^ 16
    → Writes f bs
    → IsBytes bs
    → record_overhead + length bs ≤ max_record_size
    → record_overhead + length bs ≤ capacity
    → capacity ≤ length out
    → received (build opcode (length bs) f (some out) capacity true) ≡ some (view opcode bs)
received-build opcode f bs out capacity h hf all fits room cap =
    ap received (build_lem opcode f bs out capacity hf fits room cap)
    ∙ ap (λ p. p.1) (parse_record-frame opcode bs _ h all fits)

-- The conditions under which a payload is sent.
abbrev pub Sendable : List ℕ → List ℕ → ℕ → Type 0
Sendable payload out capacity =
    (record_overhead + length payload ≤ max_record_size)
    × ((record_overhead + length payload ≤ capacity) × (capacity ≤ length out))

pub received-build_sized :
    (opcode : ℕ) (size : Option ℕ) (f : Write) (bs out : List ℕ) (capacity : ℕ)
    → opcode < 2 ^ 16
    → size ≡ some (length bs)
    → Writes f bs
    → IsBytes bs
    → Sendable bs out capacity
    → received (build_sized opcode size f (some out) capacity true) ≡ some (view opcode bs)
unfolding build_sized
received-build_sized opcode size f bs out capacity h e hf all s =
    ap (λ k. received (build_sized opcode k f (some out) capacity true)) e
    ∙ received-build opcode f bs out capacity h hf all s.0 s.1.0 s.1.1

pub present : (bs : List ℕ) → is_missing (slice_of bs) ≡ false
present [] = refl
present (b ∷ bs) = ground arith

-- A 16-bit opcode and a payload of bytes that fit a record and the output: the record that is
-- built is parsed to the same opcode and payload.
pub received-build_record :
    (opcode : ℕ) (payload out : List ℕ) (capacity : ℕ)
    → opcode < 2 ^ 16
    → IsBytes payload
    → Sendable payload out capacity
    → received (build_record opcode (slice_of payload) (some out) capacity true)
      ≡ some (view opcode payload)
unfolding build_record
received-build_record opcode payload out capacity h all s = rw (present payload) (
    received-build opcode (writer_bytes (slice_of payload)) payload out capacity h
      (writer_bytes-Writes payload) all s.0 s.1.0 s.1.1)

pub size_of_lp_lem :
    (fixed n : ℕ) (bs : List ℕ)
    → fixed + length bs ≡ n
    → n ≤ max_record_size
    → size_of_lp fixed (slice_of bs) ≡ some n
unfolding size_of_lp checked_add
size_of_lp_lem fixed n bs e h = rw (present bs) (ground arith)

pub size_of_two_lem :
    (n : ℕ) (name path : List ℕ)
    → 37 + length name + length path ≡ n
    → n ≤ max_record_size
    → size_of_two (slice_of name) (slice_of path) ≡ some n
unfolding size_of_two checked_add
size_of_two_lem n name path e h = rw (present name, present path) (ground arith)
