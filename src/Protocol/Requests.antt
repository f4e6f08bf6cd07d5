-- ===== src/Protocol/Requests.antt =====
-- What a device reads in the requests of firmware/components/accessport_protocol: the builders'
-- payloads, written out.
use revlink_sidecar.Base.{
  ℕ, ◌+◌, ◌^◌, ◌≡◌, ◌≤◌, ◌<◌, true, some, List, [], ◌∷◌, ◌++◌, length, length-append, replicate,
  le_bytes, arith,
}
use revlink_sidecar.Protocol.{
  IsBytes, slice_of, opcode_list, opcode_select_map, opcode_download, opcode_temp_notice,
  opcode_upload, opcode_delete, size_max,
}
use revlink_sidecar.Protocol.Writer.{
  Write, Writes, writer_bytes, writer_zeros, writer_lp, ◌andthen◌, writer_bytes-Writes,
  writer_zeros-Writes, writer_u32_le-Writes, writer_lp-Writes, andthen-Writes,
}
use revlink_sidecar.Protocol.Record.{
  build_sized, build_list, build_select_map, build_download, build_temp_notice, build_upload,
  build_delete, size_of_lp, size_of_two, marker,
}
use revlink_sidecar.Protocol.RoundTrip.{view}
use revlink_sidecar.Protocol.Payloads.{
  received, lp, select_map_payload, file_payload, upload_payload, Sendable, le_bytes-IsBytes,
  zeros-IsBytes, both, lp-IsBytes, received-build_sized, size_of_lp_lem, size_of_two_lem,
}

-- A list request: the path with its length.
pub received-build_list :
    (path out : List ℕ) (capacity : ℕ)
    → IsBytes path
    → Sendable (lp path) out capacity
    → received (build_list (slice_of path) (some out) capacity true)
      ≡ some (view opcode_list (lp path))
unfolding build_list le_bytes
received-build_list path out capacity all s =
    received-build_sized opcode_list (size_of_lp 4 (slice_of path)) (writer_lp (slice_of path))
      (lp path) out capacity (omega arith)
      (size_of_lp_lem 4 (length (lp path)) path (omega arith) (omega arith))
      (writer_lp-Writes path (omega arith)) (lp-IsBytes path all) s

-- A notice of a temporary file: the same payload under its own opcode.
pub received-build_temp_notice :
    (path out : List ℕ) (capacity : ℕ)
    → IsBytes path
    → Sendable (lp path) out capacity
    → received (build_temp_notice (slice_of path) (some out) capacity true)
      ≡ some (view opcode_temp_notice (lp path))
unfolding build_temp_notice le_bytes
received-build_temp_notice path out capacity all s =
    received-build_sized opcode_temp_notice (size_of_lp 4 (slice_of path))
      (writer_lp (slice_of path)) (lp path) out capacity (omega arith)
      (size_of_lp_lem 4 (length (lp path)) path (omega arith) (omega arith))
      (writer_lp-Writes path (omega arith)) (lp-IsBytes path all) s

pub received-build_select_map :
    (name out : List ℕ) (capacity : ℕ)
    → IsBytes name
    → Sendable (select_map_payload name) out capacity
    → received (build_select_map (slice_of name) (some out) capacity true)
      ≡ some (view opcode_select_map (select_map_payload name))
unfolding build_select_map le_bytes
received-build_select_map name out capacity all s =
    received-build_sized opcode_select_map (size_of_lp 32 (slice_of name)) _
      (select_map_payload name) out capacity (omega arith)
      (size_of_lp_lem 32 (length (select_map_payload name)) name size (omega arith))
      (andthen-Writes _ _ (replicate 2 0) (lp name ++ replicate 26 0) (writer_zeros-Writes 2) (
        andthen-Writes _ _ (lp name) (replicate 26 0) (writer_lp-Writes name (omega (arith, size)))
          (writer_zeros-Writes 26)))
      (both (replicate 2 0) (lp name ++ replicate 26 0) (zeros-IsBytes 2)
        (both (lp name) (replicate 26 0) (lp-IsBytes name all) (zeros-IsBytes 26)))
      s
  where
    size : 32 + length name ≡ length (select_map_payload name)
    size = omega (arith, length-append name (replicate 26 0))

length-file_payload :
    (name path : List ℕ) → 37 + length name + length path ≡ length (file_payload name path)
unfolding le_bytes
length-file_payload name path = omega (arith, length-append name (replicate 27 0 ++ lp path))

length-upload_payload :
    (name path : List ℕ) (time size : ℕ)
    → 37 + length name + length path ≡ length (upload_payload name path time size)
unfolding le_bytes
length-upload_payload name path time size =
    omega
      (arith, length-append name (le_bytes time ++ (le_bytes size ++ (replicate 19 0 ++ lp path))))

-- Two texts with bytes between them, behind the marker.
two_texts-Writes :
    (name path middle : List ℕ) (f : Write)
    → length name ≤ size_max
    → length path ≤ size_max
    → Writes f middle
    → Writes
        (writer_bytes marker
          andthen writer_lp (slice_of name)
          andthen f
          andthen writer_lp (slice_of path))
        ((0x00 ∷ 0x01 ∷ []) ++ (lp name ++ (middle ++ lp path)))
two_texts-Writes name path middle f p q hf =
    andthen-Writes _ _ (0x00 ∷ 0x01 ∷ []) _ (writer_bytes-Writes (0x00 ∷ 0x01 ∷ [])) (
      andthen-Writes _ _ (lp name) _ (writer_lp-Writes name p)
        (andthen-Writes _ _ middle (lp path) hf (writer_lp-Writes path q)))

two_texts-IsBytes :
    (name path middle : List ℕ)
    → IsBytes name
    → IsBytes path
    → IsBytes middle
    → IsBytes ((0x00 ∷ 0x01 ∷ []) ++ (lp name ++ (middle ++ lp path)))
two_texts-IsBytes name path middle n p m =
    both (0x00 ∷ 0x01 ∷ []) _ (omega arith, (omega arith, tt))
      (both (lp name) _ (lp-IsBytes name n) (both middle (lp path) m (lp-IsBytes path p)))

received-file :
    (opcode : ℕ) (name path out : List ℕ) (capacity : ℕ)
    → opcode < 2 ^ 16
    → IsBytes name
    → IsBytes path
    → Sendable (file_payload name path) out capacity
    → received (
        build_sized opcode
          (size_of_two (slice_of name) (slice_of path))
          (writer_bytes marker
            andthen writer_lp (slice_of name)
            andthen writer_zeros 27
            andthen writer_lp (slice_of path))
          (some out)
          capacity
          true)
      ≡ some (view opcode (file_payload name path))
received-file opcode name path out capacity h n p s =
    let size = length-file_payload name path in
    received-build_sized opcode (size_of_two (slice_of name) (slice_of path)) _
      (file_payload name path) out capacity h
      (size_of_two_lem (length (file_payload name path)) name path size (omega arith))
      (two_texts-Writes name path (replicate 27 0) (writer_zeros 27) (omega arith) (omega arith)
        (writer_zeros-Writes 27))
      (two_texts-IsBytes name path (replicate 27 0) n p (zeros-IsBytes 27)) s

-- A name and a path, of bytes, that fit: the request for a download and the one for a delete are
-- parsed to the same payload (the marker, the name with its length, 27 zeros, the path with its
-- length), each under its own opcode.
received-build_file :
    (name path out : List ℕ) (capacity : ℕ)
    → IsBytes name
    → IsBytes path
    → Sendable (file_payload name path) out capacity
    → (received (build_download (slice_of name) (slice_of path) (some out) capacity true)
        ≡ some (view opcode_download (file_payload name path)))
      × (received (build_delete (slice_of name) (slice_of path) (some out) capacity true)
          ≡ some (view opcode_delete (file_payload name path)))
unfolding build_download build_delete
received-build_file name path out capacity n p s = (
  received-file opcode_download name path out capacity (omega arith) n p s,
  received-file opcode_delete name path out capacity (omega arith) n p s,
)

-- A name and a path, of bytes, that fit: the request for an upload is parsed to its opcode and to
-- the marker, the name with its length, the time, the size, 19 zeros, the path with its length.
pub received-build_upload :
    (name path out : List ℕ) (time size capacity : ℕ)
    → IsBytes name
    → IsBytes path
    → Sendable (upload_payload name path time size) out capacity
    → received (build_upload (slice_of name) (slice_of path) time size (some out) capacity true)
      ≡ some (view opcode_upload (upload_payload name path time size))
unfolding build_upload
received-build_upload name path out time size capacity n p s =
    let total = length-upload_payload name path time size in
    received-build_sized opcode_upload (size_of_two (slice_of name) (slice_of path)) _
      (upload_payload name path time size) out capacity (omega arith)
      (size_of_two_lem (length (upload_payload name path time size)) name path total (omega arith))
      (andthen-Writes _ _ (0x00 ∷ 0x01 ∷ []) _ (writer_bytes-Writes (0x00 ∷ 0x01 ∷ [])) (
        andthen-Writes _ _ (lp name) _ (writer_lp-Writes name (omega arith)) (
          andthen-Writes _ _ (le_bytes time) _ (writer_u32_le-Writes time) (
            andthen-Writes _ _ (le_bytes size) _ (writer_u32_le-Writes size) (
              andthen-Writes _ _ (replicate 19 0) (lp path) (writer_zeros-Writes 19)
                (writer_lp-Writes path (omega arith)))))))
      (both (0x00 ∷ 0x01 ∷ []) _ (omega arith, (omega arith, tt))
        (both (lp name) _ (lp-IsBytes name n) (
          both (le_bytes time) _ (le_bytes-IsBytes time) (
            both (le_bytes size) _ (le_bytes-IsBytes size)
              (both (replicate 19 0) (lp path) (zeros-IsBytes 19) (lp-IsBytes path p))))))
      s
