-- ===== src/Protocol/ListingLaws.antt =====
-- Directory listings are read as they were laid out.
use revlink_sidecar.Base.{
  ℕ, zero, suc, ◌+◌, ◌-◌, ◌/◌, ◌%◌, ◌^◌, ◌≡◌, ◌≤◌, ◌<◌, refl, ap, sym, ◌∙◌, ltb, ◌==◌,
  if◌then◌else◌, Bool, Bool-cases, inl, inr, true, false, ◌&&◌, ◌||◌, Option, none, some, List, [],
  ◌∷◌, ◌++◌, append_assoc, length, length-append, drop, get_or-drop, drop-append_self,
  take-append_self, arith,
}
use revlink_sidecar.Protocol.{ok, invalid_frame, byte}
use revlink_sidecar.Protocol.Listing.{
  of_u32_le, read_lp_view, ListingEntry, metadata_length, read_entry, read_entries, Listed,
  after_entry, finish_listing, parse_listing,
}

drop_nothing : (n : ℕ) → drop {A = ℕ} n [] ≡ []
drop_nothing zero = refl
drop_nothing (suc n) = refl

drop_twice : (m n : ℕ) (xs : List ℕ) → drop (m + n) xs ≡ drop n (drop m xs)
drop_twice zero n xs = let e : 0 + n ≡ n = omega arith in ap (λ k. drop k xs) e
drop_twice (suc m) n [] = drop_nothing (suc m + n) ∙ sym (drop_nothing n)
drop_twice (suc m) n (x ∷ xs) =
    let e : suc m + n ≡ suc (m + n) = omega arith in ap (λ k. drop k (x ∷ xs)) e ∙ drop_twice m n xs

-- What follows a part that stands at an offset.
behind :
    (payload part rest : List ℕ) (offset n : ℕ)
    → drop offset payload ≡ part ++ rest
    → length part ≡ n
    → drop (offset + n) payload ≡ rest
behind payload part rest offset n h l =
    drop_twice offset n payload
    ∙ ap (drop n) h
    ∙ ap (λ k. drop k (part ++ rest)) (sym l)
    ∙ drop-append_self part rest

-- Four bytes of a number, the lowest first.
abbrev pub bytes_le : ℕ → List ℕ
bytes_le v = v % 256 ∷ v / 2 ^ 8 % 256 ∷ v / 2 ^ 16 % 256 ∷ v / 2 ^ 24 % 256 ∷ []

of_u32_le-bytes_le : (v : ℕ) (rest : List ℕ) → v < 2 ^ 32 → of_u32_le (bytes_le v ++ rest) ≡ v
unfolding of_u32_le
of_u32_le-bytes_le v rest h = omega arith

-- A text behind its length.
abbrev pub lp_bytes : List ℕ → List ℕ
lp_bytes value = bytes_le (length value) ++ value

read_lp_view-lp_bytes :
    (payload value rest : List ℕ) (len offset : ℕ)
    → drop offset payload ≡ lp_bytes value ++ rest
    → offset + 4 + length value ≤ len
    → length value < 2 ^ 32
    → read_lp_view payload len offset ≡ some (value, offset + 4 + length value)
unfolding read_lp_view
read_lp_view-lp_bytes payload value rest len offset h fits small =
    let number = ap of_u32_le h ∙ of_u32_le-bytes_le (length value) (value ++ rest) small in
    let text = behind payload (bytes_le (length value)) (value ++ rest) offset 4 h refl in
    let near : (ltb len offset || ltb (len - offset) 4) ≡ false = ground arith in
    let room : ltb (len - (offset + 4)) (length value) ≡ false = ground arith in
    rw (near, number, room, text, take-append_self value rest) refl

-- An entry as it is laid out: the bytes between the size and the flag are not read.
pub record LaidEntry : Type 0 where
  pub entry : ListingEntry
  pub unread : List ℕ
  pub flag : ℕ

pub record IsLaid (index : ℕ) (l : LaidEntry) : Type 0 where
  pub directory : (l.flag == 0x01) ≡ l.entry.is_directory
  pub unread_length : length l.unread ≡ (if index == 0 then 18 else 16)
  pub name_fits : length l.entry.name < 2 ^ 32
  pub path_fits : length l.entry.path < 2 ^ 32
  pub time_fits : l.entry.device_time_raw < 2 ^ 32
  pub size_fits : l.entry.size < 2 ^ 32

-- The metadata between an entry's name and its path.
abbrev pub metadata : LaidEntry → List ℕ
metadata l =
    bytes_le l.entry.device_time_raw ++ (bytes_le l.entry.size ++ (l.unread ++ l.flag ∷ []))

abbrev pub entry_bytes : LaidEntry → List ℕ → List ℕ
entry_bytes l rest =
    bytes_le (length l.entry.name)
    ++ (l.entry.name ++ (metadata l ++ (bytes_le (length l.entry.path) ++ (l.entry.path ++ rest))))

abbrev pub entry_end : ℕ → ℕ → LaidEntry → ℕ
entry_end index offset l =
    offset + 4 + length l.entry.name + metadata_length index + 4 + length l.entry.path

unread-metadata_length :
    (index : ℕ) (l : LaidEntry) → IsLaid index l → length l.unread + 9 ≡ metadata_length index
unread-metadata_length index l h =
    let u = h.unread_length in
    elim (Bool-cases (index == 0)) [
      | inl first ↦ let n = rw first at u in rw first (ap (λ k. k + 9) n)
      | inr later ↦ let n = rw later at u in rw later (ap (λ k. k + 9) n)
    ]

length-metadata :
    (index : ℕ) (l : LaidEntry) → IsLaid index l → length (metadata l) ≡ metadata_length index
length-metadata index l h =
    let e = length-append l.unread (l.flag ∷ []) in
    let u = unread-metadata_length index l h in omega arith

-- The flag is the metadata's last byte.
flag_read :
    (payload rest : List ℕ) (offset index : ℕ) (l : LaidEntry)
    → IsLaid index l
    → drop offset payload ≡ metadata l ++ rest
    → byte payload (offset + metadata_length index - 1) ≡ l.flag
flag_read payload rest offset index l h p =
    let before = bytes_le l.entry.device_time_raw ++ (bytes_le l.entry.size ++ l.unread) in
    let laid =
      p
      ∙ ap (λ r. bytes_le l.entry.device_time_raw ++ (bytes_le l.entry.size ++ r))
          (append_assoc l.unread (l.flag ∷ []) rest) in
    let u = unread-metadata_length index l h in
    let n = metadata_length index - 1 in
    let at = behind payload before (l.flag ∷ rest) offset n laid (omega arith) in
    let k : offset + metadata_length index - 1 ≡ offset + n + 0 = omega arith in
    ap (byte payload) k ∙ sym (get_or-drop (offset + n) 0 payload 0) ∙ ap (λ r. byte r 0) at

read_entry-entry_bytes :
    (payload rest : List ℕ) (len index offset : ℕ) (l : LaidEntry)
    → IsLaid index l
    → drop offset payload ≡ entry_bytes l rest
    → entry_end index offset l ≤ len
    → (read_entry payload len index offset ≡ some (l.entry, entry_end index offset l))
      × (drop (entry_end index offset l) payload ≡ rest)
unfolding read_entry
read_entry-entry_bytes payload rest len index offset l h p fits =
    let name = l.entry.name in
    let path = l.entry.path in
    let behind_path = bytes_le (length path) ++ (path ++ rest) in
    let o1 = offset + 4 + length name in
    let o2 = o1 + metadata_length index in
    let q1 =
      behind payload (bytes_le (length name)) (name ++ (metadata l ++ behind_path)) offset 4 p
        refl in
    let q2 = behind payload name (metadata l ++ behind_path) (offset + 4) (length name) q1 refl in
    let q3 =
      behind payload (metadata l) behind_path o1 (metadata_length index) q2
        (length-metadata index l h) in
    let q4 = behind payload (bytes_le (length path)) (path ++ rest) o2 4 q3 refl in
    let q5 = behind payload path rest (o2 + 4) (length path) q4 refl in
    let first =
      read_lp_view-lp_bytes payload name (metadata l ++ behind_path) len offset p (omega arith)
        h.name_fits in
    let second = read_lp_view-lp_bytes payload path rest len o2 q3 fits h.path_fits in
    let near : (ltb len o1 || ltb (len - o1) (metadata_length index)) ≡ false = ground arith in
    let after_time = (bytes_le l.entry.size ++ (l.unread ++ l.flag ∷ [])) ++ behind_path in
    let after_size = (l.unread ++ l.flag ∷ []) ++ behind_path in
    let time =
      ap of_u32_le q2 ∙ of_u32_le-bytes_le l.entry.device_time_raw after_time h.time_fits in
    let q6 = behind payload (bytes_le l.entry.device_time_raw) after_time o1 4 q2 refl in
    let size = ap of_u32_le q6 ∙ of_u32_le-bytes_le l.entry.size after_size h.size_fits in
    let flag = flag_read payload behind_path o1 index l h q2 in
    (rw (first, near, second, time, size, flag, h.directory) refl, q5)

-- The entries one after the other, the first of them with the given index.
abbrev pub entries_bytes : List LaidEntry → List ℕ
entries_bytes [] = []
entries_bytes (l ∷ ls) = entry_bytes l (entries_bytes ls)

abbrev pub IsLaidFrom : ℕ → List LaidEntry → Type 0
IsLaidFrom index [] = Unit
IsLaidFrom index (l ∷ ls) = IsLaid index l × IsLaidFrom (index + 1) ls

abbrev pub laid_entries : List LaidEntry → List ListingEntry
laid_entries [] = []
laid_entries (l ∷ ls) = l.entry ∷ laid_entries ls

length-entry_bytes :
    (index : ℕ) (l : LaidEntry) (rest : List ℕ)
    → IsLaid index l
    → length (entry_bytes l rest) ≡ entry_end index 0 l + length rest
length-entry_bytes index l rest h =
    let path = length-append l.entry.path rest in
    let middle =
      length-append (metadata l) (bytes_le (length l.entry.path) ++ (l.entry.path ++ rest)) in
    let name =
      length-append l.entry.name
        (metadata l ++ (bytes_le (length l.entry.path) ++ (l.entry.path ++ rest))) in
    let m = length-metadata index l h in omega arith

after_entry_stored :
    (capacity index : ℕ) (next : ℕ → Option ℕ × List ListingEntry) (e : ListingEntry) (o : ℕ)
    → ltb index capacity ≡ true
    → after_entry capacity index next (some (e, o)) ≡ ((next o).0, e ∷ (next o).1)
after_entry_stored capacity index next e o h =
    ap (λ b. ((next o).0, if b then e ∷ (next o).1 else (next o).1)) h

-- The end of a loop that read the payload to its end.
finish_listing_whole :
    (len capacity count : ℕ) (entries : List ListingEntry)
    → count ≤ capacity
    → finish_listing len capacity count (some len, entries)
      ≡ record { status = ok; entries = entries; entry_count = some count }
finish_listing_whole len capacity count entries h =
    let whole : (len == len) ≡ true = ground arith in
    let full : ltb capacity count ≡ false = ground arith in rw (whole, full) refl

-- Guards that all pass.
unless_either {ℓ} :
    {A : Type ℓ} (g k : Bool) (x y z : A)
    → g ≡ false
    → k ≡ false
    → (if g then x else if k then y else z) ≡ z
unless_either true k x y z h i = absurd cc
unless_either false true x y z h i = absurd cc
unless_either false false x y z h i = refl

read_entries-entries_bytes :
    (payload : List ℕ) (len capacity index offset : ℕ) (ls : List LaidEntry)
    → IsLaidFrom index ls
    → drop offset payload ≡ entries_bytes ls
    → offset + length (entries_bytes ls) ≡ len
    → index + length ls ≤ capacity
    → read_entries payload len capacity (length ls) index offset ≡ (some len, laid_entries ls)
unfolding read_entries
read_entries-entries_bytes payload len capacity index offset [] h p fits room =
    ap (λ n. (some n, [])) (omega arith)
read_entries-entries_bytes payload len capacity index offset (l ∷ ls) h p fits room =
    let next = read_entries payload len capacity (length ls) (index + 1) in
    let size = length-entry_bytes index l (entries_bytes ls) h.0 in
    let first =
      read_entry-entry_bytes payload (entries_bytes ls) len index offset l h.0 p (omega arith) in
    let rest =
      read_entries-entries_bytes payload len capacity (index + 1) (entry_end index offset l) ls h.1
        first.1 (omega arith) (omega arith) in
    let stored : ltb index capacity ≡ true = ground arith in
    ap (after_entry capacity index next) first.0
    ∙ after_entry_stored capacity index next l.entry (entry_end index offset l) stored
    ∙ ap (λ r. (r.0, l.entry ∷ r.1)) rest

-- The payload of a listing.
abbrev pub listing_bytes : List LaidEntry → List ℕ
listing_bytes ls = 0 ∷ 0 ∷ (bytes_le (length ls) ++ (0 ∷ 0x01 ∷ entries_bytes ls))

-- A listing that is laid out as a payload, with any bytes in the parts of the entries that are not read, is
-- parsed to its entries, in their order, where the array has room for all of them.
pub parse_listing-listing_bytes :
    (ls : List LaidEntry) (capacity : ℕ)
    → IsLaidFrom 0 ls
    → length ls ≤ capacity
    → length ls < 2 ^ 32
    → parse_listing (some (listing_bytes ls)) (length (listing_bytes ls)) true capacity true
      ≡ record { status = ok; entries = laid_entries ls; entry_count = some (length ls) }
unfolding parse_listing
parse_listing-listing_bytes ls capacity h room small =
    let payload = listing_bytes ls in
    let len = length payload in
    let body = read_entries payload len capacity in
    let count = of_u32_le-bytes_le (length ls) (0 ∷ 0x01 ∷ entries_bytes ls) small in
    let long : ltb len 8 ≡ false = ground arith in
    let none_missing : (ltb 0 capacity && false) ≡ false = ground arith in
    let loop =
      read_entries-entries_bytes payload len capacity 0 8 ls h refl (omega arith) (omega arith) in
    let refused : Listed = record { status = invalid_frame; entries = []; entry_count = none } in
    unless_either (ltb 0 capacity && false) (ltb len 8 || false || false || false || false) _
      refused _ none_missing (ground arith)
    ∙ ap (λ n. finish_listing len capacity n (body n 0 8)) count
    ∙ ap (finish_listing len capacity (length ls)) loop
    ∙ finish_listing_whole len capacity (length ls) (laid_entries ls) room
