-- ===== src/Protocol/Listing.antt =====
-- The payload of a directory listing, `revlink_ap_parse_listing_payload` of
-- firmware/components/accessport_protocol/revlink_accessport_protocol.c. The source's pointers into the payload
-- are the bytes that they point to.
use revlink_sidecar.Base.{
  ℕ, zero, suc, ◌+◌, ◌-◌, ◌*◌, ◌^◌, ltb, ◌==◌, not, if◌then◌else◌, Bool, ◌&&◌, ◌||◌, Option, none,
  some, ◌>>=◌, List, [], ◌∷◌, take, drop,
}
use revlink_sidecar.Protocol.{ApStatus, ok, invalid_argument, invalid_frame, buffer_too_small, byte}

-- The bytes occupy disjoint bits, so the source's `|` is a sum.
unfoldable pub of_u32_le : List ℕ → ℕ
of_u32_le input =
    byte input 0 + byte input 1 * 2 ^ 8 + byte input 2 * 2 ^ 16 + byte input 3 * 2 ^ 24

-- A length and so many bytes from the offset: the bytes, and the offset behind them.
unfoldable pub read_lp_view : List ℕ → ℕ → ℕ → Option (List ℕ × ℕ)
read_lp_view payload len offset =
    if ltb len offset || ltb (len - offset) 4
    then none
    else if ltb (len - (offset + 4)) (of_u32_le (drop offset payload))
    then none
    else some (
      take (of_u32_le (drop offset payload)) (drop (offset + 4) payload),
      offset + 4 + of_u32_le (drop offset payload),
    )

pub record ListingEntry : Type 0 where
  pub name : List ℕ
  pub device_time_raw : ℕ
  pub size : ℕ
  pub is_directory : Bool
  pub path : List ℕ

-- The first entry has two bytes more between its name and its path.
abbrev pub metadata_length : ℕ → ℕ
metadata_length index = if index == 0 then 27 else 25

-- One round of the loop: the entry, and the offset behind it.
unfoldable pub read_entry : List ℕ → ℕ → ℕ → ℕ → Option (ListingEntry × ℕ)
read_entry payload len index offset = read_lp_view payload len offset >>= (λ name.
    if ltb len name.1 || ltb (len - name.1) (metadata_length index)
    then none
    else read_lp_view payload len (name.1 + metadata_length index) >>= (λ path. some (
      record {
        name = name.0;
        device_time_raw = of_u32_le (drop name.1 payload);
        size = of_u32_le (drop (name.1 + 4) payload);
        is_directory = byte payload (name.1 + metadata_length index - 1) == 0x01;
        path = path.0;
      },
      path.1,
    )))

-- The end of one round: the rest of the loop runs unless the entry could not be read.
abbrev pub after_entry :
    ℕ
    → ℕ
    → (ℕ → Option ℕ × List ListingEntry)
    → Option (ListingEntry × ℕ)
    → Option ℕ × List ListingEntry
after_entry capacity index next none = (none, [])
after_entry capacity index next (some read) =
    let rest = next read.1 in (rest.0, if ltb index capacity then read.0 ∷ rest.1 else rest.1)

-- The loop over so many entries: the offset behind the last, if all could be read, and what was stored in
-- an array of `capacity` entries.
unfoldable pub read_entries : List ℕ → ℕ → ℕ → ℕ → ℕ → ℕ → Option ℕ × List ListingEntry
read_entries payload len capacity zero index offset = (some offset, [])
read_entries payload len capacity (suc count) index offset =
    after_entry capacity index (read_entries payload len capacity count (index + 1))
      (read_entry payload len index offset)

-- The status, the entries that were stored, and what `*entry_count` is set to.
pub record Listed : Type 0 where
  pub status : ApStatus
  pub entries : List ListingEntry
  pub entry_count : Option ℕ

-- The end of the function, after the loop.
abbrev pub finish_listing : ℕ → ℕ → ℕ → Option ℕ × List ListingEntry → Listed
finish_listing len capacity count (none, entries) = record {
  status = invalid_frame;
  entries = entries;
  entry_count = none;
}
finish_listing len capacity count (some offset, entries) =
    if not (offset == len)
    then record { status = invalid_frame; entries = entries; entry_count = none }
    else record {
      status = if ltb capacity count then buffer_too_small else ok;
      entries = entries;
      entry_count = some count;
    }

-- `has_entries` and `has_count` say whether the pointers are not NULL.
unfoldable pub parse_listing : Option (List ℕ) → ℕ → Bool → ℕ → Bool → Listed
parse_listing none len has_entries capacity has_count = record {
  status = invalid_argument;
  entries = [];
  entry_count = none;
}
parse_listing (some payload) len has_entries capacity has_count =
    if not has_count || (ltb 0 capacity && not has_entries)
    then record { status = invalid_argument; entries = []; entry_count = none }
    else if ltb len 8
        || not (byte payload 0 == 0)
        || not (byte payload 1 == 0)
        || not (byte payload 6 == 0)
        || not (byte payload 7 == 0x01)
    then record { status = invalid_frame; entries = []; entry_count = none }
    else finish_listing len capacity (of_u32_le (drop 2 payload))
        (read_entries payload len capacity (of_u32_le (drop 2 payload)) 0 8)
