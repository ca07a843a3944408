-- ===== src/Store/Format/Ec03/Scanning.antt =====
-- What `scan_record` and `scan_frame` accept, field by field.
use editchain.Prelude.{
  ℕ, ◌+◌, ◌-◌, ◌*◌, ◌/◌, ◌≤◌, ◌<◌, ◌≡◌, List, [], arith, length, slice, get_elem?, get_range, ap,
  some, ok, err, ◌⊎◌, Result-cases, inl, inr, leb_cases, bytes_eq, true, u32_mod, from_le_bytes,
  length-slice,
}
use editchain.Store.Format.Checksum.{Crc, checksum}
use editchain.Store.Format.Records.{max_record_bytes, FrameError}
use editchain.Store.Format.Ec03.{
  magic, header_bytes, check_header, scan_frame, check_extent, check_records, frame_overhead,
  record_overhead, ec03_format_version, max_frame_bytes, array, CheckedRecord, FrameRef,
  scan_record, scan_records,
}

-- Within the address space `array` fails only where the input is too short.
pub array_cases :
    (n : ℕ) (bytes : List ℕ) (offset : ℕ)
    → offset + n < 2 * max_frame_bytes
    → (array n bytes offset ≡ ok (slice bytes offset (offset + n))) × (offset + n ≤ length bytes)
      ⊎ (array n bytes offset ≡ err FrameError.incomplete) × (length bytes < offset + n)
unfolding array
array_cases n bytes offset k = elim (leb_cases (offset + n) (length bytes)) [
  | inl h ↦ inl (ground arith, h)
  | inr h ↦ inr (ground arith, h)
]

pub array_within :
    (n : ℕ) (bytes : List ℕ) (offset : ℕ)
    → offset + n < 2 * max_frame_bytes
    → offset + n ≤ length bytes
    → array n bytes offset ≡ ok (slice bytes offset (offset + n))
array_within n bytes offset k h = ground (arith, array_cases n bytes offset)

module _ ⦃c : Crc⦄ where
  pub record IsRecord (bytes : List ℕ) (r : CheckedRecord) : Type 0 where
    pub size : from_le_bytes (slice bytes 0 4) ≡ length r.data_bytes
    pub small : length r.data_bytes ≤ max_record_bytes
    pub span : r.len ≡ 9 + length r.data_bytes
    pub whole : r.len ≤ length bytes
    pub at_flags : get_elem? bytes 4 ≡ some r.flags
    pub at_data : r.data_bytes ≡ slice bytes 5 (r.len - 4)
    pub at_sum : from_le_bytes (slice bytes (r.len - 4) r.len) ≡ r.stored
    pub sum : checksum r.data_bytes ≡ r.stored

  pub scan_record-IsRecord :
      (bytes : List ℕ) (r : CheckedRecord) → scan_record bytes ≡ ok r → IsRecord bytes r
  unfolding scan_record
  scan_record-IsRecord bytes r h = ground (
    arith,
    array_cases 4 bytes 0,
    array_cases 4 bytes (from_le_bytes (slice bytes 0 4) + 5),
    length-slice bytes 5 (from_le_bytes (slice bytes 0 4) + 5),
  )

  pub IsRecord-scan_record :
      (bytes : List ℕ) (r : CheckedRecord) → IsRecord bytes r → scan_record bytes ≡ ok r
  unfolding scan_record
  IsRecord-scan_record bytes r h =
      ground
        (arith, array_cases 4 bytes 0, array_cases 4 bytes (from_le_bytes (slice bytes 0 4) + 5))

  pub record IsHeader (bytes : List ℕ) : Type 0 where
    pub full : header_bytes ≤ length bytes
    pub starts : bytes_eq (slice bytes 0 4) magic ≡ true
    pub header_sum : checksum (slice (slice bytes 0 32) 0 28) ≡ from_le_bytes (slice bytes 28 32)
    pub version : from_le_bytes (slice bytes 4 6) ≡ ec03_format_version
    pub header_size : from_le_bytes (slice bytes 6 8) ≡ 32
    pub features : from_le_bytes (slice bytes 24 28) ≡ 0

  pub record IsExtent (bytes : List ℕ) (len : ℕ) (frame : List ℕ) : Type 0 where
    pub declared : from_le_bytes (slice bytes 8 12) ≡ len
    pub room : frame_overhead ≤ len
    pub small : len ≤ max_frame_bytes
    pub whole : len ≤ length bytes
    pub at_frame : frame ≡ slice bytes 0 len
    pub sum : checksum (slice frame 0 (len - 4)) ≡ from_le_bytes (slice frame (len - 4) len)

  pub record IsBody (bytes : List ℕ) (len : ℕ) (frame : List ℕ) (r : FrameRef) : Type 0 where
    pub same_len : r.len ≡ len
    pub at_records : r.records ≡ slice frame 32 (len - 4)
    pub room_for_count : from_le_bytes (slice bytes 12 16) ≤ length r.records / record_overhead
    pub counted : scan_records (from_le_bytes (slice bytes 12 16)) r.records ≡ ok []
    pub page : from_le_bytes (slice bytes 16 24) ≡ r.sequence
    pub sequence_fits : r.sequence < u32_mod

  module _ (bytes : List ℕ) where
    check_header-ok-full : check_header bytes ≡ ok tt → 32 ≤ length bytes
    unfolding check_header
    check_header-ok-full h = ground (arith, array_cases 4 bytes 0)

    pub header_arrays :
        32 ≤ length bytes
        → (array 4 bytes 0 ≡ ok (slice bytes 0 4))
          × (array 4 bytes 28 ≡ ok (slice bytes 28 32))
          × (array 2 bytes 4 ≡ ok (slice bytes 4 6))
          × (array 2 bytes 6 ≡ ok (slice bytes 6 8))
          × (array 4 bytes 24 ≡ ok (slice bytes 24 28))
          × (get_range bytes 0 32 ≡ some (slice bytes 0 32))
          × (get_range (slice bytes 0 32) 0 28 ≡ some (slice (slice bytes 0 32) 0 28))
    header_arrays h = (
      array_within 4 bytes 0 (omega arith) (omega arith),
      array_within 4 bytes 28 (omega arith) (omega arith),
      array_within 2 bytes 4 (omega arith) (omega arith),
      array_within 2 bytes 6 (omega arith) (omega arith),
      array_within 4 bytes 24 (omega arith) (omega arith),
      ground arith,
      ground (arith, length-slice bytes 0 32),
    )

    pub check_header-IsHeader : check_header bytes ≡ ok tt → IsHeader bytes
    unfolding check_header
    check_header-IsHeader h = ground (arith, header_arrays (check_header-ok-full h))

    pub IsHeader-check_header : IsHeader bytes → check_header bytes ≡ ok tt
    unfolding check_header
    IsHeader-check_header h = ground (arith, header_arrays h.full)

    module _ (full : 32 ≤ length bytes) where
      pub check_extent-IsExtent :
          (len : ℕ) (frame : List ℕ)
          → check_extent bytes ≡ ok (len, frame)
          → IsExtent bytes len frame
      unfolding check_extent
      check_extent-IsExtent len frame h = ground (
        arith,
        array_within 4 bytes 8,
        array_cases 4 (slice bytes 0 len) (len - 4),
        length-slice bytes 0 len,
      )

      pub IsExtent-check_extent :
          (len : ℕ) (frame : List ℕ)
          → IsExtent bytes len frame
          → check_extent bytes ≡ ok (len, frame)
      unfolding check_extent
      IsExtent-check_extent len frame h = ground (
        arith,
        array_within 4 bytes 8,
        array_within 4 frame (len - 4),
        ap (λ (t : List ℕ). length t) h.at_frame,
        length-slice bytes 0 len,
      )

      module _ (len : ℕ) (frame : List ℕ) (r : FrameRef) where
        pub check_records-IsBody : check_records bytes len frame ≡ ok r → IsBody bytes len frame r
        unfolding check_records
        check_records-IsBody h = ground (arith, array_within 4 bytes 12, array_within 8 bytes 16)

        pub IsBody-check_records :
            36 ≤ len
            → len ≤ length frame
            → IsBody bytes len frame r
            → check_records bytes len frame ≡ ok r
        unfolding check_records
        IsBody-check_records l m h =
            ground (arith, array_within 4 bytes 12, array_within 8 bytes 16)

  -- A frame that `scan_frame` accepts, as facts about its bytes.
  pub record IsFrame (bytes : List ℕ) (r : FrameRef) : Type 0 where
    pub head : IsHeader bytes
    pub extent : IsExtent bytes r.len (slice bytes 0 r.len)
    pub body : IsBody bytes r.len (slice bytes 0 r.len) r

  scan_frame-parts :
      (bytes : List ℕ) (r : FrameRef)
      → scan_frame bytes ≡ ok r
      → (check_header bytes ≡ ok tt)
        × (check_extent bytes ≡ ok (r.len, slice bytes 0 r.len))
        × (check_records bytes r.len (slice bytes 0 r.len) ≡ ok r)
  unfolding scan_frame
  scan_frame-parts bytes r h = elim (Result-cases (check_extent bytes)) [
    | inl ((len, frame), e) ↦ ground (
      arith,
      e,
      check_extent-IsExtent bytes (check_header-ok-full bytes (ground arith)) len frame,
      check_records-IsBody bytes (check_header-ok-full bytes (ground arith)) len frame r,
    )
    | inr (inl (x, e)) ↦ ground (arith, e)
    | inr (inr e) ↦ ground (arith, e)
  ]

  -- `scan_frame` accepts `r` exactly when the bytes at hand are a frame in that sense.
  pub scan_frame-IsFrame :
      (bytes : List ℕ) (r : FrameRef) → scan_frame bytes ≡ ok r → IsFrame bytes r
  scan_frame-IsFrame bytes r h =
      let (a, b, d) = scan_frame-parts bytes r h in
      let head : IsHeader bytes = check_header-IsHeader bytes a in
      record {
        head = head;
        extent = check_extent-IsExtent bytes head.full r.len (slice bytes 0 r.len) b;
        body = check_records-IsBody bytes head.full r.len (slice bytes 0 r.len) r d;
      }

  pub IsFrame-scan_frame :
      (bytes : List ℕ) (r : FrameRef) → IsFrame bytes r → scan_frame bytes ≡ ok r
  unfolding scan_frame
  IsFrame-scan_frame bytes r f = ground (
    arith,
    IsHeader-check_header bytes f.head,
    IsExtent-check_extent bytes f.head.full r.len (slice bytes 0 r.len) f.extent,
    IsBody-check_records bytes f.head.full r.len (slice bytes 0 r.len) r,
    length-slice bytes 0 r.len,
  )
