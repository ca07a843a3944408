-- ===== src/Store/Format/Ec03/Canonical.antt =====
-- What the decoder accepts, the encoder writes: the format has one spelling for each frame.
use editchain.Prelude.{
  ℕ, zero, suc, ◌+◌, ◌-◌, ◌≤◌, ◌≡◌, true, List, [], ◌∷◌, ◌++◌, append_assoc, arith, leb_cases,
  length, length-slice, ◌⊎◌, Result-cases, ◌≢◌, stuck, ok, err, inl, inr, to_le_bytes,
  from_le_bytes, to_le_bytes-eq, slice, slice-one, slice-cut, slice-slice, slice-all, drop,
  drop-eq-slice, refl, sym, ap, ap₂, ◌∙◌, All, All-slice, All-drop, IsByte, bytes_eq→eq,
}
use editchain.Store.Format.Checksum.{Crc, checksum}
use editchain.Store.Format.Records.{Record, FrameError}
use editchain.Store.Format.Ec03.{
  frame_overhead, Ec03Frame, header, array, check_header, check_extent, check_records, new_frame,
  CheckedRecord, FrameRef, scan_record, scan_records, scan_frame, decode_ec03, encode_ec03,
}
use editchain.Store.Format.Ec03.Layout.{
  all_small, count-le, body_length, record_wire, body, head_wire, frame_wire, fits, encode_ec03_lem,
  length-body,
}
use editchain.Store.Format.Ec03.RoundTrip.{read_records-body}
use editchain.Store.Format.Ec03.Scanning.{
  IsRecord, IsFrame, array_cases, array_within, header_arrays, check_header-IsHeader,
  scan_record-IsRecord, scan_frame-IsFrame,
}

module _ ⦃c : Crc⦄ where
  abbrev record_of : CheckedRecord → Record
  record_of r = record { flags = r.flags; data_bytes = r.data_bytes }

  module _ (bytes : List ℕ) (r : CheckedRecord) (h : IsRecord bytes r) (b : All IsByte bytes) where
    size_wire : slice bytes 0 4 ≡ to_le_bytes 4 (length r.data_bytes)
    size_wire = sym (
        to_le_bytes-eq 4 _ _ (All-slice IsByte bytes 0 4 b)
          (length-slice bytes 0 4 (omega arith) (omega arith)) h.size)

    sum_wire : slice bytes (r.len - 4) r.len ≡ to_le_bytes 4 (checksum r.data_bytes)
    sum_wire = sym (
        to_le_bytes-eq 4 _ _ (All-slice IsByte bytes (r.len - 4) r.len b)
          (length-slice bytes (r.len - 4) r.len (omega arith) (omega arith) ∙ omega arith)
          (h.at_sum ∙ sym h.sum))

    flags_wire : drop 4 bytes ≡ r.flags ∷ drop 5 bytes
    flags_wire =
        drop-eq-slice bytes 4 5 (omega arith)
        ∙ ap (λ t. t ++ drop 5 bytes) (slice-one bytes 4 r.flags h.at_flags)

    -- A checked record is the encoding of its flags and data, with the rest of the input behind it.
    record_canonical : bytes ≡ record_wire (record_of r) ++ drop r.len bytes
    unfolding record_wire drop
    record_canonical = simp append_assoc (
        cc (
          drop-eq-slice bytes 0 4 (omega arith),
          flags_wire,
          drop-eq-slice bytes 5 (r.len - 4) (omega arith),
          drop-eq-slice bytes (r.len - 4) r.len (omega arith),
          size_wire,
          h.at_data,
          sum_wire,
        ))

  -- So are all records of a frame.
  pub records_canonical :
      (count : ℕ) (bytes : List ℕ)
      → All IsByte bytes
      → scan_records count bytes ≡ ok []
      → (records : List Record) × (bytes ≡ body records)
        × (length records ≡ count)
        × (all_small records ≡ true)
  unfolding scan_records
  records_canonical zero bytes b h = ([], cc, refl, refl)
  records_canonical (suc count) bytes b h = elim (Result-cases (scan_record bytes)) [
    | inl (r, e) ↦
        let f : IsRecord bytes r = scan_record-IsRecord bytes r e in
        let next : scan_records count (drop r.len bytes) ≡ ok [] = ground (arith, e) in
        let (records, at, size, small) =
          records_canonical count (drop r.len bytes) (All-drop IsByte r.len bytes b) next in
        (
          record_of r ∷ records,
          record_canonical bytes r f b ∙ ap (λ t. record_wire (record_of r) ++ t) at,
          ap suc size,
          ground arith,
        )
    | inr (inl (x, e)) ↦ absurd (ground (arith, e))
    | inr (inr e) ↦ absurd (ground (arith, e))
  ]

  module _ (bytes : List ℕ) (r : FrameRef) (h : IsFrame bytes r) (b : All IsByte bytes) where
    abbrev frame : List ℕ
    frame = slice bytes 0 r.len

    abbrev count : ℕ
    count = from_le_bytes (slice bytes 12 16)

    full : 32 ≤ length bytes
    full = h.head.full

    -- A field of the header, by the number that is read there.
    field :
        (from to n : ℕ)
        → from ≤ to
        → to ≤ 32
        → from_le_bytes (slice bytes from to) ≡ n
        → slice bytes from to ≡ to_le_bytes (to - from) n
    field from to n l m e = sym (
        to_le_bytes-eq (to - from) n _ (All-slice IsByte bytes from to b)
          (length-slice bytes from to l (omega (arith, full))) e)

    header_wire : slice bytes 0 28 ≡ header r.len count r.sequence
    unfolding header
    header_wire =
        slice-cut bytes 0 4 28 (omega arith) (omega arith)
        ∙ ap₂ ◌++◌ (bytes_eq→eq _ _ h.head.starts) (
            slice-cut bytes 4 6 28 (omega arith) (omega arith)
            ∙ ap₂ ◌++◌ (field 4 6 2 (omega arith) (omega arith) h.head.version) (
                slice-cut bytes 6 8 28 (omega arith) (omega arith)
                ∙ ap₂ ◌++◌ (field 6 8 32 (omega arith) (omega arith) h.head.header_size) (
                    slice-cut bytes 8 12 28 (omega arith) (omega arith)
                    ∙ ap₂ ◌++◌ (field 8 12 r.len (omega arith) (omega arith) h.extent.declared) (
                        slice-cut bytes 12 16 28 (omega arith) (omega arith)
                        ∙ ap₂ ◌++◌ (field 12 16 count (omega arith) (omega arith) refl) (
                            slice-cut bytes 16 24 28 (omega arith) (omega arith)
                            ∙ ap₂ ◌++◌
                                (field 16 24 r.sequence (omega arith) (omega arith) h.body.page)
                                (field 24 28 0 (omega arith) (omega arith) h.head.features))))))

    header_checksum : from_le_bytes (slice bytes 28 32) ≡ checksum (header r.len count r.sequence)
    header_checksum =
        sym h.head.header_sum
        ∙ ap checksum (slice-slice bytes 32 0 28 (omega arith) (omega arith) ∙ header_wire)

    head_at :
        slice frame 0 32
        ≡ header r.len count r.sequence ++ to_le_bytes 4 (checksum (header r.len count r.sequence))
    head_at =
        slice-slice bytes r.len 0 32 (omega arith) (omega (arith, h.extent.room))
        ∙ slice-cut bytes 0 28 32 (omega arith) (omega arith)
        ∙ ap₂ ◌++◌ header_wire (
            field 28 32 (checksum (header r.len count r.sequence)) (omega arith) (omega arith)
              header_checksum)

    length-frame : length frame ≡ r.len
    length-frame = length-slice bytes 0 r.len (omega arith) h.extent.whole ∙ omega arith

    frame-IsByte : All IsByte frame
    frame-IsByte = All-slice IsByte bytes 0 r.len b

    trailer_wire :
        slice frame (r.len - 4) r.len ≡ to_le_bytes 4 (checksum (slice frame 0 (r.len - 4)))
    trailer_wire = sym (
        to_le_bytes-eq 4 _ _ (All-slice IsByte frame (r.len - 4) r.len frame-IsByte)
          (length-slice frame (r.len - 4) r.len (omega arith) (omega (arith, length-frame))
            ∙ omega (arith, h.extent.room))
          (sym h.extent.sum))

    frame_parts : frame ≡ slice frame 0 (r.len - 4) ++ slice frame (r.len - 4) r.len
    frame_parts =
        sym (slice-all frame r.len (sym length-frame))
        ∙ slice-cut frame 0 (r.len - 4) r.len (omega arith) (omega arith)

    length-records : length r.records + 36 ≡ r.len
    length-records = omega (
      arith,
      ap (λ (t : List ℕ). length t) h.body.at_records,
      length-slice frame 32 (r.len - 4) (omega (arith, h.extent.room))
          (omega (arith, length-frame)),
      h.extent.room,
    )

    abbrev frame_of : List Record → Ec03Frame
    frame_of records = record { page_sequence = r.sequence; records = records }

    module _ (records : List Record) (at : r.records ≡ body records)
        (size : length records ≡ count) where
      len-eq : frame_overhead + body_length records ≡ r.len
      len-eq = omega (arith, length-records, ap (λ (t : List ℕ). length t) at, length-body records)

      covered-eq : slice frame 0 (r.len - 4) ≡ head_wire (frame_of records) ++ body records
      unfolding head_wire
      covered-eq =
          slice-cut frame 0 32 (r.len - 4) (omega arith) (omega (arith, h.extent.room))
          ∙ ap₂ ◌++◌ (rw (len-eq, size) head_at) (sym h.body.at_records ∙ at)

      frame-eq : frame ≡ frame_wire (frame_of records)
      unfolding frame_wire
      frame-eq =
          frame_parts
          ∙ ap₂ ◌++◌ covered-eq (trailer_wire ∙ ap (λ t. to_le_bytes 4 (checksum t)) covered-eq)

    -- An accepted frame is the layout of some frame within the bounds.
    pub frame_canonical :
        (f : Ec03Frame) × (f.page_sequence ≡ r.sequence)
        × (r.records ≡ body f.records)
        × (fits f ≡ true)
        × (frame_overhead + body_length f.records ≡ r.len)
        × (frame ≡ frame_wire f)
    frame_canonical =
        let (records, at, size, small) =
          records_canonical count r.records
            (rw h.body.at_records (All-slice IsByte frame 32 (r.len - 4) frame-IsByte))
            h.body.counted in
        (
          frame_of records,
          refl,
          at,
          ground (arith, len-eq records at size, h.extent.small, small),
          len-eq records at size,
          frame-eq records at size,
        )

  scan_record-ne-stuck : (bytes : List ℕ) → scan_record bytes ≢ stuck
  unfolding scan_record array
  scan_record-ne-stuck bytes e = ground arith

  scan_records-ne-stuck : (count : ℕ) (bytes : List ℕ) → scan_records count bytes ≢ stuck
  unfolding scan_records
  scan_records-ne-stuck zero bytes e = cc
  scan_records-ne-stuck (suc count) bytes e = elim (Result-cases (scan_record bytes)) [
    | inl (r, p) ↦ ground (arith, p, scan_records-ne-stuck count (drop r.len bytes))
    | inr (inl (x, p)) ↦ ground (arith, p)
    | inr (inr p) ↦ scan_record-ne-stuck bytes p
  ]

  check_header-ne-stuck : (bytes : List ℕ) → check_header bytes ≢ stuck
  unfolding check_header
  check_header-ne-stuck bytes e = elim (leb_cases 32 (length bytes)) [
    | inl full ↦ ground (arith, header_arrays bytes full)
    | inr short ↦ ground (arith, array_cases 4 bytes 0)
  ]

  check_extent-ne-stuck : (bytes : List ℕ) → 32 ≤ length bytes → check_extent bytes ≢ stuck
  unfolding check_extent array
  check_extent-ne-stuck bytes full e = ground arith

  check_records-ne-stuck :
      (bytes : List ℕ) (len : ℕ) (frame : List ℕ)
      → 32 ≤ length bytes
      → check_records bytes len frame ≢ stuck
  unfolding check_records
  check_records-ne-stuck bytes len frame full e = ground (
    arith,
    array_within 4 bytes 12,
    array_within 8 bytes 16,
    scan_records-ne-stuck (from_le_bytes (slice bytes 12 16)) (slice frame 32 (len - 4)),
  )

  pub scan_frame-ne-stuck : (bytes : List ℕ) → scan_frame bytes ≢ stuck
  unfolding scan_frame
  scan_frame-ne-stuck bytes e = elim (Result-cases (check_header bytes)) [
    | inl (u, p) ↦
        let full : 32 ≤ length bytes = (check_header-IsHeader bytes p).full in
        elim (Result-cases (check_extent bytes)) [
          | inl ((len, frame), q) ↦
              ground (arith, p, q, check_records-ne-stuck bytes len frame full)
          | inr (inl (x, q)) ↦ ground (arith, p, q)
          | inr (inr q) ↦ check_extent-ne-stuck bytes full q
        ]
    | inr (inl (x, p)) ↦ ground (arith, p)
    | inr (inr p) ↦ check_header-ne-stuck bytes p
  ]

  decode_layout :
      (bytes : List ℕ) (r : FrameRef) (f : Ec03Frame)
      → scan_frame bytes ≡ ok r
      → f.page_sequence ≡ r.sequence
      → r.records ≡ body f.records
      → fits f ≡ true
      → decode_ec03 bytes ≡ ok f
  unfolding decode_ec03
  decode_layout bytes r f h s at fit = ground (
    arith,
    read_records-body f.records (length (body f.records)) (new_frame f.page_sequence),
    length-body f.records,
    count-le f.records,
  )

  -- A frame that `scan_frame` accepts is decoded, and encodes to the bytes that it took.
  decode_accepted :
      (bytes : List ℕ) (r : FrameRef)
      → All IsByte bytes
      → scan_frame bytes ≡ ok r
      → (f : Ec03Frame) × (decode_ec03 bytes ≡ ok f) × (encode_ec03 f ≡ ok (slice bytes 0 r.len))
  decode_accepted bytes r b h =
      let (f, sequence, at, fit, len, frame) =
        frame_canonical bytes r (scan_frame-IsFrame bytes r h) b in
      (f, decode_layout bytes r f h sequence at fit, encode_ec03_lem f ∙ rw (fit, frame))

  -- Decoding ends on every input: where `scan_frame` accepts the input's front, it returns a frame
  -- that encodes to exactly those bytes, and otherwise it fails with the error of `scan_frame`.
  pub decode_ec03_cases :
      (bytes : List ℕ)
      → All IsByte bytes
      → ((r : FrameRef) × (f : Ec03Frame) × (scan_frame bytes ≡ ok r)
          × (decode_ec03 bytes ≡ ok f)
          × (encode_ec03 f ≡ ok (slice bytes 0 r.len)))
        ⊎ ((e : FrameError) × (scan_frame bytes ≡ err e) × (decode_ec03 bytes ≡ err e))
  decode_ec03_cases bytes b = elim (Result-cases (scan_frame bytes)) [
    | inl (r, h) ↦ let (f, d, e) = decode_accepted bytes r b h in inl (r, f, h, d, e)
    | inr (inl (e, h)) ↦ inr (e, h, unfold decode_ec03 in rw h)
    | inr (inr h) ↦ absurd (scan_frame-ne-stuck bytes h)
  ]
