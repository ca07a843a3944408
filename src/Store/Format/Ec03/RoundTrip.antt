-- ===== src/Store/Format/Ec03/RoundTrip.antt =====
-- `decode_ec03` reads back what `encode_ec03` wrote.
use editchain.Prelude.{
  ℕ, ◌+◌, ◌-◌, ◌≤◌, ◌^◌, sym, zero, suc, get_from, drop-append, take, drop, ◌<◌, ◌≡◌, true, List,
  [], ◌∷◌, ◌++◌, append_assoc, append-nil, arith, length, length-append, ok, to_le_bytes,
  from_le_bytes, length-to_le_bytes, from_le_bytes-to_le_bytes, slice, slice-append,
  slice-append_end, get_elem?, get_elem?-append, refl, ap, u32_mod, ◌∙◌, some,
}
use editchain.Store.Format.Checksum.{Crc, checksum}
use editchain.Store.Format.Records.{max_record_bytes, Record}
use editchain.Store.Format.Ec03.{
  frame_overhead, Ec03Frame, header, array, add_record, new_frame, CheckedRecord, FrameRef,
  scan_record, scan_records, read_records, scan_frame, decode_ec03, encode_ec03,
}
use editchain.Store.Format.Ec03.Layout.{
  all_small, count-le, body_length, record_wire, body, head_wire, frame_wire, fits, encode_ec03_lem,
  length-record_wire, length-body,
}
use editchain.Store.Format.Ec03.Scanning.{
  IsRecord, IsHeader, IsFrame, IsRecord-scan_record, IsFrame-scan_frame,
}

pub from_u32 : (n : ℕ) → n < 2 ^ 32 → from_le_bytes (to_le_bytes 4 n) ≡ n
from_u32 n h = from_le_bytes-to_le_bytes 4 n (omega arith)

module _ ⦃c : Crc⦄ where
  abbrev pub checked : Record → CheckedRecord
  checked r = record {
    flags = r.flags;
    data_bytes = r.data_bytes;
    stored = checksum r.data_bytes;
    len = 9 + length r.data_bytes;
  }

  module _ (r : Record) (rest : List ℕ) (small : length r.data_bytes ≤ max_record_bytes) where
    abbrev len_bytes : List ℕ
    len_bytes = to_le_bytes 4 (length r.data_bytes)

    abbrev sum_bytes : List ℕ
    sum_bytes = to_le_bytes 4 (checksum r.data_bytes)

    wire-at_size :
        record_wire r ++ rest ≡ len_bytes ++ (r.flags ∷ (r.data_bytes ++ (sum_bytes ++ rest)))
    unfolding record_wire
    wire-at_size = simp append_assoc

    wire-at_data :
        record_wire r ++ rest
        ≡ (len_bytes ++ (r.flags ∷ [])) ++ (r.data_bytes ++ (sum_bytes ++ rest))
    unfolding record_wire
    wire-at_data = simp append_assoc

    wire-at_sum :
        record_wire r ++ rest ≡ (len_bytes ++ (r.flags ∷ r.data_bytes)) ++ (sum_bytes ++ rest)
    unfolding record_wire
    wire-at_sum = simp append_assoc

    four : length len_bytes ≡ 4
    four = length-to_le_bytes 4 (length r.data_bytes)

    size_read : slice (record_wire r ++ rest) 0 4 ≡ len_bytes
    size_read = rw wire-at_size (
        slice-append [] len_bytes (r.flags ∷ (r.data_bytes ++ (sum_bytes ++ rest))) 0 4 refl
          (omega (arith, four)))

    flags_read : get_elem? (record_wire r ++ rest) 4 ≡ some r.flags
    flags_read = rw wire-at_size (get_elem?-append len_bytes r.flags _ 4 (omega (arith, four)))

    data_read : slice (record_wire r ++ rest) 5 (9 + length r.data_bytes - 4) ≡ r.data_bytes
    data_read = rw wire-at_data (
        slice-append (len_bytes ++ (r.flags ∷ [])) r.data_bytes (sum_bytes ++ rest) 5 _
          (omega (arith, four, length-append len_bytes (r.flags ∷ [])))
          (omega (arith, four, length-append len_bytes (r.flags ∷ []))))

    sum_read :
        slice (record_wire r ++ rest) (9 + length r.data_bytes - 4) (9 + length r.data_bytes)
        ≡ sum_bytes
    sum_read = rw wire-at_sum (
        slice-append (len_bytes ++ (r.flags ∷ r.data_bytes)) sum_bytes rest _ _
          (omega (arith, four, length-append len_bytes (r.flags ∷ r.data_bytes)))
          (omega (
            arith,
            four,
            length-append len_bytes (r.flags ∷ r.data_bytes),
            length-to_le_bytes 4 (checksum r.data_bytes),
          )))

    record_wire-IsRecord : IsRecord (record_wire r ++ rest) (checked r)
    record_wire-IsRecord = record {
      size = rw size_read (from_u32 _ (omega arith));
      small = small;
      span = omega arith;
      whole = omega (arith, length-append (record_wire r) rest, length-record_wire r);
      at_flags = flags_read;
      at_data = sym data_read;
      at_sum = rw sum_read (from_u32 _ (c.checksum-lt r.data_bytes));
      sum = refl;
    }

    -- Reading a record's bytes gives the record, whatever follows.
    pub scan_record-record_wire : scan_record (record_wire r ++ rest) ≡ ok (checked r)
    scan_record-record_wire = IsRecord-scan_record _ _ record_wire-IsRecord

    get_from-record_wire : get_from (record_wire r ++ rest) (9 + length r.data_bytes) ≡ some rest
    get_from-record_wire = ground (
      arith,
      drop-append (9 + length r.data_bytes) (record_wire r) rest
          (omega (arith, length-record_wire r)),
      length-append (record_wire r) rest,
      length-record_wire r,
    )

  scan_records-body :
      (records : List Record)
      → all_small records ≡ true
      → scan_records (length records) (body records) ≡ ok []
  unfolding scan_records
  scan_records-body [] h = refl
  scan_records-body (r ∷ rest) h = ground (
    arith,
    scan_record-record_wire r (body rest),
    get_from-record_wire r (body rest),
    scan_records-body rest,
  )

  -- One round of the loop of `decode_ec03`.
  pub read_records_step :
      (bytes rest : List ℕ) (fuel : ℕ) (f : Ec03Frame) (r : CheckedRecord)
      → scan_record bytes ≡ ok r
      → get_from bytes r.len ≡ some rest
      → read_records (suc fuel) f bytes ≡ read_records fuel (add_record f r.flags r.data_bytes) rest
  unfolding read_records
  read_records_step [] rest fuel f r h k = unfold scan_record array in cc
  read_records_step (b ∷ bytes) rest fuel f r h k = ground arith

  abbrev pub with_records : Ec03Frame → List Record → Ec03Frame
  with_records f records = record f { records = f.records ++ records }

  pub read_records-body :
      (records : List Record) (fuel : ℕ) (f : Ec03Frame)
      → all_small records ≡ true
      → length records ≤ fuel
      → read_records fuel f (body records) ≡ ok (with_records f records)
  unfolding read_records
  read_records-body [] fuel f h k = ap ok (rw append-nil)
  read_records-body (r ∷ rest) zero f h k = absurd (omega arith)
  read_records-body (r ∷ rest) (suc fuel) f h k =
      read_records_step (record_wire r ++ body rest) (body rest) fuel f (checked r)
        (scan_record-record_wire r (body rest) (ground arith))
        (get_from-record_wire r (body rest) (ground arith))
      ∙ read_records-body rest fuel (add_record f r.flags r.data_bytes) (ground arith) (omega arith)
      ∙ ap ok (simp append_assoc)

  module _ (f : Ec03Frame) (rest : List ℕ) (fit : fits f ≡ true)
      (sequence : f.page_sequence < u32_mod) where
    abbrev pub len : ℕ
    len = frame_overhead + body_length f.records

    abbrev pub front : List ℕ
    front = header len (length f.records) f.page_sequence

    abbrev pub covered : List ℕ
    covered = head_wire f ++ body f.records

    abbrev pub bytes : List ℕ
    bytes = frame_wire f ++ rest

    abbrev pub tail : List ℕ
    tail =
        to_le_bytes 4 (checksum front)
        ++ (body f.records ++ (to_le_bytes 4 (checksum covered) ++ rest))

    bytes-eq : bytes ≡ front ++ tail
    unfolding frame_wire head_wire
    bytes-eq = simp append_assoc

    pub frame_wire-IsHeader : IsHeader bytes
    unfolding slice header to_le_bytes from_le_bytes take drop
    frame_wire-IsHeader = rw bytes-eq (record {
      full = omega arith;
      starts = refl;
      header_sum = sym (from_u32 (checksum front) (c.checksum-lt front));
      version = refl;
      header_size = refl;
      features = refl;
    })

    -- The numbers that the header carries.
    fields_read :
        (from_le_bytes (slice bytes 8 12) ≡ len)
        × (from_le_bytes (slice bytes 12 16) ≡ length f.records)
        × (from_le_bytes (slice bytes 16 24) ≡ f.page_sequence)
    unfolding slice header take drop to_le_bytes
    fields_read = rw bytes-eq (
      from_u32 len (ground arith),
      from_u32 (length f.records) (ground (arith, count-le f.records)),
      from_le_bytes-to_le_bytes 8 f.page_sequence (omega arith),
    )

    length-front : length front ≡ 28
    unfolding header to_le_bytes
    length-front = refl

    pub length-head_wire : length (head_wire f) ≡ 32
    unfolding head_wire
    length-head_wire = omega (
      arith,
      length-append front (to_le_bytes 4 (checksum front)),
      length-front,
      length-to_le_bytes 4 (checksum front),
    )

    length-covered : length covered ≡ len - 4
    length-covered = omega (
      arith,
      length-append (head_wire f) (body f.records),
      length-head_wire,
      length-body f.records,
    )

    pub length-frame_wire : length (frame_wire f) ≡ len
    unfolding frame_wire
    length-frame_wire = omega (
      arith,
      length-append covered (to_le_bytes 4 (checksum covered)),
      length-covered,
      length-to_le_bytes 4 (checksum covered),
    )

    frame_read : slice bytes 0 len ≡ frame_wire f
    frame_read = slice-append [] (frame_wire f) rest 0 len refl (omega (arith, length-frame_wire))

    covered_read : slice (frame_wire f) 0 (len - 4) ≡ covered
    unfolding frame_wire
    covered_read =
        slice-append [] covered (to_le_bytes 4 (checksum covered)) 0 (len - 4) refl
          (omega (arith, length-covered))

    sum_bytes_read : slice (frame_wire f) (len - 4) len ≡ to_le_bytes 4 (checksum covered)
    unfolding frame_wire
    sum_bytes_read =
        slice-append_end covered (to_le_bytes 4 (checksum covered)) (len - 4) len
          (omega (arith, length-covered))
          (omega (arith, length-covered, length-to_le_bytes 4 (checksum covered)))

    body_read : slice (frame_wire f) 32 (len - 4) ≡ body f.records
    unfolding frame_wire
    body_read = rw append_assoc (
        slice-append (head_wire f) (body f.records) (to_le_bytes 4 (checksum covered)) 32 (len - 4)
          (omega (arith, length-head_wire))
          (omega (arith, length-head_wire, length-body f.records)))

    abbrev pub scanned : FrameRef
    scanned = record { sequence = f.page_sequence; len = len; records = body f.records }

    pub wire-IsFrame : IsFrame bytes scanned
    wire-IsFrame = record {
      head = frame_wire-IsHeader;
      extent = rw frame_read (record {
        declared = fields_read.0;
        room = omega arith;
        small = ground arith;
        whole = omega (arith, length-append (frame_wire f) rest, length-frame_wire);
        at_frame = sym frame_read;
        sum =
            rw (covered_read, sum_bytes_read)
              (sym (from_u32 (checksum covered) (c.checksum-lt covered)));
      });
      body = rw frame_read (record {
        same_len = refl;
        at_records = sym body_read;
        room_for_count = omega (arith, fields_read.1, length-body f.records, count-le f.records);
        counted = rw (fields_read.1) (scan_records-body f.records (ground arith));
        page = fields_read.2;
        sequence_fits = sequence;
      });
    }

    pub scan_frame-frame_wire : scan_frame (frame_wire f ++ rest) ≡ ok scanned
    scan_frame-frame_wire = IsFrame-scan_frame _ _ wire-IsFrame

    decode_ec03-frame_wire : decode_ec03 (frame_wire f ++ rest) ≡ ok f
    unfolding decode_ec03
    decode_ec03-frame_wire = rw scan_frame-frame_wire (
        read_records-body f.records (length (body f.records)) (new_frame f.page_sequence)
          (ground arith) (omega (arith, length-body f.records, count-le f.records)))

  -- Decoding the bytes that the encoder wrote for a frame returns the frame, whatever bytes follow.
  pub decode_ec03-encode_ec03 :
      (f : Ec03Frame) (bytes rest : List ℕ)
      → f.page_sequence < u32_mod
      → encode_ec03 f ≡ ok bytes
      → decode_ec03 (bytes ++ rest) ≡ ok f
  decode_ec03-encode_ec03 f bytes rest s h =
      ground (arith, encode_ec03_lem f, decode_ec03-frame_wire f rest)
