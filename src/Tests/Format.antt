-- ===== src/Tests/Format.antt =====
-- Runs and examples of the durable formats, with a checksum that stands in for CRC32C.
use editchain.Prelude.{
  ℕ, ◌+◌, ◌*◌, ◌%◌, ◌^◌, ◌≤◌, ◌<◌, ◌≡◌, ◌⊎◌, List, [], ◌∷◌, ◌++◌, refl, arith, length, slice, drop,
  ok, err, to_le_bytes,
}
use editchain.Store.Format.Checksum.{Crc}
use editchain.Store.Format.Records.{FrameError}
use editchain.Store.Format.Ec03.{Ec03Frame, FrameRef, header, scan_frame, decode_ec03, encode_ec03}
use editchain.Store.Format.Ec03.Layout.{frame_wire, head_wire, record_wire, encode_ec03_lem}
use editchain.Store.Format.Ec03.RoundTrip.{decode_ec03-encode_ec03}
use editchain.Store.Format.Ec03.Canonical.{decode_ec03_cases}
use editchain.Store.Format.Ec03.Truncation.{scan_frame_interrupted}
use editchain.Store.Format.Scan.{collect, new}
use editchain.Store.Format.Scan.Segments.{
  IsEncodable, segment_items, segment_wire, between, stopped, incomplete_at, collect-segment_wire,
  collect_interrupted,
}
use editchain.Store.Format.Page.{Page, encode_page, decode_page, new_page}
use editchain.Store.Format.Page.RoundTrip as Wire
use editchain.Store.Format.Page.RoundTrip.{IsCut, encode_page_lem, decode_page-encode_page}

abbrev digest : List ℕ → ℕ
digest [] = 1
digest (b ∷ bs) = (b + 31 * digest bs) % 2 ^ 32

digest-lt : (bytes : List ℕ) → digest bytes < 2 ^ 32
digest-lt [] = omega arith
digest-lt (b ∷ bs) = omega arith

instance abbrev digest_crc : Crc
digest_crc = record { checksum = digest; checksum-lt = digest-lt }

abbrev two_records : Ec03Frame
two_records = record {
  page_sequence = 7;
  records =
      record { flags = 1; data_bytes = 1 ∷ 2 ∷ 3 ∷ [] }
      ∷ record { flags = 0; data_bytes = [] }
      ∷ [];
}

abbrev no_records : Ec03Frame
no_records = record { page_sequence = 8; records = [] }

abbrev no_records_bytes : List ℕ
no_records_bytes =
    0x45 ∷ 0x43 ∷ 0x30 ∷ 0x33 ∷ 2 ∷ 0 ∷ 32 ∷ 0 ∷ 36 ∷ 0 ∷ 0 ∷ 0 ∷ 0 ∷ 0 ∷ 0 ∷ 0 ∷ 8 ∷ 0 ∷ 0 ∷ 0 ∷ 0
    ∷ 0 ∷ 0 ∷ 0 ∷ 0 ∷ 0 ∷ 0 ∷ 0 ∷ 78 ∷ 243 ∷ 57 ∷ 37 ∷ 189 ∷ 35 ∷ 206 ∷ 10 ∷ []

no_records_encoded : encode_ec03 no_records ≡ ok no_records_bytes
unfolding frame_wire head_wire header to_le_bytes record_wire
no_records_encoded = encode_ec03_lem no_records

two_records_encoded : encode_ec03 two_records ≡ ok (frame_wire two_records)
two_records_encoded = encode_ec03_lem two_records

decode_ec03-encode_ec03_example : decode_ec03 (frame_wire two_records ++ (9 ∷ [])) ≡ ok two_records
decode_ec03-encode_ec03_example =
    decode_ec03-encode_ec03 two_records (frame_wire two_records) (9 ∷ []) (omega arith)
      (encode_ec03_lem two_records)

decode_ec03_cases_example :
    ((r : FrameRef) × (f : Ec03Frame) × (scan_frame no_records_bytes ≡ ok r)
      × (decode_ec03 no_records_bytes ≡ ok f)
      × (encode_ec03 f ≡ ok (slice no_records_bytes 0 r.len)))
    ⊎ ((e : FrameError) × (scan_frame no_records_bytes ≡ err e)
        × (decode_ec03 no_records_bytes ≡ err e))
decode_ec03_cases_example = decode_ec03_cases no_records_bytes (omega arith)

abbrev cut_bytes : List ℕ
cut_bytes = 0x45 ∷ 0x43 ∷ 0x30 ∷ 0x33 ∷ 2 ∷ 0 ∷ []

abbrev cut_off : List ℕ
unfolding drop
cut_off = drop 7 no_records_bytes

scan_frame_interrupted_example :
    (scan_frame cut_bytes ≡ err FrameError.incomplete)
    × (decode_ec03 cut_bytes ≡ err FrameError.incomplete)
unfolding drop
scan_frame_interrupted_example =
    scan_frame_interrupted no_records cut_bytes 32 cut_off (omega arith) no_records_encoded

two_records-IsEncodable : IsEncodable two_records
two_records-IsEncodable = record { fit = refl; sequence = omega arith }

no_records-IsEncodable : IsEncodable no_records
no_records-IsEncodable = record { fit = refl; sequence = omega arith }

abbrev segment : List Ec03Frame
segment = two_records ∷ no_records ∷ []

segment_fits : length (segment_wire segment) ≤ 1000
unfolding frame_wire head_wire header to_le_bytes record_wire
segment_fits = omega arith

collect-segment_wire_example :
    collect 6 (new (segment_wire segment))
    ≡ (segment_items 0 segment, between (segment_wire segment) (length (segment_wire segment)))
collect-segment_wire_example =
    collect-segment_wire segment 6 (two_records-IsEncodable, (no_records-IsEncodable, tt))
      (omega (arith, segment_fits)) (omega arith)

no_records_cut : frame_wire no_records ≡ cut_bytes ++ (32 ∷ cut_off)
unfolding frame_wire head_wire header to_le_bytes record_wire drop
no_records_cut = refl

interrupted_fits : length (segment_wire segment ++ cut_bytes) ≤ 1000
unfolding frame_wire head_wire header to_le_bytes record_wire
interrupted_fits = omega arith

collect_interrupted_example : collect 7 (new (segment_wire segment ++ cut_bytes)) ≡ (
  segment_items 0 segment ++ (incomplete_at (length (segment_wire segment)) ∷ []),
  stopped (segment_wire segment ++ cut_bytes) (length (segment_wire segment)),
)
collect_interrupted_example =
    collect_interrupted no_records cut_bytes 32 cut_off no_records-IsEncodable no_records_cut
      segment 7 (two_records-IsEncodable, (no_records-IsEncodable, tt)) (omega arith)
      (omega (arith, interrupted_fits)) (omega arith)

abbrev one_record : Page
one_record = record (new_page 3) { records = record { flags = 1; data_bytes = 5 ∷ 6 ∷ [] } ∷ [] }

abbrev one_record_bytes : List ℕ
one_record_bytes = 0x45 ∷ 0x43 ∷ 0x30 ∷ 0x32 ∷ 3 ∷ 0 ∷ 0 ∷ 0 ∷ 2 ∷ 0 ∷ 0 ∷ 0 ∷ 1 ∷ 5 ∷ 6 ∷ []

one_record_encoded : encode_page one_record ≡ ok one_record_bytes
unfolding Wire.record_wire to_le_bytes
one_record_encoded = encode_page_lem one_record

half_record : IsCut (2 ∷ 0 ∷ 0 ∷ 0 ∷ 9 ∷ [])
unfolding Wire.record_wire to_le_bytes
half_record =
    IsCut.part (record { flags = 9; data_bytes = 7 ∷ 7 ∷ [] }) 7 (7 ∷ []) (omega arith) refl

decode_page-encode_page_example :
    decode_page (one_record_bytes ++ (2 ∷ 0 ∷ 0 ∷ 0 ∷ 9 ∷ [])) ≡ ok one_record
decode_page-encode_page_example =
    decode_page-encode_page one_record one_record_bytes (2 ∷ 0 ∷ 0 ∷ 0 ∷ 9 ∷ []) (omega arith)
      one_record_encoded half_record (omega arith)
