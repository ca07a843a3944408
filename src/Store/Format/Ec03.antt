-- ===== src/Store/Format/Ec03.antt =====
-- crates/editchain-store/src/format/ec03.rs: EC03 version 2 frames. A byte slice is a list of
-- numbers; `usize` has 64 bits, so `usize::try_from` of a `u32` is the identity.
pub mod Scanning
pub mod Layout
pub mod RoundTrip
pub mod Canonical
pub mod Truncation
use editchain.Prelude.{
  ℕ, zero, suc, ◌+◌, ◌-◌, ◌*◌, ◌/◌, not, ◌||◌, List, [], ◌∷◌, ◌++◌, ltb, ◌==◌, bytes_eq, length,
  is_empty, get_elem?, get_range, get_from, Result, ok, stuck, ◌>>=◌, ◌>>◌, fail_if, ok_or, map_err,
  saturating_add, checked_add, checked_add_32, u32_try_from, to_le_bytes, from_le_bytes,
}
use editchain.Store.Format.Checksum.{Crc, checksum}
use editchain.Store.Format.Records.{max_record_bytes, Record, FrameError}

abbrev pub magic : List ℕ
magic = 0x45 ∷ 0x43 ∷ 0x30 ∷ 0x33 ∷ []

abbrev pub ec03_format_version : ℕ
ec03_format_version = 2

abbrev pub max_frame_bytes : ℕ
max_frame_bytes = 128 * 1024 * 1024

abbrev pub header_bytes : ℕ
header_bytes = 32

abbrev pub frame_overhead : ℕ
frame_overhead = header_bytes + 4

abbrev pub record_overhead : ℕ
record_overhead = 9

pub record Ec03Frame : Type 0 where
  pub page_sequence : ℕ
  pub records : List Record

abbrev pub new_frame : ℕ → Ec03Frame
new_frame page_sequence = record { page_sequence = page_sequence; records = [] }

abbrev pub add_record : Ec03Frame → ℕ → List ℕ → Ec03Frame
add_record frame flags bytes = record frame {
  records = frame.records ++ (record { flags = flags; data_bytes = bytes } ∷ []);
}

-- `array::<N>(bytes, offset)`
unfoldable pub array : ℕ → List ℕ → ℕ → Result FrameError (List ℕ)
array n bytes offset =
    ok_or (get_range bytes offset (saturating_add offset n)) FrameError.incomplete

-- The first loop of `encode_records`: the frame's length and the number of records.
pub sized_step : ℕ → ℕ → Record → Result FrameError (ℕ × ℕ)
sized_step len count r = do
  n ← ok_or (u32_try_from (length r.data_bytes)) FrameError.length
  fail_if (ltb max_record_bytes n) FrameError.length
  len ← ok_or (checked_add len record_overhead) FrameError.length
  len ← ok_or (checked_add len (length r.data_bytes)) FrameError.length
  count ← ok_or (checked_add_32 count 1) FrameError.length
  ok (len, count)

pub sized : ℕ → ℕ → List Record → Result FrameError (ℕ × ℕ)
sized len count [] = ok (len, count)
sized len count (r ∷ rest) = do (len, count) ← sized_step len count r; sized len count rest

-- The header up to its checksum.
unfoldable pub header : ℕ → ℕ → ℕ → List ℕ
header frame_length count sequence =
    magic
    ++ (to_le_bytes 2 ec03_format_version
        ++ (to_le_bytes 2 32
            ++ (to_le_bytes 4 frame_length
                ++ (to_le_bytes 4 count ++ (to_le_bytes 8 sequence ++ to_le_bytes 4 0)))))

-- What `scan_record` and `scan_frame` hand on: parts of the input that have passed every check.
pub record CheckedRecord : Type 0 where
  pub flags : ℕ
  pub data_bytes : List ℕ
  pub stored : ℕ
  pub len : ℕ

pub record FrameRef : Type 0 where
  pub sequence : ℕ
  pub len : ℕ
  pub records : List ℕ

module _ ⦃c : Crc⦄ where
  -- The second loop of `encode_records`.
  pub put_records : List ℕ → List Record → Result FrameError (List ℕ)
  put_records bytes [] = ok bytes
  put_records bytes (r ∷ rest) = do
    n ← ok_or (u32_try_from (length r.data_bytes)) FrameError.length
    let bytes = bytes ++ to_le_bytes 4 n
    let bytes = bytes ++ (r.flags ∷ [])
    let bytes = bytes ++ r.data_bytes
    let bytes = bytes ++ to_le_bytes 4 (checksum r.data_bytes)
    put_records bytes rest

  pub encode_records : ℕ → List Record → Result FrameError (List ℕ)
  encode_records sequence records = do
    (len, count) ← sized frame_overhead 0 records
    frame_length ← ok_or (u32_try_from len) FrameError.length
    fail_if (ltb max_frame_bytes frame_length) FrameError.length
    let bytes = header frame_length count sequence
    let bytes = bytes ++ to_le_bytes 4 (checksum bytes)
    bytes ← put_records bytes records
    ok (bytes ++ to_le_bytes 4 (checksum bytes))

  pub encode_ec03 : Ec03Frame → Result FrameError (List ℕ)
  encode_ec03 frame = encode_records frame.page_sequence frame.records

  pub scan_record : List ℕ → Result FrameError CheckedRecord
  scan_record bytes = do
    prefix ← array 4 bytes 0
    let len = from_le_bytes prefix
    fail_if (ltb max_record_bytes len) FrameError.length
    let end = saturating_add len 5
    payload ← ok_or (get_range bytes 5 end) FrameError.length
    flags ← ok_or (get_elem? bytes 4) FrameError.length
    suffix ← map_err (λ _. FrameError.length) (array 4 bytes end)
    let stored = from_le_bytes suffix
    fail_if (not (checksum payload == stored)) FrameError.checksum
    ok (record { flags = flags; data_bytes = payload; stored = stored; len = saturating_add end 4 })

  -- `for _ in 0..count` of `scan_frame`.
  pub scan_records : ℕ → List ℕ → Result FrameError (List ℕ)
  scan_records zero remaining = ok remaining
  scan_records (suc count) remaining = do
    r ← scan_record remaining
    remaining ← ok_or (get_from remaining r.len) FrameError.length
    scan_records count remaining

  -- `scan_frame` in three parts: the header, the extent of the frame, and its records.
  pub check_header : List ℕ → Result FrameError (Unit {0})
  check_header bytes = do
    prefix ← array 4 bytes 0
    fail_if (not (bytes_eq prefix magic)) FrameError.magic
    front ← ok_or (get_range bytes 0 header_bytes) FrameError.incomplete
    checked ← ok_or (get_range front 0 28) FrameError.length
    stored ← array 4 bytes 28
    fail_if (not (checksum checked == from_le_bytes stored)) FrameError.checksum
    version ← array 2 bytes 4
    fail_if (not (from_le_bytes version == ec03_format_version)) FrameError.unsupported
    header_size ← array 2 bytes 6
    fail_if (not (from_le_bytes header_size == 32)) FrameError.unsupported
    features ← array 4 bytes 24
    fail_if (not (from_le_bytes features == 0)) FrameError.unsupported

  -- The declared length and the frame that it delimits.
  pub check_extent : List ℕ → Result FrameError (ℕ × List ℕ)
  check_extent bytes = do
    declared ← array 4 bytes 8
    let len = from_le_bytes declared
    fail_if (ltb max_frame_bytes len || ltb len frame_overhead) FrameError.length
    frame ← ok_or (get_range bytes 0 len) FrameError.incomplete
    let end = len - 4
    covered ← ok_or (get_range frame 0 end) FrameError.length
    stored ← array 4 frame end
    fail_if (not (checksum covered == from_le_bytes stored)) FrameError.checksum
    ok (len, frame)

  pub check_records : List ℕ → ℕ → List ℕ → Result FrameError FrameRef
  check_records bytes len frame = do
    records ← ok_or (get_range frame header_bytes (len - 4)) FrameError.length
    count ← array 4 bytes 12
    fail_if (ltb (length records / record_overhead) (from_le_bytes count)) FrameError.length
    remaining ← scan_records (from_le_bytes count) records
    fail_if (not (is_empty remaining)) FrameError.length
    page ← array 8 bytes 16
    sequence ← ok_or (u32_try_from (from_le_bytes page)) FrameError.length
    ok (record { sequence = sequence; len = len; records = records })

  pub scan_frame : List ℕ → Result FrameError FrameRef
  scan_frame bytes = do
    check_header bytes
    (len, frame) ← check_extent bytes
    check_records bytes len frame

  -- `while !remaining.is_empty()` of `decode_ec03`, on fuel.
  pub read_records : ℕ → Ec03Frame → List ℕ → Result FrameError Ec03Frame
  read_records fuel result [] = ok result
  read_records zero result (b ∷ bs) = stuck
  read_records (suc fuel) result (b ∷ bs) = do
    r ← scan_record (b ∷ bs)
    remaining ← ok_or (get_from (b ∷ bs) r.len) FrameError.length
    read_records fuel (add_record result r.flags r.data_bytes) remaining

  -- A record takes nine bytes at least, so a round for each byte is enough.
  pub decode_ec03 : List ℕ → Result FrameError Ec03Frame
  decode_ec03 bytes = do
    frame ← scan_frame bytes
    read_records (length frame.records) (new_frame frame.sequence) frame.records
