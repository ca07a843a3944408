-- ===== src/Store/Format/Scan.antt =====
-- crates/editchain-store/src/format/scan.rs: the scanner that all segment readers share. It walks
-- EC02 pages and EC03 frames in one pass, and says where each record stands.
pub mod Segments
use editchain.Prelude.{
  ℕ, zero, suc, ◌-◌, Bool, true, false, ◌&&◌, ◌||◌, Option, none, some, List, [], ◌∷◌, ltb, leb,
  ◌==◌, if◌then◌else◌, bytes_eq, length, is_empty, get_elem?, drop, get_range, Result, ok, err,
  stuck, saturating_add, from_le_bytes,
}
use editchain.Store.Format.Checksum.{Crc}
use editchain.Store.Format.Records.{max_record_bytes, FrameError}
use editchain.Store.Format.Ec03.{header_bytes, CheckedRecord, FrameRef, scan_record, scan_frame}
use editchain.Store.Format.Ec03

-- `PAGE_MAGIC` of page.rs, "EC02".
abbrev pub page_magic : List ℕ
page_magic = 0x45 ∷ 0x43 ∷ 0x30 ∷ 0x32 ∷ []

pub record RecordRef : Type 0 where
  pub page_sequence : ℕ
  pub offset : ℕ
  pub data_offset : ℕ
  pub flags : ℕ
  pub data_bytes : List ℕ
  pub checksum : Option ℕ

pub data ScanItem : Type 0 where
  page : ℕ → ℕ → ScanItem
  record_ref : RecordRef → ScanItem

pub data ScanErrorKind : Type 0 where
  incomplete_tail invalid_magic : ScanErrorKind
  unsupported_format : List ℕ → ScanErrorKind
  record_too_large : ℕ → ScanErrorKind
  frame : FrameError → ScanErrorKind

pub record ScanError : Type 0 where
  pub offset : ℕ
  pub kind : ScanErrorKind

pub record PageScanner : Type 0 where
  pub bytes : List ℕ
  pub offset : ℕ
  pub page_sequence : Option ℕ
  pub frame_end : Option ℕ
  pub finished : Bool

abbrev pub resume : List ℕ → Option ℕ → PageScanner
resume bytes page_sequence = record {
  bytes = bytes;
  offset = 0;
  page_sequence = page_sequence;
  frame_end = none;
  finished = false;
}

abbrev pub new : List ℕ → PageScanner
new bytes = resume bytes none

abbrev pub consumed : PageScanner → ℕ
consumed s = s.offset

-- A step returns the new state beside its item or error.
abbrev pub Step : Type 0
Step = PageScanner × Result ScanError ScanItem

abbrev pub fail : PageScanner → ScanErrorKind → Step
fail s kind = (s, err (record { offset = s.offset; kind = kind }))

-- `Option::unwrap_or_default` of a number.
abbrev pub unwrap_or_default : Option ℕ → ℕ
unwrap_or_default none = 0
unwrap_or_default (some n) = n

abbrev pub is_digit : ℕ → Bool
is_digit b = leb b'0' b && leb b b'9'

-- `[b'E', b'C', b'0'..=b'9', b'0'..=b'9']`
abbrev pub is_marker : List ℕ → Bool
is_marker (e ∷ c ∷ x ∷ y ∷ []) = e == b'E' && (c == b'C' && (is_digit x && is_digit y))
is_marker _ = false

-- The record of a frame that starts at the scanner's offset. After the last one the scanner stands
-- behind the frame's checksum, outside of any page.
unfoldable pub after_record : PageScanner → ℕ → ℕ → PageScanner
after_record s offset end =
    if offset == end - 4
    then record s { offset = end; frame_end = none; page_sequence = none }
    else record s { offset = offset }

module _ ⦃c : Crc⦄ where
  unfoldable pub checked_item : PageScanner → ℕ → Result FrameError CheckedRecord → Step
  checked_item s end (err e) = fail s (ScanErrorKind.frame e)
  checked_item s end stuck = (s, stuck)
  checked_item s end (ok r) = (
    after_record s (saturating_add s.offset r.len) end,
    ok (
        ScanItem.record_ref (record {
          page_sequence = unwrap_or_default s.page_sequence;
          offset = s.offset;
          data_offset = saturating_add s.offset 5;
          flags = r.flags;
          data_bytes = r.data_bytes;
          checksum = some r.stored;
        })),
  )

  -- A whole EC03 frame is validated before its first record is handed out.
  unfoldable pub frame_item : PageScanner → Result FrameError FrameRef → Step
  frame_item s (err FrameError.incomplete) = fail s ScanErrorKind.incomplete_tail
  frame_item s (err e) = fail s (ScanErrorKind.frame e)
  frame_item s stuck = (s, stuck)
  frame_item s (ok f) =
      let end = saturating_add s.offset f.len in
      (
        (if is_empty f.records then record s { offset = end; page_sequence = none } else record s {
          offset = saturating_add s.offset header_bytes;
          page_sequence = some f.sequence;
          frame_end = some end;
        }),
        ok (ScanItem.page f.sequence s.offset),
      )

abbrev pub is_err : Result ScanError ScanItem → Bool
is_err (ok i) = false
is_err _ = true

-- An EC02 page header.
unfoldable pub page_item : PageScanner → List ℕ → Step
page_item s remaining = elim (get_range remaining 4 8) [
  | none ↦ fail s ScanErrorKind.incomplete_tail
  | some number ↦
      let sequence = from_le_bytes number in
      (
        record s { offset = saturating_add s.offset 8; page_sequence = some sequence },
        ok (ScanItem.page sequence s.offset),
      )
]

-- An EC02 record of the given length, in the page `sequence`.
unfoldable pub legacy_record : PageScanner → List ℕ → ℕ → ℕ → Step
legacy_record s remaining sequence len = elim (get_elem? remaining 4) [
  | none ↦ fail s ScanErrorKind.incomplete_tail
  | some flags ↦ elim (get_range remaining 5 (saturating_add 5 len)) [
    | none ↦ fail s ScanErrorKind.incomplete_tail
    | some payload ↦ (
      record s { offset = saturating_add s.offset (saturating_add 5 len) },
      ok (
          ScanItem.record_ref (record {
            page_sequence = sequence;
            offset = s.offset;
            data_offset = saturating_add s.offset 5;
            flags = flags;
            data_bytes = payload;
            checksum = none;
          })),
    )
  ]
]

unfoldable pub legacy_item : PageScanner → List ℕ → List ℕ → Option ℕ → Step
legacy_item s remaining prefix none = fail s ScanErrorKind.invalid_magic
legacy_item s remaining prefix (some sequence) =
    let len = from_le_bytes prefix in
    if ltb max_record_bytes len
    then fail s (ScanErrorKind.record_too_large len)
    else legacy_record s remaining sequence len

module _ ⦃c : Crc⦄ where
  unfoldable pub outside_item : PageScanner → List ℕ → Option (List ℕ) → Step
  outside_item s remaining none = fail s ScanErrorKind.incomplete_tail
  outside_item s remaining (some prefix) =
      if bytes_eq prefix Ec03.magic
      then frame_item s (scan_frame remaining)
      else if bytes_eq prefix page_magic
      then page_item s remaining
      else if is_marker prefix
      then fail s (ScanErrorKind.unsupported_format prefix)
      else legacy_item s remaining prefix s.page_sequence

  unfoldable pub next_at : PageScanner → List ℕ → Option ℕ → Step
  next_at s remaining (some end) = checked_item s end (scan_record remaining)
  next_at s remaining none = outside_item s remaining (get_range remaining 0 4)

  unfoldable pub next_item : PageScanner → Step
  next_item s = next_at s (drop s.offset s.bytes) s.frame_end

  -- `Iterator::next`: an error is the last item.
  unfoldable pub next : PageScanner → PageScanner × Option (Result ScanError ScanItem)
  next s =
      if s.finished || s.offset == length s.bytes
      then (s, none)
      else (let (s', result) = next_item s in
          (record s' { finished = s'.finished || is_err result }, some result))

  -- `for item in scanner`, on fuel: the items in order, and the scanner that is left.
  unfoldable pub collect : ℕ → PageScanner → List (Result ScanError ScanItem) × PageScanner
  collect zero s = (stuck ∷ [], s)
  collect (suc fuel) s =
      let (s', item) = next s in
      elim item [
        | none ↦ ([], s')
        | some i ↦ let (items, last) = collect fuel s' in (i ∷ items, last)
      ]
