-- ===== src/Store/Format/Page.antt =====
-- crates/editchain-store/src/format/page.rs: legacy EC02 pages. They carry no checksum and no record
-- count; the next page marker or the end of the input ends a page.
pub mod RoundTrip
use editchain.Prelude.{
  ℕ, zero, suc, ◌+◌, Bool, true, false, not, Option, none, some, List, [], ◌∷◌, ◌++◌, ltb, bytes_eq,
  length, if◌then◌else◌, Result, ok, err, stuck, ◌>>=◌, ◌>>◌, fail_if, ok_or, u32_try_from,
  to_le_bytes,
}
use editchain.Store.Format.Checksum.{Crc}
use editchain.Store.Format.Records.{max_record_bytes, Record}
use editchain.Store.Format.Scan.{
  page_magic, PageScanner, ScanItem, ScanErrorKind, ScanError, new, next,
}

pub record Page : Type 0 where
  pub magic : List ℕ
  pub page_seq : ℕ
  pub records : List Record

abbrev pub new_page : ℕ → Page
new_page page_seq = record { magic = page_magic; page_seq = page_seq; records = [] }

abbrev pub add_record : Page → ℕ → List ℕ → Page
add_record page flags bytes = record page {
  records = page.records ++ (record { flags = flags; data_bytes = bytes } ∷ []);
}

pub data PageEncodeError : Type 0 where
  invalid_magic : PageEncodeError
  record_too_large : ℕ → PageEncodeError

-- `u32::try_from(len).ok().filter(|length| *length <= MAX_RECORD_BYTES)`
abbrev pub small_length : ℕ → Option ℕ
small_length n = elim (u32_try_from n) [
  | none ↦ none
  | some len ↦ if ltb max_record_bytes len then none else some len
]

pub put_records : List ℕ → List Record → Result PageEncodeError (List ℕ)
put_records buf [] = ok buf
put_records buf (r ∷ rest) = do
  len ← ok_or (small_length (length r.data_bytes)) (record_too_large (length r.data_bytes))
  let buf = buf ++ to_le_bytes 4 len
  let buf = buf ++ (r.flags ∷ [])
  let buf = buf ++ r.data_bytes
  put_records buf rest

pub encode_page : Page → Result PageEncodeError (List ℕ)
encode_page page = do
  fail_if (not (bytes_eq page.magic page_magic)) invalid_magic
  put_records (page.magic ++ to_le_bytes 4 page.page_seq) page.records

-- Whether an error of the scanner only says that the last write is incomplete.
abbrev pub is_incomplete_tail : ScanErrorKind → Bool
is_incomplete_tail ScanErrorKind.incomplete_tail = true
is_incomplete_tail _ = false

module _ ⦃c : Crc⦄ where
  -- The loop of `decode_page`. `stuck` says that the fuel ran out.
  pub page_records : ℕ → PageScanner → Page → Result (Unit {0}) Page
  page_records zero s page = stuck
  page_records (suc fuel) s page =
      let (s', item) = next s in
      elim item [
        | none ↦ ok page
        | some i ↦ elim i [
          | ok item ↦ elim item [
            | ScanItem.page sequence offset ↦ ok page
            | ScanItem.record_ref r ↦ page_records fuel s' (add_record page r.flags r.data_bytes)
          ]
          | err e ↦ if is_incomplete_tail e.kind then ok page else err tt
          | stuck ↦ stuck
        ]
      ]

  pub first_page : ℕ → PageScanner → Option (Result ScanError ScanItem) → Result (Unit {0}) Page
  first_page fuel s (some (ok (ScanItem.page sequence offset))) =
      page_records fuel s (new_page sequence)
  first_page fuel s (some stuck) = stuck
  first_page fuel s _ = err tt

  -- `None` is `err tt`. Each round consumes a byte at least, so the fuel is enough.
  pub decode_page : List ℕ → Result (Unit {0}) Page
  unfolding first_page
  decode_page bytes = let (s, item) = next (new bytes) in first_page (suc (length bytes)) s item
