-- ===== src/Store/Format/Page/RoundTrip.antt =====
-- `decode_page` reads back what `encode_page` wrote, also when the last record is cut off.
use editchain.Prelude.{
  ℕ, zero, suc, ◌+◌, ◌≤◌, ◌<◌, ◌≡◌, Bool, true, false, Option, none, some, List, [], ◌∷◌, ◌++◌,
  append_assoc, append-nil, arith, leb, if◌then◌else◌, leb_cases, inl, inr, ◌⊎◌, length,
  length-append, drop, take, drop-append, drop-drop, Result, ok, err, slice, slice-append,
  slice-prefix, get_range, get_elem?, get_elem?-append, saturating_add, max_64, refl, sym, ap,
  u32_mod, ◌∙◌, bytes_eq, bytes_eq→eq, to_le_bytes, length-to_le_bytes, from_le_bytes-to_le_bytes,
}
use editchain.Store.Format.Checksum.{Crc}
use editchain.Store.Format.Records.{max_record_bytes, Record}
use editchain.Store.Format.Ec03.{magic}
use editchain.Store.Format.Scan.{
  page_magic, PageScanner, RecordRef, ScanItem, record_ref, is_marker, ScanErrorKind, ScanError,
  fail, new, next, next_item, next_at, outside_item, page_item, legacy_item, legacy_record,
}
use editchain.Store.Format.Page.{
  Page, new_page, add_record, PageEncodeError, put_records, encode_page, page_records, decode_page,
}

unfoldable pub record_wire : Record → List ℕ
record_wire r = to_le_bytes 4 (length r.data_bytes) ++ (r.flags ∷ r.data_bytes)

abbrev pub body : List Record → List ℕ
body [] = []
body (r ∷ rest) = record_wire r ++ body rest

-- The length of the first record that is too large, if any.
abbrev pub first_large : List Record → Option ℕ
first_large [] = none
first_large (r ∷ rest) =
    if leb (length r.data_bytes) max_record_bytes
    then first_large rest
    else some (length r.data_bytes)

abbrev put_result : List ℕ → List Record → Option ℕ → Result PageEncodeError (List ℕ)
put_result buf records none = ok (buf ++ body records)
put_result buf records (some n) = err (PageEncodeError.record_too_large n)

put_result_cons :
    (buf : List ℕ) (r : Record) (rest : List Record) (o : Option ℕ)
    → put_result
        (buf ++ to_le_bytes 4 (length r.data_bytes) ++ (r.flags ∷ []) ++ r.data_bytes)
        rest
        o
      ≡ put_result buf (r ∷ rest) o
unfolding record_wire
put_result_cons buf r rest none = ap ok (simp append_assoc)
put_result_cons buf r rest (some n) = refl

put_records_lem :
    (buf : List ℕ) (records : List Record)
    → put_records buf records ≡ put_result buf records (first_large records)
unfolding put_records
put_records_lem buf [] = ap ok (sym (append-nil buf))
put_records_lem buf (r ∷ rest) = elim (leb_cases (length r.data_bytes) max_record_bytes) [
  | inl small ↦
      let next : List ℕ =
        buf ++ to_le_bytes 4 (length r.data_bytes) ++ (r.flags ∷ []) ++ r.data_bytes in
      ground (arith, put_records_lem next rest, put_result_cons buf r rest (first_large rest))
  | inr large ↦ ground arith
]

-- The encoder fails on foreign magic, then on the first record that is too large, and otherwise
-- writes the header and the records one after the other.
pub encode_page_lem :
    (p : Page)
    → encode_page p ≡ (
        if bytes_eq p.magic page_magic
        then put_result (p.magic ++ to_le_bytes 4 p.page_seq) p.records (first_large p.records)
        else err PageEncodeError.invalid_magic)
unfolding encode_page
encode_page_lem p = ground (arith, put_records_lem (p.magic ++ to_le_bytes 4 p.page_seq) p.records)

-- A record's length is never one of the four-byte markers that begin a page or a frame.
length-ne-marker :
    (n : ℕ)
    → n ≤ max_record_bytes
    → (bytes_eq (to_le_bytes 4 n) magic ≡ false)
      × (bytes_eq (to_le_bytes 4 n) page_magic ≡ false)
      × (is_marker (to_le_bytes 4 n) ≡ false)
unfolding to_le_bytes
length-ne-marker n h = (ground arith, ground arith, ground arith)

abbrev in_page : List ℕ → ℕ → ℕ → PageScanner
in_page bytes offset sequence = record {
  bytes = bytes;
  offset = offset;
  page_sequence = some sequence;
  frame_end = none;
  finished = false;
}

abbrev legacy_item_of : ℕ → ℕ → Record → ScanItem
legacy_item_of sequence offset r = record_ref (record {
  page_sequence = sequence;
  offset = offset;
  data_offset = offset + 5;
  flags = r.flags;
  data_bytes = r.data_bytes;
  checksum = none;
})

module _ (r : Record) (rest : List ℕ) (small : length r.data_bytes ≤ max_record_bytes) where
  abbrev wire : List ℕ
  wire = record_wire r ++ rest

  four : length (to_le_bytes 4 (length r.data_bytes)) ≡ 4
  four = length-to_le_bytes 4 (length r.data_bytes)

  length-wire : length wire ≡ 5 + length r.data_bytes + length rest
  unfolding record_wire
  length-wire = omega (
    arith,
    four,
    length-append (record_wire r) rest,
    length-append (to_le_bytes 4 (length r.data_bytes)) (r.flags ∷ r.data_bytes),
  )

  size_slice : slice wire 0 4 ≡ to_le_bytes 4 (length r.data_bytes)
  unfolding record_wire
  size_slice = rw append_assoc (
      slice-append [] (to_le_bytes 4 (length r.data_bytes)) (r.flags ∷ (r.data_bytes ++ rest)) 0 4
        refl (omega (arith, four)))

  data_slice : slice wire 5 (5 + length r.data_bytes) ≡ r.data_bytes
  unfolding record_wire
  data_slice =
      let front : List ℕ = to_le_bytes 4 (length r.data_bytes) ++ (r.flags ∷ []) in
      let at : record_wire r ++ rest ≡ front ++ (r.data_bytes ++ rest) = simp append_assoc in
      let five : length front ≡ 5 =
        omega (arith, four, length-append (to_le_bytes 4 (length r.data_bytes)) (r.flags ∷ [])) in
      rw at (slice-append front r.data_bytes rest 5 _ (sym five) (omega (arith, five)))

  flags_read : get_elem? wire 4 ≡ some r.flags
  unfolding record_wire
  flags_read = rw append_assoc (
      get_elem?-append (to_le_bytes 4 (length r.data_bytes)) r.flags (r.data_bytes ++ rest) 4
        (sym four))

  prefix_read : get_range wire 0 4 ≡ some (to_le_bytes 4 (length r.data_bytes))
  prefix_read = ground (arith, size_slice, length-wire)

  data_read : get_range wire 5 (saturating_add 5 (length r.data_bytes)) ≡ some r.data_bytes
  data_read = ground (arith, data_slice, length-wire)

  -- One record of a page.
  next_legacy :
      ⦃c : Crc⦄ (bytes : List ℕ) (offset sequence : ℕ)
      → drop offset bytes ≡ wire
      → offset + length wire ≡ length bytes
      → length bytes ≤ max_64
      → next (in_page bytes offset sequence) ≡ (
        in_page bytes (offset + (5 + length r.data_bytes)) sequence,
        some (ok (legacy_item_of sequence offset r)),
      )
  unfolding next next_item next_at outside_item legacy_item legacy_record
  next_legacy ⦃c⦄ bytes offset sequence at end room = ground (
    arith,
    prefix_read,
    flags_read,
    data_read,
    length-wire,
    length-ne-marker (length r.data_bytes) small,
    from_le_bytes-to_le_bytes 4 (length r.data_bytes) (omega arith),
  )

abbrev smalls : List Record → Bool
smalls records = elim (first_large records) [ none ↦ true | some n ↦ false ]

-- What an interrupted write leaves of one more record: nothing, or a proper prefix of its bytes.
pub data IsCut (tail : List ℕ) : Type 0 where
  nothing : tail ≡ [] → IsCut tail
  part :
      (r : Record) (x : ℕ) (back : List ℕ)
      → length r.data_bytes ≤ max_record_bytes
      → record_wire r ≡ tail ++ (x ∷ back)
      → IsCut tail

legacy_record_short :
    (s : PageScanner) (remaining : List ℕ) (sequence len : ℕ)
    → len ≤ max_record_bytes
    → length remaining < 5 + len
    → legacy_record s remaining sequence len ≡ fail s ScanErrorKind.incomplete_tail
unfolding legacy_record
legacy_record_short s remaining sequence len small short = ground arith

module _ ⦃c : Crc⦄ (bytes : List ℕ) (offset sequence : ℕ) where
  abbrev Ended : PageScanner × Option (Result ScanError ScanItem) → Type 0
  Ended p =
      (p.1 ≡ none)
      ⊎ (p.1 ≡ some (err (record { offset = offset; kind = ScanErrorKind.incomplete_tail })))

  next_part :
      (tail : List ℕ) (r : Record) (x : ℕ) (back : List ℕ)
      → length r.data_bytes ≤ max_record_bytes
      → record_wire r ≡ tail ++ (x ∷ back)
      → drop offset bytes ≡ tail
      → offset < length bytes
      → (next (in_page bytes offset sequence)).1
        ≡ some (err (record { offset = offset; kind = ScanErrorKind.incomplete_tail }))
  unfolding next next_item next_at outside_item legacy_item
  next_part tail r x back small cut at short =
      let less : length tail < 5 + length r.data_bytes = omega (
        arith,
        length-wire r [] small,
        length-append (record_wire r) [],
        ap (λ (t : List ℕ). length t) cut,
        length-append tail (x ∷ back),
      ) in
      elim (leb_cases 4 (length tail)) [
        | inl full ↦ ground (
          arith,
          size_part full,
          length-ne-marker (length r.data_bytes) small,
          from_le_bytes-to_le_bytes 4 (length r.data_bytes) (omega arith),
          legacy_record_short (in_page bytes offset sequence) tail sequence (length r.data_bytes)
              small less,
        )
        | inr few ↦ ground arith
      ]
    where
      size_part : 4 ≤ length tail → slice tail 0 4 ≡ to_le_bytes 4 (length r.data_bytes)
      size_part k =
          sym (slice-prefix tail (x ∷ back) 0 4 (omega arith) k)
          ∙ ap (λ t. slice t 0 4) (sym cut ∙ sym (append-nil (record_wire r)))
          ∙ size_slice r [] small

  next-Ended :
      (tail : List ℕ)
      → IsCut tail
      → drop offset bytes ≡ tail
      → offset + length tail ≡ length bytes
      → Ended (next (in_page bytes offset sequence))
  unfolding next
  next-Ended tail (nothing e) at h = inl (ground (arith, ap (λ (t : List ℕ). length t) e))
  next-Ended [] (part r x back small cut) at h = inl (ground arith)
  next-Ended (y ∷ tail) (part r x back small cut) at h =
      inr (next_part (y ∷ tail) r x back small cut at (omega arith))

abbrev with_records : Page → List Record → Page
with_records page records = record page { records = page.records ++ records }

page_records_step :
    ⦃c : Crc⦄ (fuel : ℕ) (s s' : PageScanner) (page : Page) (r : RecordRef)
    → next s ≡ (s', some (ok (record_ref r)))
    → page_records (suc fuel) s page ≡ page_records fuel s' (add_record page r.flags r.data_bytes)
unfolding page_records
page_records_step ⦃c⦄ fuel s s' page r h = ground (arith, h)

module _ ⦃c : Crc⦄ (bytes tail : List ℕ) (sequence : ℕ) (cut : IsCut tail)
    (room : length bytes ≤ max_64) where
  page_records-body :
      (records : List Record) (fuel offset : ℕ) (page : Page)
      → smalls records ≡ true
      → drop offset bytes ≡ body records ++ tail
      → offset + length (body records ++ tail) ≡ length bytes
      → length records < fuel
      → page_records fuel (in_page bytes offset sequence) page ≡ ok (with_records page records)
  unfolding page_records
  page_records-body records zero offset page h at len k = absurd (omega arith)
  page_records-body [] (suc fuel) offset page h at len k =
      ground (arith, next-Ended bytes offset sequence tail cut at len, append-nil page.records)
  page_records-body (r ∷ records) (suc fuel) offset page h at len k =
      let rest : List ℕ = body records ++ tail in
      let here : drop offset bytes ≡ record_wire r ++ rest =
        at ∙ append_assoc (record_wire r) (body records) tail in
      let size : length (record_wire r ++ rest) ≡ 5 + length r.data_bytes + length rest =
        length-wire r rest (ground arith) in
      let total : offset + length (record_wire r ++ rest) ≡ length bytes = omega (
        arith,
        len,
        ap (λ (t : List ℕ). length t) (append_assoc (record_wire r) (body records) tail),
      ) in
      let after : drop (offset + (5 + length r.data_bytes)) bytes ≡ rest =
        sym (drop-drop (5 + length r.data_bytes) offset _ bytes (omega arith))
        ∙ ap (λ t. drop (5 + length r.data_bytes) t) here
        ∙ drop-append (5 + length r.data_bytes) (record_wire r) rest
            (omega (arith, size, length-append (record_wire r) rest)) in
      page_records_step fuel (in_page bytes offset sequence) _ page _
        (next_legacy r rest (ground arith) bytes offset sequence here total room)
      ∙ page_records-body records fuel (offset + (5 + length r.data_bytes))
          (add_record page r.flags r.data_bytes) (ground arith) after (omega (arith, size, total))
          (omega arith)
      ∙ ap ok (ap (λ t. record page { records = t }) (append_assoc page.records (r ∷ []) records))

length-body : (records : List Record) → length records ≤ length (body records)
unfolding record_wire
length-body [] = omega arith
length-body (r ∷ rest) = omega (
  arith,
  length-body rest,
  length-append (record_wire r) (body rest),
  length-append (to_le_bytes 4 (length r.data_bytes)) (r.flags ∷ r.data_bytes),
)

encode_page-ok :
    (p : Page) (bytes : List ℕ)
    → encode_page p ≡ ok bytes
    → (p.magic ≡ page_magic)
      × (smalls p.records ≡ true)
      × (bytes ≡ page_magic ++ (to_le_bytes 4 p.page_seq ++ body p.records))
encode_page-ok p bytes e = ground (arith, encode_page_lem p, bytes_eq→eq p.magic page_magic)

next_page :
    ⦃c : Crc⦄ (sequence : ℕ) (rest : List ℕ)
    → sequence < u32_mod
    → length (page_magic ++ (to_le_bytes 4 sequence ++ rest)) ≤ max_64
    → next (new (page_magic ++ (to_le_bytes 4 sequence ++ rest))) ≡ (
      in_page (page_magic ++ (to_le_bytes 4 sequence ++ rest)) 8 sequence,
      some (ok (ScanItem.page sequence 0)),
    )
unfolding next next_item next_at outside_item page_item drop slice to_le_bytes take
next_page ⦃c⦄ sequence rest h room = ground (arith, from_le_bytes-to_le_bytes 4 sequence)

module _ ⦃c : Crc⦄ where
  -- Decoding what the encoder wrote for a page returns the page, also when the append of one more
  -- record was interrupted and left some of its bytes.
  pub decode_page-encode_page :
      (p : Page) (bytes tail : List ℕ)
      → p.page_seq < u32_mod
      → encode_page p ≡ ok bytes
      → IsCut tail
      → length (bytes ++ tail) ≤ max_64
      → decode_page (bytes ++ tail) ≡ ok p
  unfolding decode_page drop to_le_bytes
  decode_page-encode_page p bytes tail s e cut room =
      let (m, small, at) = encode_page-ok p bytes e in
      let rest : List ℕ = body p.records ++ tail in
      let whole : bytes ++ tail ≡ page_magic ++ (to_le_bytes 4 p.page_seq ++ rest) =
        ap (λ t. t ++ tail) at in
      let fits : length (page_magic ++ (to_le_bytes 4 p.page_seq ++ rest)) ≤ max_64 =
        omega (arith, room, ap (λ (t : List ℕ). length t) whole) in
      rw whole (
        rw (next_page p.page_seq rest s fits) (
          page_records-body (page_magic ++ (to_le_bytes 4 p.page_seq ++ rest)) tail p.page_seq cut
            fits p.records _ 8 (new_page p.page_seq) small refl (omega arith)
            (omega (arith, length-body p.records, length-append (body p.records) tail))
          ∙ ap ok (ap (λ t. record p { magic = t }) (sym m))))
