-- ===== src/Store/Format/Ec03/Layout.antt =====
-- The bytes that `encode_ec03` writes, as one expression, and when it writes them.
use editchain.Prelude.{
  ℕ, ◌+◌, ◌*◌, ◌≤◌, ◌<◌, ◌≡◌, inl, inr, Bool, true, ◌&&◌, List, [], ◌∷◌, ◌++◌, append_assoc,
  append-nil, arith, leb, if◌then◌else◌, length, length-append, ok, err, to_le_bytes,
  length-to_le_bytes, max_64, u32_mod, u32_try_from-lt, ap, ◌∙◌, Bool-cases, ltb,
}
use editchain.Store.Format.Checksum.{Crc, checksum}
use editchain.Store.Format.Records.{max_record_bytes, Record, FrameError}
use editchain.Store.Format.Ec03.{
  max_frame_bytes, frame_overhead, Ec03Frame, header, sized_step, sized, put_records,
  encode_records, encode_ec03,
}

-- No record passes `max_record_bytes`.
abbrev pub all_small : List Record → Bool
all_small [] = true
all_small (r ∷ rest) = leb (length r.data_bytes) max_record_bytes && all_small rest

-- The bytes that the records take: nine and the data for each.
abbrev pub body_length : List Record → ℕ
body_length [] = 0
body_length (r ∷ rest) = 9 + length r.data_bytes + body_length rest

-- The loop goes on after a record exactly when it is small and neither sum overflows.
abbrev room_for : ℕ → ℕ → Record → Bool
room_for len count r =
    leb (length r.data_bytes) max_record_bytes
    && (leb (len + 9 + length r.data_bytes) max_64 && ltb (count + 1) u32_mod)

sized_step_lem :
    (len count : ℕ) (r : Record)
    → sized_step len count r ≡ (
        if room_for len count r
        then ok (len + 9 + length r.data_bytes, count + 1)
        else err FrameError.length)
unfolding sized_step
sized_step_lem len count r = ground arith

-- `sized` succeeds exactly when no record is too large and nothing overflows.
pub sized_lem :
    (len count : ℕ) (records : List Record)
    → len ≤ max_64
    → count < u32_mod
    → sized len count records ≡ (
        if all_small records
          && (leb (len + body_length records) max_64 && ltb (count + length records) u32_mod)
        then ok (len + body_length records, count + length records)
        else err FrameError.length)
unfolding sized
sized_lem len count [] hl hc = ground arith
sized_lem len count (r ∷ rest) hl hc = elim (Bool-cases (room_for len count r)) [
  | inl room ↦
      rw (sized_step_lem, room)
        (ground (arith, sized_lem (len + 9 + length r.data_bytes) (count + 1) rest))
  | inr full ↦ rw (sized_step_lem, full) (ground arith)
]

pub count-le : (records : List Record) → 9 * length records ≤ body_length records
count-le [] = omega arith
count-le (r ∷ rest) = omega (arith, count-le rest)

module _ ⦃c : Crc⦄ where
  unfoldable pub record_wire : Record → List ℕ
  record_wire r =
      to_le_bytes 4 (length r.data_bytes)
      ++ (r.flags ∷ (r.data_bytes ++ to_le_bytes 4 (checksum r.data_bytes)))

  abbrev pub body : List Record → List ℕ
  body [] = []
  body (r ∷ rest) = record_wire r ++ body rest

  pub length-record_wire : (r : Record) → length (record_wire r) ≡ 9 + length r.data_bytes
  unfolding record_wire
  length-record_wire r = omega (
    arith,
    length-append r.data_bytes (to_le_bytes 4 (checksum r.data_bytes)),
    length-append (to_le_bytes 4 (length r.data_bytes))
        (r.flags ∷ (r.data_bytes ++ to_le_bytes 4 (checksum r.data_bytes))),
    length-to_le_bytes 4,
  )

  pub length-body : (records : List Record) → length (body records) ≡ body_length records
  length-body [] = omega arith
  length-body (r ∷ rest) =
      omega
        (arith, length-body rest, length-record_wire r, length-append (record_wire r) (body rest))

  put_records-body :
      (bytes : List ℕ) (records : List Record)
      → all_small records ≡ true
      → put_records bytes records ≡ ok (bytes ++ body records)
  unfolding put_records record_wire
  put_records-body bytes [] h = rw append-nil
  put_records-body bytes (r ∷ rest) h = rw (u32_try_from-lt (length r.data_bytes) (ground arith)) (
      put_records-body
        (bytes
          ++ to_le_bytes 4 (length r.data_bytes)
          ++ (r.flags ∷ [])
          ++ r.data_bytes
          ++ to_le_bytes 4 (checksum r.data_bytes))
        rest (ground arith)
      ∙ ap ok (simp append_assoc))

  -- The header with its checksum, the records, and the checksum of both.
  unfoldable pub head_wire : Ec03Frame → List ℕ
  head_wire f =
      let front =
        header (frame_overhead + body_length f.records) (length f.records) f.page_sequence in
      front ++ to_le_bytes 4 (checksum front)

  unfoldable pub frame_wire : Ec03Frame → List ℕ
  frame_wire f =
      let covered = head_wire f ++ body f.records in covered ++ to_le_bytes 4 (checksum covered)

  abbrev pub fits : Ec03Frame → Bool
  fits f = all_small f.records && leb (frame_overhead + body_length f.records) max_frame_bytes

  pub encode_ec03_lem :
      (f : Ec03Frame)
      → encode_ec03 f ≡ (if fits f then ok (frame_wire f) else err FrameError.length)
  unfolding encode_ec03 encode_records head_wire frame_wire
  encode_ec03_lem f = elim (Bool-cases (fits f)) [
    | inl fit ↦
        rw (sized_lem 36 0 f.records (omega arith) (omega arith))
          (ground (arith, count-le f.records, put_records-body (head_wire f) f.records))
    | inr big ↦
        rw (sized_lem 36 0 f.records (omega arith) (omega arith))
          (ground (arith, count-le f.records))
  ]
