-- ===== src/Store/Format/Scan/Segments.antt =====
-- Scanning a segment of whole frames, and one that an interrupted append has left.
use editchain.Prelude.{
  ℕ, zero, suc, ◌+◌, ◌≤◌, ◌<◌, ◌≡◌, true, false, none, some, List, [], ◌∷◌, ◌++◌, append_assoc,
  if◌then◌else◌, append-nil, arith, leb_cases, inl, inr, length, length-append, drop, drop-append,
  is_empty, Result, ok, err, slice, slice-prefix, get_range, max_64, refl, sym, ap, u32_mod, ◌∙◌,
  bytes_eq, to_le_bytes, length-to_le_bytes, All,
}
use editchain.Store.Format.Checksum.{Crc, checksum}
use editchain.Store.Format.Records.{Record, max_record_bytes}
use editchain.Store.Format.Ec03.Truncation.{scan_frame_interrupted}
use editchain.Store.Format.Ec03.Scanning.{IsFrame}
use editchain.Store.Format.Ec03.{magic, Ec03Frame, FrameRef, frame_overhead}
use editchain.Store.Format.Ec03.Layout.{
  body_length, all_small, record_wire, body, head_wire, frame_wire, fits, encode_ec03_lem,
  length-record_wire,
}
use editchain.Store.Format.Ec03.RoundTrip.{
  scanned, wire-IsFrame, scan_record-record_wire, scan_frame-frame_wire, length-frame_wire,
  length-head_wire,
}
use editchain.Store.Format.Scan.{
  ScanItem, page, record_ref, ScanErrorKind, ScanError, PageScanner, new, after_record,
  checked_item, frame_item, outside_item, next_at, next_item, next, collect,
}

abbrev pub Item : Type 0
Item = Result ScanError ScanItem

-- `s` hands out the items one after the other and is left as `s'`.
pub data Emits ⦃c : Crc⦄ : PageScanner → List Item → PageScanner → Type 0 where
  here : {s : PageScanner} → Emits s [] s
  there :
      {s t u : PageScanner} {i : Item} {items : List Item}
      → next s ≡ (t, some i)
      → Emits t items u
      → Emits s (i ∷ items) u

module _ ⦃c : Crc⦄ where
  Emits-append :
      {s t u : PageScanner} {xs ys : List Item} → Emits s xs t → Emits t ys u → Emits s (xs ++ ys) u
  Emits-append here r = r
  Emits-append (there e l) r = there e (Emits-append l r)

  -- The loop returns what the scanner hands out, up to the point where it has nothing more.
  pub Emits-collect :
      (s : PageScanner) {t : PageScanner} {items : List Item}
      → Emits s items t
      → next t ≡ (t, none)
      → (fuel : ℕ) → length items < fuel
      → collect fuel s ≡ (items, t)
  unfolding collect
  Emits-collect s l e zero h = absurd (omega arith)
  Emits-collect s here e (suc fuel) h = ground (arith, e)
  Emits-collect s (there {t = m} p l) e (suc fuel) h =
      ground (arith, p, Emits-collect m l e fuel (omega arith))

  abbrev pub item_of : ℕ → ℕ → Record → ScanItem
  item_of sequence offset r = record_ref (record {
    page_sequence = sequence;
    offset = offset;
    data_offset = offset + 5;
    flags = r.flags;
    data_bytes = r.data_bytes;
    checksum = some (checksum r.data_bytes);
  })

  -- The records of a frame, each where the layout puts it.
  abbrev pub record_items : ℕ → ℕ → List Record → List Item
  record_items sequence offset [] = []
  record_items sequence offset (r ∷ rest) =
      ok (item_of sequence offset r)
      ∷ record_items sequence (offset + (9 + length r.data_bytes)) rest

  abbrev pub frame_items : ℕ → Ec03Frame → List Item
  frame_items offset f =
      ok (page f.page_sequence offset) ∷ record_items f.page_sequence (offset + 32) f.records

  abbrev pub frame_length : Ec03Frame → ℕ
  frame_length f = frame_overhead + body_length f.records

  abbrev pub segment_items : ℕ → List Ec03Frame → List Item
  segment_items offset [] = []
  segment_items offset (f ∷ rest) =
      frame_items offset f ++ segment_items (offset + frame_length f) rest

  abbrev pub segment_wire : List Ec03Frame → List ℕ
  segment_wire [] = []
  segment_wire (f ∷ rest) = frame_wire f ++ segment_wire rest

  abbrev in_frame : List ℕ → ℕ → ℕ → ℕ → PageScanner
  in_frame bytes offset sequence end = record {
    bytes = bytes;
    offset = offset;
    page_sequence = some sequence;
    frame_end = some end;
    finished = false;
  }

  -- Between frames.
  abbrev pub between : List ℕ → ℕ → PageScanner
  between bytes offset = record {
    bytes = bytes;
    offset = offset;
    page_sequence = none;
    frame_end = none;
    finished = false;
  }

  next_ok :
      (s t : PageScanner) (i : ScanItem)
      → s.finished ≡ false
      → s.offset < length s.bytes
      → next_item s ≡ (t, ok i)
      → t.finished ≡ false
      → next s ≡ (t, some (ok i))
  unfolding next
  next_ok s t i f h e g = ground arith

  next_record :
      (pre rest : List ℕ) (r : Record) (bytes : List ℕ) (offset sequence end : ℕ)
      → offset ≡ length pre
      → bytes ≡ pre ++ (record_wire r ++ rest)
      → length bytes ≤ max_64
      → length r.data_bytes ≤ max_record_bytes
      → (next_item (in_frame bytes offset sequence end) ≡ (
        after_record (in_frame bytes offset sequence end) (offset + (9 + length r.data_bytes)) end,
        ok (item_of sequence offset r),
      ))
        × (offset < length bytes)
  unfolding next_item next_at checked_item
  next_record pre rest r bytes offset sequence end o at room small = ground (
    arith,
    ap (λ (t : List ℕ). length t) at,
    ap (λ (t : List ℕ). drop offset t) at,
    drop-append offset pre (record_wire r ++ rest) o,
    scan_record-record_wire r rest small,
    length-append pre (record_wire r ++ rest),
    length-append (record_wire r) rest,
    length-record_wire r,
  )

  records_emit :
      (records : List Record) (r : Record) (pre rest trailer bytes : List ℕ)
      (offset sequence end : ℕ)
      → all_small (r ∷ records) ≡ true
      → offset ≡ length pre
      → bytes ≡ pre ++ (body (r ∷ records) ++ (trailer ++ rest))
      → length trailer ≡ 4
      → length bytes ≤ max_64
      → offset + body_length (r ∷ records) + 4 ≡ end
      → Emits
          (in_frame bytes offset sequence end)
          (record_items sequence offset (r ∷ records))
          (between bytes end)
  unfolding after_record
  records_emit [] r pre rest trailer bytes offset sequence end small o at four room e =
      let (step, short) =
        next_record pre (trailer ++ rest) r bytes offset sequence end o (at ∙ simp append-nil) room
          (ground arith) in
      there (next_ok _ (between bytes end) _ refl short (step ∙ ground arith) refl) here
  records_emit (r2 ∷ records) r pre rest trailer bytes offset sequence end small o at four room e =
      let (step, short) =
        next_record pre (body (r2 ∷ records) ++ (trailer ++ rest)) r bytes offset sequence end o
          (at ∙ simp append_assoc) room (ground arith) in
      there
        (next_ok _ (in_frame bytes (offset + (9 + length r.data_bytes)) sequence end) _ refl short
          (step ∙ ground arith) refl)
        (records_emit records r2 (pre ++ record_wire r) rest trailer bytes
          (offset + (9 + length r.data_bytes)) sequence end (ground arith)
          (omega (arith, length-append pre (record_wire r), length-record_wire r))
          (at ∙ simp append_assoc) four room (omega arith))

  -- The scanner's own look at the first four bytes agrees with `scan_frame`'s.
  frame_starts :
      (bytes : List ℕ) (r : FrameRef)
      → IsFrame bytes r
      → (get_range bytes 0 4 ≡ some (slice bytes 0 4)) × (bytes_eq (slice bytes 0 4) magic ≡ true)
  frame_starts bytes r h = ground (arith, h.head.starts, h.head.full)

  body-IsEmpty : (records : List Record) → is_empty (body records) ≡ is_empty records
  unfolding record_wire to_le_bytes
  body-IsEmpty [] = refl
  body-IsEmpty (r ∷ rest) = refl

  next_frame :
      (pre rest bytes : List ℕ) (offset : ℕ) (f : Ec03Frame)
      → offset ≡ length pre
      → bytes ≡ pre ++ (frame_wire f ++ rest)
      → length bytes ≤ max_64
      → fits f ≡ true
      → f.page_sequence < u32_mod
      → (next_item (between bytes offset) ≡ (
        (if is_empty f.records
            then between bytes (offset + frame_length f)
            else in_frame bytes (offset + 32) f.page_sequence (offset + frame_length f)),
        ok (page f.page_sequence offset),
      ))
        × (offset < length bytes)
  unfolding next_item next_at outside_item frame_item
  next_frame pre rest bytes offset f o at room fit s = ground (
    arith,
    ap (λ (t : List ℕ). length t) at,
    ap (λ (t : List ℕ). drop offset t) at,
    drop-append offset pre (frame_wire f ++ rest) o,
    scan_frame-frame_wire f rest fit s,
    frame_starts (frame_wire f ++ rest) (scanned f rest fit s) (wire-IsFrame f rest fit s),
    body-IsEmpty f.records,
    length-append pre (frame_wire f ++ rest),
    length-append (frame_wire f) rest,
    length-frame_wire f rest fit s,
  )

  frame_at :
      (pre rest bytes : List ℕ) (f : Ec03Frame)
      → bytes ≡ pre ++ (frame_wire f ++ rest)
      → bytes
        ≡ (pre ++ head_wire f)
          ++ (body f.records ++ (to_le_bytes 4 (checksum (head_wire f ++ body f.records)) ++ rest))
  unfolding frame_wire
  frame_at pre rest bytes f at = at ∙ simp append_assoc

  -- What the scanner hands out for one frame: its page, and its records where they stand.
  frame_emit :
      (pre rest bytes : List ℕ) (offset sequence : ℕ) (records : List Record)
      → offset ≡ length pre
      → bytes ≡ pre ++ (frame_wire (record { page_sequence = sequence; records = records }) ++ rest)
      → length bytes ≤ max_64
      → fits (record { page_sequence = sequence; records = records }) ≡ true
      → sequence < u32_mod
      → Emits
          (between bytes offset)
          (frame_items offset (record { page_sequence = sequence; records = records }))
          (between bytes (offset + (frame_overhead + body_length records)))
  frame_emit pre rest bytes offset sequence [] o at room fit s =
      let f : Ec03Frame = record { page_sequence = sequence; records = [] } in
      let (step, short) = next_frame pre rest bytes offset f o at room fit s in
      there
        (next_ok (between bytes offset) (between bytes (offset + (frame_overhead + 0))) _ refl short
          step refl)
        here
  frame_emit pre rest bytes offset sequence (r ∷ records) o at room fit s =
      let f : Ec03Frame = record { page_sequence = sequence; records = r ∷ records } in
      let (step, short) = next_frame pre rest bytes offset f o at room fit s in
      let end : ℕ = offset + frame_length f in
      there
        (next_ok (between bytes offset) (in_frame bytes (offset + 32) sequence end) _ refl short
          step refl)
        (records_emit records r (pre ++ head_wire f) rest
          (to_le_bytes 4 (checksum (head_wire f ++ body f.records))) bytes (offset + 32) sequence
          end (ground arith)
          (omega (arith, length-append pre (head_wire f), length-head_wire f rest fit s))
          (frame_at pre rest bytes f at) (length-to_le_bytes 4 _) room (omega arith))

  -- A frame that the encoder writes: within its bounds, with a `u32` for its page.
  pub record IsEncodable (f : Ec03Frame) : Type 0 where
    pub fit : fits f ≡ true
    pub sequence : f.page_sequence < u32_mod

  abbrev pub segment_length : List Ec03Frame → ℕ
  segment_length [] = 0
  segment_length (f ∷ rest) = frame_length f + segment_length rest

  segment_emit :
      (fs : List Ec03Frame) (pre rest bytes : List ℕ) (offset : ℕ)
      → offset ≡ length pre
      → bytes ≡ pre ++ (segment_wire fs ++ rest)
      → length bytes ≤ max_64
      → All IsEncodable fs
      → Emits
          (between bytes offset)
          (segment_items offset fs)
          (between bytes (offset + segment_length fs))
  segment_emit [] pre rest bytes offset o at room h =
      let e : offset ≡ offset + 0 = omega arith in rw (← e) here
  segment_emit (f ∷ fs) pre rest bytes offset o at room (h, hs) =
      let e : offset + frame_length f + segment_length fs
          ≡ offset + (frame_length f + segment_length fs) =
        omega arith in
      rw (← e) (
        Emits-append
          (frame_emit pre (segment_wire fs ++ rest) bytes offset f.page_sequence f.records o
            (at ∙ simp append_assoc) room h.fit h.sequence)
          (segment_emit fs (pre ++ frame_wire f) rest bytes (offset + frame_length f)
            (omega
              (arith, length-append pre (frame_wire f), length-frame_wire f rest h.fit h.sequence))
            (at ∙ simp append_assoc) room hs))

  length-segment_wire :
      (fs : List Ec03Frame) → All IsEncodable fs → length (segment_wire fs) ≡ segment_length fs
  length-segment_wire [] h = refl
  length-segment_wire (f ∷ fs) (h, hs) = omega (
    arith,
    length-append (frame_wire f) (segment_wire fs),
    length-frame_wire f [] h.fit h.sequence,
    length-segment_wire fs hs,
  )

  next_done :
      (bytes : List ℕ) (offset : ℕ)
      → offset ≡ length bytes
      → next (between bytes offset) ≡ (between bytes offset, none)
  unfolding next
  next_done bytes offset h = ground arith

  -- Scanning the bytes of any frames yields, in order, the page and the records of each frame at their
  -- exact offsets, and ends with every byte consumed.
  pub collect-segment_wire :
      (fs : List Ec03Frame) (fuel : ℕ)
      → All IsEncodable fs
      → length (segment_wire fs) ≤ max_64
      → length (segment_items 0 fs) < fuel
      → collect fuel (new (segment_wire fs))
        ≡ (segment_items 0 fs, between (segment_wire fs) (length (segment_wire fs)))
  collect-segment_wire fs fuel h room k =
      let e : 0 + segment_length fs ≡ length (segment_wire fs) =
        omega (arith, length-segment_wire fs h) in
      let at : segment_wire fs ≡ segment_wire fs ++ [] = sym (append-nil (segment_wire fs)) in
      Emits-collect (new (segment_wire fs))
        (rw e at (segment_emit fs [] [] (segment_wire fs) 0 refl at room h))
        (next_done (segment_wire fs) (length (segment_wire fs)) refl) fuel k

  -- Stopped by an error at `offset`.
  abbrev pub stopped : List ℕ → ℕ → PageScanner
  stopped bytes offset = record {
    bytes = bytes;
    offset = offset;
    page_sequence = none;
    frame_end = none;
    finished = true;
  }

  abbrev pub incomplete_at : ℕ → Item
  incomplete_at offset = err (record { offset = offset; kind = ScanErrorKind.incomplete_tail })

  module _ (g : Ec03Frame) (tail : List ℕ) (x : ℕ) (back : List ℕ) (h : IsEncodable g)
      (cut : frame_wire g ≡ tail ++ (x ∷ back)) where
    tail_starts : 4 ≤ length tail → bytes_eq (slice tail 0 4) magic ≡ true
    tail_starts k =
        let whole : IsFrame (frame_wire g ++ []) (scanned g [] h.fit h.sequence) =
          wire-IsFrame g [] h.fit h.sequence in
        rw (append-nil, cut, slice-prefix tail (x ∷ back) 0 4 (omega arith) k) at whole.head.starts

    next_interrupted :
        (bytes : List ℕ) (offset : ℕ)
        → drop offset bytes ≡ tail
        → offset < length bytes
        → next (between bytes offset) ≡ (stopped bytes offset, some (incomplete_at offset))
    unfolding next next_item next_at outside_item frame_item
    next_interrupted bytes offset at short = elim (leb_cases 4 (length tail)) [
      | inl full ↦ ground (
        arith,
        tail_starts full,
        (scan_frame_interrupted g tail x back h.sequence (encode_ec03_lem g ∙ rw (h.fit, cut))).0,
      )
      | inr less ↦ ground arith
    ]

    -- After an append that was interrupted within a frame, every earlier record is still read, the cut
    -- frame is reported once as an incomplete tail, and none of its bytes are consumed.
    pub collect_interrupted :
        (fs : List Ec03Frame) (fuel : ℕ)
        → All IsEncodable fs
        → 0 < length tail
        → length (segment_wire fs ++ tail) ≤ max_64
        → length (segment_items 0 fs) + 1 < fuel
        → collect fuel (new (segment_wire fs ++ tail)) ≡ (
          segment_items 0 fs ++ (incomplete_at (length (segment_wire fs)) ∷ []),
          stopped (segment_wire fs ++ tail) (length (segment_wire fs)),
        )
    collect_interrupted fs fuel hs some_byte room k =
        let bytes : List ℕ = segment_wire fs ++ tail in
        let e : 0 + segment_length fs ≡ length (segment_wire fs) =
          omega (arith, length-segment_wire fs hs) in
        Emits-collect (new bytes)
          (Emits-append (rw e at (segment_emit fs [] tail bytes 0 refl refl room hs)) (
            there
              (next_interrupted bytes (length (segment_wire fs))
                (drop-append _ (segment_wire fs) tail refl)
                (omega (arith, length-append (segment_wire fs) tail)))
              here))
          (unfold next in refl) fuel
          (omega (
            arith,
            length-append (segment_items 0 fs) (incomplete_at (length (segment_wire fs)) ∷ []),
          ))
