-- ===== src/Store/Format/Ec03/Truncation.antt =====
-- An interrupted append leaves a proper prefix of a frame, which readers must tell from corruption.
use editchain.Prelude.{
  ℕ, ◌≤◌, ◌<◌, ◌≡◌, true, Bool-cases, List, [], ◌∷◌, ◌++◌, append-nil, arith, leb_cases, inl, inr,
  length, length-append, ok, err, from_le_bytes, slice, slice-prefix, ap, u32_mod, ◌∙◌,
}
use editchain.Store.Format.Checksum.{Crc}
use editchain.Store.Format.Records.{FrameError}
use editchain.Store.Format.Ec03.{
  max_frame_bytes, FrameRef, frame_overhead, Ec03Frame, check_header, check_extent, scan_frame,
  decode_ec03, encode_ec03,
}
use editchain.Store.Format.Ec03.Layout.{frame_wire, fits, encode_ec03_lem}
use editchain.Store.Format.Ec03.Scanning.{
  IsHeader, IsFrame, array_cases, array_within, IsHeader-check_header,
}
use editchain.Store.Format.Ec03.RoundTrip.{wire-IsFrame, scanned, length-frame_wire}

module _ ⦃c : Crc⦄ where
  module _ (front back : List ℕ) where
    prefix-IsHeader : 32 ≤ length front → IsHeader (front ++ back) → IsHeader front
    prefix-IsHeader full h = record {
      full = full;
      starts = rw (slice-prefix front back 0 4 (omega arith) (omega arith)) at h.starts;
      header_sum =
          rw
            (
              slice-prefix front back 0 32 (omega arith) full,
              slice-prefix front back 28 32 (omega arith) full,
            )
            at h.header_sum;
      version = rw (slice-prefix front back 4 6 (omega arith) (omega arith)) at h.version;
      header_size = rw (slice-prefix front back 6 8 (omega arith) (omega arith)) at h.header_size;
      features = rw (slice-prefix front back 24 28 (omega arith) (omega arith)) at h.features;
    }

    prefix_short_header :
        length front < 32
        → IsHeader (front ++ back)
        → check_header front ≡ err FrameError.incomplete
    unfolding check_header
    prefix_short_header short h =
        ground (arith, array_cases 4 front 0, slice-prefix front back 0 4, h.starts)

    prefix_short_extent :
        32 ≤ length front
        → (len : ℕ) → from_le_bytes (slice (front ++ back) 8 12) ≡ len
        → frame_overhead ≤ len
        → len ≤ max_frame_bytes
        → length front < len
        → check_extent front ≡ err FrameError.incomplete
    unfolding check_extent
    prefix_short_extent full len declared room small short =
        ground (arith, array_within 4 front 8, slice-prefix front back 8 12)

    -- A frame that is longer than the input is reported as incomplete.
    scan_frame_prefix :
        (r : FrameRef)
        → IsFrame (front ++ back) r
        → length front < r.len
        → scan_frame front ≡ err FrameError.incomplete
    unfolding scan_frame
    scan_frame_prefix r h short = elim (leb_cases 32 (length front)) [
      | inl full ↦ ground (
        arith,
        IsHeader-check_header front (prefix-IsHeader full h.head),
        prefix_short_extent full r.len h.extent.declared h.extent.room h.extent.small short,
      )
      | inr less ↦ ground (arith, prefix_short_header less h.head)
    ]

  -- Every proper prefix of an encoded frame is `incomplete` to the reader: neither corrupt nor a frame.
  pub scan_frame_interrupted :
      (f : Ec03Frame) (front : List ℕ) (x : ℕ) (back : List ℕ)
      → f.page_sequence < u32_mod
      → encode_ec03 f ≡ ok (front ++ (x ∷ back))
      → (scan_frame front ≡ err FrameError.incomplete)
        × (decode_ec03 front ≡ err FrameError.incomplete)
  unfolding decode_ec03
  scan_frame_interrupted f front x back s h = elim (Bool-cases (fits f)) [
    | inl fit ↦ (scanned-err fit, rw (scanned-err fit))
    | inr big ↦ ground (arith, encode_ec03_lem f)
  ]
    where
      whole : fits f ≡ true → frame_wire f ++ [] ≡ front ++ (x ∷ back)
      whole fit = append-nil (frame_wire f) ∙ ground (arith, encode_ec03_lem f)

      scanned-err : fits f ≡ true → scan_frame front ≡ err FrameError.incomplete
      scanned-err fit =
          scan_frame_prefix front (x ∷ back) (scanned f [] fit s)
            (rw (whole fit) at (wire-IsFrame f [] fit s))
            (omega (
              arith,
              length-frame_wire f [] fit s,
              ap (λ (t : List ℕ). length t) (whole fit),
              length-append front (x ∷ back),
              length-append (frame_wire f) [],
            ))
