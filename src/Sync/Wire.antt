-- ===== src/Sync/Wire.antt =====
-- crates/editchain-sync/src/wire.rs: length-prefixed frames, and the decoder that takes them in chunks. The `postcard`
-- crate is the interface `Codec`: what it writes for a message, and what it reads from the front of some bytes.
use editchain.Prelude.{
  ℕ, zero, suc, ◌+◌, ◌≡◌, Bool, true, false, ◌||◌, not, Option, none, some, List, [], ◌∷◌, ◌++◌,
  length, is_empty, drop, get_range, ltb, ◌==◌, if◌then◌else◌, Result, ok, err, stuck, ◌>>=◌, ◌>>◌,
  ok_or, fail_if, u32_try_from, checked_add, to_le_bytes, from_le_bytes,
}
pub mod Chunks
pub mod Stream
pub mod RoundTrip

abbrev pub Bytes : Type 0
Bytes = List ℕ

abbrev pub max_frame_bytes : ℕ
max_frame_bytes = 131072

pub record Codec {ℓ} (M : Type ℓ) : Type ℓ where
  pub to_vec : M → Option Bytes
  pub take_from_bytes : Bytes → Option (M × Bytes)

pub data WireError : Type 0 where
  codec frame_limit frame_length length_overflow trailing_bytes chunk_limit truncated : WireError

-- What stands at the front of the decoder's buffer: not a whole frame yet, an error, or a message and the bytes behind
-- its frame.
pub data Front {ℓ} (M : Type ℓ) : Type ℓ where
  partial : Front M
  bad : WireError → Front M
  frame : M → Bytes → Front M

module _ {ℓ} {M : Type ℓ} (codec : Codec M) where
  unfoldable pub encode_message : M → Result WireError Bytes
  encode_message message = do
    payload ← ok_or (codec.to_vec message) WireError.codec
    fail_if (ltb max_frame_bytes (length payload)) WireError.frame_limit
    len ← ok_or (u32_try_from (length payload)) WireError.frame_limit
    ok (to_le_bytes 4 len ++ payload)

  unfoldable pub decode_message : Bytes → Result WireError M
  decode_message payload = do
    fail_if (ltb max_frame_bytes (length payload)) WireError.frame_limit
    (message, remaining) ← ok_or (codec.take_from_bytes payload) WireError.codec
    fail_if (not (is_empty remaining)) WireError.trailing_bytes
    ok message

  -- The body of the loop of `push`: with the payload of the frame and what stands behind it, ...
  unfoldable pub with_payload : Bytes → Bytes → Front M
  with_payload payload rest = elim (decode_message payload) [
    | ok message ↦ frame message rest
    | err e ↦ bad e
    | stuck ↦ partial
  ]

  -- ... with the range of the payload, ...
  abbrev pub with_range : Bytes → ℕ → Option Bytes → Front M
  with_range buffer end none = partial
  with_range buffer end (some payload) = with_payload payload (drop end buffer)

  -- ... with the end of the frame, ...
  abbrev pub with_end : Bytes → Option ℕ → Front M
  with_end buffer none = bad WireError.length_overflow
  with_end buffer (some end) = with_range buffer end (get_range buffer 4 end)

  -- ... and with the length that the header gives.
  abbrev pub with_length : Bytes → ℕ → Front M
  with_length buffer len =
      if (len == 0) || ltb max_frame_bytes len
      then bad WireError.frame_length
      else with_end buffer (checked_add len 4)

  abbrev pub with_header : Bytes → Option Bytes → Front M
  with_header buffer none = partial
  with_header buffer (some header) = with_length buffer (from_le_bytes header)

  unfoldable pub front : Bytes → Front M
  front buffer = with_header buffer (get_range buffer 0 4)

  abbrev pub prepend :
      List M → Bytes × Result WireError (List M) → Bytes × Result WireError (List M)
  prepend messages (buffer, result) = (buffer, result >>= λ more. ok (messages ++ more))

  -- The loop of `push`, on fuel, over the buffer. What an error leaves in the buffer is what the loop had reached.
  unfoldable pub drain : ℕ → Bytes → Bytes × Result WireError (List M)
  drain zero buffer = (buffer, stuck)
  drain (suc fuel) buffer = elim (front buffer) [
    | partial ↦ (buffer, ok [])
    | bad e ↦ (buffer, err e)
    | frame message rest ↦ prepend (message ∷ []) (drain fuel rest)
  ]

  unfoldable pub push : Bytes → Bytes → Bytes × Result WireError (List M)
  push buffer bytes =
      if ltb max_frame_bytes (length bytes)
      then (buffer, err WireError.chunk_limit)
      else drain (suc (length (buffer ++ bytes))) (buffer ++ bytes)

abbrev pub finish : Bytes → Result WireError (Unit {0})
finish buffer = if is_empty buffer then ok tt else err WireError.truncated
