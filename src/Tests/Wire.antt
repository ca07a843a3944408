-- ===== src/Tests/Wire.antt =====
-- Runs of the frame decoder of wire.rs. A message is a number and its payload one byte.
use editchain.Prelude.{
  ℕ, ◌≤◌, length, List, All, ◌≡◌, refl, Option, none, some, [], ◌∷◌, ◌++◌, drop, slice, ok, err,
  to_le_bytes, from_le_bytes, arith,
}
use editchain.Sync.Wire.{
  Bytes, Codec, WireError, max_frame_bytes, encode_message, decode_message, with_payload, front,
  drain, push, finish,
}
use editchain.Sync.Wire.Stream.{concat, push_all}
use editchain.Sync.Wire.RoundTrip.{encode_all, push_all-encode_all}
use editchain.Sync.Wire.Chunks.{IsResumed, push-append}

abbrev read_byte : Bytes → Option (ℕ × Bytes)
read_byte [] = none
read_byte (byte ∷ rest) = some (byte, rest)

abbrev byte_codec : Codec ℕ
byte_codec = record { to_vec = λ n. some (n ∷ []); take_from_bytes = read_byte }

abbrev two_frames : Bytes
two_frames = 1 ∷ 0 ∷ 0 ∷ 0 ∷ 7 ∷ 1 ∷ 0 ∷ 0 ∷ 0 ∷ 8 ∷ []

encode_run : encode_message byte_codec 7 ≡ ok (1 ∷ 0 ∷ 0 ∷ 0 ∷ 7 ∷ [])
unfolding encode_message to_le_bytes
encode_run = refl

push_run : push byte_codec [] two_frames ≡ ([], ok (7 ∷ 8 ∷ []))
unfolding push drain front with_payload decode_message drop slice from_le_bytes
push_run = refl

push_partial : push byte_codec [] (1 ∷ 0 ∷ 0 ∷ 0 ∷ 7 ∷ 1 ∷ []) ≡ (1 ∷ [], ok (7 ∷ []))
unfolding push drain front with_payload decode_message drop slice from_le_bytes
push_partial = refl

push_empty_frame :
    push byte_codec [] (0 ∷ 0 ∷ 0 ∷ 0 ∷ []) ≡ (0 ∷ 0 ∷ 0 ∷ 0 ∷ [], err WireError.frame_length)
unfolding push drain front with_payload decode_message drop slice from_le_bytes
push_empty_frame = refl

finish_run : finish (1 ∷ []) ≡ err WireError.truncated
finish_run = refl

push-append_example :
    IsResumed byte_codec
      (0 ∷ 0 ∷ 0 ∷ 7 ∷ [])
      (push byte_codec [] (1 ∷ []))
      (push byte_codec [] ((1 ∷ []) ++ (0 ∷ 0 ∷ 0 ∷ 7 ∷ [])))
push-append_example = push-append byte_codec [] (1 ∷ []) (0 ∷ 0 ∷ 0 ∷ 7 ∷ []) (omega arith)

push_all-encode_all_example :
    (stream : Bytes) × (encode_all byte_codec (7 ∷ 8 ∷ []) ≡ ok stream)
    × ((chunks : List Bytes)
        → concat chunks ≡ stream
        → All (λ chunk. length chunk ≤ max_frame_bytes) chunks
        → (push_all byte_codec [] chunks ≡ ([], ok (7 ∷ 8 ∷ [])))
          × (finish (push_all byte_codec [] chunks).0 ≡ ok tt))
push_all-encode_all_example = push_all-encode_all byte_codec (7 ∷ 8 ∷ []) (
  (7 ∷ [], refl, omega arith, omega arith, refl),
  ((8 ∷ [], refl, omega arith, omega arith, refl), tt),
)
