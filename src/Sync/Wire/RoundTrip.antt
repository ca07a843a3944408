-- ===== src/Sync/Wire/RoundTrip.antt =====
-- wire.rs: what `encode_message` writes, however it is cut into chunks, the decoder reads back.
use editchain.Prelude.{
  ℕ, zero, suc, ◌+◌, ◌≡◌, ◌≤◌, ◌<◌, ◌==◌, ◌||◌, refl, ap, ◌∙◌, false, some, List, [], ◌∷◌, ◌++◌,
  append_assoc, length, length-append, drop, drop-append, slice, slice-append, get_range, ltb,
  ltb-false, All, Result, ok, checked_add, to_le_bytes, length-to_le_bytes,
  from_le_bytes-to_le_bytes, if◌then◌else◌, arith, ◌>>=◌,
}
use editchain.Sync.Wire.{
  Bytes, Codec, WireError, partial, bad, frame, max_frame_bytes, encode_message, decode_message,
  with_payload, with_range, with_end, with_length, with_header, front, prepend, drain, finish,
}
use editchain.Sync.Wire.Chunks.{get_range-some, drain-turn, turn}
use editchain.Sync.Wire.Stream.{concat, push_all, push_all-drain}

abbrev wire : Bytes → Bytes
wire payload = to_le_bytes 4 (length payload) ++ payload

length_allowed :
    (len : ℕ) → 0 < len → len ≤ max_frame_bytes → (len == 0) || ltb max_frame_bytes len ≡ false
length_allowed len h k = ground arith

checked_add-some : (len : ℕ) → len ≤ max_frame_bytes → checked_add len 4 ≡ some (len + 4)
checked_add-some len h = ground arith

front_nothing {ℓ} : {M : Type ℓ} → (codec : Codec M) → front codec [] ≡ partial
unfolding front
front_nothing codec = refl

module _ {ℓ} {M : Type ℓ} (codec : Codec M) where
  -- A message that the codec writes within the limits, and reads back.
  abbrev pub IsSendable : M → Type ℓ
  IsSendable message =
      (payload : Bytes) × (codec.to_vec message ≡ some payload)
      × (0 < length payload)
      × (length payload ≤ max_frame_bytes)
      × (codec.take_from_bytes payload ≡ some (message, []))

  encode_message-wire :
      (message : M) (payload : Bytes)
      → codec.to_vec message ≡ some payload
      → length payload ≤ max_frame_bytes
      → encode_message codec message ≡ ok (wire payload)
  unfolding encode_message
  encode_message-wire message payload e h = rw (e, encode_message) (ground arith)

  decode_message-payload :
      (message : M) (payload : Bytes)
      → length payload ≤ max_frame_bytes
      → codec.take_from_bytes payload ≡ some (message, [])
      → decode_message codec payload ≡ ok message
  unfolding decode_message
  decode_message-payload message payload h e =
      rw (ltb-false max_frame_bytes (length payload) h, e) refl

  with_length-some :
      (buffer : Bytes) (len : ℕ)
      → 0 < len
      → len ≤ max_frame_bytes
      → with_length codec buffer len
        ≡ with_range codec buffer (len + 4) (get_range buffer 4 (len + 4))
  with_length-some buffer len h k =
      ap (λ b. if b then bad WireError.frame_length else with_end codec buffer (checked_add len 4))
        (length_allowed len h k)
      ∙ ap (with_end codec buffer) (checked_add-some len k)

  with_payload-ok :
      (message : M) (payload rest : Bytes)
      → decode_message codec payload ≡ ok message
      → with_payload codec payload rest ≡ frame message rest
  unfolding with_payload
  with_payload-ok message payload rest e = rw (e, with_payload)

  front-wire :
      (message : M) (payload more : Bytes)
      → 0 < length payload
      → length payload ≤ max_frame_bytes
      → codec.take_from_bytes payload ≡ some (message, [])
      → front codec (wire payload ++ more) ≡ frame message more
  unfolding front
  front-wire message payload more h k e =
      let n = length payload in
      let buffer = wire payload ++ more in
      let head = length-to_le_bytes 4 n in
      let size = length-append (wire payload) more in
      let size' = length-append (to_le_bytes 4 n) payload in
      let split : buffer ≡ to_le_bytes 4 n ++ (payload ++ more) =
        append_assoc (to_le_bytes 4 n) payload more in
      ap (with_header codec buffer) (
        get_range-some buffer 0 4 (omega arith) (omega arith)
        ∙ ap some (
            ap (λ x. slice x 0 4) split
            ∙ slice-append [] (to_le_bytes 4 n) (payload ++ more) 0 4 refl (omega arith)))
      ∙ ap (with_length codec buffer) (from_le_bytes-to_le_bytes 4 n (omega arith))
      ∙ with_length-some buffer n h k
      ∙ ap (with_range codec buffer (n + 4)) (
          get_range-some buffer 4 (n + 4) (omega arith) (omega arith)
          ∙ ap some (
              ap (λ x. slice x 4 (n + 4)) split
              ∙ slice-append (to_le_bytes 4 n) payload more 4 (n + 4) (omega arith) (omega arith)))
      ∙ with_payload-ok message payload (drop (n + 4) buffer)
          (decode_message-payload message payload k e)
      ∙ ap (frame message) (drop-append (n + 4) (wire payload) more (omega arith))

  -- What a peer writes for some messages, one after the other.
  unfoldable pub encode_all : List M → Result WireError Bytes
  encode_all [] = ok []
  encode_all (message ∷ rest) = do
    first ← encode_message codec message
    later ← encode_all rest
    ok (first ++ later)

  drain_nothing : (n : ℕ) → 0 < n → drain codec n [] ≡ ([], ok [])
  drain_nothing zero k = absurd (omega arith)
  drain_nothing (suc n) k =
      drain-turn codec n [] ∙ ap (turn codec [] (drain codec n)) (front_nothing codec)

  drain_one :
      (n : ℕ) (message : M) (payload stream : Bytes) (rest : List M)
      → length (wire payload ++ stream) < n
      → front codec (wire payload ++ stream) ≡ frame message stream
      → ((k : ℕ) → length stream < k → drain codec k stream ≡ ([], ok rest))
      → drain codec n (wire payload ++ stream) ≡ ([], ok (message ∷ rest))
  drain_one zero message payload stream rest k f read = absurd (omega arith)
  drain_one (suc n) message payload stream rest k f read =
      let a = length-append (wire payload) stream in
      let b = length-append (to_le_bytes 4 (length payload)) payload in
      let c = length-to_le_bytes 4 (length payload) in
      drain-turn codec n (wire payload ++ stream)
      ∙ ap (turn codec (wire payload ++ stream) (drain codec n)) f
      ∙ ap (prepend codec (message ∷ [])) (read n (omega arith))

  encode_all-ok :
      (messages : List M)
      → All IsSendable messages
      → (stream : Bytes) × (encode_all messages ≡ ok stream)
        × ((n : ℕ) → length stream < n → drain codec n stream ≡ ([], ok messages))
  unfolding encode_all
  encode_all-ok [] h = ([], refl, λ n k. drain_nothing n k)
  encode_all-ok (message ∷ rest) ((payload, e, low, high, back), h) =
      let (stream, written, read) = encode_all-ok rest h in
      (
        wire payload ++ stream,
        ap (λ r. r >>= λ first. encode_all rest >>= λ later. ok (first ++ later))
              (encode_message-wire message payload e high)
            ∙ ap (λ r. r >>= λ later. ok (wire payload ++ later)) written,
        λ n k.
            drain_one n message payload stream rest k
              (front-wire message payload stream low high back) read,
      )

  -- Messages that the codec writes within the limits and reads back are encoded; and however the bytes of the stream
  -- are cut into chunks within the limit, a fresh decoder returns exactly those messages in order, and the end of the
  -- stream then is no error.
  pub push_all-encode_all :
      (messages : List M)
      → All IsSendable messages
      → (stream : Bytes) × (encode_all messages ≡ ok stream)
        × ((chunks : List Bytes)
            → concat chunks ≡ stream
            → All (λ chunk. length chunk ≤ max_frame_bytes) chunks
            → (push_all codec [] chunks ≡ ([], ok messages))
              × (finish (push_all codec [] chunks).0 ≡ ok tt))
  push_all-encode_all messages h =
      let (stream, written, read) = encode_all-ok messages h in
      (
        stream,
        written,
        λ chunks cut fits.
            let done =
              push_all-drain codec (length (concat chunks) + 1) [] chunks [] messages
                (front_nothing codec) fits (omega arith)
                (ap (drain codec (length (concat chunks) + 1)) cut
                  ∙ read (length (concat chunks) + 1) (let e = ap length cut in omega arith)) in
            (done, ap (λ r. finish (r.0)) done),
      )
