-- ===== src/Sync/Wire/Chunks.antt =====
-- wire.rs: it does not matter how a stream is cut into the chunks that the decoder is given.
use editchain.Prelude.{
  ℕ, zero, suc, ◌+◌, ◌≡◌, ◌≤◌, ◌<◌, refl, sym, ap, ◌∙◌, true, false, ◌||◌, Option, none, some, List,
  [], ◌∷◌, ◌++◌, append_assoc, length, length-append, drop, slice, slice-prefix, get_range, ltb,
  ltb-false, leb_cases, ◌==◌, if◌then◌else◌, Result, ok, err, stuck, checked_add, from_le_bytes,
  inl, inr, arith, ◌>>=◌,
}
use editchain.Sync.Wire.{
  Bytes, Codec, WireError, Front, partial, bad, frame, max_frame_bytes, decode_message,
  with_payload, with_range, with_end, with_length, with_header, front, prepend, drain, push,
}

pub get_range-some :
    (xs : Bytes) (from to : ℕ)
    → from ≤ to
    → to ≤ length xs
    → get_range xs from to ≡ some (slice xs from to)
get_range-some xs from to h k = ground arith

get_range-none : (xs : Bytes) (from to : ℕ) → length xs < to → get_range xs from to ≡ none
get_range-none xs from to h = ground arith

drop-prefix : (n : ℕ) (xs ys : Bytes) → n ≤ length xs → drop n (xs ++ ys) ≡ drop n xs ++ ys
unfolding drop
drop-prefix zero xs ys h = refl
drop-prefix (suc n) [] ys h = absurd (omega arith)
drop-prefix (suc n) (x ∷ xs) ys h = drop-prefix n xs ys (omega arith)

length-drop_le : (n : ℕ) (xs : Bytes) → length (drop n xs) ≤ length xs
unfolding drop
length-drop_le zero xs = omega arith
length-drop_le (suc n) [] = omega arith
length-drop_le (suc n) (x ∷ xs) = let ih = length-drop_le n xs in omega arith

length-drop_lt : (n : ℕ) (xs : Bytes) → 4 ≤ n → n ≤ length xs → length (drop n xs) < length xs
unfolding drop
length-drop_lt zero xs h k = absurd (omega arith)
length-drop_lt (suc n) [] h k = absurd (omega arith)
length-drop_lt (suc n) (x ∷ xs) h k = let ih = length-drop_le n xs in omega arith

get_range-extend :
    (xs ys : Bytes) (from to : ℕ)
    → from ≤ to
    → to ≤ length xs
    → get_range (xs ++ ys) from to ≡ some (slice xs from to)
get_range-extend xs ys from to h k =
    get_range-some (xs ++ ys) from to h (let e = length-append xs ys in omega arith)
    ∙ ap some (slice-prefix xs ys from to h k)

module _ {ℓ} {M : Type ℓ} (codec : Codec M) where
  -- What the front of a buffer says of the front of a longer one.
  abbrev pub IsStable : Bytes → Bytes → Front M → Front M → Type ℓ
  IsStable buffer more partial longer = Unit
  IsStable buffer more (bad e) longer = longer ≡ bad e
  IsStable buffer more (frame message rest) longer =
      (longer ≡ frame message (rest ++ more)) × (length rest < length buffer)

  with_payload-IsStable :
      (buffer more payload rest : Bytes)
      → length rest < length buffer
      → IsStable buffer more
          (with_payload codec payload rest)
          (with_payload codec payload (rest ++ more))
  unfolding with_payload
  with_payload-IsStable buffer more payload rest h =
      elim (decode_message codec payload)
        as (λ r.
          IsStable buffer more
            (elim r [ ok message ↦ frame message rest | err e ↦ bad e | stuck ↦ partial ])
            (elim r [
              | ok message ↦ frame message (rest ++ more)
              | err e ↦ bad e
              | stuck ↦ partial
            ])) [ ok message ↦ (refl, h) | err e ↦ refl | stuck ↦ tt ]

  with_end-IsStable :
      (buffer more : Bytes) (end : Option ℕ)
      → ((n : ℕ) → end ≡ some n → 4 ≤ n)
      → IsStable buffer more (with_end codec buffer end) (with_end codec (buffer ++ more) end)
  with_end-IsStable buffer more none h = refl
  with_end-IsStable buffer more (some end) h =
      elim (leb_cases end (length buffer))
        as (λ _.
          IsStable buffer more (with_range codec buffer end (get_range buffer 4 end))
            (with_range codec (buffer ++ more) end (get_range (buffer ++ more) 4 end))) [
              | inl whole ↦
                  coe 1 0
                    (i.
                      IsStable buffer more
                        (with_range codec buffer end
                          (get_range-some buffer 4 end (h end refl) whole i))
                        (with_range codec (buffer ++ more) end
                          (get_range-extend buffer more 4 end (h end refl) whole i)))
                    (coe 1 0
                      (i.
                        IsStable buffer more
                          (with_payload codec (slice buffer 4 end) (drop end buffer))
                          (with_payload codec (slice buffer 4 end)
                            (drop-prefix end buffer more whole i)))
                      (with_payload-IsStable buffer more (slice buffer 4 end) (drop end buffer)
                        (length-drop_lt end buffer (h end refl) whole)))
              | inr short ↦
                  coe 1 0
                    (i.
                      IsStable buffer more
                        (with_range codec buffer end (get_range-none buffer 4 end short i))
                        (with_range codec (buffer ++ more) end (get_range (buffer ++ more) 4 end)))
                    tt
            ]

  checked_end : (len n : ℕ) → checked_add len 4 ≡ some n → 4 ≤ n
  checked_end len n h = ground (arith, h)

  with_length-IsStable :
      (buffer more : Bytes) (len : ℕ)
      → IsStable buffer more (with_length codec buffer len) (with_length codec (buffer ++ more) len)
  with_length-IsStable buffer more len =
      elim ((len == 0) || ltb max_frame_bytes len)
        as (λ b.
          IsStable buffer more
            (if b then bad WireError.frame_length else with_end codec buffer (checked_add len 4))
            (if b
              then bad WireError.frame_length
              else with_end codec (buffer ++ more) (checked_add len 4))) [
                | true ↦ refl
                | false ↦ with_end-IsStable buffer more (checked_add len 4) (checked_end len)
              ]

  -- More bytes behind a buffer do not change what its front is known to be.
  pub front-IsStable :
      (buffer more : Bytes)
      → IsStable buffer more (front codec buffer) (front codec (buffer ++ more))
  unfolding front
  front-IsStable buffer more =
      elim (leb_cases 4 (length buffer))
        as (λ _.
          IsStable buffer more (with_header codec buffer (get_range buffer 0 4))
            (with_header codec (buffer ++ more) (get_range (buffer ++ more) 0 4))) [
              | inl whole ↦
                  coe 1 0
                    (i.
                      IsStable buffer more
                        (with_header codec buffer (get_range-some buffer 0 4 (omega arith) whole i))
                        (with_header codec (buffer ++ more)
                          (get_range-extend buffer more 0 4 (omega arith) whole i)))
                    (with_length-IsStable buffer more (from_le_bytes (slice buffer 0 4)))
              | inr short ↦
                  coe 1 0
                    (i.
                      IsStable buffer more
                        (with_header codec buffer (get_range-none buffer 0 4 short i))
                        (with_header codec (buffer ++ more) (get_range (buffer ++ more) 0 4)))
                    tt
            ]

  -- A turn of the loop, by what the front of the buffer is.
  abbrev pub turn :
      Bytes
      → (Bytes → Bytes × Result WireError (List M))
      → Front M
      → Bytes × Result WireError (List M)
  turn buffer next partial = (buffer, ok [])
  turn buffer next (bad e) = (buffer, err e)
  turn buffer next (frame message rest) = prepend codec (message ∷ []) (next rest)

  pub drain-turn :
      (fuel : ℕ) (buffer : Bytes)
      → drain codec (suc fuel) buffer ≡ turn buffer (drain codec fuel) (front codec buffer)
  unfolding drain
  drain-turn fuel buffer =
      elim (front codec buffer)
        as (λ t.
          (elim t [
            | partial ↦ (buffer, ok [])
            | bad e ↦ (buffer, err e)
            | frame message rest ↦ prepend codec (message ∷ []) (drain codec fuel rest)
          ])
          ≡ turn buffer (drain codec fuel) t) [
            | partial ↦ refl
            | bad e ↦ refl
            | frame message rest ↦ refl
          ]

  -- The fuel does not matter, where it is more than the buffer is long.
  pub drain_enough :
      (n m : ℕ) (buffer : Bytes)
      → length buffer < n
      → length buffer < m
      → drain codec n buffer ≡ drain codec m buffer
  drain_enough zero m buffer h k = absurd (omega arith)
  drain_enough (suc n) zero buffer h k = absurd (omega arith)
  drain_enough (suc n) (suc m) buffer h k =
      drain-turn n buffer
      ∙ (elim (front codec buffer)
            as (λ t.
              IsStable buffer [] t (front codec (buffer ++ []))
              → turn buffer (drain codec n) t ≡ turn buffer (drain codec m) t) [
                | partial ↦ λ s. refl
                | bad e ↦ λ s. refl
                | frame message rest ↦ λ s.
                    let shorter = s.1 in
                    ap (prepend codec (message ∷ []))
                      (drain_enough n m rest (omega arith) (omega arith))
              ])
          (front-IsStable buffer [])
      ∙ sym (drain-turn m buffer)

  pub length-drain : (n : ℕ) (buffer : Bytes) → length (drain codec n buffer).0 ≤ length buffer
  unfolding drain
  length-drain zero buffer = omega arith
  length-drain (suc n) buffer = coe 1 0 (i. length (drain-turn n buffer i).0 ≤ length buffer) (
      (elim (front codec buffer)
          as (λ t.
            IsStable buffer [] t (front codec (buffer ++ []))
            → length (turn buffer (drain codec n) t).0 ≤ length buffer) [
              | partial ↦ λ s. omega arith
              | bad e ↦ λ s. omega arith
              | frame message rest ↦
                  λ s. let shorter = s.1 in let ih = length-drain n rest in omega arith
            ])
        (front-IsStable buffer []))

  prepend_nil : (r : Bytes × Result WireError (List M)) → prepend codec [] r ≡ r
  prepend_nil (b, ok ms) = refl
  prepend_nil (b, err e) = refl
  prepend_nil (b, stuck) = refl

  prepend-prepend :
      (m : M) (ms : List M) (r : Bytes × Result WireError (List M))
      → prepend codec (m ∷ []) (prepend codec ms r) ≡ prepend codec (m ∷ ms) r
  prepend-prepend m ms (b, ok ns) = refl
  prepend-prepend m ms (b, err e) = refl
  prepend-prepend m ms (b, stuck) = refl

  -- How the loop over a longer buffer goes on from the loop over its front.
  abbrev pub IsContinued :
      ℕ → Bytes → Bytes × Result WireError (List M) → Bytes × Result WireError (List M) → Type ℓ
  IsContinued n more (buffer, ok ms) whole =
      whole ≡ prepend codec ms (drain codec n (buffer ++ more))
  IsContinued n more (buffer, err e) whole = whole.1 ≡ err e
  IsContinued n more (buffer, stuck) whole = ⊥ × Unit {ℓ}

  IsContinued-prepend :
      (n : ℕ) (more : Bytes) (m : M) (r whole : Bytes × Result WireError (List M))
      → length (r.0) + length more < n
      → IsContinued n more r whole
      → IsContinued (suc n) more (prepend codec (m ∷ []) r) (prepend codec (m ∷ []) whole)
  IsContinued-prepend n more m (b, ok ms) whole h c =
      let e = length-append b more in
      ap (prepend codec (m ∷ [])) c
      ∙ prepend-prepend m ms (drain codec n (b ++ more))
      ∙ ap (prepend codec (m ∷ ms)) (drain_enough n (suc n) (b ++ more) (omega arith) (omega arith))
  IsContinued-prepend n more m (b, err e) whole h c = ap (λ r. r >>= λ more. ok (m ∷ more)) c
  IsContinued-prepend n more m (b, stuck) whole h c = absurd (c.0)

  pub drain-IsContinued :
      (n : ℕ) (buffer more : Bytes)
      → length buffer + length more < n
      → IsContinued n more (drain codec n buffer) (drain codec n (buffer ++ more))
  drain-IsContinued zero buffer more h = absurd (omega arith)
  drain-IsContinued (suc n) buffer more h =
      coe 1 0
        (i. IsContinued (suc n) more (drain-turn n buffer i) (drain codec (suc n) (buffer ++ more)))
        ((elim (front codec buffer)
            as (λ t.
              IsStable buffer more t (front codec (buffer ++ more))
              → IsContinued (suc n) more (turn buffer (drain codec n) t)
                  (drain codec (suc n) (buffer ++ more))) [
                    | partial ↦ λ s. sym (prepend_nil (drain codec (suc n) (buffer ++ more)))
                    | bad e ↦ λ s.
                        ap (λ r. r.1)
                          (drain-turn n (buffer ++ more)
                            ∙ ap (turn (buffer ++ more) (drain codec n)) s)
                    | frame message rest ↦ λ s.
                        let shorter = s.1 in
                        let less = length-drain n rest in
                        coe 1 0
                          (i.
                            IsContinued (suc n) more
                              (prepend codec (message ∷ []) (drain codec n rest))
                              ((drain-turn n (buffer ++ more)
                                  ∙ ap (turn (buffer ++ more) (drain codec n)) (s.0))
                                i))
                          (IsContinued-prepend n more message (drain codec n rest)
                            (drain codec n (rest ++ more)) (omega arith)
                            (drain-IsContinued n rest more (omega arith)))
                  ])
          (front-IsStable buffer more))

  -- What a push of two chunks at once is to be, given the push of the first.
  abbrev pub IsResumed :
      Bytes → Bytes × Result WireError (List M) → Bytes × Result WireError (List M) → Type ℓ
  IsResumed more (buffer, ok ms) whole = whole ≡ prepend codec ms (push codec buffer more)
  IsResumed more (buffer, err e) whole = whole.1 ≡ err e
  IsResumed more (buffer, stuck) whole = ⊥ × Unit {ℓ}

  pub push-drain :
      (n : ℕ) (buffer bytes : Bytes)
      → length bytes ≤ max_frame_bytes
      → length (buffer ++ bytes) < n
      → push codec buffer bytes ≡ drain codec n (buffer ++ bytes)
  unfolding push
  push-drain n buffer bytes h k =
      rw (ltb-false max_frame_bytes (length bytes) h)
        (drain_enough (suc (length (buffer ++ bytes))) n (buffer ++ bytes) (omega arith) k)

  resumed :
      (n : ℕ) (more : Bytes) (r whole : Bytes × Result WireError (List M))
      → length more ≤ max_frame_bytes
      → length (r.0) + length more < n
      → IsContinued n more r whole
      → IsResumed more r whole
  resumed n more (b, ok ms) whole h k c =
      let e = length-append b more in
      c ∙ ap (prepend codec ms) (sym (push-drain n b more h (omega arith)))
  resumed n more (b, err e) whole h k c = c
  resumed n more (b, stuck) whole h k c = c

  -- A chunk of two parts that is within the limit as a whole, at any state of the decoder. If pushing the first part
  -- returns messages, then pushing the whole is pushing the second part next: the same buffer, and the messages of the
  -- first part before those of the second, or the error of the second. If the first part is an error, then the whole is
  -- the same error. Pushing the first part always ends.
  pub push-append :
      (buffer a b : Bytes)
      → length (a ++ b) ≤ max_frame_bytes
      → IsResumed b (push codec buffer a) (push codec buffer (a ++ b))
  push-append buffer a b h =
      let ab = length-append a b in
      let n = length buffer + length a + length b + 1 in
      let ba = length-append buffer a in
      let whole : push codec buffer (a ++ b) ≡ drain codec n ((buffer ++ a) ++ b) =
        push-drain n buffer (a ++ b) h (let e = length-append buffer (a ++ b) in omega arith)
        ∙ ap (drain codec n) (sym (append_assoc buffer a b)) in
      let first : push codec buffer a ≡ drain codec n (buffer ++ a) =
        push-drain n buffer a (omega arith) (omega arith) in
      let less = length-drain n (buffer ++ a) in
      coe 1 0 (i. IsResumed b (first i) (whole i)) (
        resumed n b (drain codec n (buffer ++ a)) (drain codec n ((buffer ++ a) ++ b)) (omega arith)
          (omega arith) (drain-IsContinued n (buffer ++ a) b (omega arith)))
