-- ===== src/Sync/Wire/Stream.antt =====
-- wire.rs: a stream of encoded messages, cut into chunks in any way, is decoded to the messages.
use editchain.Prelude.{
  ℕ, zero, suc, ◌+◌, ◌≡◌, ◌≤◌, ◌<◌, refl, sym, ap, ◌∙◌, List, [], ◌∷◌, ◌++◌, append_assoc,
  append-nil, length, length-append, All, Result, ok, err, stuck, arith,
}
use editchain.Sync.Wire.{
  Bytes, Codec, WireError, partial, bad, frame, max_frame_bytes, front, prepend, drain, push,
}
use editchain.Sync.Wire.Chunks.{
  IsContinued, turn, drain-turn, drain-IsContinued, push-drain, length-drain,
}

unfoldable pub concat : List Bytes → Bytes
concat [] = []
concat (chunk ∷ rest) = chunk ++ concat rest

module _ {ℓ} {M : Type ℓ} (codec : Codec M) where
  -- A successful step, and what follows it.
  abbrev follow :
      Bytes × Result WireError (List M)
      → (Bytes → Bytes × Result WireError (List M))
      → Bytes × Result WireError (List M)
  follow (buffer, ok messages) next = prepend codec messages (next buffer)
  follow (buffer, err e) next = (buffer, err e)
  follow (buffer, stuck) next = (buffer, stuck)

  -- The chunks of a connection, pushed one after the other until one fails.
  unfoldable pub push_all : Bytes → List Bytes → Bytes × Result WireError (List M)
  push_all buffer [] = (buffer, ok [])
  push_all buffer (chunk ∷ rest) = follow (push codec buffer chunk) (λ next. push_all next rest)

  -- No whole frame stands at the front of a buffer.
  abbrev IsSettled : Bytes → Type ℓ
  IsSettled buffer = front codec buffer ≡ partial

  abbrev EndsSettled : Bytes × Result WireError (List M) → Type ℓ
  EndsSettled (buffer, ok messages) = IsSettled buffer
  EndsSettled (buffer, err e) = Unit
  EndsSettled (buffer, stuck) = Unit

  prepend-EndsSettled :
      (ms : List M) (r : Bytes × Result WireError (List M))
      → EndsSettled r
      → EndsSettled (prepend codec ms r)
  prepend-EndsSettled ms (b, ok ns) h = h
  prepend-EndsSettled ms (b, err e) h = tt
  prepend-EndsSettled ms (b, stuck) h = tt

  drain-EndsSettled : (n : ℕ) (buffer : Bytes) → EndsSettled (drain codec n buffer)
  unfolding drain
  drain-EndsSettled zero buffer = tt
  drain-EndsSettled (suc n) buffer = coe 1 0 (i. EndsSettled (drain-turn codec n buffer i)) (
      (elim (front codec buffer)
          as (λ t. front codec buffer ≡ t → EndsSettled (turn codec buffer (drain codec n) t)) [
            | partial ↦ λ e. e
            | bad x ↦ λ e. tt
            | frame message rest ↦ λ e.
                prepend-EndsSettled (message ∷ []) (drain codec n rest) (drain-EndsSettled n rest)
          ])
        refl)

  -- The second run, behind messages of a first, of which the whole is known.
  unprepend :
      (ms : List M) (r k : Bytes × Result WireError (List M)) (b : Bytes) (whole : List M)
      → ((ns : List M) → r ≡ (b, ok ns) → k ≡ (b, ok ns))
      → (b, ok whole) ≡ prepend codec ms r
      → prepend codec ms k ≡ (b, ok whole)
  unprepend ms (c, ok ns) k b whole h e =
      let f : c ≡ b = ap (λ x. x.0) (sym e) in
      ap (prepend codec ms) (h ns (ap (λ x. (x, ok ns)) f))
      ∙ ap (λ x. (x, ok (ms ++ ns))) (sym f)
      ∙ sym e
  unprepend ms (c, err x) k b whole h e = let f : ok whole ≡ err x = ap (λ y. y.1) e in cc
  unprepend ms (c, stuck) k b whole h e = let f : ok whole ≡ stuck = ap (λ y. y.1) e in cc

module _ {ℓ} {M : Type ℓ} (codec : Codec M) where
  settled-run :
      (n : ℕ) (buffer : Bytes)
      → IsSettled codec buffer
      → 0 < n
      → drain codec n buffer ≡ (buffer, ok [])
  settled-run zero buffer h k = absurd (omega arith)
  settled-run (suc n) buffer h k =
      drain-turn codec n buffer ∙ ap (turn codec buffer (drain codec n)) h

  push_all-step :
      (n : ℕ) (chunk : Bytes) (rest : List Bytes) (b : Bytes) (ms : List M)
      (r whole : Bytes × Result WireError (List M))
      → ((c : Bytes) (more : List M)
          → IsSettled codec c
          → length (c ++ concat rest) < n
          → drain codec n (c ++ concat rest) ≡ (b, ok more)
          → push_all codec c rest ≡ (b, ok more))
      → whole ≡ (b, ok ms)
      → EndsSettled codec r
      → length (r.0) + length (concat rest) < n
      → IsContinued codec n (concat rest) r whole
      → follow codec r (λ next. push_all codec next rest) ≡ (b, ok ms)
  push_all-step n chunk rest b ms (c, ok ns) whole later h settled enough cont =
      let e = length-append c (concat rest) in
      unprepend codec ns (drain codec n (c ++ concat rest)) (push_all codec c rest) b ms
        (λ more f. later c more settled (omega arith) f) (sym h ∙ cont)
  push_all-step n chunk rest b ms (c, err x) whole later h settled enough cont =
      let f : ok ms ≡ err x = sym (ap (λ y. y.1) h) ∙ cont in cc
  push_all-step n chunk rest b ms (c, stuck) whole later h settled enough cont = absurd (cont.0)

  pub push_all-drain :
      (n : ℕ) (buffer : Bytes) (chunks : List Bytes) (b : Bytes) (ms : List M)
      → IsSettled codec buffer
      → All (λ chunk. length chunk ≤ max_frame_bytes) chunks
      → length (buffer ++ concat chunks) < n
      → drain codec n (buffer ++ concat chunks) ≡ (b, ok ms)
      → push_all codec buffer chunks ≡ (b, ok ms)
  unfolding push_all concat
  push_all-drain n buffer [] b ms settled fits enough h =
      sym (settled-run n buffer settled (omega arith))
      ∙ ap (drain codec n) (sym (append-nil buffer))
      ∙ h
  push_all-drain n buffer (chunk ∷ rest) b ms settled (fit, fits) enough h =
      let bc = length-append buffer (chunk ++ concat rest) in
      let cr = length-append chunk (concat rest) in
      let bc' = length-append buffer chunk in
      let less = length-drain codec n (buffer ++ chunk) in
      coe 1 0
        (i.
          follow codec (push-drain codec n buffer chunk fit (omega arith) i)
            (λ next. push_all codec next rest)
          ≡ (b, ok ms))
        (push_all-step n chunk rest b ms (drain codec n (buffer ++ chunk))
          (drain codec n (buffer ++ (chunk ++ concat rest)))
          (λ c more settled' enough' f. push_all-drain n c rest b more settled' fits enough' f) h
          (drain-EndsSettled codec n (buffer ++ chunk)) (omega arith)
          (coe 0 1
            (i.
              IsContinued codec n (concat rest) (drain codec n (buffer ++ chunk))
                (drain codec n (append_assoc buffer chunk (concat rest) i)))
            (drain-IsContinued codec n (buffer ++ chunk) (concat rest) (omega arith))))
