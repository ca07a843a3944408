-- ===== src/Sync/Transfer/Delivery.antt =====
-- An object across both sides of crates/editchain-sync/src/transfer.rs: requests and chunks in turn, from `Source::need` to
-- `Download::append`, as two sessions pass them.
use editchain.Prelude.{
  eq_refl, eq_true, eq_false, eq_zero, ℕ, zero, suc, ◌+◌, ◌≤◌, ◌<◌, ◌≡◌, ◌≢◌, refl, sym, ap, ◌∙◌,
  Bool, true, false, not, ◌||◌, none, some, ◌++◌, length, drop, leb, ◌==◌, if◌then◌else◌, Result,
  ok, err, stuck, arith, length-take, length-drop, length-append, drop-append, take-append-drop,
  take-all, append_assoc,
}
use editchain.Collections.Map.{find, put, find-put_same}
use editchain.Core.Ids.{Bytes}
use editchain.Sync.Action.{Action, resume, raise}
use editchain.Sync.Action.Rules.{resume-ok, resume-eq, or_raise-some, raise_if-false}
use editchain.Sync.Record.{
  RecordFormat, SyncError, Snapshot, lookup, is_some, max_object_bytes, inventory_page,
}
use editchain.Sync.Message.{Message, Object, ord_object}
use editchain.Sync.Storage.{Storage}
use editchain.Sync.Transfer.{
  Download, download_new, Source, Active, append, differs, send, sent, chunk_of, chunk_bytes, start,
  need, content, send_or_miss, start_if,
}
use editchain.Sync.Transfer.Chunk.{front, send_next, append_next}

drop_zero : (bytes : Bytes) → drop 0 bytes ≡ bytes
unfolding drop
drop_zero bytes = refl

module _ {ℓ κ} {R : Type ℓ} {E : Type κ} (api : Storage R E) (format : RecordFormat) where
  abbrev pub Sent : Type (ℓ ⊔ κ)
  Sent = (Source × R) × Result (SyncError E) Download

  unfoldable pub receive_one : Message → Action Download (SyncError E) Bool
  receive_one (Message.chunk key blob offset total bytes) =
      append (record { key = key; blob = blob }) offset total bytes
  receive_one _ = raise SyncError.invalid

  unfoldable pub turn :
      (Source × R → Download → Sent) → Source × R → Download × Result (SyncError E) Bool → Sent
  turn k t (download, ok true) = (t, ok download)
  turn k t (download, ok false) = k t download
  turn k t (download, err e) = (t, err e)
  turn k t (download, stuck) = (t, stuck)

  -- Requests of a download and chunks of a source, until the download has its object.
  unfoldable pub deliver : ℕ → Object → Source × R → Download → Sent
  deliver zero object t download = (t, stuck)
  deliver (suc fuel) object t download =
      resume (λ message u. turn (deliver fuel object) u (receive_one message download))
        (need api format object (length download.bytes) t)

  -- The object has arrived, and its acknowledgment is awaited.
  abbrev pub Arrived : Bytes → Object → Sent → Type (ℓ ⊔ κ)
  Arrived bytes object x =
      (t : Source × R) × (download : Download) × (x ≡ (t, ok download))
      × (download.bytes ≡ bytes)
      × (t.0.active ≡ none)
      × (find t.0.unacked object ≡ some tt)

  abbrev active_at : Object → Bytes → ℕ → Active
  active_at object bytes next = record { object = object; bytes = bytes; next = next }

  abbrev grown : Download → Bytes → ℕ → Download
  grown download rest total = record download {
    bytes = download.bytes ++ front rest;
    total = some total;
  }

  abbrev reached : Download → Bytes → ℕ
  reached download rest = length download.bytes + length (front rest)

  step :
      (fuel : ℕ) (bytes rest : Bytes) (t u : Source × R) (download : Download)
      → need api format download.object (length download.bytes) t
        ≡ (u, ok (chunk_of download.object (length download.bytes) (length bytes) (front rest)))
      → length download.bytes + length rest ≡ length bytes
      → length bytes ≤ max_object_bytes
      → differs download.total (length bytes) ≡ false
      → deliver (suc fuel) download.object t download
        ≡ turn
            (deliver fuel download.object)
            u
            (grown download rest (length bytes), ok (reached download rest == length bytes))
  unfolding deliver receive_one
  step fuel bytes rest t u download asked e h k =
      resume-eq _ _ _ _ asked
      ∙ ap (turn (deliver fuel download.object) u) (append_next download rest (length bytes) e h k)

  need_next :
      (object : Object) (next : ℕ) (t : Source × R)
      → t.0.awaiting_check ≡ true
      → 0 < next
      → need api format object next t ≡ send object next t
  unfolding need
  need_next object next t awaiting h =
      resume-ok _ _ _
      ∙ raise_if-false _ _ _ _ (ap not awaiting)
      ∙ ap (λ b. resume (send_or_miss api format object next) (start_if api format b object t))
          (eq_zero next h)
      ∙ resume-ok _ _ _

  need_first :
      (object : Object) (t u : Source × R)
      → t.0.awaiting_check ≡ true
      → start api format object t ≡ (u, ok true)
      → need api format object 0 t ≡ send object 0 u
  unfolding need
  need_first object t u awaiting e =
      resume-ok _ _ _ ∙ raise_if-false _ _ _ _ (ap not awaiting) ∙ resume-eq _ _ _ _ e

  -- A source that has an object to send, and a download that asks for its next chunk.
  abbrev Pumps : ℕ → Type (ℓ ⊔ κ)
  Pumps fuel =
      (bytes rest : Bytes) (t : Source × R) (download : Download)
      → download.bytes ++ rest ≡ bytes
      → length bytes ≤ max_object_bytes
      → differs download.total (length bytes) ≡ false
      → t.0.awaiting_check ≡ true
      → t.0.active ≡ some (active_at download.object bytes (length download.bytes))
      → 0 < length download.bytes
      → length rest < fuel
      → Arrived bytes download.object (deliver fuel download.object t download)

  turn-Arrived :
      (fuel : ℕ)
      → Pumps fuel
      → (bytes rest : Bytes) (t : Source × R) (download : Download) (b : Bool)
      → (reached download rest == length bytes) ≡ b
      → download.bytes ++ rest ≡ bytes
      → length bytes ≤ max_object_bytes
      → t.0.awaiting_check ≡ true
      → length rest ≤ fuel
      → Arrived bytes download.object (
          turn
            (deliver fuel download.object)
            (
              if b
                  then record t.0 { active = none; unacked = put t.0.unacked download.object tt }
                  else record t.0 {
                    active = some (active_at download.object bytes (reached download rest));
                  },
              t.1,
            )
            (grown download rest (length bytes), ok b))
  unfolding turn
  turn-Arrived fuel pumps bytes rest t download true e h k awaiting f = (
    (record t.0 { active = none; unacked = put t.0.unacked download.object tt }, t.1),
    grown download rest (length bytes),
    refl,
    all,
    refl,
    find-put_same t.0.unacked download.object tt,
  )
    where
      count : length download.bytes + length rest ≡ length bytes
      count = omega (arith, length-append download.bytes rest, ap length h)

      short : length rest ≤ chunk_bytes
      short = omega (
        arith,
        eq_true (reached download rest) (length bytes) e,
        length-take chunk_bytes rest,
        count,
      )

      all : download.bytes ++ front rest ≡ bytes
      all = ap (λ r. download.bytes ++ r) (take-all chunk_bytes rest short) ∙ h
  turn-Arrived fuel pumps bytes rest t download false e h k awaiting f =
      pumps bytes (drop chunk_bytes rest)
        (
          record t.0 { active = some (active_at download.object bytes (reached download rest)) },
          t.1,
        )
        (grown download rest (length bytes))
        (append_assoc download.bytes (front rest) (drop chunk_bytes rest)
          ∙ ap (λ r. download.bytes ++ r) (take-append-drop chunk_bytes rest)
          ∙ h)
        k (ap not (eq_refl (length bytes))) awaiting
        (ap (λ n. some (active_at download.object bytes n))
          (sym (length-append download.bytes (front rest))))
        (omega (arith, grows, length-append download.bytes (front rest)))
        (omega (arith, grows, length-drop chunk_bytes rest))
    where
      count : length download.bytes + length rest ≡ length bytes
      count = omega (arith, length-append download.bytes rest, ap length h)

      -- A chunk that is not the last is full.
      grows : (length (front rest) ≡ chunk_bytes) × (chunk_bytes < length rest)
      grows =
          let apart : reached download rest ≢ length bytes =
            eq_false (reached download rest) (length bytes) e in
          grind (arith, length-take chunk_bytes rest, count)

  -- One turn of requests and chunks.
  pumped :
      (fuel : ℕ) (bytes rest : Bytes) (t : Source × R) (download : Download)
      → download.bytes ++ rest ≡ bytes
      → length bytes ≤ max_object_bytes
      → differs download.total (length bytes) ≡ false
      → t.0.awaiting_check ≡ true
      → t.0.active ≡ some (active_at download.object bytes (length download.bytes))
      → 0 < length download.bytes
      → deliver (suc fuel) download.object t download
        ≡ turn
            (deliver fuel download.object)
            (
              sent
                  (active_at download.object bytes (length download.bytes))
                  (reached download rest)
                  t.0,
              t.1,
            )
            (grown download rest (length bytes), ok (reached download rest == length bytes))
  pumped fuel bytes rest t download h k same_total awaiting active started =
      step fuel bytes rest t
        (
          sent (active_at download.object bytes (length download.bytes)) (reached download rest)
              t.0,
          t.1,
        )
        download
        (need_next download.object (length download.bytes) t awaiting started
          ∙ send_next download.object bytes rest (length download.bytes) t active left placed k)
        count k same_total
    where
      count : length download.bytes + length rest ≡ length bytes
      count = omega (arith, length-append download.bytes rest, ap length h)

      placed : length download.bytes ≤ length bytes
      placed = omega (arith, count)

      left : drop (length download.bytes) bytes ≡ rest
      left =
          coe 0 1 (i. drop (length download.bytes) (h i) ≡ rest)
            (drop-append (length download.bytes) download.bytes rest refl)

  Arrived-eq :
      (bytes : Bytes) (object : Object) (x y : Sent)
      → x ≡ y
      → Arrived bytes object y
      → Arrived bytes object x
  Arrived-eq bytes object x y e (t, download, f, whole, idle, held) =
      (t, download, e ∙ f, whole, idle, held)

  pump : (fuel : ℕ) → Pumps fuel
  pump zero bytes rest t download h k same_total awaiting active started f = absurd (omega arith)
  pump (suc fuel) bytes rest t download h k same_total awaiting active started f =
      Arrived-eq bytes download.object (deliver (suc fuel) download.object t download) _
        (pumped fuel bytes rest t download h k same_total awaiting active started)
        (turn-Arrived fuel (pump fuel) bytes rest t download (reached download rest == length bytes)
          refl h k awaiting (omega arith))

  -- An object that the source may be asked for: its record is offered, and its bytes can be read.
  abbrev pub MaySend : Object → Bytes → Source × R → Type (ℓ ⊔ κ)
  MaySend object bytes t =
      (t.0.awaiting_check ≡ true)
      × (t.0.active ≡ none)
      × (length t.0.unacked < inventory_page)
      × (find t.0.unacked object ≡ none)
      × (snapshot : Snapshot) × (encoded : Bytes) × (r : R) × (t.0.snapshot ≡ some snapshot)
      × (lookup snapshot object.key ≡ some encoded)
      × (content api format snapshot object encoded object.blob t ≡ ((t.0, r), ok (some bytes)))

  started :
      (object : Object) (bytes : Bytes) (t : Source × R) (h : MaySend object bytes t)
      → start api format object t
        ≡ ((record t.0 { active = some (active_at object bytes 0) }, h.6), ok true)
  unfolding start
  started object bytes t (awaiting, idle, few, fresh, snapshot, encoded, r, offered, found, read) =
      resume-ok _ _ _
      ∙ raise_if-false _ _ _ _ (free idle few fresh)
      ∙ resume-ok _ _ _
      ∙ or_raise-some _ _ _ _ _ offered
      ∙ or_raise-some _ _ _ _ _ found
      ∙ resume-eq _ _ _ _ read
      ∙ resume-ok _ _ _
    where
      free :
          t.0.active ≡ none
          → length t.0.unacked < inventory_page
          → find t.0.unacked object ≡ none
          → (is_some t.0.active
              || (leb inventory_page (length t.0.unacked) || is_some (find t.0.unacked object)))
            ≡ false
      free idle few fresh = rw (idle, fresh) (ground arith)

  -- A source that may send an object and a fresh download of it exchange requests and chunks until the download has exactly
  -- the bytes of the object, of at most 64 MiB, empty ones included; then nothing is in transfer, and the source waits for
  -- the acknowledgment. It takes no more turns than there are bytes, and one.
  pub deliver-Arrived :
      (object : Object) (bytes : Bytes) (t : Source × R)
      → MaySend object bytes t
      → length bytes ≤ max_object_bytes
      → Arrived bytes object (deliver (suc (length bytes)) object t (download_new object))
  deliver-Arrived object bytes t h k =
      Arrived-eq bytes object (deliver (suc (length bytes)) object t (download_new object)) _
        (step (length bytes) bytes bytes t
          (sent (active_at object bytes 0) (reached (download_new object) bytes) began.0, began.1)
          (download_new object)
          (need_first object t began h.0 (started object bytes t h)
            ∙ send_next object bytes bytes 0 began refl (drop_zero bytes) (omega arith) k)
          (omega arith) k refl)
        (turn-Arrived (length bytes) (pump (length bytes)) bytes bytes began (download_new object)
          (reached (download_new object) bytes == length bytes) refl refl k h.0 (omega arith))
    where
      began : Source × R
      began = (record t.0 { active = some (active_at object bytes 0) }, h.6)
