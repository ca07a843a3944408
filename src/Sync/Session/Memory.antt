-- ===== src/Sync/Session/Memory.antt =====
-- What a session of crates/editchain-sync/src/session.rs holds in memory of what it receives.
use editchain.Prelude.{
  ℕ, ◌+◌, ◌≤◌, ◌<◌, ◌≡◌, refl, ap, ◌∙◌, Bool, true, false, not, Option, none, some, List, [], ◌∷◌,
  ◌++◌, length, leb, is_empty, arith,
}
use editchain.Collections.Map.{find, put}
use editchain.Core.Ids.{Bytes}
use editchain.Sync.Action.{Returns, holds}
use editchain.Sync.Action.Rules.{
  ok-Returns, resume-Returns, Returns-state, lift-Returns, widen-Returns, raise_if-Returns,
  or_raise-Returns,
}
use editchain.Sync.Record.{RecordKey, RecordFormat, SyncError, is_some, max_object_bytes}
use editchain.Sync.Message.{Message, Object, ord_object}
use editchain.Sync.Storage.{Storage}
use editchain.Sync.Transfer.{Download}
use editchain.Sync.Session.{Session, batch_bytes}
use editchain.Sync.Session.Pulling.{
  save, flush, flush_if, publish, stage, settle, complete, queue_unless, confirm_if, find_hashes,
  find_blobs, find_if, request, end_page, next_blob, advance_with, advance, push_staged,
}

-- The bytes of the records that wait to be saved.
abbrev pub staged_total : List (RecordKey × Bytes) → ℕ
staged_total [] = 0
staged_total (item ∷ rest) = length item.1 + staged_total rest

staged_total-append :
    (staged : List (RecordKey × Bytes)) (item : RecordKey × Bytes)
    → staged_total (staged ++ (item ∷ [])) ≡ staged_total staged + length item.1
staged_total-append [] item = omega arith
staged_total-append (x ∷ rest) item = omega (arith, staged_total-append rest item)

abbrev pub Fits : Option Download → Type 0
Fits none = Unit
Fits (some download) = length download.bytes ≤ max_object_bytes

module _ {ℓ} {R : Type ℓ} where
  -- The size that is kept is the size of the batch.
  abbrev pub IsExact : Session R → Type 0
  IsExact s = s.pull.staged_bytes ≡ staged_total s.pull.staged

  -- The batch that waits is below 4 MiB, and the download is of at most 64 MiB.
  abbrev pub IsLight : Session R → Type 0
  IsLight s = IsExact s × (s.pull.staged_bytes < batch_bytes) × Fits s.pull.download

  abbrev Flushes : Session R → Session R → Type 0
  Flushes s t =
      IsExact t × (t.pull.staged_bytes < batch_bytes) × (t.pull.download ≡ s.pull.download)

module _ {ℓ κ} {R : Type ℓ} {E : Type κ} (api : Storage R E) (format : RecordFormat) where
  save-Flushes :
      (staged : List (RecordKey × Bytes)) (s : Session R)
      → s.pull.staged ≡ staged
      → IsExact s
      → Returns (save api format staged s) (λ t _. Flushes s t)
  save-Flushes [] s e h = holds (h, omega (arith, h, ap staged_total e), refl)
  save-Flushes (item ∷ rest) s e h =
      widen-Returns _ _ (api.ingest_records (item ∷ rest) s.local s.replica) _
        (Returns-state (api.ingest_records (item ∷ rest) s.local s.replica) (λ t. Unit {0}) tt)
        (λ t _ _. ok-Returns _ _ _ (holds (refl, omega arith, refl)))

  flush-Flushes : (s : Session R) → IsExact s → Returns (flush api format s) (λ t _. Flushes s t)
  unfolding flush
  flush-Flushes s h = ok-Returns _ _ _ (save-Flushes s.pull.staged s refl h)

  flush_if-Flushes :
      (b : Bool) (s : Session R)
      → IsExact s
      → (b ≡ false → s.pull.staged_bytes < batch_bytes)
      → Returns (flush_if api format b s) (λ t _. Flushes s t)
  flush_if-Flushes true s h f = flush-Flushes s h
  flush_if-Flushes false s h f = holds (h, f refl, refl)

  -- A method that began with no download in hand.
  abbrev pub Rests : Session R → List Message → Type 0
  Rests t _ = IsExact t × (t.pull.staged_bytes < batch_bytes) × (t.pull.download ≡ none)

  stage-Rests :
      (download : Download) (s : Session R)
      → length download.bytes ≤ max_object_bytes
      → Rests s []
      → Returns (stage api format download s) Rests
  unfolding stage
  stage-Rests download s fits h = lift-Returns _ _ _ (λ actual _. raise_if-Returns _ _ _ _ (λ _.
      ok-Returns _ _ _ (
        resume-Returns _ _ (flush_if-Flushes _ s h.0 (λ _. h.1)) (λ t early q. ok-Returns _ _ _ (
          ok-Returns _ _ _ (
            resume-Returns _ _
              (flush_if-Flushes _ (record t { pull = push_staged download t.pull })
                (pushed t q.0 q.1) (not_full t))
              (λ u late k. holds (k.0, k.1, k.2 ∙ (q.2 ∙ h.2)))))))))
    where
      pushed :
          (t : Session R)
          → IsExact t
          → t.pull.staged_bytes < batch_bytes
          → IsExact (record t { pull = push_staged download t.pull })
      pushed t e b =
          omega (arith, e, staged_total-append t.pull.staged (download.object.key, download.bytes))

      not_full :
          (t : Session R)
          → leb batch_bytes (push_staged download t.pull).staged_bytes ≡ false
          → (push_staged download t.pull).staged_bytes < batch_bytes
      not_full t e = ground arith

  settle-Rests :
      (download : Download) (blob : Option Bytes) (s : Session R)
      → length download.bytes ≤ max_object_bytes
      → Rests s []
      → Returns (settle api format download blob s) Rests
  unfolding publish
  settle-Rests download none s fits h = stage-Rests download s fits h
  settle-Rests download (some hash) s fits h =
      widen-Returns _ _ (api.ingest_blob download.object.key hash download.bytes s.replica) _
        (Returns-state (api.ingest_blob download.object.key hash download.bytes s.replica)
          (λ r. Unit {0}) tt)
        (λ r _ _. ok-Returns _ _ _ (holds h))

  pub complete-Rests : (s : Session R) → IsLight s → Returns (complete api format s) Rests
  unfolding complete
  complete-Rests s h = ok-Returns _ _ _ (
      or_raise-Returns _ _ _ _ (λ download e. ok-Returns _ _ _ (
        settle-Rests download download.object.blob
          (record s { pull = record s.pull { download = none } }) (coe 0 1 (i. Fits (e i)) h.2)
          (h.0, h.1, refl))))

  abbrev pub Light : {A : Type 0} → Session R → A → Type 0
  Light t a = IsLight t

  confirm_if-Light :
      (b : Bool) (key : RecordKey) (hash : Bytes) (s : Session R)
      → IsLight s
      → Returns (confirm_if api format b key hash s) Light
  confirm_if-Light false key hash s h = holds h
  confirm_if-Light true key hash s h = ok-Returns _ _ _ (
      widen-Returns _ _ (api.confirm_blob s.local key hash s.replica) _
        (Returns-state (api.confirm_blob s.local key hash s.replica) (λ r. Unit {0}) tt)
        (λ r b _. queued b (record { key = key; blob = some hash }) (record s { replica = r }) h))
    where
      queued :
          (b : Bool) (object : Object) (s : Session R)
          → IsLight s
          → Returns (queue_unless api format b object s) Light
      queued true object s h = holds h
      queued false object s h = holds h

  find_hashes-Light :
      (key : RecordKey) (hashes : List Bytes) (s : Session R)
      → IsLight s
      → Returns (find_hashes api format key hashes s) Light
  unfolding find_hashes
  find_hashes-Light key [] s h = holds h
  find_hashes-Light key (hash ∷ rest) s h = ok-Returns _ _ _ (
      ok-Returns _ _ _ (
        resume-Returns _ _
          (confirm_if-Light (not (is_some (find s.pull.tried object))) key hash tried h)
          (λ t _ q. find_hashes-Light key rest t q)))
    where
      object : Object
      object = record { key = key; blob = some hash }

      tried : Session R
      tried = record s { pull = record s.pull { tried = put s.pull.tried object tt } }

  find_blobs-Light :
      (keys : List RecordKey) (s : Session R)
      → IsLight s
      → Returns (find_blobs api format keys s) Light
  unfolding find_blobs
  find_blobs-Light [] s h = holds h
  find_blobs-Light (key ∷ rest) s h = ok-Returns _ _ _ (
      widen-Returns _ _ (api.blob_hashes s.local key s.replica) _
        (Returns-state (api.blob_hashes s.local key s.replica) (λ r. Unit {0}) tt)
        (λ r hashes _. raise_if-Returns _ _ _ _ (λ _.
          resume-Returns _ _ (find_hashes-Light key hashes (record s { replica = r }) h)
            (λ t _ q. find_blobs-Light rest t q))))

  find_if-Light : (b : Bool) (s : Session R) → IsLight s → Returns (find_if api format b s) Light
  find_if-Light false s h = holds h
  find_if-Light true s h = ok-Returns _ _ _ (find_blobs-Light s.pull.keys s h)

  request-Light :
      (object : Object) (s : Session R)
      → IsLight s
      → Returns {E = SyncError E} (request object s) Light
  unfolding request
  request-Light object s h =
      lift-Returns _ _ _ (λ message _. ok-Returns _ _ _ (holds (h.0, h.1, omega arith)))

  next_blob-Light :
      (blobs : List Object) (s : Session R)
      → IsLight s
      → Returns {E = SyncError E} (next_blob blobs s) Light
  unfolding next_blob
  next_blob-Light (object ∷ rest) s h =
      ok-Returns _ _ _ (request-Light object (record s { pull = record s.pull { blobs = rest } }) h)
  next_blob-Light [] s h = ok-Returns _ _ _ (ok-Returns _ _ _ (holds (ended s.pull.more s h)))
    where
      ended : (more : Bool) (s : Session R) → IsLight s → IsLight (end_page more s)
      ended true s h = h
      ended false s h = h

  advance_with-Light :
      (records : List RecordKey) (s : Session R)
      → IsLight s
      → Returns (advance_with api format records s) Light
  advance_with-Light (key ∷ rest) s h = ok-Returns _ _ _ (
      request-Light (record { key = key; blob = none })
        (record s { pull = record s.pull { records = rest } }) h)
  advance_with-Light [] s h = resume-Returns _ _ (flush-Flushes s h.0) (λ t saved q.
      ok-Returns _ _ _ (
        resume-Returns _ _
          (find_if-Light (is_empty t.pull.blobs) t (q.0, q.1, coe 1 0 (i. Fits (q.2 i)) h.2))
          (λ u _ k.
            ok-Returns _ _ _
              (resume-Returns _ _ (next_blob-Light u.pull.blobs u k) (λ v messages m. holds m)))))

  pub advance-Light : (s : Session R) → IsLight s → Returns (advance api format s) Light
  unfolding advance
  advance-Light s h = ok-Returns _ _ _ (advance_with-Light s.pull.records s h)
