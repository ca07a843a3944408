-- ===== src/Sync/Session/Saving.antt =====
-- The methods that save what arrives, in crates/editchain-sync/src/session.rs: each keeps the page covered, and what it
-- acknowledges is durable.
use editchain.Prelude.{
  ◌≡◌, refl, Bool, true, false, inl, inr, Option, none, some, List, [], ◌∷◌, ◌++◌, length, not, ltb,
  leb, saturating_add, All, All-append, Bool-cases,
}
use editchain.Core.Ids.{Bytes}
use editchain.Sync.Action.{Returns, holds}
use editchain.Sync.Action.Rules.{
  ok-Returns, resume-Returns, Returns-state, Returns-both, lift-Returns, widen-Returns,
  raise_if-Returns, or_raise-Returns, Returns-weaken,
}
use editchain.Sync.Record.{
  RecordKey, RecordFormat, SyncError, Snapshot, contains, same_key, from_encoded, max_object_bytes,
}
use editchain.Sync.Message.{Message, Object}
use editchain.Sync.Storage.{Storage, Durability}
use editchain.Sync.Transfer.{Download}
use editchain.Sync.Session.{Session, batch_bytes}
use editchain.Sync.Session.Pulling.{
  save, flush, flush_if, publish, stage, settle, complete, batch_saved, push_staged,
}
use editchain.Sync.Session.Coverage.{
  record_of, in_flight, flying, IsStaged-append, All-weaken, Covers, Evident, Covered, Grows,
  Honest, Extends, Covered-grow, Honest-extend, Extends-trans, acks-Honest, IsStaged-IsDurable,
  received-Evident,
}

module _ {ℓ κ} {R : Type ℓ} {E : Type κ} (api : Storage R E) (format : RecordFormat)
    (IsDurable : R → Object → Type 0) (d : Durability api IsDurable) where
  -- A method that keeps the page covered, with honest messages.
  abbrev pub Keeps : Option RecordKey → Session R → Session R → List Message → Type 0
  Keeps awaited s s' messages =
      Extends IsDurable s s' × (Covered IsDurable awaited s' × All (Honest IsDurable s') messages)

  -- The page once a batch is durable.
  saved-Covered :
      (awaited : Option RecordKey) (s : Session R) (r' : R) (local' : Snapshot)
      → Grows IsDurable s.replica r'
      → All (λ item. IsDurable r' (record_of item.0)) s.pull.staged
      → ((key : RecordKey)
          → contains local' key ≡ true
          → contains s.local key ≡ false
          → IsDurable r' (record_of key))
      → Covered IsDurable awaited s
      → Covered IsDurable awaited
          (batch_saved s.pull.staged (record s { replica = r'; local = local' }))
  saved-Covered awaited s r' local' g durable new h = (known, All-weaken s.pull.keys step h.1)
    where
      known : Evident IsDurable r' local'
      known key c = elim (Bool-cases (contains s.local key)) [
        | inl e ↦ g (record_of key) (h.0 key e)
        | inr e ↦ new key c e
      ]

      step :
          (key : RecordKey)
          → Covers IsDurable s.replica s.pull.records s.pull.staged awaited key
          → Covers IsDurable r' s.pull.records [] awaited key
      step key (inl c) = inl (g (record_of key) c)
      step key (inr (inl c)) = inr (inl c)
      step key (inr (inr (inl c))) =
          inl (IsStaged-IsDurable IsDurable r' key s.pull.staged durable c)
      step key (inr (inr (inr c))) = inr (inr (inr c))

  -- After a flush nothing is staged, and the records to ask for are the same.
  abbrev pub Flushed : Option RecordKey → Session R → Session R → List Message → Type 0
  Flushed awaited s s' messages =
      Keeps awaited s s' messages × ((s'.pull.staged ≡ []) × (s'.pull.records ≡ s.pull.records))

  save-Flushed :
      (awaited : Option RecordKey) (s : Session R) (staged : List (RecordKey × Bytes))
      → s.pull.staged ≡ staged
      → Covered IsDurable awaited s
      → Returns (save api format staged s) (Flushed awaited s)
  save-Flushed awaited s [] e h = holds ((((λ o k. k), refl), (h, tt)), (e, refl))
  save-Flushed awaited s (item ∷ rest) e h =
      widen-Returns _ _ (api.ingest_records (item ∷ rest) s.local s.replica) _
        (Returns-both _
          (Returns-state (api.ingest_records (item ∷ rest) s.local s.replica)
            (λ t. Grows IsDurable s.replica t.0)
            (λ o k. d.records_keep (item ∷ rest) s.local s.replica o k))
          (d.records_durable (item ∷ rest) s.local s.replica))
        (λ t _ q. ok-Returns _ _ _ (
          holds (
            (
              (q.0, refl),
              (
                coe 0 1
                    (i.
                      Covered IsDurable awaited
                        (batch_saved (e i) (record s { replica = t.0; local = t.1 })))
                    (saved-Covered awaited s t.0 t.1 q.0
                      (coe 1 0 (i. All (λ item. IsDurable t.0 (record_of item.0)) (e i)) q.1.0)
                      q.1.1 h),
                acks-Honest IsDurable
                    (batch_saved (item ∷ rest) (record s { replica = t.0; local = t.1 }))
                    (item ∷ rest) q.1.0,
              ),
            ),
            (refl, refl),
          )))

  pub flush-Flushed :
      (awaited : Option RecordKey) (s : Session R)
      → Covered IsDurable awaited s
      → Returns (flush api format s) (Flushed awaited s)
  unfolding flush
  flush-Flushed awaited s h = ok-Returns _ _ _ (save-Flushed awaited s s.pull.staged refl h)

  flush_if-Keeps :
      (awaited : Option RecordKey) (b : Bool) (s : Session R)
      → Covered IsDurable awaited s
      → Returns (flush_if api format b s) (Keeps awaited s)
  flush_if-Keeps awaited true s h = Returns-weaken _ (flush-Flushed awaited s h) (λ s' m q. q.0)
  flush_if-Keeps awaited false s h = holds (((λ o k. k), refl), (h, tt))

  publish-Keeps :
      (s : Session R) (download : Download) (hash : Bytes)
      → download.object.blob ≡ some hash
      → Covered IsDurable none s
      → Returns (publish api format download hash s) (Keeps none s)
  unfolding publish
  publish-Keeps s download hash e h =
      widen-Returns _ _ (api.ingest_blob download.object.key hash download.bytes s.replica) _
        (Returns-both _
          (Returns-state (api.ingest_blob download.object.key hash download.bytes s.replica)
            (λ t. Grows IsDurable s.replica t)
            (λ o k. d.blob_keeps download.object.key hash download.bytes s.replica o k))
          (d.blob_durable download.object.key hash download.bytes s.replica))
        (λ r' _ q. ok-Returns _ _ _ (
          holds (
            (q.0, refl),
            (
              (
                received-Evident IsDurable r' s.local hash
                    (Covered-grow IsDurable none s r' q.0 h).0,
                (Covered-grow IsDurable none s r' q.0 h).1,
              ),
              (
                coe 1 0 (i. IsDurable r' (record { key = download.object.key; blob = e i })) q.1,
                tt,
              ),
            ),
          )))

  push_staged-Covered :
      (s : Session R) (download : Download)
      → Covered IsDurable (some download.object.key) s
      → Covered IsDurable none (record s { pull = push_staged download s.pull })
  push_staged-Covered s download h = (h.0, All-weaken s.pull.keys step h.1)
    where
      step :
          (key : RecordKey)
          → Covers IsDurable s.replica s.pull.records s.pull.staged (some download.object.key) key
          → Covers IsDurable s.replica s.pull.records
              (s.pull.staged ++ ((download.object.key, download.bytes) ∷ []))
              none
              key
      step key (inl c) = inl c
      step key (inr (inl c)) = inr (inl c)
      step key (inr (inr (inl c))) = inr (
          inr
            (inl (IsStaged-append key s.pull.staged (download.object.key, download.bytes) (inl c))))
      step key (inr (inr (inr c))) =
          let f : key ≡ download.object.key = cc in
          inr (
            inr (
              inl
                (IsStaged-append key s.pull.staged (download.object.key, download.bytes) (inr f))))

  pub Keeps-then :
      (awaited : Option RecordKey) (s t u : Session R) (early late : List Message)
      → Extends IsDurable s t
      → All (Honest IsDurable t) early
      → Keeps awaited t u late
      → Keeps awaited s u (early ++ late)
  Keeps-then awaited s t u early late g early_ok k = (
    Extends-trans IsDurable s t u g k.0,
    (
      k.1.0,
      All-append (Honest IsDurable u) early late (Honest-extend IsDurable t u early k.0 early_ok)
          k.1.1,
    ),
  )

  stage-Keeps :
      (s : Session R) (download : Download)
      → Covered IsDurable (some download.object.key) s
      → Returns (stage api format download s) (Keeps none s)
  unfolding stage
  stage-Keeps s download h = lift-Returns (from_encoded format download.bytes) s _ (λ actual _.
      raise_if-Returns (not (same_key actual download.object.key)) SyncError.invalid s _ (λ _.
        ok-Returns _ _ _ (
          resume-Returns (flush_if api format (crowded s) s) _
            (flush_if-Keeps (some download.object.key) (crowded s) s h)
            (λ t early q. ok-Returns _ _ _ (
              ok-Returns _ _ _ (
                resume-Returns (flush_if api format (full t) (pushed t)) _
                  (flush_if-Keeps none (full t) (pushed t) (push_staged-Covered t download q.1.0))
                  (λ u late k. holds (Keeps-then none s t u early late q.0 q.1.1 (k.0, k.1)))))))))
    where
      crowded : Session R → Bool
      crowded s = ltb max_object_bytes (saturating_add s.pull.staged_bytes (length download.bytes))

      pushed : Session R → Session R
      pushed t = record t { pull = push_staged download t.pull }

      full : Session R → Bool
      full t = leb batch_bytes (pushed t).pull.staged_bytes

  settle-Keeps :
      (s : Session R) (download : Download) (blob : Option Bytes)
      → download.object.blob ≡ blob
      → Covered IsDurable (flying download.object.key blob) s
      → Returns (settle api format download blob s) (Keeps none s)
  settle-Keeps s download none e h = stage-Keeps s download h
  settle-Keeps s download (some hash) e h = publish-Keeps s download hash e h

  -- What has arrived is saved or staged, and the download is over.
  pub complete-Keeps :
      (s : Session R)
      → Covered IsDurable (in_flight s.pull.download) s
      → Returns (complete api format s) (Keeps none s)
  unfolding complete
  complete-Keeps s h = ok-Returns _ _ _ (
      or_raise-Returns s.pull.download SyncError.invalid s _ (λ download e. ok-Returns _ _ _ (
        settle-Keeps (record s { pull = record s.pull { download = none } }) download
          download.object.blob refl (coe 0 1 (i. Covered IsDurable (in_flight (e i)) s) h))))
