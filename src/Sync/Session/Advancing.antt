-- ===== src/Sync/Session/Advancing.antt =====
-- The next object of a page, or its confirmation, in crates/editchain-sync/src/session.rs: a page is confirmed when each
-- record of it is durable.
use editchain.Prelude.{
  ◌≡◌, refl, sym, ap, ◌∙◌, Bool, true, false, inl, inr, none, some, List, [], ◌∷◌, length, not, ltb,
  is_empty,
}
use editchain.Collections.Map.{find, put}
use editchain.Core.Ids.{Bytes}
use editchain.Sync.Action.{Returns, holds}
use editchain.Sync.Action.Rules.{
  ok-Returns, resume-Returns, Returns-state, lift-Returns, widen-Returns, raise_if-Returns,
  Returns-weaken,
}
use editchain.Sync.Record.{RecordKey, ord_record_key, RecordFormat, SyncError, is_some}
use editchain.Sync.Message.{Message, Object, ord_object, need_at}
use editchain.Sync.Storage.{Storage, Durability}
use editchain.Sync.Session.{Session}
use editchain.Sync.Session.Pulling.{
  request, next_blob, queue_unless, confirm_if, find_hashes, find_blobs, find_if, advance_with,
  advance, end_page, end_messages,
}
use editchain.Sync.Session.Coverage.{
  record_of, In, flying, in_flight, All-weaken, Covers, Covered, Saved, Grows, need_at-Honest,
  Extends, Saved-grow, Covers-IsDurable, Saved-Covered, Honest-extend, Extends-trans,
}
use editchain.Sync.Session.Saving.{Keeps, Keeps-then, flush-Flushed}

module _ {ℓ κ} {R : Type ℓ} {E : Type κ} (api : Storage R E) (format : RecordFormat)
    (IsDurable : R → Object → Type 0) (d : Durability api IsDurable) where
  -- A method that keeps the page saved.
  abbrev KeepsSaved : Session R → Session R → Unit {0} → Type 0
  KeepsSaved s s' _ = Extends IsDurable s s' × Saved IsDurable s'

  KeepsSaved-trans :
      (s t u : Session R) → Extends IsDurable s t → KeepsSaved t u tt → KeepsSaved s u tt
  KeepsSaved-trans s t u g h = (Extends-trans IsDurable s t u g h.0, h.1)

  queue_unless-KeepsSaved :
      (b : Bool) (object : Object) (s : Session R)
      → Saved IsDurable s
      → Returns (queue_unless api format b object s) (KeepsSaved s)
  queue_unless-KeepsSaved true object s h = holds (((λ o k. k), refl), h)
  queue_unless-KeepsSaved false object s h = holds (((λ o k. k), refl), h)

  confirm_if-KeepsSaved :
      (b : Bool) (key : RecordKey) (hash : Bytes) (s : Session R)
      → Saved IsDurable s
      → Returns (confirm_if api format b key hash s) (KeepsSaved s)
  confirm_if-KeepsSaved false key hash s h = holds (((λ o k. k), refl), h)
  confirm_if-KeepsSaved true key hash s h = ok-Returns _ _ _ (
      widen-Returns _ _ (api.confirm_blob s.local key hash s.replica) _
        (Returns-state (api.confirm_blob s.local key hash s.replica)
          (λ r. Grows IsDurable s.replica r) (d.confirm_keeps s.local key hash s.replica))
        (λ r b g.
          Returns-weaken _
            (queue_unless-KeepsSaved b (record { key = key; blob = some hash })
              (record s { replica = r }) (Saved-grow IsDurable s r g h))
            (λ u _ k. KeepsSaved-trans s (record s { replica = r }) u (g, refl) k)))

  find_hashes-KeepsSaved :
      (key : RecordKey) (hashes : List Bytes) (s : Session R)
      → Saved IsDurable s
      → Returns (find_hashes api format key hashes s) (KeepsSaved s)
  unfolding find_hashes
  find_hashes-KeepsSaved key [] s h = holds (((λ o k. k), refl), h)
  find_hashes-KeepsSaved key (hash ∷ rest) s h = ok-Returns _ _ _ (
      ok-Returns _ _ _ (
        resume-Returns _ _
          (confirm_if-KeepsSaved (not (is_some (find s.pull.tried object))) key hash tried h)
          (λ t _ q.
            Returns-weaken _ (find_hashes-KeepsSaved key rest t q.1)
              (λ u _ k. KeepsSaved-trans s t u q.0 k))))
    where
      object : Object
      object = record { key = key; blob = some hash }

      tried : Session R
      tried = record s { pull = record s.pull { tried = put s.pull.tried object tt } }

  find_blobs-KeepsSaved :
      (keys : List RecordKey) (s : Session R)
      → Saved IsDurable s
      → Returns (find_blobs api format keys s) (KeepsSaved s)
  unfolding find_blobs
  find_blobs-KeepsSaved [] s h = holds (((λ o k. k), refl), h)
  find_blobs-KeepsSaved (key ∷ rest) s h = ok-Returns _ _ _ (
      widen-Returns _ _ (api.blob_hashes s.local key s.replica) _
        (Returns-state (api.blob_hashes s.local key s.replica) (λ r. Grows IsDurable s.replica r)
          (d.hashes_keep s.local key s.replica))
        (λ r hashes g.
          raise_if-Returns (ltb 4096 (length hashes)) SyncError.invalid (record s { replica = r }) _
            (λ _.
              resume-Returns _ _
                (find_hashes-KeepsSaved key hashes (record s { replica = r })
                  (Saved-grow IsDurable s r g h))
                (λ t _ q. Returns-weaken _ (find_blobs-KeepsSaved rest t q.1) (λ u _ k.
                  KeepsSaved-trans s t u
                    (Extends-trans IsDurable s (record s { replica = r }) t (g, refl) q.0) k)))))

  find_if-KeepsSaved :
      (b : Bool) (s : Session R)
      → Saved IsDurable s
      → Returns (find_if api format b s) (KeepsSaved s)
  find_if-KeepsSaved false s h = holds (((λ o k. k), refl), h)
  find_if-KeepsSaved true s h = ok-Returns _ _ _ (find_blobs-KeepsSaved s.pull.keys s h)

  -- A method after which what is covered takes the new download into account.
  abbrev pub Moves : Session R → Session R → List Message → Type 0
  Moves s s' messages = Keeps api format IsDurable d (in_flight s'.pull.download) s s' messages

  request-Moves :
      (object : Object) (s : Session R)
      → Covered IsDurable (flying object.key object.blob) s
      → Returns {E = SyncError E} (request object s) (Moves s)
  unfolding request
  request-Moves object s h = lift-Returns (need_at object 0) s _ (λ message e.
      ok-Returns _ _ _
        (holds (((λ o k. k), refl), (h, (need_at-Honest IsDurable s object 0 message e, tt)))))

  end_page-Moves :
      (more : Bool) (s : Session R)
      → Saved IsDurable s
      → Moves s (end_page more s) (end_messages more s.pull)
  end_page-Moves true s h = (
    ((λ o k. k), refl),
    (Saved-Covered IsDurable (in_flight s.pull.download) s h, (h.1, (tt, tt))),
  )
  end_page-Moves false s h =
      (((λ o k. k), refl), (Saved-Covered IsDurable (in_flight s.pull.download) s h, (h.1, tt)))

  next_blob-Moves :
      (blobs : List Object) (s : Session R)
      → Saved IsDurable s
      → Returns {E = SyncError E} (next_blob blobs s) (Moves s)
  unfolding next_blob
  next_blob-Moves (object ∷ rest) s h = ok-Returns _ _ _ (
      request-Moves object (record s { pull = record s.pull { blobs = rest } })
        (Saved-Covered IsDurable (flying object.key object.blob) s h))
  next_blob-Moves [] s h =
      ok-Returns _ _ _ (ok-Returns _ _ _ (holds (end_page-Moves s.pull.more s h)))

  popped :
      (s : Session R) (key : RecordKey) (rest : List RecordKey)
      → s.pull.records ≡ key ∷ rest
      → Covered IsDurable none s
      → Covered IsDurable (some key) (record s { pull = record s.pull { records = rest } })
  popped s key rest e h = (h.0, All-weaken s.pull.keys step h.1)
    where
      step :
          (k : RecordKey)
          → Covers IsDurable s.replica s.pull.records s.pull.staged none k
          → Covers IsDurable s.replica rest s.pull.staged (some key) k
      step k (inl c) = inl c
      step k (inr (inl c)) = elim (coe 0 1 (i. In k (e i)) c) [
        | inl f ↦ inr (inr (inr (sym (ap some f))))
        | inr f ↦ inr (inl f)
      ]
      step k (inr (inr (inl c))) = inr (inr (inl c))
      step k (inr (inr (inr c))) = cc

  advance_with-Moves :
      (records : List RecordKey) (s : Session R)
      → s.pull.records ≡ records
      → Covered IsDurable none s
      → Returns (advance_with api format records s) (Moves s)
  advance_with-Moves (key ∷ rest) s e h = ok-Returns _ _ _ (
      request-Moves (record_of key) (record s { pull = record s.pull { records = rest } })
        (popped s key rest e h))
  advance_with-Moves [] s e h =
      resume-Returns _ _ (flush-Flushed api format IsDurable d none s h) (λ t saved q.
        ok-Returns _ _ _ (
          resume-Returns _ _
            (find_if-KeepsSaved (is_empty t.pull.blobs) t (
              q.0.1.0.0,
              Covers-IsDurable IsDurable t.replica t.pull.records t.pull.staged t.pull.keys
                  (q.1.1 ∙ e) q.1.0 q.0.1.0.1,
            ))
            (λ u _ k. ok-Returns _ _ _ (
              resume-Returns _ _ (next_blob-Moves u.pull.blobs u k.1) (λ v messages m. holds (
                Keeps-then api format IsDurable d (in_flight v.pull.download) s u v saved messages
                  (Extends-trans IsDurable s t u q.0.0 k.0)
                  (Honest-extend IsDurable t u saved k.0 q.0.1.1) m))))))

  pub advance-Moves :
      (s : Session R) → Covered IsDurable none s → Returns (advance api format s) (Moves s)
  unfolding advance
  advance-Moves s h = ok-Returns _ _ _ (advance_with-Moves s.pull.records s refl h)
