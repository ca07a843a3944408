-- ===== src/Sync/Session/Pulling.antt =====
-- The receiving side of crates/editchain-sync/src/session.rs: a page of the inventory, the objects that it lacks, the
-- batches that are saved, and the confirmation of the page. A method that pushes replies returns those that it pushes.
use editchain.Prelude.{
  ℕ, Bool, true, false, not, ◌&&◌, ◌||◌, Option, none, some, List, [], ◌∷◌, ◌++◌, length, ltb, leb,
  ◌==◌, is_empty, last, saturating_add, checked_add,
}
use editchain.Collections.Map.{Set, find, put}
use editchain.Core.Ids.{Bytes}
use editchain.Sync.Action.{◌>>=◌, ◌>>◌, pure, or_raise, raise_if, gets, modify, lift}
use editchain.Sync.Record.{
  RecordKey, ord_record_key, RecordFormat, SyncError, Snapshot, contains, received_blob, is_some,
  same_key, from_encoded, max_object_bytes, inventory_page,
}
use editchain.Sync.Message.{Message, Object, ord_object, need_at, ack_of}
use editchain.Sync.Storage.{Storage}
use editchain.Sync.Transfer.{Download, download_new, differs}
use editchain.Sync.Session.{Pull, Session, Method, on_store, on_local, set_pull, batch_bytes}

abbrev pub max_safe_total : ℕ
max_safe_total = 9007199254740991

abbrev pub key_set : List RecordKey → Set RecordKey → Set RecordKey
key_set [] set = set
key_set (key ∷ rest) set = key_set rest (put set key tt)

abbrev pub unlike : Bool → Bool → Bool
unlike true b = not b
unlike false b = b

-- The keys of a page that are not there yet.
unfoldable pub lacking : Snapshot → List RecordKey → List RecordKey
lacking local [] = []
lacking local (key ∷ rest) = elim (contains local key) [
  | true ↦ lacking local rest
  | false ↦ key ∷ lacking local rest
]

-- The acknowledgments of a batch, and the count of its records.
unfoldable pub acks : List (RecordKey × Bytes) → List Message
acks [] = []
acks ((key, bytes) ∷ rest) = ack_of (record { key = key; blob = none }) ∷ acks rest

abbrev pub count_records : List (RecordKey × Bytes) → ℕ → ℕ
count_records [] n = n
count_records (item ∷ rest) n = count_records rest (saturating_add n 1)

-- `if self.pull.more`
abbrev pub end_messages : Bool → Pull → List Message
end_messages true pull = Message.checked pull.position ∷ (Message.inventory pull.after ∷ [])
end_messages false pull = Message.checked pull.position ∷ []

abbrev pub push_staged : Download → Pull → Pull
push_staged download pull = record pull {
  staged_bytes = saturating_add pull.staged_bytes (length download.bytes);
  staged = pull.staged ++ ((download.object.key, download.bytes) ∷ []);
}

module _ {ℓ} {R : Type ℓ} where
  abbrev pub accept_page : ℕ → ℕ → List RecordKey → Bool → Session R → Session R
  accept_page end total records more s = record s {
    progress = record s.progress {
      incoming = record s.progress.incoming { total_records = some total };
    };
    pull = record s.pull {
      position = end;
      after = last records;
      waiting_page = false;
      more = more;
      records = lacking s.local records;
      keys = records;
      tried = [];
    };
  }

  -- The page is checked: the next one is asked for, or the round ends.
  abbrev pub end_page : Bool → Session R → Session R
  end_page true s = record s {
    progress = record s.progress {
      incoming = record s.progress.incoming { checked_records = s.pull.position };
    };
    pull = record s.pull { waiting_page = true };
  }
  end_page false s = record s {
    progress = record s.progress {
      incoming = record s.progress.incoming { checked_records = s.pull.position; complete = true };
      synchronizing = false;
      rounds = saturating_add s.progress.rounds 1;
    };
  }

  abbrev pub blob_received : Bytes → Session R → Session R
  blob_received hash s = record s {
    local = received_blob s.local hash;
    progress = record s.progress { blobs = saturating_add s.progress.blobs 1 };
  }

  abbrev pub batch_saved : List (RecordKey × Bytes) → Session R → Session R
  batch_saved staged s = record s {
    progress = record s.progress { records = count_records staged s.progress.records };
    pull = record s.pull { staged = []; staged_bytes = 0 };
  }

module _ {ℓ κ} {R : Type ℓ} {E : Type κ} where
  unfoldable pub page : ℕ → ℕ → List RecordKey → Bool → Method R E (Unit {0})
  page offset total records more = do
    unsolicited ← gets (λ s.
        not s.pull.waiting_page
        || (ltb inventory_page (length records) || (more && is_empty records)))
    raise_if unsolicited SyncError.invalid
    misplaced ← gets (λ s.
        not (offset == s.pull.position) || not (length (key_set records []) == length records))
    raise_if misplaced SyncError.invalid
    end ← or_raise (checked_add offset (length records)) SyncError.invalid
    inconsistent ← gets (λ s.
        ltb max_safe_total total
        || (ltb total end
            || (unlike more (ltb end total) || differs s.progress.incoming.total_records total)))
    raise_if inconsistent SyncError.invalid
    modify (accept_page end total records more)

  unfoldable pub request : Object → Method R E (List Message)
  request object = do
    message ← lift (need_at object 0)
    set_pull (λ pull. record pull { download = some (download_new object) })
    pure (message ∷ [])

  unfoldable pub next_blob : List Object → Method R E (List Message)
  next_blob (object ∷ rest) = do set_pull (λ pull. record pull { blobs = rest }); request object
  next_blob [] = do
    messages ← gets (λ (s : Session R). end_messages s.pull.more s.pull)
    modify (λ (s : Session R). end_page s.pull.more s)
    pure messages

module _ {ℓ κ} {R : Type ℓ} {E : Type κ} (api : Storage R E) (format : RecordFormat) where
  abbrev pub save : List (RecordKey × Bytes) → Method R E (List Message)
  save [] = pure []
  save (item ∷ rest) = do
    on_local (λ t. api.ingest_records (item ∷ rest) t.1 t.0)
    modify (batch_saved (item ∷ rest))
    pure (acks (item ∷ rest))

  unfoldable pub flush : Method R E (List Message)
  flush = do staged ← gets (λ s. s.pull.staged); save staged

  abbrev pub flush_if : Bool → Method R E (List Message)
  flush_if true = flush
  flush_if false = pure []

  -- Content that has arrived is published; ...
  unfoldable pub publish : Download → Bytes → Method R E (List Message)
  publish download hash = do
    on_store (api.ingest_blob download.object.key hash download.bytes)
    modify (blob_received hash)
    pure (ack_of download.object ∷ [])

  -- ... a record is staged, and saved with its batch.
  unfoldable pub stage : Download → Method R E (List Message)
  stage download = do
    actual ← lift (from_encoded format download.bytes)
    raise_if (not (same_key actual download.object.key)) SyncError.invalid
    crowded ←
        gets
          (λ s. ltb max_object_bytes (saturating_add s.pull.staged_bytes (length download.bytes)))
    early ← flush_if crowded
    set_pull (push_staged download)
    full ← gets (λ s. leb batch_bytes s.pull.staged_bytes)
    late ← flush_if full
    pure (early ++ late)

  abbrev pub settle : Download → Option Bytes → Method R E (List Message)
  settle download (some hash) = publish download hash
  settle download none = stage download

  unfoldable pub complete : Method R E (List Message)
  complete = do
    taken ← gets (λ s. s.pull.download)
    download ← or_raise taken SyncError.invalid
    set_pull (λ pull. record pull { download = none })
    settle download download.object.blob

  abbrev pub queue_unless : Bool → Object → Method R E (Unit {0})
  queue_unless true object = pure tt
  queue_unless false object = set_pull (λ pull. record pull { blobs = pull.blobs ++ (object ∷ []) })

  -- Content that was not tried in this page is confirmed, or queued.
  abbrev pub confirm_if : Bool → RecordKey → Bytes → Method R E (Unit {0})
  confirm_if false key hash = pure tt
  confirm_if true key hash = do
    local ← gets (λ s. s.local)
    confirmed ← on_store (api.confirm_blob local key hash)
    queue_unless confirmed (record { key = key; blob = some hash })

  unfoldable pub find_hashes : RecordKey → List Bytes → Method R E (Unit {0})
  find_hashes key [] = pure tt
  find_hashes key (hash ∷ rest) = do
    fresh ← gets (λ s. not (is_some (find s.pull.tried (record { key = key; blob = some hash }))))
    set_pull
        (λ pull. record pull { tried = put pull.tried (record { key = key; blob = some hash }) tt })
    confirm_if fresh key hash
    find_hashes key rest

  unfoldable pub find_blobs : List RecordKey → Method R E (Unit {0})
  find_blobs [] = pure tt
  find_blobs (key ∷ rest) = do
    local ← gets (λ s. s.local)
    hashes ← on_store (api.blob_hashes local key)
    raise_if (ltb 4096 (length hashes)) SyncError.invalid
    find_hashes key hashes
    find_blobs rest

  abbrev pub find_if : Bool → Method R E (Unit {0})
  find_if false = pure tt
  find_if true = do keys ← gets (λ s. s.pull.keys); find_blobs keys

  abbrev pub advance_with : List RecordKey → Method R E (List Message)
  advance_with (key ∷ rest) = do
    set_pull (λ pull. record pull { records = rest })
    request (record { key = key; blob = none })
  advance_with [] = do
    saved ← flush
    done ← gets (λ s. is_empty s.pull.blobs)
    find_if done
    blobs ← gets (λ s. s.pull.blobs)
    messages ← next_blob blobs
    pure (saved ++ messages)

  unfoldable pub advance : Method R E (List Message)
  advance = do records ← gets (λ s. s.pull.records); advance_with records
