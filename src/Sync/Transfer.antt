-- ===== src/Sync/Transfer.antt =====
-- crates/editchain-sync/src/transfer.rs: one object in flight in each direction, the receiving side as `Download` and the
-- sending side as `Source`.
use editchain.Prelude.{
  ℕ, Bool, true, false, not, ◌&&◌, ◌||◌, Option, none, some, List, [], ◌++◌, length, take, drop,
  ltb, leb, ◌==◌, is_empty, last, get_from, if◌then◌else◌, saturating_add, checked_add,
  u32_try_from,
}
use editchain.Collections.Map.{Set, find, put, erase, same}
use editchain.Core.Ids.{Bytes}
use editchain.Sync.Action.{Action, ◌>>=◌, ◌>>◌, pure, or_raise, raise_if, gets, modify, lift, zoom}
use editchain.Sync.Record.{
  RecordKey, ord_record_key, RecordFormat, SyncError, Snapshot, lookup, is_some, max_object_bytes,
  inventory_page,
}
use editchain.Sync.Message.{Message, Object, ord_object}
use editchain.Sync.Progress.{CheckProgress, no_check, DownloadProgress}
use editchain.Sync.Storage.{Storage}
use editchain.Sync.Inventory.{parent_first}
pub mod Chunk
pub mod Delivery
pub mod Bounds

abbrev pub chunk_bytes : ℕ
chunk_bytes = 65536

pub record Download : Type 0 where
  pub object : Object
  pub bytes : Bytes
  pub total : Option ℕ

abbrev pub download_new : Object → Download
download_new object = record { object = object; bytes = []; total = none }

abbrev pub download_progress : Download → DownloadProgress
download_progress download = record {
  content = is_some download.object.blob;
  received_bytes = length download.bytes;
  total_bytes = download.total;
}

-- `previous != total` for a total that is there, and `value != other` for an option.
abbrev pub differs : Option ℕ → ℕ → Bool
differs none total = false
differs (some previous) total = not (previous == total)

-- The guard of `append`.
abbrev pub unexpected : Download → Object → ℕ → ℕ → ℕ → Bytes → Bool
unexpected download object offset total end bytes =
    not (same object download.object)
    || (not (offset == length download.bytes)
        || (ltb max_object_bytes total
            || (differs download.total total
                || (ltb total end
                    || (ltb chunk_bytes (length bytes)
                        || (is_empty bytes && not (end == total)))))))

module _ {κ} {E : Type κ} where
  unfoldable pub append : Object → ℕ → ℕ → Bytes → Action Download (SyncError E) Bool
  append object offset total bytes = do
    end ← or_raise (checked_add offset (length bytes)) SyncError.invalid
    refused ← gets (λ download. unexpected download object offset total end bytes)
    raise_if refused SyncError.invalid
    modify (λ download. record download { bytes = download.bytes ++ bytes; total = some total })
    pure (end == total)

-- The object that is being sent, its bytes, and the offset of the next chunk.
pub record Active : Type 0 where
  pub object : Object
  pub bytes : Bytes
  pub next : ℕ

pub record Source : Type 0 where
  pub progress : CheckProgress
  pub snapshot : Option Snapshot
  pub order : List RecordKey
  pub next : ℕ
  pub cursor : Option RecordKey
  pub more : Bool
  pub active : Option Active
  pub unacked : Set Object
  pub awaiting_check : Bool

abbrev pub no_source : Source
no_source = record {
  progress = no_check;
  snapshot = none;
  order = [];
  next = 0;
  cursor = none;
  more = false;
  active = none;
  unacked = [];
  awaiting_check = false;
}

abbrev pub fresh_check : Source → List RecordKey → CheckProgress
fresh_check source order = record no_check {
  pass = saturating_add source.progress.pass 1;
  total_records = some (length order);
}

abbrev pub begin_pass : Snapshot → List RecordKey → Source → Source
begin_pass snapshot order source = record source {
  progress = fresh_check source order;
  snapshot = some snapshot;
  order = order;
  next = 0;
}

-- Whether `after != self.cursor`, for an `after` that is there.
abbrev pub is_cursor : RecordKey → Option RecordKey → Bool
is_cursor key none = false
is_cursor key (some cursor) = same key cursor

abbrev pub next_page : Source → List RecordKey
next_page source = take inventory_page (drop source.next source.order)

abbrev pub offer : Source → Source
offer source =
    let next = saturating_add source.next (length (next_page source)) in
    record source {
      next = next;
      cursor = last (next_page source);
      more = ltb next (length source.order);
      awaiting_check = true;
    }

abbrev pub page_of : Source → Message
page_of source =
    Message.page source.next (length source.order) (next_page source) (offer source).more

abbrev pub without_bytes : Source → Source
without_bytes source = record source {
  progress = record source.progress { unavailable = saturating_add source.progress.unavailable 1 };
}

-- A chunk has been taken: the transfer waits for the next request, or for the acknowledgment.
abbrev pub sent : Active → ℕ → Source → Source
sent active next source =
    if next == length active.bytes
    then record source { active = none; unacked = put source.unacked active.object tt }
    else record source { active = some (record active { next = next }) }

abbrev pub chunk_of : Object → ℕ → ℕ → Bytes → Message
chunk_of object offset total chunk = Message.chunk object.key object.blob offset total chunk

abbrev pub confirm : ℕ → Source → Source
confirm end source = record source {
  awaiting_check = false;
  progress = record source.progress { checked_records = end; complete = not source.more };
}

module _ {ℓ κ} (R : Type ℓ) (E : Type κ) where
  -- A method of the source that takes the storage too.
  abbrev pub Sending {μ} : Type μ → Type (ℓ ⊔ κ ⊔ μ)
  Sending A = Action (Source × R) (SyncError E) A

module _ {ℓ κ} {R : Type ℓ} {E : Type κ} where
  abbrev pub set_source : (Source → Source) → Sending R E (Unit {0})
  set_source f = modify (λ s. (f s.0, s.1))

  unfoldable pub send : Object → ℕ → Sending R E Message
  send object offset = do
    transfer ← gets (λ s. s.0.active)
    active ← or_raise transfer SyncError.invalid
    raise_if (not (same active.object object) || not (active.next == offset)) SyncError.invalid
    total ← or_raise (u32_try_from (length active.bytes)) SyncError.other
    rest ← or_raise (get_from active.bytes offset) SyncError.invalid
    set_source (sent active (saturating_add active.next (length (take chunk_bytes rest))))
    at ← or_raise (u32_try_from offset) SyncError.other
    pure (chunk_of object at total (take chunk_bytes rest))

  unfoldable pub source_ack : Object → Sending R E (Unit {0})
  source_ack object = do
    unsent ← gets (λ s. not (is_some (find s.0.unacked object)))
    raise_if unsent SyncError.invalid
    set_source (λ source. record source { unacked = erase source.unacked object })

  unfoldable pub source_checked : ℕ → Sending R E (Unit {0})
  source_checked end = do
    refused ← gets (λ s.
        not s.0.awaiting_check
        || (is_some s.0.active || (not (is_empty s.0.unacked) || not (end == s.0.next))))
    raise_if refused SyncError.invalid
    set_source (confirm end)

module _ {ℓ κ} {R : Type ℓ} {E : Type κ} (api : Storage R E) (format : RecordFormat) where
  abbrev pub on_replica {μ} : {A : Type μ} → Action R E A → Sending R E A
  on_replica = zoom (λ s. s.1) (λ s r. (s.0, r)) SyncError.storage

  -- The pass that a request is for: a fresh one, or the one that stands.
  unfoldable pub open_pass : Option RecordKey → Sending R E (Unit {0})
  open_pass none = do
    snapshot ← on_replica api.snapshot
    order ← lift (parent_first format snapshot.records)
    set_source (begin_pass snapshot order)
  open_pass (some key) = do
    refused ← gets (λ s. not (is_cursor key s.0.cursor) || not s.0.more)
    raise_if refused SyncError.invalid

  unfoldable pub inventory : Option RecordKey → Sending R E Message
  inventory after = do
    busy ← gets (λ s. is_some s.0.active || (not (is_empty s.0.unacked) || s.0.awaiting_check))
    raise_if busy SyncError.invalid
    open_pass after
    page ← gets (λ s. page_of s.0)
    set_source offer
    pure page

  -- The bytes of an object, if they may be sent.
  abbrev pub content : Snapshot → Object → Bytes → Option Bytes → Sending R E (Option Bytes)
  content snapshot object encoded none = pure (some encoded)
  content snapshot object encoded (some hash) = on_replica (api.read_blob snapshot object.key hash)

  -- Whether there are bytes to send.
  abbrev pub activate : Object → Option Bytes → Sending R E Bool
  activate object none = set_source without_bytes >> pure false
  activate object (some bytes) =
      set_source (λ source. record source {
        active = some (record { object = object; bytes = bytes; next = 0 });
      })
      >> pure true

  -- A request at offset 0 opens a transfer.
  unfoldable pub start : Object → Sending R E Bool
  start object = do
    refused ← gets (λ s.
        is_some s.0.active
        || (leb inventory_page (length s.0.unacked) || is_some (find s.0.unacked object)))
    raise_if refused SyncError.invalid
    offered ← gets (λ s. s.0.snapshot)
    snapshot ← or_raise offered SyncError.invalid
    encoded ← or_raise (lookup snapshot object.key) SyncError.invalid
    bytes ← content snapshot object encoded object.blob
    activate object bytes

  abbrev pub send_or_miss : Object → ℕ → Bool → Sending R E Message
  send_or_miss object offset true = send object offset
  send_or_miss object offset false = pure (Message.missing object.key object.blob)

  abbrev pub start_if : Bool → Object → Sending R E Bool
  start_if true object = start object
  start_if false object = pure true

  unfoldable pub need : Object → ℕ → Sending R E Message
  need object offset = do
    idle ← gets (λ s. not s.0.awaiting_check)
    raise_if idle SyncError.invalid
    present ← start_if (offset == 0) object
    send_or_miss object offset present
