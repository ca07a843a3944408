-- ===== src/Sync/Session/Receiving.antt =====
-- The calls of crates/editchain-sync/src/session.rs: `tick`, and `receive` with each message.
use editchain.Prelude.{
  ℕ, Bool, true, false, not, ◌||◌, Option, none, some, List, [], ◌∷◌, ◌++◌, length, ◌==◌, is_empty,
  bytes_eq, saturating_add, Result, ok, err, stuck,
}
use editchain.Collections.Map.{same}
use editchain.Core.Ids.{Bytes}
use editchain.Sync.Action.{
  Action, ◌>>=◌, ◌>>◌, pure, raise, or_raise, raise_if, gets, modify, lift, zoom,
}
use editchain.Sync.Record.{RecordFormat, SyncError, Snapshot, is_some}
use editchain.Sync.Message.{Message, Object, ord_object, need_at, peer_version}
use editchain.Sync.Progress.{no_check}
use editchain.Sync.Storage.{Storage}
use editchain.Sync.Transfer.{Download, append, inventory, need, source_ack, source_checked}
use editchain.Sync.Session.{
  Session, Method, no_pull, on_store, on_source, set_pull, set_progress, update_work,
}
use editchain.Sync.Session.Pulling.{page, complete, advance}

abbrev pub is_err {μ ν} : {F : Type μ} {A : Type ν} → Result F A → Bool
is_err (ok a) = false
is_err (err e) = true
is_err stuck = true

module _ {ℓ} {R : Type ℓ} where
  abbrev pub begin_round : Snapshot → Session R → Session R
  begin_round local s = record s {
    local = local;
    pull = record no_pull { waiting_page = true };
    progress = record s.progress {
      synchronizing = true;
      unavailable = 0;
      incoming = record no_check { pass = saturating_add s.progress.rounds 1 };
    };
  }

  abbrev pub count_sent : Option Bytes → Session R → Session R
  count_sent (some hash) s = record s {
    progress = record s.progress { sent_blobs = saturating_add s.progress.sent_blobs 1 };
  }
  count_sent none s = record s {
    progress = record s.progress { sent_records = saturating_add s.progress.sent_records 1 };
  }

  abbrev pub unavailable : Session R → Session R
  unavailable s = record s {
    progress = record s.progress {
      unavailable = saturating_add s.progress.unavailable 1;
      incoming = record s.progress.incoming {
        unavailable = saturating_add s.progress.unavailable 1;
      };
    };
  }

module _ {ℓ κ} {R : Type ℓ} {E : Type κ} where
  -- `self.failed = result.is_err()`
  abbrev pub guarded : Method R E (List Message) → Method R E (List Message)
  guarded m s = (record (m s).0 { failed = is_err (m s).1 }, (m s).1)

  abbrev pub unless_failed : Method R E (List Message) → Method R E (List Message)
  unless_failed m = do failed ← gets (λ s. s.failed); raise_if failed SyncError.invalid; m

  abbrev pub reply : Method R E Message → Method R E (List Message)
  reply m = do message ← m; pure (message ∷ [])

  abbrev pub on_download {μ} :
      {A : Type μ} → Download → Action Download (SyncError E) A → Method R E A
  on_download download =
      zoom (λ s. download) (λ s d. record s { pull = record s.pull { download = some d } }) (λ e. e)

module _ {ℓ κ} {R : Type ℓ} {E : Type κ} (api : Storage R E) where
  unfoldable pub hello : Session R → Message
  hello s = Message.hello peer_version 1 (api.namespace s.replica)

  abbrev pub round_unless : Bool → Method R E (List Message)
  round_unless true = pure []
  round_unless false = do
    local ← on_store api.receiving_snapshot
    modify (λ s. update_work (begin_round local s))
    pure (Message.inventory none ∷ [])

  unfoldable pub start_round : Method R E (List Message)
  start_round = do
    on_store api.ensure_scope
    idle ← gets (λ s. not s.progress.accepted || s.progress.synchronizing)
    round_unless idle

  unfoldable pub tick : Method R E (List Message)
  tick = unless_failed (guarded start_round)

  -- A message before the peer is accepted.
  unfoldable pub negotiate : Message → Method R E (List Message)
  negotiate (Message.hello version encoding space) = do
    raise_if (not (version == peer_version) || not (encoding == 1)) SyncError.unsupported
    namespace ← gets (λ s. api.namespace s.replica)
    raise_if (not (bytes_eq space namespace)) SyncError.invalid
    set_progress (λ progress. record progress { accepted = true })
    tick
  negotiate _ = raise SyncError.invalid

module _ {ℓ κ} {R : Type ℓ} {E : Type κ} (api : Storage R E) (format : RecordFormat) where
  unfoldable pub acknowledge : Object → Method R E (Unit {0})
  acknowledge object = do on_source (source_ack object); modify (count_sent object.blob)

  -- The object goes on, or it is complete.
  abbrev pub continue : Download → Bool → Method R E (List Message)
  continue download true = do
    saved ← complete api format
    messages ← advance api format
    pure (saved ++ messages)
  continue download false = do
    current ← gets (λ s. s.pull.download)
    download ← or_raise current SyncError.invalid
    message ← lift (need_at download.object (length download.bytes))
    pure (message ∷ [])

  unfoldable pub receive_chunk : Object → ℕ → ℕ → Bytes → Method R E (List Message)
  receive_chunk object offset total bytes = do
    current ← gets (λ s. s.pull.download)
    download ← or_raise current SyncError.invalid
    done ← on_download download (append object offset total bytes)
    continue download done

  unfoldable pub receive_missing : Object → Method R E (List Message)
  receive_missing object = do
    current ← gets (λ s. s.pull.download)
    download ← or_raise current SyncError.invalid
    set_pull (λ pull. record pull { download = none })
    raise_if
        (not (same download.object object)
          || (not (is_some object.blob) || not (is_empty download.bytes)))
        SyncError.invalid
    modify unavailable
    advance api format

  unfoldable pub dispatch : Message → Method R E (List Message)
  dispatch (Message.hello version encoding space) = raise SyncError.invalid
  dispatch (Message.inventory after) = reply (on_source (inventory api format after))
  dispatch (Message.need key blob offset) =
      reply (on_source (need api format (record { key = key; blob = blob }) offset))
  dispatch (Message.ack key blob) = acknowledge (record { key = key; blob = blob }) >> pure []
  dispatch (Message.checked end) = on_source (source_checked end) >> pure []
  dispatch (Message.page offset total records more) =
      page offset total records more >> advance api format
  dispatch (Message.chunk key blob offset total bytes) =
      receive_chunk (record { key = key; blob = blob }) offset total bytes
  dispatch (Message.missing key blob) = receive_missing (record { key = key; blob = blob })

  -- A message of an accepted peer.
  abbrev pub handle : Message → Method R E (List Message)
  handle message = do replies ← dispatch message; modify update_work; pure replies

  abbrev pub process_accepted : Bool → Message → Method R E (List Message)
  process_accepted true = handle
  process_accepted false = negotiate api

  unfoldable pub process : Message → Method R E (List Message)
  process message = do
    on_store api.ensure_scope
    accepted ← gets (λ s. s.progress.accepted)
    process_accepted accepted message

  unfoldable pub receive : Message → Method R E (List Message)
  receive message = unless_failed (guarded (process message))
