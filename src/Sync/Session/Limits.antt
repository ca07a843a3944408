-- ===== src/Sync/Session/Limits.antt =====
-- The calls of crates/editchain-sync/src/session.rs keep what a session holds in memory within its limits.
use editchain.Prelude.{
  ℕ, ◌+◌, ◌≤◌, ◌≡◌, refl, Bool, true, false, not, ◌&&◌, ◌||◌, ◌⊎◌, Option, none, some, List, ◌++◌,
  length, ltb, ◌==◌, is_empty, arith, checked_add, length-append,
}
use editchain.Collections.Map.{same}
use editchain.Core.Ids.{Bytes}
use editchain.Sync.Action.{Action, Returns, holds}
use editchain.Sync.Action.Rules.{
  ok-Returns, resume-Returns, Returns-state, lift-Returns, widen-Returns, raise_if-Returns,
  or_raise-Returns,
}
use editchain.Sync.Record.{RecordKey, RecordFormat, SyncError, max_object_bytes}
use editchain.Sync.Message.{Message, Object, ord_object}
use editchain.Sync.Storage.{Storage}
use editchain.Sync.Transfer.{
  Download, append, differs, Source, chunk_bytes, inventory, need, source_ack, source_checked,
}
use editchain.Sync.Session.{Session, update_work, on_source}
use editchain.Sync.Session.Pulling.{page}
use editchain.Sync.Session.Receiving.{
  round_unless, start_round, tick, negotiate, reply, count_sent, acknowledge, continue,
  receive_chunk, receive_missing, unavailable, dispatch, process_accepted, process, receive,
}
use editchain.Sync.Session.Memory.{Fits, IsLight, complete-Rests, advance-Light}
use editchain.Sync.Session.Calls.{call-Returns, Reachable, Reachable-rule}

-- The guard of `append`, as it bounds what is held.
fits :
    (known unlike short : Bool) (held offset total end new all : ℕ)
    → all ≡ held + new
    → checked_add offset new ≡ some end
    → (not known
        || (not (offset == held)
            || (ltb max_object_bytes total
                || (unlike || (ltb total end || (ltb chunk_bytes new || short))))))
      ≡ false
    → all ≤ max_object_bytes
fits known unlike short held offset total end new all a e h =
    omega (arith, a, sum offset new end e, (bounds known unlike short held offset total end new h))
  where
    sum : (offset new end : ℕ) → checked_add offset new ≡ some end → end ≡ offset + new
    sum offset new end e = ground arith

    bounds :
        (known unlike short : Bool) (held offset total end new : ℕ)
        → (not known
            || (not (offset == held)
                || (ltb max_object_bytes total
                    || (unlike || (ltb total end || (ltb chunk_bytes new || short))))))
          ≡ false
        → (offset ≡ held) × (total ≤ max_object_bytes) × (end ≤ total)
    bounds known unlike short held offset total end new h = ground arith

module _ {ℓ κ} {R : Type ℓ} {E : Type κ} (api : Storage R E) (format : RecordFormat) where
  -- A round begins with nothing in hand.
  round_unless-Light :
      (b : Bool) (s : Session R) → IsLight s → Returns (round_unless api b s) (λ t _. IsLight t)
  unfolding update_work
  round_unless-Light true s h = holds h
  round_unless-Light false s h =
      widen-Returns _ _ (api.receiving_snapshot s.replica) _
        (Returns-state (api.receiving_snapshot s.replica) (λ r. Unit {0}) tt)
        (λ r local _. ok-Returns _ _ _ (holds (refl, omega arith, tt)))

  tick-Light : (s : Session R) → IsLight s → Returns (tick api s) (λ t _. IsLight t)
  unfolding tick start_round
  tick-Light s h =
      call-Returns (start_round api) s (λ t _. IsLight t) (λ t b replies k. k)
        (widen-Returns _ _ (api.ensure_scope s.replica) _
          (Returns-state (api.ensure_scope s.replica) (λ r. Unit {0}) tt)
          (λ r _ _. ok-Returns _ _ _ (
            round_unless-Light (not s.progress.accepted || s.progress.synchronizing)
              (record s { replica = r }) h)))

  negotiate-Light :
      (message : Message) (s : Session R)
      → IsLight s
      → Returns (negotiate api message s) (λ t _. IsLight t)
  unfolding negotiate
  negotiate-Light (Message.hello version encoding space) s h = raise_if-Returns _ _ _ _ (λ _.
      ok-Returns _ _ _ (
        raise_if-Returns _ _ _ _ (λ _.
          ok-Returns _ _ _
            (tick-Light (record s { progress = record s.progress { accepted = true } }) h))))
  negotiate-Light (Message.inventory after) s h = holds tt
  negotiate-Light (Message.page offset total records more) s h = holds tt
  negotiate-Light (Message.need key blob offset) s h = holds tt
  negotiate-Light (Message.chunk key blob offset total bytes) s h = holds tt
  negotiate-Light (Message.missing key blob) s h = holds tt
  negotiate-Light (Message.ack key blob) s h = holds tt
  negotiate-Light (Message.checked end) s h = holds tt

  -- The calls of the source keep what is received.
  reply-Light :
      (m : Action (Source × R) (SyncError E) Message) (s : Session R)
      → IsLight s
      → Returns (reply (on_source m) s) (λ t _. IsLight t)
  reply-Light m s h =
      widen-Returns _ _ (m (s.source, s.replica)) _
        (Returns-state (m (s.source, s.replica)) (λ r. Unit {0}) tt) (λ t message _. holds h)

  page-Light :
      (offset total : ℕ) (records : List RecordKey) (more : Bool) (s : Session R)
      → IsLight s
      → Returns {E = SyncError E} (page offset total records more s) (λ t _. IsLight t)
  unfolding page
  page-Light offset total records more s h = ok-Returns _ _ _ (
      raise_if-Returns _ _ _ _ (λ _. ok-Returns _ _ _ (
        raise_if-Returns _ _ _ _ (λ _.
          or_raise-Returns _ _ _ _
            (λ end _. ok-Returns _ _ _ (raise_if-Returns _ _ _ _ (λ _. holds h)))))))

  append-Fits :
      (download : Download) (object : Object) (offset total : ℕ) (bytes : Bytes)
      → Returns {E = SyncError E} (append object offset total bytes download) (λ t _. Fits (some t))
  unfolding append
  append-Fits download object offset total bytes = or_raise-Returns _ _ _ _ (λ end e.
      ok-Returns _ _ _ (
        raise_if-Returns _ _ _ _ (λ expected. ok-Returns _ _ _ (
          holds (
            fits (same object download.object) (differs download.total total)
              (is_empty bytes && not (end == total)) (length download.bytes) offset total end
              (length bytes) (length (download.bytes ++ bytes)) (length-append download.bytes bytes)
              e expected)))))

  continue-Light :
      (download : Download) (done : Bool) (s : Session R)
      → IsLight s
      → Returns (continue api format download done s) (λ t _. IsLight t)
  continue-Light download true s h =
      resume-Returns _ _ (complete-Rests api format s h) (λ t saved q.
        resume-Returns _ _ (advance-Light api format t (q.0, q.1, coe 1 0 (i. Fits (q.2 i)) tt))
          (λ u messages k. holds k))
  continue-Light download false s h =
      ok-Returns _ _ _
        (or_raise-Returns _ _ _ _ (λ current e. lift-Returns _ _ _ (λ message f. holds h)))

  receive_chunk-Light :
      (object : Object) (offset total : ℕ) (bytes : Bytes) (s : Session R)
      → IsLight s
      → Returns (receive_chunk api format object offset total bytes s) (λ t _. IsLight t)
  unfolding receive_chunk
  receive_chunk-Light object offset total bytes s h = ok-Returns _ _ _ (
      or_raise-Returns _ _ _ _ (λ download e.
        widen-Returns _ _ (append object offset total bytes download) _
          (append-Fits download object offset total bytes)
          (λ t done f.
            continue-Light download done (record s { pull = record s.pull { download = some t } })
              (h.0, h.1, f))))

  receive_missing-Light :
      (object : Object) (s : Session R)
      → IsLight s
      → Returns (receive_missing api format object s) (λ t _. IsLight t)
  unfolding receive_missing
  receive_missing-Light object s h = ok-Returns _ _ _ (
      or_raise-Returns _ _ _ _ (λ download e. ok-Returns _ _ _ (
        raise_if-Returns _ _ _ _ (λ refused. ok-Returns _ _ _ (
          advance-Light api format
            (unavailable (record s { pull = record s.pull { download = none } }))
            (h.0, h.1, tt))))))

  acknowledge-Light :
      (object : Object) (s : Session R)
      → IsLight s
      → Returns (acknowledge api format object s) (λ t _. IsLight t)
  unfolding acknowledge
  acknowledge-Light object s h =
      widen-Returns _ _ (source_ack object (s.source, s.replica)) _
        (Returns-state (source_ack object (s.source, s.replica)) (λ t. Unit {0}) tt)
        (λ t _ _. holds (counted object.blob (record s { source = t.0; replica = t.1 }) h))
    where
      counted : (blob : Option Bytes) (t : Session R) → IsLight t → IsLight (count_sent blob t)
      counted none t k = k
      counted (some hash) t k = k

  dispatch-Light :
      (message : Message) (s : Session R)
      → IsLight s
      → Returns (dispatch api format message s) (λ t _. IsLight t)
  unfolding dispatch
  dispatch-Light (Message.hello version encoding space) s h = holds tt
  dispatch-Light (Message.inventory after) s h = reply-Light (inventory api format after) s h
  dispatch-Light (Message.need key blob offset) s h =
      reply-Light (need api format (record { key = key; blob = blob }) offset) s h
  dispatch-Light (Message.ack key blob) s h =
      resume-Returns _ _ (acknowledge-Light (record { key = key; blob = blob }) s h)
        (λ t _ k. holds k)
  dispatch-Light (Message.checked end) s h =
      widen-Returns _ _ (source_checked end (s.source, s.replica)) _
        (Returns-state (source_checked {E = E} end (s.source, s.replica)) (λ t. Unit {0}) tt)
        (λ t _ _. holds h)
  dispatch-Light (Message.page offset total records more) s h =
      resume-Returns _ _ (page-Light offset total records more s h)
        (λ t _ k. advance-Light api format t k)
  dispatch-Light (Message.chunk key blob offset total bytes) s h =
      receive_chunk-Light (record { key = key; blob = blob }) offset total bytes s h
  dispatch-Light (Message.missing key blob) s h =
      receive_missing-Light (record { key = key; blob = blob }) s h

  process_accepted-Light :
      (b : Bool) (message : Message) (s : Session R)
      → IsLight s
      → Returns (process_accepted api format b message s) (λ t _. IsLight t)
  unfolding update_work
  process_accepted-Light true message s h =
      resume-Returns _ _ (dispatch-Light message s h) (λ t messages k. ok-Returns _ _ _ (holds k))
  process_accepted-Light false message s h = negotiate-Light message s h

  receive-Light :
      (message : Message) (s : Session R)
      → IsLight s
      → Returns (receive api format message s) (λ t _. IsLight t)
  unfolding receive process
  receive-Light message s h =
      call-Returns (process api format message) s (λ t _. IsLight t) (λ t b replies k. k)
        (widen-Returns _ _ (api.ensure_scope s.replica) _
          (Returns-state (api.ensure_scope s.replica) (λ r. Unit {0}) tt)
          (λ r _ _.
            ok-Returns _ _ _
              (process_accepted-Light s.progress.accepted message (record s { replica = r }) h)))

  -- After any calls, whatever they returned, a session that has not failed holds less than 4 MiB of records that wait to be
  -- saved, counts them exactly, and holds at most 64 MiB of the object that it downloads.
  pub Reachable-IsLight : (s : Session R) → Reachable api format s → (s.failed ≡ true) ⊎ IsLight s
  Reachable-IsLight =
      Reachable-rule api format IsLight (λ replica. (refl, omega arith, tt)) tick-Light
        receive-Light
