-- ===== src/Sync/Session/Honesty.antt =====
-- The calls of crates/editchain-sync/src/session.rs on a session in any state that calls have led to: what is acknowledged
-- is durable, and a page is confirmed when its records are.
use editchain.Prelude.{
  ◌≡◌, refl, Bool, true, false, not, ◌||◌, ◌⊎◌, inl, inr, Option, none, some, List, length, ℕ, All,
  arith, is_empty,
}
use editchain.Collections.Map.{same, same→eq}
use editchain.Core.Ids.{Bytes}
use editchain.Sync.Action.{Action, Returns, holds}
use editchain.Sync.Action.Rules.{
  ok-Returns, resume-Returns, Returns-state, lift-Returns, widen-Returns, raise_if-Returns,
  or_raise-Returns, Returns-weaken,
}
use editchain.Sync.Record.{RecordKey, RecordFormat, SyncError, contains, is_some}
use editchain.Sync.Message.{Message, Object, ord_object}
use editchain.Sync.Storage.{Storage, Durability}
use editchain.Sync.Transfer.{Download, append, Source, inventory, need, source_ack, source_checked}
use editchain.Sync.Session.{Session, update_work, on_source}
use editchain.Sync.Session.Pulling.{page, advance, lacking}
use editchain.Sync.Session.Receiving.{
  start_round, round_unless, tick, negotiate, acknowledge, count_sent, reply, continue,
  receive_chunk, receive_missing, unavailable, dispatch, process_accepted, process, receive,
}
use editchain.Sync.Session.Calls.{call-Returns}
use editchain.Sync.Session.Coverage.{
  In, flying, in_flight, All-weaken, lacking-All, Covers, Covered, Grows, Honest, Covered-grow,
  need_at-Honest,
}
use editchain.Sync.Session.Saving.{Keeps-then, complete-Keeps}
use editchain.Sync.Session.Advancing.{advance-Moves}
use editchain.Sync.Session.Offering.{
  Offers, inventory-Offers, need-Offers, source_ack-Preserves, source_checked-Preserves,
}

module _ {ℓ κ} {R : Type ℓ} {E : Type κ} (api : Storage R E) (format : RecordFormat)
    (IsDurable : R → Object → Type 0) (d : Durability api IsDurable) where
  -- Every record of the page is durable or on its way.
  abbrev pub IsCovered : Session R → Type 0
  IsCovered s = Covered IsDurable (in_flight s.pull.download) s

  abbrev pub IsHonest : Session R → List Message → Type 0
  IsHonest s messages = IsCovered s × All (Honest IsDurable s) messages

  round_unless-IsHonest :
      (b : Bool) (s : Session R) → IsCovered s → Returns (round_unless api b s) IsHonest
  unfolding update_work
  round_unless-IsHonest true s h = holds (h, tt)
  round_unless-IsHonest false s h =
      widen-Returns _ _ (api.receiving_snapshot s.replica) _ (d.receiving_durable s.replica)
        (λ r local known. ok-Returns _ _ _ (holds ((known, tt), (tt, tt))))

  start_round-IsHonest : (s : Session R) → IsCovered s → Returns (start_round api s) IsHonest
  unfolding start_round
  start_round-IsHonest s h =
      widen-Returns _ _ (api.ensure_scope s.replica) _
        (Returns-state (api.ensure_scope s.replica) (λ r. Grows IsDurable s.replica r)
          (d.scope_keeps s.replica))
        (λ r _ g. ok-Returns _ _ _ (
          round_unless-IsHonest (not s.progress.accepted || s.progress.synchronizing)
            (record s { replica = r })
            (Covered-grow IsDurable (in_flight s.pull.download) s r g h)))

  pub tick-IsHonest : (s : Session R) → IsCovered s → Returns (tick api s) IsHonest
  unfolding tick
  tick-IsHonest s h =
      call-Returns (start_round api) s IsHonest (λ t b replies k. k) (start_round-IsHonest s h)

  negotiate-IsHonest :
      (message : Message) (s : Session R) → IsCovered s → Returns (negotiate api message s) IsHonest
  unfolding negotiate
  negotiate-IsHonest (Message.hello version encoding space) s h = raise_if-Returns _ _ _ _ (λ _.
      ok-Returns _ _ _ (
        raise_if-Returns _ _ _ _ (λ _.
          ok-Returns _ _ _
            (tick-IsHonest (record s { progress = record s.progress { accepted = true } }) h))))
  negotiate-IsHonest (Message.inventory after) s h = holds tt
  negotiate-IsHonest (Message.page offset total records more) s h = holds tt
  negotiate-IsHonest (Message.need key blob offset) s h = holds tt
  negotiate-IsHonest (Message.chunk key blob offset total bytes) s h = holds tt
  negotiate-IsHonest (Message.missing key blob) s h = holds tt
  negotiate-IsHonest (Message.ack key blob) s h = holds tt
  negotiate-IsHonest (Message.checked end) s h = holds tt

  reply-IsHonest :
      (m : Action (Source × R) (SyncError E) Message) (s : Session R)
      → IsCovered s
      → Returns (m (s.source, s.replica)) (Offers api format IsDurable d (s.source, s.replica))
      → Returns (reply (on_source m) s) IsHonest
  reply-IsHonest m s h k = widen-Returns _ _ (m (s.source, s.replica)) _ k (λ t message q. holds (
    Covered-grow IsDurable (in_flight s.pull.download) (record s { source = t.0 }) t.1 q.0 h,
    (q.1 (record s { source = t.0; replica = t.1 }), tt),
  ))

  -- What is covered with nothing in flight, and the next object.
  advance-IsHonest :
      (s : Session R) → Covered IsDurable none s → Returns (advance api format s) IsHonest
  advance-IsHonest s h =
      Returns-weaken _ (advance-Moves api format IsDurable d s h) (λ t messages k. k.1)

  page-Covered :
      (offset total : ℕ) (records : List RecordKey) (more : Bool) (s : Session R)
      → IsCovered s
      → Returns {E = SyncError E}
          (page offset total records more s)
          (λ t _. Covered IsDurable none t)
  unfolding page
  page-Covered offset total records more s h = ok-Returns _ _ _ (
      raise_if-Returns _ _ _ _ (λ _. ok-Returns _ _ _ (
        raise_if-Returns _ _ _ _ (λ _. or_raise-Returns _ _ _ _ (λ end _. ok-Returns _ _ _ (
          raise_if-Returns _ _ _ _
            (λ _. holds (h.0, All-weaken records step (lacking-All s.local records)))))))))
    where
      step :
          (key : RecordKey)
          → (contains s.local key ≡ true) ⊎ In key (lacking s.local records)
          → Covers IsDurable s.replica (lacking s.local records) s.pull.staged none key
      step key (inl c) = inl (h.0 key c)
      step key (inr c) = inr (inl c)

  -- The object of a download does not change with its bytes.
  append-object :
      (download : Download) (object : Object) (offset total : ℕ) (bytes : Bytes)
      → Returns {E = SyncError E}
          (append object offset total bytes download)
          (λ t _. t.object ≡ download.object)
  unfolding append
  append-object download object offset total bytes =
      or_raise-Returns _ _ _ _
        (λ end _. ok-Returns _ _ _ (raise_if-Returns _ _ _ _ (λ _. ok-Returns _ _ _ (holds refl))))

  continue-IsHonest :
      (download : Download) (done : Bool) (s : Session R)
      → IsCovered s
      → Returns (continue api format download done s) IsHonest
  continue-IsHonest download true s h =
      resume-Returns _ _ (complete-Keeps api format IsDurable d s h) (λ t saved q.
        resume-Returns _ _ (advance-Moves api format IsDurable d t q.1.0) (λ u messages k.
          holds
            (Keeps-then api format IsDurable d (in_flight u.pull.download) s t u saved messages q.0
              q.1.1 k).1))
  continue-IsHonest download false s h = ok-Returns _ _ _ (
      or_raise-Returns _ _ _ _ (λ current e. lift-Returns _ _ _ (λ message f.
        holds
          (h, (need_at-Honest IsDurable s current.object (length current.bytes) message f, tt)))))

  receive_chunk-IsHonest :
      (object : Object) (offset total : ℕ) (bytes : Bytes) (s : Session R)
      → IsCovered s
      → Returns (receive_chunk api format object offset total bytes s) IsHonest
  unfolding receive_chunk
  receive_chunk-IsHonest object offset total bytes s h = ok-Returns _ _ _ (
      or_raise-Returns _ _ _ _ (λ download e.
        widen-Returns _ _ (append object offset total bytes download) _
          (append-object download object offset total bytes)
          (λ t done f.
            continue-IsHonest download done
              (record s { pull = record s.pull { download = some t } })
              (coe 1 0 (i. Covered IsDurable (flying (f i).key (f i).blob) s)
                (coe 0 1 (i. Covered IsDurable (in_flight (e i)) s) h)))))

  -- Only content can be missing, and it covers no record.
  content-Covered :
      (download : Download) (object : Object) (s : Session R)
      → same download.object object ≡ true
      → is_some object.blob ≡ true
      → Covered IsDurable (flying download.object.key download.object.blob) s
      → Covered IsDurable none s
  content-Covered download object s e f h =
      let g : is_some download.object.blob ≡ true =
        coe 1 0 (i. is_some (same→eq download.object object e i).blob ≡ true) f in
      coe 0 1 (i. Covered IsDurable (nothing download.object.key download.object.blob g i) s) h
    where
      nothing :
          (key : RecordKey) (blob : Option Bytes) → is_some blob ≡ true → flying key blob ≡ none
      nothing key none g = cc
      nothing key (some hash) g = refl

  receive_missing-IsHonest :
      (object : Object) (s : Session R)
      → IsCovered s
      → Returns (receive_missing api format object s) IsHonest
  unfolding receive_missing
  receive_missing-IsHonest object s h = ok-Returns _ _ _ (
      or_raise-Returns _ _ _ _ (λ download e. ok-Returns _ _ _ (
        raise_if-Returns _ _ _ _ (λ refused. ok-Returns _ _ _ (
          advance-IsHonest (unavailable (record s { pull = record s.pull { download = none } })) (
            content-Covered download object s (accepted download refused).0
              (accepted download refused).1
              (coe 0 1 (i. Covered IsDurable (in_flight (e i)) s) h)))))))
    where
      accepted :
          (download : Download)
          → (not (same download.object object)
              || (not (is_some object.blob) || not (is_empty download.bytes)))
            ≡ false
          → (same download.object object ≡ true) × (is_some object.blob ≡ true)
      accepted download refused = ground arith

  acknowledge-IsHonest :
      (object : Object) (s : Session R)
      → IsCovered s
      → Returns (acknowledge api format object s) (λ t _. IsCovered t)
  unfolding acknowledge
  acknowledge-IsHonest object s h =
      widen-Returns _ _ (source_ack object (s.source, s.replica)) _
        (source_ack-Preserves api format IsDurable d object (s.source, s.replica))
        (λ t _ g. holds (counted object.blob t g))
    where
      counted :
          (blob : Option Bytes) (t : Source × R)
          → Grows IsDurable s.replica t.1
          → IsCovered (count_sent blob (record s { source = t.0; replica = t.1 }))
      counted none t g =
          Covered-grow IsDurable (in_flight s.pull.download) (record s { source = t.0 }) t.1 g h
      counted (some hash) t g =
          Covered-grow IsDurable (in_flight s.pull.download) (record s { source = t.0 }) t.1 g h

  dispatch-IsHonest :
      (message : Message) (s : Session R)
      → IsCovered s
      → Returns (dispatch api format message s) IsHonest
  unfolding dispatch
  dispatch-IsHonest (Message.hello version encoding space) s h = holds tt
  dispatch-IsHonest (Message.inventory after) s h =
      reply-IsHonest (inventory api format after) s h
        (inventory-Offers api format IsDurable d after (s.source, s.replica))
  dispatch-IsHonest (Message.need key blob offset) s h =
      reply-IsHonest (need api format (record { key = key; blob = blob }) offset) s h (
        need-Offers api format IsDurable d (record { key = key; blob = blob }) offset
          (s.source, s.replica))
  dispatch-IsHonest (Message.ack key blob) s h =
      resume-Returns _ _ (acknowledge-IsHonest (record { key = key; blob = blob }) s h)
        (λ t _ k. holds (k, tt))
  dispatch-IsHonest (Message.checked end) s h =
      widen-Returns _ _ (source_checked end (s.source, s.replica)) _
        (source_checked-Preserves api format IsDurable d end (s.source, s.replica))
        (λ t _ g. holds (
          Covered-grow IsDurable (in_flight s.pull.download) (record s { source = t.0 }) t.1 g h,
          tt,
        ))
  dispatch-IsHonest (Message.page offset total records more) s h =
      resume-Returns _ _ (page-Covered offset total records more s h)
        (λ t _ k. advance-IsHonest t k)
  dispatch-IsHonest (Message.chunk key blob offset total bytes) s h =
      receive_chunk-IsHonest (record { key = key; blob = blob }) offset total bytes s h
  dispatch-IsHonest (Message.missing key blob) s h =
      receive_missing-IsHonest (record { key = key; blob = blob }) s h

  process_accepted-IsHonest :
      (b : Bool) (message : Message) (s : Session R)
      → IsCovered s
      → Returns (process_accepted api format b message s) IsHonest
  unfolding update_work
  process_accepted-IsHonest true message s h =
      resume-Returns _ _ (dispatch-IsHonest message s h)
        (λ t messages k. ok-Returns _ _ _ (holds k))
  process_accepted-IsHonest false message s h = negotiate-IsHonest message s h

  process-IsHonest :
      (message : Message) (s : Session R)
      → IsCovered s
      → Returns (process api format message s) IsHonest
  unfolding process
  process-IsHonest message s h =
      widen-Returns _ _ (api.ensure_scope s.replica) _
        (Returns-state (api.ensure_scope s.replica) (λ r. Grows IsDurable s.replica r)
          (d.scope_keeps s.replica))
        (λ r _ g. ok-Returns _ _ _ (
          process_accepted-IsHonest s.progress.accepted message (record s { replica = r })
            (Covered-grow IsDurable (in_flight s.pull.download) s r g h)))

  pub receive-IsHonest :
      (message : Message) (s : Session R)
      → IsCovered s
      → Returns (receive api format message s) IsHonest
  unfolding receive
  receive-IsHonest message s h =
      call-Returns (process api format message) s IsHonest (λ t b replies k. k)
        (process-IsHonest message s h)
