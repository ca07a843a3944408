-- ===== src/Sync/Session/Negotiation.antt =====
-- The first message of a session of crates/editchain-sync/src/session.rs, before it is accepted.
use editchain.Prelude.{
  ℕ, ◌≡◌, refl, Bool, true, false, not, ◌||◌, ◌⊎◌, inl, inr, none, List, [], ◌∷◌, arith, ◌==◌,
  bytes_eq, bytes_eq→eq,
}
use editchain.Core.Ids.{Bytes}
use editchain.Sync.Action.{Returns, holds}
use editchain.Sync.Action.Rules.{
  ok-Returns, Returns-state, widen-Returns, raise_if-Returns, Returns-weaken,
}
use editchain.Sync.Record.{RecordFormat}
use editchain.Sync.Message.{Message, peer_version}
use editchain.Sync.Storage.{Storage}
use editchain.Sync.Transfer.{Source}
use editchain.Sync.Session.{Session, update_work}
use editchain.Sync.Session.Calls.{call-Returns}
use editchain.Sync.Session.Receiving.{
  start_round, round_unless, tick, negotiate, process_accepted, process, receive,
}

module _ {ℓ κ} {R : Type ℓ} {E : Type κ} (api : Storage R E) (format : RecordFormat) where
  -- What the source may send is unchanged, and at most an inventory is asked for.
  abbrev pub Greets : Source → Session R → List Message → Type 0
  Greets source t replies =
      (t.source ≡ source) × ((replies ≡ []) ⊎ (replies ≡ Message.inventory none ∷ []))

  -- The message is the greeting of a side with this storage.
  abbrev pub Agrees : Message → R → Source → Session R → List Message → Type 0
  Agrees message r source t replies =
      (message ≡ Message.hello peer_version 1 (api.namespace r)) × Greets source t replies

  round_unless-Greets :
      (b : Bool) (t : Session R) → Returns (round_unless api b t) (Greets t.source)
  unfolding update_work
  round_unless-Greets true t = holds (refl, inl refl)
  round_unless-Greets false t =
      widen-Returns _ _ (api.receiving_snapshot t.replica) _
        (Returns-state (api.receiving_snapshot t.replica) (λ r. Unit {0}) tt)
        (λ r local _. ok-Returns _ _ _ (holds (refl, inr refl)))

  tick-Greets : (t : Session R) → Returns (tick api t) (Greets t.source)
  unfolding tick start_round
  tick-Greets t =
      call-Returns (start_round api) t (Greets t.source) (λ s b replies k. k)
        (widen-Returns _ _ (api.ensure_scope t.replica) _
          (Returns-state (api.ensure_scope t.replica) (λ r. Unit {0}) tt)
          (λ r _ _. ok-Returns _ _ _ (
            round_unless-Greets (not t.progress.accepted || t.progress.synchronizing)
              (record t { replica = r }))))

  versions :
      (version encoding : ℕ)
      → (not (version == peer_version) || not (encoding == 1)) ≡ false
      → (version ≡ peer_version) × (encoding ≡ 1)
  versions version encoding h = ground arith

  spaces : (space other : Bytes) → not (bytes_eq space other) ≡ false → space ≡ other
  spaces space other h = bytes_eq→eq space other (ground arith)

  negotiate-Agrees :
      (message : Message) (s : Session R)
      → Returns (negotiate api message s) (Agrees message s.replica s.source)
  unfolding negotiate
  negotiate-Agrees (Message.hello version encoding space) s =
      raise_if-Returns _ _ _ _ (λ compatible. ok-Returns _ _ _ (
        raise_if-Returns _ _ _ _ (λ same_space. ok-Returns _ _ _ (
          Returns-weaken _
            (tick-Greets (record s { progress = record s.progress { accepted = true } }))
            (λ t replies k. (
              λ i.
                  Message.hello ((versions version encoding compatible).0 i)
                    ((versions version encoding compatible).1 i)
                    (spaces space (api.namespace s.replica) same_space i),
              k,
            ))))))
  negotiate-Agrees (Message.inventory after) s = holds tt
  negotiate-Agrees (Message.page offset total records more) s = holds tt
  negotiate-Agrees (Message.need key blob offset) s = holds tt
  negotiate-Agrees (Message.chunk key blob offset total bytes) s = holds tt
  negotiate-Agrees (Message.missing key blob) s = holds tt
  negotiate-Agrees (Message.ack key blob) s = holds tt
  negotiate-Agrees (Message.checked end) s = holds tt

  -- Before a session has accepted its peer, it returns an error for each message but the one that agrees with its own
  -- greeting, in version, encoding and namespace; to that it answers at most with a request for an inventory, and what it
  -- may send is unchanged.
  pub receive-Agrees :
      (message : Message) (s : Session R)
      → s.progress.accepted ≡ false
      → Returns
          (receive api format message s)
          (Agrees message (api.ensure_scope s.replica).0 s.source)
  unfolding receive process
  receive-Agrees message s new =
      call-Returns (process api format message) s
        (Agrees message (api.ensure_scope s.replica).0 s.source) (λ t b replies k. k)
        (widen-Returns _ _ (api.ensure_scope s.replica) _
          (Returns-state (api.ensure_scope s.replica) (λ r. r ≡ (api.ensure_scope s.replica).0)
            refl)
          (λ r _ e. ok-Returns _ _ _ (
            coe 1 0
              (i.
                Returns (process_accepted api format (new i) message (record s { replica = r }))
                  (Agrees message (api.ensure_scope s.replica).0 s.source))
              (coe 0 1
                (i.
                  Returns (negotiate api message (record s { replica = r }))
                    (Agrees message (e i) s.source))
                (negotiate-Agrees message (record s { replica = r }))))))
