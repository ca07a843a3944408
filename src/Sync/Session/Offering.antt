-- ===== src/Sync/Session/Offering.antt =====
-- The sending side of crates/editchain-sync/src/transfer.rs, as the session sees it: it loses nothing durable, and its
-- replies promise nothing.
use editchain.Prelude.{Bool, true, false, not, ◌||◌, Option, none, some, ◌==◌, ℕ}
use editchain.Core.Ids.{Bytes}
use editchain.Sync.Action.{Returns, holds}
use editchain.Sync.Action.Rules.{
  ok-Returns, resume-Returns, Returns-state, lift-Returns, widen-Returns, raise_if-Returns,
  or_raise-Returns, Returns-weaken, raise_if-end, widen-end,
}
use editchain.Sync.Record.{RecordKey, RecordFormat, SyncError, Snapshot}
use editchain.Sync.Message.{Message, Object, ord_object}
use editchain.Sync.Storage.{Storage, Durability}
use editchain.Sync.Transfer.{
  Source, open_pass, inventory, content, activate, start, send, send_or_miss, start_if, need,
  source_ack, source_checked, is_cursor,
}
use editchain.Sync.Session.{Session}
use editchain.Sync.Session.Coverage.{Grows, Honest}

module _ {ℓ κ} {R : Type ℓ} {E : Type κ} (api : Storage R E) (format : RecordFormat)
    (IsDurable : R → Object → Type 0) (d : Durability api IsDurable) where
  -- A method of the source after which everything durable still is.
  abbrev pub Preserves {μ} : {A : Type μ} → Source × R → Source × R → A → Type 0
  Preserves t t' a = Grows IsDurable t.1 t'.1

  -- A reply that promises nothing, whatever the session.
  abbrev pub Offers : Source × R → Source × R → Message → Type ℓ
  Offers t t' message = Grows IsDurable t.1 t'.1 × ((s : Session R) → Honest IsDurable s message)

  open_pass-Preserves :
      (after : Option RecordKey) (t : Source × R)
      → Returns (open_pass api format after t) (Preserves t)
  unfolding open_pass
  open_pass-Preserves none t =
      widen-Returns _ _ (api.snapshot t.1) _
        (Returns-state (api.snapshot t.1) (λ r. Grows IsDurable t.1 r) (d.snapshot_keeps t.1))
        (λ r snapshot g. lift-Returns _ _ _ (λ order e. holds g))
  open_pass-Preserves (some key) t =
      ok-Returns _ _ _ (
        raise_if-end (not (is_cursor key t.0.cursor) || not t.0.more) SyncError.invalid t
          (λ o k. k))

  pub inventory-Offers :
      (after : Option RecordKey) (t : Source × R)
      → Returns (inventory api format after t) (Offers t)
  unfolding inventory
  inventory-Offers after t = ok-Returns _ _ _ (
      raise_if-Returns _ _ _ _ (λ _.
        resume-Returns _ _ (open_pass-Preserves after t)
          (λ u _ g. ok-Returns _ _ _ (ok-Returns _ _ _ (holds (g, λ s. tt))))))

  content-Preserves :
      (snapshot : Snapshot) (object : Object) (encoded : Bytes) (blob : Option Bytes)
      (t : Source × R)
      → Returns (content api format snapshot object encoded blob t) (Preserves t)
  content-Preserves snapshot object encoded none t = holds (λ o k. k)
  content-Preserves snapshot object encoded (some hash) t =
      widen-end _ _ (api.read_blob snapshot object.key hash t.1) (
        Returns-state (api.read_blob snapshot object.key hash t.1) (λ r. Grows IsDurable t.1 r)
          (d.read_keeps snapshot object.key hash t.1))

  activate-Preserves :
      (object : Object) (bytes : Option Bytes) (t : Source × R)
      → Returns (activate api format object bytes t) (Preserves t)
  activate-Preserves object none t = ok-Returns _ _ _ (holds (λ o k. k))
  activate-Preserves object (some bytes) t = ok-Returns _ _ _ (holds (λ o k. k))

  start-Preserves :
      (object : Object) (t : Source × R) → Returns (start api format object t) (Preserves t)
  unfolding start
  start-Preserves object t = ok-Returns _ _ _ (
      raise_if-Returns _ _ _ _ (λ _. ok-Returns _ _ _ (
        or_raise-Returns _ _ _ _ (λ snapshot _. or_raise-Returns _ _ _ _ (λ encoded _.
          resume-Returns _ _ (content-Preserves snapshot object encoded object.blob t) (λ u bytes g.
            Returns-weaken _ (activate-Preserves object bytes u) (λ v _ h o k. h o (g o k))))))))

  send-Offers :
      (object : Object) (offset : ℕ) (t : Source × R)
      → Returns {E = SyncError E} (send object offset t) (Offers t)
  unfolding send
  send-Offers object offset t = ok-Returns _ _ _ (
      or_raise-Returns _ _ _ _ (λ active _. raise_if-Returns _ _ _ _ (λ _.
        or_raise-Returns _ _ _ _ (λ total _. or_raise-Returns _ _ _ _ (λ rest _.
          ok-Returns _ _ _ (or_raise-Returns _ _ _ _ (λ at _. holds ((λ o k. k), λ s. tt))))))))

  send_or_miss-Offers :
      (object : Object) (offset : ℕ) (b : Bool) (t : Source × R)
      → Returns (send_or_miss api format object offset b t) (Offers t)
  send_or_miss-Offers object offset true t = send-Offers object offset t
  send_or_miss-Offers object offset false t = holds ((λ o k. k), λ s. tt)

  start_if-Preserves :
      (b : Bool) (object : Object) (t : Source × R)
      → Returns (start_if api format b object t) (Preserves t)
  start_if-Preserves true object t = start-Preserves object t
  start_if-Preserves false object t = holds (λ o k. k)

  pub need-Offers :
      (object : Object) (offset : ℕ) (t : Source × R)
      → Returns (need api format object offset t) (Offers t)
  unfolding need
  need-Offers object offset t = ok-Returns _ _ _ (
      raise_if-Returns _ _ _ _ (λ _.
        resume-Returns _ _ (start_if-Preserves (offset == 0) object t) (λ u present g.
          Returns-weaken _ (send_or_miss-Offers object offset present u)
            (λ v m h. ((λ o k. h.0 o (g o k)), h.1)))))

  pub source_ack-Preserves :
      (object : Object) (t : Source × R)
      → Returns {E = SyncError E} (source_ack object t) (Preserves t)
  unfolding source_ack
  source_ack-Preserves object t =
      ok-Returns _ _ _ (raise_if-Returns _ _ _ _ (λ _. holds (λ o k. k)))

  pub source_checked-Preserves :
      (end : ℕ) (t : Source × R) → Returns {E = SyncError E} (source_checked end t) (Preserves t)
  unfolding source_checked
  source_checked-Preserves end t =
      ok-Returns _ _ _ (raise_if-Returns _ _ _ _ (λ _. holds (λ o k. k)))
