-- ===== src/Sync/Transfer/Bounds.antt =====
-- What the sending side of crates/editchain-sync/src/transfer.rs holds at most, after any calls that it accepts.
use editchain.Prelude.{
  ℕ, ◌+◌, ◌≤◌, ◌<◌, ◌≡◌, refl, sym, ap, ◌∙◌, Bool, true, false, not, ◌||◌, Option, none, some, [],
  ◌∷◌, length, take, drop, leb, ◌==◌, is_empty, get_from, if◌then◌else◌, ok, arith, saturating_add,
  length-take, length-drop,
}
use editchain.Collections.Map.{Set, find, put, erase, same}
use editchain.Core.Ids.{Bytes}
use editchain.Sync.Action.{Returns, holds}
use editchain.Sync.Action.Rules.{
  ok-Returns, resume-Returns, Returns-state, lift-Returns, widen-Returns, widen-end,
  raise_if-Returns, raise_if-end, or_raise-Returns, returned,
}
use editchain.Sync.Record.{RecordKey, RecordFormat, SyncError, Snapshot, is_some, inventory_page}
use editchain.Sync.Message.{Message, Object, ord_object}
use editchain.Sync.Storage.{Storage}
use editchain.Sync.Transfer.Chunk.{get_from-le}
use editchain.Sync.Transfer.{
  Source, no_source, Active, open_pass, offer, inventory, content, activate, start, sent, send,
  send_or_miss, start_if, need, source_ack, source_checked, chunk_bytes,
}

length-put_le : (set : Set Object) (object : Object) → length (put set object tt) ≤ length set + 1
unfolding put
length-put_le [] object = omega arith
length-put_le ((k, v) ∷ rest) object = ground (arith, length-put_le rest object)

length-erase : (set : Set Object) (object : Object) → length (erase set object) ≤ length set
unfolding erase
length-erase [] object = omega arith
length-erase ((k, v) ∷ rest) object = ground (arith, length-erase rest object)

erase-nil : (object : Object) → erase {V = Unit {0}} [] object ≡ []
unfolding erase
erase-nil object = refl

-- At most one object is in transfer, within its bytes, and with it at most a page of objects waits for acknowledgments.
abbrev pub IsRoomy : Option Active → Set Object → Type 0
IsRoomy none unacked = length unacked ≤ inventory_page
IsRoomy (some active) unacked =
    (length unacked < inventory_page) × (active.next ≤ length active.bytes)

-- The next page begins within the order, and between pages nothing is in transfer or unacknowledged.
abbrev pub IsWithin : Source → Type 0
IsWithin source =
    (source.next ≤ length source.order)
    × IsRoomy source.active source.unacked
    × (source.awaiting_check ≡ false → (source.active ≡ none) × (source.unacked ≡ []))

next_page-le :
    (source : Source)
    → source.next ≤ length source.order
    → (offer source).next ≤ length source.order
next_page-le source h = omega (
  arith,
  length-take inventory_page (drop source.next source.order),
  length-drop source.next source.order,
)

-- A chunk that has been taken, the last or not.
taken-IsWithin :
    (source : Source) (active : Active) (next : ℕ) (last : Bool)
    → IsWithin source
    → source.active ≡ some active
    → next ≤ length active.bytes
    → IsWithin (
        if last
        then record source { active = none; unacked = put source.unacked active.object tt }
        else record source { active = some (record active { next = next }) })
taken-IsWithin source active next true h e f = (
  h.0,
  omega (
    arith,
    length-put_le source.unacked active.object,
    (coe 0 1 (i. IsRoomy (e i) source.unacked) h.1).0,
  ),
  λ g. let c : none ≡ some active = sym (h.2 g).0 ∙ e in cc,
)
taken-IsWithin source active next false h e f = (
  h.0,
  ((coe 0 1 (i. IsRoomy (e i) source.unacked) h.1).0, f),
  λ g. let c : none ≡ some active = sym (h.2 g).0 ∙ e in cc,
)

sent-IsWithin :
    (source : Source) (active : Active) (rest : Bytes)
    → IsWithin source
    → source.active ≡ some active
    → get_from active.bytes active.next ≡ some rest
    → IsWithin (sent active (saturating_add active.next (length (take chunk_bytes rest))) source)
sent-IsWithin source active rest h e g =
    taken-IsWithin source active (saturating_add active.next (length (take chunk_bytes rest))) _ h e
      (omega
        (arith, length-take chunk_bytes rest, length-drop active.next active.bytes, left, within))
  where
    within : active.next ≤ length active.bytes
    within = (coe 0 1 (i. IsRoomy (e i) source.unacked) h.1).1

    left : length (drop active.next active.bytes) ≡ length rest
    left =
        let c : some (drop active.next active.bytes) ≡ some rest =
          sym (get_from-le active.bytes active.next within) ∙ g in
        let d : drop active.next active.bytes ≡ rest = cc in ap length d

module _ {ℓ κ} {R : Type ℓ} {E : Type κ} (api : Storage R E) (format : RecordFormat) where
  abbrev Within : Source × R → Message → Type 0
  Within t message = IsWithin t.0

  -- A fresh pass, or the one that stands.
  abbrev Opens : Source → Source × R → Unit {0} → Type 0
  Opens source u _ =
      (u.0.next ≤ length u.0.order) × (u.0.active ≡ source.active) × (u.0.unacked ≡ source.unacked)

  open_pass-Opens :
      (after : Option RecordKey) (t : Source × R)
      → IsWithin t.0
      → Returns (open_pass api format after t) (Opens t.0)
  unfolding open_pass
  open_pass-Opens none t h =
      widen-Returns _ _ (api.snapshot t.1) _ (Returns-state (api.snapshot t.1) (λ r. Unit {0}) tt)
        (λ r snapshot _. lift-Returns _ _ _ (λ order e. holds (omega arith, refl, refl)))
  open_pass-Opens (some key) t h = ok-Returns _ _ _ (raise_if-end _ _ _ (h.0, refl, refl))

  inventory-Within :
      (after : Option RecordKey) (t : Source × R)
      → IsWithin t.0
      → Returns (inventory api format after t) Within
  unfolding inventory
  inventory-Within after t h = ok-Returns _ _ _ (
      raise_if-Returns _ _ _ _ (λ free. resume-Returns _ _ (open_pass-Opens after t h) (λ u _ q.
        ok-Returns _ _ _ (
          ok-Returns _ _ _ (
            holds (
              next_page-le u.0 q.0,
              coe 1 0 (i. IsRoomy (q.1 i) u.0.unacked)
                  (coe 1 0 (i. IsRoomy t.0.active (q.2 i)) h.1),
              λ (e : true ≡ false). cc,
            ))))))

  content-source :
      (snapshot : Snapshot) (object : Object) (encoded : Bytes) (blob : Option Bytes)
      (t : Source × R)
      → Returns (content api format snapshot object encoded blob t) (λ u _. u.0 ≡ t.0)
  content-source snapshot object encoded none t = holds refl
  content-source snapshot object encoded (some hash) t =
      widen-end _ _ (api.read_blob snapshot object.key hash t.1)
        (Returns-state (api.read_blob snapshot object.key hash t.1) (λ r. t.0 ≡ t.0) refl)

  -- A source between requests that has room for an object in transfer.
  abbrev HasRoom : Source → Type 0
  HasRoom source =
      (source.next ≤ length source.order)
      × (length source.unacked < inventory_page)
      × (source.awaiting_check ≡ true)

  activate-Within :
      (object : Object) (bytes : Option Bytes) (t : Source × R)
      → IsWithin t.0
      → HasRoom t.0
      → Returns (activate api format object bytes t) (λ u _. IsWithin u.0)
  activate-Within object none t h r = ok-Returns _ _ _ (holds h)
  activate-Within object (some bytes) t h r =
      ok-Returns _ _ _
        (holds (r.0, (r.1, omega arith), λ e. let f : true ≡ false = sym r.2 ∙ e in cc))

  room :
      (source : Source) (object : Object)
      → IsWithin source
      → source.awaiting_check ≡ true
      → (is_some source.active
          || (leb inventory_page (length source.unacked) || is_some (find source.unacked object)))
        ≡ false
      → HasRoom source
  room source object h awaiting free = (h.0, few source.active source.unacked free, awaiting)
    where
      few :
          (active : Option Active) (unacked : Set Object)
          → (is_some active
              || (leb inventory_page (length unacked) || is_some (find unacked object)))
            ≡ false
          → length unacked < inventory_page
      few active unacked free = ground arith

  start-Within :
      (object : Object) (t : Source × R)
      → IsWithin t.0
      → t.0.awaiting_check ≡ true
      → Returns (start api format object t) (λ u _. IsWithin u.0)
  unfolding start
  start-Within object t h awaiting = ok-Returns _ _ _ (
      raise_if-Returns _ _ _ _ (λ free. ok-Returns _ _ _ (
        or_raise-Returns _ _ _ _ (λ snapshot _. or_raise-Returns _ _ _ _ (λ encoded _.
          resume-Returns _ _ (content-source snapshot object encoded object.blob t) (λ u bytes e.
            activate-Within object bytes u (coe 1 0 (i. IsWithin (e i)) h)
              (coe 1 0 (i. HasRoom (e i)) (room t.0 object h awaiting free))))))))

  send-Within :
      (object : Object) (offset : ℕ) (t : Source × R)
      → IsWithin t.0
      → Returns {E = SyncError E} (send object offset t) Within
  unfolding send
  send-Within object offset t h = ok-Returns _ _ _ (
      or_raise-Returns _ _ _ _ (λ active e. raise_if-Returns _ _ _ _ (λ placed.
        or_raise-Returns _ _ _ _ (λ total _. or_raise-Returns _ _ _ _ (λ rest g. ok-Returns _ _ _ (
          or_raise-Returns _ _ _ _ (λ at _. holds (
            sent-IsWithin t.0 active rest h e
              (ap (get_from active.bytes) (offset_next active offset placed) ∙ g)))))))))
    where
      offset_next :
          (active : Active) (offset : ℕ)
          → (not (same active.object object) || not (active.next == offset)) ≡ false
          → active.next ≡ offset
      offset_next active offset placed = ground arith

  send_or_miss-Within :
      (object : Object) (offset : ℕ) (b : Bool) (t : Source × R)
      → IsWithin t.0
      → Returns (send_or_miss api format object offset b t) Within
  send_or_miss-Within object offset true t h = send-Within object offset t h
  send_or_miss-Within object offset false t h = holds h

  start_if-Within :
      (b : Bool) (object : Object) (t : Source × R)
      → IsWithin t.0
      → t.0.awaiting_check ≡ true
      → Returns (start_if api format b object t) (λ u _. IsWithin u.0)
  start_if-Within true object t h awaiting = start-Within object t h awaiting
  start_if-Within false object t h awaiting = holds h

  need-Within :
      (object : Object) (offset : ℕ) (t : Source × R)
      → IsWithin t.0
      → Returns (need api format object offset t) Within
  unfolding need
  need-Within object offset t h = ok-Returns _ _ _ (
      raise_if-Returns _ _ _ _ (λ active_page.
        resume-Returns _ _
          (start_if-Within (offset == 0) object t h (awaited t.0.awaiting_check active_page))
          (λ u present k. send_or_miss-Within object offset present u k)))
    where
      awaited : (b : Bool) → not b ≡ false → b ≡ true
      awaited true e = refl
      awaited false e = cc

  ack-Within :
      (object : Object) (t : Source × R)
      → IsWithin t.0
      → Returns {E = SyncError E} (source_ack object t) (λ u _. IsWithin u.0)
  unfolding source_ack
  ack-Within object t h = ok-Returns _ _ _ (
      raise_if-Returns _ _ _ _ (λ known. holds (
        h.0,
        fewer t.0.active t.0.unacked h.1,
        λ e. ((h.2 e).0, coe 1 0 (i. erase ((h.2 e).1 i) object ≡ []) (erase-nil object)),
      )))
    where
      fewer :
          (active : Option Active) (unacked : Set Object)
          → IsRoomy active unacked
          → IsRoomy active (erase unacked object)
      fewer none unacked k = omega (arith, length-erase unacked object)
      fewer (some active) unacked k = (omega (arith, length-erase unacked object, k.0), k.1)

  checked-Within :
      (end : ℕ) (t : Source × R)
      → IsWithin t.0
      → Returns {E = SyncError E} (source_checked end t) (λ u _. IsWithin u.0)
  unfolding source_checked
  checked-Within end t h = ok-Returns _ _ _ (
      raise_if-Returns _ _ _ _ (λ quiet. holds (
        h.0,
        h.1,
        λ e. idle t.0.awaiting_check t.0.active t.0.unacked (not (end == t.0.next)) quiet,
      )))
    where
      idle :
          (awaiting : Bool) (active : Option Active) (unacked : Set Object) (misplaced : Bool)
          → (not awaiting || (is_some active || (not (is_empty unacked) || misplaced))) ≡ false
          → (active ≡ none) × (unacked ≡ [])
      idle true none [] b e = (refl, refl)
      idle true none (x ∷ xs) b e = cc
      idle true (some active) unacked b e = cc
      idle false active unacked b e = cc

-- A source after calls that it accepted, from a new one.
pub data Serves {ℓ κ} {R : Type ℓ} {E : Type κ} (api : Storage R E) (format : RecordFormat)
    : Source × R → Type (ℓ ⊔ κ) where
  begins : (replica : R) → Serves api format (no_source, replica)
  pages :
      (after : Option RecordKey) (t u : Source × R) (reply : Message)
      → Serves api format t
      → inventory api format after t ≡ (u, ok reply)
      → Serves api format u
  sends :
      (object : Object) (offset : ℕ) (t u : Source × R) (reply : Message)
      → Serves api format t
      → need api format object offset t ≡ (u, ok reply)
      → Serves api format u
  acks :
      (object : Object) (t u : Source × R)
      → Serves api format t
      → source_ack {E = E} object t ≡ (u, ok tt)
      → Serves api format u
  checks :
      (end : ℕ) (t u : Source × R)
      → Serves api format t
      → source_checked {E = E} end t ≡ (u, ok tt)
      → Serves api format u

module _ {ℓ κ} {R : Type ℓ} {E : Type κ} (api : Storage R E) (format : RecordFormat) where
  -- A source that has accepted any calls, in any order, never points behind its order of records, has at most one object in
  -- transfer, never sends past the end of that object, waits for the acknowledgments of at most 128 objects, and has nothing
  -- in transfer or unacknowledged once its page is confirmed as checked.
  pub Serves-IsWithin : (t : Source × R) → Serves api format t → IsWithin t.0
  Serves-IsWithin t (Serves.begins replica) = (omega arith, omega arith, λ e. (refl, refl))
  Serves-IsWithin t (Serves.pages after s u reply h e) =
      returned e (inventory-Within api format after s (Serves-IsWithin s h))
  Serves-IsWithin t (Serves.sends object offset s u reply h e) =
      returned e (need-Within api format object offset s (Serves-IsWithin s h))
  Serves-IsWithin t (Serves.acks object s u h e) =
      returned e (ack-Within api format object s (Serves-IsWithin s h))
  Serves-IsWithin t (Serves.checks end s u h e) =
      returned e (checked-Within api format end s (Serves-IsWithin s h))
