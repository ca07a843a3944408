-- ===== src/Tests/Session.antt =====
-- Two sessions that exchange what they hold.
use editchain.Prelude.{
  ◌⊎◌, true, ℕ, zero, suc, ◌≡◌, refl, Bool, false, none, some, List, [], ◌∷◌, ◌++◌, Result, ok, err,
  stuck, All, take, drop,
}
use editchain.Collections.Map.{find, put, erase}
use editchain.Core.Ids.{Bytes}
use editchain.Sync.Action.{resume, widen, raise_if, or_raise, lift, Returns}
use editchain.Sync.Record.{RecordKey, from_encoded, contains, lookup, received_blob, SyncError}
use editchain.Sync.Message.{Message, Object, need_at}
use editchain.Sync.Session.{Session, session_new, update_work}
use editchain.Sync.Session.Receiving.{receive, tick, hello}
use editchain.Sync.Session.Coverage.{Honest}
use editchain.Sync.Session.Calls.{Reachable}
use editchain.Sync.Session.Reach.{receive-Honest}
use editchain.Sync.Session.Memory.{IsLight}
use editchain.Sync.Session.Limits.{Reachable-IsLight}
use editchain.Sync.Session.Failure.{receive-after_error}
use editchain.Order.Product.{ord_pair, ord_option}
use editchain.Order.Lexicographic.{ord_list}
use editchain.Order.Number.{ord_number}
use editchain.Sync.Record.{ord_record_key}
use editchain.Sync.Message.{ord_object}
use editchain.Sync.Inventory.{
  parent_first, from_starts, entries, parent_ids, partition_point, push_parents, set_elem, visit,
  walk,
}
use editchain.Sync.Session.Pulling.{
  acks, advance, complete, find_blobs, find_hashes, flush, lacking, next_blob, page, publish,
  request, stage,
}
use editchain.Sync.Session.Receiving.{
  process, negotiate, start_round, dispatch, acknowledge, receive_chunk, receive_missing,
}
use editchain.Sync.Storage.{default_confirm_blob}
use editchain.Sync.Transfer.{
  append, inventory, open_pass, need, send, source_ack, source_checked, start,
}
use editchain.Tests.Shelf.{Shelf, shelf_api, shelf_durable, IsOn, test_format}

abbrev Peer : Type 0
Peer = Session Shelf

abbrev key_of : Bytes → RecordKey
key_of bytes = record { id = take 1 bytes; digest = bytes }

abbrev record_at : Bytes → Object × Bytes
record_at bytes = (record { key = key_of bytes; blob = none }, bytes)

-- Two records, the child first in the order of the keys, and a content of the child.
abbrev full_shelf : Shelf
full_shelf =
    (record { key = key_of (1 ∷ (2 ∷ (9 ∷ []))); blob = some (9 ∷ []) }, 5 ∷ (6 ∷ []))
    ∷ (record_at (1 ∷ (2 ∷ (9 ∷ []))) ∷ (record_at (2 ∷ []) ∷ []))

abbrev replies : Peer × Result (SyncError (Unit {0})) (List Message) → List Message
replies (s, ok messages) = messages
replies (s, err e) = []
replies (s, stuck) = []

-- The messages that wait for the two peers, delivered in turn on fuel.
exchange : ℕ → Peer → Peer → List Message → List Message → Peer × Peer
exchange zero a b for_a for_b = (a, b)
exchange (suc fuel) a b [] [] = (a, b)
exchange (suc fuel) a b (m ∷ ms) for_b =
    let x = receive shelf_api test_format m a in exchange fuel (x.0) b ms (for_b ++ replies x)
exchange (suc fuel) a b [] (m ∷ ms) =
    let x = receive shelf_api test_format m b in exchange fuel a (x.0) (replies x) ms

abbrev sender : Peer
sender = session_new full_shelf

abbrev receiver : Peer
receiver = session_new []

abbrev met : Peer × Peer
met = exchange 40 sender receiver (hello shelf_api receiver ∷ []) (hello shelf_api sender ∷ [])

-- What the receiver holds after the exchange, and whether its round is over.
abbrev outcome : Shelf × Bool
outcome = (met.1.replica, met.1.progress.synchronizing)

outcome_synced : outcome ≡ (
  (record { key = key_of (1 ∷ (2 ∷ (9 ∷ []))); blob = some (9 ∷ []) }, 5 ∷ (6 ∷ []))
      ∷ (record_at (2 ∷ []) ∷ (record_at (1 ∷ (2 ∷ (9 ∷ []))) ∷ [])),
  false,
)
unfolding exchange receive hello resume raise_if process widen negotiate tick start_round
    update_work dispatch inventory open_pass lift parent_first from_starts put ord_record_key
    ord_pair erase find ord_list ord_number ord_option drop take or_raise entries parent_ids
    partition_point push_parents set_elem visit walk need_at ord_object contains from_encoded lookup
    received_blob acks advance complete find_blobs find_hashes flush lacking next_blob page publish
    request stage acknowledge receive_chunk receive_missing default_confirm_blob append need send
    source_ack source_checked start
outcome_synced = refl

-- A receiver that has one record of a page staged, and waits for the other.
abbrev greeted : Peer
greeted = (receive shelf_api test_format (Message.hello 5 1 (97 ∷ [])) receiver).0

abbrev paged : Peer
paged =
    (receive shelf_api test_format
      (Message.page 0 2 (key_of (2 ∷ []) ∷ (key_of (1 ∷ (2 ∷ [])) ∷ [])) false) greeted).0

abbrev staging : Peer
staging =
    (receive shelf_api test_format (Message.chunk (key_of (2 ∷ [])) none 0 1 (2 ∷ [])) paged).0

staging-Reachable : Reachable shelf_api test_format staging
staging-Reachable = Reachable.received (Message.chunk (key_of (2 ∷ [])) none 0 1 (2 ∷ [])) paged (
    Reachable.received (Message.page 0 2 (key_of (2 ∷ []) ∷ (key_of (1 ∷ (2 ∷ [])) ∷ [])) false)
      greeted (Reachable.received (Message.hello 5 1 (97 ∷ [])) receiver (Reachable.fresh [])))

abbrev last_chunk : Message
last_chunk = Message.chunk (key_of (1 ∷ (2 ∷ []))) none 0 2 (1 ∷ (2 ∷ []))

receive-Honest_example :
    Returns
      (receive shelf_api test_format last_chunk staging)
      (λ t messages. All (Honest IsOn t) messages)
receive-Honest_example =
    receive-Honest shelf_api test_format IsOn shelf_durable staging last_chunk staging-Reachable

-- The batch is saved, then its records are acknowledged and the page is confirmed.
last_replies :
    replies (receive shelf_api test_format last_chunk staging)
    ≡ Message.ack (key_of (2 ∷ [])) none
      ∷ (Message.ack (key_of (1 ∷ (2 ∷ []))) none ∷ (Message.checked 2 ∷ []))
unfolding receive hello resume raise_if process widen negotiate tick start_round update_work
    dispatch inventory open_pass lift parent_first from_starts put ord_record_key ord_pair erase
    find ord_list ord_number ord_option drop take or_raise entries parent_ids partition_point
    push_parents set_elem visit walk need_at ord_object contains from_encoded lookup received_blob
    acks advance complete find_blobs find_hashes flush lacking next_blob page publish request stage
    acknowledge receive_chunk receive_missing default_confirm_blob append need send source_ack
    source_checked start
last_replies = refl

receive-after_error_example :
    (receive shelf_api test_format last_chunk
        (receive shelf_api test_format (Message.checked 3) greeted).0
      ≡ ((receive shelf_api test_format (Message.checked 3) greeted).0, err SyncError.invalid))
    × (tick shelf_api (receive shelf_api test_format (Message.checked 3) greeted).0
        ≡ ((receive shelf_api test_format (Message.checked 3) greeted).0, err SyncError.invalid))
unfolding receive resume raise_if process widen negotiate tick start_round update_work dispatch
    source_checked
receive-after_error_example =
    receive-after_error shelf_api test_format (Message.checked 3) last_chunk greeted refl

Reachable-IsLight_example : (staging.failed ≡ true) ⊎ IsLight staging
Reachable-IsLight_example = Reachable-IsLight shelf_api test_format staging staging-Reachable
