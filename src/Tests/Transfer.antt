-- ===== src/Tests/Transfer.antt =====
-- The order of an inventory, one object across both sides of a transfer, and the first message of a session.
use editchain.Prelude.{false, ◌≡◌, refl, none, some, List, [], ◌∷◌, ok, take, drop, arith}
use editchain.Collections.Map.{Map, find, put}
use editchain.Core.Ids.{Bytes}
use editchain.Order.Product.{ord_pair, ord_option}
use editchain.Order.Lexicographic.{ord_list}
use editchain.Order.Number.{ord_number}
use editchain.Sync.Action.{resume, widen, raise_if, or_raise, lift, Returns}
use editchain.Sync.Record.{RecordKey, ord_record_key, lookup}
use editchain.Sync.Message.{Message, Object, ord_object}
use editchain.Sync.Inventory.{
  parent_first, from_starts, entries, parent_ids, partition_point, push_parents, set_elem, visit,
  walk,
}
use editchain.Sync.Inventory.Export.{Exports, parent_first-Exports}
use editchain.Sync.Transfer.{
  Source, no_source, inventory, open_pass, download_new, need, start, send,
}
use editchain.Sync.Transfer.Bounds.{IsWithin, Serves, Serves-IsWithin}
use editchain.Sync.Transfer.Delivery.{deliver, Arrived, deliver-Arrived}
use editchain.Sync.Session.{session_new}
use editchain.Sync.Session.Receiving.{receive}
use editchain.Sync.Session.Negotiation.{Agrees, receive-Agrees}
use editchain.Tests.Shelf.{Shelf, shelf_api, test_format}

abbrev key_of : Bytes → RecordKey
key_of bytes = record { id = take 1 bytes; digest = bytes }

-- Three records: the parents of the first two are a cycle.
abbrev cycle : Map RecordKey Bytes
cycle =
    (key_of (1 ∷ (2 ∷ [])), 1 ∷ (2 ∷ []))
    ∷ ((key_of (2 ∷ (1 ∷ [])), 2 ∷ (1 ∷ [])) ∷ ((key_of (3 ∷ []), 3 ∷ []) ∷ []))

-- The cycle is broken at the edge that leads back.
cycle_order :
    parent_first {E = Unit {0}} test_format cycle
    ≡ ok (key_of (2 ∷ (1 ∷ [])) ∷ (key_of (1 ∷ (2 ∷ [])) ∷ (key_of (3 ∷ []) ∷ [])))
unfolding parent_first from_starts entries parent_ids partition_point push_parents set_elem visit
    walk find take ord_record_key ord_pair ord_list ord_number
cycle_order = refl

parent_first-Exports_example :
    (order : List RecordKey) × (parent_first {E = Unit {0}} test_format cycle ≡ ok order)
    × Exports cycle order
unfolding take ord_record_key ord_pair ord_list ord_number
parent_first-Exports_example =
    parent_first-Exports (Unit {0}) test_format cycle (((refl, (refl, tt)), ((refl, tt), (tt, tt))))
      (_, refl, (_, refl, (_, refl, tt)))

abbrev content_object : Object
content_object = record { key = key_of (1 ∷ (2 ∷ (9 ∷ []))); blob = some (9 ∷ []) }

abbrev shelf : Shelf
shelf =
    (content_object, 5 ∷ (6 ∷ []))
    ∷ ((record { key = key_of (1 ∷ (2 ∷ (9 ∷ []))); blob = none }, 1 ∷ (2 ∷ (9 ∷ []))) ∷ [])

-- A source that has offered its page.
abbrev offered : Source × Shelf
offered = (inventory shelf_api test_format none (no_source, shelf)).0

deliver-Arrived_example :
    Arrived shelf_api test_format
      (5 ∷ (6 ∷ []))
      content_object
      (deliver shelf_api test_format 3 content_object offered (download_new content_object))
unfolding inventory open_pass resume widen raise_if or_raise lift parent_first from_starts entries
    parent_ids partition_point push_parents set_elem visit walk find put lookup take drop
    ord_record_key ord_object ord_pair ord_option ord_list ord_number
deliver-Arrived_example =
    deliver-Arrived shelf_api test_format content_object (5 ∷ (6 ∷ [])) offered
      (refl, refl, omega arith, refl, _, _, _, refl, refl, refl) (omega arith)

receive-Agrees_example :
    Returns
      (receive shelf_api test_format (Message.hello 5 1 (97 ∷ [])) (session_new shelf))
      (Agrees shelf_api test_format (Message.hello 5 1 (97 ∷ [])) shelf no_source)
receive-Agrees_example =
    receive-Agrees shelf_api test_format (Message.hello 5 1 (97 ∷ [])) (session_new shelf) refl

-- A source that has offered a page and sent a record whole.
abbrev page_message : Message
page_message = Message.page 0 1 (key_of (1 ∷ (2 ∷ (9 ∷ []))) ∷ []) false

abbrev sent_record : Object
sent_record = record { key = key_of (1 ∷ (2 ∷ (9 ∷ []))); blob = none }

abbrev served : Source × Shelf
served = (need shelf_api test_format sent_record 0 offered).0

Serves-IsWithin_example : IsWithin served.0
unfolding inventory open_pass resume widen raise_if or_raise lift parent_first from_starts entries
    parent_ids partition_point push_parents set_elem visit walk find put lookup take drop
    ord_record_key ord_object ord_pair ord_option ord_list ord_number need start send
Serves-IsWithin_example = Serves-IsWithin shelf_api test_format served (
    Serves.sends sent_record 0 offered served
      (Message.chunk sent_record.key none 0 3 (1 ∷ (2 ∷ (9 ∷ []))))
      (Serves.pages none (no_source, shelf) offered page_message (Serves.begins shelf) refl) refl)
