-- ===== src/Sync/Message.antt =====
-- The messages of crates/editchain-sync/src/wire.rs, and the objects of crates/editchain-sync/src/transfer.rs that they
-- ask for. A string is its bytes.
use editchain.Prelude.{ℕ, ◌≡◌, Bool, Option, List, Result, ok, ◌>>=◌, ok_or, u32_try_from}
use editchain.Order.{Ord}
use editchain.Order.Product.{ord_on, ord_pair, ord_option}
use editchain.Order.Number.{ord_number}
use editchain.Order.Lexicographic.{ord_list}
use editchain.Core.Ids.{Bytes}
use editchain.Sync.Record.{RecordKey, ord_record_key, SyncError}

abbrev pub peer_version : ℕ
peer_version = 5

pub data Message : Type 0 where
  hello : (version encoding : ℕ) (space : Bytes) → Message
  inventory : (after : Option RecordKey) → Message
  page : (offset total : ℕ) (records : List RecordKey) (more : Bool) → Message
  need : (record_key : RecordKey) (blob : Option Bytes) (offset : ℕ) → Message
  chunk :
      (record_key : RecordKey) (blob : Option Bytes) (offset total : ℕ) (bytes : Bytes) → Message
  missing : (record_key : RecordKey) (blob : Option Bytes) → Message
  ack : (record_key : RecordKey) (blob : Option Bytes) → Message
  checked : (end : ℕ) → Message

-- A record, or the content that it refers to.
pub record Object : Type 0 where
  pub key : RecordKey
  pub blob : Option Bytes

abbrev pub object_fields : Object → RecordKey × Option Bytes
object_fields a = (a.key, a.blob)

pub object_injective : (a b : Object) → object_fields a ≡ object_fields b → a ≡ b
object_injective a b h i = record { key = (h i).0; blob = (h i).1 }

instance unfoldable pub ord_object : Ord Object
ord_object = ord_on ord_pair object_fields object_injective

unfoldable pub need_at {κ} : {E : Type κ} → Object → ℕ → Result (SyncError E) Message
need_at object offset = do
  offset ← ok_or (u32_try_from offset) SyncError.other
  ok (Message.need object.key object.blob offset)

abbrev pub ack_of : Object → Message
ack_of object = Message.ack object.key object.blob
