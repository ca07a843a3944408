-- ===== src/Core/Ids.antt =====
-- crates/editchain-core/src/ids.rs: the identities of operations and the addresses of their producers. A fixed-width
-- identity is its bytes; a newtype of an integer is the integer.
use editchain.Prelude.{ℕ, ◌≡◌, List, ◌++◌, to_le_bytes}
use editchain.Order.{Ord}
use editchain.Order.Product.{ord_on, ord_pair}
use editchain.Order.Number.{ord_number}

abbrev pub Bytes : Type 0
Bytes = List ℕ

-- `OpId([u8; 32])`, whose derived order is that of the bytes.
abbrev pub OpId : Type 0
OpId = Bytes

pub record SourceId : Type 0 where
  pub node : ℕ
  pub boot : ℕ
  pub seq : ℕ

abbrev pub address_fields : SourceId → ℕ × (ℕ × ℕ)
address_fields a = (a.node, (a.boot, a.seq))

pub address_injective : (a b : SourceId) → address_fields a ≡ address_fields b → a ≡ b
address_injective a b h i = record { node = (h i).0; boot = (h i).1.0; seq = (h i).1.1 }

-- `Ord for SourceId`: the node, then the boot, then the sequence number.
instance unfoldable pub ord_source_id : Ord SourceId
ord_source_id = ord_on ord_pair address_fields address_injective

-- `SourceId::id`, over the keyed hash of the `blake3` crate.
unfoldable pub id : (Bytes → OpId) → SourceId → OpId
id hash source =
    hash (to_le_bytes 8 source.node ++ (to_le_bytes 4 source.boot ++ to_le_bytes 8 source.seq))
