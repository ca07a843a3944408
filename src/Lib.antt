-- ===== src/Lib.antt =====
-- EditChain keeps a chain of immutable operation records: agents' edits and the activity around
-- them. Records are written as frames into append-only segments, admitted by exact bytes into a
-- grow-only evidence set, exchanged between replicas, and indexed in copy-on-write pages for the
-- queries. This library models the parts of the engine that decide what a stored chain means.
--
-- Parts, and how they meet:
-- * Store.Format (crates/editchain-store/src/format): the bytes on disk. Ec03 is the encoder, the
--   checked scanner and the decoder of an EC03 frame (ec03.rs: encode_ec03, scan_frame,
--   decode_ec03); Scan is the scanner of a whole segment (scan.rs: PageScanner::next_item and its
--   iterator), which hands out frames and records with their offsets; Page is the legacy EC02 page
--   (page.rs: encode_page, decode_page), decoded by the same scanner.
-- * Store.Log (crates/editchain-store/src/log.rs): LogStore, the admission of encoded records over
--   an append log. The trait AppendLog is an interface of operations and laws; what a segment
--   writer does to meet it is not modelled. Log.Growth tells a batch by the records of the log alone.
-- * Core.Admission (crates/editchain-core/src/admission.rs): OpSet, the evidence set that a log
--   store and a replica keep. Store.Log inserts into it and replays logs into it.
-- * IndexPages.Rank (crates/editchain-index-pages/src/rank.rs): the balanced tree with two weights
--   per subtree, on which the ordered index and the presentation of the history stand. IndexPages.Sorted
--   and IndexPages.Replacement have the sorted list of entries that a tree stands for, and Edit of
--   Rank.Edits is a call that changes a tree.
-- * Sync.Wire (crates/editchain-sync/src/wire.rs): the length-prefixed frames between peers, and
--   FrameDecoder, which takes a stream in chunks; the codec of the messages is an interface.
-- * Sync.Record (crates/editchain-sync/src/replica.rs: RecordKey, Snapshot; storage.rs:
--   validate_records), Sync.Message (the enum Message of wire.rs, and Object of transfer.rs),
--   Sync.Progress (progress.rs): the data of a replication session. Core.Ids
--   (crates/editchain-core/src/ids.rs) has the identities.
-- * Sync.Storage (crates/editchain-sync/src/storage.rs): the trait ReplicationStorage as an
--   interface, its default confirm_blob, and what its comments promise of durable storage
--   (Durability), for any predicate that says what a state has durably retained.
-- * Sync.Inventory (inventory.rs): parent_first, the order of an export.
-- * Sync.Transfer (transfer.rs): Download, the receiving side of an object, and Source, the sending
--   side with its pages, chunks and acknowledgments.
-- * Sync.Session (session.rs): the session. Pulling has page, complete, flush, advance and
--   find_blobs, Receiving has tick, receive and the handling of each message. A session calls the
--   source and the storage, and the source calls the storage.
-- * Sync.Action is a method on a mutable receiver that returns io::Result: a function from a state
--   to a state and a result, so that what an error leaves behind is in the model.
-- * Order and Collections.Map are the standard library's Ord, its lexicographic instance for Vec,
--   and BTreeMap and BTreeSet by their entries in increasing order.
-- * Prelude has the machine integers, slices and results that the parts share.
--
-- How the code is modelled. A struct is a record and an enum a data type with the source's
-- constructors. A method that changes its receiver returns the new receiver beside its result. A
-- loop is structural recursion; the state it carries is passed along. Numbers are natural numbers:
-- additions that the source checks or saturates do so at the width written there (32 or 64 bits),
-- little-endian fields are bytes of the remainders of the division by 256, and a length conversion
-- fails where the source's does. Rust errors are values of Result; its third case, stuck, is what
-- a fuelled loop of a model gives when the fuel runs out, and nothing in Rust.
--
-- Sessions. A method that pushes to a list of replies returns those that it pushes, and an error
-- drops them, as process does. A method of the storage trait may change the storage, also where it
-- takes a shared reference, as implementations have cells. Conversions between usize and u64 cannot
-- fail on the 64-bit targets and are not written. The messages of errors are not told apart.
--
-- Fuel. The search of parent_first is given the number of the keys, which bounds the keys that it
-- enters; other turns take an entry off its stack. The decoder of Sync.Wire passes its loop one more
-- than the bytes it holds, and each turn takes five or more. read_records of Ec03 and the collecting
-- runs of Scan and Page recurse on fuel. The decoders pass the length of their input, and each step
-- consumes at least one byte, so that the fuel is never the end of a run. The calls of a traversal of
-- IndexPages.Rank are counted, and one more than its entries is enough.
--
-- Parameters. CRC32C (the crc crate) is the field of an interface, with the law that it gives a
-- number below 2 ^ 32. decode_op (format/frame.rs) is a parameter of Store.Log, and of Sync in
-- RecordFormat beside the blake3 hash: the identity of the operation that the postcard crate decodes,
-- and its parents'. OpId and Vec<u8> in OpSet, and the keys and values of the rank tree, are any types
-- with an Ord whose laws the interface Order.Ord states.
--
-- Heights. The stored height of a rank tree saturates at 2 ^ 32 - 1, and the bound height_limit is
-- two below that. Rank.Edits takes at most so many edits.
--
-- Not modelled: the file system (segment.rs, durable.rs, tail.rs, blob.rs, migration.rs,
-- reader.rs), the page cache and copy on write (page.rs, map.rs, ordered.rs, storage.rs of the
-- index pages), operations and activity (op.rs, activity), git (editchain-git), the index and the
-- queries (editchain-index, editchain-engine), the rest of replication (editchain-sync: replica.rs
-- but for its data, membership, evidence, scope, and the encrypted channel and endpoint) and the
-- command line (editchain, editchain-cli-support). In log.rs: snapshot and the default append_records.
pub mod Prelude
pub mod IndexPages
pub mod Order
pub mod Collections
pub mod Core
pub mod Store
pub mod Sync
pub mod Tests
