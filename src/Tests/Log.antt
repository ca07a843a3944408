-- ===== src/Tests/Log.antt =====
-- Runs of the log store of log.rs over a log in memory. A record's identity is its first byte.
use editchain.Prelude.{
  ℕ, ◌≡◌, refl, ap, Bool, true, false, Option, none, some, List, [], ◌∷◌, ◌++◌, length, All, Result,
  ok, err, is_empty,
}
use editchain.Order.Lexicographic.{ord_list}
use editchain.Order.Number.{ord_number}
use editchain.Collections.Map.{find, put}
use editchain.Core.Admission.{OpSet, Admission, new, insert, outcome, variants_of}
use editchain.Core.Admission.Evidence.{retained}
use editchain.Store.Log.{
  Bytes, LogRecord, AppendLog, LogError, LogStore, admit, replay_from, validate_record,
  validate_records, read_evidence, commit, append_valid, append_encoded_batch, append_encoded,
}
use editchain.Store.Log.Replay.{admit-retained}
use editchain.Store.Log.Commit.{IsCurrent}
use editchain.Store.Log.Batch.{IsBatch, append_encoded_batch_lem}

data Fault : Type 0 where
  disk_full : Fault

-- The records, and whether the disk has room.
abbrev Memory : Type 0
Memory = List LogRecord × Bool

abbrev memory_append : Memory → List LogRecord → Memory × Result Fault (Unit {0})
memory_append (records, true) more = ((records ++ more, true), ok tt)
memory_append (records, false) more = ((records, false), err Fault.disk_full)

abbrev memory_visit : Memory → Result Fault (List LogRecord)
memory_visit (records, room) = ok records

memory_visit-append :
    (log : Memory) (rs xs : List LogRecord)
    → (memory_append log rs).1 ≡ ok tt
    → memory_visit log ≡ ok xs
    → memory_visit (memory_append log rs).0 ≡ ok (xs ++ rs)
memory_visit-append (records, true) rs xs h e =
    let f : records ≡ xs = cc in ap (λ r. ok (r ++ rs)) f
memory_visit-append (records, false) rs xs h e = cc

abbrev memory : AppendLog Memory Fault
memory = record {
  visit_records = memory_visit;
  append_records = memory_append;
  sync = λ log. (log, ok tt);
  visit-sync = λ log. refl;
  visit-append = memory_visit-append;
}

abbrev first_byte : Bytes → Option ℕ
first_byte [] = none
first_byte (byte ∷ rest) = some byte

-- A log of one record, with room, and one without.
abbrev roomy : LogStore Memory ℕ
roomy = record { log = ((0, 7 ∷ 1 ∷ []) ∷ [], true); evidence = none }

abbrev full : LogStore Memory ℕ
full = record { log = ((0, 7 ∷ 1 ∷ []) ∷ [], false); evidence = none }

abbrev batch : List Bytes
batch = (7 ∷ 1 ∷ []) ∷ (7 ∷ 2 ∷ []) ∷ (8 ∷ []) ∷ []

batch_run :
    (append_encoded_batch first_byte memory roomy batch).1
    ≡ ok (Admission.duplicate ∷ Admission.conflict ∷ Admission.accepted ∷ [])
unfolding ord_list ord_number append_encoded_batch validate_records validate_record append_valid
    read_evidence commit admit replay_from insert outcome variants_of find put
batch_run = refl

batch_log :
    (append_encoded_batch first_byte memory roomy batch).0.log
    ≡ ((0, 7 ∷ 1 ∷ []) ∷ (0, 7 ∷ 2 ∷ []) ∷ (0, 8 ∷ []) ∷ [], true)
unfolding ord_list ord_number append_encoded_batch validate_records validate_record append_valid
    read_evidence commit admit replay_from insert outcome variants_of find put
batch_log = refl

batch_full :
    append_encoded_batch first_byte memory full batch
    ≡ (full, err (LogError.adapter Fault.disk_full))
unfolding ord_list ord_number append_encoded_batch validate_records validate_record append_valid
    read_evidence commit admit replay_from insert outcome variants_of find put
batch_full = refl

single_run : (append_encoded first_byte memory roomy (7 ∷ 1 ∷ [])).1 ≡ ok Admission.duplicate
unfolding ord_list ord_number append_encoded append_encoded_batch validate_records validate_record
    append_valid read_evidence commit admit replay_from insert outcome variants_of find put
single_run = refl

roomy-IsCurrent : IsCurrent first_byte memory roomy
roomy-IsCurrent evidence e = cc

append_encoded_batch_lem_example :
    IsCurrent first_byte memory (append_encoded_batch first_byte memory roomy batch).0
    × ((e : LogError Fault)
        → validate_records first_byte batch ≡ err e
        → append_encoded_batch first_byte memory roomy batch ≡ (roomy, err e))
    × ((ids : List (ℕ × Bytes))
        → validate_records {E = Fault} first_byte batch ≡ ok ids
        → is_empty batch ≡ false
        → IsBatch first_byte memory roomy ids (append_encoded_batch first_byte memory roomy batch))
append_encoded_batch_lem_example =
    append_encoded_batch_lem first_byte memory roomy batch roomy-IsCurrent

abbrev pairs : List (ℕ × Bytes)
pairs = (7, 7 ∷ 1 ∷ []) ∷ (7, 7 ∷ 2 ∷ []) ∷ []

abbrev nothing : OpSet ℕ Bytes
nothing = new

admit-retained_example :
    All (λ entry. retained (admit nothing pairs).evidence (entry.0) (entry.1) ≡ true) pairs
    × (length (admit nothing pairs).admissions ≡ length pairs)
admit-retained_example = admit-retained nothing pairs
