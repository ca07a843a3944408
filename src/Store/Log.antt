-- ===== src/Store/Log.antt =====
-- crates/editchain-store/src/log.rs: admission of encoded operations over an append log. The adapter that stores the
-- records is the interface `AppendLog`; `decode_op`, whose work the `postcard` crate does, is the parameter `decode_id`,
-- the identity of the operation that it decodes.
use editchain.Prelude.{
  ℕ, ◌≡◌, Bool, true, false, ◌||◌, Option, none, some, List, [], ◌∷◌, ◌++◌, length, leb,
  if◌then◌else◌, Result, ok, err, stuck, ◌>>=◌, ◌>>◌, ok_or, fail_if, map_err, u32_try_from,
  is_empty, not,
}
use editchain.Order.{Ord}
use editchain.Core.Admission.{OpSet, Admission, new, insert}
use editchain.Store.Format.Records.{max_record_bytes}
pub mod Replay
pub mod Growth
pub mod Commit
pub mod Retry
pub mod Batch

abbrev pub Bytes : Type 0
Bytes = List ℕ

-- The record's flags and its bytes.
abbrev pub LogRecord : Type 0
LogRecord = ℕ × Bytes

-- The trait `AppendLog`, over the state `L` of the adapter and its errors `E`: its operations, and what it promises of
-- them. A failed append promises nothing.
pub record AppendLog {ℓ κ} (L : Type ℓ) (E : Type κ) : Type (ℓ ⊔ κ) where
  pub visit_records : L → Result E (List LogRecord)
  pub append_records : L → List LogRecord → L × Result E (Unit {0})
  pub sync : L → L × Result E (Unit {0})
  pub visit-sync : (log : L) → visit_records (sync log).0 ≡ visit_records log
  pub visit-append :
      (log : L) (rs xs : List LogRecord)
      → (append_records log rs).1 ≡ ok tt
      → visit_records log ≡ ok xs
      → visit_records (append_records log rs).0 ≡ ok (xs ++ rs)

pub data LogError {κ} (E : Type κ) : Type κ where
  too_large undecodable no_result : LogError E
  adapter : E → LogError E

pub record LogStore {ℓ μ} (L : Type ℓ) (K : Type μ) : Type (ℓ ⊔ μ) where
  pub log : L
  pub evidence : Option (OpSet K Bytes)

-- `?` on a fallible step of a store.
abbrev pub and_then {ℓ κ μ ν} :
    {S : Type ℓ} {E : Type κ} {A : Type μ} {B : Type ν}
    → S × Result E A
    → (S → A → S × Result E B)
    → S × Result E B
and_then (s, ok a) f = f s a
and_then (s, err e) f = (s, err e)
and_then (s, stuck) f = (s, stuck)

pub record Plan {μ} (K : Type μ) : Type μ where
  pub evidence : OpSet K Bytes
  pub admissions : List Admission
  pub pending : List LogRecord
  pub fence : Bool

abbrev pub is_accepted : Admission → Bool
is_accepted Admission.accepted = true
is_accepted _ = false

abbrev pub is_duplicate : Admission → Bool
is_duplicate Admission.duplicate = true
is_duplicate _ = false

abbrev pub first {κ} : {E : Type κ} → List Admission → Result (LogError E) Admission
first [] = err LogError.no_result
first (admission ∷ rest) = ok admission

-- `u32::try_from(bytes.len()).is_ok_and(|len| len <= MAX_RECORD_BYTES)`
abbrev pub record_fits : Bytes → Bool
record_fits bytes = elim (u32_try_from (length bytes)) [
  | none ↦ false
  | some len ↦ leb len max_record_bytes
]

module _ {κ μ} {E : Type κ} {K : Type μ} (decode_id : Bytes → Option K) where
  unfoldable pub validate_record : Bytes → Result (LogError E) K
  validate_record bytes =
      fail_if (not (record_fits bytes)) LogError.too_large
      >> ok_or (decode_id bytes) LogError.undecodable

  -- The identities of a batch, each beside its record; the first bad record is the error.
  unfoldable pub validate_records : List Bytes → Result (LogError E) (List (K × Bytes))
  validate_records [] = ok []
  validate_records (bytes ∷ rest) = do
    id ← validate_record bytes
    ids ← validate_records rest
    ok ((id, bytes) ∷ ids)

module _ {μ} {K : Type μ} ⦃o : Ord K⦄ ⦃p : Ord Bytes⦄ where
  -- The visitor of `read_evidence`, over the records of a log.
  unfoldable pub replay_from : (Bytes → Option K) → OpSet K Bytes → List LogRecord → OpSet K Bytes
  replay_from decode_id set [] = set
  replay_from decode_id set ((flags, bytes) ∷ rest) = elim (decode_id bytes) [
    | none ↦ replay_from decode_id set rest
    | some id ↦ replay_from decode_id (insert set id bytes).0 rest
  ]

  -- The loop of `append_encoded_batch`.
  unfoldable pub admit : OpSet K Bytes → List (K × Bytes) → Plan K
  admit evidence [] = record { evidence = evidence; admissions = []; pending = []; fence = false }
  admit evidence ((id, bytes) ∷ rest) =
      let (next, admission) = insert evidence id bytes in
      let plan = admit next rest in
      record {
        evidence = plan.evidence;
        admissions = admission ∷ plan.admissions;
        pending = if is_duplicate admission then plan.pending else (0, bytes) ∷ plan.pending;
        fence = not (is_accepted admission) || plan.fence;
      }

module _ {ℓ κ μ} {L : Type ℓ} {E : Type κ} {K : Type μ} ⦃o : Ord K⦄ ⦃p : Ord Bytes⦄
    (decode_id : Bytes → Option K) (api : AppendLog L E) where
  unfoldable pub read_evidence : L → Result E (OpSet K Bytes)
  read_evidence log = api.visit_records log >>= λ records. ok (replay_from decode_id new records)

  -- A step of the adapter while the store has given up its evidence.
  abbrev pub on_log {α} : {A : Type α} → L × Result E A → LogStore L K × Result (LogError E) A
  on_log (log, result) = (record { log = log; evidence = none }, map_err LogError.adapter result)

  abbrev pub fence_log : Bool → L → L × Result E (Unit {0})
  fence_log true log = api.sync log
  fence_log false log = (log, ok tt)

  unfoldable pub commit :
      L → OpSet K Bytes → List (K × Bytes) → LogStore L K × Result (LogError E) (List Admission)
  commit log evidence ids =
      let plan = admit evidence ids in
      and_then (on_log (fence_log plan.fence log)) (λ fenced _.
        and_then (on_log (api.append_records fenced.log plan.pending)) (λ appended _.
          (record { log = appended.log; evidence = some plan.evidence }, ok plan.admissions)))

  -- `append_encoded_batch` for records that are valid, and are not none.
  unfoldable pub append_valid :
      LogStore L K → List (K × Bytes) → LogStore L K × Result (LogError E) (List Admission)
  append_valid store ids = elim store.evidence [
    | some evidence ↦ commit store.log evidence ids
    | none ↦
        and_then (on_log (store.log, read_evidence store.log))
          (λ taken evidence. commit taken.log evidence ids)
  ]

  unfoldable pub append_encoded_batch :
      LogStore L K → List Bytes → LogStore L K × Result (LogError E) (List Admission)
  append_encoded_batch store records =
      and_then (store, validate_records decode_id records)
        (λ valid ids. if is_empty records then (valid, ok []) else append_valid valid ids)

  unfoldable pub append_encoded :
      LogStore L K → Bytes → LogStore L K × Result (LogError E) Admission
  append_encoded store encoded =
      and_then (append_encoded_batch store (encoded ∷ []))
        (λ done admissions. (done, first admissions))
