-- ===== src/Store/Log/Batch.antt =====
-- log.rs: a batch keeps the cached evidence equal to what a replay of the log would give, on every path.
use editchain.Prelude.{
  ◌≡◌, refl, sym, ap, ◌∙◌, true, false, Option, none, some, List, [], ◌++◌, Result, ok, err, stuck,
  Result-cases, is_empty, ◌>>=◌, inl, inr, if◌then◌else◌,
}
use editchain.Order.{Ord}
use editchain.Core.Admission.{OpSet, Admission, new}
use editchain.Store.Log.{
  Bytes, LogRecord, AppendLog, LogError, LogStore, and_then, replay_from, read_evidence, on_log,
  commit, append_valid, append_encoded_batch, validate_records,
}
use editchain.Store.Log.Commit.{IsCurrent, no_evidence, commit_lem, IsWilling, commit-ok}
use editchain.Store.Log.Growth.{growth, verdicts}
use editchain.Store.Log.Growth.Admitting.{admit-growth}
use editchain.Store.Log.Replay.{IsDecoded, validate_records-IsDecoded}

module _ {ℓ κ μ} {L : Type ℓ} {E : Type κ} {K : Type μ} ⦃o : Ord K⦄ ⦃p : Ord Bytes⦄
    (decode_id : Bytes → Option K) (api : AppendLog L E) where
  -- What a call of `append_encoded_batch` with the records of `ids` is to have done when it returns admissions, to a
  -- log of records `xs`.
  abbrev pub IsGrown :
      List LogRecord → List (K × Bytes) → LogStore L K → List Admission → Type (κ ⊔ μ)
  IsGrown xs ids store admissions =
      (admissions ≡ verdicts decode_id xs ids)
      × (api.visit_records store.log ≡ ok (xs ++ growth xs ids))
      × (store.evidence ≡ some (replay_from decode_id new (xs ++ growth xs ids)))

  abbrev pub IsBatch :
      LogStore L K
      → List (K × Bytes)
      → LogStore L K × Result (LogError E) (List Admission)
      → Type (ℓ ⊔ κ ⊔ μ)
  IsBatch store ids done =
      IsCurrent decode_id api done.0
      × ((admissions : List Admission)
          → done.1 ≡ ok admissions
          → (xs : List LogRecord) × (api.visit_records store.log ≡ ok xs)
            × IsGrown xs ids done.0 admissions)
      × ((xs : List LogRecord)
          → api.visit_records store.log ≡ ok xs
          → IsWilling decode_id api
          → done.1 ≡ ok (verdicts decode_id xs ids))

  commit-IsBatch :
      (store : LogStore L K) (evidence : OpSet K Bytes) (ids : List (K × Bytes))
      (xs : List LogRecord)
      → api.visit_records store.log ≡ ok xs
      → evidence ≡ replay_from decode_id new xs
      → IsDecoded decode_id ids
      → IsBatch store ids (commit decode_id api store.log evidence ids)
  commit-IsBatch store evidence ids xs visit replayed d =
      let (current, done) = commit_lem decode_id api store.log evidence ids xs visit replayed d in
      let (reports, gained) = admit-growth decode_id evidence xs ids replayed d in
      (
        current,
        λ admissions h.
            let (same, visited, kept) = done admissions h in
            (
              xs,
              visit,
              (
                same ∙ reports,
                visited ∙ ap (λ rs. ok (xs ++ rs)) gained,
                kept ∙ ap (λ rs. some (replay_from decode_id new (xs ++ rs))) gained,
              ),
            ),
        λ ys visit_ys willing.
            let same : xs ≡ ys = let e : ok xs ≡ ok ys = sym visit ∙ visit_ys in cc in
            commit-ok decode_id api store.log evidence ids willing
            ∙ ap ok reports
            ∙ ap (λ zs. ok (verdicts decode_id zs ids)) same,
      )

  read-IsBatch :
      (store : LogStore L K) (ids : List (K × Bytes)) (r : Result E (List LogRecord))
      → api.visit_records store.log ≡ r
      → IsDecoded decode_id ids
      → IsBatch store ids (
          and_then
            (on_log decode_id api
              (store.log, r >>= λ records. ok (replay_from decode_id new records)))
            (λ taken evidence. commit decode_id api taken.log evidence ids))
  read-IsBatch store ids (ok xs) e d =
      commit-IsBatch store (replay_from decode_id new xs) ids xs e refl d
  read-IsBatch store ids (err e) h d =
      (no_evidence decode_id api store.log, (λ admissions f. cc), λ ys f willing. cc)
  read-IsBatch store ids stuck h d =
      (no_evidence decode_id api store.log, (λ admissions f. cc), λ ys f willing. cc)

  append_valid-IsBatch :
      (store : LogStore L K) (ids : List (K × Bytes))
      → IsCurrent decode_id api store
      → IsDecoded decode_id ids
      → IsBatch store ids (append_valid decode_id api store ids)
  unfolding append_valid read_evidence
  append_valid-IsBatch store ids current d =
      (elim store.evidence
          as (λ t.
            store.evidence ≡ t
            → IsBatch store ids (elim t [
              | some evidence ↦ commit decode_id api store.log evidence ids
              | none ↦
                  and_then (on_log decode_id api (store.log, read_evidence decode_id api store.log))
                    (λ taken evidence. commit decode_id api taken.log evidence ids)
            ])) [
              | none ↦ λ e. read-IsBatch store ids (api.visit_records store.log) refl d
              | some evidence ↦ λ e.
                  let (xs, visit, replayed) = current evidence e in
                  commit-IsBatch store evidence ids xs visit replayed d
            ])
        refl

  -- `append_encoded_batch`, for a store whose cached evidence is what its log replays to. That stays so on every path,
  -- errors of the log included. A bad record is reported before anything is written. Where admissions are returned for
  -- a batch that is not empty, the log has gained, behind its records and in the order of the batch, those records whose
  -- exact bytes were neither in it nor earlier in the batch. Each of the others is reported as a duplicate; of those
  -- that it gained, one whose identity was in the log or earlier in the batch is reported as a conflict, and any other
  -- as accepted. The evidence kept is what the log now replays to. Where the log can be read and fails no write, such a
  -- batch of good records does return those admissions.
  pub append_encoded_batch_lem :
      (store : LogStore L K) (records : List Bytes)
      → IsCurrent decode_id api store
      → IsCurrent decode_id api (append_encoded_batch decode_id api store records).0
        × ((e : LogError E)
            → validate_records {E = E} decode_id records ≡ err e
            → append_encoded_batch decode_id api store records ≡ (store, err e))
        × ((ids : List (K × Bytes))
            → validate_records {E = E} decode_id records ≡ ok ids
            → is_empty records ≡ false
            → IsBatch store ids (append_encoded_batch decode_id api store records))
  unfolding append_encoded_batch
  append_encoded_batch_lem store records current =
      let batch : Result (LogError E) (List (K × Bytes))
          → LogStore L K × Result (LogError E) (List Admission) =
        λ r.
          and_then (store, r)
            (λ valid ids.
              if is_empty records then (valid, ok []) else append_valid decode_id api valid ids) in
      (
        elim (Result-cases (validate_records {E = E} decode_id records))
            as (λ _.
              IsCurrent decode_id api (batch (validate_records {E = E} decode_id records)).0) [
                | inl (ids, e) ↦
                    coe 1 0 (i. IsCurrent decode_id api (batch (e i)).0)
                      (elim (is_empty records)
                        as (λ b.
                          IsCurrent decode_id api
                            (if b
                              then (store, ok [])
                              else append_valid decode_id api store ids).0) [
                                | true ↦ current
                                | false ↦
                                    (append_valid-IsBatch store ids current
                                      (validate_records-IsDecoded decode_id records ids e)).0
                              ])
                | inr (inl (x, e)) ↦ coe 1 0 (i. IsCurrent decode_id api (batch (e i)).0) current
                | inr (inr e) ↦ coe 1 0 (i. IsCurrent decode_id api (batch (e i)).0) current
              ],
        (λ x e. ap batch e),
        λ ids e full. coe 1 0 (i. IsBatch store ids (batch (e i))) (
            coe 1 0
              (i.
                IsBatch store ids
                  (if full i then (store, ok []) else append_valid decode_id api store ids))
              (append_valid-IsBatch store ids current
                (validate_records-IsDecoded decode_id records ids e))),
      )
