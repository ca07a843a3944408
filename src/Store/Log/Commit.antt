-- ===== src/Store/Log/Commit.antt =====
-- log.rs: the part of a batch that writes, on every outcome of the log.
use editchain.Prelude.{
  ◌≡◌, refl, sym, ap, ◌∙◌, Bool, true, false, Option, none, some, List, ◌++◌, Result, ok, err,
  stuck, map_err,
}
use editchain.Order.{Ord}
use editchain.Core.Admission.{OpSet, Admission, new}
use editchain.Core.Admission.Evidence.{IsOpSet}
use editchain.Store.Log.{
  Bytes, LogRecord, AppendLog, LogError, LogStore, Plan, and_then, admit, replay_from, on_log,
  fence_log, commit,
}
use editchain.Store.Log.Replay.{
  IsDecoded, replay_from-append, replay_from-IsOpSet, replay_from-admit,
}

module _ {ℓ κ μ ν} {L : Type ℓ} {E : Type κ} {K : Type μ} {A : Type 0} {B : Type 0}
    (P : LogStore L K × Result (LogError E) B → Type ν) where
  -- A step of the adapter, by its outcomes.
  on_log-cases :
      (x : L × Result E A) (f : LogStore L K → A → LogStore L K × Result (LogError E) B)
      → ((a : A) → x.1 ≡ ok a → P (f (record { log = x.0; evidence = none }) a))
      → ((e : E) → P (record { log = x.0; evidence = none }, err (LogError.adapter e)))
      → P (record { log = x.0; evidence = none }, stuck)
      → P (and_then (record { log = x.0; evidence = none }, map_err LogError.adapter x.1) f)
  on_log-cases (l, ok a) f good bad lost = good a refl
  on_log-cases (l, err e) f good bad lost = bad e
  on_log-cases (l, stuck) f good bad lost = lost

module _ {ℓ κ μ} {L : Type ℓ} {E : Type κ} {K : Type μ} ⦃o : Ord K⦄ ⦃p : Ord Bytes⦄
    (decode_id : Bytes → Option K) (api : AppendLog L E) where
  -- The cached evidence, where there is any, is what replaying the log gives.
  abbrev pub IsCurrent : LogStore L K → Type (κ ⊔ μ)
  IsCurrent store =
      (evidence : OpSet K Bytes)
      → store.evidence ≡ some evidence
      → (xs : List LogRecord) × (api.visit_records store.log ≡ ok xs)
        × (evidence ≡ replay_from decode_id new xs)

  -- What a call is to have done when it returns admissions, to a log of records `xs`.
  abbrev pub IsCommitted : List LogRecord → Plan K → LogStore L K → List Admission → Type (κ ⊔ μ)
  IsCommitted xs plan store admissions =
      (admissions ≡ plan.admissions)
      × (api.visit_records store.log ≡ ok (xs ++ plan.pending))
      × (store.evidence ≡ some (replay_from decode_id new (xs ++ plan.pending)))

  abbrev pub IsCommit :
      List LogRecord → Plan K → LogStore L K × Result (LogError E) (List Admission) → Type (κ ⊔ μ)
  IsCommit xs plan done =
      IsCurrent done.0
      × ((admissions : List Admission)
          → done.1 ≡ ok admissions
          → IsCommitted xs plan done.0 admissions)

  pub no_evidence : (log : L) → IsCurrent (record { log = log; evidence = none })
  no_evidence log evidence e = cc

  failed :
      (xs : List LogRecord) (plan : Plan K) (log : L) (e : LogError E)
      → IsCommit xs plan (record { log = log; evidence = none }, err e)
  failed xs plan log e = (no_evidence log, λ admissions h. cc)

  lost :
      (xs : List LogRecord) (plan : Plan K) (log : L)
      → IsCommit xs plan (record { log = log; evidence = none }, stuck)
  lost xs plan log = (no_evidence log, λ admissions h. cc)

  visit-fence_log :
      (b : Bool) (log : L)
      → api.visit_records (fence_log decode_id api b log).0 ≡ api.visit_records log
  visit-fence_log true log = api.visit-sync log
  visit-fence_log false log = refl

  committed :
      (xs : List LogRecord) (plan : Plan K) (log : L)
      → api.visit_records log ≡ ok (xs ++ plan.pending)
      → plan.evidence ≡ replay_from decode_id new (xs ++ plan.pending)
      → IsCommit xs plan (record { log = log; evidence = some plan.evidence }, ok plan.admissions)
  committed xs plan log visited current = (
    (λ evidence e.
        let f : plan.evidence ≡ evidence = cc in (xs ++ plan.pending, visited, sym f ∙ current)),
    (λ admissions h.
        let f : plan.admissions ≡ admissions = cc in (sym f, visited, ap some current)),
  )

  pub commit_lem :
      (log : L) (evidence : OpSet K Bytes) (ids : List (K × Bytes)) (xs : List LogRecord)
      → api.visit_records log ≡ ok xs
      → evidence ≡ replay_from decode_id new xs
      → IsDecoded decode_id ids
      → IsCommit xs (admit evidence ids) (commit decode_id api log evidence ids)
  unfolding commit
  commit_lem log evidence ids xs visit replayed d =
      let plan = admit evidence ids in
      let fenced = fence_log decode_id api plan.fence log in
      let appended = api.append_records fenced.0 plan.pending in
      let wf = coe 1 0 (i. IsOpSet (replayed i)) (replay_from-IsOpSet decode_id new xs (tt, tt)) in
      let current = sym (
        replay_from-append decode_id new xs plan.pending
        ∙ ap (λ s. replay_from decode_id s plan.pending) (sym replayed)
        ∙ replay_from-admit decode_id evidence ids wf d) in
      on_log-cases (IsCommit xs plan) fenced
        (λ fenced _.
          and_then (on_log decode_id api (api.append_records fenced.log plan.pending))
            (λ appended _.
              (record { log = appended.log; evidence = some plan.evidence }, ok plan.admissions)))
        (λ u _.
          on_log-cases (IsCommit xs plan) appended
            (λ appended _.
              (record { log = appended.log; evidence = some plan.evidence }, ok plan.admissions))
            (λ u e.
              committed xs plan appended.0
                (api.visit-append fenced.0 plan.pending xs e
                  (visit-fence_log plan.fence log ∙ visit))
                current)
            (λ e. failed xs plan appended.0 (LogError.adapter e)) (lost xs plan appended.0))
        (λ e. failed xs plan fenced.0 (LogError.adapter e)) (lost xs plan fenced.0)

  -- A log that fails no write.
  abbrev pub IsWilling : Type (ℓ ⊔ κ)
  IsWilling =
      ((log : L) → (api.sync log).1 ≡ ok tt)
      × ((log : L) (records : List LogRecord) → (api.append_records log records).1 ≡ ok tt)

  fence_log-ok : (b : Bool) (log : L) → IsWilling → (fence_log decode_id api b log).1 ≡ ok tt
  fence_log-ok true log willing = willing.0 log
  fence_log-ok false log willing = refl

  pub commit-ok :
      (log : L) (evidence : OpSet K Bytes) (ids : List (K × Bytes))
      → IsWilling
      → (commit decode_id api log evidence ids).1 ≡ ok (admit evidence ids).admissions
  unfolding commit
  commit-ok log evidence ids willing =
      let plan = admit evidence ids in
      let fenced = fence_log decode_id api plan.fence log in
      let appended = api.append_records fenced.0 plan.pending in
      let store : LogStore L K → Unit {0} → LogStore L K × Result (LogError E) (List Admission) =
        λ appended _.
          (record { log = appended.log; evidence = some plan.evidence }, ok plan.admissions) in
      let write : LogStore L K → Unit {0} → LogStore L K × Result (LogError E) (List Admission) =
        λ fenced _.
          and_then (on_log decode_id api (api.append_records fenced.log plan.pending)) store in
      ap (λ r. (and_then (on_log decode_id api (fenced.0, r)) write).1)
        (fence_log-ok plan.fence log willing)
      ∙ ap (λ r. (and_then (on_log decode_id api (appended.0, r)) store).1)
          (willing.1 fenced.0 plan.pending)
