-- ===== src/Store/Log/Replay.antt =====
-- log.rs: replaying the records that a batch appends gives the evidence that the batch computed.
use editchain.Prelude.{
  ℕ, ◌≡◌, refl, sym, ap, ◌∙◌, Bool, true, false, Bool-cases, ◌||◌, ◌&&◌, ap₂, length, suc, Option,
  none, some, List, [], ◌∷◌, ◌++◌, All, Result, ok, err, stuck, Result-cases, ◌>>=◌, inl, inr,
  arith,
}
use editchain.Order.{Ord}
use editchain.Collections.Map.{Set, find, same, same-eq}
use editchain.Core.Admission.{OpSet, Admission, insert, outcome, variants_of}
use editchain.Core.Admission.Evidence.{is_some, retained, retained-insert, IsOpSet, insert-IsOpSet}
use editchain.Core.Admission.Outcome.{contains-insert}
use editchain.Store.Log.{
  Bytes, LogRecord, LogError, is_duplicate, admit, replay_from, validate_record, validate_records,
}

is_duplicate-eq : (a : Admission) → is_duplicate a ≡ true → a ≡ Admission.duplicate
is_duplicate-eq Admission.accepted h = cc
is_duplicate-eq Admission.duplicate h = refl
is_duplicate-eq Admission.conflict h = cc

module _ {μ} {K : Type μ} (decode_id : Bytes → Option K) where
  -- The identities beside the records are those that decoding gives.
  abbrev pub IsDecoded : List (K × Bytes) → Type μ
  IsDecoded ids = All (λ entry. decode_id (entry.1) ≡ some (entry.0)) ids

or_true : (b : Bool) → b || true ≡ true
or_true true = refl
or_true false = refl

module _ {κ} {B : Type κ} ⦃p : Ord B⦄ where
  outcome-duplicate :
      (v : Set B) (bytes : B)
      → is_duplicate (outcome v bytes) ≡ true
      → is_some (find v bytes) ≡ true
  unfolding outcome
  outcome-duplicate v bytes h = ground (arith, h)

module _ {μ} {K : Type μ} ⦃o : Ord K⦄ ⦃p : Ord Bytes⦄ (decode_id : Bytes → Option K) where
  pub replay_from-append :
      (set : OpSet K Bytes) (xs ys : List LogRecord)
      → replay_from decode_id set (xs ++ ys)
        ≡ replay_from decode_id (replay_from decode_id set xs) ys
  unfolding replay_from
  replay_from-append set [] ys = refl
  replay_from-append set ((flags, bytes) ∷ rest) ys =
      elim (decode_id bytes)
        as (λ t.
          (elim t [
            | none ↦ replay_from decode_id set (rest ++ ys)
            | some id ↦ replay_from decode_id (insert set id bytes).0 (rest ++ ys)
          ])
          ≡ replay_from decode_id
              (elim t [
                | none ↦ replay_from decode_id set rest
                | some id ↦ replay_from decode_id (insert set id bytes).0 rest
              ])
              ys) [
                | none ↦ replay_from-append set rest ys
                | some id ↦ replay_from-append (insert set id bytes).0 rest ys
              ]

  pub replay_from-IsOpSet :
      (set : OpSet K Bytes) (xs : List LogRecord)
      → IsOpSet set
      → IsOpSet (replay_from decode_id set xs)
  unfolding replay_from
  replay_from-IsOpSet set [] h = h
  replay_from-IsOpSet set ((flags, bytes) ∷ rest) h =
      elim (decode_id bytes)
        as (λ t. IsOpSet (elim t [
          | none ↦ replay_from decode_id set rest
          | some id ↦ replay_from decode_id (insert set id bytes).0 rest
        ])) [
          | none ↦ replay_from-IsOpSet set rest h
          | some id ↦
              replay_from-IsOpSet (insert set id bytes).0 rest (insert-IsOpSet set id bytes h)
        ]

  pub replay_nothing : (set : OpSet K Bytes) → replay_from decode_id set [] ≡ set
  unfolding replay_from
  replay_nothing set = refl

  pub replay_from-some :
      (set : OpSet K Bytes) (flags : ℕ) (bytes : Bytes) (rest : List LogRecord) (id : K)
      → decode_id bytes ≡ some id
      → replay_from decode_id set ((flags, bytes) ∷ rest)
        ≡ replay_from decode_id (insert set id bytes).0 rest
  unfolding replay_from
  replay_from-some set flags bytes rest id e = rw (e, replay_from)

  pub insert-duplicate :
      (set : OpSet K Bytes) (id : K) (bytes : Bytes)
      → IsOpSet set
      → is_duplicate (insert set id bytes).1 ≡ true
      → (insert set id bytes).0 ≡ set
  unfolding insert
  insert-duplicate set id bytes h e =
      (contains-insert set id bytes id h).0 (outcome-duplicate (variants_of set id) bytes e)

  -- The records that a batch leaves for the log, replayed, give the evidence that it ends with.
  pub replay_from-admit :
      (set : OpSet K Bytes) (ids : List (K × Bytes))
      → IsOpSet set
      → IsDecoded decode_id ids
      → replay_from decode_id set (admit set ids).pending ≡ (admit set ids).evidence
  unfolding admit
  replay_from-admit set [] h d = replay_nothing set
  replay_from-admit set ((id, bytes) ∷ rest) h d =
      let next = (insert set id bytes).0 in
      let ih = replay_from-admit next rest (insert-IsOpSet set id bytes h) d.1 in
      elim (Bool-cases (is_duplicate (insert set id bytes).1)) [
        | inl e ↦ rw e (
            ap (λ s. replay_from decode_id s (admit next rest).pending)
              (sym (insert-duplicate set id bytes h e))
            ∙ ih)
        | inr e ↦ rw e (replay_from-some set 0 bytes (admit next rest).pending id d.0 ∙ ih)
      ]

module _ {μ} {K : Type μ} ⦃o : Ord K⦄ ⦃p : Ord Bytes⦄ where
  admit-kept :
      (set : OpSet K Bytes) (ids : List (K × Bytes)) (id : K) (bytes : Bytes)
      → retained set id bytes ≡ true
      → retained (admit set ids).evidence id bytes ≡ true
  unfolding admit
  admit-kept set [] id bytes h = h
  admit-kept set ((i, b) ∷ rest) id bytes h = admit-kept (insert set i b).0 rest id bytes (
      retained-insert set i b id bytes
      ∙ ap (λ r. (same id i && same bytes b) || r) h
      ∙ or_true (same id i && same bytes b))

  -- Every record of a batch is retained in the evidence that the batch ends with, duplicates and conflicts included,
  -- and there is one admission for each.
  pub admit-retained :
      (set : OpSet K Bytes) (ids : List (K × Bytes))
      → All (λ entry. retained (admit set ids).evidence (entry.0) (entry.1) ≡ true) ids
        × (length (admit set ids).admissions ≡ length ids)
  unfolding admit
  admit-retained set [] = (tt, refl)
  admit-retained set ((i, b) ∷ rest) =
      let (later, count) = admit-retained (insert set i b).0 rest in
      (
        (
          admit-kept (insert set i b).0 rest i b (
              retained-insert set i b i b
              ∙ ap₂ (λ x y. (x && y) || retained set i b) (same-eq i i (o.cmp_refl i))
                  (same-eq b b (p.cmp_refl b))),
          later,
        ),
        ap suc count,
      )

module _ {κ μ} {E : Type κ} {K : Type μ} (decode_id : Bytes → Option K) where
  validate_record-decode_id :
      (bytes : Bytes) (id : K)
      → validate_record {E = E} decode_id bytes ≡ ok id
      → decode_id bytes ≡ some id
  unfolding validate_record
  validate_record-decode_id bytes id h = ground (arith, h)

  validate_records-step :
      (bytes : Bytes) (rest : List Bytes) (r : Result (LogError E) K)
      (rs : Result (LogError E) (List (K × Bytes)))
      → validate_record decode_id bytes ≡ r
      → validate_records decode_id rest ≡ rs
      → validate_records decode_id (bytes ∷ rest)
        ≡ (r >>= λ id. rs >>= λ ids. ok ((id, bytes) ∷ ids))
  unfolding validate_records
  validate_records-step bytes rest r rs e f =
      ap (λ x. x >>= λ id. validate_records decode_id rest >>= λ ids. ok ((id, bytes) ∷ ids)) e
      ∙ ap (λ y. r >>= λ id. y >>= λ ids. ok ((id, bytes) ∷ ids)) f

  -- The identities that validation returns are those that decoding gives.
  pub validate_records-IsDecoded :
      (records : List Bytes) (ids : List (K × Bytes))
      → validate_records {E = E} decode_id records ≡ ok ids
      → IsDecoded decode_id ids
  unfolding validate_records
  validate_records-IsDecoded [] ids h =
      let e : [] ≡ ids = cc in coe 0 1 (i. IsDecoded decode_id (e i)) tt
  validate_records-IsDecoded (bytes ∷ rest) ids h =
      elim (Result-cases (validate_record {E = E} decode_id bytes)) [
        | inl (id, e) ↦ elim (Result-cases (validate_records {E = E} decode_id rest)) [
          | inl (ids', f) ↦
              let g : ok ((id, bytes) ∷ ids') ≡ ok ids =
                sym (validate_records-step bytes rest (ok id) (ok ids') e f) ∙ h in
              let k : ((id, bytes) ∷ ids') ≡ ids = cc in
              coe 0 1 (i. IsDecoded decode_id (k i))
                (validate_record-decode_id bytes id e, validate_records-IsDecoded rest ids' f)
          | inr (inl (x, f)) ↦
              let g : err x ≡ ok ids =
                sym (validate_records-step bytes rest (ok id) (err x) e f) ∙ h in
              cc
          | inr (inr f) ↦
              let g : stuck ≡ ok ids =
                sym (validate_records-step bytes rest (ok id) stuck e f) ∙ h in
              cc
        ]
        | inr (inl (x, e)) ↦
            let g : err x ≡ ok ids =
              sym
                (validate_records-step bytes rest (err x) (validate_records decode_id rest) e refl)
              ∙ h in
            cc
        | inr (inr e) ↦
            let g : stuck ≡ ok ids =
              sym (validate_records-step bytes rest stuck (validate_records decode_id rest) e refl)
              ∙ h in
            cc
      ]
