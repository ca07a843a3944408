-- ===== src/Store/Log/Growth.antt =====
-- log.rs: a batch as the log alone tells it, by exact bytes and decoded identities: which of its records the log gains,
-- and what is reported of each.
pub mod Known
pub mod Admitting
use editchain.Prelude.{
  ◌≡◌, refl, sym, ap, ap₂, ◌∙◌, Bool, true, false, Bool-cases, not, ◌||◌, ◌&&◌, ◌==◌, Option, none,
  some, Option-cases, List, [], ◌∷◌, ◌++◌, length, inl, inr, if◌then◌else◌, arith,
}
use editchain.Order.{Ord, cmp}
use editchain.Collections.Map.{Set, find, put, same, same-eq, same→eq}
use editchain.Core.Admission.{OpSet, Admission, new, insert, variants_of}
use editchain.Core.Admission.Evidence.{retained, retained-insert, variants_of-insert, IsOpSet}
use editchain.Core.Admission.Outcome.{contains-insert, outcome-known, outcome-unknown}
use editchain.Store.Log.{Bytes, LogRecord, is_duplicate, admit, replay_from}
use editchain.Store.Log.Replay.{
  IsDecoded, replay_from-append, replay_nothing, replay_from-some, replay_from-IsOpSet,
}

-- Whether a log has a record with exactly these bytes.
unfoldable pub logged : ⦃p : Ord Bytes⦄ → List LogRecord → Bytes → Bool
logged [] bytes = false
logged ((flags, b) ∷ rest) bytes = same bytes b || logged rest bytes

module _ {μ} {K : Type μ} ⦃o : Ord K⦄ where
  -- Whether a log has a record of an identity.
  unfoldable pub known : (Bytes → Option K) → List LogRecord → K → Bool
  known decode_id [] id = false
  known decode_id ((flags, b) ∷ rest) id = elim (decode_id b) [
    | none ↦ known decode_id rest id
    | some i ↦ same id i || known decode_id rest id
  ]

module _ {μ} {K : Type μ} ⦃o : Ord K⦄ ⦃p : Ord Bytes⦄ where
  -- What is to be reported of a record that comes to a log.
  abbrev pub verdict : (Bytes → Option K) → List LogRecord → K → Bytes → Admission
  verdict decode_id xs id bytes =
      if logged xs bytes
      then Admission.duplicate
      else if known decode_id xs id
      then Admission.conflict
      else Admission.accepted

  -- The records of a batch that are neither in the log nor before them in the batch, in its order.
  unfoldable pub growth : List LogRecord → List (K × Bytes) → List LogRecord
  growth xs [] = []
  growth xs ((id, bytes) ∷ rest) = elim (logged xs bytes) [
    | true ↦ growth xs rest
    | false ↦ (0, bytes) ∷ growth (xs ++ ((0, bytes) ∷ [])) rest
  ]

  -- The reports for a batch, each in view of the log with what the batch has brought before it.
  unfoldable pub verdicts : (Bytes → Option K) → List LogRecord → List (K × Bytes) → List Admission
  verdicts decode_id xs [] = []
  verdicts decode_id xs ((id, bytes) ∷ rest) =
      verdict decode_id xs id bytes ∷ elim (logged xs bytes) [
        | true ↦ verdicts decode_id xs rest
        | false ↦ verdicts decode_id (xs ++ ((0, bytes) ∷ [])) rest
      ]

module _ {μ} {K : Type μ} ⦃o : Ord K⦄ ⦃p : Ord Bytes⦄ (decode_id : Bytes → Option K)
    (xs : List LogRecord) (id : K) (bytes : Bytes) (rest : List (K × Bytes)) where
  pub growth-logged : logged xs bytes ≡ true → growth xs ((id, bytes) ∷ rest) ≡ growth xs rest
  unfolding growth
  growth-logged e = rw (e, growth) refl

  pub growth_new :
      logged xs bytes ≡ false
      → growth xs ((id, bytes) ∷ rest) ≡ (0, bytes) ∷ growth (xs ++ ((0, bytes) ∷ [])) rest
  unfolding growth
  growth_new e = rw (e, growth) refl

  pub verdicts-logged :
      logged xs bytes ≡ true
      → verdicts decode_id xs ((id, bytes) ∷ rest)
        ≡ verdict decode_id xs id bytes ∷ verdicts decode_id xs rest
  unfolding verdicts
  verdicts-logged e = rw (e, verdicts) refl

  pub verdicts_new :
      logged xs bytes ≡ false
      → verdicts decode_id xs ((id, bytes) ∷ rest)
        ≡ verdict decode_id xs id bytes ∷ verdicts decode_id (xs ++ ((0, bytes) ∷ [])) rest
  unfolding verdicts
  verdicts_new e = rw (e, verdicts) refl
