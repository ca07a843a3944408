-- ===== src/Store/Log/Growth/Admitting.antt =====
-- log.rs: the loop of a batch, on the evidence that a log replays to, does what the log alone tells.
use editchain.Prelude.{
  ◌≡◌, refl, sym, ap, ap₂, ◌∙◌, Bool, true, false, Bool-cases, ◌||◌, Option, some, List, [], ◌∷◌,
  ◌++◌, inl, inr, if◌then◌else◌,
}
use editchain.Order.{Ord}
use editchain.Collections.Map.{find}
use editchain.Core.Admission.{OpSet, Admission, new, insert, variants_of}
use editchain.Core.Admission.Evidence.{retained, IsOpSet}
use editchain.Core.Admission.Outcome.{contains-insert}
use editchain.Store.Log.{Bytes, LogRecord, is_duplicate, admit, replay_from}
use editchain.Store.Log.Replay.{
  IsDecoded, replay_from-append, replay_nothing, replay_from-some, replay_from-IsOpSet,
}
use editchain.Store.Log.Growth.{
  logged, known, verdict, growth, verdicts, growth-logged, growth_new, verdicts-logged,
  verdicts_new,
}
use editchain.Store.Log.Growth.Known.{
  occupied, insert-verdict, retained-replay_from, occupied-replay_from,
}

or_false : (b : Bool) → b || false ≡ b
or_false true = refl
or_false false = refl

not_duplicate :
    (b : Bool) → is_duplicate (if b then Admission.conflict else Admission.accepted) ≡ false
not_duplicate true = refl
not_duplicate false = refl

module _ {μ} {K : Type μ} ⦃o : Ord K⦄ ⦃p : Ord Bytes⦄ (decode_id : Bytes → Option K) where
  retained-logged :
      (set : OpSet K Bytes) (xs : List LogRecord) (id : K) (bytes : Bytes)
      → set ≡ replay_from decode_id new xs
      → decode_id bytes ≡ some id
      → retained set id bytes ≡ logged xs bytes
  unfolding variants_of find
  retained-logged set xs id bytes h d =
      ap (λ s. retained s id bytes) h
      ∙ retained-replay_from decode_id new xs id bytes d
      ∙ or_false (logged xs bytes)

  insert-replay_from :
      (set : OpSet K Bytes) (xs : List LogRecord) (id : K) (bytes : Bytes)
      → set ≡ replay_from decode_id new xs
      → decode_id bytes ≡ some id
      → (insert set id bytes).1 ≡ verdict decode_id xs id bytes
  unfolding variants_of find
  insert-replay_from set xs id bytes h d =
      insert-verdict set id bytes
      ∙ ap₂
          (λ r k.
            if r then Admission.duplicate else if k then Admission.conflict else Admission.accepted)
          (retained-logged set xs id bytes h d)
          (ap (λ s. occupied s id) h
            ∙ occupied-replay_from decode_id new xs id
            ∙ or_false (known decode_id xs id))

  replay_from-grown :
      (set : OpSet K Bytes) (xs : List LogRecord) (id : K) (bytes : Bytes)
      → set ≡ replay_from decode_id new xs
      → decode_id bytes ≡ some id
      → (insert set id bytes).0 ≡ replay_from decode_id new (xs ++ ((0, bytes) ∷ []))
  replay_from-grown set xs id bytes h d =
      ap (λ s. (insert s id bytes).0) h
      ∙ sym (
          replay_from-append decode_id new xs ((0, bytes) ∷ [])
          ∙ replay_from-some decode_id (replay_from decode_id new xs) 0 bytes [] id d
          ∙ replay_nothing decode_id (insert (replay_from decode_id new xs) id bytes).0)

  -- The loop of a batch, on the evidence that a log replays to, does what the log alone tells.
  pub admit-growth :
      (set : OpSet K Bytes) (xs : List LogRecord) (ids : List (K × Bytes))
      → set ≡ replay_from decode_id new xs
      → IsDecoded decode_id ids
      → ((admit set ids).admissions ≡ verdicts decode_id xs ids)
        × ((admit set ids).pending ≡ growth xs ids)
  unfolding admit verdicts growth
  admit-growth set xs [] h d = (refl, refl)
  admit-growth set xs ((id, bytes) ∷ rest) h d =
      let next = (insert set id bytes).0 in
      let told = insert-replay_from set xs id bytes h d.0 in
      let pending : Admission → List LogRecord = λ a.
        if is_duplicate a
        then (admit next rest).pending
        else (0, bytes) ∷ (admit next rest).pending in
      let report : Bool → Admission = λ b.
        if b
        then Admission.duplicate
        else if known decode_id xs id
        then Admission.conflict
        else Admission.accepted in
      elim (Bool-cases (logged xs bytes)) [
        | inl e ↦
            let wf = coe 1 0 (i. IsOpSet (h i)) (replay_from-IsOpSet decode_id new xs (tt, tt)) in
            let same_set =
              (contains-insert set id bytes id wf).0 (retained-logged set xs id bytes h d.0 ∙ e) in
            let (reports, gained) = admit-growth next xs rest (same_set ∙ h) d.1 in
            (
              ap₂ (λ a later. a ∷ later) told reports
                  ∙ sym (verdicts-logged decode_id xs id bytes rest e),
              ap pending (told ∙ ap report e)
                  ∙ gained
                  ∙ sym (growth-logged decode_id xs id bytes rest e),
            )
        | inr e ↦
            let (reports, gained) =
              admit-growth next (xs ++ ((0, bytes) ∷ [])) rest
                (replay_from-grown set xs id bytes h d.0) d.1 in
            let fresh : is_duplicate (insert set id bytes).1 ≡ false =
              ap is_duplicate (told ∙ ap report e) ∙ not_duplicate (known decode_id xs id) in
            (
              ap₂ (λ a later. a ∷ later) told reports
                  ∙ sym (verdicts_new decode_id xs id bytes rest e),
              ap
                    (λ b.
                      if b
                      then (admit next rest).pending
                      else (0, bytes) ∷ (admit next rest).pending)
                    fresh
                  ∙ ap (λ later. (0, bytes) ∷ later) gained
                  ∙ sym (growth_new decode_id xs id bytes rest e),
            )
      ]
