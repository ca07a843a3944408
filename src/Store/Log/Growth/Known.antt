-- ===== src/Store/Log/Growth/Known.antt =====
-- log.rs: what the evidence that a log replays to has, told by the log: exact bytes and identities.
use editchain.Prelude.{
  ◌≡◌, refl, sym, ap, ◌∙◌, Bool, true, false, Bool-cases, not, ◌||◌, ◌&&◌, ◌==◌, Option, none, some,
  Option-cases, List, [], ◌∷◌, length, inl, inr, if◌then◌else◌, arith,
}
use editchain.Order.{Ord, cmp}
use editchain.Collections.Map.{Set, find, put, same, same-eq, same→eq}
use editchain.Core.Admission.{OpSet, Admission, insert, variants_of}
use editchain.Core.Admission.Evidence.{retained, retained-insert, variants_of-insert}
use editchain.Core.Admission.Outcome.{outcome-known, outcome-unknown}
use editchain.Store.Log.{Bytes, LogRecord, replay_from}
use editchain.Store.Log.Replay.{replay_from-some}
use editchain.Store.Log.Growth.{logged, known}

or_rotate : (a b c d : Bool) → (a ≡ true → d ≡ true) → b || ((d && a) || c) ≡ (a || b) || c
or_rotate true true c d h = refl
or_rotate true false c true h = refl
or_rotate true false c false h = let e : false ≡ true = h refl in cc
or_rotate false true c d h = refl
or_rotate false false c true h = refl
or_rotate false false c false h = refl

or_swap : (a b c : Bool) → b || (a || c) ≡ (a || b) || c
or_swap true true c = refl
or_swap true false c = refl
or_swap false true c = refl
or_swap false false c = refl

module _ {κ} {B : Type κ} ⦃p : Ord B⦄ where
  length-put_nonzero : (v : Set B) (bytes : B) → length (put v bytes tt) == 0 ≡ false
  unfolding put
  length-put_nonzero [] bytes = refl
  length-put_nonzero ((b, u) ∷ rest) bytes = ground arith

module _ {μ} {K : Type μ} ⦃o : Ord K⦄ ⦃p : Ord Bytes⦄ where
  -- Whether a set has a record of an identity.
  abbrev pub occupied : OpSet K Bytes → K → Bool
  occupied set id = not (length (variants_of set id) == 0)

  occupied-insert :
      (set : OpSet K Bytes) (i : K) (b : Bytes) (id : K)
      → occupied (insert set i b).0 id ≡ same id i || occupied set id
  occupied-insert set i b id =
      ap (λ v. not (length v == 0)) (variants_of-insert set i b id)
      ∙ elim (Bool-cases (same id i)) [
        | inl e ↦ rw e (ap not (length-put_nonzero (variants_of set i) b))
        | inr e ↦ rw e refl
      ]

  -- An insertion reports what the set has of the record and its identity.
  pub insert-verdict :
      (set : OpSet K Bytes) (id : K) (bytes : Bytes)
      → (insert set id bytes).1 ≡ (
          if retained set id bytes
          then Admission.duplicate
          else if occupied set id
          then Admission.conflict
          else Admission.accepted)
  unfolding insert
  insert-verdict set id bytes =
      let v = variants_of set id in
      elim (Option-cases (find v bytes)) [
        | inl e ↦ outcome-unknown v bytes e ∙ rw e (if-not (length v == 0))
        | inr (unit, e) ↦ outcome-known v bytes e ∙ rw e refl
      ]
    where
      if-not :
          (b : Bool)
          → (if b then Admission.accepted else Admission.conflict)
            ≡ (if not b then Admission.conflict else Admission.accepted)
      if-not true = refl
      if-not false = refl

module _ {μ} {K : Type μ} ⦃o : Ord K⦄ ⦃p : Ord Bytes⦄ (decode_id : Bytes → Option K) where
  -- What a replay retains of a record is whether its bytes were in the log.
  pub retained-replay_from :
      (set : OpSet K Bytes) (xs : List LogRecord) (id : K) (bytes : Bytes)
      → decode_id bytes ≡ some id
      → retained (replay_from decode_id set xs) id bytes ≡ logged xs bytes || retained set id bytes
  unfolding replay_from logged
  retained-replay_from set [] id bytes h = refl
  retained-replay_from set ((flags, b) ∷ rest) id bytes h = elim (Option-cases (decode_id b)) [
    | inl e ↦ elim (Bool-cases (same bytes b)) [
      | inl f ↦ let g : none ≡ some id = sym e ∙ sym (ap decode_id (same→eq bytes b f)) ∙ h in cc
      | inr f ↦ rw (e, replay_from, f) (retained-replay_from set rest id bytes h)
    ]
    | inr (i, e) ↦ rw (replay_from-some decode_id set flags b rest i e) (
        retained-replay_from (insert set i b).0 rest id bytes h
        ∙ ap (λ r. logged rest bytes || r) (retained-insert set i b id bytes)
        ∙ or_rotate (same bytes b) (logged rest bytes) (retained set id bytes) (same id i) (λ f.
          let g : some i ≡ some id = sym e ∙ sym (ap decode_id (same→eq bytes b f)) ∙ h in
          let k : id ≡ i = cc in same-eq id i (ap (cmp id) (sym k) ∙ o.cmp_refl id)))
  ]

  pub occupied-replay_from :
      (set : OpSet K Bytes) (xs : List LogRecord) (id : K)
      → occupied (replay_from decode_id set xs) id ≡ known decode_id xs id || occupied set id
  unfolding replay_from known
  occupied-replay_from set [] id = refl
  occupied-replay_from set ((flags, b) ∷ rest) id = elim (Option-cases (decode_id b)) [
    | inl e ↦ rw (e, replay_from, known) (occupied-replay_from set rest id)
    | inr (i, e) ↦
        rw (e, replay_from, known)
          (occupied-replay_from (insert set i b).0 rest id
            ∙ ap (λ r. known decode_id rest id || r) (occupied-insert set i b id)
            ∙ or_swap (same id i) (known decode_id rest id) (occupied set id))
  ]
