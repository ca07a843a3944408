-- ===== src/IndexPages/Rank/Select.antt =====
-- rank.rs: `select` against a walk over the list of entries.
use editchain.Prelude.{
  ℕ, ◌≤◌, ◌≡◌, refl, sym, ap, ◌∙◌, Option, none, some, List, [], ◌∷◌, ◌++◌, ltb, ltb_cases,
  ltb-true, ltb-false, inl, inr, ◌<◌, if◌then◌else◌, arith,
}
use editchain.IndexPages.Sorted.{Entry}
use editchain.IndexPages.Rank.{
  Measure, Axis, along, no_measure, plus, Link, empty, node, measure, select_from, select,
}
use editchain.IndexPages.Rank.Contents.{to_list, to_list-node}
use editchain.IndexPages.Rank.Sums.{
  IsMeasure, plus_assoc, plus-no_measure, total, IsSummed, measure_lem, plus-IsMeasure,
}

along_mono :
    (a b : Measure) (axis : Axis) (offset : ℕ)
    → IsMeasure a
    → along (plus a b) axis ≤ offset
    → along a axis ≤ offset
along_mono a b Axis.expanded offset fits h = omega arith
along_mono a b Axis.visible offset fits h = omega arith

no_measure-low : (offset : ℕ) (axis : Axis) → along no_measure axis ≤ offset
no_measure-low offset Axis.expanded = omega arith
no_measure-low offset Axis.visible = omega arith

module _ {ℓ κ} {K : Type ℓ} {V : Type κ} where
  -- The walk over the entries that `select` stands for: the first entry that reaches beyond the offset.
  pub scan : List (Entry K V Measure) → Measure → ℕ → Axis → Option (K × V × Measure)
  scan [] sum offset axis = none
  scan ((k, v, w) ∷ rest) sum offset axis =
      let later = scan rest (plus sum w) offset axis in
      if ltb offset (along (plus sum w) axis) then some (k, v, sum) else later

  scan-here :
      (k : K) (v : V) (w : Measure) (rest : List (Entry K V Measure)) (sum : Measure) (offset : ℕ)
      (axis : Axis)
      → offset < along (plus sum w) axis
      → scan ((k, v, w) ∷ rest) sum offset axis ≡ some (k, v, sum)
  unfolding scan
  scan-here k v w rest sum offset axis h = rw (ltb-true offset (along (plus sum w) axis) h, scan)

  scan-later :
      (k : K) (v : V) (w : Measure) (rest : List (Entry K V Measure)) (sum : Measure) (offset : ℕ)
      (axis : Axis)
      → along (plus sum w) axis ≤ offset
      → scan ((k, v, w) ∷ rest) sum offset axis ≡ scan rest (plus sum w) offset axis
  unfolding scan
  scan-later k v w rest sum offset axis h = rw (ltb-false offset (along (plus sum w) axis) h, scan)

  -- What lies within a prefix of the entries is found there.
  scan-within :
      (xs ys : List (Entry K V Measure)) (sum : Measure) (offset : ℕ) (axis : Axis)
      → IsMeasure sum
      → along sum axis ≤ offset
      → offset < along (plus sum (total xs)) axis
      → scan (xs ++ ys) sum offset axis ≡ scan xs sum offset axis
  unfolding total
  scan-within [] ys sum offset axis fits low high =
      let high' : offset < along sum axis =
        coe 0 1 (i. offset < along (plus-no_measure sum fits i) axis) high in
      absurd (omega arith)
  scan-within ((k, v, w) ∷ xs) ys sum offset axis fits low high =
      elim (ltb_cases offset (along (plus sum w) axis)) [
        | inl h ↦
            scan-here k v w (xs ++ ys) sum offset axis h
            ∙ sym (scan-here k v w xs sum offset axis h)
        | inr h ↦
            scan-later k v w (xs ++ ys) sum offset axis h
            ∙ scan-within xs ys (plus sum w) offset axis (plus-IsMeasure sum w) h
                (coe 1 0 (i. offset < along (plus_assoc sum w (total xs) i) axis) high)
            ∙ sym (scan-later k v w xs sum offset axis h)
      ]

  -- What a prefix of the entries does not cover is looked for in the rest.
  scan-past :
      (xs ys : List (Entry K V Measure)) (sum : Measure) (offset : ℕ) (axis : Axis)
      → IsMeasure sum
      → along (plus sum (total xs)) axis ≤ offset
      → scan (xs ++ ys) sum offset axis ≡ scan ys (plus sum (total xs)) offset axis
  unfolding total
  scan-past [] ys sum offset axis fits high =
      ap (λ m. scan ys m offset axis) (sym (plus-no_measure sum fits))
  scan-past ((k, v, w) ∷ xs) ys sum offset axis fits high =
      let high' = coe 1 0 (i. along (plus_assoc sum w (total xs) i) axis ≤ offset) high in
      scan-later k v w (xs ++ ys) sum offset axis
        (along_mono (plus sum w) (total xs) axis offset (plus-IsMeasure sum w) high')
      ∙ scan-past xs ys (plus sum w) offset axis (plus-IsMeasure sum w) high'
      ∙ ap (λ m. scan ys m offset axis) (plus_assoc sum w (total xs))

  select_from-left :
      (k : K) (v : V) (w s : Measure) (h : ℕ) (l r : Link K V) (sum : Measure) (offset : ℕ)
      (axis : Axis)
      → offset < along (plus sum (measure l)) axis
      → select_from (node k v w s h l r) sum offset axis ≡ select_from l sum offset axis
  unfolding select_from
  select_from-left k v w s h l r sum offset axis e =
      rw (ltb-true offset (along (plus sum (measure l)) axis) e, select_from)

  select_from-here :
      (k : K) (v : V) (w s : Measure) (h : ℕ) (l r : Link K V) (sum : Measure) (offset : ℕ)
      (axis : Axis)
      → along (plus sum (measure l)) axis ≤ offset
      → offset < along (plus (plus sum (measure l)) w) axis
      → select_from (node k v w s h l r) sum offset axis ≡ some (k, v, plus sum (measure l))
  unfolding select_from
  select_from-here k v w s h l r sum offset axis e f = rw (
    ltb-false offset (along (plus sum (measure l)) axis) e,
    ltb-true offset (along (plus (plus sum (measure l)) w) axis) f,
    select_from,
  )

  select_from-right :
      (k : K) (v : V) (w s : Measure) (h : ℕ) (l r : Link K V) (sum : Measure) (offset : ℕ)
      (axis : Axis)
      → along (plus sum (measure l)) axis ≤ offset
      → along (plus (plus sum (measure l)) w) axis ≤ offset
      → select_from (node k v w s h l r) sum offset axis
        ≡ select_from r (plus (plus sum (measure l)) w) offset axis
  unfolding select_from
  select_from-right k v w s h l r sum offset axis e f = rw (
    ltb-false offset (along (plus sum (measure l)) axis) e,
    ltb-false offset (along (plus (plus sum (measure l)) w) axis) f,
    select_from,
  )

  -- The walk over the entries of a node whose left subtree does not cover the offset.
  scan-node :
      (k : K) (v : V) (w s : Measure) (h : ℕ) (l r : Link K V) (sum : Measure) (offset : ℕ)
      (axis : Axis)
      → IsMeasure sum
      → IsSummed l
      → along (plus sum (measure l)) axis ≤ offset
      → scan (to_list (node k v w s h l r)) sum offset axis
        ≡ scan ((k, v, w) ∷ to_list r) (plus sum (measure l)) offset axis
  scan-node k v w s h l r sum offset axis fits hl e =
      ap (λ xs. scan xs sum offset axis) (to_list-node k v w s h l r)
      ∙ scan-past (to_list l) ((k, v, w) ∷ to_list r) sum offset axis fits
          (coe 0 1 (i. along (plus sum (measure_lem l hl i)) axis ≤ offset) e)
      ∙ ap (λ m. scan ((k, v, w) ∷ to_list r) (plus sum m) offset axis) (sym (measure_lem l hl))

  select_from_lem :
      (t : Link K V) (sum : Measure) (offset : ℕ) (axis : Axis)
      → IsMeasure sum
      → IsSummed t
      → along sum axis ≤ offset
      → select_from t sum offset axis ≡ scan (to_list t) sum offset axis
  unfolding select_from scan to_list
  select_from_lem empty sum offset axis fits hs low = refl
  select_from_lem (node k v w s h l r) sum offset axis fits (fits', sums, hl, hr) low =
      elim (ltb_cases offset (along (plus sum (measure l)) axis)) [
        | inl e ↦
            select_from-left k v w s h l r sum offset axis e
            ∙ select_from_lem l sum offset axis fits hl low
            ∙ sym (
                scan-within (to_list l) ((k, v, w) ∷ to_list r) sum offset axis fits low
                  (coe 0 1 (i. offset < along (plus sum (measure_lem l hl i)) axis) e))
        | inr e ↦ elim (ltb_cases offset (along (plus (plus sum (measure l)) w) axis)) [
          | inl f ↦
              select_from-here k v w s h l r sum offset axis e f
              ∙ sym (
                  scan-node k v w s h l r sum offset axis fits hl e
                  ∙ scan-here k v w (to_list r) (plus sum (measure l)) offset axis f)
          | inr f ↦
              select_from-right k v w s h l r sum offset axis e f
              ∙ select_from_lem r (plus (plus sum (measure l)) w) offset axis
                  (plus-IsMeasure (plus sum (measure l)) w) hr f
              ∙ sym (
                  scan-node k v w s h l r sum offset axis fits hl e
                  ∙ scan-later k v w (to_list r) (plus sum (measure l)) offset axis f)
        ]
      ]

  -- `select` finds the entry a walk over all the entries finds, with the sum of the weights before it in both spaces,
  -- in a tree whose stored sums are right.
  pub select_lem :
      (t : Link K V) (offset : ℕ) (axis : Axis)
      → IsSummed t
      → select t offset axis ≡ scan (to_list t) no_measure offset axis
  unfolding select
  select_lem t offset axis hs =
      select_from_lem t no_measure offset axis (omega arith, omega arith) hs
        (no_measure-low offset axis)
