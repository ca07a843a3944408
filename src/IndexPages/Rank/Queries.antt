-- ===== src/IndexPages/Rank/Queries.antt =====
-- rank.rs: `rank` and `prefix` against a walk over the list of entries.
use Prim.Native.Nat.{Ordering}
use editchain.Prelude.{
  ℕ, ◌≡◌, refl, sym, ap, ap₂, ◌∙◌, some, Option_map, List, [], ◌∷◌, ◌++◌, arith, ◌⊎◌, inl, inr,
}
use editchain.Order.{Ord, cmp, Ordering-cases}
use editchain.IndexPages.Sorted.{Entry, lookup, Below, IsSorted, Below-trans, Below-eq}
use editchain.IndexPages.Rank.{
  Measure, no_measure, plus, Link, empty, node, measure, rank_from, rank, prefix_from, prefix, get,
}
use editchain.IndexPages.Rank.Steps.{get-lt, get-gt, get-eq}
use editchain.IndexPages.Rank.Contents.{to_list, to_list-node, IsSorted-node, get_lem}
use editchain.IndexPages.Rank.Sums.{
  IsMeasure, plus_assoc, plus-no_measure, no_measure-plus, total, IsSummed, measure_lem,
  plus-IsMeasure,
}

module _ {ℓ κ} {K : Type ℓ} {V : Type κ} ⦃o : Ord K⦄ where
  -- The weights of the entries before the first one whose key is not below the given one.
  unfoldable pub total_before : List (Entry K V Measure) → K → Measure
  total_before [] key = no_measure
  total_before ((k, v, w) ∷ rest) key = elim (cmp key k) [
    | Ordering.gt ↦ plus w (total_before rest key)
    | _ ↦ no_measure
  ]

  total_before-stop :
      (xs : List (Entry K V Measure)) (k : K) (v : V) (w : Measure) (ys : List (Entry K V Measure))
      (key : K)
      → (cmp key k ≡ Ordering.lt) ⊎ (cmp key k ≡ Ordering.eq)
      → total_before (xs ++ ((k, v, w) ∷ ys)) key ≡ total_before xs key
  unfolding total_before
  total_before-stop [] k v w ys key (inl e) = rw (e, total_before)
  total_before-stop [] k v w ys key (inr e) = rw (e, total_before)
  total_before-stop ((k', v', w') ∷ xs) k v w ys key h =
      ground (arith, total_before-stop xs k v w ys key h)

  total_before-cons :
      (k : K) (v : V) (w : Measure) (ys : List (Entry K V Measure)) (key : K)
      → cmp key k ≡ Ordering.gt
      → total_before ((k, v, w) ∷ ys) key ≡ plus w (total_before ys key)
  unfolding total_before
  total_before-cons k v w ys key e = rw (e, total_before)

  total_before-IsMeasure :
      (xs : List (Entry K V Measure)) (key : K) → IsMeasure (total_before xs key)
  unfolding total_before
  total_before-IsMeasure [] key = (omega arith, omega arith)
  total_before-IsMeasure ((k, v, w) ∷ rest) key =
      elim (cmp key k)
        as (λ t.
          IsMeasure (elim t [ Ordering.gt ↦ plus w (total_before rest key) | _ ↦ no_measure ])) [
            | Ordering.gt ↦ plus-IsMeasure w (total_before rest key)
            | _ ↦ (omega arith, omega arith)
          ]

  total_before-right :
      (xs ys : List (Entry K V Measure)) (key : K)
      → Below key xs
      → total_before (xs ++ ys) key ≡ plus (total xs) (total_before ys key)
  unfolding total
  total_before-right [] ys key h =
      sym (no_measure-plus (total_before ys key) (total_before-IsMeasure ys key))
  total_before-right ((k, v, w) ∷ xs) ys key h =
      total_before-cons k v w (xs ++ ys) key (o.cmp-lt k key h.0)
      ∙ ap (plus w) (total_before-right xs ys key h.1)
      ∙ sym (plus_assoc w (total xs) (total_before ys key))

  -- A node whose key is below the one searched for: its left subtree and itself go into the sum.
  total_before-node :
      (k : K) (v : V) (w s : Measure) (h : ℕ) (l r : Link K V) (sum : Measure) (key : K)
      → IsSummed l
      → Below k (to_list l)
      → cmp key k ≡ Ordering.gt
      → plus (plus (plus sum (measure l)) w) (total_before (to_list r) key)
        ≡ plus sum (total_before (to_list (node k v w s h l r)) key)
  total_before-node k v w s h l r sum key hl below e = rw (
    to_list-node k v w s h l r,
    total_before-right (to_list l) ((k, v, w) ∷ to_list r) key
        (Below-trans k key (to_list l) below (o.cmp-gt key k e)),
    total_before-cons k v w (to_list r) key e,
    measure_lem l hl,
    plus_assoc (plus sum (total (to_list l))) w (total_before (to_list r) key),
    plus_assoc sum (total (to_list l)) (plus w (total_before (to_list r) key)),
  )

  -- A key that is not above that of a node: only the left subtree counts.
  total_before-node_left :
      (k : K) (v : V) (w s : Measure) (h : ℕ) (l r : Link K V) (key : K)
      → (cmp key k ≡ Ordering.lt) ⊎ (cmp key k ≡ Ordering.eq)
      → total_before (to_list (node k v w s h l r)) key ≡ total_before (to_list l) key
  total_before-node_left k v w s h l r key e =
      ap (λ xs. total_before xs key) (to_list-node k v w s h l r)
      ∙ total_before-stop (to_list l) k v w (to_list r) key e

  total_before-all :
      (xs : List (Entry K V Measure)) (key : K) → Below key xs → total_before xs key ≡ total xs
  unfolding total total_before
  total_before-all [] key h = refl
  total_before-all ((k, v, w) ∷ rest) key h =
      total_before-cons k v w rest key (o.cmp-lt k key h.0)
      ∙ ap (plus w) (total_before-all rest key h.1)

  pub prefix_from-left :
      (k : K) (v : V) (w s : Measure) (h : ℕ) (l r : Link K V) (sum : Measure) (key : K)
      → (cmp key k ≡ Ordering.lt) ⊎ (cmp key k ≡ Ordering.eq)
      → prefix_from (node k v w s h l r) sum key ≡ prefix_from l sum key
  unfolding prefix_from
  prefix_from-left k v w s h l r sum key (inl e) = rw (e, prefix_from)
  prefix_from-left k v w s h l r sum key (inr e) = rw (e, prefix_from)

  pub prefix_from-right :
      (k : K) (v : V) (w s : Measure) (h : ℕ) (l r : Link K V) (sum : Measure) (key : K)
      → cmp key k ≡ Ordering.gt
      → prefix_from (node k v w s h l r) sum key ≡ prefix_from r (plus (plus sum (measure l)) w) key
  unfolding prefix_from
  prefix_from-right k v w s h l r sum key e = rw (e, prefix_from)

  prefix_from_lem :
      (t : Link K V) (sum : Measure) (key : K)
      → IsMeasure sum
      → IsSummed t
      → IsSorted (to_list t)
      → prefix_from t sum key ≡ plus sum (total_before (to_list t) key)
  unfolding prefix_from to_list total_before
  prefix_from_lem empty sum key fits hs h = sym (plus-no_measure sum fits)
  prefix_from_lem (node k v w s h' l r) sum key fits (fits', sums, hl, hr) h =
      let (sl, below, above, sr) = IsSorted-node k v w s h' l r h in
      elim (Ordering-cases (cmp key k)) [
        | inl e ↦
            prefix_from-left k v w s h' l r sum key (inl e)
            ∙ prefix_from_lem l sum key fits hl sl
            ∙ sym (ap (plus sum) (total_before-node_left k v w s h' l r key (inl e)))
        | inr (inr e) ↦
            prefix_from-left k v w s h' l r sum key (inr e)
            ∙ prefix_from_lem l sum key fits hl sl
            ∙ sym (ap (plus sum) (total_before-node_left k v w s h' l r key (inr e)))
        | inr (inl e) ↦
            prefix_from-right k v w s h' l r sum key e
            ∙ prefix_from_lem r (plus (plus sum (measure l)) w) key
                (plus-IsMeasure (plus sum (measure l)) w) hr sr
            ∙ total_before-node k v w s h' l r sum key hl below e
      ]

  -- `prefix` is the sum of the weights of the entries whose keys are below the given one, whether the key is there or
  -- not, in a tree whose keys increase and whose stored sums are right.
  pub prefix_lem :
      (t : Link K V) (key : K)
      → IsSummed t
      → IsSorted (to_list t)
      → prefix t key ≡ total_before (to_list t) key
  unfolding prefix
  prefix_lem t key hs h =
      prefix_from_lem t no_measure key (omega arith, omega arith) hs h
      ∙ no_measure-plus (total_before (to_list t) key) (total_before-IsMeasure (to_list t) key)

  rank_from-lt :
      (k : K) (v : V) (w s : Measure) (h : ℕ) (l r : Link K V) (sum : Measure) (key : K)
      → cmp key k ≡ Ordering.lt
      → rank_from (node k v w s h l r) sum key ≡ rank_from l sum key
  unfolding rank_from
  rank_from-lt k v w s h l r sum key e = rw (e, rank_from)

  rank_from-gt :
      (k : K) (v : V) (w s : Measure) (h : ℕ) (l r : Link K V) (sum : Measure) (key : K)
      → cmp key k ≡ Ordering.gt
      → rank_from (node k v w s h l r) sum key ≡ rank_from r (plus (plus sum (measure l)) w) key
  unfolding rank_from
  rank_from-gt k v w s h l r sum key e = rw (e, rank_from)

  rank_from-eq :
      (k : K) (v : V) (w s : Measure) (h : ℕ) (l r : Link K V) (sum : Measure) (key : K)
      → cmp key k ≡ Ordering.eq
      → rank_from (node k v w s h l r) sum key ≡ some (plus sum (measure l))
  unfolding rank_from
  rank_from-eq k v w s h l r sum key e = rw (e, rank_from)

  rank_from_lem :
      (t : Link K V) (sum : Measure) (key : K)
      → IsMeasure sum
      → IsSummed t
      → IsSorted (to_list t)
      → rank_from t sum key ≡ Option_map (λ _. plus sum (total_before (to_list t) key)) (get t key)
  unfolding rank_from get
  rank_from_lem empty sum key fits hs h = refl
  rank_from_lem (node k v w s h' l r) sum key fits (fits', sums, hl, hr) h =
      let (sl, below, above, sr) = IsSorted-node k v w s h' l r h in
      elim (Ordering-cases (cmp key k)) [
        | inl e ↦
            rw
              (
                rank_from-lt k v w s h' l r sum key e,
                get-lt k v w s h' l r key e,
                total_before-node_left k v w s h' l r key (inl e),
              )
              (rank_from_lem l sum key fits hl sl)
        | inr (inr e) ↦
            rw
              (
                rank_from-eq k v w s h' l r sum key e,
                get-eq k v w s h' l r key e,
                total_before-node_left k v w s h' l r key (inr e),
                total_before-all (to_list l) key (Below-eq key k (to_list l) e below),
              )
              (ap (λ m. some (plus sum m)) (measure_lem l hl))
        | inr (inl e) ↦
            rw
              (
                rank_from-gt k v w s h' l r sum key e,
                get-gt k v w s h' l r key e,
                ← total_before-node k v w s h' l r sum key hl below e,
              )
              (rank_from_lem r (plus (plus sum (measure l)) w) key
                (plus-IsMeasure (plus sum (measure l)) w) hr sr)
      ]

  -- `rank` of a key is the sum of the weights of the entries whose keys are below it, where the key is there, and
  -- nothing where it is not, in a tree whose keys increase and whose stored sums are right.
  pub rank_lem :
      (t : Link K V) (key : K)
      → IsSummed t
      → IsSorted (to_list t)
      → rank t key ≡ Option_map (λ _. total_before (to_list t) key) (lookup (to_list t) key)
  unfolding rank
  rank_lem t key hs h =
      rank_from_lem t no_measure key (omega arith, omega arith) hs h
      ∙ ap₂ (λ m found. Option_map (λ _. m) found)
          (no_measure-plus (total_before (to_list t) key) (total_before-IsMeasure (to_list t) key))
          (get_lem t key h)
