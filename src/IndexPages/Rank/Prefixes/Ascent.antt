-- ===== src/IndexPages/Rank/Prefixes/Ascent.antt =====
-- The order of the queries in `prefixes` of rank.rs: the sort, and the split at the key of a node.
use Prim.Native.Nat.{Ordering}
use editchain.Prelude.{
  ℕ, suc, ◌<◌, ◌≡◌, ◌≢◌, refl, ap, ◌∙◌, List, [], ◌∷◌, ◌++◌, arith, ◌⊎◌, inl, inr, All, All-front,
}
use editchain.Order.{Ord, cmp, Ordering-cases}
use editchain.IndexPages.Rank.{Measure}
use editchain.IndexPages.Rank.Prefixes.{write, enumerate_from, place, sort_queries, split_queries}
use editchain.IndexPages.Rank.Prefixes.Assignment.{assign, write-write}

module _ {ℓ} {K : Type ℓ} ⦃o : Ord K⦄ where
  abbrev pub NotAbove : K → K → Type 0
  NotAbove a b = (cmp a b ≡ Ordering.lt) ⊎ (cmp a b ≡ Ordering.eq)

  abbrev pub Ascending : List (K × ℕ) → Type 0
  Ascending [] = Unit
  Ascending (query ∷ rest) = All (λ q. NotAbove query.0 q.0) rest × Ascending rest

  NotAbove-gt : (a b : K) → cmp a b ≡ Ordering.gt → NotAbove b a
  NotAbove-gt a b h = inl (o.cmp-gt a b h)

  NotAbove-trans : (a b c : K) → NotAbove a b → NotAbove b c → NotAbove a c
  NotAbove-trans a b c (inl h) (inl k) = inl (o.cmp_trans a b c h k)
  NotAbove-trans a b c (inl h) (inr k) = inl (coe 0 1 (i. cmp a (o.cmp-eq b c k i) ≡ Ordering.lt) h)
  NotAbove-trans a b c (inr h) k = coe 1 0 (i. NotAbove (o.cmp-eq a b h i) c) k

  NotAbove-above : (a b key : K) → NotAbove a b → cmp a key ≡ Ordering.gt → cmp b key ≡ Ordering.gt
  NotAbove-above a b key (inl h) k = o.cmp-lt key b (o.cmp_trans key a b (o.cmp-gt a key k) h)
  NotAbove-above a b key (inr h) k = coe 0 1 (i. cmp (o.cmp-eq a b h i) key ≡ Ordering.gt) k

  All-above :
      (a key : K) (queries : List (K × ℕ))
      → cmp a key ≡ Ordering.gt
      → All (λ q. NotAbove a q.0) queries
      → All (λ q. cmp q.0 key ≡ Ordering.gt) queries
  All-above a key [] k h = tt
  All-above a key (q ∷ rest) k h = (NotAbove-above a q.0 key h.0 k, All-above a key rest k h.1)

  split-above :
      (key : K) (query : K × ℕ) (rest : List (K × ℕ))
      → cmp query.0 key ≡ Ordering.gt
      → split_queries key (query ∷ rest) ≡ ([], query ∷ rest)
  unfolding split_queries
  split-above key query rest e = rw (e, split_queries)

  split-below :
      (key : K) (query : K × ℕ) (rest : List (K × ℕ))
      → NotAbove query.0 key
      → split_queries key (query ∷ rest)
        ≡ (query ∷ (split_queries key rest).0, (split_queries key rest).1)
  unfolding split_queries
  split-below key query rest (inl e) = rw (e, split_queries)
  split-below key query rest (inr e) = rw (e, split_queries)

  -- The two parts of a batch in order: together the batch, each in order, and apart at the key.
  abbrev pub IsSplit : K → List (K × ℕ) → List (K × ℕ) × List (K × ℕ) → Type ℓ
  IsSplit key queries (left, right) =
      (left ++ right ≡ queries)
      × All (λ q. NotAbove q.0 key) left
      × All (λ q. cmp q.0 key ≡ Ordering.gt) right
      × Ascending left
      × Ascending right

  pub split_queries-IsSplit :
      (key : K) (queries : List (K × ℕ))
      → Ascending queries
      → IsSplit key queries (split_queries key queries)
  unfolding split_queries
  split_queries-IsSplit key [] h = (refl, tt, tt, tt, tt)
  split_queries-IsSplit key (query ∷ rest) h =
      let below : NotAbove query.0 key
          → IsSplit key (query ∷ rest) (split_queries key (query ∷ rest)) =
        λ e.
          let (joined, left, right, up, up') = split_queries-IsSplit key rest h.1 in
          coe 1 0 (i. IsSplit key (query ∷ rest) (split-below key query rest e i)) (
            ap (λ qs. query ∷ qs) joined,
            (e, left),
            right,
            (
              All-front (λ q. NotAbove query.0 q.0) (split_queries key rest).0
                  (split_queries key rest).1
                  (coe 1 0 (i. All (λ q. NotAbove query.0 q.0) (joined i)) h.0),
              up,
            ),
            up',
          ) in
      elim (Ordering-cases (cmp query.0 key)) [
        | inl e ↦ below (inl e)
        | inr (inr e) ↦ below (inr e)
        | inr (inl e) ↦
            coe 1 0 (i. IsSplit key (query ∷ rest) (split-above key query rest e i))
              (refl, tt, (e, All-above query.0 key rest e h.0), tt, h)
      ]

  place-gt :
      (query next : K × ℕ) (rest : List (K × ℕ))
      → cmp query.0 next.0 ≡ Ordering.gt
      → place query (next ∷ rest) ≡ next ∷ place query rest
  unfolding place
  place-gt query next rest e = rw (e, place)

  place-here :
      (query next : K × ℕ) (rest : List (K × ℕ))
      → NotAbove query.0 next.0
      → place query (next ∷ rest) ≡ query ∷ (next ∷ rest)
  unfolding place
  place-here query next rest (inl e) = rw (e, place)
  place-here query next rest (inr e) = rw (e, place)

  Order-cases : (a b : K) → NotAbove a b ⊎ (cmp a b ≡ Ordering.gt)
  Order-cases a b = elim (Ordering-cases (cmp a b)) [
    | inl e ↦ inl (inl e)
    | inr (inr e) ↦ inl (inr e)
    | inr (inl e) ↦ inr e
  ]

  All-place {κ} :
      (P : K × ℕ → Type κ) (query : K × ℕ) (queries : List (K × ℕ))
      → P query
      → All P queries
      → All P (place query queries)
  unfolding place
  All-place P query [] p h = (p, tt)
  All-place P query (next ∷ rest) p h = elim (Order-cases query.0 next.0) [
    | inl e ↦ coe 1 0 (i. All P (place-here query next rest e i)) (p, h)
    | inr e ↦ coe 1 0 (i. All P (place-gt query next rest e i)) (h.0, All-place P query rest p h.1)
  ]

  NotAbove-All :
      (a b : K) (queries : List (K × ℕ))
      → NotAbove a b
      → All (λ q. NotAbove b q.0) queries
      → All (λ q. NotAbove a q.0) queries
  NotAbove-All a b [] e h = tt
  NotAbove-All a b (q ∷ rest) e h = (NotAbove-trans a b q.0 e h.0, NotAbove-All a b rest e h.1)

  place-Ascending :
      (query : K × ℕ) (queries : List (K × ℕ)) → Ascending queries → Ascending (place query queries)
  unfolding place
  place-Ascending query [] h = (tt, tt)
  place-Ascending query (next ∷ rest) h = elim (Order-cases query.0 next.0) [
    | inl e ↦
        coe 1 0 (i. Ascending (place-here query next rest e i))
          ((e, NotAbove-All query.0 next.0 rest e h.0), h)
    | inr e ↦ coe 1 0 (i. Ascending (place-gt query next rest e i)) (
      All-place (λ q. NotAbove next.0 q.0) query rest (NotAbove-gt query.0 next.0 e) h.0,
      place-Ascending query rest h.1,
    )
  ]

  pub sort_queries-Ascending : (queries : List (K × ℕ)) → Ascending (sort_queries queries)
  unfolding sort_queries
  sort_queries-Ascending [] = tt
  sort_queries-Ascending (query ∷ rest) =
      place-Ascending query (sort_queries rest) (sort_queries-Ascending rest)

  -- Where no other query has its place, a query may be answered first.
  assign-place :
      (f : K → Measure) (query : K × ℕ) (queries : List (K × ℕ)) (output : List Measure)
      → All (λ q. query.1 ≢ q.1) queries
      → assign f (place query queries) output ≡ assign f (query ∷ queries) output
  unfolding assign place
  assign-place f query [] output h = refl
  assign-place f query (next ∷ rest) output h = elim (Order-cases query.0 next.0) [
    | inl e ↦ ap (λ qs. assign f qs output) (place-here query next rest e)
    | inr e ↦
        ap (λ qs. assign f qs output) (place-gt query next rest e)
        ∙ assign-place f query rest (write next.1 (f next.0) output) h.1
        ∙ ap (assign f rest) (write-write query.1 next.1 (f query.0) (f next.0) output h.0)
  ]

  sort-later :
      (n m : ℕ) (keys : List K) → n < m → All (λ q. n ≢ q.1) (sort_queries (enumerate_from m keys))
  unfolding sort_queries enumerate_from
  sort-later n m [] h = tt
  sort-later n m (key ∷ keys) h =
      All-place (λ q. n ≢ q.1) (key, m) (sort_queries (enumerate_from (suc m) keys))
        (λ e. omega arith) (sort-later n (suc m) keys (omega arith))

  -- The order of the sort does not show in the output.
  pub assign-sort_queries :
      (f : K → Measure) (n : ℕ) (keys : List K) (output : List Measure)
      → assign f (sort_queries (enumerate_from n keys)) output
        ≡ assign f (enumerate_from n keys) output
  unfolding assign sort_queries enumerate_from
  assign-sort_queries f n [] output = refl
  assign-sort_queries f n (key ∷ keys) output =
      assign-place f (key, n) (sort_queries (enumerate_from (suc n) keys)) output
        (sort-later n (suc n) keys (omega arith))
      ∙ assign-sort_queries f (suc n) keys (write n (f key) output)
