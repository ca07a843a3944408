-- ===== src/IndexPages/Rank/Prefixes/Batch.antt =====
-- `prefixes` of rank.rs against `prefix`: one walk for a batch of keys, and a walk for each.
use editchain.Prelude.{ℕ, ◌≡◌, refl, sym, ap, ◌∙◌, List, [], ◌∷◌, map, All, length}
use editchain.Order.{Ord}
use editchain.IndexPages.Rank.{
  Measure, no_measure, plus, Link, empty, node, measure, prefix_from, prefix,
}
use editchain.IndexPages.Rank.Queries.{prefix_from-left, prefix_from-right}
use editchain.IndexPages.Rank.Prefixes.{
  blank, enumerate_from, sort_queries, split_queries, prefix_batch, prefixes,
}
use editchain.IndexPages.Rank.Prefixes.Assignment.{
  assign, write_all-assign, assign-append, assign-same, assign-enumerate,
}
use editchain.IndexPages.Rank.Prefixes.Ascent.{
  Ascending, split_queries-IsSplit, sort_queries-Ascending, assign-sort_queries,
}

module _ {ℓ} {K : Type ℓ} where
  All-map {κ μ} :
      {P : K × ℕ → Type κ} {Q : K × ℕ → Type μ} (queries : List (K × ℕ))
      → ((q : K × ℕ) → P q → Q q)
      → All P queries
      → All Q queries
  All-map [] f h = tt
  All-map (q ∷ rest) f h = (f q h.0, All-map rest f h.1)

module _ {ℓ κ} {K : Type ℓ} {V : Type κ} ⦃o : Ord K⦄ where
  prefix_batch-assign :
      (t : Link K V) (queries : List (K × ℕ)) (sum : Measure) (output : List Measure)
      → Ascending queries
      → prefix_batch t queries sum output ≡ assign (prefix_from t sum) queries output
  unfolding prefix_batch prefix_from assign
  prefix_batch-assign empty queries sum output h = write_all-assign queries sum output
  prefix_batch-assign (node k v w s t l r) [] sum output h = refl
  prefix_batch-assign (node k v w s t l r) (query ∷ rest) sum output h =
      let queries = query ∷ rest in
      let before = (split_queries k queries).0 in
      let after = (split_queries k queries).1 in
      let (joined, left, right, up, up') = split_queries-IsSplit k queries h in
      let middle = assign (prefix_from (node k v w s t l r) sum) before output in
      prefix_batch-assign r after (plus (plus sum (measure l)) w) (prefix_batch l before sum output)
        up'
      ∙ ap (assign (prefix_from r (plus (plus sum (measure l)) w)) after) (
          prefix_batch-assign l before sum output up
          ∙ assign-same (prefix_from l sum) (prefix_from (node k v w s t l r) sum) before output
              (All-map before (λ q e. sym (prefix_from-left k v w s t l r sum q.0 e)) left))
      ∙ assign-same (prefix_from r (plus (plus sum (measure l)) w))
          (prefix_from (node k v w s t l r) sum) after middle
          (All-map after (λ q e. sym (prefix_from-right k v w s t l r sum q.0 e)) right)
      ∙ sym (assign-append (prefix_from (node k v w s t l r) sum) before after output)
      ∙ ap (λ qs. assign (prefix_from (node k v w s t l r) sum) qs output) joined

  -- The prefix weights of a batch of keys, in any order and with repetitions, are the prefix weight of each key, in the
  -- order of the batch.
  pub prefixes_lem : (t : Link K V) (keys : List K) → prefixes t keys ≡ map (prefix t) keys
  unfolding prefixes prefix
  prefixes_lem t keys =
      prefix_batch-assign t (sort_queries (enumerate_from 0 keys)) no_measure (blank (length keys))
        (sort_queries-Ascending (enumerate_from 0 keys))
      ∙ assign-sort_queries (prefix t) 0 keys (blank (length keys))
      ∙ assign-enumerate (prefix t) keys
