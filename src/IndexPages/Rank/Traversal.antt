-- ===== src/IndexPages/Rank/Traversal.antt =====
-- rank.rs: `iter`, the traversal with a stack of nodes that are still to be visited.
use editchain.Prelude.{
  ℕ, zero, suc, ◌<◌, ◌≡◌, refl, sym, ap, ◌∙◌, Option, none, some, Option_map, List, [], ◌∷◌, ◌++◌,
  map, arith, append_assoc, append-nil, length,
}
use editchain.IndexPages.Sorted.{Entry}
use editchain.IndexPages.Rank.{Measure, Link, empty, node}
use editchain.IndexPages.Rank.Contents.{to_list}

-- What the iterator keeps between two calls: the nodes whose left subtrees are done, and the subtree that is next.
pub record Cursor {ℓ κ} (K : Type ℓ) (V : Type κ) : Type (ℓ ⊔ κ) where
  pub stack : List (Link K V)
  pub next : Link K V

module _ {ℓ κ} {K : Type ℓ} {V : Type κ} where
  -- The loop: each node on the way to the left goes on the stack.
  unfoldable pub descend : Link K V → List (Link K V) → List (Link K V)
  descend empty stack = stack
  descend (node k v w s h l r) stack = descend l (node k v w s h l r ∷ stack)

  unfoldable pub pop : List (Link K V) → Option ((K × V) × Cursor K V)
  pop [] = none
  pop (empty ∷ rest) = none
  pop (node k v w s h l r ∷ rest) = some ((k, v), record { stack = rest; next = r })

  unfoldable pub next_item : Cursor K V → Option ((K × V) × Cursor K V)
  unfolding descend pop
  next_item c = pop (descend c.next c.stack)

  unfoldable pub iter : Link K V → Cursor K V
  iter root = record { stack = []; next = root }

  -- The calls until the iterator ends: nothing, if it has not ended after so many.
  unfoldable pub drain : ℕ → Cursor K V → Option (List (K × V))
  unfolding next_item
  drain zero c = none
  drain (suc n) c = elim (next_item c) [
    | none ↦ some []
    | some (entry, c') ↦ Option_map (λ xs. entry ∷ xs) (drain n c')
  ]

  -- What the iterator gives of an entry: not its weight.
  abbrev pub item : Entry K V Measure → K × V
  item (k, v, w) = (k, v)

  unfoldable entries : Link K V → List (K × V)
  unfolding to_list
  entries t = map item (to_list t)

  map-append : (xs ys : List (Entry K V Measure)) → map item (xs ++ ys) ≡ map item xs ++ map item ys
  map-append [] ys = refl
  map-append (x ∷ xs) ys = ap (λ zs. item x ∷ zs) (map-append xs ys)

  length-map-item : (xs : List (Entry K V Measure)) → length (map item xs) ≡ length xs
  length-map-item [] = refl
  length-map-item (x ∷ xs) = ap suc (length-map-item xs)

  unfoldable pending : List (Link K V) → List (K × V)
  unfolding entries
  pending [] = []
  pending (empty ∷ rest) = []
  pending (node k v w s h l r ∷ rest) = (k, v) ∷ (entries r ++ pending rest)

  pending-descend :
      (t : Link K V) (stack : List (Link K V))
      → pending (descend t stack) ≡ entries t ++ pending stack
  unfolding descend pending entries to_list
  pending-descend empty stack = refl
  pending-descend (node k v w s h l r) stack =
      pending-descend l (node k v w s h l r ∷ stack)
      ∙ sym (append_assoc (entries l) ((k, v) ∷ entries r) (pending stack))
      ∙ ap (λ xs. xs ++ pending stack) (sym (map-append (to_list l) ((k, v, w) ∷ to_list r)))

  -- What the calls will give.
  abbrev remaining : Cursor K V → List (K × V)
  remaining c = entries c.next ++ pending c.stack

  drain-pop :
      (n : ℕ) (stack : List (Link K V))
      → ((c : Cursor K V) → length (remaining c) < n → drain n c ≡ some (remaining c))
      → length (pending stack) < suc n
      → (elim (pop stack) [
        | none ↦ some []
        | some (entry, c') ↦ Option_map (λ xs. entry ∷ xs) (drain n c')
      ])
        ≡ some (pending stack)
  unfolding pop pending
  drain-pop n [] ih h = refl
  drain-pop n (empty ∷ rest) ih h = refl
  drain-pop n (node k v w s t l r ∷ rest) ih h =
      ap (Option_map (λ xs. (k, v) ∷ xs)) (ih (record { stack = rest; next = r }) (omega arith))

  drain-remaining :
      (n : ℕ) (c : Cursor K V) → length (remaining c) < n → drain n c ≡ some (remaining c)
  unfolding drain next_item
  drain-remaining zero c h = absurd (omega arith)
  drain-remaining (suc n) c h =
      let e = pending-descend c.next c.stack in
      drain-pop n (descend c.next c.stack) (drain-remaining n) (coe 1 0 (i. length (e i) < suc n) h)
      ∙ ap some e

  -- The traversal of a tree ends, and gives each key and value once, in the order of the tree: after one call more than
  -- there are entries it has given them all and said that it is at the end.
  pub iter_lem :
      (t : Link K V) (n : ℕ)
      → length (to_list t) < n
      → drain n (iter t) ≡ some (map item (to_list t))
  unfolding iter entries pending
  iter_lem t n h =
      let e : remaining (iter t) ≡ map item (to_list t) = append-nil (map item (to_list t)) in
      drain-remaining n (iter t) (omega (arith, ap length e, length-map-item (to_list t)))
      ∙ ap some e
