-- ===== src/IndexPages/Rank/Mutation.antt =====
-- rank.rs: `get_mut`, through which the value of a key is written in its place.
use Prim.Native.Nat.{Ordering}
use editchain.Prelude.{
  ℕ, ◌≡◌, refl, sym, ap, ◌∙◌, Option, none, some, Option_map, Option_map-map, ◌∷◌, ◌++◌, inl, inr,
}
use editchain.Order.{Ord, cmp, Ordering-cases}
use editchain.IndexPages.Sorted.{lookup, IsSorted, Below-eq, Below-trans, Above-trans}
use editchain.IndexPages.Replacement.{
  replace_value, replace_value-gt, replace_value-at, replace_value-left, replace_value-right,
}
use editchain.IndexPages.Rank.{Measure, Link, empty, node, get}
use editchain.IndexPages.Rank.Steps.{get-lt, get-gt, get-eq}
use editchain.IndexPages.Rank.Contents.{to_list, IsSorted-node, get_lem}

-- A mutable borrow of a value in a tree: the value, and the tree that a write of another one leaves.
abbrev pub Slot {ℓ κ} : Type ℓ → Type κ → Type (ℓ ⊔ κ)
Slot K V = V × (V → Link K V)

module _ {ℓ κ} {K : Type ℓ} {V : Type κ} where
  abbrev pub within : (Link K V → Link K V) → Option (Slot K V) → Option (Slot K V)
  within around slot = Option_map (λ m. (m.0, λ value. around (m.1 value))) slot

  -- The tree without its values: its keys, weights, sums, heights and branches.
  unfoldable pub shape : Link K V → Link K (Unit {0})
  shape empty = empty
  shape (node k v w s h l r) = node k tt w s h (shape l) (shape r)

module _ {ℓ κ} {K : Type ℓ} {V : Type κ} ⦃o : Ord K⦄ where
  unfoldable pub get_mut : Link K V → K → Option (Slot K V)
  get_mut empty key = none
  get_mut (node k v w s h left right) key = elim (cmp key k) [
    | Ordering.lt ↦ within (λ child. node k v w s h child right) (get_mut left key)
    | Ordering.gt ↦ within (λ child. node k v w s h left child) (get_mut right key)
    | Ordering.eq ↦ some (v, λ value. node k value w s h left right)
  ]

  module _ (k : K) (v : V) (w s : Measure) (h : ℕ) (l r : Link K V) (key : K) where
    get_mut-lt :
        cmp key k ≡ Ordering.lt
        → get_mut (node k v w s h l r) key
          ≡ within (λ child. node k v w s h child r) (get_mut l key)
    unfolding get_mut
    get_mut-lt e = rw (e, get_mut)

    get_mut-gt :
        cmp key k ≡ Ordering.gt
        → get_mut (node k v w s h l r) key
          ≡ within (λ child. node k v w s h l child) (get_mut r key)
    unfolding get_mut
    get_mut-gt e = rw (e, get_mut)

    get_mut-eq :
        cmp key k ≡ Ordering.eq
        → get_mut (node k v w s h l r) key ≡ some (v, λ value. node k value w s h l r)
    unfolding get_mut
    get_mut-eq e = rw (e, get_mut)

  get_mut-get : (t : Link K V) (key : K) → Option_map (λ m. m.0) (get_mut t key) ≡ get t key
  unfolding get_mut get
  get_mut-get empty key = refl
  get_mut-get (node k v w s h l r) key = elim (Ordering-cases (cmp key k)) [
    | inl e ↦
        ap (Option_map (λ m. m.0)) (get_mut-lt k v w s h l r key e)
        ∙ Option_map-map (λ m. m.0) (λ m. (m.0, λ x. node k v w s h (m.1 x) r)) (get_mut l key)
        ∙ get_mut-get l key
        ∙ sym (get-lt k v w s h l r key e)
    | inr (inl e) ↦
        ap (Option_map (λ m. m.0)) (get_mut-gt k v w s h l r key e)
        ∙ Option_map-map (λ m. m.0) (λ m. (m.0, λ x. node k v w s h l (m.1 x))) (get_mut r key)
        ∙ get_mut-get r key
        ∙ sym (get-gt k v w s h l r key e)
    | inr (inr e) ↦
        ap (Option_map (λ m. m.0)) (get_mut-eq k v w s h l r key e)
        ∙ sym (get-eq k v w s h l r key e)
  ]

  to_list-get_mut :
      (t : Link K V) (key : K) (value : V)
      → IsSorted (to_list t)
      → Option_map (λ m. to_list (m.1 value)) (get_mut t key) ≡ replace_value (to_list t) key value
  unfolding get_mut to_list replace_value
  to_list-get_mut empty key value sorted = refl
  to_list-get_mut (node k v w s h l r) key value sorted =
      let (sl, below, above, sr) = IsSorted-node k v w s h l r sorted in
      elim (Ordering-cases (cmp key k)) [
        | inl e ↦
            ap (Option_map (λ m. to_list (m.1 value))) (get_mut-lt k v w s h l r key e)
            ∙ Option_map-map (λ m. to_list (m.1 value)) (λ m. (m.0, λ x. node k v w s h (m.1 x) r))
                (get_mut l key)
            ∙ sym (
                Option_map-map (λ zs. zs ++ ((k, v, w) ∷ to_list r)) (λ m. to_list (m.1 value))
                  (get_mut l key))
            ∙ ap (Option_map (λ zs. zs ++ ((k, v, w) ∷ to_list r))) (to_list-get_mut l key value sl)
            ∙ sym (
                replace_value-left (to_list l) ((k, v, w) ∷ to_list r) key value
                  (e, Above-trans key k (to_list r) e above))
        | inr (inl e) ↦
            ap (Option_map (λ m. to_list (m.1 value))) (get_mut-gt k v w s h l r key e)
            ∙ Option_map-map (λ m. to_list (m.1 value)) (λ m. (m.0, λ x. node k v w s h l (m.1 x)))
                (get_mut r key)
            ∙ sym (
                Option_map-map (λ zs. to_list l ++ ((k, v, w) ∷ zs)) (λ m. to_list (m.1 value))
                  (get_mut r key))
            ∙ ap (Option_map (λ zs. to_list l ++ ((k, v, w) ∷ zs))) (to_list-get_mut r key value sr)
            ∙ sym (
                Option_map-map (λ zs. to_list l ++ zs) (λ zs. (k, v, w) ∷ zs)
                  (replace_value (to_list r) key value))
            ∙ ap (Option_map (λ zs. to_list l ++ zs))
                (sym (replace_value-gt k v w (to_list r) key value e))
            ∙ sym (
                replace_value-right (to_list l) ((k, v, w) ∷ to_list r) key value
                  (Below-trans k key (to_list l) below (o.cmp-gt key k e)))
        | inr (inr e) ↦
            ap (Option_map (λ m. to_list (m.1 value))) (get_mut-eq k v w s h l r key e)
            ∙ sym (
                replace_value-at (to_list l) k v w (to_list r) key value
                  (Below-eq key k (to_list l) e below) e)
      ]

  shape-get_mut :
      (t : Link K V) (key : K) (value : V)
      → Option_map (λ m. shape (m.1 value)) (get_mut t key)
        ≡ Option_map (λ m. shape t) (get_mut t key)
  unfolding get_mut shape
  shape-get_mut empty key value = refl
  shape-get_mut (node k v w s h l r) key value = elim (Ordering-cases (cmp key k)) [
    | inl e ↦ rw (get_mut-lt k v w s h l r key e) (
        Option_map-map (λ m. shape (m.1 value)) (λ m. (m.0, λ x. node k v w s h (m.1 x) r))
          (get_mut l key)
        ∙ sym (
            Option_map-map (λ c. node k tt w s h c (shape r)) (λ m. shape (m.1 value))
              (get_mut l key))
        ∙ ap (Option_map (λ c. node k tt w s h c (shape r))) (shape-get_mut l key value)
        ∙ Option_map-map (λ c. node k tt w s h c (shape r)) (λ m. shape l) (get_mut l key)
        ∙ sym (
            Option_map-map (λ m. shape (node k v w s h l r))
              (λ m. (m.0, λ x. node k v w s h (m.1 x) r)) (get_mut l key)))
    | inr (inl e) ↦ rw (get_mut-gt k v w s h l r key e) (
        Option_map-map (λ m. shape (m.1 value)) (λ m. (m.0, λ x. node k v w s h l (m.1 x)))
          (get_mut r key)
        ∙ sym (
            Option_map-map (λ c. node k tt w s h (shape l) c) (λ m. shape (m.1 value))
              (get_mut r key))
        ∙ ap (Option_map (λ c. node k tt w s h (shape l) c)) (shape-get_mut r key value)
        ∙ Option_map-map (λ c. node k tt w s h (shape l) c) (λ m. shape r) (get_mut r key)
        ∙ sym (
            Option_map-map (λ m. shape (node k v w s h l r))
              (λ m. (m.0, λ x. node k v w s h l (m.1 x))) (get_mut r key)))
    | inr (inr e) ↦ rw (get_mut-eq k v w s h l r key e) refl
  ]

  -- In a tree whose keys increase, get_mut gives the value of a key where the key is there; a write through it changes
  -- that value in the list of entries and no other, and leaves keys, weights, sums, heights and branches as they are.
  pub get_mut_lem :
      (t : Link K V) (key : K) (value : V)
      → IsSorted (to_list t)
      → (Option_map (λ m. m.0) (get_mut t key) ≡ lookup (to_list t) key)
        × (Option_map (λ m. to_list (m.1 value)) (get_mut t key)
            ≡ replace_value (to_list t) key value)
        × (Option_map (λ m. shape (m.1 value)) (get_mut t key)
            ≡ Option_map (λ m. shape t) (get_mut t key))
  get_mut_lem t key value h = (
    get_mut-get t key ∙ get_lem t key h,
    to_list-get_mut t key value h,
    shape-get_mut t key value,
  )
