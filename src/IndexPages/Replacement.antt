-- ===== src/IndexPages/Replacement.antt =====
-- What a write in place does to the ordered list of entries that an index stands for.
use Prim.Native.Nat.{Ordering}
use editchain.Prelude.{
  ◌≡◌, refl, sym, ap, ◌∙◌, Option, none, some, Option_map, Option_map-map, Option_map-id, List, [],
  ◌∷◌, ◌++◌, inl, inr,
}
use editchain.Order.{Ord, cmp, Ordering-cases}
use editchain.IndexPages.Sorted.{Entry, Below, Above}

module _ {ℓ κ μ} {K : Type ℓ} {V : Type κ} {W : Type μ} ⦃o : Ord K⦄ where
  -- The entries with another value for a key, or nothing where the key is not there.
  unfoldable pub replace_value : List (Entry K V W) → K → V → Option (List (Entry K V W))
  replace_value [] key value = none
  replace_value ((k, v, w) ∷ rest) key value = elim (cmp key k) [
    | Ordering.eq ↦ some ((k, value, w) ∷ rest)
    | _ ↦ Option_map (λ xs. (k, v, w) ∷ xs) (replace_value rest key value)
  ]

  replace_value-lt :
      (k : K) (v : V) (w : W) (xs : List (Entry K V W)) (key : K) (value : V)
      → cmp key k ≡ Ordering.lt
      → replace_value ((k, v, w) ∷ xs) key value
        ≡ Option_map (λ xs. (k, v, w) ∷ xs) (replace_value xs key value)
  unfolding replace_value
  replace_value-lt k v w xs key value e = rw (e, replace_value)

  pub replace_value-gt :
      (k : K) (v : V) (w : W) (xs : List (Entry K V W)) (key : K) (value : V)
      → cmp key k ≡ Ordering.gt
      → replace_value ((k, v, w) ∷ xs) key value
        ≡ Option_map (λ xs. (k, v, w) ∷ xs) (replace_value xs key value)
  unfolding replace_value
  replace_value-gt k v w xs key value e = rw (e, replace_value)

  replace_value-eq :
      (k : K) (v : V) (w : W) (xs : List (Entry K V W)) (key : K) (value : V)
      → cmp key k ≡ Ordering.eq
      → replace_value ((k, v, w) ∷ xs) key value ≡ some ((k, value, w) ∷ xs)
  unfolding replace_value
  replace_value-eq k v w xs key value e = rw (e, replace_value)

  replace_value-Above :
      (xs : List (Entry K V W)) (key : K) (value : V)
      → Above key xs
      → replace_value xs key value ≡ none
  unfolding replace_value
  replace_value-Above [] key value h = refl
  replace_value-Above ((k, v, w) ∷ rest) key value h =
      replace_value-lt k v w rest key value h.0
      ∙ ap (Option_map (λ xs. (k, v, w) ∷ xs)) (replace_value-Above rest key value h.1)

  -- To the right of entries with smaller keys.
  pub replace_value-right :
      (xs ys : List (Entry K V W)) (key : K) (value : V)
      → Below key xs
      → replace_value (xs ++ ys) key value
        ≡ Option_map (λ zs. xs ++ zs) (replace_value ys key value)
  replace_value-right [] ys key value h = Option_map-id (replace_value ys key value)
  replace_value-right ((k, v, w) ∷ xs) ys key value h =
      replace_value-gt k v w (xs ++ ys) key value (o.cmp-lt k key h.0)
      ∙ ap (Option_map (λ zs. (k, v, w) ∷ zs)) (replace_value-right xs ys key value h.1)
      ∙ Option_map-map (λ zs. (k, v, w) ∷ zs) (λ zs. xs ++ zs) (replace_value ys key value)

  pub replace_value-at :
      (xs : List (Entry K V W)) (k : K) (v : V) (w : W) (ys : List (Entry K V W)) (key : K)
      (value : V)
      → Below key xs
      → cmp key k ≡ Ordering.eq
      → replace_value (xs ++ ((k, v, w) ∷ ys)) key value ≡ some (xs ++ ((k, value, w) ∷ ys))
  replace_value-at xs k v w ys key value below e =
      replace_value-right xs ((k, v, w) ∷ ys) key value below
      ∙ ap (Option_map (λ zs. xs ++ zs)) (replace_value-eq k v w ys key value e)

  replace_value-later :
      (k : K) (v : V) (w : W) (xs ys : List (Entry K V W)) (key : K) (value : V)
      → replace_value (xs ++ ys) key value
        ≡ Option_map (λ zs. zs ++ ys) (replace_value xs key value)
      → Option_map (λ zs. (k, v, w) ∷ zs) (replace_value (xs ++ ys) key value)
        ≡ Option_map
            (λ zs. zs ++ ys)
            (Option_map (λ zs. (k, v, w) ∷ zs) (replace_value xs key value))
  replace_value-later k v w xs ys key value h =
      ap (Option_map (λ zs. (k, v, w) ∷ zs)) h
      ∙ Option_map-map (λ zs. (k, v, w) ∷ zs) (λ zs. zs ++ ys) (replace_value xs key value)
      ∙ sym (Option_map-map (λ zs. zs ++ ys) (λ zs. (k, v, w) ∷ zs) (replace_value xs key value))

  -- To the left of entries with larger keys.
  pub replace_value-left :
      (xs ys : List (Entry K V W)) (key : K) (value : V)
      → Above key ys
      → replace_value (xs ++ ys) key value
        ≡ Option_map (λ zs. zs ++ ys) (replace_value xs key value)
  unfolding replace_value
  replace_value-left [] ys key value h = replace_value-Above ys key value h
  replace_value-left ((k, v, w) ∷ xs) ys key value h = elim (Ordering-cases (cmp key k)) [
    | inr (inr e) ↦
        replace_value-eq k v w (xs ++ ys) key value e
        ∙ ap (Option_map (λ zs. zs ++ ys)) (sym (replace_value-eq k v w xs key value e))
    | inl e ↦
        replace_value-lt k v w (xs ++ ys) key value e
        ∙ replace_value-later k v w xs ys key value (replace_value-left xs ys key value h)
        ∙ ap (Option_map (λ zs. zs ++ ys)) (sym (replace_value-lt k v w xs key value e))
    | inr (inl e) ↦
        replace_value-gt k v w (xs ++ ys) key value e
        ∙ replace_value-later k v w xs ys key value (replace_value-left xs ys key value h)
        ∙ ap (Option_map (λ zs. zs ++ ys)) (sym (replace_value-gt k v w xs key value e))
  ]
