-- ===== src/IndexPages/Sorted.antt =====
-- What the ordered index stands for: a list of entries in increasing order of their keys.
use Prim.Native.Nat.{Ordering}
use editchain.Prelude.{◌≡◌, refl, Option, none, some, List, [], ◌∷◌, ◌++◌, arith}
use editchain.Order.{Ord, cmp, Lt}

abbrev pub Entry {ℓ κ μ} : Type ℓ → Type κ → Type μ → Type (ℓ ⊔ κ ⊔ μ)
Entry K V W = K × V × W

module _ {ℓ κ μ} {K : Type ℓ} {V : Type κ} {W : Type μ} ⦃o : Ord K⦄ where
  unfoldable pub lookup : List (Entry K V W) → K → Option V
  lookup [] key = none
  lookup ((k, v, w) ∷ rest) key = elim (cmp key k) [ Ordering.eq ↦ some v | _ ↦ lookup rest key ]

  unfoldable pub insert_entry : List (Entry K V W) → K → V → W → List (Entry K V W)
  insert_entry [] key value weight = (key, value, weight) ∷ []
  insert_entry ((k, v, w) ∷ rest) key value weight = elim (cmp key k) [
    | Ordering.lt ↦ (key, value, weight) ∷ ((k, v, w) ∷ rest)
    | Ordering.eq ↦ (k, value, weight) ∷ rest
    | Ordering.gt ↦ (k, v, w) ∷ insert_entry rest key value weight
  ]

  unfoldable pub remove_entry : List (Entry K V W) → K → List (Entry K V W)
  remove_entry [] key = []
  remove_entry ((k, v, w) ∷ rest) key = elim (cmp key k) [
    | Ordering.eq ↦ rest
    | _ ↦ (k, v, w) ∷ remove_entry rest key
  ]

  -- Every key of the list is below, or above, the given one.
  abbrev pub Below : K → List (Entry K V W) → Type 0
  Below key [] = Unit
  Below key ((k, v, w) ∷ rest) = Lt k key × Below key rest

  abbrev pub Above : K → List (Entry K V W) → Type 0
  Above key [] = Unit
  Above key ((k, v, w) ∷ rest) = Lt key k × Above key rest

  abbrev pub IsSorted : List (Entry K V W) → Type 0
  IsSorted [] = Unit
  IsSorted ((k, v, w) ∷ rest) = Above k rest × IsSorted rest

  pub Above-trans : (a b : K) (xs : List (Entry K V W)) → Lt a b → Above b xs → Above a xs
  Above-trans a b [] h above = tt
  Above-trans a b ((k, v, w) ∷ rest) h above =
      (o.cmp_trans a b k h above.0, Above-trans a b rest h above.1)

  pub Above-append :
      (key : K) (xs ys : List (Entry K V W)) → Above key (xs ++ ys) → Above key xs × Above key ys
  Above-append key [] ys h = (tt, h)
  Above-append key ((k, v, w) ∷ xs) ys h = let (a, b) = Above-append key xs ys h.1 in ((h.0, a), b)

  -- A sorted list, taken apart at an entry.
  pub IsSorted-split :
      (xs : List (Entry K V W)) (k : K) (v : V) (w : W) (ys : List (Entry K V W))
      → IsSorted (xs ++ ((k, v, w) ∷ ys))
      → IsSorted xs × Below k xs × Above k ys × IsSorted ys
  IsSorted-split [] k v w ys h = (tt, tt, h.0, h.1)
  IsSorted-split ((k', v', w') ∷ xs) k v w ys h =
      let (s, below, above, s') = IsSorted-split xs k v w ys h.1 in
      let (a, b) = Above-append k' xs ((k, v, w) ∷ ys) h.0 in ((a, s), (b.0, below), above, s')

  pub Below-trans : (a b : K) (xs : List (Entry K V W)) → Below a xs → Lt a b → Below b xs
  Below-trans a b [] below h = tt
  Below-trans a b ((k, v, w) ∷ rest) below h =
      (o.cmp_trans k a b below.0 h, Below-trans a b rest below.1 h)

  -- To the right of an entry with a smaller key nothing before it matters.
  pub insert_entry-right :
      (xs : List (Entry K V W)) (ys : List (Entry K V W)) (key : K) (value : V) (weight : W)
      → Below key xs
      → insert_entry (xs ++ ys) key value weight ≡ xs ++ insert_entry ys key value weight
  unfolding insert_entry
  insert_entry-right [] ys key value weight h = refl
  insert_entry-right ((k, v, w) ∷ xs) ys key value weight h =
      ground (arith, o.cmp-lt k key h.0, insert_entry-right xs ys key value weight h.1)

  pub insert_entry-left :
      (xs : List (Entry K V W)) (k : K) (v : V) (w : W) (ys : List (Entry K V W)) (key : K)
      (value : V) (weight : W)
      → Lt key k
      → insert_entry (xs ++ ((k, v, w) ∷ ys)) key value weight
        ≡ insert_entry xs key value weight ++ ((k, v, w) ∷ ys)
  unfolding insert_entry
  insert_entry-left [] k v w ys key value weight h = rw (h, insert_entry)
  insert_entry-left ((k', v', w') ∷ xs) k v w ys key value weight h =
      ground (arith, insert_entry-left xs k v w ys key value weight h)

  pub remove_entry-right :
      (xs ys : List (Entry K V W)) (key : K)
      → Below key xs
      → remove_entry (xs ++ ys) key ≡ xs ++ remove_entry ys key
  unfolding remove_entry
  remove_entry-right [] ys key h = refl
  remove_entry-right ((k, v, w) ∷ xs) ys key h =
      ground (arith, o.cmp-lt k key h.0, remove_entry-right xs ys key h.1)

  pub lookup-right :
      (xs ys : List (Entry K V W)) (key : K) → Below key xs → lookup (xs ++ ys) key ≡ lookup ys key
  unfolding lookup
  lookup-right [] ys key h = refl
  lookup-right ((k, v, w) ∷ xs) ys key h =
      ground (arith, o.cmp-lt k key h.0, lookup-right xs ys key h.1)

  -- A key below every entry is not there.
  pub lookup-Above : (xs : List (Entry K V W)) (key : K) → Above key xs → lookup xs key ≡ none
  unfolding lookup
  lookup-Above [] key h = refl
  lookup-Above ((k, v, w) ∷ xs) key h = ground (arith, h.0, lookup-Above xs key h.1)

  remove_entry-Above : (xs : List (Entry K V W)) (key : K) → Above key xs → remove_entry xs key ≡ xs
  unfolding remove_entry
  remove_entry-Above [] key h = refl
  remove_entry-Above ((k, v, w) ∷ xs) key h = ground (arith, h.0, remove_entry-Above xs key h.1)

  pub lookup-left :
      (xs ys : List (Entry K V W)) (key : K) → Above key ys → lookup (xs ++ ys) key ≡ lookup xs key
  unfolding lookup
  lookup-left [] ys key h = lookup-Above ys key h
  lookup-left ((k, v, w) ∷ xs) ys key h = ground (arith, lookup-left xs ys key h)

  pub remove_entry-left :
      (xs ys : List (Entry K V W)) (key : K)
      → Above key ys
      → remove_entry (xs ++ ys) key ≡ remove_entry xs key ++ ys
  unfolding remove_entry
  remove_entry-left [] ys key h = remove_entry-Above ys key h
  remove_entry-left ((k, v, w) ∷ xs) ys key h = ground (arith, remove_entry-left xs ys key h)

  pub Above-insert_entry :
      (a : K) (xs : List (Entry K V W)) (key : K) (value : V) (weight : W)
      → Lt a key
      → Above a xs
      → Above a (insert_entry xs key value weight)
  unfolding insert_entry
  Above-insert_entry a [] key value weight h above = (h, tt)
  Above-insert_entry a ((k, v, w) ∷ xs) key value weight h above =
      elim (cmp key k)
        as (λ t. Above a (elim t [
          | Ordering.lt ↦ (key, value, weight) ∷ ((k, v, w) ∷ xs)
          | Ordering.eq ↦ (k, value, weight) ∷ xs
          | Ordering.gt ↦ (k, v, w) ∷ insert_entry xs key value weight
        ])) [
          | Ordering.lt ↦ (h, above)
          | Ordering.eq ↦ (above.0, above.1)
          | Ordering.gt ↦ (above.0, Above-insert_entry a xs key value weight h above.1)
        ]

  pub IsSorted-insert_entry :
      (xs : List (Entry K V W)) (key : K) (value : V) (weight : W)
      → IsSorted xs
      → IsSorted (insert_entry xs key value weight)
  unfolding insert_entry
  IsSorted-insert_entry [] key value weight h = (tt, tt)
  IsSorted-insert_entry ((k, v, w) ∷ xs) key value weight h =
      (elim (cmp key k)
          as (λ t.
            cmp key k ≡ t
            → IsSorted (elim t [
              | Ordering.lt ↦ (key, value, weight) ∷ ((k, v, w) ∷ xs)
              | Ordering.eq ↦ (k, value, weight) ∷ xs
              | Ordering.gt ↦ (k, v, w) ∷ insert_entry xs key value weight
            ])) [
              | Ordering.lt ↦ λ e. ((e, Above-trans key k xs e h.0), h)
              | Ordering.eq ↦ λ _. h
              | Ordering.gt ↦ λ e. (
                Above-insert_entry k xs key value weight (o.cmp-gt key k e) h.0,
                IsSorted-insert_entry xs key value weight h.1,
              )
            ])
        refl

  Above-remove_entry :
      (a : K) (xs : List (Entry K V W)) (key : K) → Above a xs → Above a (remove_entry xs key)
  unfolding remove_entry
  Above-remove_entry a [] key above = tt
  Above-remove_entry a ((k, v, w) ∷ xs) key above =
      elim (cmp key k)
        as (λ t. Above a (elim t [ Ordering.eq ↦ xs | _ ↦ (k, v, w) ∷ remove_entry xs key ])) [
          | Ordering.eq ↦ above.1
          | _ ↦ (above.0, Above-remove_entry a xs key above.1)
        ]

  pub IsSorted-remove_entry :
      (xs : List (Entry K V W)) (key : K) → IsSorted xs → IsSorted (remove_entry xs key)
  unfolding remove_entry
  IsSorted-remove_entry [] key h = tt
  IsSorted-remove_entry ((k, v, w) ∷ xs) key h =
      elim (cmp key k)
        as (λ t. IsSorted (elim t [ Ordering.eq ↦ xs | _ ↦ (k, v, w) ∷ remove_entry xs key ])) [
          | Ordering.eq ↦ h.1
          | _ ↦ (Above-remove_entry k xs key h.0, IsSorted-remove_entry xs key h.1)
        ]

  pub insert_entry-at :
      (k : K) (v : V) (w : W) (ys : List (Entry K V W)) (key : K) (value : V) (weight : W)
      → cmp key k ≡ Ordering.eq
      → insert_entry ((k, v, w) ∷ ys) key value weight ≡ (k, value, weight) ∷ ys
  unfolding insert_entry
  insert_entry-at k v w ys key value weight e = rw (e, insert_entry)

  pub insert_entry-after :
      (k : K) (v : V) (w : W) (ys : List (Entry K V W)) (key : K) (value : V) (weight : W)
      → cmp key k ≡ Ordering.gt
      → insert_entry ((k, v, w) ∷ ys) key value weight
        ≡ (k, v, w) ∷ insert_entry ys key value weight
  unfolding insert_entry
  insert_entry-after k v w ys key value weight e = rw (e, insert_entry)

  pub remove_entry-at :
      (k : K) (v : V) (w : W) (ys : List (Entry K V W)) (key : K)
      → cmp key k ≡ Ordering.eq
      → remove_entry ((k, v, w) ∷ ys) key ≡ ys
  unfolding remove_entry
  remove_entry-at k v w ys key e = rw (e, remove_entry)

  pub remove_entry-after :
      (k : K) (v : V) (w : W) (ys : List (Entry K V W)) (key : K)
      → cmp key k ≡ Ordering.gt
      → remove_entry ((k, v, w) ∷ ys) key ≡ (k, v, w) ∷ remove_entry ys key
  unfolding remove_entry
  remove_entry-after k v w ys key e = rw (e, remove_entry)

  pub lookup-at :
      (k : K) (v : V) (w : W) (ys : List (Entry K V W)) (key : K)
      → cmp key k ≡ Ordering.eq
      → lookup ((k, v, w) ∷ ys) key ≡ some v
  unfolding lookup
  lookup-at k v w ys key e = rw (e, lookup)

  pub lookup-after :
      (k : K) (v : V) (w : W) (ys : List (Entry K V W)) (key : K)
      → cmp key k ≡ Ordering.gt
      → lookup ((k, v, w) ∷ ys) key ≡ lookup ys key
  unfolding lookup
  lookup-after k v w ys key e = rw (e, lookup)

  -- A key that equals that of an entry is above what is below it.
  pub Below-eq :
      (key k : K) (xs : List (Entry K V W)) → cmp key k ≡ Ordering.eq → Below k xs → Below key xs
  Below-eq key k xs e below = coe 1 0 (i. Below (o.cmp-eq key k e i) xs) below
