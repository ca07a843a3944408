-- ===== src/Collections/Map.antt =====
-- `BTreeMap<K, V>` and `BTreeSet<T>`, by their contents in increasing order of the keys. A set is a map to the unit
-- type, as it is in the standard library.
use Prim.Native.Nat.{Ordering}
use editchain.Prelude.{
  ◌+◌, ◌≤◌, length, if◌then◌else◌, ◌≡◌, ◌≢◌, refl, sym, ap₂, ◌∙◌, Bool, true, false, Option, none,
  some, List, [], ◌∷◌, arith, inl, inr,
}
use editchain.Order.{Ord, cmp, Lt, Ordering-cases}

-- A map's entries.
abbrev pub Map {ℓ κ} : Type ℓ → Type κ → Type (ℓ ⊔ κ)
Map K V = List (K × V)

abbrev pub Set {ℓ} : Type ℓ → Type ℓ
Set K = Map K (Unit {0})

-- Whether two keys are equal.
abbrev pub same {ℓ} : {K : Type ℓ} ⦃o : Ord K⦄ → K → K → Bool
same a b = elim (cmp a b) [ Ordering.eq ↦ true | _ ↦ false ]

pub same-eq {ℓ} : {K : Type ℓ} ⦃o : Ord K⦄ → (a b : K) → cmp a b ≡ Ordering.eq → same a b ≡ true
same-eq a b e = rw (e, same)

pub same-ne {ℓ} : {K : Type ℓ} ⦃o : Ord K⦄ → (a b : K) → cmp a b ≢ Ordering.eq → same a b ≡ false
same-ne a b h = ground (arith, h)

pub Lt-ne-eq {ℓ} : {K : Type ℓ} ⦃o : Ord K⦄ → (a b : K) → Lt a b → cmp a b ≢ Ordering.eq
Lt-ne-eq a b h e = let f : Ordering.lt ≡ Ordering.eq = sym h ∙ e in cc

pub gt-ne-eq {ℓ} :
    {K : Type ℓ} ⦃o : Ord K⦄ → (a b : K) → cmp a b ≡ Ordering.gt → cmp a b ≢ Ordering.eq
gt-ne-eq a b h e = let f : Ordering.gt ≡ Ordering.eq = sym h ∙ e in cc

pub same→eq {ℓ} : {K : Type ℓ} ⦃o : Ord K⦄ → (a b : K) → same a b ≡ true → a ≡ b
same→eq ⦃o⦄ a b h = elim (Ordering-cases (cmp a b)) [
  | inl e ↦ let f : false ≡ true = rw (e, same) at h in cc
  | inr (inl e) ↦ let f : false ≡ true = rw (e, same) at h in cc
  | inr (inr e) ↦ o.cmp-eq a b e
]

module _ {ℓ κ} {K : Type ℓ} {V : Type κ} ⦃o : Ord K⦄ where
  unfoldable pub find : Map K V → K → Option V
  find [] key = none
  find ((k, v) ∷ rest) key = elim (cmp key k) [ Ordering.eq ↦ some v | _ ↦ find rest key ]

  -- `insert`: the value of a key that is there is replaced, its key kept.
  unfoldable pub put : Map K V → K → V → Map K V
  put [] key value = (key, value) ∷ []
  put ((k, v) ∷ rest) key value = elim (cmp key k) [
    | Ordering.lt ↦ (key, value) ∷ ((k, v) ∷ rest)
    | Ordering.eq ↦ (k, value) ∷ rest
    | Ordering.gt ↦ (k, v) ∷ put rest key value
  ]

  -- `remove`
  unfoldable pub erase : Map K V → K → Map K V
  erase [] key = []
  erase ((k, v) ∷ rest) key = elim (cmp key k) [ Ordering.eq ↦ rest | _ ↦ (k, v) ∷ erase rest key ]

  abbrev pub IsAbove : K → Map K V → Type 0
  IsAbove key [] = Unit
  IsAbove key ((k, v) ∷ rest) = Lt key k × IsAbove key rest

  -- The keys increase.
  abbrev pub IsMap : Map K V → Type 0
  IsMap [] = Unit
  IsMap ((k, v) ∷ rest) = IsAbove k rest × IsMap rest

  pub find-put_same : (m : Map K V) (key : K) (value : V) → find (put m key value) key ≡ some value
  unfolding find put
  find-put_same [] key value = rw (o.cmp_refl key, find)
  find-put_same ((k, v) ∷ rest) key value =
      ground (arith, o.cmp_refl key, find-put_same rest key value)

  pub find-put_other :
      (m : Map K V) (key : K) (value : V) (other : K)
      → cmp other key ≢ Ordering.eq
      → find (put m key value) other ≡ find m other
  unfolding find put
  find-put_other [] key value other h = ground (arith, h)
  find-put_other ((k, v) ∷ rest) key value other h =
      ground (arith, h, o.cmp-eq key k, find-put_other rest key value other h)

  IsAbove-trans : (a b : K) (m : Map K V) → Lt a b → IsAbove b m → IsAbove a m
  IsAbove-trans a b [] h above = tt
  IsAbove-trans a b ((k, v) ∷ rest) h above =
      (o.cmp_trans a b k h above.0, IsAbove-trans a b rest h above.1)

  IsAbove-put :
      (a : K) (m : Map K V) (key : K) (value : V)
      → Lt a key
      → IsAbove a m
      → IsAbove a (put m key value)
  unfolding put
  IsAbove-put a [] key value h above = (h, tt)
  IsAbove-put a ((k, v) ∷ rest) key value h above =
      elim (cmp key k)
        as (λ t. IsAbove a (elim t [
          | Ordering.lt ↦ (key, value) ∷ ((k, v) ∷ rest)
          | Ordering.eq ↦ (k, value) ∷ rest
          | Ordering.gt ↦ (k, v) ∷ put rest key value
        ])) [
          | Ordering.lt ↦ (h, above)
          | Ordering.eq ↦ above
          | Ordering.gt ↦ (above.0, IsAbove-put a rest key value h above.1)
        ]

  pub put-IsMap : (m : Map K V) (key : K) (value : V) → IsMap m → IsMap (put m key value)
  unfolding put
  put-IsMap [] key value h = (tt, tt)
  put-IsMap ((k, v) ∷ rest) key value h =
      (elim (cmp key k)
          as (λ t.
            cmp key k ≡ t
            → IsMap (elim t [
              | Ordering.lt ↦ (key, value) ∷ ((k, v) ∷ rest)
              | Ordering.eq ↦ (k, value) ∷ rest
              | Ordering.gt ↦ (k, v) ∷ put rest key value
            ])) [
              | Ordering.lt ↦ λ e. ((e, IsAbove-trans key k rest e h.0), h)
              | Ordering.eq ↦ λ _. h
              | Ordering.gt ↦ λ e. (
                IsAbove-put k rest key value (o.cmp-gt key k e) h.0,
                put-IsMap rest key value h.1,
              )
            ])
        refl

  pub find-above : (m : Map K V) (key : K) → IsAbove key m → find m key ≡ none
  unfolding find
  find-above [] key h = refl
  find-above ((k, v) ∷ rest) key h = ground (arith, h.0, find-above rest key h.1)

  pub find-head : (k : K) (v : V) (rest : Map K V) → find ((k, v) ∷ rest) k ≡ some v
  unfolding find
  find-head k v rest = rw (o.cmp_refl k, find)

  pub find-tail :
      (k : K) (v : V) (rest : Map K V) (key : K)
      → cmp key k ≢ Ordering.eq
      → find ((k, v) ∷ rest) key ≡ find rest key
  unfolding find
  find-tail k v rest key h = ground (arith, h)

  -- A key of the first map, below every key of the second, is what tells them apart.
  differ :
      (k : K) (v : V) (m n : Map K V)
      → ((key : K) → find ((k, v) ∷ m) key ≡ find n key)
      → IsAbove k n
      → ⊥
  differ k v m n h above =
      let e : none ≡ some v = sym (find-above n k above) ∙ sym (h k) ∙ find-head k v m in cc

  tails :
      (k : K) (v v' : V) (m n : Map K V)
      → ((key : K) → find ((k, v) ∷ m) key ≡ find ((k, v') ∷ n) key)
      → IsAbove k m
      → IsAbove k n
      → (key : K) → find m key ≡ find n key
  tails k v v' m n h am an key = elim (Ordering-cases (cmp key k)) [
    | inl e ↦ step (λ f. let g : Ordering.lt ≡ Ordering.eq = sym e ∙ f in cc)
    | inr (inl e) ↦ step (λ f. let g : Ordering.gt ≡ Ordering.eq = sym e ∙ f in cc)
    | inr (inr e) ↦
        coe 1 0 (i. find m (o.cmp-eq key k e i) ≡ find n (o.cmp-eq key k e i))
          (find-above m k am ∙ sym (find-above n k an))
  ]
    where
      step : cmp key k ≢ Ordering.eq → find m key ≡ find n key
      step f = sym (find-tail k v m key f) ∙ h key ∙ find-tail k v' n key f

  head_ext :
      (k : K) (v v' : V) (m n : Map K V)
      → IsAbove k m
      → IsAbove k n
      → ((key : K) → find ((k, v) ∷ m) key ≡ find ((k, v') ∷ n) key)
      → (((key : K) → find m key ≡ find n key) → m ≡ n)
      → ((k, v) ∷ m) ≡ ((k, v') ∷ n)
  head_ext k v v' m n am an h rec =
      let e : some v ≡ some v' = sym (find-head k v m) ∙ h k ∙ find-head k v' n in
      let f : v ≡ v' = cc in ap₂ (λ x xs. (k, x) ∷ xs) f (rec (tails k v v' m n h am an))

  -- Two maps that find the same are the same.
  pub find_ext : (m n : Map K V) → IsMap m → IsMap n → ((key : K) → find m key ≡ find n key) → m ≡ n
  find_ext [] [] hm hn h = refl
  find_ext ((k, v) ∷ m) [] hm hn h = absurd (differ k v m [] h tt)
  find_ext [] ((k, v) ∷ n) hm hn h = absurd (differ k v n [] (λ key. sym (h key)) tt)
  find_ext ((k, v) ∷ m) ((k', v') ∷ n) hm hn h = elim (Ordering-cases (cmp k k')) [
    | inl e ↦ absurd (differ k v m ((k', v') ∷ n) h (e, IsAbove-trans k k' n e hn.0))
    | inr (inl e) ↦ absurd (
        differ k' v' n ((k, v) ∷ m) (λ key. sym (h key))
          (o.cmp-gt k k' e, IsAbove-trans k' k m (o.cmp-gt k k' e) hm.0))
    | inr (inr e) ↦
        coe 0 1
          (i.
            ((key : K) → find ((k, v) ∷ m) key ≡ find ((o.cmp-eq k k' e i, v') ∷ n) key)
            → IsAbove (o.cmp-eq k k' e i) n
            → ((k, v) ∷ m) ≡ ((o.cmp-eq k k' e i, v') ∷ n))
          (λ h' above. head_ext k v v' m n hm.0 above h' (find_ext m n hm.1 hn.1)) h hn.0
  ]

  pub find-put :
      (m : Map K V) (key : K) (value : V) (other : K)
      → find (put m key value) other ≡ (if same other key then some value else find m other)
  find-put m key value other = elim (Ordering-cases (cmp other key)) [
    | inl e ↦
        rw (e, same)
          (find-put_other m key value other
            (λ f. let g : Ordering.lt ≡ Ordering.eq = sym e ∙ f in cc))
    | inr (inl e) ↦
        rw (e, same)
          (find-put_other m key value other
            (λ f. let g : Ordering.gt ≡ Ordering.eq = sym e ∙ f in cc))
    | inr (inr e) ↦
        rw (e, same)
          (coe 1 0 (i. find (put m key value) (o.cmp-eq other key e i) ≡ some value)
            (find-put_same m key value))
  ]

  pub length-put :
      (m : Map K V) (key : K) (value : V)
      → find m key ≡ none
      → length (put m key value) ≡ length m + 1
  unfolding find put
  length-put [] key value h = refl
  length-put ((k, v) ∷ rest) key value h = ground (arith, length-put rest key value)

  pub length-put_le : (m : Map K V) (key : K) (value : V) → length m ≤ length (put m key value)
  unfolding put
  length-put_le [] key value = omega arith
  length-put_le ((k, v) ∷ rest) key value = ground (arith, length-put_le rest key value)
