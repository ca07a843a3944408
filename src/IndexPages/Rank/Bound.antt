-- ===== src/IndexPages/Rank/Bound.antt =====
-- rank.rs: `bound`, the first key that meets a lower bound or the last that meets an upper one.
use Prim.Native.Nat.{Ordering}
pub mod Extremes
use editchain.Prelude.{
  ◌≡◌, refl, sym, ap, ◌∙◌, Bool, true, false, Bool-cases, Option, none, some, List, [], ◌∷◌, ◌++◌,
  if◌then◌else◌, inl, inr,
}
use editchain.Order.{Ord, cmp, Lt, Ordering-cases}
use editchain.IndexPages.Sorted.{Entry, Below, Above, IsSorted}
use editchain.IndexPages.Rank.{Measure, Link, empty, node}
use editchain.IndexPages.Rank.Contents.{to_list, IsSorted-node}

pub data Bound {ℓ} (K : Type ℓ) : Type ℓ where
  unbounded : Bound K
  included excluded : K → Bound K

abbrev pub not_less : Ordering → Bool
not_less Ordering.lt = false
not_less _ = true

abbrev pub not_greater : Ordering → Bool
not_greater Ordering.gt = false
not_greater _ = true

abbrev pub less : Ordering → Bool
less Ordering.lt = true
less _ = false

abbrev pub greater : Ordering → Bool
greater Ordering.gt = true
greater _ = false

module _ {ℓ} {K : Type ℓ} ⦃o : Ord K⦄ where
  -- `accepted`: whether a node's key meets the bound.
  abbrev pub accepts : Bound K → Bool → K → Bool
  accepts unbounded reverse k = true
  accepts (included key) true k = not_greater (cmp k key)
  accepts (included key) false k = not_less (cmp k key)
  accepts (excluded key) true k = less (cmp k key)
  accepts (excluded key) false k = greater (cmp k key)

  -- A key below one that does not meet a lower bound does not meet it, ...
  accepts-below :
      (b : Bound K) (a k : K) → Lt a k → accepts b false k ≡ false → accepts b false a ≡ false
  accepts-below unbounded a k h e = cc
  accepts-below (included key) a k h e = elim (Ordering-cases (cmp k key)) [
    | inl f ↦ ap not_less (o.cmp_trans a k key h f)
    | inr (inl f) ↦ let g : true ≡ false = sym (ap not_less f) ∙ e in cc
    | inr (inr f) ↦ let g : true ≡ false = sym (ap not_less f) ∙ e in cc
  ]
  accepts-below (excluded key) a k h e = elim (Ordering-cases (cmp k key)) [
    | inl f ↦ ap greater (o.cmp_trans a k key h f)
    | inr (inl f) ↦ let g : true ≡ false = sym (ap greater f) ∙ e in cc
    | inr (inr f) ↦ ap greater (coe 0 1 (i. cmp a (o.cmp-eq k key f i) ≡ Ordering.lt) h)
  ]

  -- ... and one above a key that does not meet an upper bound does not either.
  accepts-above :
      (b : Bound K) (k a : K) → Lt k a → accepts b true k ≡ false → accepts b true a ≡ false
  accepts-above unbounded k a h e = cc
  accepts-above (included key) k a h e = elim (Ordering-cases (cmp k key)) [
    | inl f ↦ let g : true ≡ false = sym (ap not_greater f) ∙ e in cc
    | inr (inl f) ↦ ap not_greater (o.cmp-lt key a (o.cmp_trans key k a (o.cmp-gt k key f) h))
    | inr (inr f) ↦ let g : true ≡ false = sym (ap not_greater f) ∙ e in cc
  ]
  accepts-above (excluded key) k a h e = elim (Ordering-cases (cmp k key)) [
    | inl f ↦ let g : true ≡ false = sym (ap less f) ∙ e in cc
    | inr (inl f) ↦ ap less (o.cmp-lt key a (o.cmp_trans key k a (o.cmp-gt k key f) h))
    | inr (inr f) ↦
        ap less (o.cmp-lt key a (coe 0 1 (i. cmp (o.cmp-eq k key f i) a ≡ Ordering.lt) h))
  ]

abbrev same_bool : Bool → Bool → Bool
same_bool true b = b
same_bool false true = false
same_bool false false = true

module _ {ℓ κ} {K : Type ℓ} {V : Type κ} ⦃o : Ord K⦄ where
  -- The loop of `bound`, over its `result` and `next`.
  unfoldable pub bound_from : Link K V → Bound K → Bool → Option (K × V) → Option (K × V)
  bound_from empty b reverse result = result
  bound_from (node k v w s h left right) b reverse result =
      let found = if accepts b reverse k then some (k, v) else result in
      let in_right = bound_from right b reverse found in
      let in_left = bound_from left b reverse found in
      if same_bool (accepts b reverse k) reverse then in_right else in_left

  unfoldable pub bound : Link K V → Bound K → Bool → Option (K × V)
  bound root b reverse = bound_from root b reverse none

  -- The first, or the last, entry of a list whose key meets the bound.
  unfoldable pub first_accepted :
      Bound K → List (Entry K V Measure) → Option (K × V) → Option (K × V)
  first_accepted b [] result = result
  first_accepted b ((k, v, w) ∷ rest) result =
      let later = first_accepted b rest result in if accepts b false k then some (k, v) else later

  unfoldable pub last_accepted :
      Bound K → List (Entry K V Measure) → Option (K × V) → Option (K × V)
  last_accepted b [] result = result
  last_accepted b ((k, v, w) ∷ rest) result =
      last_accepted b rest (if accepts b true k then some (k, v) else result)

  first_accepted-append :
      (b : Bound K) (xs ys : List (Entry K V Measure)) (result : Option (K × V))
      → first_accepted b (xs ++ ys) result ≡ first_accepted b xs (first_accepted b ys result)
  unfolding first_accepted
  first_accepted-append b [] ys result = refl
  first_accepted-append b ((k, v, w) ∷ rest) ys result =
      ap (λ later. if accepts b false k then some (k, v) else later)
        (first_accepted-append b rest ys result)

  last_accepted-append :
      (b : Bound K) (xs ys : List (Entry K V Measure)) (result : Option (K × V))
      → last_accepted b (xs ++ ys) result ≡ last_accepted b ys (last_accepted b xs result)
  unfolding last_accepted
  last_accepted-append b [] ys result = refl
  last_accepted-append b ((k, v, w) ∷ rest) ys result =
      last_accepted-append b rest ys (if accepts b true k then some (k, v) else result)

  first_accepted-Below :
      (b : Bound K) (k : K) (xs : List (Entry K V Measure)) (result : Option (K × V))
      → Below k xs
      → accepts b false k ≡ false
      → first_accepted b xs result ≡ result
  unfolding first_accepted
  first_accepted-Below b k [] result h e = refl
  first_accepted-Below b k ((k', v', w') ∷ rest) result h e =
      ap (λ t. if t then some (k', v') else first_accepted b rest result)
        (accepts-below b k' k h.0 e)
      ∙ first_accepted-Below b k rest result h.1 e

  last_accepted-Above :
      (b : Bound K) (k : K) (xs : List (Entry K V Measure)) (result : Option (K × V))
      → Above k xs
      → accepts b true k ≡ false
      → last_accepted b xs result ≡ result
  unfolding last_accepted
  last_accepted-Above b k [] result h e = refl
  last_accepted-Above b k ((k', v', w') ∷ rest) result h e =
      ap (λ t. last_accepted b rest (if t then some (k', v') else result))
        (accepts-above b k k' h.0 e)
      ∙ last_accepted-Above b k rest result h.1 e

  -- A turn of the loop, by whether the node's key meets the bound.
  abbrev turn :
      Bool → Link K V → Link K V → K → V → Bound K → Bool → Option (K × V) → Option (K × V)
  turn accepted left right k v b reverse result =
      if same_bool accepted reverse
      then bound_from right b reverse (if accepted then some (k, v) else result)
      else bound_from left b reverse (if accepted then some (k, v) else result)

  bound_from-first :
      (t : Link K V) (b : Bound K) (result : Option (K × V))
      → IsSorted (to_list t)
      → bound_from t b false result ≡ first_accepted b (to_list t) result
  unfolding to_list bound_from first_accepted
  bound_from-first empty b result h = refl
  bound_from-first (node k v w s h' l r) b result h =
      let (sl, below, above, sr) = IsSorted-node k v w s h' l r h in
      let rest = first_accepted b (to_list r) result in
      let whole : first_accepted b (to_list (node k v w s h' l r)) result
          ≡ first_accepted b (to_list l) (if accepts b false k then some (k, v) else rest) =
        first_accepted-append b (to_list l) ((k, v, w) ∷ to_list r) result in
      elim (Bool-cases (accepts b false k)) [
        | inl e ↦
            ap (λ t. turn t l r k v b false result) e
            ∙ bound_from-first l b (some (k, v)) sl
            ∙ sym
                (whole ∙ ap (λ t. first_accepted b (to_list l) (if t then some (k, v) else rest)) e)
        | inr e ↦
            ap (λ t. turn t l r k v b false result) e
            ∙ bound_from-first r b result sr
            ∙ sym (
                whole
                ∙ ap (λ t. first_accepted b (to_list l) (if t then some (k, v) else rest)) e
                ∙ first_accepted-Below b k (to_list l) rest below e)
      ]

  bound_from-last :
      (t : Link K V) (b : Bound K) (result : Option (K × V))
      → IsSorted (to_list t)
      → bound_from t b true result ≡ last_accepted b (to_list t) result
  unfolding to_list bound_from last_accepted
  bound_from-last empty b result h = refl
  bound_from-last (node k v w s h' l r) b result h =
      let (sl, below, above, sr) = IsSorted-node k v w s h' l r h in
      let before = last_accepted b (to_list l) result in
      let whole : last_accepted b (to_list (node k v w s h' l r)) result
          ≡ last_accepted b (to_list r) (if accepts b true k then some (k, v) else before) =
        last_accepted-append b (to_list l) ((k, v, w) ∷ to_list r) result in
      elim (Bool-cases (accepts b true k)) [
        | inl e ↦
            ap (λ t. turn t l r k v b true result) e
            ∙ bound_from-last r b (some (k, v)) sr
            ∙ sym (
                whole ∙ ap (λ t. last_accepted b (to_list r) (if t then some (k, v) else before)) e)
        | inr e ↦
            ap (λ t. turn t l r k v b true result) e
            ∙ bound_from-last l b result sl
            ∙ sym (
                whole
                ∙ ap (λ t. last_accepted b (to_list r) (if t then some (k, v) else before)) e
                ∙ last_accepted-Above b k (to_list r) before above e)
      ]

  pub bound-accepted :
      (t : Link K V) (b : Bound K)
      → IsSorted (to_list t)
      → (bound t b false ≡ first_accepted b (to_list t) none)
        × (bound t b true ≡ last_accepted b (to_list t) none)
  unfolding bound
  bound-accepted t b h = (bound_from-first t b none h, bound_from-last t b none h)
