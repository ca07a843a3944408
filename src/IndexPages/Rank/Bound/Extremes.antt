-- ===== src/IndexPages/Rank/Bound/Extremes.antt =====
-- rank.rs: `bound` against the order of the keys: the first entry from a lower bound on, the last up to an upper one.
use editchain.Prelude.{
  ◌≡◌, refl, sym, ap, ◌∙◌, Bool, true, false, Bool-cases, Option, none, some, List, [], ◌∷◌, ◌++◌,
  if◌then◌else◌, ◌⊎◌, inl, inr, All,
}
use editchain.Order.{Ord, cmp, Lt, Ordering-cases}
use editchain.IndexPages.Sorted.{Entry, IsSorted}
use editchain.IndexPages.Rank.{Measure, Link}
use editchain.IndexPages.Rank.Contents.{to_list}
use editchain.IndexPages.Rank.Bound.{
  Bound, not_less, not_greater, less, greater, accepts, bound, first_accepted, last_accepted,
  bound-accepted,
}

module _ {ℓ} {K : Type ℓ} ⦃o : Ord K⦄ where
  -- What it is for a key to meet a bound, by the order alone.
  abbrev pub MeetsLower : Bound K → K → Type 0
  MeetsLower Bound.unbounded k = Unit
  MeetsLower (Bound.included key) k = ¬ Lt k key
  MeetsLower (Bound.excluded key) k = Lt key k

  abbrev pub MeetsUpper : Bound K → K → Type 0
  MeetsUpper Bound.unbounded k = Unit
  MeetsUpper (Bound.included key) k = ¬ Lt key k
  MeetsUpper (Bound.excluded key) k = Lt k key

  accepts-MeetsLower : (b : Bound K) (k : K) → accepts b false k ≡ true → MeetsLower b k
  accepts-MeetsLower Bound.unbounded k h = tt
  accepts-MeetsLower (Bound.included key) k h =
      λ f. let g : false ≡ true = sym (ap not_less f) ∙ h in cc
  accepts-MeetsLower (Bound.excluded key) k h = elim (Ordering-cases (cmp k key)) [
    | inl f ↦ let g : false ≡ true = sym (ap greater f) ∙ h in cc
    | inr (inl f) ↦ o.cmp-gt k key f
    | inr (inr f) ↦ let g : false ≡ true = sym (ap greater f) ∙ h in cc
  ]

  misses-MeetsLower : (b : Bound K) (k : K) → accepts b false k ≡ false → ¬ MeetsLower b k
  misses-MeetsLower Bound.unbounded k h = λ u. cc
  misses-MeetsLower (Bound.included key) k h = λ n. elim (Ordering-cases (cmp k key)) [
    | inl f ↦ n f
    | inr (inl f) ↦ let g : true ≡ false = sym (ap not_less f) ∙ h in cc
    | inr (inr f) ↦ let g : true ≡ false = sym (ap not_less f) ∙ h in cc
  ]
  misses-MeetsLower (Bound.excluded key) k h =
      λ f. let g : true ≡ false = sym (ap greater (o.cmp-lt key k f)) ∙ h in cc

  accepts-MeetsUpper : (b : Bound K) (k : K) → accepts b true k ≡ true → MeetsUpper b k
  accepts-MeetsUpper Bound.unbounded k h = tt
  accepts-MeetsUpper (Bound.included key) k h =
      λ f. let g : false ≡ true = sym (ap not_greater (o.cmp-lt key k f)) ∙ h in cc
  accepts-MeetsUpper (Bound.excluded key) k h = elim (Ordering-cases (cmp k key)) [
    | inl f ↦ f
    | inr (inl f) ↦ let g : false ≡ true = sym (ap less f) ∙ h in cc
    | inr (inr f) ↦ let g : false ≡ true = sym (ap less f) ∙ h in cc
  ]

  misses-MeetsUpper : (b : Bound K) (k : K) → accepts b true k ≡ false → ¬ MeetsUpper b k
  misses-MeetsUpper Bound.unbounded k h = λ u. cc
  misses-MeetsUpper (Bound.included key) k h = λ n. elim (Ordering-cases (cmp k key)) [
    | inl f ↦ let g : true ≡ false = sym (ap not_greater f) ∙ h in cc
    | inr (inl f) ↦ n (o.cmp-gt k key f)
    | inr (inr f) ↦ let g : true ≡ false = sym (ap not_greater f) ∙ h in cc
  ]
  misses-MeetsUpper (Bound.excluded key) k h = λ f. let g : true ≡ false = sym (ap less f) ∙ h in cc

module _ {ℓ κ} {K : Type ℓ} {V : Type κ} where
  -- The key and value of the first, or the last, of the entries whose keys have a property; nothing, if none has it.
  abbrev pub IsFirst : (K → Type 0) → List (Entry K V Measure) → Option (K × V) → Type (ℓ ⊔ κ)
  IsFirst P xs found =
      ((found ≡ none) × All (λ e. ¬ P e.0) xs)
      ⊎ ((e : Entry K V Measure) × (before : List (Entry K V Measure)) × (after : List
            (Entry K V Measure))
          × (found ≡ some (e.0, e.1))
          × (xs ≡ before ++ (e ∷ after))
          × P e.0
          × All (λ e. ¬ P e.0) before)

  abbrev pub IsLast : (K → Type 0) → List (Entry K V Measure) → Option (K × V) → Type (ℓ ⊔ κ)
  IsLast P xs found =
      ((found ≡ none) × All (λ e. ¬ P e.0) xs)
      ⊎ ((e : Entry K V Measure) × (before : List (Entry K V Measure)) × (after : List
            (Entry K V Measure))
          × (found ≡ some (e.0, e.1))
          × (xs ≡ before ++ (e ∷ after))
          × P e.0
          × All (λ e. ¬ P e.0) after)

module _ {ℓ κ} {K : Type ℓ} {V : Type κ} ⦃o : Ord K⦄ where
  first_accepted-IsFirst :
      (b : Bound K) (xs : List (Entry K V Measure))
      → IsFirst (MeetsLower b) xs (first_accepted b xs none)
  unfolding first_accepted
  first_accepted-IsFirst b [] = inl (refl, tt)
  first_accepted-IsFirst b ((k, v, w) ∷ rest) =
      let later = first_accepted b rest none in
      let test : Bool → Option (K × V) = λ t. if t then some (k, v) else later in
      elim (Bool-cases (accepts b false k)) [
        | inl h ↦ inr ((k, v, w), [], rest, ap test h, refl, accepts-MeetsLower b k h, tt)
        | inr h ↦ elim (first_accepted-IsFirst b rest) [
          | inl (e, misses) ↦ inl (ap test h ∙ e, (misses-MeetsLower b k h, misses))
          | inr (found, before, after, e, parts, meets, misses) ↦ inr (
            found,
            (k, v, w) ∷ before,
            after,
            ap test h ∙ e,
            ap (λ ys. (k, v, w) ∷ ys) parts,
            meets,
            (misses-MeetsLower b k h, misses),
          )
        ]
      ]

  -- The walk of `last_accepted` keeps what it has, or ends with the last entry that meets the bound.
  last_accepted-cases :
      (b : Bound K) (xs : List (Entry K V Measure)) (result : Option (K × V))
      → ((last_accepted b xs result ≡ result) × All (λ e. ¬ MeetsUpper b e.0) xs)
        ⊎ ((e : Entry K V Measure) × (before : List (Entry K V Measure)) × (after : List
              (Entry K V Measure))
            × (last_accepted b xs result ≡ some (e.0, e.1))
            × (xs ≡ before ++ (e ∷ after))
            × MeetsUpper b e.0
            × All (λ e. ¬ MeetsUpper b e.0) after)
  unfolding last_accepted
  last_accepted-cases b [] result = inl (refl, tt)
  last_accepted-cases b ((k, v, w) ∷ rest) result =
      let test : Bool → Option (K × V) = λ t. if t then some (k, v) else result in
      elim (last_accepted-cases b rest (test (accepts b true k))) [
        | inr (found, before, after, e, parts, meets, misses) ↦
            inr
              (found, (k, v, w) ∷ before, after, e, ap (λ ys. (k, v, w) ∷ ys) parts, meets, misses)
        | inl (e, misses) ↦ elim (Bool-cases (accepts b true k)) [
          | inl h ↦ inr ((k, v, w), [], rest, e ∙ ap test h, refl, accepts-MeetsUpper b k h, misses)
          | inr h ↦ inl (e ∙ ap test h, (misses-MeetsUpper b k h, misses))
        ]
      ]

  -- In a tree whose keys increase, `bound` for a lower bound is the first of all entries whose key meets it: any key
  -- where there is no bound, one that is not below an included key, one above an excluded key. For an upper bound it is
  -- the last entry whose key meets it: any, one not above an included key, one below an excluded key. It is nothing
  -- exactly where no entry meets the bound.
  pub bound_lem :
      (t : Link K V) (b : Bound K)
      → IsSorted (to_list t)
      → IsFirst (MeetsLower b) (to_list t) (bound t b false)
        × IsLast (MeetsUpper b) (to_list t) (bound t b true)
  bound_lem t b h =
      let (first, last) = bound-accepted t b h in
      (
        coe 1 0 (i. IsFirst (MeetsLower b) (to_list t) (first i))
            (first_accepted-IsFirst b (to_list t)),
        coe 1 0 (i. IsLast (MeetsUpper b) (to_list t) (last i))
            (last_accepted-cases b (to_list t) none),
      )
