-- ===== src/Sync/Action/Rules.antt =====
-- Rules for what a method returns, one for each way of building methods.
use editchain.Prelude.{◌≡◌, refl, Bool, true, false, Option, none, some, Result, ok, err, stuck}
use editchain.Sync.Action.{Action, resume, or_raise, raise_if, lift, widen, Returns, holds}

pub pure-Returns {ℓ κ μ ν} :
    {S : Type ℓ} {E : Type κ} {A : Type μ} (s : S) (a : A) {T : S → A → Type ν}
    → T s a
    → Returns {E = E} (s, ok a) T
pure-Returns s a h = holds h

module _ {ℓ κ μ} {S : Type ℓ} {E : Type κ} {A : Type μ} where
  -- A call, and the rest of the method from each state and result that it returns.
  pub resume-Returns {ν ξ ζ} :
      {B : Type ν} (x : S × Result E A) {Q : S → A → Type ξ} (f : A → Action S E B)
      {T : S → B → Type ζ}
      → Returns x Q
      → ((s : S) (a : A) → Q s a → Returns (f a s) T)
      → Returns (resume f x) T
  unfolding resume
  resume-Returns (s, ok a) f (holds h) k = k s a h
  resume-Returns (s, err e) f h k = holds tt
  resume-Returns (s, stuck) f h k = holds tt

  pub Returns-weaken {ν ξ} :
      (x : S × Result E A) {Q : S → A → Type ν} {T : S → A → Type ξ}
      → Returns x Q
      → ((s : S) (a : A) → Q s a → T s a)
      → Returns x T
  Returns-weaken (s, ok a) (holds h) k = holds (k s a h)
  Returns-weaken (s, err e) h k = holds tt
  Returns-weaken (s, stuck) h k = holds tt

  -- What holds of the state however the method ends holds of it when the method returns.
  pub Returns-state {ν} : (x : S × Result E A) (P : S → Type ν) → P x.0 → Returns x (λ s a. P s)
  Returns-state (s, ok a) P h = holds h
  Returns-state (s, err e) P h = holds tt
  Returns-state (s, stuck) P h = holds tt

  pub Returns-both {ν ξ} :
      (x : S × Result E A) {Q : S → A → Type ν} {T : S → A → Type ξ}
      → Returns x Q
      → Returns x T
      → Returns x (λ s a. Q s a × T s a)
  Returns-both (s, ok a) (holds h) (holds k) = holds (h, k)
  Returns-both (s, err e) h k = holds tt
  Returns-both (s, stuck) h k = holds tt

  -- `?` on an option and on a result.
  pub or_raise-Returns {ν ξ} :
      {B : Type ξ} (o : Option A) (e : E) (s : S) (f : A → Action S E B) {T : S → B → Type ν}
      → ((a : A) → o ≡ some a → Returns (f a s) T)
      → Returns (resume f (or_raise o e s)) T
  unfolding resume or_raise
  or_raise-Returns none e s f h = holds tt
  or_raise-Returns (some a) e s f h = h a refl

  pub lift-Returns {ν ξ} :
      {B : Type ξ} (r : Result E A) (s : S) (f : A → Action S E B) {T : S → B → Type ν}
      → ((a : A) → r ≡ ok a → Returns (f a s) T)
      → Returns (resume f (lift r s)) T
  unfolding resume lift
  lift-Returns (ok a) s f h = h a refl
  lift-Returns (err e) s f h = holds tt
  lift-Returns stuck s f h = holds tt

  -- A method of a field, and the rest.
  pub widen-Returns {ν ξ ζ θ τ} :
      {W : Type ν} {F : Type ξ} {B : Type ζ} (f : S → W) (g : E → F) (x : S × Result E A)
      {Q : S → A → Type θ} (k : A → Action W F B) {T : W → B → Type τ}
      → Returns x Q
      → ((s : S) (a : A) → Q s a → Returns (k a (f s)) T)
      → Returns (resume k (widen f g x)) T
  unfolding resume widen
  widen-Returns f g (s, ok a) k (holds h) j = j s a h
  widen-Returns f g (s, err e) k h j = holds tt
  widen-Returns f g (s, stuck) k h j = holds tt

pub raise_if-Returns {ℓ κ ν ξ} :
    {S : Type ℓ} {E : Type κ} {B : Type ξ} (b : Bool) (e : E) (s : S) (f : Unit {0} → Action S E B)
    {T : S → B → Type ν}
    → (b ≡ false → Returns (f tt s) T)
    → Returns (resume f (raise_if b e s)) T
unfolding resume raise_if
raise_if-Returns true e s f h = holds tt
raise_if-Returns false e s f h = h refl

-- The rest after a step that cannot fail.
pub ok-Returns {ℓ κ μ ν ξ} :
    {S : Type ℓ} {E : Type κ} {A : Type μ} {B : Type ξ} (s : S) (a : A) (f : A → Action S E B)
    {T : S → B → Type ν}
    → Returns (f a s) T
    → Returns (resume f (s, ok a)) T
unfolding resume
ok-Returns s a f h = h

-- A guard, and a method of a field, that end a method.
pub raise_if-end {ℓ κ ν} :
    {S : Type ℓ} {E : Type κ} (b : Bool) (e : E) (s : S) {T : S → Unit {0} → Type ν}
    → T s tt
    → Returns (raise_if b e s) T
unfolding raise_if
raise_if-end true e s h = holds tt
raise_if-end false e s h = holds h

pub widen-end {ℓ κ μ ν ξ θ} :
    {S : Type ℓ} {E : Type κ} {A : Type μ} {W : Type ν} {F : Type ξ} (f : S → W) (g : E → F)
    (x : S × Result E A) {T : W → A → Type θ}
    → Returns x (λ s a. T (f s) a)
    → Returns (widen f g x) T
unfolding widen
widen-end f g (s, ok a) (holds h) = holds h
widen-end f g (s, err e) h = holds tt
widen-end f g (s, stuck) h = holds tt

-- What a method comes to, step by step.
module _ {ℓ κ μ ν} {S : Type ℓ} {E : Type κ} {A : Type μ} {B : Type ν} where
  pub resume-ok : (s : S) (a : A) (f : A → Action S E B) → resume f (s, ok a) ≡ f a s
  unfolding resume
  resume-ok s a f = refl

  pub resume-eq :
      (x : S × Result E A) (s : S) (a : A) (f : A → Action S E B)
      → x ≡ (s, ok a)
      → resume f x ≡ f a s
  unfolding resume
  resume-eq x s a f h i = resume f (h i)

  pub or_raise-some :
      (o : Option A) (e : E) (s : S) (f : A → Action S E B) (a : A)
      → o ≡ some a
      → resume f (or_raise o e s) ≡ f a s
  unfolding resume or_raise
  or_raise-some o e s f a h i = resume f (or_raise (h i) e s)

pub raise_if-false {ℓ κ ν} :
    {S : Type ℓ} {E : Type κ} {B : Type ν} (b : Bool) (e : E) (s : S) (f : Unit {0} → Action S E B)
    → b ≡ false
    → resume f (raise_if b e s) ≡ f tt s
unfolding resume raise_if
raise_if-false b e s f h i = resume f (raise_if (h i) e s)

-- What a method returned satisfies what it promises.
pub returned {ℓ κ μ ν} :
    {S : Type ℓ} {E : Type κ} {A : Type μ} {x : S × Result E A} {s : S} {a : A} {T : S → A → Type ν}
    → x ≡ (s, ok a)
    → Returns x T
    → T s a
returned {E = E} {s = s} {a = a} {T = T} h r = opened (coe 0 1 (i. Returns (h i) T) r)
  where
    opened : Returns {E = E} (s, ok a) T → T s a
    opened (holds k) = k
