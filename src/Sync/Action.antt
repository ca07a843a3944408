-- ===== src/Sync/Action.antt =====
-- `&mut self` methods that return `io::Result`: a state, and a result. The state comes back after an error too, as what
-- was written stays written.
use editchain.Prelude.{◌≡◌, Bool, true, false, Option, none, some, Result, ok, err, stuck}
pub mod Rules

abbrev pub Action {ℓ κ μ} : Type ℓ → Type κ → Type μ → Type (ℓ ⊔ κ ⊔ μ)
Action S E A = S → S × Result E A

-- The rest of a method, after a call.
unfoldable pub resume {ℓ κ μ ν} :
    {S : Type ℓ} {E : Type κ} {A : Type μ} {B : Type ν}
    → (A → Action S E B)
    → S × Result E A
    → S × Result E B
resume f (s, ok a) = f a s
resume f (s, err e) = (s, err e)
resume f (s, stuck) = (s, stuck)

infixl 5 ◌>>=◌ ◌>>◌
abbrev pub ◌>>=◌ {ℓ κ μ ν} :
    {S : Type ℓ} {E : Type κ} {A : Type μ} {B : Type ν}
    → Action S E A
    → (A → Action S E B)
    → Action S E B
◌>>=◌ m f s = resume f (m s)

abbrev pub ◌>>◌ {ℓ κ ν} :
    {S : Type ℓ} {E : Type κ} {B : Type ν} → Action S E (Unit {0}) → Action S E B → Action S E B
m >> k = m >>= λ _. k

module _ {ℓ κ μ} {S : Type ℓ} {E : Type κ} {A : Type μ} where
  abbrev pub pure : A → Action S E A
  pure a s = (s, ok a)

  abbrev pub raise : E → Action S E A
  raise e s = (s, err e)

  unfoldable pub or_raise : Option A → E → Action S E A
  or_raise none e = raise e
  or_raise (some a) e = pure a

  abbrev pub gets : (S → A) → Action S E A
  gets f s = (s, ok (f s))

  -- `result?`
  unfoldable pub lift : Result E A → Action S E A
  lift r s = (s, r)

module _ {ℓ κ} {S : Type ℓ} {E : Type κ} where
  abbrev pub modify : (S → S) → Action S E (Unit {0})
  modify f s = (f s, ok tt)

  -- `if b { return Err(e) }`
  unfoldable pub raise_if : Bool → E → Action S E (Unit {0})
  raise_if true e = raise e
  raise_if false e = pure tt

-- What a call of a part of the state has done to the whole.
unfoldable pub widen {ℓ κ μ ν ξ} :
    {S : Type ℓ} {T : Type κ} {E : Type μ} {F : Type ν} {A : Type ξ}
    → (T → S)
    → (E → F)
    → T × Result E A
    → S × Result F A
widen f g (t, ok a) = (f t, ok a)
widen f g (t, err e) = (f t, err (g e))
widen f g (t, stuck) = (f t, stuck)

-- A method of a field, as a method of the struct.
abbrev pub zoom {ℓ κ μ ν ξ} :
    {S : Type ℓ} {T : Type κ} {E : Type μ} {F : Type ν} {A : Type ξ}
    → (S → T)
    → (S → T → S)
    → (E → F)
    → Action T E A
    → Action S F A
zoom field update g m s = widen (update s) g (m (field s))

-- How a method ended: with a result that satisfies `Q`, or otherwise.
abbrev pub Ends {ℓ κ μ ν} :
    {S : Type ℓ} {E : Type κ} {A : Type μ} → S × Result E A → (S → A → Type ν) → Type ν
Ends (s, ok a) Q = Q s a
Ends (s, err e) Q = Unit
Ends (s, stuck) Q = Unit

pub data Returns {ℓ κ μ ν} {S : Type ℓ} {E : Type κ} {A : Type μ} (x : S × Result E A)
    (Q : S → A → Type ν) : Type ν where
  holds : Ends x Q → Returns x Q
