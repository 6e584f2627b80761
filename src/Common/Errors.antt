-- ===== src/Common/Errors.antt =====
-- What a Python call that may raise comes to: a value, or an exception of the model's own kind.
use mathlib.Core.Path.{◌≡◌, refl}
use mathlib.Core.Logic.{◌≢◌, ◌⊎◌, inl, inr}

pub data Outcome {ℓ κ} (E : Type ℓ) (A : Type κ) : Type (ℓ ⊔ κ) where
  ok : A → Outcome E A
  raised : E → Outcome E A

module _ {ℓ κ μ} {E : Type ℓ} {A : Type κ} {B : Type μ} where
  infixl 5 ◌>>=◌
  abbrev pub ◌>>=◌ : Outcome E A → (A → Outcome E B) → Outcome E B
  ok value >>= next = next value
  raised e >>= next = raised e

  pub >>=-eq-ok :
      (first : Outcome E A) (next : A → Outcome E B) {last : B}
      → (first >>= next) ≡ ok last
      → (value : A) × (first ≡ ok value) × (next value ≡ ok last)
  >>=-eq-ok (raised e) next h = cc
  >>=-eq-ok (ok value) next h = (value, refl, h)

module _ {ℓ κ μ ν} {E : Type ℓ} {A : Type κ} {B : Type μ} where
  -- A chain that returns goes on from a value of its first part.
  pub >>=-elim :
      (P : Type ν) (first : Outcome E A) (next : A → Outcome E B) {last : B}
      → (first >>= next) ≡ ok last
      → ((value : A) → first ≡ ok value → next value ≡ ok last → P)
      → P
  >>=-elim P (raised e) next h k = cc
  >>=-elim P (ok value) next h k = k value refl h

module _ {ℓ κ} {E : Type ℓ} {A : Type κ} where
  pub Outcome-cases : (m : Outcome E A) → ((a : A) × (m ≡ ok a)) ⊎ ((e : E) × (m ≡ raised e))
  Outcome-cases (ok a) = inl (a, refl)
  Outcome-cases (raised e) = inr (e, refl)

module _ {ℓ κ μ} {E : Type ℓ} {A : Type κ} {B : Type μ} where
  -- An exception that neither part raises is not raised by the chain.
  pub >>=-ne-raised :
      (m : Outcome E A) (f : A → Outcome E B) {e : E}
      → m ≢ raised e
      → ((a : A) → f a ≢ raised e)
      → (m >>= f) ≢ raised e
  >>=-ne-raised (ok a) f h k = k a
  >>=-ne-raised (raised x) f h k = λ p. h (cc)

module _ {ℓ κ} {E : Type ℓ} {A : Type κ} where
  pub ok-injective : (a b : A) → Path (Outcome E A) (ok a) (ok b) → a ≡ b
  ok-injective a b h = cc

-- An exception of one kind among those of another.
module _ {ℓ κ μ} {E : Type ℓ} {E' : Type κ} {A : Type μ} where
  abbrev pub as_error : (E → E') → Outcome E A → Outcome E' A
  as_error f (ok a) = ok a
  as_error f (raised e) = raised (f e)

  -- A result of the calling function is one of the call.
  pub as_error-eq-ok : (f : E → E') (m : Outcome E A) {a : A} → as_error f m ≡ ok a → m ≡ ok a
  as_error-eq-ok f (ok b) h = cc
  as_error-eq-ok f (raised e) h = cc
