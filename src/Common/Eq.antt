-- ===== src/Common/Eq.antt =====
-- Equality tests as an interface, with the instances that the program's keys need.
use Prim.Native.String.{String}
use mathlib.Core.Path.{◌≡◌, refl, ap}
use mathlib.Core.Logic.{◌↔◌}
use mathlib.Core.Bool.{Bool, true, false, ◌&&◌}
use mathlib.Core.Option.{Option, none, some}
use mathlib.Core.List.{List, [], ◌∷◌}
use native.Mathlib.Omega.{arith}
use text.Mathlib.Text.{◌==◌ as str_eq}
use text.Mathlib.TextEquality.{eq_iff}
use oecophylla.Common.Tests.{if◌then◌else◌}

pub record Eq {ℓ} (K : Type ℓ) : Type ℓ where
  pub beq : K → K → Bool
  pub beq_iff : (j k : K) → (beq j k ≡ true) ↔ (j ≡ k)

-- The test of the key's type.
module _ {ℓ} {K : Type ℓ} where
  infix 50 ◌==◌
  abbrev pub ◌==◌ : ⦃e : Eq K⦄ → K → K → Bool
  ◌==◌ ⦃e⦄ j k = e.beq j k

instance abbrev pub string_eq : Eq String
string_eq = record { beq = str_eq; beq_iff = eq_iff }

module _ {ℓ κ} {A : Type ℓ} {B : Type κ} where
  abbrev pub pair_beq : Eq A → Eq B → A × B → A × B → Bool
  pair_beq d e (a, b) (a', b') = d.beq a a' && e.beq b b'

  pub pair_beq_iff : (d : Eq A) (e : Eq B) (p q : A × B) → (pair_beq d e p q ≡ true) ↔ (p ≡ q)
  pair_beq_iff d e (a, b) (a', b') = (
    λ h. ground (arith, d.beq_iff a a', e.beq_iff b b'),
    λ h. ground (arith, d.beq_iff a a', e.beq_iff b b'),
  )

  -- Tuples as keys.
  instance abbrev pub pair_eq : ⦃d : Eq A⦄ ⦃e : Eq B⦄ → Eq (A × B)
  pair_eq ⦃d⦄ ⦃e⦄ = record { beq = pair_beq d e; beq_iff = pair_beq_iff d e }

module _ {ℓ} {A : Type ℓ} where
  abbrev pub option_beq : Eq A → Option A → Option A → Bool
  option_beq e none none = true
  option_beq e none (some b) = false
  option_beq e (some a) none = false
  option_beq e (some a) (some b) = e.beq a b

  pub option_beq_iff : (e : Eq A) (p q : Option A) → (option_beq e p q ≡ true) ↔ (p ≡ q)
  option_beq_iff e none none = (λ h. refl, λ h. refl)
  option_beq_iff e none (some b) = (λ h. cc, λ h. cc)
  option_beq_iff e (some a) none = (λ h. cc, λ h. cc)
  option_beq_iff e (some a) (some b) =
      (λ h. ap {B = Option A} some ((e.beq_iff a b).0 h), λ h. ground (arith, e.beq_iff a b))

  -- A value that may be `None`.
  instance abbrev pub option_eq : ⦃e : Eq A⦄ → Eq (Option A)
  option_eq ⦃e⦄ = record { beq = option_beq e; beq_iff = option_beq_iff e }

-- `x in xs`.
module _ {ℓ} {A : Type ℓ} ⦃e : Eq A⦄ where
  abbrev pub elem : A → List A → Bool
  elem a [] = false
  elem a (x ∷ xs) = if x == a then true else elem a xs
