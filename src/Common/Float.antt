-- ===== src/Common/Float.antt =====
-- Python's floats: an abstract type with the operations that the program calls. Orders and equations
-- of floats are tested, so they are Boolean; a law is assumed only where a theorem names it.
use oecophylla.Common.{ℕ, ◌≡◌, Bool, true, false, List, [], ◌∷◌, if◌then◌else◌}
use oecophylla.Common.Int.{ℤ, pos}

pub record Arith : Type 1 where
  pub F : Type 0
  -- The float nearest to a fraction, as a literal of the source or a count is read.
  pub ratio : ℤ → ℕ → F
  pub add : F → F → F
  pub sub : F → F → F
  pub mul : F → F → F
  pub div : F → F → F
  pub neg : F → F
  pub lt : F → F → Bool
  pub le : F → F → Bool
  pub equal : F → F → Bool
  -- `round(x, digits)`, `int(x)`, `math.exp2` and `math.exp`
  pub round : F → ℕ → F
  pub trunc : F → ℤ
  pub exp2 : F → F
  pub exp : F → F

module _ (a : Arith) where
  open a use {F, ratio, add, neg, lt}

  abbrev pub whole : ℕ → F
  whole n = ratio (pos n) 1

  abbrev pub zero_f : F
  zero_f = ratio (pos 0) 1

  -- `max(x, y)` and `min(x, y)`: the first argument on a tie.
  abbrev pub max_f : F → F → F
  max_f x y = if lt x y then y else x

  abbrev pub min_f : F → F → F
  min_f x y = if lt y x then y else x

  abbrev pub abs_f : F → F
  abs_f x = if lt x zero_f then neg x else x

  -- `sum(xs)`, from the left.
  abbrev pub sum_from : F → List F → F
  sum_from acc [] = acc
  sum_from acc (x ∷ xs) = sum_from (add acc x) xs

-- What holds of `<` on all floats, infinities and NaN included: it is false wherever NaN stands.
pub record IsOrdered (a : Arith) : Type 0 where
  pub lt_asymm : (x y : a.F) → a.lt x y ≡ true → a.lt y x ≡ false
