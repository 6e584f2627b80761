-- ===== src/Common/Text.antt =====
-- Python's order of strings: by code point, from the left.
use Prim.Native.Char.{code}
use Prim.Native.String.{String, ◌++◌}
use text.Mathlib.Text.{◌==◌ as str_eq}
use text.Mathlib.TextEquality.{Char-path, eq_iff}
use oecophylla.Common.{
  ℕ, ◌≡◌, refl, sym, ◌∙◌, Bool, true, false, List, [], ◌∷◌, arith, ltb, if◌then◌else◌,
}
use oecophylla.Common.Sort.{IsOrder}

-- `a + b`
abbrev pub join : String → String → String
join s t = s ++ t

abbrev pub codes : String → List ℕ
codes String.[] = []
codes (String.◌∷◌ c s) = code c ∷ codes s

-- `a <= b` on the code points.
abbrev pub codes_le : List ℕ → List ℕ → Bool
codes_le [] b = true
codes_le (x ∷ a) [] = false
codes_le (x ∷ a) (y ∷ b) = if ltb x y then true else if ltb y x then false else codes_le a b

unfoldable pub str_le : String → String → Bool
str_le s t = codes_le (codes s) (codes t)

codes_le_total : (a b : List ℕ) → codes_le a b ≡ false → codes_le b a ≡ true
codes_le_total [] b h = cc
codes_le_total (x ∷ a) [] h = refl
codes_le_total (x ∷ a) (y ∷ b) h = ground (arith, codes_le_total a b)

codes_le_trans : (a b c : List ℕ) → codes_le a b ≡ true → codes_le b c ≡ true → codes_le a c ≡ true
codes_le_trans [] b c h k = refl
codes_le_trans (x ∷ a) [] c h k = cc
codes_le_trans (x ∷ a) (y ∷ b) [] h k = cc
codes_le_trans (x ∷ a) (y ∷ b) (z ∷ c) h k = ground (arith, codes_le_trans a b c)

codes_le_antisymm : (a b : List ℕ) → codes_le a b ≡ true → codes_le b a ≡ true → a ≡ b
codes_le_antisymm [] [] h k = refl
codes_le_antisymm [] (y ∷ b) h k = cc
codes_le_antisymm (x ∷ a) [] h k = cc
codes_le_antisymm (x ∷ a) (y ∷ b) h k = ground (arith, codes_le_antisymm a b)

codes-injective : (s t : String) → codes s ≡ codes t → s ≡ t
codes-injective String.[] String.[] h = refl
codes-injective String.[] (String.◌∷◌ d t) h = cc
codes-injective (String.◌∷◌ c s) String.[] h = cc
codes-injective (String.◌∷◌ c s) (String.◌∷◌ d t) h =
    cc (Char-path c d (cc), codes-injective s t (cc))

pub str_le-IsOrder : IsOrder str_le
unfolding str_le
str_le-IsOrder = record {
  total = λ a b. codes_le_total (codes a) (codes b);
  trans = λ a b c. codes_le_trans (codes a) (codes b) (codes c);
}

pub str_le_antisymm : (s t : String) → str_le s t ≡ true → str_le t s ≡ true → s ≡ t
unfolding str_le
str_le_antisymm s t h k = codes-injective s t (codes_le_antisymm (codes s) (codes t) h k)

-- A text is not two distinct literals at once, in the form that `ground` takes.
pub str_ne : (t s u : String) → str_eq s u ≡ false → t ≡ s → t ≡ u → ⊥
str_ne t s u h p q = cc (h, (eq_iff s u).1 (sym p ∙ q))
