-- ===== src/Common/Fixed.antt =====
-- Fixed-point numbers in thousandths, an instance of `Arith` for tests: `exp2` halves for each unit
-- below zero, begun or whole, and `exp` does the same.
use oecophylla.Common.{ℕ, zero, suc, ◌+◌, ◌*◌, ◌/◌, Bool, arith, if◌then◌else◌, eqb, ltb}
use oecophylla.Common.Int.{ℤ, pos, pos_part, neg_part, sub_ℕ, ltb_ℤ, leb_ℤ}
use oecophylla.Common.Float.{Arith, IsOrdered}

abbrev magnitude : ℤ → ℕ
magnitude x = pos_part x + neg_part x

abbrev is_negative : ℤ → Bool
is_negative x = ltb 0 (neg_part x)

abbrev opposite : ℤ → ℤ
opposite x = sub_ℕ (neg_part x) (pos_part x)

abbrev add_ℤ : ℤ → ℤ → ℤ
add_ℤ x y = sub_ℕ (pos_part x + pos_part y) (neg_part x + neg_part y)

-- A magnitude with the sign of a product.
abbrev signed : ℤ → ℤ → ℕ → ℤ
signed x y n =
    if is_negative x
    then (if is_negative y then pos n else sub_ℕ 0 n)
    else (if is_negative y then sub_ℕ 0 n else pos n)

abbrev over : ℕ → ℕ → ℕ
over m zero = 0
over m (suc n) = m / suc n

abbrev halved : ℕ → ℕ → ℕ
halved zero x = x
halved (suc n) x = halved n (x / 2)

abbrev power_of_two : ℤ → ℤ
power_of_two x = if is_negative x then pos (halved ((neg_part x + 999) / 1000) 1000) else pos 1000

abbrev pub thousandths : Arith
thousandths = record {
  F = ℤ;
  ratio = λ n d. signed n (pos 0) (over (magnitude n * 1000) d);
  add = add_ℤ;
  sub = λ x y. add_ℤ x (opposite y);
  mul = λ x y. signed x y (magnitude x * magnitude y / 1000);
  div = λ x y. signed x y (over (magnitude x * 1000) (magnitude y));
  neg = opposite;
  lt = ltb_ℤ;
  le = leb_ℤ;
  equal = λ x y. eqb (pos_part x + neg_part y) (pos_part y + neg_part x);
  round = λ x digits. x;
  trunc = λ x. signed x (pos 0) (magnitude x / 1000);
  exp2 = power_of_two;
  exp = power_of_two;
}

pub thousandths-IsOrdered : IsOrdered thousandths
thousandths-IsOrdered = record { lt_asymm = λ x y h. ground arith }
