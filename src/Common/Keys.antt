-- ===== src/Common/Keys.antt =====
-- The order of key tuples: by the first component, and on a tie by what follows.
use oecophylla.Common.{
  ℕ, String, ◌≡◌, refl, ap, Bool, true, false, List, [], ◌∷◌, arith, if◌then◌else◌, eqb, leb,
}
use oecophylla.Common.Int.{ℤ, pos, negsuc, pos_part, neg_part, leb_ℤ}
use oecophylla.Common.Eq.{Eq, ◌==◌, string_eq}
use oecophylla.Common.Sort.{IsOrder}
use oecophylla.Common.Text.{str_le, str_le-IsOrder, str_le_antisymm}

-- A type of keys: an order in which only equal keys tie.
pub record Key {ℓ} (K : Type ℓ) : Type ℓ where
  pub eq : Eq K
  pub le : K → K → Bool
  pub order : IsOrder le
  pub antisymm : (x y : K) → le x y ≡ true → le y x ≡ true → x ≡ y

module _ {ℓ κ} {A : Type ℓ} {K : Type κ} (k : Key K) (f : A → K) (rest : A → A → Bool) where
  abbrev pub by : A → A → Bool
  by x y = if k.eq.beq (f x) (f y) then rest x y else k.le (f x) (f y)

  pub by-IsOrder : IsOrder rest → IsOrder by
  by-IsOrder o = record {
    total = λ x y h. ground (
      arith,
      k.eq.beq_iff (f x) (f y),
      k.eq.beq_iff (f y) (f x),
      k.order.total (f x) (f y),
      o.total x y,
    );
    trans = λ x y z h h'. ground (
      arith,
      k.eq.beq_iff (f x) (f y),
      k.eq.beq_iff (f y) (f z),
      k.eq.beq_iff (f x) (f z),
      k.order.trans (f x) (f y) (f z),
      k.antisymm (f x) (f y),
      o.trans x y z,
    );
  }

  -- A tie is a tie of the first component, and of the rest.
  pub by_tie : (x y : A) → by x y ≡ true → by y x ≡ true → f x ≡ f y
  by_tie x y h h' =
      ground (arith, k.eq.beq_iff (f x) (f y), k.eq.beq_iff (f y) (f x), k.antisymm (f x) (f y))

  pub by_rest : (x y : A) → by x y ≡ true → by y x ≡ true → rest x y ≡ true
  by_rest x y h h' = ground (arith, k.eq.beq_iff (f x) (f y), by_tie x y h h')

abbrev pub always {ℓ} : {A : Type ℓ} → A → A → Bool
always x y = true

pub always-IsOrder {ℓ} : {A : Type ℓ} → IsOrder (always {A = A})
always-IsOrder = record { total = λ x y h. refl; trans = λ x y z h k. refl }

abbrev pub text_key : Key String
text_key = record {
  eq = string_eq;
  le = str_le;
  order = str_le-IsOrder;
  antisymm = str_le_antisymm;
}

pub nat_eq_iff : (a b : ℕ) → ((eqb a b ≡ true) → a ≡ b) × (a ≡ b → eqb a b ≡ true)
nat_eq_iff a b = ((λ h. ground arith), (λ h. ground arith))

pub leb-IsOrder : IsOrder leb
leb-IsOrder = record { total = λ a b h. ground arith; trans = λ a b c h k. ground arith }

pub leb_antisymm : (a b : ℕ) → leb a b ≡ true → leb b a ≡ true → a ≡ b
leb_antisymm a b h k = ground arith

abbrev pub number_key : Key ℕ
number_key = record {
  eq = record { beq = eqb; beq_iff = nat_eq_iff };
  le = leb;
  order = leb-IsOrder;
  antisymm = leb_antisymm;
}

abbrev pub texts_le : List String → List String → Bool
texts_le [] ts = true
texts_le (s ∷ ss) [] = false
texts_le (s ∷ ss) (t ∷ ts) = if s == t then texts_le ss ts else str_le s t

texts_le_total : (s t : List String) → texts_le s t ≡ false → texts_le t s ≡ true
texts_le_total [] t h = cc
texts_le_total (x ∷ s) [] h = refl
texts_le_total (x ∷ s) (y ∷ t) h = ground (
  arith,
  texts_le_total s t,
  string_eq.beq_iff x y,
  string_eq.beq_iff y x,
  str_le-IsOrder.total x y,
)

texts_le_trans :
    (s t u : List String) → texts_le s t ≡ true → texts_le t u ≡ true → texts_le s u ≡ true
texts_le_trans [] t u h k = refl
texts_le_trans (x ∷ s) [] u h k = cc
texts_le_trans (x ∷ s) (y ∷ t) [] h k = cc
texts_le_trans (x ∷ s) (y ∷ t) (z ∷ u) h k = ground (
  arith,
  texts_le_trans s t u,
  string_eq.beq_iff x y,
  string_eq.beq_iff y z,
  string_eq.beq_iff x z,
  str_le-IsOrder.trans x y z,
  str_le_antisymm x y,
)

-- The order of tuples of texts.
pub texts_le-IsOrder : IsOrder texts_le
texts_le-IsOrder = record { total = texts_le_total; trans = texts_le_trans }

abbrev eqb_ℤ : ℤ → ℤ → Bool
eqb_ℤ (pos m) (pos n) = eqb m n
eqb_ℤ (negsuc m) (negsuc n) = eqb m n
eqb_ℤ _ _ = false

pub int_eq_iff : (a b : ℤ) → ((eqb_ℤ a b ≡ true) → a ≡ b) × (a ≡ b → eqb_ℤ a b ≡ true)
int_eq_iff (pos m) (pos n) =
    ((λ h. ap pos ((nat_eq_iff m n).0 h)), (λ h. (nat_eq_iff m n).1 (ap pos_part h)))
int_eq_iff (pos m) (negsuc n) = ((λ h. cc), (λ h. cc))
int_eq_iff (negsuc m) (pos n) = ((λ h. cc), (λ h. cc))
int_eq_iff (negsuc m) (negsuc n) =
    ((λ h. ap negsuc ((nat_eq_iff m n).0 h)), (λ h. let e = ap neg_part h in ground arith))

pub leb_ℤ_antisymm : (a b : ℤ) → leb_ℤ a b ≡ true → leb_ℤ b a ≡ true → a ≡ b
leb_ℤ_antisymm (pos m) (pos n) h k = ap pos (ground arith)
leb_ℤ_antisymm (pos m) (negsuc n) h k = ground arith
leb_ℤ_antisymm (negsuc m) (pos n) h k = ground arith
leb_ℤ_antisymm (negsuc m) (negsuc n) h k = ap negsuc (ground arith)

pub leb_ℤ-IsOrder : IsOrder leb_ℤ
leb_ℤ-IsOrder = record { total = λ a b h. ground arith; trans = λ a b c h k. ground arith }

abbrev pub int_key : Key ℤ
int_key = record {
  eq = record { beq = eqb_ℤ; beq_iff = int_eq_iff };
  le = leb_ℤ;
  order = leb_ℤ-IsOrder;
  antisymm = leb_ℤ_antisymm;
}
