-- ===== src/Common/Positions.antt =====
-- Elements at their positions.
use oecophylla.Common.{
  ℕ, zero, suc, ◌<◌, ◌≡◌, refl, ap, Bool, true, false, Option, none, some, List, [], ◌∷◌, map, Memᴰ,
  arith, length, any,
}
use oecophylla.Common.Eq.{Eq, elem}
use oecophylla.Common.Unique.{Unique}

module _ {ℓ} {A : Type ℓ} where
  -- `xs[i]`, if there is one.
  abbrev pub get_elem? : List A → ℕ → Option A
  get_elem? [] n = none
  get_elem? (x ∷ xs) zero = some x
  get_elem? (x ∷ xs) (suc n) = get_elem? xs n

  pub get_elem?-lt : (xs : List A) (n : ℕ) (x : A) → get_elem? xs n ≡ some x → n < length xs
  get_elem?-lt [] n x h = cc
  get_elem?-lt (y ∷ xs) zero x h = omega arith
  get_elem?-lt (y ∷ xs) (suc n) x h = omega (arith, get_elem?-lt xs n x h)

  pub get_elem?-mem : (xs : List A) (n : ℕ) (x : A) → get_elem? xs n ≡ some x → Memᴰ x xs
  get_elem?-mem [] n x h = cc
  get_elem?-mem (y ∷ xs) zero x h = Memᴰ.head (cc)
  get_elem?-mem (y ∷ xs) (suc n) x h = Memᴰ.tail (get_elem?-mem xs n x h)

  -- No element passes a test that no member passes.
  pub any-none :
      (p : A → Bool) (xs : List A) → ((x : A) → Memᴰ x xs → p x ≡ false) → any p xs ≡ false
  any-none p [] h = refl
  any-none p (x ∷ xs) h = rw (h x (Memᴰ.head refl)) (any-none p xs (λ y m. h y (Memᴰ.tail m)))

module _ {ℓ κ} {A : Type ℓ} {K : Type κ} ⦃e : Eq K⦄ (key : A → K) where
  elem-get_elem? :
      (xs : List A) (n : ℕ) (x : A) → get_elem? xs n ≡ some x → elem (key x) (map key xs) ≡ true
  elem-get_elem? [] n x h = cc
  elem-get_elem? (y ∷ xs) zero x h =
      let k : key y ≡ key x = cc in ground (arith, k, e.beq_iff (key y) (key x))
  elem-get_elem? (y ∷ xs) (suc n) x h = ground (arith, elem-get_elem? xs n x h)

  -- Where no key repeats, a key has one position.
  pub get_elem?-position :
      (xs : List A) (i j : ℕ) (x y : A)
      → Unique (map key xs)
      → get_elem? xs i ≡ some x
      → get_elem? xs j ≡ some y
      → key x ≡ key y
      → i ≡ j
  get_elem?-position [] i j x y u h k q = cc
  get_elem?-position (z ∷ xs) zero zero x y u h k q = refl
  get_elem?-position (z ∷ xs) zero (suc j) x y u h k q =
      let p : key z ≡ key y = cc in
      let t : elem (key z) (map key xs) ≡ true = rw p (elem-get_elem? xs j y k) in cc (t, u.0)
  get_elem?-position (z ∷ xs) (suc i) zero x y u h k q =
      let p : key z ≡ key x = cc in
      let t : elem (key z) (map key xs) ≡ true = rw p (elem-get_elem? xs i x h) in cc (t, u.0)
  get_elem?-position (z ∷ xs) (suc i) (suc j) x y u h k q =
      ap suc (get_elem?-position xs i j x y u.1 h k q)
