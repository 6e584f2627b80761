-- ===== src/Common/Unique.antt =====
-- Lists without a repeated element, by the Boolean test of membership.
use oecophylla.Common.Tests.{if◌then◌else◌}
use oecophylla.Common.Lists.{take, All, All-intro}
use oecophylla.Common.Eq.{Eq, ◌==◌, elem}
use oecophylla.Common.Dict.{Dict, insert, keys}
use Prim.Native.Nat.{ℕ, zero, suc}
use mathlib.Core.Path.{◌≡◌, refl, sym, ap, ◌∙◌}
use mathlib.Core.Bool.{Bool, true, false, ◌||◌}
use mathlib.Core.List.{List, [], ◌∷◌, ◌++◌, Memᴰ, Permᴰ}
use native.Mathlib.Omega.{arith}

module _ {ℓ} {A : Type ℓ} ⦃e : Eq A⦄ where
  abbrev pub Unique : List A → Type 0
  Unique [] = Unit
  Unique (x ∷ xs) = (elem x xs ≡ false) × Unique xs

  -- No element of the first list is in the second.
  abbrev pub Apart : List A → List A → Type 0
  Apart xs ys = All (λ x. elem x ys ≡ false) xs

  elem-mem : {a : A} (xs : List A) → Memᴰ a xs → elem a xs ≡ true
  elem-mem [] m = elim m [ ]
  elem-mem {a} (x ∷ xs) (Memᴰ.head q) = ground (arith, e.beq_iff x a, q)
  elem-mem (x ∷ xs) (Memᴰ.tail m) = ground (arith, elem-mem xs m)

  pub Apart-intro :
      (xs ys : List A) → ((x : A) → elem x xs ≡ true → elem x ys ≡ false) → Apart xs ys
  Apart-intro xs ys h = All-intro (λ x. elem x ys ≡ false) xs (λ x m. h x (elem-mem xs m))

  pub elem-append : (a : A) (xs ys : List A) → elem a (xs ++ ys) ≡ elem a xs || elem a ys
  elem-append a [] ys = refl
  elem-append a (x ∷ xs) ys = ground (arith, elem-append a xs ys)

  pub elem-perm : (a : A) {xs ys : List A} → Permᴰ xs ys → elem a xs ≡ elem a ys
  elem-perm a Permᴰ.nil = refl
  elem-perm a (Permᴰ.cons {b = b} q p) =
      rw q (ap (λ (r : Bool). if b == a then true else r) (elem-perm a p))
  elem-perm a (Permᴰ.swap d q) = rw d (rw q (ground arith))
  elem-perm a (Permᴰ.trans p q) = elem-perm a p ∙ elem-perm a q

  pub Unique-perm : {xs ys : List A} → Permᴰ xs ys → Unique xs → Unique ys
  Unique-perm Permᴰ.nil h = tt
  Unique-perm (Permᴰ.cons {l₂ = l₂} q p) h =
      (rw (← q) (sym (elem-perm _ p) ∙ h.0), Unique-perm p h.1)
  Unique-perm (Permᴰ.swap {a} {b} q r) h =
      rw (← q) (rw (← r) (ground (arith, e.beq_iff a b, e.beq_iff b a, h)))
  Unique-perm (Permᴰ.trans p q) h = Unique-perm q (Unique-perm p h)

  elem-take : (a : A) (n : ℕ) (xs : List A) → elem a xs ≡ false → elem a (take n xs) ≡ false
  elem-take a zero xs h = refl
  elem-take a (suc n) [] h = refl
  elem-take a (suc n) (x ∷ xs) h = ground (arith, elem-take a n xs)

  pub Unique-take : (n : ℕ) (xs : List A) → Unique xs → Unique (take n xs)
  Unique-take zero xs h = tt
  Unique-take (suc n) [] h = tt
  Unique-take (suc n) (x ∷ xs) h = (elem-take x n xs h.0, Unique-take n xs h.1)

  pub Unique-append : (xs ys : List A) → Unique xs → Unique ys → Apart xs ys → Unique (xs ++ ys)
  Unique-append [] ys h k p = k
  Unique-append (x ∷ xs) ys h k p =
      (ground (arith, elem-append x xs ys, h.0, p.0), Unique-append xs ys h.1 k p.1)

  pub Unique-snoc : (a : A) (xs : List A) → Unique xs → elem a xs ≡ false → Unique (xs ++ a ∷ [])
  Unique-snoc a [] h k = (refl, tt)
  Unique-snoc a (x ∷ xs) h k =
      ground
        (arith, elem-append x xs (a ∷ []), Unique-snoc a xs h.1, h.0, e.beq_iff a x, e.beq_iff x a)

module _ {ℓ κ} {K : Type ℓ} {V : Type κ} ⦃e : Eq K⦄ where
  elem-keys-insert :
      (j k : K) (v : V) (d : Dict K V)
      → elem j (keys (insert k v d)) ≡ (if k == j then true else elem j (keys d))
  elem-keys-insert j k v [] = refl
  elem-keys-insert j k v ((i, w) ∷ d) =
      ground (arith, elem-keys-insert j k v d, e.beq_iff i k, e.beq_iff i j, e.beq_iff k j)

  -- A dict's keys stay without a repetition.
  pub Unique-insert :
      (k : K) (v : V) (d : Dict K V) → Unique (keys d) → Unique (keys (insert k v d))
  Unique-insert k v [] h = (refl, tt)
  Unique-insert k v ((i, w) ∷ d) h = ground (
    arith,
    elem-keys-insert i k v d,
    Unique-insert k v d h.1,
    h.0,
    h.1,
    e.beq_iff i k,
    e.beq_iff k i,
  )
