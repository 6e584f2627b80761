-- ===== src/Common/Sort.antt =====
-- `sorted`: Python's sort is stable, so a stable insertion sort gives the same list.
use mathlib.Core.List.Permᴰ
use oecophylla.Common.{
  ◌≡◌, refl, sym, ◌∙◌, inl, inr, Bool, true, false, List, [], ◌∷◌, Memᴰ, Permᴰ, arith,
  if◌then◌else◌, Bool-cases, All, All-map_weaken,
}

module _ {ℓ} {A : Type ℓ} (le : A → A → Bool) where
  -- Behind the elements that come strictly before `a`.
  unfoldable pub place : A → List A → List A
  place a [] = a ∷ []
  place a (b ∷ bs) = if le a b then a ∷ b ∷ bs else b ∷ place a bs

  unfoldable pub sort : List A → List A
  unfolding place
  sort [] = []
  sort (a ∷ l) = place a (sort l)

  abbrev pub IsSorted : List A → Type ℓ
  IsSorted [] = Unit
  IsSorted (a ∷ l) = All (λ b. le a b ≡ true) l × IsSorted l

  pub place-perm : (a : A) (l : List A) → Permᴰ (place a l) (a ∷ l)
  unfolding place
  place-perm a [] = Permᴰ.refl (a ∷ [])
  place-perm a (b ∷ l) = elim (Bool-cases (le a b)) [
    | inl h ↦ rw h (Permᴰ.refl (a ∷ b ∷ l))
    | inr h ↦ rw h (Permᴰ.trans (Permᴰ.cons refl (place-perm a l)) (Permᴰ.swap refl refl))
  ]

  -- Sorting neither drops nor invents an element.
  pub sort-perm : (l : List A) → Permᴰ (sort l) l
  unfolding sort
  sort-perm [] = Permᴰ.nil
  sort-perm (a ∷ l) = Permᴰ.trans (place-perm a (sort l)) (Permᴰ.cons refl (sort-perm l))

-- A key order: total and transitive. Ties are possible.
pub record IsOrder {ℓ} {A : Type ℓ} (le : A → A → Bool) : Type ℓ where
  pub total : (a b : A) → le a b ≡ false → le b a ≡ true
  pub trans : (a b c : A) → le a b ≡ true → le b c ≡ true → le a c ≡ true

module _ {ℓ κ} {A : Type ℓ} (le : A → A → Bool) (P : A → Type κ) where
  pub place-All : (a : A) (l : List A) → P a → All P l → All P (place le a l)
  unfolding place
  place-All a [] h k = (h, tt)
  place-All a (b ∷ l) h k = elim (Bool-cases (le a b)) [
    | inl e ↦ rw e (h, k)
    | inr e ↦ rw e (k.0, place-All a l h k.1)
  ]

  pub sort-All : (l : List A) → All P l → All P (sort le l)
  unfolding sort
  sort-All [] h = tt
  sort-All (a ∷ l) h = place-All a (sort le l) h.0 (sort-All l h.1)

module _ {ℓ} {A : Type ℓ} (le : A → A → Bool) (o : IsOrder le) where
  place-IsSorted : (a : A) (l : List A) → IsSorted le l → IsSorted le (place le a l)
  unfolding place
  place-IsSorted a [] h = (tt, tt)
  place-IsSorted a (b ∷ l) h = elim (Bool-cases (le a b)) [
    | inl e ↦ rw e (
      (e, All-map_weaken (λ c. le b c ≡ true) (λ c. le a c ≡ true) (λ c. o.trans a b c e) l h.0),
      h,
    )
    | inr e ↦
        rw e (place-All le (λ c. le b c ≡ true) a l (o.total a b e) h.0, place-IsSorted a l h.1)
  ]

  pub sort-IsSorted : (l : List A) → IsSorted le (sort le l)
  unfolding sort
  sort-IsSorted [] = tt
  sort-IsSorted (a ∷ l) = place-IsSorted a (sort le l) (sort-IsSorted l)

  -- Two placements commute, unless their elements tie.
  place_comm :
      (a b : A)
      → (le a b ≡ true → le b a ≡ true → a ≡ b)
      → (l : List A) → place le a (place le b l) ≡ place le b (place le a l)
  unfolding place
  place_comm a b tie [] = ground (arith, tie, o.total a b)
  place_comm a b tie (c ∷ l) = ground (
    arith,
    tie,
    o.total a b,
    o.total b a,
    o.trans a b c,
    o.trans b a c,
    o.total a c,
    o.total b c,
    o.trans a c b,
    o.trans b c a,
    place_comm a b tie l,
  )

-- Ties are between equal elements only, as far as the list goes.
abbrev pub IsFaithful {ℓ} : {A : Type ℓ} → (A → A → Bool) → List A → Type ℓ
IsFaithful {A = A} le l = (a b : A) → Memᴰ a l → Memᴰ b l → le a b ≡ true → le b a ≡ true → a ≡ b

module _ {ℓ} {A : Type ℓ} where
  -- What one list holds the other holds.
  pub Permᴰ-mem : {a : A} {l m : List A} → Permᴰ l m → Memᴰ a m → Memᴰ a l
  Permᴰ-mem Permᴰ.nil h = h
  Permᴰ-mem (Permᴰ.cons e p) (Memᴰ.head d) = Memᴰ.head (d ∙ sym e)
  Permᴰ-mem (Permᴰ.cons e p) (Memᴰ.tail h) = Memᴰ.tail (Permᴰ-mem p h)
  Permᴰ-mem (Permᴰ.swap d e) (Memᴰ.head h) = Memᴰ.tail (Memᴰ.head (h ∙ sym e))
  Permᴰ-mem (Permᴰ.swap d e) (Memᴰ.tail (Memᴰ.head h)) = Memᴰ.head (h ∙ sym d)
  Permᴰ-mem (Permᴰ.swap d e) (Memᴰ.tail (Memᴰ.tail h)) = Memᴰ.tail (Memᴰ.tail h)
  Permᴰ-mem (Permᴰ.trans p q) h = Permᴰ-mem p (Permᴰ-mem q h)

module _ {ℓ} {A : Type ℓ} (le : A → A → Bool) (o : IsOrder le) where
  -- Where ties are between equal elements only, the order of arrival is forgotten.
  pub sort-eq_of_perm : {l m : List A} → Permᴰ l m → IsFaithful le l → sort le l ≡ sort le m
  unfolding sort
  sort-eq_of_perm Permᴰ.nil f = refl
  sort-eq_of_perm (Permᴰ.cons e p) f =
      cc (e, sort-eq_of_perm p (λ x y hx hy. f x y (Memᴰ.tail hx) (Memᴰ.tail hy)))
  sort-eq_of_perm (Permᴰ.swap {a} {b} {a'} {b'} {l} d e) f =
      cc (
        d,
        e,
        place_comm le o a b (f a b (Memᴰ.head refl) (Memᴰ.tail (Memᴰ.head refl))) (sort le l),
      )
  sort-eq_of_perm (Permᴰ.trans p q) f =
      sort-eq_of_perm p f ∙ sort-eq_of_perm q (λ x y hx hy. f x y (Permᴰ-mem p hx) (Permᴰ-mem p hy))
