-- ===== src/Evaluation/Hits.antt =====
-- What the metrics count: hits, and what bounds them.
use oecophylla.Common.{
  ℕ, ◌+◌, ◌≤◌, ◌≡◌, refl, Bool, true, false, List, [], ◌∷◌, arith, if◌then◌else◌, Bool-cases, inl,
  inr, length, length-take-le, take, keep_if, All,
}
use oecophylla.Common.Eq.{Eq, ◌==◌, elem}
use oecophylla.Common.Unique.{Unique}
use oecophylla.Evaluation.Metrics.{distinct, hits, found}

module _ {ℓ} {A : Type ℓ} where
  length-keep_if-le : (p : A → Bool) (xs : List A) → length (keep_if p xs) ≤ length xs
  length-keep_if-le p [] = omega arith
  length-keep_if-le p (x ∷ xs) = ground (arith, length-keep_if-le p xs)

module _ {K : Type 0} ⦃e : Eq K⦄ where
  elem-distinct : (x : K) (xs : List K) → elem x (distinct xs) ≡ elem x xs
  unfolding distinct
  elem-distinct x [] = refl
  elem-distinct x (y ∷ xs) = elim (Bool-cases (elem y (distinct xs))) [
    | inl d ↦
        let h = elem-distinct x xs in
        let k = elem-distinct y xs in rw d (ground (arith, h, k, d, e.beq_iff y x))
    | inr d ↦ rw d (ground (arith, elem-distinct x xs))
  ]

  distinct-Unique : (xs : List K) → Unique (distinct xs)
  unfolding distinct
  distinct-Unique [] = tt
  distinct-Unique (x ∷ xs) = elim (Bool-cases (elem x (distinct xs))) [
    | inl d ↦ rw d (distinct-Unique xs)
    | inr d ↦ rw d (d, distinct-Unique xs)
  ]

  -- A filtered set is no larger than the list that it is filtered from.
  length-keep_if-distinct :
      (p : K → Bool) (xs : List K) → length (keep_if p (distinct xs)) ≤ length (keep_if p xs)
  unfolding distinct
  length-keep_if-distinct p [] = omega arith
  length-keep_if-distinct p (x ∷ xs) = ground (arith, length-keep_if-distinct p xs)

  abbrev remove : K → List K → List K
  remove x [] = []
  remove x (y ∷ ys) = if y == x then ys else y ∷ remove x ys

  length-remove : (x : K) (ys : List K) → elem x ys ≡ true → length (remove x ys) + 1 ≡ length ys
  length-remove x [] h = cc
  length-remove x (y ∷ ys) h = ground (arith, length-remove x ys)

  elem-remove :
      (x z : K) (ys : List K) → (x == z) ≡ false → elem z ys ≡ true → elem z (remove x ys) ≡ true
  elem-remove x z [] n h = cc
  elem-remove x z (y ∷ ys) n h =
      ground (arith, elem-remove x z ys n, e.beq_iff y x, e.beq_iff y z, e.beq_iff x z)

  All-remove :
      (x : K) (xs ys : List K)
      → elem x xs ≡ false
      → All (λ z. elem z ys ≡ true) xs
      → All (λ z. elem z (remove x ys) ≡ true) xs
  All-remove x [] ys n h = tt
  All-remove x (z ∷ xs) ys n h =
      let apart : (x == z) ≡ false = ground (arith, n, e.beq_iff z x, e.beq_iff x z) in
      (elem-remove x z ys apart h.0, All-remove x xs ys (ground (arith, n)) h.1)

  -- Distinct elements of a list are no more than its length.
  length-le_of_elem :
      (xs ys : List K) → Unique xs → All (λ z. elem z ys ≡ true) xs → length xs ≤ length ys
  length-le_of_elem [] ys u h = omega arith
  length-le_of_elem (x ∷ xs) ys u h =
      let l = length-le_of_elem xs (remove x ys) u.1 (All-remove x xs ys u.0 h.1) in
      omega (arith, l, length-remove x ys h.0)

  keep_if-elem : (xs ys : List K) → All (λ z. elem z ys ≡ true) (keep_if (λ x. elem x ys) xs)
  keep_if-elem [] ys = tt
  keep_if-elem (x ∷ xs) ys = elim (Bool-cases (elem x ys)) [
    | inl h ↦ rw h (h, keep_if-elem xs ys)
    | inr h ↦ rw h (keep_if-elem xs ys)
  ]

  elem-keep_if :
      (p : K → Bool) (x : K) (xs : List K) → elem x xs ≡ false → elem x (keep_if p xs) ≡ false
  elem-keep_if p x [] h = refl
  elem-keep_if p x (y ∷ xs) h = ground (arith, elem-keep_if p x xs)

  keep_if-Unique : (p : K → Bool) (xs : List K) → Unique xs → Unique (keep_if p xs)
  keep_if-Unique p [] h = tt
  keep_if-Unique p (x ∷ xs) h = elim (Bool-cases (p x)) [
    | inl q ↦ rw q (elem-keep_if p x xs h.0, keep_if-Unique p xs h.1)
    | inr q ↦ rw q (keep_if-Unique p xs h.1)
  ]

  pub hits-le : (k : ℕ) (ranked relevant : List K) → hits k ranked relevant ≤ k
  unfolding hits
  hits-le k ranked relevant =
      omega
        (arith, length-keep_if-le (λ x. elem x relevant) (take k ranked), length-take-le k ranked)

  pub found-le :
      (k : ℕ) (ranked relevant : List K) → found k ranked relevant ≤ hits k ranked relevant
  unfolding found hits
  found-le k ranked relevant = length-keep_if-distinct (λ x. elem x relevant) (take k ranked)

  pub found_le_relevant :
      (k : ℕ) (ranked relevant : List K) → found k ranked relevant ≤ length relevant
  unfolding found
  found_le_relevant k ranked relevant =
      length-le_of_elem (keep_if (λ x. elem x relevant) (distinct (take k ranked))) relevant
        (keep_if-Unique (λ x. elem x relevant) (distinct (take k ranked))
          (distinct-Unique (take k ranked)))
        (keep_if-elem (distinct (take k ranked)) relevant)
