-- ===== src/Common/Filter.antt =====
-- A comprehension's filter whose test may raise.
use oecophylla.Common.{
  ◌≡◌, subst, ap, ◌∙◌, Bool, true, List, [], ◌∷◌, Outcome, ok, ◌>>=◌, >>=-eq-ok, ok-injective,
  if◌then◌else◌, All, Bool-cases, inl, inr,
}

module _ {ℓ κ} {E : Type ℓ} {A : Type κ} (test : A → Outcome E Bool) where
  abbrev pub add_if : A → List A → Bool → List A
  add_if x kept passes = if passes then x ∷ kept else kept

  -- `[x for x in xs if test(x)]`
  unfoldable pub filter_ok : List A → Outcome E (List A)
  filter_ok [] = ok []
  filter_ok (x ∷ xs) = test x >>= λ passes. filter_ok xs >>= λ kept. ok (add_if x kept passes)

  -- What the test makes sure of holds of what is kept.
  pub filter_ok-All {μ} :
      (P : A → Type μ)
      → ((x : A) → test x ≡ ok true → P x)
      → (xs kept : List A) → filter_ok xs ≡ ok kept
      → All P kept
  unfolding filter_ok
  filter_ok-All P sure [] kept h = subst (λ l. All P l) (ok-injective [] kept h) tt
  filter_ok-All P sure (x ∷ xs) kept h =
      let (b, f, h) =
        >>=-eq-ok (test x) (λ passes. filter_ok xs >>= λ l. ok (add_if x l passes)) h in
      let (l, g, h) = >>=-eq-ok (filter_ok xs) (λ l. ok (add_if x l b)) h in
      let others = filter_ok-All P sure xs l g in
      subst (λ k. All P k) (ok-injective (add_if x l b) kept h)
        (elim (Bool-cases b) [ inl t ↦ rw t (sure x (f ∙ ap ok t), others) | inr t ↦ rw t others ])
