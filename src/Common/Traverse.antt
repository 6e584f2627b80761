-- ===== src/Common/Traverse.antt =====
-- Running a call that may raise on every element of a list, in order, up to the first exception.
use mathlib.Core.List.Permᴰ
use mathlib.Core.List.Memᴰ
use oecophylla.Common.{
  suc, ◌≡◌, refl, sym, ap, ◌∙◌, List, [], ◌∷◌, Memᴰ, Permᴰ, Outcome, ok, raised, ◌>>=◌, >>=-eq-ok,
  Outcome-cases, ok-injective, subst, inl, inr, length,
}

module _ {ℓ κ μ} {E : Type ℓ} {A : Type κ} {B : Type μ} (f : A → Outcome E B) where
  unfoldable pub traverse : List A → Outcome E (List B)
  traverse [] = ok []
  traverse (x ∷ xs) = f x >>= λ y. traverse xs >>= λ ys. ok (y ∷ ys)

  pub traverse-intro :
      (x : A) (xs : List A) {y : B} {ys : List B}
      → f x ≡ ok y
      → traverse xs ≡ ok ys
      → traverse (x ∷ xs) ≡ ok (y ∷ ys)
  unfolding traverse
  traverse-intro x xs p q = rw p (rw q)

  traverse-inv :
      (x : A) (xs : List A) (ys : List B)
      → traverse (x ∷ xs) ≡ ok ys
      → (y : B) × (l : List B) × (ys ≡ y ∷ l) × (f x ≡ ok y) × (traverse xs ≡ ok l)
  unfolding traverse
  traverse-inv x xs ys h =
      let (y, one, rest) = >>=-eq-ok (f x) _ h in
      let (l, two, last) = >>=-eq-ok (traverse xs) _ rest in
      (y, l, ok-injective _ _ (sym last), one, two)

  pub traverse-length : (xs : List A) (ys : List B) → traverse xs ≡ ok ys → length ys ≡ length xs
  unfolding traverse
  traverse-length [] ys h = ap length (ok-injective _ _ (sym h))
  traverse-length (x ∷ xs) ys h =
      let (y, l, e, one, two) = traverse-inv x xs ys h in
      ap length e ∙ ap suc (traverse-length xs l two)

  -- Every result comes from an element.
  pub traverse-mem :
      (y : B) (xs : List A) (ys : List B)
      → traverse xs ≡ ok ys
      → Memᴰ y ys
      → (x : A) × Memᴰ x xs × (f x ≡ ok y)
  unfolding traverse
  traverse-mem y [] ys h m = absurd (Memᴰ.not-nil (subst (Memᴰ y) (ok-injective _ _ (sym h)) m))
  traverse-mem y (x ∷ xs) ys h m =
      let (z, l, e, one, two) = traverse-inv x xs ys h in
      elim (Memᴰ.cases_cons (subst (Memᴰ y) e m)) [
        | inl q ↦ (x, Memᴰ.head refl, rw q one)
        | inr r ↦ let (w, mw, fw) = traverse-mem y xs l two r in (w, Memᴰ.tail mw, fw)
      ]

  -- A permutation of the elements permutes the results.
  pub traverse-perm :
      {xs zs : List A} (ys : List B)
      → Permᴰ xs zs
      → traverse xs ≡ ok ys
      → (ws : List B) × (traverse zs ≡ ok ws) × Permᴰ ys ws
  traverse-perm ys Permᴰ.nil h = (ys, h, Permᴰ.refl ys)
  traverse-perm ys (Permᴰ.cons {a} {b} {l₁} {l₂} e p) h =
      let (y, l, q, one, two) = traverse-inv a l₁ ys h in
      let (ws, tws, pw) = traverse-perm l p two in
      (y ∷ ws, traverse-intro b l₂ (rw (← e) one) tws, rw q (Permᴰ.cons refl pw))
  traverse-perm ys (Permᴰ.swap {a} {b} {a'} {b'} {l = xs} d e) h =
      let (y, l, q, one, two) = traverse-inv a (b ∷ xs) ys h in
      let (z, k, r, three, four) = traverse-inv b xs l two in
      (
        z ∷ y ∷ k,
        traverse-intro a' (b' ∷ xs) (rw (← e) three) (traverse-intro b' xs (rw (← d) one) four),
        rw q (rw r (Permᴰ.swap refl refl)),
      )
  traverse-perm ys (Permᴰ.trans p q) h =
      let (ws, tws, pw) = traverse-perm ys p h in
      let (vs, tvs, pv) = traverse-perm ws q tws in (vs, tvs, Permᴰ.trans pw pv)

  -- An exception of the traversal is that of some element.
  pub traverse-raised :
      (xs : List A) (e : E) → traverse xs ≡ raised e → (x : A) × Memᴰ x xs × (f x ≡ raised e)
  unfolding traverse
  traverse-raised [] e h = cc
  traverse-raised (x ∷ xs) e h = elim (Outcome-cases (f x)) [
    | inl (y, one) ↦ elim (Outcome-cases (traverse xs)) [
      | inl (l, two) ↦ cc (rw two at (rw one at h))
      | inr (d, two) ↦
          let (w, mw, fw) = traverse-raised xs e (cc (two, rw two at (rw one at h))) in
          (w, Memᴰ.tail mw, fw)
    ]
    | inr (d, one) ↦ (x, Memᴰ.head refl, cc (one, rw one at h))
  ]
