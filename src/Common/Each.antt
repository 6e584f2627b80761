-- ===== src/Common/Each.antt =====
-- What holds of every entry of a dict, and of every element of a dict of lists.
use oecophylla.Common.{◌≡◌, sym, subst, some, List, [], ◌∷◌, Bool-cases, inl, inr, All, All-append}
use mathlib.Core.Option.{some-injective}
use oecophylla.Common.Dict.{Dict, lookup, insert}
use oecophylla.Common.Eq.{Eq, ◌==◌}
use oecophylla.Common.Groups.{append_to}

module _ {ℓ κ μ} {K : Type ℓ} {V : Type κ} ⦃e : Eq K⦄ (P : K → V → Type μ) where
  abbrev pub Each : Dict K V → Type μ
  Each = All (λ g. P g.0 g.1)

  pub insert-Each : (k : K) (v : V) (d : Dict K V) → P k v → Each d → Each (insert k v d)
  insert-Each k v [] h t = (h, tt)
  insert-Each k v ((j, w) ∷ d) h t = elim (Bool-cases (j == k)) [
    | inl q ↦ rw q (subst (λ i. P i v) (sym ((e.beq_iff j k).0 q)) h, t.1)
    | inr q ↦ rw q (t.0, insert-Each k v d h t.1)
  ]

  pub lookup-Each : (k : K) (v : V) (d : Dict K V) → Each d → lookup k d ≡ some v → P k v
  lookup-Each k v [] t h = cc
  lookup-Each k v ((j, w) ∷ d) t h = elim (Bool-cases (j == k)) [
    | inl q ↦
        subst (λ i. P i v) ((e.beq_iff j k).0 q)
          (subst (λ x. P j x) (some-injective w v (rw q at h)) t.0)
    | inr q ↦ lookup-Each k v d t.1 (rw q at h)
  ]

module _ {ℓ κ μ} {K : Type ℓ} {A : Type κ} ⦃e : Eq K⦄ (P : K → A → Type μ) where
  abbrev pub EachOf : Dict K (List A) → Type μ
  EachOf = Each (λ k xs. All (P k) xs)

  pub append_to-EachOf :
      (k : K) (x : A) (d : Dict K (List A)) → P k x → EachOf d → EachOf (append_to k x d)
  append_to-EachOf k x [] h t = ((h, tt), tt)
  append_to-EachOf k x ((j, xs) ∷ d) h t = elim (Bool-cases (j == k)) [
    | inl q ↦ rw q (
      All-append (P j) xs (x ∷ []) t.0 (subst (λ i. P i x) (sym ((e.beq_iff j k).0 q)) h, tt),
      t.1,
    )
    | inr q ↦ rw q (t.0, append_to-EachOf k x d h t.1)
  ]
