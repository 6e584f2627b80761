-- ===== src/Dataset/Kept.antt =====
-- What `_deduplicate` keeps.
use oecophylla.Common.{
  ◌≡◌, subst, String, Bool, List, [], ◌∷◌, Memᴰ, ok, ok-injective, Bool-cases, Option-cases, inl,
  inr, All, All-intro,
}
use text.Mathlib.Text.{◌==◌ as str_eq}
use oecophylla.Common.Dict.{Dict, values, insert, lookup}
use oecophylla.Common.Eq.{string_eq}
use oecophylla.Dataset.Checks.{deduplicate, deduplicate_from}

module _ {T : Type 0} (id_of : T → String) (same : T → T → Bool) (P : T → Type 0) where
  insert-All :
      (k : String) (x : T) (d : Dict String T)
      → P x
      → All P (values d)
      → All P (values (insert k x d))
  insert-All k x [] p h = (p, tt)
  insert-All k x ((j, y) ∷ d) p h = elim (Bool-cases (str_eq j k)) [
    | inl e ↦ rw e (p, h.1)
    | inr e ↦ rw e (h.0, insert-All k x d p h.1)
  ]

  deduplicate_from-All :
      (xs : List T) (d r : Dict String T)
      → deduplicate_from id_of same d xs ≡ ok r
      → All P xs
      → All P (values d)
      → All P (values r)
  unfolding deduplicate_from
  deduplicate_from-All [] d r h k p = subst (λ x. All P (values x)) (ok-injective d r h) p
  deduplicate_from-All (x ∷ xs) d r h k p = elim (Option-cases (lookup (id_of x) d)) [
    | inl n ↦
        deduplicate_from-All xs (insert (id_of x) x d) r (rw (n, deduplicate_from) at h) k.1
          (insert-All (id_of x) x d k.0 p)
    | inr (y, s) ↦ elim (Bool-cases (same y x)) [
      | inl e ↦ deduplicate_from-All xs d r (rw (s, e, deduplicate_from) at h) k.1 p
      | inr e ↦ cc (rw (s, e, deduplicate_from) at h)
    ]
  ]

-- What `_deduplicate` keeps is of what it is given.
pub deduplicate-mem :
    {T : Type 0} (id_of : T → String) (same : T → T → Bool) (xs : List T) (r : Dict String T)
    → deduplicate id_of same xs ≡ ok r
    → All (λ x. Memᴰ x xs) (values r)
unfolding deduplicate
deduplicate-mem id_of same xs r h =
    deduplicate_from-All id_of same (λ x. Memᴰ x xs) xs [] r h
      (All-intro (λ x. Memᴰ x xs) xs (λ x m. m)) tt
