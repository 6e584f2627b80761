-- ===== src/Worker/Queued.antt =====
-- Lemmas on the tables of `_backfill_v2`: what is looked up in a dict, and what a filter keeps.
use mathlib.Core.List.Memᴰ
use oecophylla.Common.{
  ℕ, zero, suc, ◌≡◌, refl, sym, subst, String, Bool, true, false, Option, none, some, List, [], ◌∷◌,
  Memᴰ, is_empty, inl, inr, keep_if, take, Bool-cases, All,
}
use text.Mathlib.Text.{◌==◌ as str_eq}
use text.Mathlib.TextEquality.{eq_iff}
use oecophylla.Common.Dict.{Dict, keys, lookup, contains}
use oecophylla.Common.Eq.{string_eq}
use oecophylla.Worker.Store.{Row}

module _ {ℓ} {V : Type ℓ} where
  abbrev pub is_some : Option V → Bool
  is_some none = false
  is_some (some v) = true

  pub contains-lookup : (k : String) (d : Dict String V) → contains k d ≡ is_some (lookup k d)
  contains-lookup k [] = refl
  contains-lookup k ((j, v) ∷ d) = elim (Bool-cases (str_eq j k)) [
    | inl e ↦ rw e refl
    | inr e ↦ rw e (contains-lookup k d)
  ]

module _ {ℓ} {A : Type ℓ} (p : A → Bool) where
  pub keep_if-mem : (x : A) (xs : List A) → Memᴰ x xs → p x ≡ true → Memᴰ x (keep_if p xs)
  keep_if-mem x [] m h = elim m [ ]
  keep_if-mem x (y ∷ xs) m h = elim (Memᴰ.cases_cons m) [
    | inl q ↦ let e : p y ≡ true = subst (λ z. p z ≡ true) q h in rw e (Memᴰ.head q)
    | inr r ↦ elim (Bool-cases (p y)) [
      | inl e ↦ rw e (Memᴰ.tail (keep_if-mem x xs r h))
      | inr e ↦ rw e (keep_if-mem x xs r h)
    ]
  ]

  pub All-take_kept :
      (n : ℕ) (xs : List A) → All (λ x. p x ≡ true) xs → All (λ x. p x ≡ true) (take n xs)
  All-take_kept zero xs h = tt
  All-take_kept (suc n) [] h = tt
  All-take_kept (suc n) (x ∷ xs) h = (h.0, All-take_kept n xs h.1)

  pub All-kept : (xs : List A) → All (λ x. p x ≡ true) (keep_if p xs)
  All-kept [] = tt
  All-kept (x ∷ xs) = elim (Bool-cases (p x)) [
    | inl e ↦ rw e (e, All-kept xs)
    | inr e ↦ rw e (All-kept xs)
  ]

pub rows-mem :
    (u : String) (d : Dict String (List Row))
    → is_empty (elim (lookup u d) [ none ↦ [] | some rows ↦ rows ]) ≡ false
    → Memᴰ u (keys d)
rows-mem u [] h = cc
rows-mem u ((j, rows) ∷ d) h = elim (Bool-cases (str_eq j u)) [
  | inl e ↦ Memᴰ.head (sym ((eq_iff j u).0 e))
  | inr e ↦ Memᴰ.tail (rows-mem u d (rw e at h))
]
