-- ===== src/Paging/Order.antt =====
-- Users in increasing order, and where a page of them ends.
use oecophylla.Common.{
  ℕ, zero, suc, ◌≡◌, refl, sym, ap, subst, String, true, false, Option, some, List, [], ◌∷◌, ◌++◌,
  arith, Bool-cases, inl, inr, keep_if, take, drop, All, All-append_inv,
}
use mathlib.Core.List.{append_assoc}
use oecophylla.Common.Eq.{string_eq, elem}
use oecophylla.Common.Sort.{IsSorted}
use oecophylla.Common.Text.{str_le, str_le-IsOrder, str_le_antisymm}
use oecophylla.Common.Unique.{Unique}
use oecophylla.Paging.{union, is_after}

-- Each element is strictly above those before it.
abbrev pub IsIncreasing : List String → Type 0
IsIncreasing [] = Unit
IsIncreasing (u ∷ us) = All (λ v. str_le v u ≡ false) us × IsIncreasing us

increasing_from :
    (u : String) (us : List String)
    → All (λ v. str_le u v ≡ true) us
    → elem u us ≡ false
    → All (λ v. str_le v u ≡ false) us
increasing_from u [] h n = tt
increasing_from u (v ∷ us) h n = (
  ground (arith, n, h.0, str_le_antisymm u v, string_eq.beq_iff v u),
  increasing_from u us h.1 (ground (arith, n)),
)

pub IsSorted-IsIncreasing : (us : List String) → IsSorted str_le us → Unique us → IsIncreasing us
IsSorted-IsIncreasing [] s u = tt
IsSorted-IsIncreasing (x ∷ us) s u =
    (increasing_from x us s.0 u.0, IsSorted-IsIncreasing us s.1 u.1)

keep_all :
    (x : String) (us : List String)
    → All (λ v. str_le v x ≡ false) us
    → keep_if (is_after (some x)) us ≡ us
keep_all x [] h = refl
keep_all x (u ∷ us) h = rw h.0 (ap (λ l. u ∷ l) (keep_all x us h.1))

-- Behind a user of the list stand those that the next page begins with.
keep_if-is_after :
    (before : List String) (x : String) (us : List String)
    → IsIncreasing (before ++ x ∷ us)
    → keep_if (is_after (some x)) (before ++ x ∷ us) ≡ us
keep_if-is_after [] x us h =
    let same : str_le x x ≡ true = elim (Bool-cases (str_le x x)) [
      | inl e ↦ e
      | inr e ↦ str_le-IsOrder.total x x e
    ] in
    rw same (keep_all x us h.0)
keep_if-is_after (b ∷ before) x us h =
    let above = (All-append_inv (λ v. str_le v b ≡ false) before (x ∷ us) h.0).1.0 in
    rw (str_le-IsOrder.total x b above) (keep_if-is_after before x us h.1)

pub union-Unique : (us : List String) → Unique (union us)
unfolding union
union-Unique [] = tt
union-Unique (u ∷ us) = elim (Bool-cases (elem u (union us))) [
  | inl e ↦ rw e (union-Unique us)
  | inr e ↦ rw e (e, union-Unique us)
]

abbrev pub last_cursor : Option String → List String → Option String
last_cursor c [] = c
last_cursor c (u ∷ us) = last_cursor (some u) us

pub after_page :
    (before : List String) (u : String) (us rest : List String)
    → IsIncreasing (before ++ u ∷ (us ++ rest))
    → keep_if (is_after (last_cursor (some u) us)) (before ++ u ∷ (us ++ rest)) ≡ rest
after_page before u [] rest h = keep_if-is_after before u rest h
after_page before u (v ∷ us) rest h =
    let parts = append_assoc before (u ∷ []) (v ∷ (us ++ rest)) in
    subst (λ l. keep_if (is_after (last_cursor (some v) us)) l ≡ rest) parts
      (after_page (before ++ u ∷ []) v us rest (subst IsIncreasing (sym parts) h))

pub take-drop : (n : ℕ) (us : List String) → take n us ++ drop n us ≡ us
take-drop zero us = refl
take-drop (suc n) [] = refl
take-drop (suc n) (u ∷ us) = ap (λ l. u ∷ l) (take-drop n us)
