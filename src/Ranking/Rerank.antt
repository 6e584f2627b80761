-- ===== src/Ranking/Rerank.antt =====
-- The rerank neither invents nor repeats an item.
use oecophylla.Common.{
  ℕ, zero, suc, ◌≡◌, refl, List, [], ◌∷◌, ◌++◌, Permᴰ, arith, length, min, Permᴰ-length, Bool-cases,
  inl, inr,
}
use mathlib.Core.List.Permᴰ
use oecophylla.Common.Float.{Arith}
use oecophylla.Common.Sort.{sort, sort-perm}
use oecophylla.Ranking.{
  RecommendationItem, Posts, by_score, adjusted, pick, select, diversity_rerank,
}

module _ (a : Arith) where
  pick-perm :
      (key : RecommendationItem a.F → a.F) (item : RecommendationItem a.F)
      (items : List (RecommendationItem a.F))
      → let (best, rest) = pick a key item items in Permᴰ (item ∷ items) (best ∷ rest)
  unfolding pick
  pick-perm key item [] = Permᴰ.refl (item ∷ [])
  pick-perm key item (next ∷ items) =
      let (best, rest) = pick a key next items in
      elim (Bool-cases (a.lt (key item) (key best))) [
        | inl better ↦
            rw better
              (Permᴰ.trans (Permᴰ.cons refl (pick-perm key next items)) (Permᴰ.swap refl refl))
        | inr worse ↦ rw worse (Permᴰ.refl (item ∷ next ∷ items))
      ]

  -- The items that are not selected.
  abbrev Leftover : List (RecommendationItem a.F) → List (RecommendationItem a.F) → ℕ → Type 0
  Leftover remaining selected n =
      (length selected ≡ min n (length remaining))
      × ((rest : List (RecommendationItem a.F)) × Permᴰ remaining (selected ++ rest))

  select-Leftover :
      (posts : Posts a) (n : ℕ) (selected remaining : List (RecommendationItem a.F))
      → Leftover remaining (select a posts n selected remaining) n
  unfolding select
  select-Leftover posts zero selected remaining = (omega arith, (remaining, Permᴰ.refl remaining))
  select-Leftover posts (suc n) selected [] = (omega arith, ([], Permᴰ.nil))
  select-Leftover posts (suc n) selected (item ∷ items) =
      let (best, rest) = pick a (adjusted a posts selected) item items in
      let (l, (left, p)) = select-Leftover posts n (selected ++ best ∷ []) rest in
      let picked = pick-perm (adjusted a posts selected) item items in
      (omega (arith, l, Permᴰ-length picked), (left, Permᴰ.trans picked (Permᴰ.cons refl p)))

-- The rerank returns as many items as the limit allows, and its result is a selection: with some
-- rest it is a permutation of the items given, so that no item is invented or repeated.
pub diversity_rerank-perm :
    (a : Arith) (posts : Posts a) (limit : ℕ) (items : List (RecommendationItem a.F))
    → let result = diversity_rerank a posts limit items in
      (length result ≡ min limit (length items))
      × ((rest : List (RecommendationItem a.F)) × Permᴰ items (result ++ rest))
unfolding diversity_rerank
diversity_rerank-perm a posts limit items =
    let (l, (rest, p)) = select-Leftover a posts limit [] (sort (by_score a) items) in
    let sorted = sort-perm (by_score a) items in
    (omega (arith, l, Permᴰ-length sorted), (rest, Permᴰ.trans (Permᴰ.symm sorted) p))
