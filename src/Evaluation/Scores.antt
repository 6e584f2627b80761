-- ===== src/Evaluation/Scores.antt =====
-- The metrics of one ranking, related to each other and to the best ranking.
use oecophylla.Common.{
  ℕ, ◌+◌, ◌≤◌, ◌<◌, ◌≡◌, refl, ap, ◌∙◌, Bool, true, false, List, [], ◌∷◌, ◌++◌, ok, arith,
  if◌then◌else◌, length, take, All, is_empty, leb, min,
}
use oecophylla.Common.Eq.{Eq, elem}
use oecophylla.Common.Float.{Arith, zero_f}
use oecophylla.Evaluation.Metrics.{
  distinct, hits, found, fraction, precision_at_k, recall_at_k, discount, ideal_from, gain_from,
  ndcg_at_k,
}
use oecophylla.Evaluation.Hits.{hits-le, found-le, found_le_relevant}

module _ (a : Arith) {K : Type 0} ⦃e : Eq K⦄ (k : ℕ) (ranked relevant : List K) where
  -- For a positive k and some relevant item, the precision is the hits in the first k over k, and the recall
  -- is the distinct hits over the distinct relevant items: the hits are at most k, and the distinct hits at
  -- most the hits and at most the relevant items.
  pub precision_recall_bounds :
      0 < k
      → is_empty (distinct relevant) ≡ false
      → let set = distinct relevant in
        (precision_at_k a ranked relevant k ≡ ok (fraction a (hits k ranked set) k))
        × (recall_at_k a ranked relevant k ≡ ok (fraction a (found k ranked set) (length set)))
        × (hits k ranked set ≤ k)
        × (found k ranked set ≤ hits k ranked set)
        × (found k ranked set ≤ length set)
  unfolding precision_at_k recall_at_k
  precision_recall_bounds p q =
      let set = distinct relevant in
      let positive : leb k 0 ≡ false = ground arith in
      (
        rw positive refl,
        rw positive (rw q refl),
        hits-le k ranked set,
        found-le k ranked set,
        found_le_relevant k ranked set,
      )

module _ (a : Arith) (log2 : a.F → a.F) {K : Type 0} ⦃e : Eq K⦄ where
  gain_from-best :
      (rank : ℕ) (sum : a.F) (best rest relevant : List K)
      → All (λ x. elem x relevant ≡ true) best
      → gain_from a log2 rank sum (best ++ rest) relevant
        ≡ gain_from a log2
            (rank + length best)
            (ideal_from a log2 rank sum (length best))
            rest
            relevant
  unfolding gain_from ideal_from
  gain_from-best rank sum [] rest relevant h =
      ap (λ (n : ℕ). gain_from a log2 n sum rest relevant) (omega arith)
  gain_from-best rank sum (x ∷ best) rest relevant h =
      let next = a.add sum (discount a log2 rank) in
      ap
        (λ (b : Bool).
          gain_from a log2 (rank + 1) (if b then next else sum) (best ++ rest) relevant)
        h.0
      ∙ gain_from-best (rank + 1) next best rest relevant h.1
      ∙ ap
          (λ (n : ℕ).
            gain_from a log2 n (ideal_from a log2 (rank + 1) next (length best)) rest relevant)
          (omega arith)

  gain_from-rest :
      (rank : ℕ) (sum : a.F) (rest relevant : List K)
      → All (λ x. elem x relevant ≡ false) rest
      → gain_from a log2 rank sum rest relevant ≡ sum
  unfolding gain_from
  gain_from-rest rank sum [] relevant h = refl
  gain_from-rest rank sum (x ∷ rest) relevant h =
      rw h.0 (gain_from-rest (rank + 1) sum rest relevant h.1)

  -- If the first k items have as many relevant items as k allows, all of them in front, the gain is the ideal
  -- gain: the score is the ideal over itself, or 0 if there is nothing relevant or no ideal gain.
  pub ndcg_at_k_ideal :
      (ranked relevant best rest : List K) (k : ℕ)
      → 0 < k
      → take k ranked ≡ best ++ rest
      → All (λ x. elem x (distinct relevant) ≡ true) best
      → All (λ x. elem x (distinct relevant) ≡ false) rest
      → length best ≡ min k (length (distinct relevant))
      → let ideal = ideal_from a log2 0 (zero_f a) (min k (length (distinct relevant))) in
        ndcg_at_k a log2 ranked relevant k
        ≡ ok (
            if is_empty (distinct relevant)
            then zero_f a
            else (if a.equal ideal (zero_f a) then zero_f a else a.div ideal ideal))
  unfolding ndcg_at_k
  ndcg_at_k_ideal ranked relevant best rest k p t b r l =
      let set = distinct relevant in
      let positive : leb k 0 ≡ false = ground arith in
      let gain : gain_from a log2 0 (zero_f a) (take k ranked) set
          ≡ ideal_from a log2 0 (zero_f a) (min k (length set)) =
        ap (λ xs. gain_from a log2 0 (zero_f a) xs set) t
        ∙ gain_from-best 0 (zero_f a) best rest set b
        ∙ gain_from-rest (0 + length best) (ideal_from a log2 0 (zero_f a) (length best)) rest set r
        ∙ ap (ideal_from a log2 0 (zero_f a)) l in
      rw positive (rw gain refl)
