-- ===== src/Evaluation/Metrics.antt =====
-- metrics.py: the ranking metrics. A set is the list of its elements, each once; an integer division is the
-- float nearest to the fraction.
use oecophylla.Common.{
  ℕ, zero, suc, ◌+◌, ◌*◌, String, ◌||◌, not, Option, none, some, List, [], ◌∷◌, map, Outcome, ok,
  raised, if◌then◌else◌, length, take, keep_if, any, is_empty, eqb, leb, min,
}
use oecophylla.Common.Eq.{Eq, ◌==◌, elem, string_eq}
use oecophylla.Common.Float.{Arith, whole, zero_f, sum_from, min_f}
use oecophylla.Common.Groups.{concat}
use oecophylla.Common.Int.{pos}

pub data MetricError : Type 0 where
  k_not_positive different_lengths not_binary : MetricError

abbrev pub Measured : Type 0 → Type 0
Measured A = Outcome MetricError A

module _ {K : Type 0} ⦃e : Eq K⦄ where
  -- `set(xs)`
  unfoldable pub distinct : List K → List K
  distinct [] = []
  distinct (x ∷ xs) = let others = distinct xs in if elem x others then others else x ∷ others

  -- `sum(item in relevant for item in ranked_items[:k])`
  unfoldable pub hits : ℕ → List K → List K → ℕ
  hits k ranked relevant = length (keep_if (λ x. elem x relevant) (take k ranked))

  -- `len(set(ranked_items[:k]) & relevant)`
  unfoldable pub found : ℕ → List K → List K → ℕ
  found k ranked relevant = length (keep_if (λ x. elem x relevant) (distinct (take k ranked)))

module _ (a : Arith) where
  abbrev pub fraction : ℕ → ℕ → a.F
  fraction m n = a.ratio (pos m) n

  -- `_validate_k`, and then a value.
  abbrev pub with_k : ℕ → a.F → Measured a.F
  with_k k value = if leb k 0 then raised k_not_positive else ok value

  module _ (log2 : a.F → a.F) where
    -- `1.0 / log2(rank + 2)`
    abbrev pub discount : ℕ → a.F
    discount rank = a.div (whole a 1) (log2 (whole a (rank + 2)))

    -- The sum over the first ranks.
    unfoldable pub ideal_from : ℕ → a.F → ℕ → a.F
    ideal_from rank sum zero = sum
    ideal_from rank sum (suc n) = ideal_from (rank + 1) (a.add sum (discount rank)) n

module _ (a : Arith) {K : Type 0} ⦃e : Eq K⦄ where
  unfoldable pub precision_at_k : List K → List K → ℕ → Measured a.F
  precision_at_k ranked relevant k = with_k a k (fraction a (hits k ranked (distinct relevant)) k)

  unfoldable pub recall_at_k : List K → List K → ℕ → Measured a.F
  recall_at_k ranked relevant k =
      let relevant = distinct relevant in
      with_k a k (
        if is_empty relevant
        then zero_f a
        else fraction a (found k ranked relevant) (length relevant))

  unfoldable pub hit_rate_at_k : List K → List K → ℕ → Measured a.F
  hit_rate_at_k ranked relevant k =
      with_k a k
        (if any (λ x. elem x (distinct relevant)) (take k ranked) then whole a 1 else zero_f a)

  -- The loop of `reciprocal_rank`, from a rank.
  unfoldable pub reciprocal_from : ℕ → List K → List K → a.F
  reciprocal_from rank [] relevant = zero_f a
  reciprocal_from rank (x ∷ ranked) relevant =
      let later = reciprocal_from (rank + 1) ranked relevant in
      if elem x relevant then a.div (whole a 1) (whole a rank) else later

  unfoldable pub reciprocal_rank : List K → List K → a.F
  reciprocal_rank ranked relevant = reciprocal_from 1 ranked (distinct relevant)

  module _ (log2 : a.F → a.F) where
    -- The sum over the relevant items, from a rank.
    unfoldable pub gain_from : ℕ → a.F → List K → List K → a.F
    gain_from rank sum [] relevant = sum
    gain_from rank sum (x ∷ ranked) relevant =
        gain_from (rank + 1) (if elem x relevant then a.add sum (discount a log2 rank) else sum)
          ranked relevant

    unfoldable pub ndcg_at_k : List K → List K → ℕ → Measured a.F
    ndcg_at_k ranked relevant k =
        let relevant = distinct relevant in
        let dcg = gain_from 0 (zero_f a) (take k ranked) relevant in
        let ideal_dcg = ideal_from a log2 0 (zero_f a) (min k (length relevant)) in
        with_k a k (
          if is_empty relevant
          then zero_f a
          else (if a.equal ideal_dcg (zero_f a) then zero_f a else a.div dcg ideal_dcg))

  unfoldable pub catalog_coverage : List (List K) → ℕ → a.F
  catalog_coverage lists catalog_size =
      if leb catalog_size 0
      then zero_f a
      else min_f a (whole a 1) (fraction a (length (distinct (concat lists))) catalog_size)

module _ (a : Arith) where
  -- The topics of a set comprehension: each topic that is not empty.
  abbrev pub named : List String → List String
  named topics = distinct (keep_if (λ t. not (t == "")) topics)

  unfoldable pub topic_diversity : List (List String) → a.F
  topic_diversity [] = zero_f a
  topic_diversity (topics ∷ others) =
      min_f a (whole a 1)
        (a.ratio (pos (length (named (concat (topics ∷ others))))) (length (topics ∷ others)))

  abbrev pub matches : List String → List (List String) → ℕ
  matches positive ranked =
      length (keep_if (λ topics. any (λ t. elem t positive) (named topics)) ranked)

  unfoldable pub topic_precision_at_k : List (List String) → List String → ℕ → Measured a.F
  topic_precision_at_k ranked positive k =
      if leb k 0
      then raised k_not_positive
      else ok (a.ratio (pos (matches (named positive) (take k ranked))) k)

  -- `zip(scores, binary_labels)`, the scores with one label.
  abbrev pub scores_of : ℕ → List (a.F × ℕ) → List a.F
  scores_of label pairs = map (λ p. p.0) (keep_if (λ p. eqb p.1 label) pairs)

  abbrev pub credit : a.F → a.F → a.F
  credit positive negative =
      if a.lt negative positive
      then whole a 1
      else (if a.equal positive negative then a.ratio (pos 1) 2 else zero_f a)

  abbrev pub credits : List a.F → List a.F → List a.F
  credits positives negatives = concat (map (λ p. map (λ n. credit p n) negatives) positives)

  abbrev pub zip : List a.F → List ℕ → List (a.F × ℕ)
  zip [] labels = []
  zip (s ∷ scores) [] = []
  zip (s ∷ scores) (l ∷ labels) = (s, l) ∷ zip scores labels

  -- A label here is a natural number; none is the case of a single class.
  unfoldable pub impression_auc : List a.F → List ℕ → Measured (Option a.F)
  impression_auc scores labels =
      let pairs = zip scores labels in
      let positives = scores_of 1 pairs in
      let negatives = scores_of 0 pairs in
      if not (eqb (length scores) (length labels))
      then raised different_lengths
      else (if any (λ l. leb 2 l) labels
          then raised not_binary
          else (if is_empty positives || is_empty negatives
              then ok none
              else (ok (
                  some (
                    a.div (sum_from a (zero_f a) (credits positives negatives))
                      (whole a (length positives * length negatives)))))))
