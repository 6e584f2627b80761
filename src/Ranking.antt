-- ===== src/Ranking.antt =====
-- recommendation_api/app/ranking.py: the relevance, the decay, the feature snapshot and the diversity
-- rerank. The detector of the content's language, over Unicode tables, is a field of `TextLibrary`.
pub mod Rerank
mod Tests
use text.Mathlib.Text.{◌==◌ as str_eq}
use oecophylla.Common.{
  ℕ, zero, suc, ◌+◌, String, ◌≡◌, Bool, true, false, ◌&&◌, not, Option, none, some, List, [], ◌∷◌,
  ◌++◌, map, if◌then◌else◌, length, keep_if, is_empty, ltb,
}
use oecophylla.Common.Int.{ℤ, pos, sub_ℕ}
use oecophylla.Common.Float.{Arith, whole, zero_f, max_f, sum_from}
use oecophylla.Common.Dict.{Dict, lookup, lookup_or, values}
use oecophylla.Common.Eq.{string_eq, option_eq, elem, ◌==◌}
use oecophylla.Common.Text.{str_le}
use oecophylla.Common.Sort.{sort}
use oecophylla.Release.Gate.{sorted_texts}

-- `CandidatePost`; `safety_score` is a float already.
pub record CandidatePost (F : Type 0) : Type 0 where
  pub id : String
  pub author_id : String
  pub topics : List String
  pub safety_score : F
  pub created_at : ℕ
  pub source : String
  pub content : String

-- `RankFeatureSnapshot`, the fields that the heuristic fills.
pub record RankFeatureSnapshot (F : Type 0) : Type 0 where
  pub schema_version : String
  pub topic_relevance : F
  pub freshness : F
  pub safety_score : F
  pub candidate_source : String
  pub heuristic_score : F
  pub candidate_published_at : ℕ
  pub content_language : String
  pub language_detector_version : String
  pub declared_topics : List String
  pub preference_observed_at : ℕ

-- `RecommendationItem`, as far as the rerank reads it.
pub record RecommendationItem (F : Type 0) : Type 0 where
  pub post_id : String
  pub score : F

pub record TextLibrary : Type 0 where
  pub detect_content_language : String → String

-- The keyword arguments of `build_rank_feature_snapshot`.
pub record Scoring (F : Type 0) : Type 0 where
  pub weights : F × (F × (F × F))
  pub diversity_boost : F
  pub half_life_hours : F
  pub declared_topics : List String
  pub observed_at : ℕ

module _ (a : Arith) where
  open a use {F, ratio, add, sub, mul, div, neg, lt, exp}

  -- `freshness_decay`, between two instants in microseconds
  unfoldable pub freshness_decay : ℕ → F → ℕ → F
  freshness_decay created_at half_life_hours observed_at =
      let hours =
        max_f a (zero_f a) (div (ratio (sub_ℕ observed_at created_at) 1000000) (whole a 3600)) in
      exp (div (neg hours) half_life_hours)

  -- `sum(max(f(x), 0.0) for x in xs)`
  abbrev pub positive_sum : List F → F
  positive_sum xs = sum_from a (zero_f a) (map (λ x. max_f a x (zero_f a)) xs)

  abbrev share : F → F → F
  share part total = if lt (zero_f a) total then div part total else zero_f a

  -- `relevance`
  unfoldable pub relevance : Dict String F → List String → F
  relevance user_vec post_topics =
      let topics = keep_if (λ t. not (str_eq t "")) post_topics in
      let weights = map (λ t. lookup_or t (zero_f a) user_vec) topics in
      let positive = share (positive_sum weights) (positive_sum (values user_vec)) in
      let negative =
        share (positive_sum (map neg weights)) (positive_sum (map neg (values user_vec))) in
      if is_empty user_vec
      then zero_f a
      else (if is_empty topics then zero_f a else sub positive negative)

  -- `build_rank_feature_snapshot`
  unfoldable pub build_rank_feature_snapshot :
      TextLibrary → Dict String F → CandidatePost F → Scoring F → RankFeatureSnapshot F
  build_rank_feature_snapshot library user_vec post s =
      let topic_relevance = relevance user_vec post.topics in
      let freshness = freshness_decay post.created_at s.half_life_hours s.observed_at in
      let (w1, (w2, (w3, w4))) = s.weights in
      let heuristic_score =
        sub (add (add (mul w1 topic_relevance) (mul w2 freshness)) (mul w3 post.safety_score))
          (mul w4 (sub (whole a 1) s.diversity_boost)) in
      record {
        schema_version = "rank-features-v2";
        topic_relevance = topic_relevance;
        freshness = freshness;
        safety_score = post.safety_score;
        candidate_source = post.source;
        heuristic_score = heuristic_score;
        candidate_published_at = post.created_at;
        content_language = library.detect_content_language post.content;
        language_detector_version = "unicode-script-heuristic-v1";
        declared_topics = sorted_texts s.declared_topics;
        preference_observed_at = s.observed_at;
      }

  -- `score_post`
  unfoldable pub score_post : TextLibrary → Dict String F → CandidatePost F → Scoring F → F
  score_post library user_vec post s =
      (build_rank_feature_snapshot library user_vec post s).heuristic_score

  -- `sorted(items, key=lambda x: x.score, reverse=True)`, stable
  unfoldable pub by_score : RecommendationItem F → RecommendationItem F → Bool
  by_score x y = not (lt x.score y.score)

  -- The dicts of the posts' topics and authors.
  pub record Posts : Type 0 where
    pub primary_topic : Dict String (Option String)
    pub author_id : Dict String String

  abbrev topic_of : Posts → RecommendationItem F → Option String
  topic_of posts item = elim (lookup item.post_id posts.primary_topic) [ none ↦ none | some t ↦ t ]

  -- `{primary_topic.get(...) for s in selected}`
  abbrev seen_topics : Posts → List (RecommendationItem F) → List (Option String)
  seen_topics posts [] = []
  seen_topics posts (s ∷ selected) =
      let later = seen_topics posts selected in
      if elem (topic_of posts s) later then later else topic_of posts s ∷ later

  -- `selected[-1]`
  abbrev last_of : List (RecommendationItem F) → Option (RecommendationItem F)
  last_of [] = none
  last_of (x ∷ []) = some x
  last_of (x ∷ y ∷ xs) = last_of (y ∷ xs)

  abbrev when : Bool → F → F → F
  when b penalty x = if b then add x penalty else x

  -- `adjusted`
  unfoldable pub adjusted : Posts → List (RecommendationItem F) → RecommendationItem F → F
  adjusted posts selected item =
      let seen = seen_topics posts selected in
      let after_last : F = elim (last_of selected) [
        | none ↦ zero_f a
        | some last ↦
            let same_author : Bool =
              lookup item.post_id posts.author_id == lookup last.post_id posts.author_id in
            let one = when same_author (ratio (pos 8) 100) (zero_f a) in
            when (topic_of posts item == topic_of posts last) (ratio (pos 5) 100) one
      ] in
      sub item.score (
        when (elem (topic_of posts item) seen && ltb (length seen) 3) (ratio (pos 4) 100)
          after_last)

  -- `max(remaining, key=adjusted)`, the first of the best, and `remaining` without it.
  unfoldable pub pick :
      (RecommendationItem F → F)
      → RecommendationItem F
      → List (RecommendationItem F)
      → RecommendationItem F × List (RecommendationItem F)
  pick key item [] = (item, [])
  pick key item (next ∷ items) =
      let (best, rest) = pick key next items in
      if lt (key item) (key best) then (best, item ∷ rest) else (item, next ∷ items)

  -- The items that the loop selects from here on, at most as many as the first argument.
  unfoldable pub select :
      Posts
      → ℕ
      → List (RecommendationItem F)
      → List (RecommendationItem F)
      → List (RecommendationItem F)
  select posts zero selected remaining = []
  select posts (suc n) selected [] = []
  select posts (suc n) selected (item ∷ items) =
      let (best, rest) = pick (adjusted posts selected) item items in
      best ∷ select posts n (selected ++ best ∷ []) rest

  -- `diversity_rerank`
  unfoldable pub diversity_rerank :
      Posts → ℕ → List (RecommendationItem F) → List (RecommendationItem F)
  diversity_rerank posts limit items = select posts limit [] (sort by_score items)
