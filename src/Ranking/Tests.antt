-- ===== src/Ranking/Tests.antt =====
-- Witness: two posts of one author and topic, and one of another.
use oecophylla.Common.{◌≡◌, some, List, [], ◌∷◌, ◌++◌, Permᴰ, length, min}
use oecophylla.Common.Int.{ℤ, pos}
use oecophylla.Common.Fixed.{thousandths}
use oecophylla.Ranking.{RecommendationItem, Posts, diversity_rerank}
use oecophylla.Ranking.Rerank.{diversity_rerank-perm}

abbrev items : List (RecommendationItem ℤ)
items =
    record { post_id = "p"; score = pos 900 }
    ∷ record { post_id = "q"; score = pos 880 }
    ∷ record { post_id = "r"; score = pos 850 }
    ∷ []

abbrev posts : Posts thousandths
posts = record {
  primary_topic = ("p", some "rust") ∷ ("q", some "rust") ∷ ("r", some "go") ∷ [];
  author_id = ("p", "a") ∷ ("q", "a") ∷ ("r", "b") ∷ [];
}

diversity_rerank-perm_example :
    let result = diversity_rerank thousandths posts 2 items in
    (length result ≡ min 2 (length items))
    × ((rest : List (RecommendationItem ℤ)) × Permᴰ items (result ++ rest))
diversity_rerank-perm_example = diversity_rerank-perm thousandths posts 2 items
