-- ===== src/Evaluation/Tests.antt =====
-- Witnesses: the theorems on the evaluation at one impression behind a cutoff, and at short rankings.
use oecophylla.Evaluation.Split.{
  split_between, is_training, is_validation, impression_le, identify, label_events, label_for,
  is_label,
}
use oecophylla.Common.Filter.{filter_ok}
use oecophylla.Common.Sort.{sort, place}
use oecophylla.Common.Text.{str_le}
use oecophylla.Common.{
  ℕ, ◌≤◌, ◌<◌, ◌≡◌, refl, String, Option, none, some, List, [], ◌∷◌, Memᴰ, ok, arith,
}
use oecophylla.Common.Eq.{string_eq}
use oecophylla.Common.Fixed.{thousandths}
use oecophylla.Common.Float.{zero_f}
use oecophylla.Common.Int.{ℤ, pos}
use oecophylla.Common.Value.{aware}
use oecophylla.Evaluation.Metrics.{
  distinct, hits, found, fraction, precision_at_k, recall_at_k, ideal_from, ndcg_at_k,
}
use oecophylla.Evaluation.Records.{ImpressionRecord, BehaviorRecord, TemporalSplit}
use oecophylla.Evaluation.Split.{build_temporal_split, microseconds, aware_utc}
use oecophylla.Evaluation.Times.{IsAt}
use oecophylla.Evaluation.Leakage.{
  IsSeparate, build_temporal_split-IsSeparate, build_temporal_split-lt,
}
use oecophylla.Evaluation.Scores.{precision_recall_bounds, ndcg_at_k_ideal}

abbrev shown : ImpressionRecord
shown = record {
  id = "i";
  request_id = "q";
  user_id = "u";
  post_id = "p";
  position = pos 0;
  feed_source = "feed";
  topics = [];
  served_at = aware 100;
}

abbrev click_at : Option String → ℕ → BehaviorRecord ℤ
click_at impression t = record {
  impression_id = impression;
  user_id = "u";
  post_id = "p";
  event_type = "click";
  occurred_at = aware t;
  dwell_ms = none;
  metadata = none;
  event_id = none;
  ingested_at = none;
  event_version = none;
}

abbrev learned : BehaviorRecord ℤ
learned = click_at none 50

abbrev predicted : BehaviorRecord ℤ
predicted = click_at (some "i") 150

abbrev parts : TemporalSplit ℤ
parts = record {
  training_events = learned ∷ [];
  validation_impressions = shown ∷ [];
  label_events_by_impression = ("i", predicted ∷ []) ∷ [];
}

divided :
    build_temporal_split (shown ∷ []) (learned ∷ predicted ∷ []) (aware 90) 1 (aware 4000000000)
    ≡ ok parts
unfolding build_temporal_split split_between aware_utc filter_ok is_training is_validation
    impression_le identify label_events label_for is_label sort place str_le
divided = refl

build_temporal_split-IsSeparate_example :
    (cutoff : ℕ) × (evaluation_time : ℕ) × IsAt (aware 90) cutoff
    × IsAt (aware 4000000000) evaluation_time
    × IsSeparate cutoff evaluation_time (microseconds 1) parts
build_temporal_split-IsSeparate_example =
    build_temporal_split-IsSeparate (shown ∷ []) (learned ∷ predicted ∷ []) (aware 90) 1
      (aware 4000000000) parts divided

build_temporal_split-lt_example : 50 < 150
unfolding aware_utc
build_temporal_split-lt_example =
    build_temporal_split-lt (shown ∷ []) (learned ∷ predicted ∷ []) (aware 90) 1 (aware 4000000000)
      parts learned predicted "i" (predicted ∷ []) 50 150 divided (Memᴰ.head refl) refl
      (Memᴰ.head refl) refl refl

abbrev ranking : List String
ranking = "a" ∷ "b" ∷ "c" ∷ []

abbrev liked : List String
liked = "a" ∷ "z" ∷ []

precision_recall_bounds_example :
    (precision_at_k thousandths ranking liked 2 ≡ ok (fraction thousandths 1 2))
    × (recall_at_k thousandths ranking liked 2 ≡ ok (fraction thousandths 1 2))
    × (1 ≤ 2)
    × (1 ≤ 1)
    × (1 ≤ 2)
unfolding distinct hits found
precision_recall_bounds_example =
    precision_recall_bounds thousandths 2 ranking liked (omega arith) refl

ndcg_at_k_ideal_example :
    let ideal = ideal_from thousandths (λ x. x) 0 (zero_f thousandths) 1 in
    ndcg_at_k thousandths (λ x. x) ranking ("a" ∷ []) 2 ≡ ok (thousandths.div ideal ideal)
unfolding distinct ideal_from
ndcg_at_k_ideal_example =
    ndcg_at_k_ideal thousandths (λ x. x) ranking ("a" ∷ []) ("a" ∷ []) ("b" ∷ []) 2 (omega arith)
      refl (refl, tt) (refl, tt) (refl)
