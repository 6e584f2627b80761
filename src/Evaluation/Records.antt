-- ===== src/Evaluation/Records.antt =====
-- The records of evaluate.py, and what the evaluation raises.
use oecophylla.Common.{String, Option, List, Outcome}
use oecophylla.Common.Dict.{Dict}
use oecophylla.Common.Int.{ℤ}
use oecophylla.Common.Value.{Datetime, Fields}
use oecophylla.Label.{LabelVersion}

pub record ImpressionRecord : Type 0 where
  pub id : String
  pub request_id : String
  pub user_id : String
  pub post_id : String
  pub position : ℤ
  pub feed_source : String
  pub topics : List String
  pub served_at : Datetime

pub record BehaviorRecord (F : Type 0) : Type 0 where
  pub impression_id : Option String
  pub user_id : String
  pub post_id : String
  pub event_type : String
  pub occurred_at : Datetime
  pub dwell_ms : Option ℤ
  pub metadata : Option (Fields F)
  pub event_id : Option String
  pub ingested_at : Option Datetime
  pub event_version : Option LabelVersion

pub record TemporalSplit (F : Type 0) : Type 0 where
  pub training_events : List (BehaviorRecord F)
  pub validation_impressions : List ImpressionRecord
  pub label_events_by_impression : Dict String (List (BehaviorRecord F))

pub data EvaluationError : Type 0 where
  window_not_positive no_timezone cutoff_too_late out_of_range : EvaluationError

abbrev pub Evaluated : Type 0 → Type 0
Evaluated A = Outcome EvaluationError A
