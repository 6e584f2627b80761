-- ===== src/Dataset/Records.antt =====
-- The records of schemas.py and the configuration of config.py, as far as the builders read them. A UUID
-- is its canonical text, whose order is the UUIDs'. A parameter `Library` holds what the code calls of
-- Python and of hashlib and hmac.
use oecophylla.Common.{ℕ, String, Bool, Option, List}
use oecophylla.Common.Int.{ℤ}
use oecophylla.Common.Value.{Value, Fields, null, int, str, uuid, stamp, aware, mapping, end, field}
use oecophylla.Label.{Runtime, LabelVersion, Semantic, LabelError, Event, of_object}
use oecophylla.Dataset.Rows.{SplitName}
use oecophylla.Dataset.Split.{SplitError}

pub record Library (F : Type 0) : Type 0 where
  pub runtime : Runtime F
  -- `==` of two mappings
  pub same_fields : Fields F → Fields F → Bool
  -- `s.strip()`
  pub strip : String → String
  -- `float(value)`, unless it raises
  pub float_of : Value F → Option F
  -- `f"sample-{n:09d}"`
  pub sample_name : ℕ → String
  -- The hexadecimal digests, of the UTF-8 bytes of a text.
  pub sha256 : String → String
  pub hmac_sha256 : String → String → String

pub data IdentityMode : Type 0 where
  hash drop : IdentityMode

pub record DatasetConfig (F : Type 0) : Type 0 where
  pub start : ℕ
  pub end_at : ℕ
  pub extraction_time : ℕ
  pub label_window_hours : ℕ
  pub qualified_read_ms : ℕ
  pub recommendation_label_version : LabelVersion
  pub identity_mode : IdentityMode
  pub hash_salt : Option String
  pub train_fraction : F
  pub validation_fraction : F
  pub history_recent_limit : ℤ
  pub history_long_term_limit : ℤ

pub record Impression (F : Type 0) : Type 0 where
  pub id : String
  pub request_id : String
  pub user_id : String
  pub post_id : String
  pub position : ℤ
  pub feed_source : String
  pub model_version : String
  pub feature_snapshot : Fields F
  pub served_at : ℕ

pub record BehaviorEvent (F : Type 0) : Type 0 where
  pub id : String
  pub impression_id : Option String
  pub user_id : String
  pub post_id : String
  pub event_type : String
  pub dwell_ms : Option ℤ
  pub occurred_at : ℕ
  pub ingested_at : Option ℕ
  pub event_version : Option String
  pub metadata : Option (Fields F)

pub record ArticleFeatureRecord (F : Type 0) : Type 0 where
  pub id : String
  pub post_id : String
  pub encoder_version : String
  pub content_hash : String
  pub embedding : List F
  pub source_updated_at : ℕ
  pub computed_at : ℕ

-- `HistoryEntry`; its event type is always a click.
pub record HistoryEntry (F : Type 0) : Type 0 where
  pub event_id : String
  pub post_id : String
  pub engaged_at : ℕ
  pub encoder_version : String
  pub content_hash : String
  pub feature_source_updated_at : ℕ
  pub feature_computed_at : ℕ
  pub embedding : List F

pub record HistorySnapshot (F : Type 0) : Type 0 where
  pub user_id : String
  pub reference_at : ℕ
  pub entries : List (HistoryEntry F)

pub record DatasetRow (F : Type 0) : Type 0 where
  pub sample_id : String
  pub user_group : Option String
  pub post_group : Option String
  pub request_group : Option String
  pub row_split : SplitName
  pub label : ℤ
  pub label_name : Semantic
  pub served_at : ℕ
  pub visible_at : ℕ
  pub position : ℤ
  pub feed_source : String
  pub model_version : String
  pub topic_relevance : Option F
  pub freshness : Option F
  pub safety_score : Option F
  pub candidate_source : String
  pub is_followed_author : Value F
  pub author_affinity : Option F
  pub heuristic_score : Option F
  pub ml_score : Option F
  pub audit_user_id : String
  pub audit_post_id : String
  pub audit_request_identity : String

pub record BuildStats : Type 0 where
  pub impressions_read : ℕ
  pub events_read : ℕ
  pub served_without_visible : ℕ
  pub immature_impressions : ℕ
  pub unsupported_feature_schema : ℕ

pub record BuildResult (F : Type 0) : Type 0 where
  pub rows : List (DatasetRow F)
  pub stats : BuildStats

-- What the builders raise or let through.
pub data BuildError : Type 0 where
  conflicting_duplicate : String → BuildError
  conflicting_request : BuildError
  negative_history_limit : BuildError
  mixed_in_impression : BuildError
  mixed_in_run : BuildError
  version_mismatch : BuildError
  label_failed : LabelError → BuildError
  missing_feature : String → BuildError
  bad_float : BuildError
  bad_label : BuildError
  split_failed : SplitError → BuildError

module _ {F : Type 0} where
  abbrev or_none : {A : Type 0} → (A → Value F) → Option A → Value F
  or_none f o = elim o [ Option.some a ↦ f a | Option.none ↦ null ]

  -- An event as recommendation_label reads it: an object with attributes.
  abbrev pub event_object : BehaviorEvent F → Event F
  event_object e = of_object (
      field "id" (uuid e.id) (
        field "impression_id" (or_none uuid e.impression_id) (
          field "user_id" (uuid e.user_id) (
            field "post_id" (uuid e.post_id) (
              field "event_type" (str e.event_type) (
                field "dwell_ms" (or_none int e.dwell_ms) (
                  field "occurred_at" (stamp (aware e.occurred_at)) (
                    field "ingested_at" (or_none (λ t. stamp (aware t)) e.ingested_at) (
                      field "event_version" (or_none str e.event_version)
                        (field "metadata" (or_none mapping e.metadata) end))))))))))
