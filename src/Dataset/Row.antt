-- ===== src/Dataset/Row.antt =====
-- The row of an impression, and its interface to the splits.
use oecophylla.Common.{ℕ, ◌+◌, refl, String, Option, none, some, ok, raised, ◌>>=◌, if◌then◌else◌}
use oecophylla.Common.Eq.{string_eq}
use oecophylla.Common.Int.{ℤ, pos, negsuc}
use oecophylla.Common.Keys.{by, text_key, number_key, always}
use oecophylla.Common.Text.{join}
use oecophylla.Common.Value.{Value, Fields, get, is_none}
use oecophylla.Label.{
  LabelVersion, v1, v2, Semantic, strong_negative, negative, positive, strong_positive, LabelResult,
}
use oecophylla.Dataset.Rows.{train, RowType}
use oecophylla.Dataset.Records.{
  Library, hash, drop, DatasetConfig, Impression, DatasetRow, missing_feature, bad_float, bad_label,
}
use oecophylla.Dataset.Checks.{Built, canonical_request_identity}

-- The interface of the rows of the first schema, in the order of their exposure.
abbrev pub dataset_row : {F : Type 0} → RowType (DatasetRow F)
dataset_row = record {
  identity = λ r. r.audit_request_identity;
  served_at = λ r. r.served_at;
  sample_id = λ r. r.sample_id;
  split_of = λ r. r.row_split;
  with_split = λ s r. record r { row_split = s };
  row_le = by number_key (λ r. r.visible_at) (by text_key (λ r. r.sample_id) always);
  split_of-with_split = λ s r. refl;
  identity-with_split = λ s r. refl;
  served_at-with_split = λ s r. refl;
  sample_id-with_split = λ s r. refl;
}

-- `LABEL_VALUES[label_name]`
unfoldable pub label_value : Semantic → Option ℤ
label_value strong_negative = some (negsuc 1)
label_value negative = some (negsuc 0)
label_value positive = some (pos 1)
label_value strong_positive = some (pos 2)
label_value _ = none

-- The value of `label`: the target of version 2, or the table's of version 1.
unfoldable pub row_label : LabelVersion → LabelResult → Built ℤ
row_label v2 result = elim result.training_target [ some n ↦ ok (pos n) | none ↦ raised bad_label ]
row_label v1 result = elim (label_value result.semantic) [ some n ↦ ok n | none ↦ raised bad_label ]

-- The identifiers of a row, hashed or dropped.
pub record Groups : Type 0 where
  pub sample_id : String
  pub user_group : Option String
  pub post_group : Option String
  pub request_group : Option String

module _ {F : Type 0} (library : Library F) (config : DatasetConfig F) where
  open library use {runtime, float_of, sample_name, sha256, hmac_sha256}

  -- `config.hash_salt or ""`
  abbrev pub salt : String
  salt = elim config.hash_salt [ some s ↦ s | none ↦ "" ]

  -- `_hash_identity`
  abbrev pub hash_identity : String → String
  hash_identity value = sha256 (join salt (join ":" value))

  unfoldable pub groups_of : ℕ → Impression F → Groups
  groups_of count i = elim config.identity_mode [
    | hash ↦ record {
      sample_id = hash_identity i.id;
      user_group = some (hash_identity i.user_id);
      post_group = some (hash_identity i.post_id);
      request_group = some (hmac_sha256 salt (canonical_request_identity i));
    }
    | drop ↦ record {
      sample_id = sample_name (count + 1);
      user_group = none;
      post_group = none;
      request_group = none;
    }
  ]

  -- `snapshot[name]`
  abbrev pub feature : String → Fields F → Built (Value F)
  feature name snapshot = elim (get name snapshot) [
    | none ↦ raised (missing_feature name)
    | some v ↦ ok v
  ]

  -- `_optional_float`
  abbrev pub optional_float : Value F → Built (Option F)
  optional_float v =
      if is_none v
      then ok none
      else (elim (float_of v) [ some x ↦ ok (some x) | none ↦ raised bad_float ])

  abbrev pub float_feature : String → Fields F → Built (Option F)
  float_feature name snapshot = feature name snapshot >>= optional_float

  -- The fields of a row that the snapshot has.
  pub record Features : Type 0 where
    pub topic_relevance : Option F
    pub freshness : Option F
    pub safety_score : Option F
    pub candidate_source : Value F
    pub is_followed_author : Value F
    pub author_affinity : Option F
    pub heuristic_score : Option F
    pub ml_score : Option F

  unfoldable pub read_features : Fields F → Built Features
  read_features snapshot = float_feature "topic_relevance" snapshot >>= λ topic_relevance.
      float_feature "freshness" snapshot >>= λ freshness.
      float_feature "safety_score" snapshot >>= λ safety_score.
      feature "candidate_source" snapshot >>= λ candidate_source.
      feature "is_followed_author" snapshot >>= λ is_followed_author.
      float_feature "author_affinity" snapshot >>= λ author_affinity.
      float_feature "heuristic_score" snapshot >>= λ heuristic_score.
      float_feature "ml_score" snapshot >>= λ ml_score. ok (record {
        topic_relevance = topic_relevance;
        freshness = freshness;
        safety_score = safety_score;
        candidate_source = candidate_source;
        is_followed_author = is_followed_author;
        author_affinity = author_affinity;
        heuristic_score = heuristic_score;
        ml_score = ml_score;
      })

  abbrev pub make_row : Groups → ℤ → Semantic → Features → ℕ → Impression F → DatasetRow F
  make_row g label name f visible_at i = record {
    sample_id = g.sample_id;
    user_group = g.user_group;
    post_group = g.post_group;
    request_group = g.request_group;
    row_split = train;
    label = label;
    label_name = name;
    served_at = i.served_at;
    visible_at = visible_at;
    position = i.position;
    feed_source = i.feed_source;
    model_version = i.model_version;
    topic_relevance = f.topic_relevance;
    freshness = f.freshness;
    safety_score = f.safety_score;
    candidate_source = runtime.str_of f.candidate_source;
    is_followed_author = f.is_followed_author;
    author_affinity = f.author_affinity;
    heuristic_score = f.heuristic_score;
    ml_score = f.ml_score;
    audit_user_id = i.user_id;
    audit_post_id = i.post_id;
    audit_request_identity = canonical_request_identity i;
  }

  -- The row of an impression, with its label.
  unfoldable pub row_of : ℕ → LabelVersion → LabelResult → ℕ → Impression F → Built (DatasetRow F)
  row_of count version result visible_at i = row_label version result >>= λ label.
      read_features i.feature_snapshot >>= λ features.
      ok (make_row (groups_of count i) label result.semantic features visible_at i)
