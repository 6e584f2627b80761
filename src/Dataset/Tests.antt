-- ===== src/Dataset/Tests.antt =====
-- Witnesses: the theorems on datasets at two requests of one post each, and a click on each.
use oecophylla.Dataset.Samples.{
  collect_unique, walk, add_impressions, impression_le, add_impression, label_row, judged,
  check_version, observe, only_version,
}
use oecophylla.Dataset.Checks.{
  deduplicate_from, validate_request_envelopes, see_requests, see_request, verified_exposure_at,
  validate_snapshot,
}
use oecophylla.Dataset.Latest.{select_history_feature-latest}
use oecophylla.Common.Sort.{sort, place}
use oecophylla.Common.Traverse.{traverse}
use oecophylla.Common.Text.{str_le}
use oecophylla.Dataset.Row.{groups_of, label_value, read_features, row_label, row_of}
use oecophylla.Label.Accept.{key_all, key_le, keyed, see, see_all}
use oecophylla.Label.Judge.{
  add_read, apply_other, apply_read, apply_type, candidates, conclude, count_read, derive_label,
  duration_of, engaged, first_in, judge, replay, replay_one, reversal, stateful, type_of,
}
use oecophylla.Label.{
  canonical_payload, canonical_value, event_label_version, event_mapping, mapping_value, timestamp,
  value_of,
}
use oecophylla.Dataset.Samples.{split_samples}
use oecophylla.Dataset.Split.{
  split_rows, split_groups, ordered_groups, group_time, group_le, test_count, validation_count,
  snapped_ends, snap_down, choose, assign, split_at, assert_atomic_request_splits,
}
use oecophylla.Common.Groups.{group_from}
use oecophylla.Dataset.Row.{dataset_row}
use oecophylla.Dataset.Temporal.{SameTime}
use oecophylla.Dataset.Splits.{
  split_ranking_rows-lt, split_ranking_rows-perm, split_ranking_rows-atomic,
}
use oecophylla.Dataset.History.{feature_le, entry_of, build_history_snapshot, history_total_limit}
use oecophylla.Dataset.Clicks.{IsClick}
use oecophylla.Dataset.Past.{IsHistory, build_history_snapshot-IsHistory}
use oecophylla.Dataset.Records.{ArticleFeatureRecord, HistorySnapshot}
use oecophylla.Dataset.Split.{
  split_ranking_rows, split_ranking_groups, balanced_ends, snap_split_boundary, snap_up, score_le,
  empty_sides, preferred_empty,
}
use oecophylla.Dataset.History.{select_history_feature, latest}
use oecophylla.Dataset.History.{
  sum_of_limits, selected_events, qualifying, qualifies_for_history, happened_before, event_le,
  history_entries, finish_history,
}
use oecophylla.Common.{
  ap, sym, ◌∙◌, ℕ, String, ◌≤◌, ◌<◌, ◌+◌, ◌≡◌, refl, true, false, none, some, List, [], ◌∷◌, map,
  Memᴰ, Permᴰ, ok, arith, if◌then◌else◌, eqb, All, length, keep_if,
}
use oecophylla.Common.Dict.{Dict, values}
use oecophylla.Common.Fixed.{thousandths}
use oecophylla.Common.Text.{str_ne}
use oecophylla.Common.Int.{ℤ, pos}
use oecophylla.Common.Value.{Value, str, null, bool, Fields, end, field}
use oecophylla.Label.{v1, positive}
use oecophylla.Dataset.Rows.{SplitName, train, test}
use oecophylla.Dataset.Records.{
  Library, drop, DatasetConfig, Impression, BehaviorEvent, DatasetRow, BuildResult,
}
use oecophylla.Dataset.Checks.{deduplicate, same_impression}
use oecophylla.Dataset.Samples.{Progress, in_window, collect, build_samples}
use oecophylla.Dataset.Guarantees.{
  IsMature, build_samples-lt, build_samples-IsMature, build_samples-counts, build_samples-total,
}

abbrev text_of : Value ℤ → String
text_of (str s) = s
text_of _ = ""

abbrev small : Library ℤ
small = record {
  runtime = record {
    from_isoformat = λ s. none;
    isoformat = λ d. "";
    str_of = text_of;
    int_of = λ v. none;
    dumps = λ v. "";
  };
  same_fields = λ f g. true;
  strip = λ s. s;
  float_of = λ v. none;
  sample_name = λ n. if eqb n 1 then "sample-1" else "sample-2";
  sha256 = λ s. s;
  hmac_sha256 = λ s t. t;
}

abbrev config : DatasetConfig ℤ
config = record {
  start = 0;
  end_at = 1000;
  extraction_time = 5000000000;
  label_window_hours = 1;
  qualified_read_ms = 10000;
  recommendation_label_version = v1;
  identity_mode = drop;
  hash_salt = none;
  train_fraction = pos 700;
  validation_fraction = pos 150;
  history_recent_limit = pos 20;
  history_long_term_limit = pos 30;
}

abbrev snapshot : Fields ℤ
snapshot = field "schema_version" (str "rank-features-v1") (
    field "topic_relevance" null (
      field "freshness" null (
        field "safety_score" null (
          field "candidate_source" (str "recent") (
            field "is_followed_author" (bool false) (
              field "author_affinity" null
                (field "heuristic_score" null (field "ml_score" null end))))))))

abbrev impression : String → String → ℕ → Impression ℤ
impression id request served_at = record {
  id = id;
  request_id = request;
  user_id = "u";
  post_id = "p";
  position = pos 0;
  feed_source = "feed";
  model_version = "m";
  feature_snapshot = snapshot;
  served_at = served_at;
}

abbrev click_on : String → String → ℕ → BehaviorEvent ℤ
click_on id shown occurred_at = record {
  id = id;
  impression_id = some shown;
  user_id = "u";
  post_id = "p";
  event_type = "click";
  dwell_ms = none;
  occurred_at = occurred_at;
  ingested_at = none;
  event_version = none;
  metadata = none;
}

abbrev impressions : List (Impression ℤ)
impressions = impression "i" "q" 100 ∷ impression "j" "r" 200 ∷ []

abbrev events : List (BehaviorEvent ℤ)
events = click_on "e" "i" 150 ∷ click_on "f" "j" 250 ∷ []

abbrev row : String → SplitName → ℕ → ℕ → String → DatasetRow ℤ
row sample split served_at visible_at request = record {
  sample_id = sample;
  user_group = none;
  post_group = none;
  request_group = none;
  row_split = split;
  label = pos 1;
  label_name = positive;
  served_at = served_at;
  visible_at = visible_at;
  position = pos 0;
  feed_source = "feed";
  model_version = "m";
  topic_relevance = none;
  freshness = none;
  safety_score = none;
  candidate_source = "recent";
  is_followed_author = bool false;
  author_affinity = none;
  heuristic_score = none;
  ml_score = none;
  audit_user_id = "u";
  audit_post_id = "p";
  audit_request_identity = request;
}

abbrev early : DatasetRow ℤ
early = row "sample-1" train 100 150 "u:q"

abbrev late : DatasetRow ℤ
late = row "sample-2" test 200 250 "u:r"

abbrev result : BuildResult ℤ
result = record {
  rows = early ∷ late ∷ [];
  stats = record {
    impressions_read = 2;
    events_read = 2;
    served_without_visible = 0;
    immature_impressions = 0;
    unsupported_feature_schema = 0;
  };
}

abbrev progress : Progress ℤ
progress = record {
  served_without_visible = 0;
  immature_impressions = 0;
  unsupported_feature_schema = 0;
  rows = row "sample-1" train 100 150 "u:q" ∷ row "sample-2" train 200 250 "u:r" ∷ [];
  observed = some v1;
}

collected : collect small config impressions events ≡ ok progress
unfolding collect deduplicate deduplicate_from collect_unique validate_request_envelopes
    see_requests see_request walk add_impressions sort impression_le add_impression
    verified_exposure_at validate_snapshot label_row judged traverse place str_le groups_of
    label_value read_features row_label row_of check_version observe only_version key_all key_le
    keyed see see_all add_read apply_other apply_read apply_type candidates conclude count_read
    derive_label duration_of engaged first_in judge replay replay_one reversal stateful type_of
    canonical_payload canonical_value event_label_version event_mapping mapping_value timestamp
    value_of
collected = refl

returned : build_samples thousandths small config impressions events ≡ ok result
unfolding collect deduplicate deduplicate_from collect_unique validate_request_envelopes
    see_requests see_request walk add_impressions sort impression_le add_impression
    verified_exposure_at validate_snapshot label_row judged traverse place str_le groups_of
    label_value read_features row_label row_of check_version observe only_version key_all key_le
    keyed see see_all add_read apply_other apply_read apply_type candidates conclude count_read
    derive_label duration_of engaged first_in judge replay replay_one reversal stateful type_of
    canonical_payload canonical_value event_label_version event_mapping mapping_value timestamp
    value_of build_samples split_samples split_rows split_groups ordered_groups group_from
    group_time group_le test_count validation_count snapped_ends snap_down choose assign split_at
    assert_atomic_request_splits
returned = refl

build_samples-lt_example : 100 < 200
build_samples-lt_example =
    build_samples-lt thousandths small config impressions events result early late returned
      (Memᴰ.head refl) (Memᴰ.tail (Memᴰ.head refl)) (omega arith)

build_samples-IsMature_example : All (IsMature thousandths small config) (early ∷ late ∷ [])
build_samples-IsMature_example =
    build_samples-IsMature thousandths small config impressions events result returned

build_samples-counts_example :
    (unique : Dict String (Impression ℤ)) × (deduplicate
        (λ i. i.id)
        (same_impression small)
        impressions
      ≡ ok unique)
    × (0 + 0 + 0 + 2 ≡ length (keep_if (in_window small config) (values unique)))
build_samples-counts_example =
    build_samples-counts thousandths small config impressions events result returned

build_samples-total_example :
    (r : BuildResult ℤ) × (build_samples thousandths small config impressions events ≡ ok r)
    × Permᴰ (map (λ x. x.sample_id) r.rows) ("sample-1" ∷ "sample-2" ∷ [])
build_samples-total_example =
    build_samples-total thousandths small config impressions events progress collected

abbrev rows : List (DatasetRow ℤ)
rows = row "sample-1" train 100 150 "u:q" ∷ row "sample-2" train 200 250 "u:r" ∷ []

rows-SameTime : SameTime dataset_row rows
rows-SameTime r s (Memᴰ.head p) (Memᴰ.head q) h = ap (λ x. x.served_at) (p ∙ sym q)
rows-SameTime r s (Memᴰ.head p) (Memᴰ.tail (Memᴰ.head q)) h =
    elim (str_ne r.audit_request_identity "u:q" "u:r" refl (ap (λ x. x.audit_request_identity) p)
      (h ∙ ap (λ x. x.audit_request_identity) q)) [ ]
rows-SameTime r s (Memᴰ.tail (Memᴰ.head p)) (Memᴰ.head q) h =
    elim (str_ne r.audit_request_identity "u:r" "u:q" refl (ap (λ x. x.audit_request_identity) p)
      (h ∙ ap (λ x. x.audit_request_identity) q)) [ ]
rows-SameTime r s (Memᴰ.tail (Memᴰ.head p)) (Memᴰ.tail (Memᴰ.head q)) h =
    ap (λ x. x.served_at) (p ∙ sym q)
rows-SameTime r s (Memᴰ.head p) (Memᴰ.tail (Memᴰ.tail m)) h = elim m [ ]
rows-SameTime r s (Memᴰ.tail (Memᴰ.head p)) (Memᴰ.tail (Memᴰ.tail m)) h = elim m [ ]
rows-SameTime r s (Memᴰ.tail (Memᴰ.tail m)) q h = elim m [ ]

split_ranking_rows-lt_example : 100 < 200
unfolding split_ranking_rows split_ranking_groups ordered_groups group_from sort place str_le
    group_time group_le test_count validation_count balanced_ends snap_split_boundary snap_down
    snap_up score_le empty_sides preferred_empty choose assign split_at
split_ranking_rows-lt_example =
    split_ranking_rows-lt dataset_row thousandths (pos 700) (pos 150) rows early late rows-SameTime
      (Memᴰ.head refl) (Memᴰ.tail (Memᴰ.head refl)) (omega arith)

split_ranking_rows-perm_example :
    Permᴰ {A = String} ("sample-1" ∷ "sample-2" ∷ []) ("sample-1" ∷ "sample-2" ∷ [])
unfolding split_ranking_rows split_ranking_groups ordered_groups group_from sort place str_le
    group_time group_le test_count validation_count balanced_ends snap_split_boundary snap_down
    snap_up score_le empty_sides preferred_empty choose assign split_at
split_ranking_rows-perm_example =
    split_ranking_rows-perm dataset_row thousandths (pos 700) (pos 150) rows

-- Another row of the first request.
abbrev twin : DatasetRow ℤ
twin = record early { sample_id = "sample-3" }

split_ranking_rows-atomic_example : early.row_split ≡ twin.row_split
unfolding split_ranking_rows split_ranking_groups ordered_groups group_from sort place str_le
    group_time group_le test_count validation_count balanced_ends snap_split_boundary snap_down
    snap_up score_le empty_sides preferred_empty choose assign split_at
split_ranking_rows-atomic_example =
    split_ranking_rows-atomic dataset_row thousandths (pos 700) (pos 150) (early ∷ twin ∷ late ∷ [])
      early twin (Memᴰ.head refl) (Memᴰ.tail (Memᴰ.head refl)) refl

abbrev revision : String → ℕ → ArticleFeatureRecord ℤ
revision id computed_at = record {
  id = id;
  post_id = "p";
  encoder_version = "v";
  content_hash = "h";
  embedding = [];
  source_updated_at = 10;
  computed_at = computed_at;
}

abbrev revisions : List (ArticleFeatureRecord ℤ)
revisions = revision "a" 20 ∷ revision "b" 30 ∷ revision "c" 999 ∷ []

select_history_feature-latest_example :
    Memᴰ (revision "b" 30) revisions
    × (10 ≤ 150)
    × (30 ≤ 150)
    × All (λ g. feature_le g (revision "b" 30) ≡ true) (revision "a" 20 ∷ revision "b" 30 ∷ [])
unfolding select_history_feature latest feature_le str_le
select_history_feature-latest_example =
    select_history_feature-latest revisions 150 (revision "b" 30) refl

abbrev history : HistorySnapshot ℤ
history = record {
  user_id = "u";
  reference_at = 300;
  entries =
      entry_of (record (click_on "e" "i" 150) { event_version = some "v2" }) (revision "b" 30) ∷ [];
}

remembered :
    build_history_snapshot small
      (λ x y. true)
      config
      "u"
      300
      (record (click_on "e" "i" 150) { event_version = some "v2" } ∷ click_on "f" "j" 250 ∷ [])
      revisions
    ≡ ok history
unfolding build_history_snapshot sum_of_limits selected_events qualifying qualifies_for_history
    happened_before event_le history_entries finish_history select_history_feature latest feature_le
    str_le sort place event_label_version value_of mapping_value deduplicate deduplicate_from
remembered = refl

build_history_snapshot-IsHistory_example :
    (limit : ℕ) × (history_total_limit config ≡ ok limit)
    × IsHistory 300 limit history.entries
    × All
        (IsClick small "u" 300
          (record (click_on "e" "i" 150) { event_version = some "v2" } ∷ click_on "f" "j" 250 ∷ [])
          revisions)
        history.entries
build_history_snapshot-IsHistory_example =
    build_history_snapshot-IsHistory small (λ x y. true) config "u" 300
      (record (click_on "e" "i" 150) { event_version = some "v2" } ∷ click_on "f" "j" 250 ∷ [])
      revisions history remembered
