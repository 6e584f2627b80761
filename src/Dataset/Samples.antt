-- ===== src/Dataset/Samples.antt =====
-- `build_samples`.
use text.Mathlib.Text.{◌==◌ as str_eq}
use oecophylla.Common.{
  ℕ, ◌+◌, ◌*◌, Bool, true, false, ◌&&◌, not, Option, none, some, List, [], ◌∷◌, ◌++◌, map, ok,
  raised, ◌>>=◌, as_error, if◌then◌else◌, any, leb, ltb, keep_if, length,
}
use oecophylla.Common.Dict.{values}
use oecophylla.Common.Eq.{string_eq}
use oecophylla.Common.Float.{Arith}
use oecophylla.Common.Keys.{by, text_key, number_key, always}
use oecophylla.Common.Sort.{sort}
use oecophylla.Common.Traverse.{traverse}
use oecophylla.Common.Value.{end}
use oecophylla.Label.{LabelVersion, v1, v2, LabelResult, event_label_version}
use oecophylla.Label.Judge.{Options, derive_label}
use oecophylla.Dataset.Split.{split_rows}
use oecophylla.Dataset.Records.{
  Library, DatasetConfig, Impression, BehaviorEvent, DatasetRow, BuildStats, BuildResult,
  mixed_in_impression, mixed_in_run, version_mismatch, label_failed, split_failed, event_object,
}
use oecophylla.Dataset.Checks.{
  Built, deduplicate, same_impression, same_event, validate_snapshot, validate_request_envelopes,
  verified_exposure_at,
}
use oecophylla.Dataset.Row.{dataset_row, row_of}

-- `timedelta(hours=...)`
abbrev pub microseconds : ℕ → ℕ
microseconds hours = hours * 3600000000

abbrev pub same_version : LabelVersion → LabelVersion → Bool
same_version v1 v1 = true
same_version v2 v2 = true
same_version _ _ = false

-- The only element of the set of some versions, if there is just one.
unfoldable pub only_version : List LabelVersion → Built LabelVersion
only_version [] = raised mixed_in_impression
only_version (v ∷ versions) =
    if any (λ w. not (same_version w v)) versions then raised mixed_in_impression else ok v

-- `observed_label_versions.add(...)`, and the check that there is one version at most.
unfoldable pub observe : LabelVersion → Option LabelVersion → Built LabelVersion
observe v none = ok v
observe v (some w) = if same_version w v then ok w else raised mixed_in_run

-- The loop's counters, rows and observed label version.
pub record Progress (F : Type 0) : Type 0 where
  pub served_without_visible : ℕ
  pub immature_impressions : ℕ
  pub unsupported_feature_schema : ℕ
  pub rows : List (DatasetRow F)
  pub observed : Option LabelVersion

abbrev pub no_progress : {F : Type 0} → Progress F
no_progress = record {
  served_without_visible = 0;
  immature_impressions = 0;
  unsupported_feature_schema = 0;
  rows = [];
  observed = none;
}

module _ {F : Type 0} (library : Library F) (config : DatasetConfig F) where
  open library use {runtime}

  -- `config.start <= impression.served_at < config.end`
  abbrev pub in_window : Impression F → Bool
  in_window i = leb config.start i.served_at && ltb i.served_at config.end_at

  -- The events of an impression that the extraction has seen.
  abbrev pub is_linked : Impression F → BehaviorEvent F → Bool
  is_linked i e =
      elim e.impression_id [ none ↦ false | some id ↦ str_eq id i.id ]
      && elim e.ingested_at [ none ↦ true | some t ↦ leb t config.extraction_time ]
      && str_eq e.user_id i.user_id
      && str_eq e.post_id i.post_id

  abbrev pub window_end : ℕ → ℕ
  window_end visible_at = visible_at + microseconds config.label_window_hours

  abbrev pub in_label_window : ℕ → BehaviorEvent F → Bool
  in_label_window visible_at e =
      leb visible_at e.occurred_at && leb e.occurred_at (window_end visible_at)

  abbrev pub label_options : LabelVersion → Options
  label_options version = record {
    label_version = version;
    qualified_read_ms = config.qualified_read_ms;
    label_window_closed = true;
    v1_any_view_positive = false;
  }

  -- The label version that the run is in and the label, from the events of the label window.
  unfoldable pub judged :
      Option LabelVersion → List (BehaviorEvent F) → Built (LabelVersion × LabelResult)
  judged observed label_events =
      as_error label_failed
        (traverse (λ e. event_label_version runtime (event_object e)) label_events)
      >>= λ versions. only_version versions >>= λ version. observe version observed >>= λ seen.
          as_error label_failed
            (derive_label runtime (label_options version) end (map event_object label_events))
          >>= λ result. ok (seen, result)

  abbrev pub with_row : Progress F → LabelVersion → DatasetRow F → Progress F
  with_row p version row = record p { rows = p.rows ++ row ∷ []; observed = some version }

  unfoldable pub label_row :
      Progress F → Impression F → ℕ → List (BehaviorEvent F) → Built (Progress F)
  label_row p i visible_at label_events = judged p.observed label_events >>= λ j.
      row_of library config (length p.rows) j.0 j.1 visible_at i >>= λ row. ok (with_row p j.0 row)

  -- The body of the loop.
  unfoldable pub add_impression :
      List (BehaviorEvent F) → Progress F → Impression F → Built (Progress F)
  add_impression events p i =
      let linked = keep_if (is_linked i) events in
      if not (in_window i) then ok p else (elim (verified_exposure_at i linked) [
        | none ↦ ok (record p { served_without_visible = p.served_without_visible + 1 })
        | some visible_at ↦
            if ltb config.extraction_time (window_end visible_at)
            then ok (record p { immature_impressions = p.immature_impressions + 1 })
            else (if not (validate_snapshot library i.feature_snapshot)
                then ok (record p { unsupported_feature_schema = p.unsupported_feature_schema + 1 })
                else label_row p i visible_at (keep_if (in_label_window visible_at) linked))
      ])

  unfoldable pub add_impressions :
      List (BehaviorEvent F) → Progress F → List (Impression F) → Built (Progress F)
  add_impressions events p [] = ok p
  add_impressions events p (i ∷ impressions) =
      add_impression events p i >>= λ q. add_impressions events q impressions

  -- `sorted(..., key=lambda item: (item.served_at, item.id))`
  unfoldable pub impression_le : Impression F → Impression F → Bool
  impression_le = by number_key (λ i. i.served_at) (by text_key (λ i. i.id) always)

  -- The run's label version is the configuration's.
  unfoldable pub check_version : Option LabelVersion → Built Unit
  check_version none = ok tt
  check_version (some v) =
      if same_version v config.recommendation_label_version then ok tt else raised version_mismatch

  abbrev pub stats_of : ℕ → ℕ → Progress F → BuildStats
  stats_of impressions events p = record {
    impressions_read = impressions;
    events_read = events;
    served_without_visible = p.served_without_visible;
    immature_impressions = p.immature_impressions;
    unsupported_feature_schema = p.unsupported_feature_schema;
  }

  abbrev pub checked : Progress F → Built (Progress F)
  checked p = check_version p.observed >>= λ _. ok p

  -- The loop over all impressions, and the check behind it.
  unfoldable pub walk : List (Impression F) → List (BehaviorEvent F) → Built (Progress F)
  walk impressions events =
      add_impressions events no_progress (sort impression_le impressions) >>= checked

  unfoldable pub collect_unique : List (Impression F) → List (BehaviorEvent F) → Built (Progress F)
  collect_unique impressions events =
      validate_request_envelopes (keep_if in_window impressions) >>= λ _. walk impressions events

  -- The rows before they are split.
  unfoldable pub collect : List (Impression F) → List (BehaviorEvent F) → Built (Progress F)
  collect impressions events =
      deduplicate (λ i. i.id) (same_impression library) impressions >>= λ unique_impressions.
      deduplicate (λ e. e.id) (same_event library) events >>= λ unique_events.
      collect_unique (values unique_impressions) (values unique_events)

module _ (a : Arith) (library : Library a.F) (config : DatasetConfig a.F) where
  abbrev pub built :
      List (Impression a.F)
      → List (BehaviorEvent a.F)
      → Progress a.F
      → List (DatasetRow a.F)
      → BuildResult a.F
  built impressions events p rows = record {
    rows = rows;
    stats = stats_of library config (length impressions) (length events) p;
  }

  -- The split and the result.
  unfoldable pub split_samples :
      List (Impression a.F) → List (BehaviorEvent a.F) → Progress a.F → Built (BuildResult a.F)
  split_samples impressions events p =
      as_error split_failed
        (split_rows dataset_row a config.train_fraction config.validation_fraction p.rows)
      >>= λ rows. ok (built impressions events p rows)

  -- `build_samples`
  unfoldable pub build_samples :
      List (Impression a.F) → List (BehaviorEvent a.F) → Built (BuildResult a.F)
  build_samples impressions events =
      collect library config impressions events >>= split_samples impressions events
