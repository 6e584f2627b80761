-- ===== src/Evaluation/Split.antt =====
-- `build_temporal_split` of evaluate.py.
use text.Mathlib.Text.{◌==◌ as str_eq}
use oecophylla.Common.{
  ℕ, ◌+◌, ◌-◌, ◌*◌, String, Bool, true, false, ◌&&◌, Option, none, some, List, [], ◌∷◌, ok, raised,
  ◌>>=◌, if◌then◌else◌, leb, ltb,
}
use oecophylla.Common.Dict.{Dict, lookup, insert}
use oecophylla.Common.Eq.{string_eq}
use oecophylla.Common.Filter.{filter_ok}
use oecophylla.Common.Groups.{append_to}
use oecophylla.Common.Keys.{by, text_key, int_key, always}
use oecophylla.Common.Sort.{sort}
use oecophylla.Common.Value.{Datetime, aware, naive}
use oecophylla.Evaluation.Records.{
  ImpressionRecord, BehaviorRecord, TemporalSplit, Evaluated, window_not_positive, no_timezone,
  cutoff_too_late, out_of_range,
}

-- `_aware_utc`
unfoldable pub aware_utc : Datetime → Evaluated ℕ
aware_utc (aware t) = ok t
aware_utc (naive t) = raised no_timezone

-- `timedelta(hours=...)`
abbrev pub microseconds : ℕ → ℕ
microseconds hours = hours * 3600000000

abbrev pub is_before : ℕ → Option Datetime → Evaluated Bool
is_before cutoff none = ok true
is_before cutoff (some d) = aware_utc d >>= λ t. ok (ltb t cutoff)

-- `aware_utc` of a time that may be missing.
abbrev pub utc_or : ℕ → Option Datetime → Evaluated ℕ
utc_or t none = ok t
utc_or t (some d) = aware_utc d

-- The test of a validation impression.
unfoldable pub is_validation : ℕ → ℕ → ImpressionRecord → Evaluated Bool
is_validation cutoff finalized_before i =
    aware_utc i.served_at >>= λ t. ok (leb cutoff t && leb t finalized_before)

unfoldable pub impression_le : ImpressionRecord → ImpressionRecord → Bool
impression_le =
    by text_key (λ i. i.user_id)
      (by text_key (λ i. i.request_id) (by int_key (λ i. i.position) always))

-- `by_id`, from the impressions that are in it so far.
unfoldable pub identify :
    Dict String ImpressionRecord → List ImpressionRecord → Dict String ImpressionRecord
identify by_id [] = by_id
identify by_id (i ∷ impressions) = identify (insert i.id i by_id) impressions

-- `by_id[impression_id]`, if it is there.
abbrev pub impression_of : Dict String ImpressionRecord → Option String → Option ImpressionRecord
impression_of by_id none = none
impression_of by_id (some id) = lookup id by_id

-- The conditions of a label event, on the times of the event and of its impression.
abbrev pub is_timely : ℕ → ℕ → ℕ → ℕ → ℕ → Bool
is_timely evaluation_time window occurred_at ingested_at served_at =
    leb served_at occurred_at
    && leb occurred_at (served_at + window)
    && leb occurred_at evaluation_time
    && leb ingested_at evaluation_time

-- `labels`
abbrev pub Labels : Type 0 → Type 0
Labels F = Dict String (List (BehaviorRecord F))

module _ {F : Type 0} where
  -- The test of a training event.
  unfoldable pub is_training : ℕ → BehaviorRecord F → Evaluated Bool
  is_training cutoff e = aware_utc e.occurred_at >>= λ t.
      if ltb t cutoff then is_before cutoff e.ingested_at else ok false

  unfoldable pub is_label : ℕ → ℕ → ImpressionRecord → BehaviorRecord F → Evaluated Bool
  is_label evaluation_time window i e = aware_utc e.occurred_at >>= λ occurred_at.
      utc_or occurred_at e.ingested_at >>= λ ingested_at. aware_utc i.served_at >>= λ served_at.
      ok (
        str_eq e.user_id i.user_id
        && str_eq e.post_id i.post_id
        && is_timely evaluation_time window occurred_at ingested_at served_at)

  abbrev pub add_label : Labels F → BehaviorRecord F → ImpressionRecord → Bool → Labels F
  add_label labels e i passes = if passes then append_to i.id e labels else labels

  -- The body of the loop over the events, with the event's impression.
  unfoldable pub label_for :
      ℕ → ℕ → Labels F → BehaviorRecord F → Option ImpressionRecord → Evaluated (Labels F)
  label_for evaluation_time window labels e none = ok labels
  label_for evaluation_time window labels e (some i) =
      is_label evaluation_time window i e >>= λ passes. ok (add_label labels e i passes)

  unfoldable pub label_events :
      ℕ
      → ℕ
      → Dict String ImpressionRecord
      → Labels F
      → List (BehaviorRecord F)
      → Evaluated (Labels F)
  label_events evaluation_time window by_id labels [] = ok labels
  label_events evaluation_time window by_id labels (e ∷ events) =
      label_for evaluation_time window labels e (impression_of by_id e.impression_id) >>= λ after.
      label_events evaluation_time window by_id after events

  abbrev pub split_with :
      List (BehaviorRecord F) → List ImpressionRecord → Labels F → TemporalSplit F
  split_with training validation labels = record {
    training_events = training;
    validation_impressions = validation;
    label_events_by_impression = labels;
  }

  -- From the checks of the arguments on; `evaluation_time - window` is given.
  unfoldable pub split_between :
      List ImpressionRecord → List (BehaviorRecord F) → ℕ → ℕ → ℕ → ℕ → Evaluated (TemporalSplit F)
  split_between impressions events cutoff evaluation_time window finalized_before =
      filter_ok (is_training cutoff) events >>= λ training.
      filter_ok (is_validation cutoff finalized_before) impressions >>= λ kept.
      let validation = sort impression_le kept in
      label_events evaluation_time window (identify [] validation) [] events >>= λ labels.
      ok (split_with training validation labels)

  -- `build_temporal_split`
  unfoldable pub build_temporal_split :
      List ImpressionRecord
      → List (BehaviorRecord F)
      → Datetime
      → ℕ
      → Datetime
      → Evaluated (TemporalSplit F)
  build_temporal_split impressions events cutoff_at label_window_hours as_of =
      if leb label_window_hours 0
      then raised window_not_positive
      else (aware_utc cutoff_at >>= λ cutoff. aware_utc as_of >>= λ evaluation_time.
          let window = microseconds label_window_hours in
          if leb evaluation_time cutoff
          then raised cutoff_too_late
          else (if ltb evaluation_time window
              then raised out_of_range
              else (split_between impressions events cutoff evaluation_time window
                  (evaluation_time - window))))
