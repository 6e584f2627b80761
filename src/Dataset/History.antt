-- ===== src/Dataset/History.antt =====
-- `build_history_snapshot` and its helpers: the reader's last clicks before a time, each with the features
-- that its article had when it was clicked.
use text.Mathlib.Text.{◌==◌ as str_eq}
use oecophylla.Common.{
  ℕ, ◌+◌, ◌-◌, String, Bool, true, false, ◌&&◌, not, Option, none, some, List, [], ◌∷◌, ok, raised,
  ◌>>=◌, as_error, if◌then◌else◌, eqb, leb, ltb, keep_if, length, drop,
}
use oecophylla.Common.Dict.{values}
use oecophylla.Common.Eq.{string_eq}
use oecophylla.Common.Int.{ℤ, pos}
use oecophylla.Common.Keys.{by, text_key, number_key, always}
use oecophylla.Common.Sort.{sort}
use oecophylla.Label.{LabelVersion, v1, v2, event_label_version}
use oecophylla.Dataset.Records.{
  Library, DatasetConfig, BehaviorEvent, ArticleFeatureRecord, HistoryEntry, HistorySnapshot,
  negative_history_limit, label_failed, event_object,
}
use oecophylla.Dataset.Checks.{Built, deduplicate}

-- `recent_limit + long_term_limit`
unfoldable pub sum_of_limits : ℤ → ℤ → Built ℕ
sum_of_limits (pos m) (pos n) = ok (m + n)
sum_of_limits _ _ = raised negative_history_limit

abbrev pub is_v2 : LabelVersion → Bool
is_v2 v1 = false
is_v2 v2 = true

module _ {F : Type 0} where
  -- `_history_total_limit`
  abbrev pub history_total_limit : DatasetConfig F → Built ℕ
  history_total_limit config =
      sum_of_limits config.history_recent_limit config.history_long_term_limit

  -- The conditions of `_qualifies_for_history` on the times.
  unfoldable pub happened_before : ℕ → BehaviorEvent F → Bool
  happened_before reference_at e =
      ltb e.occurred_at reference_at
      && elim e.ingested_at [ none ↦ true | some t ↦ leb t reference_at ]

  unfoldable pub event_le : BehaviorEvent F → BehaviorEvent F → Bool
  event_le = by number_key (λ e. e.occurred_at) (by text_key (λ e. e.id) always)

  -- `list[-n:]` for a positive n
  abbrev pub last_of : ℕ → List (BehaviorEvent F) → List (BehaviorEvent F)
  last_of n events = drop (length events - n) events

  -- The order of the keys of `_select_history_feature`.
  unfoldable pub feature_le : ArticleFeatureRecord F → ArticleFeatureRecord F → Bool
  feature_le =
      by number_key (λ f. f.source_updated_at)
        (by number_key (λ f. f.computed_at) (by text_key (λ f. f.id) always))

  abbrev pub is_eligible : ℕ → ArticleFeatureRecord F → Bool
  is_eligible engaged_at f = leb f.source_updated_at engaged_at && leb f.computed_at engaged_at

  -- `max`, from a first element.
  unfoldable pub latest :
      ArticleFeatureRecord F → List (ArticleFeatureRecord F) → ArticleFeatureRecord F
  latest best [] = best
  latest best (f ∷ features) = latest (if feature_le f best then best else f) features

  abbrev pub latest_of : List (ArticleFeatureRecord F) → Option (ArticleFeatureRecord F)
  latest_of [] = none
  latest_of (f ∷ features) = some (latest f features)

  -- `_select_history_feature`
  unfoldable pub select_history_feature :
      List (ArticleFeatureRecord F) → ℕ → Option (ArticleFeatureRecord F)
  select_history_feature features engaged_at = latest_of (keep_if (is_eligible engaged_at) features)

  abbrev pub entry_of : BehaviorEvent F → ArticleFeatureRecord F → HistoryEntry F
  entry_of e f = record {
    event_id = e.id;
    post_id = e.post_id;
    engaged_at = e.occurred_at;
    encoder_version = f.encoder_version;
    content_hash = f.content_hash;
    feature_source_updated_at = f.source_updated_at;
    feature_computed_at = f.computed_at;
    embedding = f.embedding;
  }

  -- `features_by_post.get(post_id, ())`
  abbrev pub features_for : String → List (ArticleFeatureRecord F) → List (ArticleFeatureRecord F)
  features_for post = keep_if (λ f. str_eq f.post_id post)

  abbrev pub with_entry :
      BehaviorEvent F
      → Option (ArticleFeatureRecord F)
      → List (HistoryEntry F)
      → List (HistoryEntry F)
  with_entry e none entries = entries
  with_entry e (some f) entries = entry_of e f ∷ entries

  -- The loop over the selected events.
  unfoldable pub history_entries :
      List (ArticleFeatureRecord F) → List (BehaviorEvent F) → List (HistoryEntry F)
  history_entries features [] = []
  history_entries features (e ∷ events) =
      with_entry e (select_history_feature (features_for e.post_id features) e.occurred_at)
        (history_entries features events)

module _ {F : Type 0} (library : Library F) (same_number : F → F → Bool) where
  open library use {runtime}

  abbrev pub same_numbers : List F → List F → Bool
  same_numbers [] [] = true
  same_numbers (x ∷ xs) (y ∷ ys) = same_number x y && same_numbers xs ys
  same_numbers _ _ = false

  abbrev pub same_feature : ArticleFeatureRecord F → ArticleFeatureRecord F → Bool
  same_feature f g =
      str_eq f.id g.id
      && str_eq f.post_id g.post_id
      && str_eq f.encoder_version g.encoder_version
      && str_eq f.content_hash g.content_hash
      && same_numbers f.embedding g.embedding
      && eqb f.source_updated_at g.source_updated_at
      && eqb f.computed_at g.computed_at

  -- `_qualifies_for_history`; a user id is never `None`.
  unfoldable pub qualifies_for_history : ℕ → BehaviorEvent F → Built Bool
  qualifies_for_history reference_at e =
      if not (str_eq e.event_type "click")
      then ok false
      else (as_error label_failed (event_label_version runtime (event_object e)) >>= λ version.
          ok (is_v2 version && happened_before reference_at e))

  -- The generator over the events.
  unfoldable pub qualifying : String → ℕ → List (BehaviorEvent F) → Built (List (BehaviorEvent F))
  qualifying user_id reference_at [] = ok []
  qualifying user_id reference_at (e ∷ events) =
      let others = qualifying user_id reference_at events in
      if not (str_eq e.user_id user_id)
      then others
      else (qualifies_for_history reference_at e >>= λ qualifies.
          others >>= λ kept. ok (if qualifies then e ∷ kept else kept))

  -- `selected_events`
  unfoldable pub selected_events :
      ℕ → String → ℕ → List (BehaviorEvent F) → Built (List (BehaviorEvent F))
  selected_events limit user_id reference_at events =
      if eqb limit 0
      then ok []
      else (qualifying user_id reference_at events >>= λ kept.
          ok (last_of limit (sort event_le kept)))

  abbrev pub snapshot_of :
      String → ℕ → List (BehaviorEvent F) → List (ArticleFeatureRecord F) → HistorySnapshot F
  snapshot_of user_id reference_at events features = record {
    user_id = user_id;
    reference_at = reference_at;
    entries = history_entries features events;
  }

  -- From the selected events on.
  unfoldable pub finish_history :
      String
      → ℕ
      → List (ArticleFeatureRecord F)
      → List (BehaviorEvent F)
      → Built (HistorySnapshot F)
  finish_history user_id reference_at article_features events =
      deduplicate (λ f. f.id) same_feature article_features >>= λ unique.
      ok (snapshot_of user_id reference_at events (values unique))

  -- `build_history_snapshot`
  unfoldable pub build_history_snapshot :
      DatasetConfig F
      → String
      → ℕ
      → List (BehaviorEvent F)
      → List (ArticleFeatureRecord F)
      → Built (HistorySnapshot F)
  build_history_snapshot config user_id reference_at events article_features =
      history_total_limit config >>= λ limit.
      selected_events limit user_id reference_at events
      >>= finish_history user_id reference_at article_features
