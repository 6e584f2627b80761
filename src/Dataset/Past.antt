-- ===== src/Dataset/Past.antt =====
-- The history as a whole: its clicks, its times, its order and its limit.
use oecophylla.Common.{
  ℕ, zero, suc, ◌+◌, ◌-◌, ◌≤◌, ◌<◌, ◌≡◌, refl, subst, String, Bool, true, Option, none, some, List,
  [], ◌∷◌, map, ok, ◌>>=◌, >>=-eq-ok, ok-injective, arith, Bool-cases, inl, inr, All,
  All-map_weaken, length, length-drop, drop, eqb, leb,
}
use oecophylla.Common.Dict.{Dict, values}
use oecophylla.Common.Keys.{by-IsOrder, by, number_key, text_key, always, always-IsOrder}
use oecophylla.Common.Sort.{sort, sort-IsSorted, IsSorted, IsOrder}
use oecophylla.Dataset.Records.{
  Library, DatasetConfig, BehaviorEvent, ArticleFeatureRecord, HistoryEntry, HistorySnapshot,
}
use oecophylla.Dataset.Checks.{deduplicate}
use oecophylla.Dataset.Clicks.{
  IsChosen, IsClick, IsClick-offered, selected_events-IsChosen, history_entries-IsClick,
}
use oecophylla.Dataset.Kept.{deduplicate-mem}
use oecophylla.Dataset.Latest.{select_history_feature-latest}
use oecophylla.Dataset.History.{
  history_total_limit, happened_before, event_le, last_of, select_history_feature, features_for,
  with_entry, history_entries, same_feature, qualifying, selected_events, snapshot_of,
  finish_history, build_history_snapshot,
}

module _ {F : Type 0} where
  event_le-IsOrder : IsOrder (event_le {F = F})
  unfolding event_le
  event_le-IsOrder =
      by-IsOrder number_key (λ e. e.occurred_at) (by text_key (λ e. e.id) always)
        (by-IsOrder text_key (λ e. e.id) always always-IsOrder)

  drop-IsSorted :
      (n : ℕ) (l : List (BehaviorEvent F)) → IsSorted event_le l → IsSorted event_le (drop n l)
  drop-IsSorted zero l h = h
  drop-IsSorted (suc n) [] h = tt
  drop-IsSorted (suc n) (e ∷ l) h = drop-IsSorted n l h.1

  -- An entry's times: before the reference time, with features no newer than the click.
  pub record IsPast (reference_at : ℕ) (entry : HistoryEntry F) : Type 0 where
    pub engaged : entry.engaged_at < reference_at
    pub source : entry.feature_source_updated_at ≤ entry.engaged_at
    pub computed : entry.feature_computed_at ≤ entry.engaged_at

  abbrev Before : ℕ → BehaviorEvent F → Type 0
  Before reference_at e = happened_before reference_at e ≡ true

  -- What holds of the entries: the past, the limit and the order.
  pub record IsHistory (reference_at limit : ℕ) (entries : List (HistoryEntry F)) : Type 0 where
    pub past : All (IsPast reference_at) entries
    pub bounded : length entries ≤ limit
    pub chronological : IsSorted leb (map (λ x. x.engaged_at) entries)

  with_entry-IsHistory :
      (reference_at limit : ℕ) (e : BehaviorEvent F) (features : List (ArticleFeatureRecord F))
      (o : Option (ArticleFeatureRecord F)) (entries : List (HistoryEntry F))
      → select_history_feature features e.occurred_at ≡ o
      → Before reference_at e
      → All (λ t. leb e.occurred_at t ≡ true) (map (λ x. x.engaged_at) entries)
      → IsHistory reference_at limit entries
      → IsHistory reference_at (limit + 1) (with_entry e o entries)
  unfolding happened_before
  with_entry-IsHistory reference_at limit e features none entries s b l h = record {
    past = h.past;
    bounded = omega (arith, h.bounded);
    chronological = h.chronological;
  }
  with_entry-IsHistory reference_at limit e features (some f) entries s b l h =
      let (_, source, computed, _) = select_history_feature-latest features e.occurred_at f s in
      record {
        past =
            (record { engaged = ground (arith, b); source = source; computed = computed }, h.past);
        bounded = omega (arith, h.bounded);
        chronological = (l, h.chronological);
      }

  -- No entry is of a time that the events' times do not allow.
  with_entry-All :
      (P : ℕ → Type 0) (e : BehaviorEvent F) (o : Option (ArticleFeatureRecord F))
      (entries : List (HistoryEntry F))
      → P e.occurred_at
      → All P (map (λ x. x.engaged_at) entries)
      → All P (map (λ x. x.engaged_at) (with_entry e o entries))
  with_entry-All P e none entries h k = k
  with_entry-All P e (some f) entries h k = (h, k)

  history_entries-All :
      (P : ℕ → Type 0) (features : List (ArticleFeatureRecord F)) (events : List (BehaviorEvent F))
      → All (λ e. P e.occurred_at) events
      → All P (map (λ x. x.engaged_at) (history_entries features events))
  unfolding history_entries
  history_entries-All P features [] h = tt
  history_entries-All P features (e ∷ events) h =
      with_entry-All P e (select_history_feature (features_for e.post_id features) e.occurred_at)
        (history_entries features events) h.0 (history_entries-All P features events h.1)

  event_le-leb :
      (e g : BehaviorEvent F) → event_le e g ≡ true → leb e.occurred_at g.occurred_at ≡ true
  unfolding event_le
  event_le-leb e g h = ground arith

  history_entries-IsHistory :
      (reference_at : ℕ) (features : List (ArticleFeatureRecord F))
      (events : List (BehaviorEvent F))
      → IsSorted event_le events
      → All (Before reference_at) events
      → IsHistory reference_at (length events) (history_entries features events)
  unfolding history_entries
  history_entries-IsHistory reference_at features [] s h = record {
    past = tt;
    bounded = omega arith;
    chronological = tt;
  }
  history_entries-IsHistory reference_at features (e ∷ events) s h =
      subst (λ n. IsHistory reference_at n (history_entries features (e ∷ events))) (omega arith)
        (with_entry-IsHistory reference_at (length events) e (features_for e.post_id features)
          (select_history_feature (features_for e.post_id features) e.occurred_at)
          (history_entries features events) refl h.0
          (history_entries-All (λ t. leb e.occurred_at t ≡ true) features events
            (All-map_weaken (λ g. event_le e g ≡ true) (λ g. leb e.occurred_at g.occurred_at ≡ true)
              (event_le-leb e) events s.0))
          (history_entries-IsHistory reference_at features events s.1 h.1))

module _ {F : Type 0} (library : Library F) (same_number : F → F → Bool) where
  selected_events-lem :
      (limit : ℕ) (user_id : String) (reference_at : ℕ) (events kept : List (BehaviorEvent F))
      → selected_events library same_number limit user_id reference_at events ≡ ok kept
      → IsSorted event_le kept × (length kept ≤ limit)
  unfolding selected_events
  selected_events-lem limit user_id reference_at events kept h = elim (Bool-cases (eqb limit 0)) [
    | inl z ↦
        subst (λ l. IsSorted event_le l × (length l ≤ limit)) (ok-injective [] kept (rw z at h))
          (tt, omega arith)
    | inr z ↦
        let (l, g, h) =
          >>=-eq-ok (qualifying library same_number user_id reference_at events)
            (λ l. ok (last_of limit (sort event_le l))) (rw z at h) in
        let sorted = sort event_le l in
        let n = length sorted - limit in
        subst (λ l. IsSorted event_le l × (length l ≤ limit))
          (ok-injective (last_of limit sorted) kept h)
          (
            drop-IsSorted n sorted (sort-IsSorted event_le event_le-IsOrder l),
            omega (arith, length-drop n sorted),
          )
  ]

  widen :
      (reference_at m n : ℕ) (entries : List (HistoryEntry F))
      → m ≤ n
      → IsHistory reference_at m entries
      → IsHistory reference_at n entries
  widen reference_at m n entries l h = record {
    past = h.past;
    bounded = omega (arith, h.bounded);
    chronological = h.chronological;
  }

  kept-IsHistory :
      (limit : ℕ) (user_id : String) (reference_at : ℕ) (events kept : List (BehaviorEvent F))
      (features : List (ArticleFeatureRecord F))
      → selected_events library same_number limit user_id reference_at events ≡ ok kept
      → IsHistory reference_at limit (history_entries features kept)
  kept-IsHistory limit user_id reference_at events kept features f =
      let (s, l) = selected_events-lem limit user_id reference_at events kept f in
      widen reference_at (length kept) limit (history_entries features kept) l (
        history_entries-IsHistory reference_at features kept s (
          All-map_weaken (IsChosen library user_id reference_at events) (Before reference_at)
            (λ e c. c.before) kept
            (selected_events-IsChosen library same_number limit user_id reference_at events kept
              f)))

  kept-IsClick :
      (user_id : String) (reference_at : ℕ) (events kept : List (BehaviorEvent F))
      (features : List (ArticleFeatureRecord F)) (unique : Dict String (ArticleFeatureRecord F))
      → All (IsChosen library user_id reference_at events) kept
      → deduplicate (λ f. f.id) (same_feature library same_number) features ≡ ok unique
      → All
          (IsClick library user_id reference_at events features)
          (history_entries (values unique) kept)
  kept-IsClick user_id reference_at events kept features unique chosen g =
      All-map_weaken (IsClick library user_id reference_at events (values unique))
        (IsClick library user_id reference_at events features)
        (IsClick-offered library user_id reference_at events (values unique) features
          (deduplicate-mem (λ f. f.id) (same_feature library same_number) features unique g))
        (history_entries (values unique) kept)
        (history_entries-IsClick library user_id reference_at events (values unique) kept chosen)

  -- If `build_history_snapshot` returns, every entry is made of one of the given events, a click of the user
  -- with the second version of the event schema, ingested by the reference time, and of one of the
  -- given features of the event's post; the click is strictly before the reference time, and the
  -- features are computed and sourced no later than it; the entries are in the order of time, and no
  -- more than the two limits together.
  pub build_history_snapshot-IsHistory :
      (config : DatasetConfig F) (user_id : String) (reference_at : ℕ)
      (events : List (BehaviorEvent F)) (article_features : List (ArticleFeatureRecord F))
      (snapshot : HistorySnapshot F)
      → build_history_snapshot library same_number config user_id reference_at events
          article_features
        ≡ ok snapshot
      → (limit : ℕ) × (history_total_limit config ≡ ok limit)
        × IsHistory reference_at limit snapshot.entries
        × All (IsClick library user_id reference_at events article_features) snapshot.entries
  unfolding build_history_snapshot finish_history
  build_history_snapshot-IsHistory config user_id reference_at events article_features snapshot h =
      let (limit, e, h) =
        >>=-eq-ok (history_total_limit config)
          (λ limit.
            selected_events library same_number limit user_id reference_at events
            >>= finish_history library same_number user_id reference_at article_features)
          h in
      let (kept, f, h) =
        >>=-eq-ok (selected_events library same_number limit user_id reference_at events)
          (finish_history library same_number user_id reference_at article_features) h in
      let (unique, g, h) =
        >>=-eq-ok (deduplicate (λ f. f.id) (same_feature library same_number) article_features)
          (λ unique. ok (snapshot_of library same_number user_id reference_at kept (values unique)))
          h in
      let chosen =
        selected_events-IsChosen library same_number limit user_id reference_at events kept f in
      let (history, clicks) =
        subst
          (λ (x : HistorySnapshot F).
            IsHistory reference_at limit x.entries
            × All (IsClick library user_id reference_at events article_features) x.entries)
          (ok-injective (snapshot_of library same_number user_id reference_at kept (values unique))
            snapshot h)
          (
            kept-IsHistory limit user_id reference_at events kept (values unique) f,
            kept-IsClick user_id reference_at events kept article_features unique chosen g,
          ) in
      (limit, e, history, clicks)
