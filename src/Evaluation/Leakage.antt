-- ===== src/Evaluation/Leakage.antt =====
-- The temporal split leaks nothing: what is trained on was known before anything that is predicted.
use mathlib.Core.List.Permᴰ
use oecophylla.Common.{
  ℕ, ◌-◌, ◌≤◌, ◌<◌, ◌≡◌, refl, sym, ap, ◌∙◌, subst, String, Option, none, some, List, [], ◌∷◌, Memᴰ,
  ok, raised, ◌>>=◌, >>=-eq-ok, ok-injective, arith, if◌then◌else◌, Bool-cases, inl, inr, All,
  All-mem, All-perm, All-intro, leb, ltb,
}
use oecophylla.Common.Dict.{Dict, lookup, insert}
use oecophylla.Common.Each.{Each, insert-Each, lookup-Each, EachOf, append_to-EachOf}
use oecophylla.Common.Eq.{string_eq}
use oecophylla.Common.Filter.{filter_ok, filter_ok-All}
use oecophylla.Common.Sort.{sort, sort-perm}
use oecophylla.Common.Value.{Datetime}
use oecophylla.Evaluation.Records.{
  ImpressionRecord, BehaviorRecord, TemporalSplit, cutoff_too_late, out_of_range,
}
use oecophylla.Evaluation.Split.{
  aware_utc, is_training, is_validation, impression_le, identify, impression_of, is_label, Labels,
  add_label, label_for, label_events, split_with, split_between, build_temporal_split, microseconds,
}
use oecophylla.Evaluation.Times.{
  IsAt, IsKnown, IsFinal, IsLabel, is_training-IsKnown, is_validation-IsFinal, is_label-IsLabel,
}

abbrev Found : List ImpressionRecord → String → ImpressionRecord → Type 0
Found validation id i = Memᴰ i validation × (i.id ≡ id)

identify-Each :
    (validation : List ImpressionRecord) (by_id : Dict String ImpressionRecord)
    (l : List ImpressionRecord)
    → Each (Found validation) by_id
    → All (λ i. Memᴰ i validation) l
    → Each (Found validation) (identify by_id l)
unfolding identify
identify-Each validation by_id [] h k = h
identify-Each validation by_id (i ∷ l) h k =
    identify-Each validation (insert i.id i by_id) l
      (insert-Each (Found validation) i.id i by_id (k.0, refl) h) k.1

impression_of-mem :
    (validation : List ImpressionRecord) (by_id : Dict String ImpressionRecord) (o : Option String)
    (i : ImpressionRecord)
    → Each (Found validation) by_id
    → impression_of by_id o ≡ some i
    → Memᴰ i validation
impression_of-mem validation by_id none i d h = cc
impression_of-mem validation by_id (some id) i d h =
    (lookup-Each (Found validation) id i by_id d h).0

module _ {F : Type 0} (evaluation_time window : ℕ) (validation : List ImpressionRecord) where
  -- A label event of a validation impression, under the impression's id.
  abbrev pub Labelled : String → BehaviorRecord F → Type 0
  Labelled id e =
      (i : ImpressionRecord) × Memᴰ i validation × (i.id ≡ id) × IsLabel evaluation_time window i e

  label_for-EachOf :
      (by_id : Dict String ImpressionRecord) (labels after : Labels F) (e : BehaviorRecord F)
      (o : Option ImpressionRecord)
      → ((i : ImpressionRecord) → o ≡ some i → Memᴰ i validation)
      → EachOf Labelled labels
      → label_for evaluation_time window labels e o ≡ ok after
      → EachOf Labelled after
  unfolding label_for
  label_for-EachOf by_id labels after e none m t h =
      subst (λ d. EachOf Labelled d) (ok-injective labels after h) t
  label_for-EachOf by_id labels after e (some i) m t h =
      let (b, q, h) =
        >>=-eq-ok (is_label evaluation_time window i e) (λ passes. ok (add_label labels e i passes))
          h in
      subst (λ d. EachOf Labelled d) (ok-injective (add_label labels e i b) after h)
        (elim (Bool-cases b) [
          | inl c ↦ rw c (
              append_to-EachOf Labelled i.id e labels
                (i, m i refl, refl, is_label-IsLabel evaluation_time window i e (q ∙ ap ok c)) t)
          | inr c ↦ rw c t
        ])

  label_events-EachOf :
      (by_id : Dict String ImpressionRecord) (labels after : Labels F)
      (events : List (BehaviorRecord F))
      → Each (Found validation) by_id
      → EachOf Labelled labels
      → label_events evaluation_time window by_id labels events ≡ ok after
      → EachOf Labelled after
  unfolding label_events
  label_events-EachOf by_id labels after [] d t h =
      subst (λ x. EachOf Labelled x) (ok-injective labels after h) t
  label_events-EachOf by_id labels after (e ∷ events) d t h =
      let o = impression_of by_id e.impression_id in
      let (next, q, h) =
        >>=-eq-ok (label_for evaluation_time window labels e o)
          (λ x. label_events evaluation_time window by_id x events) h in
      label_events-EachOf by_id next after events d
        (label_for-EachOf by_id labels next e o
          (λ i p. impression_of-mem validation by_id e.impression_id i d p) t q)
        h

module _ {F : Type 0} where
  -- What the parts of a split are: known events, finalized impressions and their label events.
  pub record IsSeparate (cutoff evaluation_time window : ℕ) (split : TemporalSplit F) : Type 0 where
    pub training : All (IsKnown cutoff) split.training_events
    pub validation : All (IsFinal cutoff evaluation_time window) split.validation_impressions
    pub labels :
        EachOf
          (Labelled evaluation_time window split.validation_impressions)
          split.label_events_by_impression

  split_between-IsSeparate :
      (impressions : List ImpressionRecord) (events : List (BehaviorRecord F))
      (cutoff evaluation_time window : ℕ) (split : TemporalSplit F)
      → window ≤ evaluation_time
      → split_between impressions events cutoff evaluation_time window (evaluation_time - window)
        ≡ ok split
      → IsSeparate cutoff evaluation_time window split
  unfolding split_between
  split_between-IsSeparate impressions events cutoff evaluation_time window split w h =
      let test = is_validation cutoff (evaluation_time - window) in
      let labelled = λ (v : List ImpressionRecord).
        label_events evaluation_time window (identify [] v) [] events in
      let (training, f, h) =
        >>=-eq-ok (filter_ok (is_training cutoff) events)
          (λ training. filter_ok test impressions >>= λ kept.
            labelled (sort impression_le kept) >>= λ labels.
            ok (split_with training (sort impression_le kept) labels))
          h in
      let (kept, g, h) =
        >>=-eq-ok (filter_ok test impressions)
          (λ kept. labelled (sort impression_le kept) >>= λ labels.
            ok (split_with training (sort impression_le kept) labels))
          h in
      let v = sort impression_le kept in
      let (labels, k, h) = >>=-eq-ok (labelled v) (λ labels. ok (split_with training v labels)) h in
      let final =
        filter_ok-All test (IsFinal cutoff evaluation_time window)
          (λ i. is_validation-IsFinal cutoff evaluation_time window i w) impressions kept g in
      subst (λ (x : TemporalSplit F). IsSeparate cutoff evaluation_time window x)
        (ok-injective (split_with training v labels) split h)
        (record {
          training =
              filter_ok-All (is_training cutoff) (IsKnown cutoff) (is_training-IsKnown cutoff)
                events training f;
          validation =
              All-perm (IsFinal cutoff evaluation_time window)
                (Permᴰ.symm (sort-perm impression_le kept)) final;
          labels =
              label_events-EachOf evaluation_time window v (identify [] v) [] labels events
                (identify-Each v [] v tt (All-intro (λ i. Memᴰ i v) v (λ i m. m))) tt k;
        })

  -- If `build_temporal_split` returns, the training events happened and arrived before the cutoff, the
  -- validation impressions were served from then on with a window that has elapsed, and a label event is of
  -- a validation impression, in its window and known at the time of evaluation.
  pub build_temporal_split-IsSeparate :
      (impressions : List ImpressionRecord) (events : List (BehaviorRecord F))
      (cutoff_at : Datetime) (hours : ℕ) (as_of : Datetime) (split : TemporalSplit F)
      → build_temporal_split impressions events cutoff_at hours as_of ≡ ok split
      → (cutoff : ℕ) × (evaluation_time : ℕ) × IsAt cutoff_at cutoff
        × IsAt as_of evaluation_time
        × IsSeparate cutoff evaluation_time (microseconds hours) split
  unfolding build_temporal_split
  build_temporal_split-IsSeparate impressions events cutoff_at hours as_of split h =
      let window = microseconds hours in
      let checked = λ (c t : ℕ).
        if leb t c
        then raised cutoff_too_late
        else (if ltb t window
            then raised out_of_range
            else split_between impressions events c t window (t - window)) in
      elim (Bool-cases (leb hours 0)) [
        | inl z ↦ cc (rw z at h)
        | inr z ↦
            let (c, f, h) =
              >>=-eq-ok (aware_utc cutoff_at) (λ c. aware_utc as_of >>= λ t. checked c t)
                (rw z at h) in
            let (t, g, h) = >>=-eq-ok (aware_utc as_of) (λ t. checked c t) h in
            elim (Bool-cases (leb t c)) [
              | inl l ↦ cc (rw l at h)
              | inr l ↦
                  let h = rw l at h in
                  elim (Bool-cases (ltb t window)) [
                    | inl w ↦ cc (rw w at h)
                    | inr w ↦ (
                      c,
                      t,
                      f,
                      g,
                      split_between-IsSeparate impressions events c t window split
                          (ground (arith, w)) (rw w at h),
                    )
                  ]
            ]
      ]

  -- If `build_temporal_split` returns, every training event happened strictly before every label event.
  pub build_temporal_split-lt :
      (impressions : List ImpressionRecord) (events : List (BehaviorRecord F))
      (cutoff_at : Datetime) (hours : ℕ) (as_of : Datetime) (split : TemporalSplit F)
      (x y : BehaviorRecord F) (id : String) (labels : List (BehaviorRecord F)) (s t : ℕ)
      → build_temporal_split impressions events cutoff_at hours as_of ≡ ok split
      → Memᴰ x split.training_events
      → lookup id split.label_events_by_impression ≡ some labels
      → Memᴰ y labels
      → IsAt x.occurred_at s
      → IsAt y.occurred_at t
      → s < t
  build_temporal_split-lt impressions events cutoff_at hours as_of split x y id labels s t h mx l my
        p q =
      let (c, n, _, _, parts) =
        build_temporal_split-IsSeparate impressions events cutoff_at hours as_of split h in
      let window = microseconds hours in
      let v = split.validation_impressions in
      let k = All-mem (IsKnown c) split.training_events parts.training mx in
      let each =
        lookup-Each (λ id xs. All (Labelled n window v id) xs) id labels
          split.label_events_by_impression parts.labels l in
      let (i, mi, _, e) = All-mem (Labelled n window v id) labels each my in
      let f = All-mem (IsFinal c n window) v parts.validation mi in
      let first = ok-injective k.occurred s (sym k.occurred_at ∙ p) in
      let served = ok-injective f.served e.served (sym f.served_at ∙ e.served_at) in
      let last = ok-injective e.occurred t (sym e.occurred_at ∙ q) in
      omega (arith, first, served, last, k.early, f.late, e.after)
