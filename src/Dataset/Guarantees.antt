-- ===== src/Dataset/Guarantees.antt =====
-- What `build_samples` guarantees of the rows it returns.
use mathlib.Core.List.Permᴰ
use oecophylla.Common.{
  String, ◌+◌, ◌≤◌, ◌<◌, length-map, ◌≡◌, refl, sym, ap, ◌∙◌, subst, List, map, Memᴰ, Permᴰ, ok,
  ◌>>=◌, >>=-eq-ok, ok-injective, arith, All, All-mem, All-map_weaken, length, keep_if, keep_if-mem,
  length-keep_if_perm, Permᴰ-length,
}
use oecophylla.Common.Dict.{Dict, values}
use oecophylla.Common.Float.{Arith}
use oecophylla.Common.Sort.{sort, sort-perm, Permᴰ-mem}
use oecophylla.Dataset.Order.{rank}
use oecophylla.Dataset.Temporal.{SameTime, Shape, Shape-lt, Shape-perm, Shape-All}
use oecophylla.Dataset.Splits.{split_rows-Shape}
use oecophylla.Dataset.Records.{
  Library, DatasetConfig, Impression, BehaviorEvent, DatasetRow, BuildResult,
}
use oecophylla.Dataset.Checks.{
  Request, deduplicate, same_impression, same_event, validate_request_envelopes,
}
use oecophylla.Dataset.Row.{dataset_row}
use oecophylla.Dataset.Envelopes.{validate_request_envelopes-same}
use oecophylla.Dataset.Samples.{
  Progress, no_progress, add_impressions, in_window, window_end, impression_le, check_version,
  collect, collect_unique, walk, checked, built, split_samples, build_samples, stats_of,
}
use oecophylla.Dataset.Built.{IsSound, Tracks, add_impressions-Tracks}

module _ (a : Arith) (library : Library a.F) (config : DatasetConfig a.F) where
  -- What the loop has when it is done.
  record Collected (impressions : List (Impression a.F)) (p : Progress a.F) : Type 0 where
    unique : Dict String (Impression a.F)
    deduplicated : deduplicate (λ i. i.id) (same_impression library) impressions ≡ ok unique
    requests : Dict String Request
    validated :
        validate_request_envelopes (keep_if (in_window library config) (values unique))
        ≡ ok requests
    tracks :
        Tracks library config
          (values unique)
          (length (keep_if (in_window library config) (values unique)))
          p

  walk-Tracks :
      (impressions : List (Impression a.F)) (events : List (BehaviorEvent a.F)) (p : Progress a.F)
      → walk library config impressions events ≡ ok p
      → Tracks library config impressions
          (length (keep_if (in_window library config) impressions))
          p
  unfolding walk
  walk-Tracks impressions events p h =
      let sorted = sort (impression_le library config) impressions in
      let order = sort-perm (impression_le library config) impressions in
      let (q, e, h) =
        >>=-eq-ok (add_impressions library config events no_progress sorted)
          (checked library config) h in
      let (_, _, h) = >>=-eq-ok (check_version library config q.observed) (λ _. ok q) h in
      let none_yet : Tracks library config impressions 0 no_progress = record {
        total = refl;
        sound = tt;
      } in
      let t =
        add_impressions-Tracks library config impressions events 0 no_progress q sorted
          (λ i m. Permᴰ-mem (Permᴰ.symm order) m) none_yet e in
      let total = length-keep_if_perm (in_window library config) order in
      subst
        (λ x.
          Tracks library config impressions
            (length (keep_if (in_window library config) impressions)) x)
        (ok-injective q p h)
        (subst (λ n. Tracks library config impressions n q) (omega (arith, total)) t)

  collect-Collected :
      (impressions : List (Impression a.F)) (events : List (BehaviorEvent a.F)) (p : Progress a.F)
      → collect library config impressions events ≡ ok p
      → Collected impressions p
  unfolding collect collect_unique
  collect-Collected impressions events p h =
      let (u, d, h) =
        >>=-eq-ok (deduplicate (λ i. i.id) (same_impression library) impressions)
          (λ u. deduplicate (λ e. e.id) (same_event library) events >>= λ v.
            collect_unique library config (values u) (values v))
          h in
      let (v, _, h) =
        >>=-eq-ok (deduplicate (λ e. e.id) (same_event library) events)
          (λ v. collect_unique library config (values u) (values v)) h in
      let (r, e, h) =
        >>=-eq-ok (validate_request_envelopes (keep_if (in_window library config) (values u)))
          (λ _. walk library config (values u) (values v)) h in
      record {
        unique = u;
        deduplicated = d;
        requests = r;
        validated = e;
        tracks = walk-Tracks (values u) (values v) p h;
      }

  -- The rows of one request have one time, since their impressions have.
  Collected-SameTime :
      (impressions : List (Impression a.F)) (p : Progress a.F)
      → Collected impressions p
      → SameTime dataset_row p.rows
  Collected-SameTime impressions p c r s mr ms q =
      let window = keep_if (in_window library config) (values c.unique) in
      let Sourced : DatasetRow a.F → Type 0 =
        λ r. (i : Impression a.F) × Memᴰ i (values c.unique) × IsSound library config i r in
      let (i, mi, ri) = All-mem Sourced p.rows c.tracks.sound mr in
      let (j, mj, rj) = All-mem Sourced p.rows c.tracks.sound ms in
      let same =
        validate_request_envelopes-same window c.requests i j c.validated
          (keep_if-mem (in_window library config) (values c.unique) mi ri.included)
          (keep_if-mem (in_window library config) (values c.unique) mj rj.included)
          (sym ri.named ∙ q ∙ rj.named) in
      ri.time ∙ same ∙ sym rj.time

  record Finished (impressions : List (Impression a.F)) (events : List (BehaviorEvent a.F))
      (result : BuildResult a.F) : Type 0 where
    progress : Progress a.F
    collected : Collected impressions progress
    shaped : Shape dataset_row progress.rows result.rows
    stats : result.stats ≡ stats_of library config (length impressions) (length events) progress

  split_samples-eq :
      (impressions : List (Impression a.F)) (events : List (BehaviorEvent a.F)) (p : Progress a.F)
      → (rows : List (DatasetRow a.F)) × (split_samples a library config impressions events p
          ≡ ok (built a library config impressions events p rows))
        × Shape dataset_row p.rows rows
  unfolding split_samples
  split_samples-eq impressions events p =
      let (rows, e, s) =
        split_rows-Shape dataset_row a config.train_fraction config.validation_fraction p.rows in
      (rows, rw e refl, s)

  build_samples-Finished :
      (impressions : List (Impression a.F)) (events : List (BehaviorEvent a.F))
      (result : BuildResult a.F)
      → build_samples a library config impressions events ≡ ok result
      → Finished impressions events result
  unfolding build_samples
  build_samples-Finished impressions events result h =
      let (p, e, h) =
        >>=-eq-ok (collect library config impressions events)
          (split_samples a library config impressions events) h in
      let (rows, q, s) = split_samples-eq impressions events p in
      let same =
        ok-injective (built a library config impressions events p rows) result (sym q ∙ h) in
      record {
        progress = p;
        collected = collect-Collected impressions events p e;
        shaped = subst (λ x. Shape dataset_row p.rows x.rows) same s;
        stats = sym (ap (λ x. x.stats) same);
      }

  -- If `build_samples` returns, a row of an earlier split was served strictly before every row of a later
  -- split: training before validation, and validation before test.
  pub build_samples-lt :
      (impressions : List (Impression a.F)) (events : List (BehaviorEvent a.F))
      (result : BuildResult a.F) (x y : DatasetRow a.F)
      → build_samples a library config impressions events ≡ ok result
      → Memᴰ x result.rows
      → Memᴰ y result.rows
      → rank x.row_split < rank y.row_split
      → x.served_at < y.served_at
  build_samples-lt impressions events result x y h =
      let f = build_samples-Finished impressions events result h in
      Shape-lt dataset_row f.progress.rows result.rows f.shaped x y
        (Collected-SameTime impressions f.progress f.collected)

  -- The times of a row: served in the window, seen after it was served, and its label window closed when
  -- the data was extracted.
  pub record IsMature (r : DatasetRow a.F) : Type 0 where
    pub started : config.start ≤ r.served_at
    pub ended : r.served_at < config.end_at
    pub shown : r.served_at ≤ r.visible_at
    pub closed : window_end library config r.visible_at ≤ config.extraction_time

  IsMature-of_sound :
      (i : Impression a.F) (r : DatasetRow a.F) → IsSound library config i r → IsMature r
  IsMature-of_sound i r s = record {
    started = ground (arith, s.included, s.time);
    ended = ground (arith, s.included, s.time);
    shown = omega (arith, s.time, s.shown);
    closed = s.mature;
  }

  -- If `build_samples` returns, every row was served in the configured window, seen no earlier than it was
  -- served, and its label window closed by the time of extraction.
  pub build_samples-IsMature :
      (impressions : List (Impression a.F)) (events : List (BehaviorEvent a.F))
      (result : BuildResult a.F)
      → build_samples a library config impressions events ≡ ok result
      → All IsMature result.rows
  build_samples-IsMature impressions events result h =
      let f = build_samples-Finished impressions events result h in
      let c = f.collected in
      Shape-All dataset_row IsMature
        (λ s r m. record {
          started = m.started;
          ended = m.ended;
          shown = m.shown;
          closed = m.closed;
        })
        f.progress.rows result.rows f.shaped
        (All-map_weaken
          (λ r. (i : Impression a.F) × Memᴰ i (values c.unique) × IsSound library config i r)
          IsMature (λ r s. IsMature-of_sound s.0 r s.2) f.progress.rows c.tracks.sound)

  -- If `build_samples` returns, its rows and its three counts of left out impressions add up to the number
  -- of distinct impressions in the window.
  pub build_samples-counts :
      (impressions : List (Impression a.F)) (events : List (BehaviorEvent a.F))
      (result : BuildResult a.F)
      → build_samples a library config impressions events ≡ ok result
      → (unique : Dict String (Impression a.F)) × (deduplicate
            (λ i. i.id)
            (same_impression library)
            impressions
          ≡ ok unique)
        × (result.stats.served_without_visible
              + result.stats.immature_impressions
              + result.stats.unsupported_feature_schema
              + length result.rows
            ≡ length (keep_if (in_window library config) (values unique)))
  build_samples-counts impressions events result h =
      let f = build_samples-Finished impressions events result h in
      let c = f.collected in
      let rows : length result.rows ≡ length f.progress.rows =
        sym (length-map dataset_row.sample_id result.rows)
        ∙ Permᴰ-length (Shape-perm dataset_row f.progress.rows result.rows f.shaped)
        ∙ length-map dataset_row.sample_id f.progress.rows in
      (c.unique, c.deduplicated, rw f.stats (omega (arith, c.tracks.total, rows)))

  -- Where the rows can be collected, the split returns, and the result has exactly the rows' sample ids.
  pub build_samples-total :
      (impressions : List (Impression a.F)) (events : List (BehaviorEvent a.F)) (p : Progress a.F)
      → collect library config impressions events ≡ ok p
      → (result : BuildResult a.F) × (build_samples a library config impressions events ≡ ok result)
        × Permᴰ (map (λ r. r.sample_id) result.rows) (map (λ r. r.sample_id) p.rows)
  unfolding build_samples
  build_samples-total impressions events p h =
      let (rows, q, s) = split_samples-eq impressions events p in
      (
        built a library config impressions events p rows,
        rw h q,
        Shape-perm dataset_row p.rows rows s,
      )
