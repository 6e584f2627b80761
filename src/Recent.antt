-- ===== src/Recent.antt =====
-- workers/feature_store_worker/app/recent_topics.py: `ranked_view_topics`. The clock's reading is an
-- argument. A datetime without a timezone is read in the host's timezone by `astimezone`; comparing
-- it with one that has a timezone, or subtracting it from one, raises.
pub mod Shape
mod Tests
use text.Mathlib.Text.{◌==◌ as str_eq}
use oecophylla.Common.{
  ℕ, ◌+◌, ◌-◌, ◌*◌, String, ◌≡◌, Bool, true, false, ◌&&◌, ◌||◌, not, Option, none, some, List, [],
  ◌∷◌, Outcome, ok, raised, ◌>>=◌, if◌then◌else◌, length, keep_if, take, ltb, leb,
}
use oecophylla.Common.Int.{ℤ, pos}
use oecophylla.Common.Float.{Arith, whole, zero_f}
use oecophylla.Common.Value.{Datetime, aware, naive}
use oecophylla.Common.Dict.{Dict, lookup, lookup_or, insert, keys, values}
use oecophylla.Common.Eq.{string_eq}
use oecophylla.Common.Text.{str_le}
use oecophylla.Common.Sort.{sort}
use oecophylla.Preference.{PreferenceEvent, PreferenceError, mixed_timestamps, sorted_set}

-- `WINDOW_DAYS` in microseconds, `MAX_TOPICS` and `HALF_LIFE_DAYS`
abbrev pub window : ℕ
window = 1814400000000

abbrev pub max_topics : ℕ
max_topics = 5

abbrev pub half_life_days : ℕ
half_life_days = 7

-- `astimezone(timezone.utc)`, for a reading of the host's clock.
unfoldable pub in_utc : (ℕ → ℕ) → Datetime → ℕ
in_utc local (aware t) = t
in_utc local (naive t) = local t

-- Whether a converted instant is later than an event's own: a naive one does not compare.
unfoldable pub later_than : ℕ → PreferenceEvent → Outcome PreferenceError Bool
later_than t e = elim e.occurred_at [ aware u ↦ ok (ltb u t) | naive u ↦ raised mixed_timestamps ]

unfoldable pub in_window : ℕ → ℕ → Bool
in_window now t = leb now (t + window) && leb t now

unfoldable pub is_view : PreferenceEvent → Bool
is_view e = str_eq e.event_type "view" || str_eq e.event_type "dwell"

abbrev pub Latest : Type 0
Latest = Dict String PreferenceEvent

-- The body of the first loop: the latest view of each post in the window.
unfoldable pub keep_latest : (ℕ → ℕ) → ℕ → PreferenceEvent → Latest → Outcome PreferenceError Latest
keep_latest local now e latest =
    let t = in_utc local e.occurred_at in
    if not (is_view e) || not (in_window now t)
    then ok latest
    else (elim (lookup e.post_id latest) [
      | none ↦ ok (insert e.post_id e latest)
      | some previous ↦ later_than t previous >>= λ later.
          ok (if later then insert e.post_id e latest else latest)
    ])

unfoldable pub latest_by_post :
    (ℕ → ℕ) → ℕ → Latest → List PreferenceEvent → Outcome PreferenceError Latest
latest_by_post local now latest [] = ok latest
latest_by_post local now latest (e ∷ es) =
    keep_latest local now e latest >>= λ latest'. latest_by_post local now latest' es

-- `topic and topic != "general"`
unfoldable pub is_meaningful : String → Bool
is_meaningful t = not (str_eq t "") && not (str_eq t "general")

unfoldable pub topics_of : PreferenceEvent → List String
topics_of e = sorted_set (keep_if is_meaningful e.topics)

module _ (a : Arith) where
  open a use {F, ratio, add, div, neg, lt, exp2}

  unfoldable pub add_score : F → List String → Dict String F → Dict String F
  add_score contribution [] scores = scores
  add_score contribution (t ∷ ts) scores =
      add_score contribution ts (insert t (add (lookup_or t (zero_f a) scores) contribution) scores)

  -- `exp2(-age_days / HALF_LIFE_DAYS) / len(topics)`, for an age in microseconds.
  unfoldable pub contribution : ℕ → List String → F
  contribution age topics =
      let age_days = div (ratio (pos age) 1000000) (whole a 86400) in
      div (exp2 (div (neg age_days) (whole a half_life_days))) (whole a (length topics))

  -- The body of the second loop. The window keeps every event at or before `now`.
  unfoldable pub score_event :
      ℕ → PreferenceEvent → Dict String F → Outcome PreferenceError (Dict String F)
  score_event now e scores = elim (topics_of e) [
    | [] ↦ ok scores
    | t ∷ ts ↦ elim e.occurred_at [
      | aware at ↦ ok (add_score (contribution (now - at) (t ∷ ts)) (t ∷ ts) scores)
      | naive at ↦ raised mixed_timestamps
    ]
  ]

  unfoldable pub score_all :
      ℕ → List PreferenceEvent → Dict String F → Outcome PreferenceError (Dict String F)
  score_all now [] scores = ok scores
  score_all now (e ∷ es) scores = score_event now e scores >>= λ scores'. score_all now es scores'

  -- `key=lambda topic: (-scores[topic], topic)`: a higher score first, the name on a tie.
  unfoldable pub score_le : String × F → String × F → Bool
  score_le (t, x) (u, y) =
      if lt (neg x) (neg y) then true else (if lt (neg y) (neg x) then false else str_le t u)

  unfoldable pub ranked_view_topics :
      (ℕ → ℕ) → ℕ → List PreferenceEvent → Outcome PreferenceError (List String)
  ranked_view_topics local now events = latest_by_post local now [] events >>= λ latest.
      score_all now (values latest) [] >>= λ scores.
      ok (take max_topics (keys (sort score_le scores)))
