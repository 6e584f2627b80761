-- ===== src/Preference.antt =====
-- workers/feature_store_worker/app/features.py: events, weights, vectors, and the two updates of a
-- vector that need no replay. The replay stands in the children. Datetimes with a timezone count
-- microseconds; a weight counts tenths.
pub mod Replay
pub mod Delivery
pub mod Bounds
mod Tests
use text.Mathlib.Text.{◌==◌ as str_eq}
use oecophylla.Common.{
  ℕ, ◌*◌, String, ◌≡◌, Bool, true, false, ◌&&◌, ◌||◌, not, Option, none, some, List, [], ◌∷◌, ◌++◌,
  map, Outcome, ok, raised, ◌>>=◌, if◌then◌else◌, length, keep_if, ltb,
}
use oecophylla.Common.Int.{ℤ, pos, negsuc, sub_ℕ}
use oecophylla.Common.Float.{Arith, whole, zero_f, max_f, min_f, abs_f, sum_from}
use oecophylla.Common.Value.{Datetime, aware, naive}
use oecophylla.Common.Dict.{Dict, lookup, lookup_or, insert, values, keys}
use oecophylla.Common.Eq.{string_eq, elem}
use oecophylla.Common.Text.{str_le}
use oecophylla.Common.Sort.{sort}

pub record PreferenceEvent : Type 0 where
  pub event_id : String
  pub post_id : String
  pub event_type : String
  pub topics : List String
  pub occurred_at : Datetime
  pub impression_id : Option String
  pub session_id : Option String
  pub visit_id : Option String
  pub dwell_ms : Option ℤ
  pub read_trigger : Option String

pub record PreferenceVectorV2 (F : Type 0) : Type 0 where
  pub positive : Dict String F
  pub negative : Dict String F
  pub reference_at : ℕ
  pub source_event_count : ℕ
  pub schema_version : String

pub data PreferenceError : Type 0 where
  parameters_not_positive : PreferenceError
  coefficients_negative : PreferenceError
  timestamp_without_timezone : PreferenceError
  mixed_timestamps : PreferenceError

-- `PREFERENCE_SCHEMA_V2`
abbrev pub schema_v2 : String
schema_v2 = "preference-vector-v2"

-- `WEIGHTS`
abbrev pub weights : Dict String ℤ
weights =
    ("click", pos 0)
    ∷ ("view_observed", pos 0)
    ∷ ("dwell", pos 0)
    ∷ ("unhide", pos 0)
    ∷ ("viewed", pos 5)
    ∷ ("qualified_read", pos 5)
    ∷ ("liked", pos 15)
    ∷ ("unliked", negsuc 14)
    ∷ ("saved", pos 25)
    ∷ ("unsaved", negsuc 24)
    ∷ ("shared", pos 25)
    ∷ ("unshared", negsuc 24)
    ∷ ("hidden", negsuc 19)
    ∷ ("reported", negsuc 49)
    ∷ ("commented", pos 10)
    ∷ ("comment_replied", pos 7)
    ∷ []

-- `CANONICAL_WEIGHTS`
abbrev pub canonical_weights : Dict String ℤ
canonical_weights =
    ("click", pos 10)
    ∷ ("qualified_read", pos 5)
    ∷ ("like", pos 15)
    ∷ ("save", pos 25)
    ∷ ("share", pos 25)
    ∷ ("hide", negsuc 19)
    ∷ ("report", negsuc 49)
    ∷ ("comment", pos 10)
    ∷ []

-- `REVERSALS`
abbrev pub reversals : Dict String String
reversals = ("unlike", "like") ∷ ("unsave", "save") ∷ ("unshare", "share") ∷ ("unhide", "hide") ∷ []

-- `STATEFUL_EVENTS`
abbrev pub stateful_events : List String
stateful_events = "like" ∷ "save" ∷ "share" ∷ "hide" ∷ []

-- `_aware_utc`
unfoldable pub aware_utc : Datetime → Outcome PreferenceError ℕ
aware_utc (aware t) = ok t
aware_utc (naive t) = raised timestamp_without_timezone

-- A tuple or list of topics, or the general one for none.
abbrev pub or_general : List String → List String
or_general [] = "general" ∷ []
or_general (t ∷ ts) = t ∷ ts

module _ (a : Arith) where
  open a use {F, ratio, add, sub, mul, div, neg, lt, le, equal, round, exp2}

  abbrev pub tenths : ℤ → F
  tenths n = ratio n 10

  abbrev pub Channel : Type 0
  Channel = Dict String F

  unfoldable pub add_to_topics : (F → F) → List String → Channel → Channel
  add_to_topics step [] out = out
  add_to_topics step (t ∷ ts) out =
      add_to_topics step ts (insert t (step (lookup_or t (zero_f a) out)) out)

  -- `apply_topic_delta`
  unfoldable pub apply_topic_delta : Channel → List String → String → Channel
  unfolding add_to_topics
  apply_topic_delta vec topics event_type =
      let ts = or_general topics in
      let delta = div (tenths (lookup_or event_type (pos 0) weights)) (whole a (length ts)) in
      if equal delta (zero_f a) then vec else add_to_topics (λ x. round (add x delta) 4) ts vec

  -- `_rounded_channel`: the items in the order of their topics, rounded, without those that vanish.
  abbrev round_item : Bool → String × F → Channel → Channel
  round_item retain_negative (t, v) out =
      let r = round v 10 in
      if lt (ratio (pos 1) 1000000000000) (abs_f a r) && (retain_negative || lt (zero_f a) r)
      then insert t r out
      else out

  unfoldable pub round_items : Bool → Channel → Channel → Channel
  round_items retain_negative [] out = out
  round_items retain_negative (item ∷ items) out =
      round_items retain_negative items (round_item retain_negative item out)

  unfoldable pub item_le : String × F → String × F → Bool
  item_le (s, v) (t, w) = str_le s t

  unfoldable pub rounded_channel : Bool → Channel → Channel
  unfolding round_items
  rounded_channel retain_negative channel = round_items retain_negative (sort item_le channel) []

  -- `exp2(-hours / half_life)`, for the hours from `before` to `after`, or 0.
  unfoldable pub decay_factor : F → ℕ → ℕ → F
  decay_factor half_life_hours after before =
      let hours = max_f a (zero_f a) (div (ratio (sub_ℕ after before) 1000000) (whole a 3600)) in
      exp2 (div (neg hours) half_life_hours)

  scale : F → Channel → Channel
  scale factor [] = []
  scale factor ((t, v) ∷ c) = (t, mul v factor) ∷ scale factor c

  -- `decay_preference_vector`
  unfoldable pub decay_preference_vector :
      F → Datetime → PreferenceVectorV2 F → Outcome PreferenceError (PreferenceVectorV2 F)
  unfolding scale
  decay_preference_vector half_life_hours at vector =
      if le half_life_hours (zero_f a)
      then raised parameters_not_positive
      else (aware_utc at >>= λ now.
          let factor = decay_factor half_life_hours now vector.reference_at in
          ok (record {
            positive = rounded_channel false (scale factor vector.positive);
            negative = rounded_channel false (scale factor vector.negative);
            reference_at = if ltb now vector.reference_at then vector.reference_at else now;
            source_event_count = vector.source_event_count;
            schema_version = schema_v2;
          }))

  positive_parts : Channel → List F
  positive_parts [] = []
  positive_parts ((t, v) ∷ c) = max_f a (zero_f a) v ∷ positive_parts c

  shares_of : F → Channel → Channel
  shares_of total [] = []
  shares_of total ((t, v) ∷ c) =
      if lt (zero_f a) v
      then (t, div (max_f a (zero_f a) v) total) ∷ shares_of total c
      else shares_of total c

  -- `_normalize`
  unfoldable pub normalize : Channel → Channel
  unfolding positive_parts shares_of
  normalize channel =
      let total = sum_from a (zero_f a) (positive_parts channel) in
      if le total (zero_f a) then [] else shares_of total channel

  -- One of the three loops that merge a channel: `merged[t] = merged.get(t, 0.0) ± c * v`.
  merge_channel : (F → F → F) → Channel → Channel → Channel
  merge_channel step [] merged = merged
  merge_channel step ((t, v) ∷ c) merged =
      merge_channel step c (insert t (step (lookup_or t (zero_f a) merged) v) merged)

  uniform : F → List String → Channel
  uniform share [] = []
  uniform share (t ∷ ts) = (t, share) ∷ uniform share ts

-- `sorted({topic for topic in topics if topic})`
unfoldable pub distinct_from : List String → List String → List String
distinct_from seen [] = seen
distinct_from seen (t ∷ ts) =
    distinct_from (if str_eq t "" || elem t seen then seen else seen ++ t ∷ []) ts

unfoldable pub sorted_set : List String → List String
unfolding distinct_from
sorted_set ts = sort str_le (distinct_from [] ts)

-- The keyword arguments of `blend_preference_channels`.
pub record Blend (F : Type 0) : Type 0 where
  pub positive : Dict String F
  pub negative : Dict String F
  pub declared_topics : List String
  pub behavior_coefficient : F
  pub declared_coefficient : F
  pub behavior_confidence : F

module _ (a : Arith) where
  open a use {F, add, sub, mul, div, lt, le}

  -- `blend_preference_channels`
  unfoldable pub blend_preference_channels : Blend F → Outcome PreferenceError (Dict String F)
  unfolding merge_channel uniform
  blend_preference_channels b =
      let total = add b.behavior_coefficient b.declared_coefficient in
      let behavior = div b.behavior_coefficient total in
      let declared_share = div b.declared_coefficient total in
      let confidence = min_f a (whole a 1) (max_f a (zero_f a) b.behavior_confidence) in
      let declared = sorted_set b.declared_topics in
      let liked =
        merge_channel a (λ m v. add m (mul (mul behavior confidence) v)) (normalize a b.positive)
          [] in
      let disliked =
        merge_channel a (λ m v. sub m (mul (mul behavior confidence) v)) (normalize a b.negative)
          liked in
      let merged =
        merge_channel a (λ m v. add m (mul declared_share v))
          (uniform a (div (whole a 1) (whole a (length declared))) declared) disliked in
      if lt b.behavior_coefficient (zero_f a) || lt b.declared_coefficient (zero_f a)
      then raised coefficients_negative
      else (if le total (zero_f a) then ok [] else ok (rounded_channel a true merged))
