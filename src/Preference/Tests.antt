-- ===== src/Preference/Tests.antt =====
-- Witnesses: the theorems on vectors at a like and a later hide, in thousandths.
use oecophylla.Preference.Replay.{
  reference, latest_from, timed, vector_at, replay, unique_events, contribute_all, event_le,
  replay_one, replay_other, contribute, add_bounded,
}
use oecophylla.Preference.{aware_utc, rounded_channel, decay_factor}
use oecophylla.Common.Traverse.{traverse}
use oecophylla.Common.Sort.{sort}
use oecophylla.Common.{ℕ, String, ◌≡◌, refl, none, [], ◌∷◌, Permᴰ, ok}
use oecophylla.Common.Int.{ℤ, pos}
use oecophylla.Common.Fixed.{thousandths, thousandths-IsOrdered}
use oecophylla.Common.Value.{aware}
use oecophylla.Common.Text.{str_ne}
use oecophylla.Preference.{PreferenceEvent, PreferenceVectorV2}
use oecophylla.Preference.Replay.{Settings, build_preference_vector_v2}
use oecophylla.Preference.Delivery.{build_preference_vector_v2-perm}
use oecophylla.Preference.Bounds.{Within, build_preference_vector_v2-Within}

abbrev event : String → String → String → ℕ → PreferenceEvent
event id type topic t = record {
  event_id = id;
  post_id = "post";
  event_type = type;
  topics = topic ∷ [];
  occurred_at = aware t;
  impression_id = none;
  session_id = none;
  visit_id = none;
  dwell_ms = none;
  read_trigger = none;
}

abbrev like : PreferenceEvent
like = event "a" "like" "rust" 3600000000

abbrev hide : PreferenceEvent
hide = event "b" "hide" "go" 7200000000

-- A day's half-life, and a bound of 1.
abbrev settings : Settings ℤ
settings = record {
  reference_at = none;
  half_life_hours = pos 24000;
  channel_bound = pos 1000;
  qualified_read_ms = pos 10000;
  now = aware 0;
}

build_preference_vector_v2-perm_example :
    build_preference_vector_v2 thousandths settings (like ∷ hide ∷ [])
    ≡ build_preference_vector_v2 thousandths settings (hide ∷ like ∷ [])
build_preference_vector_v2-perm_example =
    build_preference_vector_v2-perm thousandths settings {es = like ∷ hide ∷ []}
      {fs = hide ∷ like ∷ []} (Permᴰ.swap refl refl) ((str_ne "b" "b" "a" refl refl, tt), (tt, tt))
      ((3600000000, refl), ((7200000000, refl), tt))

abbrev vector : PreferenceVectorV2 ℤ
vector = record {
  positive = ("rust", pos 750) ∷ [];
  negative = ("go", pos 1000) ∷ [];
  reference_at = 7200000000;
  source_event_count = 2;
  schema_version = "preference-vector-v2";
}

build-vector : build_preference_vector_v2 thousandths settings (like ∷ hide ∷ []) ≡ ok vector
unfolding build_preference_vector_v2 reference latest_from aware_utc traverse timed vector_at
    rounded_channel replay sort unique_events contribute_all event_le replay_one replay_other
    contribute decay_factor add_bounded
build-vector = refl

build_preference_vector_v2-Within_example :
    Within thousandths thousandths-IsOrdered (pos 1000) vector.positive
    × Within thousandths thousandths-IsOrdered (pos 1000) vector.negative
build_preference_vector_v2-Within_example =
    build_preference_vector_v2-Within thousandths thousandths-IsOrdered settings (λ x h. h)
      (like ∷ hide ∷ []) vector build-vector
