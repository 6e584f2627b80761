-- ===== src/Worker/Rebuild.antt =====
-- `_rebuild_v2_for_user` of main.py, and `_refresh_preference_cache`: the keys of Redis that an update
-- deletes and writes, `_occurred_at`, and `as_payload` of features.py.
use oecophylla.Common.{ℕ, String, Option, none, some, List, [], ◌∷◌, map, Outcome, ok, ◌>>=◌}
use oecophylla.Common.Float.{Arith}
use oecophylla.Common.Int.{pos}
use oecophylla.Common.Value.{
  Datetime, aware, naive, int, float, str, mapping, Fields, end, field, get_value,
}
use oecophylla.Common.Dict.{Dict}
use oecophylla.Preference.{PreferenceEvent, PreferenceVectorV2}
use oecophylla.Preference.Replay.{build_preference_vector_v2}
use oecophylla.Worker.Store.{Store, rows_of, canonical_preference_events}
use oecophylla.Worker.Apply.{ApplyError, Config, lift_preference, upsert_vector_v2}

-- The prefixes of `preference_cache_keys`; a key is a prefix and the user's id.
abbrev pub cache_prefixes : List String
cache_prefixes =
    "pref:" ∷ "pref:v1:" ∷ "pref:v2:" ∷ "history:v1:" ∷ "history:v2:" ∷ "feed:" ∷ "feed:v1:"
    ∷ "feed:v2:" ∷ []

unfoldable pub preference_cache_keys : String → List (String × String)
preference_cache_keys user = map (λ prefix. (prefix, user)) cache_prefixes

-- The commands sent to Redis.
pub data Command (F : Type 0) : Type 0 where
  delete : List (String × String) → Command F
  setex_v1 : String × String → ℕ → Dict String F → Command F
  setex_v2 : String × String → ℕ → PreferenceVectorV2 F → Command F

-- `_refresh_preference_cache`
unfoldable pub refresh_preference_cache :
    {F : Type 0} → String → Dict String F → Option (PreferenceVectorV2 F) → ℕ → List (Command F)
refresh_preference_cache user vector_v1 vector_v2 ttl_seconds =
    delete (preference_cache_keys user)
    ∷ setex_v1 ("pref:", user) ttl_seconds vector_v1
    ∷ setex_v1 ("pref:v1:", user) ttl_seconds vector_v1
    ∷ elim vector_v2 [ none ↦ [] | some v ↦ setex_v2 ("pref:v2:", user) ttl_seconds v ∷ [] ]

module _ (a : Arith) (cfg : Config a) where
  open cfg use {settings}

  -- From the user's events on: nothing is written if there are none.
  unfoldable pub rebuild_from :
      String
      → Store a.F
      → List PreferenceEvent
      → Outcome ApplyError (Store a.F × List (Command a.F))
  rebuild_from user s [] = ok (s, [])
  rebuild_from user s (e ∷ es) =
      lift_preference (build_preference_vector_v2 a settings (e ∷ es)) >>= λ vector.
      ok (upsert_vector_v2 a cfg user (some vector) s, delete (preference_cache_keys user) ∷ [])

  -- `_rebuild_v2_for_user`
  unfoldable pub rebuild_v2_for_user :
      String → Store a.F → Outcome ApplyError (Store a.F × List (Command a.F))
  rebuild_v2_for_user user s = rebuild_from user s (canonical_preference_events (rows_of user s))

module _ {F : Type 0} where
  -- `_occurred_at`, by `datetime.fromisoformat` and the clock's reading
  unfoldable pub occurred_at : (String → Option Datetime) → ℕ → Fields F → ℕ
  occurred_at from_isoformat now env = elim (get_value "occurred_at" env) [
    | str s ↦ elim (from_isoformat s) [ none ↦ now | some d ↦ elim d [ aware t ↦ t | naive t ↦ t ] ]
    | _ ↦ now
  ]

  weights_value : Dict String F → Fields F
  weights_value [] = end
  weights_value ((topic, weight) ∷ d) = field topic (float weight) (weights_value d)

  -- `as_payload`, by `datetime.isoformat`
  unfoldable pub as_payload : (ℕ → String) → PreferenceVectorV2 F → Fields F
  unfolding weights_value
  as_payload isoformat v = field "schema_version" (str v.schema_version) (
      field "positive" (mapping (weights_value v.positive)) (
        field "negative" (mapping (weights_value v.negative)) (
          field "reference_at" (str (isoformat v.reference_at))
            (field "source_event_count" (int (pos v.source_event_count)) end))))
