-- ===== src/Worker/Store.antt =====
-- What main.py keeps in PostgreSQL and Redis, and the queries over it. A table is a dict by its
-- primary key, a JSONB column holds the decoded value, and `behavior_events` holds a user's rows in
-- the order of the queries, `occurred_at` and `id`. Another service writes users, posts and rows.
use text.Mathlib.Text.{◌==◌ as str_eq}
use oecophylla.Common.{
  ℕ, ◌+◌, ◌-◌, String, ◌&&◌, ◌||◌, not, Option, none, some, List, [], map, Outcome, ok, ◌>>=◌,
  if◌then◌else◌, keep_if, leb, is_empty,
}
use oecophylla.Common.Int.{ℤ}
use oecophylla.Common.Float.{Arith}
use oecophylla.Common.Value.{aware}
use oecophylla.Common.Dict.{Dict, lookup, insert}
use oecophylla.Common.Eq.{string_eq, elem}
use oecophylla.Preference.{PreferenceEvent, PreferenceVectorV2, PreferenceError, or_general}
use oecophylla.Recent.{ranked_view_topics, window, is_meaningful}

-- A row of the query of `behavior_events` with the columns of `posts`; an absent array is `none`.
pub record Row : Type 0 where
  pub event_id : String
  pub post_id : String
  pub impression_id : Option String
  pub session_id : Option String
  pub visit_id : Option String
  pub event_type : String
  pub dwell_ms : Option ℤ
  pub read_trigger : Option String
  pub topic_snapshot : Option (List String)
  pub occurred_at : ℕ
  pub topics : Option (List String)
  pub tags : Option (List String)

pub record Post : Type 0 where
  pub topics : Option (List String)
  pub tags : Option (List String)

abbrev pub or_empty : Option (List String) → List String
or_empty none = []
or_empty (some ts) = ts

-- `topic and ...`: texts that are not empty.
abbrev pub nonempty : List String → List String
nonempty ts = keep_if (λ t. not (str_eq t "")) ts

-- `str(row[...]) if row[...] else None`
abbrev pub or_none : Option String → Option String
or_none none = none
or_none (some s) = if str_eq s "" then none else some s

-- The topics of a row: the snapshot, or else the post's own topics, or else its tags.
unfoldable pub row_topics : Row → List String
row_topics row = elim row.topic_snapshot [
  | some snapshot ↦ nonempty snapshot
  | none ↦
      let topics = keep_if is_meaningful (or_empty row.topics) in
      if is_empty topics then or_general (nonempty (or_empty row.tags)) else topics
]

unfoldable pub canonical_event : Row → PreferenceEvent
canonical_event row = record {
  event_id = row.event_id;
  post_id = row.post_id;
  event_type = row.event_type;
  topics = row_topics row;
  occurred_at = aware row.occurred_at;
  impression_id = or_none row.impression_id;
  session_id = or_none row.session_id;
  visit_id = row.visit_id;
  dwell_ms = row.dwell_ms;
  read_trigger = row.read_trigger;
}

-- `_canonical_preference_events`
unfoldable pub canonical_preference_events : List Row → List PreferenceEvent
canonical_preference_events rows = map canonical_event rows

-- The topics of a post that a delta is spread over: its own if one of them has a name, or its tags.
unfoldable pub resolved_topics : Post → List String
resolved_topics post =
    let raw_topics = or_empty post.topics in
    let tags = or_empty post.tags in
    if is_empty (keep_if is_meaningful raw_topics)
    then (if is_empty tags then raw_topics else tags)
    else raw_topics

-- `feature_event_receipts`, `users`, `user_preference_vectors`, `user_preference_vectors_v2`,
-- `posts`, `behavior_events`, `users.topic_prefs`, and `user_recent_topic_preferences` with the
-- instants of the refresh and of the next one, `none` for `infinity`.
pub record Store (F : Type 0) : Type 0 where
  pub receipts : List String
  pub users : List String
  pub weights : Dict String (Dict String F)
  pub vectors : Dict String (PreferenceVectorV2 F)
  pub posts : Dict String Post
  pub behavior : Dict String (List Row)
  pub topic_prefs : Dict String (List String)
  pub refreshes : Dict String (ℕ × Option ℕ)

-- The query of `_refresh_recent_topics_for_user`: the views between the two instants.
unfoldable pub recent_rows : ℕ → List Row → List Row
recent_rows now rows =
    keep_if
      (λ row.
        (str_eq row.event_type "view" || str_eq row.event_type "dwell")
        && (leb (now - window) row.occurred_at && leb row.occurred_at now))
      rows

-- An hour, in microseconds.
abbrev pub hour : ℕ
hour = 3600000000

module _ {F : Type 0} where
  abbrev pub rows_of : String → Store F → List Row
  rows_of user s = elim (lookup user s.behavior) [ none ↦ [] | some rows ↦ rows ]

  -- The two statements: the topics of a user who has a row, and the time of the next refresh.
  unfoldable pub write_topics : String → ℕ → List String → Store F → Store F
  write_topics user now topics s = record s {
    topic_prefs = if elem user s.users then insert user topics s.topic_prefs else s.topic_prefs;
    refreshes = insert user (now, if is_empty topics then none else some (now + hour)) s.refreshes;
  }

-- `_refresh_recent_topics_for_user`. Every row has a timezone, so the host's plays no part.
module _ (a : Arith) where
  unfoldable pub refresh_recent_topics :
      (ℕ → ℕ) → String → ℕ → Store a.F → Outcome PreferenceError (Store a.F)
  refresh_recent_topics local user now s =
      let events = canonical_preference_events (recent_rows now (rows_of user s)) in
      ranked_view_topics a local now events >>= λ topics. ok (write_topics user now topics s)
