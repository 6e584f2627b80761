-- ===== src/Recent/Tests.antt =====
-- Witnesses: the inferred topics of two views.
use oecophylla.Recent.{
  latest_by_post, keep_latest, is_view, in_window, in_utc, score_all, score_event, topics_of,
  is_meaningful, add_score, score_le, contribution,
}
use oecophylla.Preference.{sorted_set}
use oecophylla.Common.Sort.{sort}
use oecophylla.Common.Text.{str_le}
use oecophylla.Common.{ℕ, ◌≤◌, String, ◌≡◌, refl, none, List, [], ◌∷◌, All, ok, length}
use oecophylla.Common.Fixed.{thousandths}
use oecophylla.Common.Value.{aware}
use oecophylla.Common.Unique.{Unique}
use oecophylla.Common.Eq.{string_eq}
use oecophylla.Preference.{PreferenceEvent}
use oecophylla.Recent.{max_topics, ranked_view_topics}
use oecophylla.Recent.Shape.{Inferred, ranked_view_topics-Inferred}

abbrev viewed : String → String → List String → ℕ → PreferenceEvent
viewed id post topics t = record {
  event_id = id;
  post_id = post;
  event_type = "view";
  topics = topics;
  occurred_at = aware t;
  impression_id = none;
  session_id = none;
  visit_id = none;
  dwell_ms = none;
  read_trigger = none;
}

abbrev views : List PreferenceEvent
views =
    viewed "a" "p" ("rust" ∷ "general" ∷ []) 86400000000
    ∷ viewed "b" "q" ("go" ∷ "rust" ∷ []) 172800000000
    ∷ []

abbrev local : ℕ → ℕ
local t = t

abbrev ranked : List String
ranked = "rust" ∷ "go" ∷ []

ranked-views : ranked_view_topics thousandths local 172800000000 views ≡ ok ranked
unfolding ranked_view_topics latest_by_post keep_latest is_view in_window in_utc score_all
    score_event topics_of sorted_set sort is_meaningful str_le add_score score_le contribution
ranked-views = refl

ranked_view_topics-Inferred_example :
    length ranked ≤ max_topics × Unique ranked × All (Inferred local 172800000000 views) ranked
ranked_view_topics-Inferred_example =
    ranked_view_topics-Inferred thousandths local 172800000000 views ranked ranked-views
