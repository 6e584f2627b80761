-- ===== src/Worker/Tests.antt =====
-- Witnesses: the theorems on the worker at one like, delivered twice, for a user who exists.
use oecophylla.Worker.Backfill.{backfill_v2, pending}
use oecophylla.Worker.Filled.{Ends, backfill_v2-Ends}
use oecophylla.Common.{
  ℕ, ◌+◌, ◌≤◌, ◌↔◌, String, ◌≡◌, refl, Bool, true, false, Option, none, some, List, [], ◌∷◌, ok,
  raised, arith, if◌then◌else◌, length, keep_if,
}
use text.Mathlib.Text.{◌==◌ as str_eq}
use oecophylla.Common.Eq.{string_eq}
use oecophylla.Common.Int.{ℤ, pos}
use oecophylla.Common.Fixed.{thousandths}
use oecophylla.Common.Value.{Value, str, mapping, Fields, end, field, aware}
use oecophylla.Common.Unique.{Unique, Apart}
use oecophylla.Batch.{touch, drain, prepend, extend_partition, extend_held, extend_records, ready}
use oecophylla.Preference.{apply_topic_delta, add_to_topics}
use oecophylla.Recent.{is_meaningful}
use oecophylla.Worker.Envelope.{
  event_type, event_id, sort_envelope, sort_mapping, sort_valid, valid_feature_event, extract_user,
  identity_field_is_present,
}
use oecophylla.Worker.Claim.{ids, claim, split_batch, split_one, is_claimed}
use oecophylla.Worker.Store.{Store, canonical_preference_events, resolved_topics}
use oecophylla.Worker.Apply.{
  Fault, healthy, unacknowledged, ApplyResult, Config, apply_for_user, finish, transaction,
  apply_features, claimed_events, refused_events, update_vectors, post_ids, post_id, topics_by_post,
  apply_deltas, rebuild, upsert_vector_v2, decode_vector_v2, lift_preference,
}
use oecophylla.Worker.Once.{World, Call, Effects, Effects-Unique}
use oecophylla.Worker.Division.{count, has_id, in_result, apply_for_user-count}
use oecophylla.Worker.Flush.{
  Applier, Flushing, flush, settle, sort_events, file_event, add_event, apply_batches, apply_batch,
  record_outcomes, update_trending, score_posts, trending_post, increment,
}
use oecophylla.Worker.Account.{flush-accounts}
use oecophylla.Worker.Calls.{Surroundings, worker_applier}
use oecophylla.Worker.Loop.{Run, Turn, turn, flush_and_commit, IsSound}
use oecophylla.Worker.Cancel.{turns, here, IsAccounted, Reaches-IsAccounted}

abbrev text_of : Value ℤ → String
text_of (str s) = s
text_of _ = ""

abbrev identity : String → Option String
identity s = if str_eq s "" then none else some s

abbrev uuid_of : Value ℤ → Option String
uuid_of v = identity (text_of v)

abbrev is_number : ℤ → ℕ → Bool
is_number x n = thousandths.equal x (thousandths.ratio (pos n) 1)

abbrev config : Config thousandths
config = record {
  library = record { str_of = text_of; parse_uuid = identity; is_number = is_number };
  settings = record {
    reference_at = none;
    half_life_hours = pos 24000;
    channel_bound = pos 1000;
    qualified_read_ms = pos 10000;
    now = aware 0;
  };
  encode_uuid = uuid_of;
  local = λ t. t;
}

abbrev liked : Fields ℤ
liked = field "event_id" (str "e") (
    field "event_type" (str "liked")
      (field "data" (mapping (field "user_id" (str "u") (field "post_id" (str "p") end))) end))

abbrev world : World
world = record {
  users = "u" ∷ [];
  posts = ("p", record { topics = some ("rust" ∷ []); tags = none }) ∷ [];
  behavior = [];
}

abbrev empty_store : Store ℤ
empty_store = record {
  receipts = [];
  users = "u" ∷ [];
  weights = [];
  vectors = [];
  posts = world.posts;
  behavior = [];
  topic_prefs = [];
  refreshes = [];
}

-- The like comes twice, the first time with a commit that is not acknowledged.
abbrev call_with : Fault → Call ℤ
call_with fault = record { world = world; fault = fault; now = 0; user = "u"; events = liked ∷ [] }

Effects-Unique_example :
    (events : List (Fields ℤ)) × Effects thousandths config
      (call_with unacknowledged ∷ call_with healthy ∷ [])
      empty_store
      events
    × Unique (ids config.library events)
    × Apart (ids config.library events) []
Effects-Unique_example =
    Effects-Unique thousandths config (call_with unacknowledged ∷ call_with healthy ∷ [])
      empty_store

abbrev once_applied : ApplyResult ℤ
once_applied = record {
  vector = ("rust", pos 1500) ∷ [];
  vector_v2 = none;
  applied_events = liked ∷ [];
  duplicate_events = liked ∷ [];
  ignored_events = [];
}

apply-twice :
    (apply_for_user thousandths config healthy 0 "u" (liked ∷ liked ∷ []) empty_store).0
    ≡ ok once_applied
unfolding apply_for_user finish transaction apply_features claimed_events refused_events split_batch
    split_one event_id is_claimed claim event_type update_vectors post_ids post_id topics_by_post
    apply_deltas rebuild upsert_vector_v2 decode_vector_v2 canonical_preference_events
    lift_preference resolved_topics is_meaningful apply_topic_delta add_to_topics
apply-twice = refl

apply_for_user-count_example :
    in_result thousandths config (λ env. true) once_applied
    ≡ count (λ env. true) (keep_if (has_id config.library) (liked ∷ liked ∷ []))
apply_for_user-count_example =
    apply_for_user-count thousandths config healthy 0 "u" (liked ∷ liked ∷ []) empty_store
      once_applied apply-twice (λ env. true)

abbrev calm : ℕ → Surroundings
calm n = record { world = world; fault = healthy; now = 0 }

abbrev applier : Applier config.library
applier = worker_applier thousandths config calm

abbrev waiting : Flushing thousandths config.library applier
waiting = record {
  buffer = record {
    batch_size = 2;
    flush_interval = pos 1000;
    held = mapping liked ∷ [];
    last_flush = pos 0;
  };
  state = record { made = 0; store = empty_store };
  tally = [];
  trending = [];
}

abbrev flushed : Flushing thousandths config.library applier
flushed = elim (flush thousandths config.library applier (pos 10000) (pos 0) false waiting) [
  | ok (success, w) ↦ w
  | raised e ↦ waiting
]

flush-waiting :
    flush thousandths config.library applier (pos 10000) (pos 0) false waiting ≡ ok (true, flushed)
unfolding apply_for_user finish transaction apply_features claimed_events refused_events split_batch
    split_one event_id is_claimed claim event_type update_vectors post_ids post_id topics_by_post
    apply_deltas rebuild upsert_vector_v2 decode_vector_v2 canonical_preference_events
    lift_preference resolved_topics is_meaningful apply_topic_delta add_to_topics flush settle
    sort_events sort_envelope sort_mapping sort_valid file_event add_event valid_feature_event
    extract_user identity_field_is_present apply_batches apply_batch record_outcomes update_trending
    score_posts trending_post increment drain touch prepend
flush-waiting = refl

flush-accounts_example :
    (length flushed.tally + length flushed.buffer.held
      ≡ length waiting.tally + length waiting.buffer.held)
    × length waiting.tally ≤ length flushed.tally
    × ((Path Bool true true) ↔ (length flushed.buffer.held ≡ 0))
flush-accounts_example =
    flush-accounts thousandths config.library applier (pos 10000) (pos 0) false waiting true flushed
      flush-waiting

-- A turn of the loop that polls the like, flushes it and commits.
abbrev started : Run thousandths config.library applier (pos 10000)
started = record {
  worker = record waiting { buffer = record waiting.buffer { batch_size = 1; held = [] } };
  polled = 0;
  committed = 0;
}

abbrev one_like : Turn thousandths config.library applier (pos 10000)
one_like = record {
  records = ("partition", some (mapping liked) ∷ []) ∷ [];
  checked_at = pos 0;
  drained_at = pos 0;
  redis_fails = false;
}

abbrev turned : Run thousandths config.library applier (pos 10000)
turned = elim (turn thousandths config.library applier (pos 10000) one_like started) [
  | ok r ↦ r
  | raised e ↦ started
]

turn-started : turn thousandths config.library applier (pos 10000) one_like started ≡ ok turned
unfolding apply_for_user finish transaction apply_features claimed_events refused_events split_batch
    split_one event_id is_claimed claim event_type update_vectors post_ids post_id topics_by_post
    apply_deltas rebuild upsert_vector_v2 decode_vector_v2 canonical_preference_events
    lift_preference resolved_topics is_meaningful apply_topic_delta add_to_topics flush settle
    sort_events sort_envelope sort_mapping sort_valid file_event add_event valid_feature_event
    extract_user identity_field_is_present apply_batches apply_batch record_outcomes update_trending
    score_posts trending_post increment drain touch prepend turn flush_and_commit extend_records
    extend_held extend_partition ready
turn-started = refl

started-IsSound : IsSound thousandths config.library applier (pos 10000) started
started-IsSound = record { accounted = refl; behind = omega arith }

Reaches-IsAccounted_example : IsAccounted thousandths config.library applier (pos 10000) [] turned
Reaches-IsAccounted_example =
    Reaches-IsAccounted thousandths config.library applier (pos 10000) started-IsSound
      (turns one_like turn-started here)

-- The same turn, cancelled while the like's user is applied: the like is lost, and its position committed.
abbrev abandoned : Run thousandths config.library applier (pos 10000)
abandoned = record started { polled = 1; committed = 1 }

abbrev queued_store : Store ℤ
queued_store = record empty_store {
  behavior =
      (
        "u",
        record {
          event_id = "e";
          post_id = "p";
          impression_id = none;
          session_id = none;
          visit_id = none;
          event_type = "like";
          dwell_ms = none;
          read_trigger = none;
          topic_snapshot = some ("t" ∷ []);
          occurred_at = 0;
          topics = none;
          tags = none;
        }
            ∷ [],
      )
      ∷ [];
}

backfill_v2-Ends_example :
    Ends thousandths config queued_store (backfill_v2 thousandths config 1 2 queued_store)
unfolding pending
backfill_v2-Ends_example = backfill_v2-Ends thousandths config 0 2 queued_store (omega arith)
