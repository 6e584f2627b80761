-- ===== src/Worker/Apply.antt =====
-- `_apply_for_user` of main.py: one transaction, and the refresh of the cache after its commit. The
-- calls of the database and of Redis may fail; the argument of type `Fault` says where.
use text.Mathlib.Text.{◌==◌ as str_eq}
use oecophylla.Common.{
  ℕ, String, Bool, true, false, not, Option, none, some, List, [], ◌∷◌, ◌++◌, Outcome, ok, raised,
  ◌>>=◌, if◌then◌else◌, keep_if, any,
}
use oecophylla.Common.Float.{Arith}
use oecophylla.Common.Value.{Value, null, seq, mapping, Fields, get, get_value}
use oecophylla.Common.Dict.{Dict, lookup, lookup_or, insert}
use oecophylla.Common.Eq.{string_eq, elem}
use oecophylla.Preference.{PreferenceVectorV2, PreferenceError, schema_v2, apply_topic_delta}
use oecophylla.Preference.Replay.{Settings, build_preference_vector_v2}
use oecophylla.Worker.Envelope.{Library, event_type, true_value}
use oecophylla.Worker.Claim.{claim, no_split, split_batch, ids, is_claimed}
use oecophylla.Worker.Store.{
  Post, Store, rows_of, canonical_preference_events, resolved_topics, refresh_recent_topics,
}

-- Where the database or Redis fails: nowhere; before the commit, so that it is rolled back; at the
-- commit, which the database has made but not acknowledged; or in Redis.
pub data Fault : Type 0 where
  healthy rolled_back unacknowledged cache_down : Fault

pub data ApplyError : Type 0 where
  preference : PreferenceError → ApplyError
  not_a_mapping unhashable not_a_uuid unavailable : ApplyError

unfoldable pub lift_preference {ℓ} : {A : Type ℓ} → Outcome PreferenceError A → Outcome ApplyError A
lift_preference (ok x) = ok x
lift_preference (raised e) = raised (preference e)

-- `ApplyResult`
pub record ApplyResult (F : Type 0) : Type 0 where
  pub vector : Dict String F
  pub vector_v2 : Option (PreferenceVectorV2 F)
  pub applied_events : List (Fields F)
  pub duplicate_events : List (Fields F)
  pub ignored_events : List (Fields F)

-- What the worker is configured with: `cfg`, and the libraries it calls.
pub record Config (a : Arith) : Type 0 where
  pub library : Library a.F
  pub settings : Settings a.F
  -- asyncpg's encoding of an argument of type `uuid`
  pub encode_uuid : Value a.F → Option String
  -- The host's timezone.
  pub local : ℕ → ℕ

module _ (a : Arith) (cfg : Config a) where
  open a use {F}
  open cfg use {library, settings, encode_uuid, local}

  -- `env.get("data", {}).get("post_id")`
  unfoldable pub post_id : Fields F → Outcome ApplyError (Value F)
  post_id env = elim (get "data" env) [
    | none ↦ ok null
    | some (mapping m) ↦ ok (get_value "post_id" m)
    | some _ ↦ raised not_a_mapping
  ]

  is_hashable : Value F → Bool
  is_hashable (seq _) = false
  is_hashable (mapping _) = false
  is_hashable _ = true

  -- The set of the post ids that are true, as asyncpg encodes it.
  unfoldable pub post_ids : List (Fields F) → Outcome ApplyError (List String)
  unfolding is_hashable
  post_ids [] = ok []
  post_ids (env ∷ envs) = post_id env >>= λ v. post_ids envs >>= λ later.
      if not (is_hashable v)
      then raised unhashable
      else (if not (true_value library v)
          then ok later
          else (elim (encode_uuid v) [ none ↦ raised not_a_uuid | some id ↦ ok (id ∷ later) ]))

  -- The rows of `posts` with the ids, and the topics that each resolves to.
  unfoldable pub topics_by_post : List String → Dict String Post → Dict String (List String)
  topics_by_post ids [] = []
  topics_by_post ids ((id, post) ∷ posts) =
      let later = topics_by_post ids posts in
      if elem id ids then (id, resolved_topics post) ∷ later else later

  -- The loop of `apply_topic_delta` over the applied events.
  unfoldable pub apply_deltas :
      Dict String (List String)
      → Dict String F
      → List (Fields F)
      → Outcome ApplyError (Dict String F)
  apply_deltas by_post vec [] = ok vec
  apply_deltas by_post vec (env ∷ envs) = post_id env >>= λ v.
      let topics = lookup_or (library.str_of v) [] by_post in
      apply_deltas by_post (apply_topic_delta a vec topics (event_type library env)) envs

  -- What the transaction has read and will return.
  pub record Vectors : Type 0 where
    pub v1 : Dict String F
    pub v2 : Option (PreferenceVectorV2 F)

  -- `_decode_vector_v2` of the row: a vector of another schema is no vector.
  unfoldable pub decode_vector_v2 : Option (PreferenceVectorV2 F) → Option (PreferenceVectorV2 F)
  decode_vector_v2 none = none
  decode_vector_v2 (some v) = if str_eq v.schema_version schema_v2 then some v else none

  -- The rebuild of the second vector from the user's canonical rows, if there are any.
  unfoldable pub rebuild :
      String
      → Option (PreferenceVectorV2 F)
      → Store F
      → Outcome ApplyError (Option (PreferenceVectorV2 F))
  rebuild user vector_v2 s = elim (canonical_preference_events (rows_of user s)) [
    | [] ↦ ok vector_v2
    | e ∷ es ↦ lift_preference (build_preference_vector_v2 a settings (e ∷ es)) >>= λ v. ok (some v)
  ]

  -- `_upsert_vector_v2`
  unfoldable pub upsert_vector_v2 : String → Option (PreferenceVectorV2 F) → Store F → Store F
  upsert_vector_v2 user none s = s
  upsert_vector_v2 user (some v) s = record s { vectors = insert user v s.vectors }

  -- The branch taken if an applied event is more than an observation.
  unfoldable pub update_vectors :
      String → List (Fields F) → Vectors → Store F → Outcome ApplyError (Vectors × Store F)
  update_vectors user applied vs s = post_ids applied >>= λ ids.
      apply_deltas (topics_by_post ids s.posts) vs.v1 applied >>= λ vec.
      rebuild user vs.v2 s >>= λ vector_v2.
      let s' = record s { weights = insert user vec s.weights } in
      ok (record { v1 = vec; v2 = vector_v2 }, upsert_vector_v2 user vector_v2 s')

  abbrev pub view_types : List String
  view_types = "viewed" ∷ "view_observed" ∷ "qualified_read" ∷ "dwell" ∷ []

  -- The two conditional parts of the transaction.
  unfoldable pub apply_features :
      ℕ → String → List (Fields F) → Vectors → Store F → Outcome ApplyError (Vectors × Store F)
  apply_features now user applied vs s =
      (if any (λ env. not (str_eq (event_type library env) "view_observed")) applied
        then update_vectors user applied vs s
        else ok (vs, s))
      >>= λ (vs', s').
          (if any (λ env. elem (event_type library env) view_types) applied
            then lift_preference (refresh_recent_topics a local user now s')
            else ok s')
          >>= λ s''. ok (vs', s'')

  -- The events whose receipts were claimed, and the others of the batch.
  unfoldable pub claimed_events : List String → List (Fields F) → List (Fields F)
  claimed_events claimed envs = keep_if (is_claimed library claimed) envs

  unfoldable pub refused_events : List String → List (Fields F) → List (Fields F)
  refused_events claimed envs = keep_if (λ env. not (is_claimed library claimed env)) envs

  -- The two vectors as the transaction reads them.
  abbrev pub stored_vectors : String → Store F → Vectors
  stored_vectors user s = record {
    v1 = lookup_or user [] s.weights;
    v2 = decode_vector_v2 (lookup user s.vectors);
  }

  -- The body of the transaction.
  unfoldable pub transaction :
      ℕ → String → List (Fields F) → Store F → Outcome ApplyError (ApplyResult F × Store F)
  transaction now user events s =
      let batch = split_batch library no_split events in
      let (receipts, claimed) = claim s.receipts (ids library batch.unique) in
      let new = claimed_events claimed batch.unique in
      let user_exists = elem user s.users in
      let applied = if user_exists then new else [] in
      let vs = stored_vectors user s in
      apply_features now user applied vs (record s { receipts = receipts }) >>= λ (vs', s'). ok (
        record {
          vector = vs'.v1;
          vector_v2 = vs'.v2;
          applied_events = applied;
          duplicate_events = batch.duplicate ++ refused_events claimed batch.unique;
          ignored_events = if user_exists then [] else new;
        },
        s',
      )

  -- What follows the transaction's body. The cache is refreshed for a user who exists, so that Redis
  -- fails for no other.
  unfoldable pub finish :
      Fault
      → Bool
      → Store F
      → Outcome ApplyError (ApplyResult F × Store F)
      → Outcome ApplyError (ApplyResult F) × Store F
  finish fault user_exists s (raised e) = (raised e, s)
  finish healthy user_exists s (ok (result, s')) = (ok result, s')
  finish rolled_back user_exists s (ok (result, s')) = (raised unavailable, s)
  finish unacknowledged user_exists s (ok (result, s')) = (raised unavailable, s')
  finish cache_down user_exists s (ok (result, s')) =
      if user_exists then (raised unavailable, s') else (ok result, s')

  -- `_apply_for_user`: what it returns or raises, and the database after it.
  unfoldable pub apply_for_user :
      Fault → ℕ → String → List (Fields F) → Store F → Outcome ApplyError (ApplyResult F) × Store F
  apply_for_user fault now user events s =
      finish fault (elem user s.users) s (transaction now user events s)
