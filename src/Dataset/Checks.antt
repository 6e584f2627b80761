-- ===== src/Dataset/Checks.antt =====
-- `_deduplicate`, `_validate_request_envelopes`, `_validate_snapshot` and the helpers of the builders.
use oecophylla.Common.Text.{join}
use text.Mathlib.Text.{◌==◌ as str_eq}
use oecophylla.Common.{
  ℕ, String, Bool, true, false, ◌&&◌, ◌||◌, not, Option, none, some, List, [], ◌∷◌, ◌++◌, Outcome,
  ok, raised, ◌>>=◌, if◌then◌else◌, any, eqb, leb, ltb,
}
use oecophylla.Common.Dict.{Dict, lookup, insert}
use oecophylla.Common.Eq.{string_eq}
use oecophylla.Common.Int.{ℤ, leb_ℤ}
use oecophylla.Common.Value.{Value, str, Fields, get, get_value}
use oecophylla.Dataset.Records.{
  Library, Impression, BehaviorEvent, BuildError, conflicting_duplicate, conflicting_request,
}

abbrev pub Built : Type 0 → Type 0
Built A = Outcome BuildError A

module _ {T : Type 0} (id_of : T → String) (same : T → T → Bool) where
  -- The loop of `_deduplicate`, from what is kept so far.
  unfoldable pub deduplicate_from : Dict String T → List T → Built (Dict String T)
  deduplicate_from unique [] = ok unique
  deduplicate_from unique (record_ ∷ records) = elim (lookup (id_of record_) unique) [
    | none ↦ deduplicate_from (insert (id_of record_) record_ unique) records
    | some existing ↦
        if same existing record_
        then deduplicate_from unique records
        else raised (conflicting_duplicate (id_of record_))
  ]

  -- `_deduplicate`
  unfoldable pub deduplicate : List T → Built (Dict String T)
  deduplicate records = deduplicate_from [] records

abbrev pub same_int : ℤ → ℤ → Bool
same_int i j = leb_ℤ i j && leb_ℤ j i

abbrev pub same_option : {A : Type 0} → (A → A → Bool) → Option A → Option A → Bool
same_option same none none = true
same_option same (some a) (some b) = same a b
same_option same _ _ = false

-- `REQUIRED_FEATURES`
abbrev pub required_features : List String
required_features =
    "schema_version" ∷ "topic_relevance" ∷ "freshness" ∷ "safety_score" ∷ "candidate_source"
    ∷ "is_followed_author" ∷ "author_affinity" ∷ "heuristic_score" ∷ "ml_score" ∷ []

abbrev pub version_2_features : List String
version_2_features =
    "candidate_published_at" ∷ "content_language" ∷ "language_detector_version" ∷ "declared_topics"
    ∷ "preference_observed_at" ∷ []

module _ {F : Type 0} (library : Library F) where
  open library use {same_fields, strip}

  -- `==` of the data classes.
  abbrev pub same_impression : Impression F → Impression F → Bool
  same_impression i j =
      str_eq i.id j.id
      && str_eq i.request_id j.request_id
      && str_eq i.user_id j.user_id
      && str_eq i.post_id j.post_id
      && same_int i.position j.position
      && str_eq i.feed_source j.feed_source
      && str_eq i.model_version j.model_version
      && same_fields i.feature_snapshot j.feature_snapshot
      && eqb i.served_at j.served_at

  abbrev pub same_event : BehaviorEvent F → BehaviorEvent F → Bool
  same_event e f =
      str_eq e.id f.id
      && same_option str_eq e.impression_id f.impression_id
      && str_eq e.user_id f.user_id
      && str_eq e.post_id f.post_id
      && str_eq e.event_type f.event_type
      && same_option same_int e.dwell_ms f.dwell_ms
      && eqb e.occurred_at f.occurred_at
      && same_option eqb e.ingested_at f.ingested_at
      && same_option str_eq e.event_version f.event_version
      && same_option same_fields e.metadata f.metadata

  abbrev pub has_key : String → Fields F → Bool
  has_key name m = elim (get name m) [ none ↦ false | some v ↦ true ]

  -- `names.issubset(snapshot)`
  abbrev pub has_keys : List String → Fields F → Bool
  has_keys [] m = true
  has_keys (name ∷ names) m = has_key name m && has_keys names m

  abbrev pub is_text : String → Value F → Bool
  is_text s (str t) = str_eq t s
  is_text s _ = false

  abbrev pub not_blank : Value F → Bool
  not_blank (str s) = not (str_eq (strip s) "")
  not_blank _ = false

  -- `_validate_snapshot`
  unfoldable pub validate_snapshot : Fields F → Bool
  validate_snapshot snapshot =
      let version = get_value "schema_version" snapshot in
      if is_text "rank-features-v2" version && not (has_keys version_2_features snapshot)
      then false
      else ((is_text "rank-features-v1" version || is_text "rank-features-v2" version)
          && has_keys required_features snapshot
          && not_blank (get_value "candidate_source" snapshot))

module _ {F : Type 0} where
  -- `_canonical_request_identity`
  abbrev pub canonical_request_identity : Impression F → String
  canonical_request_identity i = join i.user_id (join ":" i.request_id)

-- The earlier of a time and a later element's, if there is one.
abbrev pub least : Option ℕ → ℕ → ℕ
least none t = t
least (some u) t = if ltb u t then u else t

-- What the loop of `_validate_request_envelopes` holds of a request: its envelope, its positions and posts.
pub record Request : Type 0 where
  pub request_served_at : ℕ
  pub request_feed_source : String
  pub request_model_version : String
  pub positions : List ℤ
  pub posts : List String

module _ {F : Type 0} where
  abbrev envelope_of : Impression F → Request
  envelope_of i = record {
    request_served_at = i.served_at;
    request_feed_source = i.feed_source;
    request_model_version = i.model_version;
    positions = [];
    posts = [];
  }

  abbrev pub same_envelope : Request → Impression F → Bool
  same_envelope r i =
      eqb r.request_served_at i.served_at
      && str_eq r.request_feed_source i.feed_source
      && str_eq r.request_model_version i.model_version

  abbrev pub request_or : Impression F → Option Request → Request
  request_or i none = envelope_of i
  request_or i (some r) = r

  -- `setdefault(identity, envelope)`
  abbrev pub request_for : Dict String Request → Impression F → Request
  request_for seen i = request_or i (lookup (canonical_request_identity i) seen)

  abbrev pub with_candidate : Request → Impression F → Request
  with_candidate r i = record r {
    positions = r.positions ++ i.position ∷ [];
    posts = r.posts ++ i.post_id ∷ [];
  }

  -- The body of the loop.
  unfoldable pub see_request : Dict String Request → Impression F → Built (Dict String Request)
  see_request seen i =
      let r = request_for seen i in
      if not (same_envelope r i)
      then raised conflicting_request
      else (if any (same_int i.position) r.positions || any (str_eq i.post_id) r.posts
          then raised conflicting_request
          else (ok (insert (canonical_request_identity i) (with_candidate r i) seen)))

  unfoldable pub see_requests :
      Dict String Request → List (Impression F) → Built (Dict String Request)
  see_requests seen [] = ok seen
  see_requests seen (i ∷ impressions) =
      see_request seen i >>= λ after. see_requests after impressions

  -- `_validate_request_envelopes`
  unfoldable pub validate_request_envelopes : List (Impression F) → Built (Dict String Request)
  validate_request_envelopes impressions = see_requests [] impressions

  abbrev pub shows : Impression F → BehaviorEvent F → Bool
  shows i e =
      (str_eq e.event_type "visible" || str_eq e.event_type "click")
      && leb i.served_at e.occurred_at

  -- `_verified_exposure_at`
  unfoldable pub verified_exposure_at : Impression F → List (BehaviorEvent F) → Option ℕ
  verified_exposure_at i [] = none
  verified_exposure_at i (e ∷ events) =
      let later = verified_exposure_at i events in
      if shows i e then some (least later e.occurred_at) else later
