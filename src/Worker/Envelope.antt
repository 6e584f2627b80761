-- ===== src/Worker/Envelope.antt =====
-- The envelopes of `main.py`: event types, identities, versions, and how a flush sorts them. An
-- envelope is any JSON value; reading a key of one that is no mapping raises `AttributeError`.
use oecophylla.Common.{
  ℕ, String, Bool, true, false, ◌&&◌, ◌||◌, not, Option, none, some, List, [], ◌∷◌, Outcome, ok,
  raised, ◌>>=◌, if◌then◌else◌, eqb,
}
use text.Mathlib.Text.{◌==◌ as str_eq}
use oecophylla.Common.Int.{ℤ, pos, leb_ℤ}
use oecophylla.Common.Value.{
  Value, null, bool, int, float, str, mapping, Fields, get, get_value, truthy,
}
use oecophylla.Common.Dict.{contains}
use oecophylla.Common.Eq.{string_eq, elem}
use oecophylla.Preference.{weights}

pub data Crash : Type 0 where
  attribute_error : Crash

abbrev pub uuid_keys : List String
uuid_keys = "user_id" ∷ "reporter_id" ∷ "commenter_id" ∷ []

abbrev pub ignored_event_types : List String
ignored_event_types = "visible" ∷ []

-- What the envelopes need of Python: `str`, `UUID` with the canonical text back, and the tests of a
-- float against 0, 1 and 2.
pub record Library (F : Type 0) : Type 0 where
  pub str_of : Value F → String
  pub parse_uuid : String → Option String
  pub is_number : F → ℕ → Bool

module _ {F : Type 0} (library : Library F) where
  open library use {str_of, parse_uuid, is_number}

  abbrev pub true_value : Value F → Bool
  true_value = truthy (λ x. is_number x 0)

  -- `_event_type` of a mapping
  unfoldable pub event_type : Fields F → String
  event_type env =
      let named = get_value "event_type" env in
      let typed = get_value "type" env in
      if true_value named then str_of named else (if true_value typed then str_of typed else "")

  -- `_event_id`
  unfoldable pub event_id : Fields F → Option String
  event_id env = parse_uuid (str_of (get_value "event_id" env))

  first_identity : List String → Fields F → Option String
  first_identity [] m = none
  first_identity (key ∷ keys) m = elim (get key m) [
    | some v ↦ parse_uuid (str_of v)
    | none ↦ first_identity keys m
  ]

  -- `_extract_user`
  unfoldable pub extract_user : Fields F → Option String
  unfolding first_identity
  extract_user env = elim (get_value "data" env) [
    | mapping m ↦ first_identity uuid_keys m
    | _ ↦ none
  ]

  any_identity : List String → Fields F → Bool
  any_identity [] m = false
  any_identity (key ∷ keys) m = elim (get key m) [ some v ↦ true | none ↦ any_identity keys m ]

  -- `_identity_field_is_present`
  unfoldable pub identity_field_is_present : Fields F → Bool
  unfolding any_identity
  identity_field_is_present env = elim (get_value "data" env) [
    | mapping m ↦ any_identity uuid_keys m
    | _ ↦ false
  ]

  -- `version in (None, 1, "1", "v1")`: `True` and `1.0` equal 1.
  unfoldable pub is_version_one : Value F → Bool
  is_version_one null = true
  is_version_one (bool b) = b
  is_version_one (int (pos n)) = eqb n 1
  is_version_one (float x) = is_number x 1
  is_version_one (str s) = str_eq s "1" || str_eq s "v1"
  is_version_one _ = false

  -- `version in (2, "2", "v2")`
  unfoldable pub is_version_two : Value F → Bool
  is_version_two (int (pos n)) = eqb n 2
  is_version_two (float x) = is_number x 2
  is_version_two (str s) = str_eq s "2" || str_eq s "v2"
  is_version_two _ = false

  -- `isinstance(duration, int) and duration >= qualified_read_ms`: a `bool` is an `int`.
  unfoldable pub long_enough : ℤ → Value F → Bool
  long_enough qualified_read_ms (int n) = leb_ℤ qualified_read_ms n
  long_enough qualified_read_ms (bool b) = leb_ℤ qualified_read_ms (if b then pos 1 else pos 0)
  long_enough qualified_read_ms _ = false

  -- `(env.get("data") or {}).get("duration_ms")`
  unfoldable pub duration_ms : Fields F → Outcome Crash (Value F)
  duration_ms env =
      let body = get_value "data" env in
      if true_value body
      then (elim body [ mapping m ↦ ok (get_value "duration_ms" m) | _ ↦ raised attribute_error ])
      else ok null

  -- `_valid_feature_event`
  unfoldable pub valid_feature_event : ℤ → Fields F → Outcome Crash Bool
  valid_feature_event qualified_read_ms env =
      let version = get_value "event_version" env in
      if str_eq (event_type env) "viewed"
      then ok (is_version_one version)
      else (if str_eq (event_type env) "qualified_read"
          then (duration_ms env >>= λ duration.
              ok (is_version_two version && long_enough qualified_read_ms duration))
          else ok true)

-- What a flush does with an envelope before any feature is touched: an outcome is recorded for its
-- type, or it joins its user's batch.
pub data Sorted : Type 0 where
  recorded : (outcome : String) (event_type : String) → Sorted
  of_user : String → Sorted

module _ {F : Type 0} (library : Library F) (qualified_read_ms : ℤ) where
  unfoldable pub sort_valid : Fields F → Sorted
  sort_valid env =
      let type = event_type library env in
      elim (extract_user library env) [
        | none ↦
            recorded (if identity_field_is_present library env then "invalid" else "unknown") type
        | some user ↦ elim (event_id library env) [
          | none ↦ recorded "unknown" type
          | some id ↦ of_user user
        ]
      ]

  -- The ladder at the head of the loop of `_flush`.
  unfoldable pub sort_mapping : Fields F → Outcome Crash Sorted
  sort_mapping env =
      let type = event_type library env in
      if elem type ignored_event_types
      then ok (recorded "ignored" type)
      else (if not (contains type weights)
          then ok (recorded "unknown" (if str_eq type "" then "missing" else type))
          else (valid_feature_event library qualified_read_ms env >>= λ valid.
              if not valid then ok (recorded "invalid" type) else ok (sort_valid env)))

  unfoldable pub sort_envelope : Value F → Outcome Crash (Fields F × Sorted)
  sort_envelope (mapping env) = sort_mapping env >>= λ sorted. ok (env, sorted)
  sort_envelope _ = raised attribute_error
