-- ===== src/Label.antt =====
-- recommendation_label/__init__.py: the data model, the event mapping and the reading of fields.
-- `Runtime` is the part of Python's library that the module calls; events are mappings or objects
-- with attributes. A semantic set is its membership test.
pub mod Accept
pub mod Judge
pub mod Verdict
pub mod Signals
pub mod Ranked
pub mod Duplicates
pub mod Arrival
mod Tests
use text.Mathlib.Text.{◌==◌ as str_eq}
use oecophylla.Common.{
  ℕ, String, ◌≡◌, Bool, true, false, ◌||◌, Option, none, some, List, [], ◌∷◌, Outcome, ok, raised,
  ◌>>=◌, if◌then◌else◌,
}
use oecophylla.Common.Int.{ℤ}
use oecophylla.Common.Value.{
  Datetime, aware, naive, Value, null, str, stamp, uuid, seq, mapping, Items, nil, item, Fields,
  end, field, get, get_value, put, merge, is_none,
}
use oecophylla.Common.Text.{str_le}

pub data LabelVersion : Type 0 where
  v1 v2 : LabelVersion

pub data Semantic : Type 0 where
  exposure click qualified_read positive strong_positive negative strong_negative : Semantic

abbrev pub default_qualified_read_ms : ℕ
default_qualified_read_ms = 10000

-- `PRECEDENCE`
abbrev pub precedence : List Semantic
precedence =
    strong_negative ∷ strong_positive ∷ positive ∷ qualified_read ∷ click ∷ negative ∷ exposure ∷ []

pub record LabelResult : Type 0 where
  pub semantic : Semantic
  pub training_target : Option ℕ
  pub accepted_events : ℕ
  pub deduplicated_events : ℕ
  pub reversed_event_types : List String
  pub processing_order : List String

-- Every exception that the module raises or lets through.
pub data LabelError : Type 0 where
  unsupported_version : String → LabelError
  qualified_read_not_positive : LabelError
  conflicting_duplicate : String → LabelError
  bad_timestamp : LabelError
  bad_duration : LabelError
  stop_iteration : LabelError

-- What the module calls of Python: `datetime.fromisoformat` behind the `Z` replacement,
-- `isoformat`, `str`, `int` and `json.dumps` with its fixed arguments.
pub record Runtime (F : Type 0) : Type 0 where
  pub from_isoformat : String → Option Datetime
  pub isoformat : Datetime → String
  pub str_of : Value F → String
  pub int_of : Value F → Option ℤ
  pub dumps : Value F → String

pub data Event (F : Type 0) : Type 0 where
  of_mapping : Fields F → Event F
  of_object : Fields F → Event F

abbrev pub Result : Type 0 → Type 0
Result A = Outcome LabelError A

-- The attributes that `_event_mapping` copies from an object, under their new names.
abbrev copied : List (String × String)
copied =
    ("id", "event_id")
    ∷ ("event_id", "event_id")
    ∷ ("event_type", "event_type")
    ∷ ("event_version", "event_version")
    ∷ ("occurred_at", "occurred_at")
    ∷ ("ingested_at", "ingested_at")
    ∷ ("dwell_ms", "dwell_ms")
    ∷ ("continuous_visible_ms", "continuous_visible_ms")
    ∷ ("metadata", "metadata")
    ∷ []

module _ {F : Type 0} where
  abbrev copy_attributes : Fields F → List (String × String) → Fields F → Fields F
  copy_attributes attributes [] values = values
  copy_attributes attributes ((name, key) ∷ names) values =
      copy_attributes attributes names
        (let v = get_value name attributes in if is_none v then values else put key v values)

  -- `_event_mapping`
  unfoldable pub event_mapping : Fields F → Event F → Fields F
  event_mapping defaults (of_mapping m) = merge defaults m
  event_mapping defaults (of_object attributes) = copy_attributes attributes copied defaults

  abbrev metadata_value : String → Value F → Option (Value F)
  metadata_value name (mapping m) = get name m
  metadata_value name _ = none

  -- `_value` on a mapping: the key itself, even if `None`, and else the metadata's.
  unfoldable pub mapping_value : Fields F → String → Value F
  mapping_value m name = elim (get name m) [
    | some v ↦ v
    | none ↦ elim (metadata_value name (get_value "metadata" m)) [ some v ↦ v | none ↦ null ]
  ]

  -- `_value`
  unfoldable pub value_of : Event F → String → Value F
  unfolding mapping_value
  value_of (of_mapping m) name = mapping_value m name
  value_of (of_object attributes) name =
      let v = get_value name attributes in
      if is_none v
      then (elim (metadata_value name (get_value "metadata" attributes)) [
        | some w ↦ w
        | none ↦ null
      ])
      else v

  -- `_canonical_json_value`. `place_field` keeps the fields sorted by key, in the order of `sorted`.
  abbrev place_field : String → Value F → Fields F → Fields F
  place_field k v end = field k v end
  place_field k v (field j w m) =
      if str_le k j then field k v (field j w m) else field j w (place_field k v m)

module _ {F : Type 0} (runtime : Runtime F) where
  open runtime use {from_isoformat, isoformat, str_of, dumps}

  abbrev utc_ticks : Datetime → ℕ
  utc_ticks (aware t) = t
  utc_ticks (naive t) = t

  -- `_timestamp`
  unfoldable pub timestamp : Value F → Result ℕ
  timestamp (stamp d) = ok (utc_ticks d)
  timestamp (str s) = elim (from_isoformat s) [
    | none ↦ raised bad_timestamp
    | some d ↦ ok (utc_ticks d)
  ]
  timestamp _ = ok 0

  unfoldable mutual
    pub canonical_value : Value F → Value F
    canonical_value (mapping m) = mapping (canonical_fields m)
    canonical_value (seq xs) = seq (canonical_items xs)
    canonical_value (stamp d) = str (isoformat d)
    canonical_value (uuid u) = str u
    canonical_value v = v

    pub canonical_items : Items F → Items F
    canonical_items nil = nil
    canonical_items (item v xs) = item (canonical_value v) (canonical_items xs)

    pub canonical_fields : Fields F → Fields F
    canonical_fields end = end
    canonical_fields (field k v m) = place_field k (canonical_value v) (canonical_fields m)

  -- `_canonical_payload`
  unfoldable pub canonical_payload : Fields F → String
  unfolding canonical_value
  canonical_payload m = dumps (canonical_value (mapping m))

  -- `event_label_version`
  unfoldable pub event_label_version : Event F → Result LabelVersion
  unfolding value_of
  event_label_version event =
      let version = value_of event "event_version" in
      let normalized = str_of version in
      if is_none version
      then ok v1
      else (if str_eq normalized "v1"
          then ok v1
          else (if str_eq normalized "v2" then ok v2 else raised (unsupported_version normalized)))
