-- ===== src/Label/Accept.antt =====
-- The first half of `derive_label`: duplicate detection and the chronological order.
use oecophylla.Common.{
  ℕ, ◌+◌, String, Bool, true, false, none, some, List, [], ◌∷◌, ◌++◌, ok, raised, ◌>>=◌,
  if◌then◌else◌, ltb,
}
use text.Mathlib.Text.{◌==◌ as str_eq}
use oecophylla.Common.Value.{Fields, get, get_value, is_none}
use oecophylla.Common.Dict.{Dict, lookup, insert, values}
use oecophylla.Common.Eq.{string_eq}
use oecophylla.Common.Text.{str_le}
use oecophylla.Common.Traverse.{traverse}
use oecophylla.Label.{Runtime, Result, conflicting_duplicate, timestamp, canonical_payload}

-- `unique`, `anonymous` and `duplicates` of the first loop.
pub record Seen (F : Type 0) : Type 0 where
  pub unique : Dict String (Fields F)
  pub anonymous : List (Fields F)
  pub duplicates : ℕ

abbrev pub unseen : {F : Type 0} → Seen F
unseen = record { unique = []; anonymous = []; duplicates = 0 }

-- `(occurred, ingested, id)`, the sort key of an accepted event, beside the event.
pub record Keyed (F : Type 0) : Type 0 where
  pub occurred : ℕ
  pub ingested : ℕ
  pub ident : String
  pub event : Fields F

module _ {F : Type 0} where
  -- `accepted` before it is sorted.
  abbrev pub accepted : Seen F → List (Fields F)
  accepted s = values s.unique ++ s.anonymous

  -- The order of the key tuples.
  unfoldable pub key_le : Keyed F → Keyed F → Bool
  key_le a b =
      if ltb a.occurred b.occurred
      then true
      else (if ltb b.occurred a.occurred
          then false
          else (if ltb a.ingested b.ingested
              then true
              else (if ltb b.ingested a.ingested then false else str_le a.ident b.ident)))

module _ {F : Type 0} (runtime : Runtime F) where
  open runtime use {str_of}

  -- The body of the first loop.
  unfoldable pub see : Seen F → Fields F → Result (Seen F)
  see s event =
      let event_id = get_value "event_id" event in
      let key = str_of event_id in
      if is_none event_id
      then ok (record s { anonymous = s.anonymous ++ event ∷ [] })
      else (elim (lookup key s.unique) [
        | none ↦ ok (record s { unique = insert key event s.unique })
        | some existing ↦
            if str_eq (canonical_payload runtime existing) (canonical_payload runtime event)
            then ok (record s { duplicates = s.duplicates + 1 })
            else raised (conflicting_duplicate key)
      ])

  unfoldable pub see_all : Seen F → List (Fields F) → Result (Seen F)
  see_all s [] = ok s
  see_all s (event ∷ events) = see s event >>= λ s'. see_all s' events

  -- The sort key: a missing id reads as the empty text.
  unfoldable pub keyed : Fields F → Result (Keyed F)
  keyed event = timestamp runtime (get_value "occurred_at" event) >>= λ occurred.
      timestamp runtime (get_value "ingested_at" event) >>= λ ingested.
      let id : String = elim (get "event_id" event) [ some v ↦ str_of v | none ↦ "" ] in
      ok (record { occurred = occurred; ingested = ingested; ident = id; event = event })

  -- The keys of all accepted events, which `sort` computes before it compares any.
  unfoldable pub key_all : List (Fields F) → Result (List (Keyed F))
  key_all = traverse keyed
