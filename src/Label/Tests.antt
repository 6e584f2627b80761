-- ===== src/Label/Tests.antt =====
-- Witnesses: the theorems on labels at two events of one post, a view and a later report.
use oecophylla.Common.{
  ℕ, String, ◌≡◌, ◌≢◌, ◌↔◌, ◌||◌, ◌+◌, refl, true, false, not, ◌&&◌, Option, none, some, List, [],
  ◌∷◌, Memᴰ, Permᴰ, ok, raised, any, length,
}
use text.Mathlib.Text.{◌==◌ as str_eq}
use oecophylla.Common.Int.{ℤ}
use oecophylla.Common.Value.{aware, Value, str, int, stamp, mapping, Fields, end, field, get_value}
use oecophylla.Common.Text.{str_le, str_ne}
use oecophylla.Common.Traverse.{traverse}
use oecophylla.Common.Sort.{sort, place}
use oecophylla.Label.{
  Runtime, Event, of_mapping, LabelResult, stop_iteration, v2, strong_negative, strong_positive,
  event_mapping, timestamp, canonical_payload, canonical_value, mapping_value,
}
use oecophylla.Label.Accept.{Seen, unseen, accepted, Keyed, key_le, see, see_all, keyed, key_all}
use oecophylla.Label.Judge.{
  Options, derive_label, judge, save, share, hide, replay, replay_one, apply_type, apply_other,
  apply_read, add_read, count_read, type_of, duration_of, engaged, candidates, first_in, conclude,
  stateful, reversal,
}
use oecophylla.Label.Signals.{last_active}
use oecophylla.Label.Ranked.{
  timeline, judge-strong_negative_iff, judge-strong_positive_iff, judge_open_window,
}
use oecophylla.Label.Verdict.{derive_label-ne-stop_iteration}
use oecophylla.Label.Duplicates.{IsProcessed, expanded, derive_label-counts, derive_label_agrees}
use oecophylla.Label.Arrival.{derive_label-perm}

abbrev text_of : Value ℕ → String
text_of (str s) = s
text_of _ = ""

abbrev integer_of : Value ℕ → Option ℤ
integer_of (int n) = some n
integer_of _ = none

abbrev event_type_of : Value ℕ → String
event_type_of (mapping m) = text_of (get_value "event_type" m)
event_type_of _ = ""

-- A small library: texts are themselves, and a payload is dumped as its event's type.
abbrev small : Runtime ℕ
small = record {
  from_isoformat = λ s. none;
  isoformat = λ d. "";
  str_of = text_of;
  int_of = integer_of;
  dumps = event_type_of;
}

abbrev event : String → String → ℕ → Fields ℕ
event id type t =
    field "event_id" (str id)
      (field "event_type" (str type) (field "occurred_at" (stamp (aware t)) end))

abbrev view : Event ℕ
view = of_mapping (event "a" "view" 3)

abbrev report : Event ℕ
report = of_mapping (event "b" "report" 5)

abbrev open_window : Options
open_window = record {
  label_version = v2;
  qualified_read_ms = 10000;
  label_window_closed = false;
  v1_any_view_positive = false;
}

derive_label-perm_example :
    derive_label small open_window end (view ∷ report ∷ [])
    ≡ derive_label small open_window end (report ∷ view ∷ [])
unfolding event_mapping
derive_label-perm_example =
    derive_label-perm small open_window end (view ∷ report ∷ []) (report ∷ view ∷ [])
      (Permᴰ.swap refl refl) (refl, (str_ne "b" "b" "a" refl refl, tt), (refl, tt, tt))

derive_label-ne-stop_iteration_example :
    derive_label small open_window end (view ∷ report ∷ []) ≢ raised stop_iteration
derive_label-ne-stop_iteration_example =
    derive_label-ne-stop_iteration small open_window end (view ∷ report ∷ [])

abbrev keyed_view : Keyed ℕ
keyed_view = record { occurred = 3; ingested = 0; ident = "a"; event = event "a" "view" 3 }

abbrev keyed_report : Keyed ℕ
keyed_report = record { occurred = 5; ingested = 0; ident = "b"; event = event "b" "report" 5 }

abbrev keys : List (Keyed ℕ)
keys = keyed_view ∷ keyed_report ∷ []

abbrev label : LabelResult
label = record {
  semantic = strong_negative;
  training_target = some 0;
  accepted_events = 2;
  deduplicated_events = 0;
  reversed_event_types = [];
  processing_order = "a" ∷ "b" ∷ [];
}

judge-label : judge small open_window keys 0 ≡ ok label
unfolding judge replay replay_one apply_type apply_other apply_read add_read count_read type_of
    duration_of engaged candidates first_in conclude stateful reversal key_le sort place
    mapping_value
judge-label = refl

judge-strong_negative_iff_example : (label.semantic ≡ strong_negative) ↔ (
    (any (λ t. str_eq t "report") (timeline small open_window keys 0)
      || last_active hide false (timeline small open_window keys 0))
    ≡ true)
judge-strong_negative_iff_example =
    judge-strong_negative_iff small open_window keys 0 label judge-label

judge-strong_positive_iff_example : (label.semantic ≡ strong_positive) ↔ (
    (not (
        any (λ t. str_eq t "report") (timeline small open_window keys 0)
        || last_active hide false (timeline small open_window keys 0))
      && (last_active save false (timeline small open_window keys 0)
          || last_active share false (timeline small open_window keys 0)))
    ≡ true)
judge-strong_positive_iff_example =
    judge-strong_positive_iff small open_window keys 0 label judge-label

judge_open_window_example :
    (any (λ t. str_eq t "report") (timeline small open_window keys 0)
      || last_active hide false (timeline small open_window keys 0))
    ≡ true
judge_open_window_example = judge_open_window small open_window keys 0 label judge-label refl refl

-- The view delivered again, its keys in another order.
abbrev again : Fields ℕ
again =
    field "occurred_at" (stamp (aware 3))
      (field "event_type" (str "view") (field "event_id" (str "a") end))

abbrev deliveries : List (Event ℕ)
deliveries = view ∷ report ∷ of_mapping again ∷ []

abbrev delivered : LabelResult
delivered = record label { deduplicated_events = 1 }

derive_label-delivered : derive_label small open_window end deliveries ≡ ok delivered
unfolding derive_label judge replay replay_one apply_type apply_other apply_read add_read count_read
    type_of duration_of engaged candidates first_in conclude stateful reversal key_le sort place
    mapping_value see_all see key_all keyed traverse timestamp canonical_payload canonical_value
    event_mapping str_le
derive_label-delivered = refl

derive_label-counts_example :
    (delivered.accepted_events + delivered.deduplicated_events ≡ length deliveries)
    × (s : Seen ℕ) × (see_all small unseen
          (expanded small open_window end deliveries delivered derive_label-delivered)
        ≡ ok s)
    × (delivered.accepted_events ≡ length (accepted s))
    × IsProcessed small open_window end deliveries delivered derive_label-delivered s
derive_label-counts_example =
    derive_label-counts small open_window end deliveries delivered derive_label-delivered

derive_label_agrees_example :
    canonical_payload small (event "a" "view" 3) ≡ canonical_payload small again
unfolding event_mapping
derive_label_agrees_example =
    derive_label_agrees small open_window end deliveries delivered derive_label-delivered
      (event "a" "view" 3) again (Memᴰ.head refl) (Memᴰ.tail (Memᴰ.tail (Memᴰ.head refl))) refl refl
      refl
