-- ===== src/Label/Judge.antt =====
-- The second half of `derive_label`: replaying the accepted events, and the verdict.
use oecophylla.Common.{
  ℕ, String, Bool, true, false, ◌&&◌, ◌||◌, not, Option, none, some, List, [], ◌∷◌, ◌++◌, map, ok,
  raised, ◌>>=◌, if◌then◌else◌, eqb, length,
}
use text.Mathlib.Text.{◌==◌ as str_eq}
use oecophylla.Common.Int.{ℤ, pos, leb_ℤ}
use oecophylla.Common.Value.{Value, Fields, get, is_none}
use oecophylla.Common.Eq.{string_eq, elem}
use oecophylla.Common.Sort.{sort}
use oecophylla.Label.{
  Runtime, Result, qualified_read_not_positive, bad_duration, stop_iteration, LabelVersion, v1, v2,
  Semantic, exposure, click, qualified_read, positive, strong_positive, negative, strong_negative,
  precedence, LabelResult, Event, event_mapping, mapping_value,
}
use oecophylla.Label.Accept.{unseen, see_all, accepted, Keyed, key_le, key_all}

-- The keys of `active`.
pub data Stateful : Type 0 where
  like save share hide : Stateful

-- `event_type in active`
unfoldable pub stateful : String → Option Stateful
stateful t =
    if str_eq t "like"
    then some like
    else (if str_eq t "save"
        then some save
        else (if str_eq t "share"
            then some share
            else (if str_eq t "hide" then some hide else none)))

-- `REVERSALS`
unfoldable pub reversal : String → Option Stateful
reversal t =
    if str_eq t "unlike"
    then some like
    else (if str_eq t "unsave"
        then some save
        else (if str_eq t "unshare"
            then some share
            else (if str_eq t "unhide" then some hide else none)))

abbrev pub name : Stateful → String
name like = "like"
name save = "save"
name share = "share"
name hide = "hide"

-- A set of semantics, by its members.
pub record Semantics : Type 0 where
  pub exposure : Bool
  pub click : Bool
  pub qualified_read : Bool
  pub positive : Bool
  pub strong_positive : Bool
  pub negative : Bool
  pub strong_negative : Bool

abbrev pub no_semantics : Semantics
no_semantics = record {
  exposure = false;
  click = false;
  qualified_read = false;
  positive = false;
  strong_positive = false;
  negative = false;
  strong_negative = false;
}

-- `s in set`
abbrev pub has : Semantics → Semantic → Bool
has s exposure = s.exposure
has s click = s.click
has s qualified_read = s.qualified_read
has s positive = s.positive
has s strong_positive = s.strong_positive
has s negative = s.negative
has s strong_negative = s.strong_negative

-- `set.add(s)`
abbrev pub add : Semantic → Semantics → Semantics
add exposure s = record s { exposure = true }
add click s = record s { click = true }
add qualified_read s = record s { qualified_read = true }
add positive s = record s { positive = true }
add strong_positive s = record s { strong_positive = true }
add negative s = record s { negative = true }
add strong_negative s = record s { strong_negative = true }

-- `active`, by its four keys.
pub record Active : Type 0 where
  pub like : Bool
  pub save : Bool
  pub share : Bool
  pub hide : Bool

abbrev pub is_active : Stateful → Active → Bool
is_active like a = a.like
is_active save a = a.save
is_active share a = a.share
is_active hide a = a.hide

-- `active[k] = b`
abbrev pub set_active : Stateful → Bool → Active → Active
set_active like b a = record a { like = b }
set_active save b a = record a { save = b }
set_active share b a = record a { share = b }
set_active hide b a = record a { hide = b }

pub record Replay : Type 0 where
  pub active : Active
  pub irreversible : Semantics
  pub visible : Bool
  pub reversed_types : List String

abbrev pub start : Replay
start = record {
  active = record { like = false; save = false; share = false; hide = false };
  irreversible = no_semantics;
  visible = false;
  reversed_types = [];
}

-- The `if`/`elif` ladder on the event's type, from `visible` on.
unfoldable pub apply_other : String → Replay → Replay
apply_other t r =
    if str_eq t "visible"
    then record r { visible = true }
    else (if str_eq t "click"
        then record r { irreversible = add click r.irreversible }
        else (if str_eq t "comment"
            then record r { irreversible = add positive r.irreversible }
            else (if str_eq t "report"
                then record r { irreversible = add strong_negative r.irreversible }
                else r)))

abbrev pub reverse_action : Stateful → Replay → Replay
reverse_action k r = record r {
  active = set_active k false r.active;
  reversed_types =
      if elem (name k) r.reversed_types then r.reversed_types else r.reversed_types ++ name k ∷ [];
}

-- The whole ladder: the four actions, their reversals, and the rest.
unfoldable pub apply_type : String → Replay → Replay
apply_type t r = elim (stateful t) [
  | some k ↦ record r { active = set_active k true r.active }
  | none ↦ elim (reversal t) [ some k ↦ reverse_action k r | none ↦ apply_other t r ]
]

abbrev pub is_v1 : LabelVersion → Bool
is_v1 v1 = true
is_v1 v2 = false

-- The arguments of `derive_label` beside the events and the defaults.
pub record Options : Type 0 where
  pub label_version : LabelVersion
  pub qualified_read_ms : ℕ
  pub label_window_closed : Bool
  pub v1_any_view_positive : Bool

unfoldable pub add_read : LabelVersion → Replay → Replay
add_read version r = record r {
  irreversible = add (if is_v1 version then positive else qualified_read) r.irreversible;
}

-- `int(duration) >= qualified_read_ms`; `none` is a value that `int` refuses.
unfoldable pub count_read : Options → Option ℤ → Replay → Result Replay
count_read o none r = raised bad_duration
count_read o (some n) r =
    if leb_ℤ (pos o.qualified_read_ms) n then ok (add_read o.label_version r) else ok r

module _ {F : Type 0} (runtime : Runtime F) (o : Options) where
  open runtime use {str_of, int_of}
  open o use {label_version, v1_any_view_positive}

  -- `str(event.get("event_type", ""))`
  unfoldable pub type_of : Fields F → String
  type_of event = elim (get "event_type" event) [ some v ↦ str_of v | none ↦ "" ]

  -- `duration` of an event: the continuous visibility, or else the dwell time.
  unfoldable pub duration_of : Fields F → Value F
  duration_of event =
      let visible_ms = mapping_value event "continuous_visible_ms" in
      if is_none visible_ms then mapping_value event "dwell_ms" else visible_ms

  abbrev pub any_view : String → Replay → Replay
  any_view t r =
      if is_v1 label_version && v1_any_view_positive && str_eq t "view"
      then record r { irreversible = add positive r.irreversible }
      else r

  -- A long enough view or dwell; `int` is called for those two types only.
  unfoldable pub apply_read : String → Value F → Replay → Result Replay
  apply_read t duration r =
      if (str_eq t "view" || str_eq t "dwell") && not (is_none duration)
      then count_read o (int_of duration) r
      else ok r

  -- The body of the second loop.
  unfoldable pub replay_one : Replay → Fields F → Result Replay
  replay_one r event =
      let t = type_of event in apply_read t (duration_of event) (any_view t (apply_type t r))

  unfoldable pub replay : Replay → List (Keyed F) → Result Replay
  replay r [] = ok r
  replay r (k ∷ ks) = replay_one r k.event >>= λ r'. replay r' ks

-- `candidates` before the window is looked at.
unfoldable pub engaged : LabelVersion → Replay → Semantics
engaged version r =
    let s = r.irreversible in
    let s = if r.active.hide then add strong_negative s else s in
    let s = if r.active.save || r.active.share then add strong_positive s else s in
    let s = if r.active.like then add positive s else s in
    if is_v1 version && s.click then add positive (record s { click = false }) else s

-- `if candidates`
abbrev pub nonempty : Semantics → Bool
nonempty s =
    s.exposure || s.click || s.qualified_read || s.positive || s.strong_positive || s.negative
    || s.strong_negative

unfoldable pub candidates : Options → Replay → Semantics
unfolding engaged
candidates o r =
    let s = engaged o.label_version r in
    let absent = if o.label_window_closed then negative else exposure in
    if r.visible then add absent s else (if not (nonempty s) then add absent s else s)

-- `next(item for item in PRECEDENCE if item in candidates)`
unfoldable pub first_in : List Semantic → Semantics → Option Semantic
first_in [] s = none
first_in (x ∷ xs) s = if has s x then some x else first_in xs s

abbrev pub target : Semantic → Option ℕ
target exposure = none
target click = some 1
target qualified_read = some 1
target positive = some 1
target strong_positive = some 1
target negative = some 0
target strong_negative = some 0

-- The verdict on the replayed events, which stand in their order.
unfoldable pub conclude : {F : Type 0} → Options → List (Keyed F) → ℕ → Replay → Result LabelResult
conclude o sorted duplicates r = elim (first_in precedence (candidates o r)) [
  | none ↦ raised stop_iteration
  | some s ↦ ok (record {
    semantic = s;
    training_target = target s;
    accepted_events = length sorted;
    deduplicated_events = duplicates;
    reversed_event_types = r.reversed_types;
    processing_order = map (λ k. k.ident) sorted;
  })
]

module _ {F : Type 0} (runtime : Runtime F) (o : Options) where
  -- From `accepted.sort` on.
  unfoldable pub judge : List (Keyed F) → ℕ → Result LabelResult
  judge ks duplicates =
      let sorted = sort key_le ks in replay runtime o start sorted >>= conclude o sorted duplicates

  unfoldable pub derive_label : Fields F → List (Event F) → Result LabelResult
  derive_label defaults events =
      if eqb o.qualified_read_ms 0
      then raised qualified_read_not_positive
      else (see_all runtime unseen (map (event_mapping defaults) events) >>= λ s.
          key_all runtime (accepted s) >>= λ ks. judge ks s.duplicates)
