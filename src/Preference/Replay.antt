-- ===== src/Preference/Replay.antt =====
-- `build_preference_vector_v2`: the order and the duplicates, the replay, and the two channels. The
-- direct-read visits, which the source mutates through an alias, are written back to their dict.
use text.Mathlib.Text.{◌==◌ as str_eq}
use oecophylla.Common.{
  ℕ, ◌-◌, String, Bool, true, false, ◌&&◌, ◌||◌, not, Option, none, some, List, [], ◌∷◌, ◌++◌,
  Outcome, ok, raised, ◌>>=◌, if◌then◌else◌, length, keep_if, ltb,
}
use oecophylla.Common.Int.{ℤ, pos, leb_ℤ, ltb_ℤ}
use oecophylla.Common.Float.{Arith, whole, zero_f, min_f, abs_f}
use oecophylla.Common.Value.{Datetime, aware, naive}
use oecophylla.Common.Dict.{Dict, lookup, lookup_or, insert, erase}
use oecophylla.Common.Eq.{string_eq, pair_eq, option_eq, elem}
use oecophylla.Common.Sort.{sort}
use oecophylla.Common.Keys.{by, text_key, number_key, texts_le}
use oecophylla.Common.Traverse.{traverse}
use oecophylla.Preference.{
  PreferenceEvent, PreferenceVectorV2, PreferenceError, parameters_not_positive, mixed_timestamps,
  schema_v2, canonical_weights, reversals, stateful_events, aware_utc, or_general, tenths, Channel,
  add_to_topics, rounded_channel, decay_factor,
}

-- An event with its instant in UTC.
pub record Timed : Type 0 where
  pub at : ℕ
  pub event : PreferenceEvent

unfoldable pub timed : PreferenceEvent → Outcome PreferenceError Timed
timed e = aware_utc e.occurred_at >>= λ t. ok (record { at = t; event = e })

-- The order of the key tuples `(instant, event_id, post_id, event_type, topics)`.
abbrev pub by_post_id : Timed → Timed → Bool
by_post_id =
    by text_key (λ x. x.event.post_id)
      (by text_key (λ x. x.event.event_type) (λ x y. texts_le x.event.topics y.event.topics))

abbrev pub by_event_id : Timed → Timed → Bool
by_event_id = by text_key (λ x. x.event.event_id) by_post_id

unfoldable pub event_le : Timed → Timed → Bool
event_le = by number_key (λ x. x.at) by_event_id

-- The loop that fills `unique`: the first event of an id, none after the reference.
unfoldable pub unique_events : ℕ → List String → List Timed → List Timed
unique_events reference seen [] = []
unique_events reference seen (x ∷ xs) =
    let skip = unique_events reference seen xs in
    let keep = x ∷ unique_events reference (x.event.event_id ∷ seen) xs in
    if elem x.event.event_id seen || ltb reference x.at then skip else keep

-- `_DirectReadVisit`
pub record Visit : Type 0 where
  pub last_event_at : ℕ
  pub qualified_counted : Bool
  pub view_seen : Bool
  pub max_dwell_ms : ℤ

abbrev pub PostKey : Type 0
PostKey = String × String

-- The variables of the replay loop.
pub record Replay : Type 0 where
  pub active : Dict PostKey Timed
  pub additive : List (Timed × String)
  pub seen_impression_reads : List String
  pub seen_visit_reads : List (Option String × (String × String))
  pub direct_read_visits : Dict PostKey Visit

abbrev pub start : Replay
start = record {
  active = [];
  additive = [];
  seen_impression_reads = [];
  seen_visit_reads = [];
  direct_read_visits = [];
}

abbrev pub count_read : Timed → Replay → Replay
count_read x r = record r { additive = r.additive ++ (x, "qualified_read") ∷ [] }

-- `event.dwell_ms is not None and event.dwell_ms >= qualified_read_ms`
unfoldable pub is_qualified : ℤ → PreferenceEvent → Bool
is_qualified qualified_read_ms e = elim e.dwell_ms [
  | none ↦ false
  | some ms ↦ leb_ℤ qualified_read_ms ms
]

-- A read with an impression counts once for the impression.
unfoldable pub read_impression : Bool → String → Timed → Replay → Replay
read_impression qualified impression x r =
    if qualified && not (elem impression r.seen_impression_reads)
    then record (count_read x r) { seen_impression_reads = impression ∷ r.seen_impression_reads }
    else r

-- A read with a visit counts once for its session, post and visit.
unfoldable pub read_visit : Bool → String → Timed → Replay → Replay
read_visit qualified visit x r =
    let key : Option String × (String × String) = (x.event.session_id, (x.event.post_id, visit)) in
    if qualified && not (elem key r.seen_visit_reads)
    then record (count_read x r) { seen_visit_reads = key ∷ r.seen_visit_reads }
    else r

-- `DIRECT_READ_VISIT_GAP`, in microseconds
abbrev pub visit_gap : ℕ
visit_gap = 3600000000

-- Whether an event of a direct visit opens a new one.
unfoldable pub opens_visit : Timed → Option Visit → Bool
opens_visit x none = true
opens_visit x (some v) =
    let e = x.event in
    ltb visit_gap (x.at - v.last_event_at)
    || str_eq e.event_type "view" && v.view_seen
    || str_eq e.event_type "dwell"
      && (elim e.dwell_ms [ none ↦ false | some ms ↦ ltb_ℤ ms v.max_dwell_ms ])

abbrev pub fresh_visit : ℕ → Visit
fresh_visit t = record {
  last_event_at = t;
  qualified_counted = false;
  view_seen = false;
  max_dwell_ms = pos 0;
}

abbrev pub or_fresh : ℕ → Option Visit → Visit
or_fresh t none = fresh_visit t
or_fresh t (some v) = v

-- The visit after the event, but for the count.
unfoldable pub update_visit : Timed → Visit → Visit
update_visit x v =
    let e = x.event in
    record v {
      last_event_at = x.at;
      view_seen = if str_eq e.event_type "view" then true else v.view_seen;
      max_dwell_ms = elim e.dwell_ms [
        | none ↦ v.max_dwell_ms
        | some ms ↦ if ltb_ℤ v.max_dwell_ms ms then ms else v.max_dwell_ms
      ];
    }

-- A read with a session alone counts once for a visit that the events delimit.
unfoldable pub read_session : Bool → String → Timed → Replay → Replay
read_session qualified session x r =
    let key : PostKey = (session, x.event.post_id) in
    let found = lookup key r.direct_read_visits in
    let opened = if opens_visit x found then fresh_visit x.at else or_fresh x.at found in
    let v = update_visit x opened in
    let counts = qualified && not v.qualified_counted in
    let v' = if counts then record v { qualified_counted = true } else v in
    let r' = if counts then count_read x r else r in
    let visits = insert key v' r.direct_read_visits in
    let ended : Bool = elim x.event.read_trigger [ none ↦ false | some t ↦ str_eq t "destroy" ] in
    record r' { direct_read_visits = if ended then erase key visits else visits }

unfoldable pub replay_read : ℤ → Timed → Replay → Replay
replay_read qualified_read_ms x r =
    let e = x.event in
    let qualified = is_qualified qualified_read_ms e in
    elim e.impression_id [
      | some impression ↦ read_impression qualified impression x r
      | none ↦ elim e.visit_id [
        | some visit ↦ read_visit qualified visit x r
        | none ↦ elim e.session_id [
          | some session ↦ read_session qualified session x r
          | none ↦ if qualified then count_read x r else r
        ]
      ]
    ]

unfoldable pub replay_other : Timed → Replay → Replay
replay_other x r =
    let type = x.event.event_type in
    let post = x.event.post_id in
    if elem type stateful_events
    then record r { active = insert (post, type) x r.active }
    else (elim (lookup type reversals) [
      | some reversed ↦ record r { active = erase (post, reversed) r.active }
      | none ↦ elim (lookup type canonical_weights) [
        | some w ↦ record r { additive = r.additive ++ (x, type) ∷ [] }
        | none ↦ r
      ]
    ])

-- The body of the replay loop.
unfoldable pub replay_one : ℤ → Timed → Replay → Replay
replay_one qualified_read_ms x r =
    let type = x.event.event_type in
    if str_eq type "view" || str_eq type "dwell"
    then replay_read qualified_read_ms x r
    else replay_other x r

unfoldable pub replay : ℤ → Replay → List Timed → Replay
replay qualified_read_ms r [] = r
replay qualified_read_ms r (x ∷ xs) = replay qualified_read_ms (replay_one qualified_read_ms x r) xs

abbrev pub active_items : Dict PostKey Timed → List (Timed × String)
active_items [] = []
active_items ((k, x) ∷ d) = (x, k.1) ∷ active_items d

abbrev pub contributions : Replay → List (Timed × String)
contributions r = r.additive ++ active_items r.active

-- `max` over datetimes: comparing one that has a timezone with one that has none raises.
abbrev later : Datetime → Datetime → Outcome PreferenceError Datetime
later (aware s) (aware t) = ok (aware (if ltb s t then t else s))
later (naive s) (naive t) = ok (naive (if ltb s t then t else s))
later (aware s) (naive t) = raised mixed_timestamps
later (naive s) (aware t) = raised mixed_timestamps

unfoldable pub latest_from : Datetime → List PreferenceEvent → Outcome PreferenceError Datetime
latest_from d [] = ok d
latest_from d (e ∷ es) = later d e.occurred_at >>= λ d'. latest_from d' es

-- The reference clock: the argument, or the latest event, or the wall clock without events.
unfoldable pub reference :
    Option Datetime → Datetime → List PreferenceEvent → Outcome PreferenceError Datetime
reference (some d) now es = ok d
reference none now [] = ok now
reference none now (e ∷ es) = latest_from e.occurred_at es

-- The keyword arguments of `build_preference_vector_v2`, and the wall clock.
pub record Settings (F : Type 0) : Type 0 where
  pub reference_at : Option Datetime
  pub half_life_hours : F
  pub channel_bound : F
  pub qualified_read_ms : ℤ
  pub now : Datetime

module _ (a : Arith) where
  open a use {F, add, mul, div, lt, le}

  -- `positive` and `negative`
  pub record Channels : Type 0 where
    pub positive : Channel a
    pub negative : Channel a

  unfoldable pub add_bounded : F → F → List String → Channel a → Channel a
  unfolding add_to_topics
  add_bounded bound share ts channel = add_to_topics a (λ v. min_f a bound (add v share)) ts channel

  -- The body of the last loop.
  unfoldable pub contribute : Settings F → ℕ → Timed × String → Channels → Channels
  contribute s reference_at (x, type) c =
      let weight = tenths a (lookup_or type (pos 0) canonical_weights) in
      let decayed = mul weight (decay_factor a s.half_life_hours reference_at x.at) in
      let ts = or_general (keep_if (λ t. not (str_eq t "")) x.event.topics) in
      let share = div (abs_f a decayed) (whole a (length ts)) in
      if lt (zero_f a) decayed
      then record c { positive = add_bounded s.channel_bound share ts c.positive }
      else record c { negative = add_bounded s.channel_bound share ts c.negative }

  unfoldable pub contribute_all : Settings F → ℕ → List (Timed × String) → Channels → Channels
  contribute_all s reference_at [] c = c
  contribute_all s reference_at (x ∷ xs) c =
      contribute_all s reference_at xs (contribute s reference_at x c)

  abbrev pub empty_channels : Channels
  empty_channels = record { positive = []; negative = [] }

  -- The vector of the timed events at the reference clock.
  unfoldable pub vector_at : Settings F → ℕ → List Timed → PreferenceVectorV2 F
  vector_at s reference_at events =
      let unique = unique_events reference_at [] (sort event_le events) in
      let counted = contributions (replay s.qualified_read_ms start unique) in
      let c = contribute_all s reference_at counted empty_channels in
      record {
        positive = rounded_channel a false c.positive;
        negative = rounded_channel a false c.negative;
        reference_at = reference_at;
        source_event_count = length counted;
        schema_version = schema_v2;
      }

  unfoldable pub build_preference_vector_v2 :
      Settings F → List PreferenceEvent → Outcome PreferenceError (PreferenceVectorV2 F)
  build_preference_vector_v2 s events =
      if le s.half_life_hours (zero_f a) || le s.channel_bound (zero_f a)
      then raised parameters_not_positive
      else (reference s.reference_at s.now events >>= λ d. aware_utc d >>= λ reference_at.
          traverse timed events >>= λ ts. ok (vector_at s reference_at ts))
