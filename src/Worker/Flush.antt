-- ===== src/Worker/Flush.antt =====
-- `_flush` of main.py, over any way to apply a user's events. An exception of that call is caught;
-- one that an envelope raises before it is not, and leaves the batch drained.
use oecophylla.Common.{
  ◌+◌, String, ◌≡◌, Bool, true, not, Option, none, some, List, [], ◌∷◌, ◌++◌, map, Outcome, ok,
  raised, ◌>>=◌, if◌then◌else◌, length, is_empty, All,
}
use oecophylla.Common.Int.{ℤ, pos}
use oecophylla.Common.Float.{Arith, zero_f}
use oecophylla.Common.Value.{Value, null, mapping, Fields, get, get_value}
use oecophylla.Common.Dict.{Dict, lookup_or, insert}
use oecophylla.Common.Eq.{string_eq}
use oecophylla.Batch.{Buffer, touch, drain, prepend}
use oecophylla.Preference.{tenths, weights}
use oecophylla.Worker.Envelope.{
  Crash, attribute_error, Library, true_value, event_type, event_id, Sorted, recorded, of_user,
  sort_envelope,
}

-- The lists of an `ApplyResult`.
pub record Applied (F : Type 0) : Type 0 where
  pub applied : List (Fields F)
  pub duplicate : List (Fields F)
  pub ignored : List (Fields F)

abbrev pub HasId : {F : Type 0} → Library F → Fields F → Type 0
HasId library env = (id : String) × (event_id library env ≡ some id)

-- What a flush needs of `_apply_for_user`: the call, `none` for an exception, and that a call which
-- returns has put each event in one of its lists, as far as their number goes.
pub record Applier {F : Type 0} (library : Library F) : Type 1 where
  pub State : Type 0
  pub apply : String → List (Fields F) → State → Option (Applied F) × State
  pub accounts :
      (user : String) (events : List (Fields F)) (s : State) (r : Applied F)
      → All (HasId library) events
      → (apply user events s).0 ≡ some r
      → length r.applied + length r.duplicate + length r.ignored ≡ length events

-- A counter's increment: the outcome and the type of the event.
abbrev pub Tally : Type 0
Tally = List (String × String)

module _ {F : Type 0} (library : Library F) where
  abbrev pub Batches : Type 0
  Batches = Dict String (List (Fields F))

  -- `per_user[user].append(env)`
  unfoldable pub add_event : String → Fields F → Batches → Batches
  add_event user env per_user = insert user (lookup_or user [] per_user ++ env ∷ []) per_user

  unfoldable pub file_event : Fields F → Sorted → Batches × Tally → Batches × Tally
  file_event env (recorded outcome type) (per_user, tally) =
      (per_user, tally ++ (outcome, type) ∷ [])
  file_event env (of_user user) (per_user, tally) = (add_event user env per_user, tally)

  -- The first loop of `_flush`.
  unfoldable pub sort_events :
      ℤ → List (Value F) → Batches × Tally → Outcome Crash (Batches × Tally)
  sort_events qualified_read_ms [] acc = ok acc
  sort_events qualified_read_ms (v ∷ vs) acc =
      sort_envelope library qualified_read_ms v >>= λ (env, sorted).
      sort_events qualified_read_ms vs (file_event env sorted acc)

  unfoldable pub record_outcomes : String → List (Fields F) → Tally → Tally
  record_outcomes outcome [] tally = tally
  record_outcomes outcome (env ∷ envs) tally =
      record_outcomes outcome envs (tally ++ (outcome, event_type library env) ∷ [])

-- The variables of the second loop.
pub record Progress (F : Type 0) (S : Type 0) : Type 0 where
  pub state : S
  pub tally : Tally
  pub failed_events : List (Fields F)
  pub trending_events : List (Fields F)

module _ {F : Type 0} (library : Library F) (applier : Applier library) where
  unfoldable pub apply_batch :
      String → List (Fields F) → Progress F applier.State → Progress F applier.State
  apply_batch user events p =
      let (outcome, state) = applier.apply user events p.state in
      elim outcome [
        | some r ↦
            let one = record_outcomes library "applied" r.applied p.tally in
            let two = record_outcomes library "duplicate" r.duplicate one in
            record p {
              state = state;
              tally = record_outcomes library "ignored" r.ignored two;
              trending_events = p.trending_events ++ r.applied;
            }
        | none ↦ record p { state = state; failed_events = p.failed_events ++ events }
      ]

  unfoldable pub apply_batches :
      Batches library → Progress F applier.State → Progress F applier.State
  apply_batches [] p = p
  apply_batches ((user, events) ∷ per_user) p = apply_batches per_user (apply_batch user events p)

-- `_update_trending`: the scores that are added to `trending:24h`.
module _ (a : Arith) (library : Library a.F) where
  unfoldable pub trending_post : Fields a.F → Outcome Crash (Value a.F)
  trending_post env = elim (get "data" env) [
    | none ↦ ok null
    | some (mapping m) ↦ ok (get_value "post_id" m)
    | some _ ↦ raised attribute_error
  ]

  unfoldable pub score_posts : List (Fields a.F) → Dict String a.F → Outcome Crash (Dict String a.F)
  score_posts [] scores = ok scores
  score_posts (env ∷ envs) scores = trending_post env >>= λ pid.
      let delta = tenths a (lookup_or (event_type library env) (pos 0) weights) in
      let post = library.str_of pid in
      let added = insert post (a.add (lookup_or post (zero_f a) scores) delta) scores in
      score_posts envs (
        if not (true_value library pid)
        then scores
        else (if a.equal delta (zero_f a) then scores else added))

  unfoldable pub increment : Dict String a.F → Dict String a.F → Dict String a.F
  increment [] trending = trending
  increment ((pid, delta) ∷ scores) trending =
      let added = insert pid (a.add (lookup_or pid (zero_f a) trending) delta) trending in
      increment scores (if a.equal delta (zero_f a) then trending else added)

  -- An exception, of an envelope or of Redis, is logged, and the set is left as it was.
  unfoldable pub update_trending : Bool → List (Fields a.F) → Dict String a.F → Dict String a.F
  update_trending redis_fails events trending = elim (score_posts events []) [
    | raised e ↦ trending
    | ok scores ↦ if redis_fails then trending else increment scores trending
  ]

  module _ (applier : Applier library) where
    -- The worker's own state: the buffer, the database and cache, the counter, the trending posts.
    pub record Flushing : Type 0 where
      pub buffer : Buffer a.F (Value a.F)
      pub state : applier.State
      pub tally : Tally
      pub trending : Dict String a.F

    -- The second half of `_flush`, from the batches of the users.
    unfoldable pub settle : a.F → Bool → Flushing → Batches library × Tally → Bool × Flushing
    settle now redis_fails w (per_user, tally) =
        let p : Progress a.F applier.State =
          apply_batches library applier per_user
            (record { state = w.state; tally = tally; failed_events = []; trending_events = [] }) in
        let drained = (drain now w.buffer).1 in
        (
          is_empty p.failed_events,
          record {
            buffer = prepend (map mapping p.failed_events) drained;
            state = p.state;
            tally = p.tally;
            trending = update_trending redis_fails p.trending_events w.trending;
          },
        )

    -- `_flush`, with the clock's reading and whether Redis fails to add to the trending posts.
    unfoldable pub flush : ℤ → a.F → Bool → Flushing → Outcome Crash (Bool × Flushing)
    flush qualified_read_ms now redis_fails w =
        if is_empty w.buffer.held
        then ok (true, record w { buffer = touch now w.buffer })
        else (sort_events library qualified_read_ms w.buffer.held ([], w.tally) >>= λ filed.
            ok (settle now redis_fails w filed))
