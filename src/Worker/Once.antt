-- ===== src/Worker/Once.antt =====
-- `_apply_for_user`, called again and again: which events each call applies the features of, whatever
-- fails and whatever the other services write in between.
use oecophylla.Common.{
  ℕ, String, ◌≡◌, refl, ◌∙◌, Outcome, Bool, true, false, List, [], ◌∷◌, ◌++◌, ok, raised, arith,
  if◌then◌else◌,
}
use oecophylla.Common.Float.{Arith}
use oecophylla.Common.Value.{Fields}
use oecophylla.Common.Dict.{Dict}
use oecophylla.Common.Eq.{string_eq, elem}
use oecophylla.Common.Unique.{Unique, Unique-append, Apart, Apart-intro, elem-append}
use oecophylla.Worker.Claim.{no_split, ids}
use oecophylla.Worker.Receipts.{
  ids-append, elem-claim_receipts, elem-claimed, elem-ids_claimed, Unique-ids_claimed,
  no_split-IsSplit, split_batch-IsSplit,
}
use oecophylla.Worker.Store.{Row, Post, Store}
use oecophylla.Worker.Apply.{
  Fault, healthy, rolled_back, unacknowledged, cache_down, ApplyError, unavailable, ApplyResult,
  Config, transaction, finish, apply_for_user, claimed_events, apply_features, stored_vectors,
}
use oecophylla.Worker.Effects.{
  IsCommit, transaction-IsCommit, new_events, Applies, transaction-Applies,
}

-- What the other services have written when a call begins.
pub record World : Type 0 where
  pub users : List String
  pub posts : Dict String Post
  pub behavior : Dict String (List Row)

pub record Call (F : Type 0) : Type 0 where
  pub world : World
  pub fault : Fault
  pub now : ℕ
  pub user : String
  pub events : List (Fields F)

module _ {F : Type 0} where
  abbrev pub enter : World → Store F → Store F
  enter w s = record s { users = w.users; posts = w.posts; behavior = w.behavior }

  -- A call that returns reports these events as applied; one that raises reports none.
  abbrev pub Reports : List (Fields F) → Outcome ApplyError (ApplyResult F) → Type 0
  Reports events (ok r) = r.applied_events ≡ events
  Reports events (raised e) = Unit

module _ (a : Arith) (cfg : Config a) where
  abbrev pub call : Call a.F → Store a.F → Outcome ApplyError (ApplyResult a.F) × Store a.F
  call c s = apply_for_user a cfg c.fault c.now c.user c.events (enter c.world s)

  -- A call has left the database that comes of applying the features of exactly these events, and, if it
  -- returns, has reported them.
  pub record IsEffect (c : Call a.F) (s : Store a.F) (events : List (Fields a.F)) : Type 0 where
    pub applies : Applies a cfg c.now c.user events (enter c.world s) (call c s).1
    pub reports : Reports events (call c s).0

  -- The events that calls, one after the other, have applied the features of.
  pub Effects : List (Call a.F) → Store a.F → List (Fields a.F) → Type 0
  Effects [] s events = events ≡ []
  Effects (c ∷ cs) s events =
      (now : List (Fields a.F)) × (later : List (Fields a.F)) × (events ≡ now ++ later)
      × IsEffect c s now
      × Effects cs (call c s).1 later

  -- What a call does to the receipts: it removes none, and those of the events it applies were not
  -- there and are there.
  record IsStep (before : List String) (events : List (Fields a.F)) (after : List String)
      : Type 0 where
    keeps : (x : String) → elem x before ≡ true → elem x after ≡ true
    once : Unique (ids cfg.library events)
    fresh : (x : String) → elem x (ids cfg.library events) ≡ true → elem x before ≡ false
    stored : (x : String) → elem x (ids cfg.library events) ≡ true → elem x after ≡ true

  still : (before : List String) → IsStep before [] before
  still before = record { keeps = λ x h. h; once = tt; fresh = λ x h. cc; stored = λ x h. cc }

  module _ (user : String) (events : List (Fields a.F)) (s : Store a.F) (r : ApplyResult a.F)
      (s' : Store a.F) (c : IsCommit a cfg user events s r s') where
    new-IsStep : IsStep s.receipts (new_events a cfg events s) s'.receipts
    unfolding claimed_events
    new-IsStep = record {
      keeps = λ x h. rw c.receipts (elem-claim_receipts x s.receipts _ ∙ ground (arith, h));
      once =
          Unique-ids_claimed cfg.library _ _
            (split_batch-IsSplit cfg.library events no_split (no_split-IsSplit cfg.library)).once;
      fresh = λ x h. elem-claimed x s.receipts _ (elem-ids_claimed cfg.library x _ _ h).0;
      stored = λ x h. rw c.receipts (
          elem-claim_receipts x s.receipts _
          ∙ ground (arith, (elem-ids_claimed cfg.library x _ _ h).1));
    }

    commit-IsStep : IsStep s.receipts r.applied_events s'.receipts
    commit-IsStep = rw c.applied (applied (elem user s.users))
      where
        applied :
            (b : Bool) → IsStep s.receipts (if b then new_events a cfg events s else []) s'.receipts
        applied true = new-IsStep
        applied false = record {
          keeps = new-IsStep.keeps;
          once = tt;
          fresh = λ x h. cc;
          stored = λ x h. cc;
        }

  -- A call's effect, by what the transaction has done: all of it or nothing.
  Done : ℕ → String → Store a.F → Outcome ApplyError (ApplyResult a.F) × Store a.F → Type 0
  Done now user s (o, s') =
      (events : List (Fields a.F)) × Applies a cfg now user events s s'
      × Reports events o
      × IsStep s.receipts events s'.receipts

  nothing :
      (now : ℕ) (user : String) (s : Store a.F) (e : ApplyError) → Done now user s (raised e, s)
  unfolding Done apply_features
  nothing now user s e = ([], (stored_vectors a cfg user s, refl), tt, still s.receipts)

  finish-Done :
      (f : Fault) (b : Bool) (now : ℕ) (user : String) (s : Store a.F)
      (o : Outcome ApplyError (ApplyResult a.F × Store a.F))
      → ((r : ApplyResult a.F) (s' : Store a.F)
          → o ≡ ok (r, s')
          → Applies a cfg now user r.applied_events s s'
            × IsStep s.receipts r.applied_events s'.receipts)
      → Done now user s (finish a cfg f b s o)
  unfolding finish Done
  finish-Done f b now user s (raised e) h = nothing now user s e
  finish-Done healthy b now user s (ok (r, s')) h =
      let (w, i) = h r s' refl in (r.applied_events, w, refl, i)
  finish-Done rolled_back b now user s (ok (r, s')) h = nothing now user s unavailable
  finish-Done unacknowledged b now user s (ok (r, s')) h =
      let (w, i) = h r s' refl in (r.applied_events, w, tt, i)
  finish-Done cache_down true now user s (ok (r, s')) h =
      let (w, i) = h r s' refl in (r.applied_events, w, tt, i)
  finish-Done cache_down false now user s (ok (r, s')) h =
      let (w, i) = h r s' refl in (r.applied_events, w, refl, i)

  call-Done : (c : Call a.F) (s : Store a.F) → Done c.now c.user (enter c.world s) (call c s)
  unfolding apply_for_user
  call-Done c s =
      let t = enter c.world s in
      finish-Done c.fault _ c.now c.user t (transaction a cfg c.now c.user c.events t) (λ r s' e. (
        transaction-Applies a cfg c.now c.user c.events t r s' e,
        commit-IsStep c.user c.events t r s'
            (transaction-IsCommit a cfg c.now c.user c.events t r s' e),
      ))

  module _ (before after : List String) (now later : List (Fields a.F))
      (step : IsStep before now after) (once : Unique (ids cfg.library later))
      (fresh : (x : String) → elem x (ids cfg.library later) ≡ true → elem x after ≡ false) where
    both-fresh :
        (x : String) → elem x (ids cfg.library (now ++ later)) ≡ true → elem x before ≡ false
    both-fresh x h = ground (
      arith,
      fresh x,
      step.fresh x,
      step.keeps x,
      ids-append cfg.library now later,
      elem-append x (ids cfg.library now) (ids cfg.library later),
      h,
    )

    both-Unique : Unique (ids cfg.library (now ++ later))
    both-Unique =
        let apart =
          Apart-intro (ids cfg.library now) (ids cfg.library later)
            (λ x h. ground (arith, step.stored x h, fresh x)) in
        rw (ids-append cfg.library now later) (Unique-append _ _ step.once once apart)

  Effects-lem :
      (cs : List (Call a.F)) (s : Store a.F)
      → (events : List (Fields a.F)) × Effects cs s events
        × Unique (ids cfg.library events)
        × ((x : String) → elem x (ids cfg.library events) ≡ true → elem x s.receipts ≡ false)
  unfolding Effects Done
  Effects-lem [] s = ([], refl, tt, λ x h. cc)
  Effects-lem (c ∷ cs) s =
      let (now, applies, reports, step) = call-Done c s in
      let (later, effects, once, fresh) = Effects-lem cs (call c s).1 in
      (
        now ++ later,
        (now, later, refl, record { applies = applies; reports = reports }, effects),
        both-Unique s.receipts (call c s).1.receipts now later step once fresh,
        both-fresh s.receipts (call c s).1.receipts now later step once fresh,
      )

-- For any calls of `_apply_for_user`, one after the other, with any failures, and any writes of the other
-- services before each call, there are events, with no id twice among them and none that had a
-- receipt at first, such that each call has left the database that results from applying the
-- features of its own share of them, in one go, and, if it returns, reports exactly its share as
-- applied.
pub Effects-Unique :
    (a : Arith) (cfg : Config a) (calls : List (Call a.F)) (s : Store a.F)
    → (events : List (Fields a.F)) × Effects a cfg calls s events
      × Unique (ids cfg.library events)
      × Apart (ids cfg.library events) s.receipts
Effects-Unique a cfg calls s =
    let (events, effects, once, fresh) = Effects-lem a cfg calls s in
    (events, effects, once, Apart-intro (ids cfg.library events) s.receipts fresh)
