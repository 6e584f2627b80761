-- ===== src/Worker/Calls.antt =====
-- `_apply_for_user` as the way in which a flush applies a user's events. What the surroundings do at
-- each call, writes of the other services, failures, the clock, is a function of the call's number.
use oecophylla.Common.{
  ℕ, ◌+◌, String, ◌≡◌, refl, ap, subst, Outcome, Bool, true, Option, none, some, List, [], ◌∷◌, ok,
  raised, arith, keep_if, length, All,
}
use oecophylla.Common.Float.{Arith}
use oecophylla.Common.Value.{Fields}
use oecophylla.Worker.Store.{Store}
use oecophylla.Worker.Apply.{Fault, ApplyError, ApplyResult, Config, apply_for_user}
use oecophylla.Worker.Once.{World, enter}
use oecophylla.Worker.Division.{count, has_id, apply_for_user-count}
use oecophylla.Worker.Flush.{Applied, HasId, Applier}

pub record Surroundings : Type 0 where
  pub world : World
  pub fault : Fault
  pub now : ℕ

module _ {ℓ} {A : Type ℓ} where
  some-injective : (x y : A) → Path (Option A) (some x) (some y) → x ≡ y
  some-injective x y h = cc

  count-length : (xs : List A) → count (λ x. true) xs ≡ length xs
  unfolding count
  count-length [] = refl
  count-length (x ∷ xs) = omega (arith, count-length xs)

  keep_if-All : (p : A → Bool) (xs : List A) → All (λ x. p x ≡ true) xs → keep_if p xs ≡ xs
  keep_if-All p [] h = refl
  keep_if-All p (x ∷ xs) h = rw h.0 (ap {B = List A} (λ (l : List A). x ∷ l) (keep_if-All p xs h.1))

module _ (a : Arith) (cfg : Config a) (surroundings : ℕ → Surroundings) where
  -- The number of calls made, and the database.
  pub record Calls : Type 0 where
    pub made : ℕ
    pub store : Store a.F

  abbrev pub lists_of : Outcome ApplyError (ApplyResult a.F) → Option (Applied a.F)
  lists_of (raised e) = none
  lists_of (ok r) = some (record {
    applied = r.applied_events;
    duplicate = r.duplicate_events;
    ignored = r.ignored_events;
  })

  abbrev pub next_call :
      String → List (Fields a.F) → Calls → Outcome ApplyError (ApplyResult a.F) × Store a.F
  next_call user events c =
      let round = surroundings c.made in
      apply_for_user a cfg round.fault round.now user events (enter round.world c.store)

  abbrev pub apply_next : String → List (Fields a.F) → Calls → Option (Applied a.F) × Calls
  apply_next user events c =
      let (outcome, store) = next_call user events c in
      (lists_of outcome, record { made = c.made + 1; store = store })

  HasIds-has_id :
      (events : List (Fields a.F))
      → All (HasId cfg.library) events
      → All (λ env. has_id cfg.library env ≡ true) events
  unfolding has_id
  HasIds-has_id [] h = tt
  HasIds-has_id (env ∷ events) h =
      let (id, e) = h.0 in (ground (arith, e), HasIds-has_id events h.1)

  pub apply_next-accounts :
      (user : String) (events : List (Fields a.F)) (c : Calls) (r : Applied a.F)
      → All (HasId cfg.library) events
      → (apply_next user events c).0 ≡ some r
      → length r.applied + length r.duplicate + length r.ignored ≡ length events
  apply_next-accounts user events c r h e = step (next_call user events c).0 refl e
    where
      round : Surroundings
      round = surroundings c.made

      step :
          (o : Outcome ApplyError (ApplyResult a.F))
          → (next_call user events c).0 ≡ o
          → lists_of o ≡ some r
          → length r.applied + length r.duplicate + length r.ignored ≡ length events
      step (raised x) q k = cc
      step (ok x) q k =
          let total =
            apply_for_user-count a cfg round.fault round.now user events (enter round.world c.store)
              x q (λ env. true) in
          subst
            (λ (z : Applied a.F).
              length z.applied + length z.duplicate + length z.ignored ≡ length events)
            (some-injective _ r k)
            (omega (
              arith,
              total,
              count-length x.applied_events,
              count-length x.duplicate_events,
              count-length x.ignored_events,
              count-length (keep_if (has_id cfg.library) events),
              ap length (keep_if-All (has_id cfg.library) events (HasIds-has_id events h)),
            ))

  -- The worker's own way to apply events.
  abbrev pub worker_applier : Applier cfg.library
  worker_applier = record { State = Calls; apply = apply_next; accounts = apply_next-accounts }
