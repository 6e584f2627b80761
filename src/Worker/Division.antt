-- ===== src/Worker/Division.antt =====
-- The lists of an `ApplyResult`: every event of the batch with an id stands in one of them.
use oecophylla.Common.{
  ℕ, ◌+◌, String, ◌≡◌, refl, ap, subst, Outcome, Bool, true, false, not, none, some, List, [], ◌∷◌,
  ◌++◌, ok, raised, ok-injective, arith, if◌then◌else◌, keep_if,
}
use oecophylla.Common.Float.{Arith}
use oecophylla.Common.Value.{Fields}
use oecophylla.Common.Eq.{string_eq, elem}
use oecophylla.Worker.Envelope.{Library, event_id}
use oecophylla.Worker.Claim.{Split, no_split, split_one, split_batch, is_claimed}
use oecophylla.Worker.Store.{Store}
use oecophylla.Worker.Apply.{
  Fault, healthy, rolled_back, unacknowledged, cache_down, ApplyError, ApplyResult, Config,
  transaction, finish, apply_for_user, claimed_events, refused_events,
}
use oecophylla.Worker.Effects.{IsCommit, transaction-IsCommit, new_events, claim_of}

-- How many elements pass a test.
unfoldable pub count {ℓ} : {A : Type ℓ} → (A → Bool) → List A → ℕ
count p [] = 0
count p (x ∷ xs) = if p x then count p xs + 1 else count p xs

module _ {ℓ} {A : Type ℓ} where
  pub count-append : (p : A → Bool) (xs ys : List A) → count p (xs ++ ys) ≡ count p xs + count p ys
  unfolding count
  count-append p [] ys = omega arith
  count-append p (x ∷ xs) ys = ground (arith, count-append p xs ys)

  count-keep_if :
      (p q : A → Bool) (xs : List A)
      → count p (keep_if q xs) + count p (keep_if (λ x. not (q x)) xs) ≡ count p xs
  unfolding count
  count-keep_if p q [] = omega arith
  count-keep_if p q (x ∷ xs) = ground (arith, count-keep_if p q xs)

  count-either :
      (p : A → Bool) (b : Bool) (xs : List A)
      → count p (if b then xs else []) + count p (if b then [] else xs) ≡ count p xs
  unfolding count
  count-either p true xs = omega arith
  count-either p false xs = omega arith

module _ {F : Type 0} (library : Library F) where
  -- `_event_id(env) is not None`
  unfoldable pub has_id : Fields F → Bool
  has_id env = elim (event_id library env) [ none ↦ false | some id ↦ true ]

  split_one-count :
      (p : Fields F → Bool) (env : Fields F) (s : Split F)
      → let s' = split_one library env s in
        count p s'.unique + count p s'.duplicate
        ≡ count p s.unique + count p s.duplicate + count p (keep_if has_id (env ∷ []))
  unfolding split_one has_id count
  split_one-count p env s =
      ground (arith, count-append p s.unique (env ∷ []), count-append p s.duplicate (env ∷ []))

  split_batch-count :
      (p : Fields F → Bool) (envs : List (Fields F)) (s : Split F)
      → let s' = split_batch library s envs in
        count p s'.unique + count p s'.duplicate
        ≡ count p s.unique + count p s.duplicate + count p (keep_if has_id envs)
  unfolding split_batch count
  split_batch-count p [] s = omega arith
  split_batch-count p (env ∷ envs) s =
      ground (arith, split_one-count p env s, split_batch-count p envs (split_one library env s))

module _ (a : Arith) (cfg : Config a) where
  -- The events of the three lists, by any test.
  abbrev pub in_result : (Fields a.F → Bool) → ApplyResult a.F → ℕ
  in_result p r = count p r.applied_events + count p r.duplicate_events + count p r.ignored_events

  commit-count :
      (user : String) (events : List (Fields a.F)) (s : Store a.F) (r : ApplyResult a.F)
      (s' : Store a.F) (p : Fields a.F → Bool)
      → IsCommit a cfg user events s r s'
      → in_result p r ≡ count p (keep_if (has_id cfg.library) events)
  unfolding claimed_events refused_events count
  commit-count user events s r s' p c =
      let split = split_batch cfg.library no_split events in
      let claimed = (claim_of a cfg events s).1 in
      omega (
        arith,
        ap (count p) c.applied,
        ap (count p) c.ignored,
        ap (count p) c.duplicates,
        count-either p (elem user s.users) (new_events a cfg events s),
        count-keep_if p (is_claimed cfg.library claimed) split.unique,
        count-append p split.duplicate (refused_events a cfg claimed split.unique),
        split_batch-count cfg.library p events no_split,
      )

  finish-count :
      (f : Fault) (b : Bool) (user : String) (events : List (Fields a.F)) (s : Store a.F)
      (o : Outcome ApplyError (ApplyResult a.F × Store a.F)) (r : ApplyResult a.F)
      (p : Fields a.F → Bool)
      → ((r : ApplyResult a.F) (s' : Store a.F)
          → o ≡ ok (r, s')
          → IsCommit a cfg user events s r s')
      → (finish a cfg f b s o).0 ≡ ok r
      → in_result p r ≡ count p (keep_if (has_id cfg.library) events)
  unfolding finish
  finish-count f b user events s (raised e) r p c h = cc
  finish-count healthy b user events s (ok (x, s')) r p c h =
      subst (λ z. in_result p z ≡ count p (keep_if (has_id cfg.library) events))
        (ok-injective x r h) (commit-count user events s x s' p (c x s' refl))
  finish-count rolled_back b user events s (ok (x, s')) r p c h = cc
  finish-count unacknowledged b user events s (ok (x, s')) r p c h = cc
  finish-count cache_down true user events s (ok (x, s')) r p c h = cc
  finish-count cache_down false user events s (ok (x, s')) r p c h =
      subst (λ z. in_result p z ≡ count p (keep_if (has_id cfg.library) events))
        (ok-injective x r h) (commit-count user events s x s' p (c x s' refl))

-- A call of `_apply_for_user` that returns has put each event that has an id in exactly one of its
-- three lists, applied, duplicate or ignored: whatever the test, as many events of the lists pass it
-- as events of the batch with an id.
pub apply_for_user-count :
    (a : Arith) (cfg : Config a) (fault : Fault) (now : ℕ) (user : String)
    (events : List (Fields a.F)) (s : Store a.F) (r : ApplyResult a.F)
    → (apply_for_user a cfg fault now user events s).0 ≡ ok r
    → (p : Fields a.F → Bool) → in_result a cfg p r ≡ count p (keep_if (has_id cfg.library) events)
unfolding apply_for_user
apply_for_user-count a cfg fault now user events s r h p =
    finish-count a cfg fault _ user events s (transaction a cfg now user events s) r p
      (λ x s' e. transaction-IsCommit a cfg now user events s x s' e) h
