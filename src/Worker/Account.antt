-- ===== src/Worker/Account.antt =====
-- Accounts of a flush: every event drained has one outcome counted or is held again.
use oecophylla.Common.{
  ℕ, ◌+◌, ◌≤◌, String, ◌≡◌, refl, ap, subst, ◌↔◌, suc, Outcome, Bool, true, false, not, Option,
  none, some, List, [], ◌∷◌, ◌++◌, map, ok, raised, ◌>>=◌, >>=-eq-ok, ok-injective, arith,
  if◌then◌else◌, length, length-append, is_empty, All, All-append,
}
use oecophylla.Common.Int.{ℤ}
use oecophylla.Common.Float.{Arith}
use oecophylla.Common.Value.{Value, mapping, Fields}
use oecophylla.Common.Dict.{contains}
use oecophylla.Common.Eq.{string_eq, elem}
use text.Mathlib.Text.{◌==◌ as str_eq}
use oecophylla.Preference.{weights}
use oecophylla.Batch.{touch, drain, prepend}
use oecophylla.Worker.Envelope.{
  Crash, ignored_event_types, Library, event_type, event_id, extract_user,
  identity_field_is_present, valid_feature_event, Sorted, recorded, of_user, sort_valid,
  sort_mapping, sort_envelope,
}
use oecophylla.Worker.Flush.{
  Applied, HasId, Applier, Tally, Batches, add_event, file_event, sort_events, record_outcomes,
  Progress, apply_batch, apply_batches, Flushing, settle, flush,
}

module _ {F : Type 0} (library : Library F) where
  -- How many events the batches hold.
  abbrev pub batched : Batches library → ℕ
  batched [] = 0
  batched ((user, events) ∷ per_user) = length events + batched per_user

  -- Every event of the batches has an id.
  abbrev pub WithIds : Batches library → Type 0
  WithIds = All (λ b. All (HasId library) b.1)

  batched-add_event :
      (user : String) (env : Fields F) (b : Batches library)
      → batched (add_event library user env b) ≡ batched b + 1
  unfolding add_event
  batched-add_event user env [] = refl
  batched-add_event user env ((other, events) ∷ b) =
      ground (arith, batched-add_event user env b, length-append events (env ∷ []))

  WithIds-add_event :
      (user : String) (env : Fields F) (b : Batches library)
      → HasId library env
      → WithIds b
      → WithIds (add_event library user env b)
  unfolding add_event
  WithIds-add_event user env [] h k = ((h, tt), tt)
  WithIds-add_event user env ((other, events) ∷ b) h k =
      let more = All-append (HasId library) events (env ∷ []) k.0 (h, tt) in
      ground (arith, WithIds-add_event user env b h k.1, more)

  length-record_outcomes :
      (outcome : String) (envs : List (Fields F)) (tally : Tally)
      → length (record_outcomes library outcome envs tally) ≡ length tally + length envs
  unfolding record_outcomes
  length-record_outcomes outcome [] tally = omega arith
  length-record_outcomes outcome (env ∷ envs) tally =
      omega (arith, length-record_outcomes outcome envs _, length-append tally (_ ∷ []))

  unfoldable IsFiled : Fields F → Sorted → Type 0
  IsFiled env (recorded outcome type) = Unit
  IsFiled env (of_user user) = HasId library env

  sort_valid-IsFiled : (q : ℤ) (env : Fields F) → IsFiled env (sort_valid library q env)
  unfolding sort_valid IsFiled
  sort_valid-IsFiled q env = step (extract_user library env) (event_id library env) refl
    where
      step :
          (u o : Option String)
          → event_id library env ≡ o
          → let type = event_type library env in
            IsFiled env (elim u [
              | none ↦
                  recorded
                    (if identity_field_is_present library env then "invalid" else "unknown")
                    type
              | some user ↦ elim o [ none ↦ recorded "unknown" type | some id ↦ of_user user ]
            ])
      step none o e = tt
      step (some user) none e = tt
      step (some user) (some id) e = (id, e)

  sort_mapping-IsFiled :
      (q : ℤ) (env : Fields F) (s : Sorted) → sort_mapping library q env ≡ ok s → IsFiled env s
  unfolding sort_mapping IsFiled
  sort_mapping-IsFiled q env s h =
      let type = event_type library env in
      step (elem type ignored_event_types) (not (contains type weights))
        (valid_feature_event library q env) ("ignored", type)
        ("unknown", if str_eq type "" then "missing" else type) ("invalid", type) h
    where
      step :
          (b c : Bool) (m : Outcome Crash Bool) (x y z : String × String)
          → (if b
              then ok (recorded x.0 x.1)
              else (if c
                  then ok (recorded y.0 y.1)
                  else (m >>= λ valid.
                      if not valid then ok (recorded z.0 z.1) else ok (sort_valid library q env))))
            ≡ ok s
          → IsFiled env s
      step true c m x y z k = subst (IsFiled env) (ok-injective (recorded x.0 x.1) s k) tt
      step false true m x y z k = subst (IsFiled env) (ok-injective (recorded y.0 y.1) s k) tt
      step false false (raised e) x y z k = cc
      step false false (ok false) x y z k =
          subst (IsFiled env) (ok-injective (recorded z.0 z.1) s k) tt
      step false false (ok true) x y z k =
          subst (IsFiled env) (ok-injective _ s k) (sort_valid-IsFiled q env)

  sort_envelope-IsFiled :
      (q : ℤ) (v : Value F) (env : Fields F) (s : Sorted)
      → sort_envelope library q v ≡ ok (env, s)
      → IsFiled env s
  unfolding sort_envelope
  sort_envelope-IsFiled q (mapping m) env s h =
      let (t, one, rest) = >>=-eq-ok (sort_mapping library q m) _ h in
      subst (λ (z : Fields F × Sorted). IsFiled z.0 z.1) (ok-injective (m, t) (env, s) rest)
        (sort_mapping-IsFiled q m t one)
  sort_envelope-IsFiled q _ env s h = cc

  file_event-accounts :
      (env : Fields F) (s : Sorted) (b : Batches library) (t : Tally)
      → IsFiled env s
      → WithIds b
      → let (b', t') = file_event library env s (b, t) in
        (length t' + batched b' ≡ length t + batched b + 1) × length t ≤ length t' × WithIds b'
  unfolding file_event IsFiled
  file_event-accounts env (recorded outcome type) b t h k =
      let more = length-append t ((outcome, type) ∷ []) in
      (omega (arith, more), omega (arith, more), k)
  file_event-accounts env (of_user user) b t h k =
      (omega (arith, batched-add_event user env b), omega arith, WithIds-add_event user env b h k)

  pub sort_events-accounts :
      (q : ℤ) (vs : List (Value F)) (b : Batches library) (t : Tally) (b' : Batches library)
      (t' : Tally)
      → WithIds b
      → sort_events library q vs (b, t) ≡ ok (b', t')
      → (length t' + batched b' ≡ length t + batched b + length vs)
        × length t ≤ length t'
        × WithIds b'
  unfolding sort_events
  sort_events-accounts q [] b t b' t' k h =
      subst
        (λ (z : Batches library × Tally).
          (length z.1 + batched z.0 ≡ length t + batched b + 0)
          × length t ≤ length z.1
          × WithIds z.0)
        (ok-injective (b, t) (b', t') h) (omega arith, omega arith, k)
  sort_events-accounts q (v ∷ vs) b t b' t' k h =
      let ((env, s), one, rest) = >>=-eq-ok (sort_envelope library q v) _ h in
      let filed = file_event library env s (b, t) in
      let (n, up, k') = file_event-accounts env s b t (sort_envelope-IsFiled q v env s one) k in
      let (m, on, k'') = sort_events-accounts q vs filed.0 filed.1 b' t' k' rest in
      (omega (arith, n, m), omega (arith, up, on), k'')

  module _ (applier : Applier library) where
    apply_batch-accounts :
        (user : String) (events : List (Fields F)) (p : Progress F applier.State)
        → All (HasId library) events
        → let p' = apply_batch library applier user events p in
          (length p'.tally + length p'.failed_events
            ≡ length p.tally + length p.failed_events + length events)
          × length p.tally ≤ length p'.tally
    unfolding apply_batch
    apply_batch-accounts user events p k = step _ refl
      where
        step :
            (o : Option (Applied F))
            → (applier.apply user events p.state).0 ≡ o
            → let state = (applier.apply user events p.state).1 in
              let p' : Progress F applier.State = elim o [
                | some r ↦
                    let one = record_outcomes library "applied" r.applied p.tally in
                    let two = record_outcomes library "duplicate" r.duplicate one in
                    record p {
                      state = state;
                      tally = record_outcomes library "ignored" r.ignored two;
                      trending_events = p.trending_events ++ r.applied;
                    }
                | none ↦ record p { state = state; failed_events = p.failed_events ++ events }
              ] in
              (length p'.tally + length p'.failed_events
                ≡ length p.tally + length p.failed_events + length events)
              × length p.tally ≤ length p'.tally
        step none e = (omega (arith, length-append p.failed_events events), omega arith)
        step (some r) e =
            let one = length-record_outcomes "applied" r.applied p.tally in
            let first = record_outcomes library "applied" r.applied p.tally in
            let second = record_outcomes library "duplicate" r.duplicate first in
            let two = length-record_outcomes "duplicate" r.duplicate first in
            let three = length-record_outcomes "ignored" r.ignored second in
            (
              omega (arith, one, two, three, applier.accounts user events p.state r k e),
              omega (arith, one, two, three),
            )

    pub apply_batches-accounts :
        (b : Batches library) (p : Progress F applier.State)
        → WithIds b
        → let p' = apply_batches library applier b p in
          (length p'.tally + length p'.failed_events
            ≡ length p.tally + length p.failed_events + batched b)
          × length p.tally ≤ length p'.tally
    unfolding apply_batches
    apply_batches-accounts [] p k = (omega arith, omega arith)
    apply_batches-accounts ((user, events) ∷ b) p k =
        let (n, up) = apply_batch-accounts user events p k.0 in
        let (m, on) = apply_batches-accounts b (apply_batch library applier user events p) k.1 in
        (omega (arith, n, m), omega (arith, up, on))

length-map {ℓ κ} :
    {A : Type ℓ} {B : Type κ} (f : A → B) (xs : List A) → length (map f xs) ≡ length xs
length-map f [] = refl
length-map f (x ∷ xs) = ap suc (length-map f xs)

is_empty_iff {ℓ} : {A : Type ℓ} (xs : List A) → (is_empty xs ≡ true) ↔ (length xs ≡ 0)
is_empty_iff [] = (λ h. refl, λ h. refl)
is_empty_iff (x ∷ xs) = (λ h. cc, λ h. ground arith)

module _ (a : Arith) (library : Library a.F) (applier : Applier library) where
  -- What a flush promises of the state before and after it.
  abbrev Accounted : Flushing a library applier → Bool × Flushing a library applier → Type 0
  Accounted w (success, w') =
      (length w'.tally + length w'.buffer.held ≡ length w.tally + length w.buffer.held)
      × length w.tally ≤ length w'.tally
      × ((success ≡ true) ↔ (length w'.buffer.held ≡ 0))

  settle-Accounted :
      (q : ℤ) (now : a.F) (redis_fails : Bool) (w : Flushing a library applier)
      (b : Batches library) (t : Tally)
      → sort_events library q w.buffer.held ([], w.tally) ≡ ok (b, t)
      → Accounted w (settle a library applier now redis_fails w (b, t))
  unfolding settle prepend drain
  settle-Accounted q now redis_fails w b t h =
      let (n, up, k) = sort_events-accounts library q w.buffer.held [] w.tally b t tt h in
      let p : Progress a.F applier.State = record {
        state = w.state;
        tally = t;
        failed_events = [];
        trending_events = [];
      } in
      let (m, on) = apply_batches-accounts library applier b p k in
      let failed = (apply_batches library applier b p).failed_events in
      let again = length-append (map (λ (m : Fields a.F). mapping m) failed) [] in
      let kept = length-map (λ (m : Fields a.F). mapping m) failed in
      (
        omega (arith, n, m, again, kept),
        omega (arith, up, on),
        (
          λ e. omega (arith, again, kept, (is_empty_iff failed).0 e),
          λ e. (is_empty_iff failed).1 (omega (arith, again, kept, e)),
        ),
      )

-- A flush that returns accounts for its batch: the outcomes counted and the events held again are as
-- many as the outcomes counted before and the events drained, no outcome is uncounted, and it reports
-- success exactly if no event is held again.
pub flush-accounts :
    (a : Arith) (library : Library a.F) (applier : Applier library) (qualified_read_ms : ℤ)
    (now : a.F) (redis_fails : Bool) (w : Flushing a library applier) (success : Bool)
    (w' : Flushing a library applier)
    → flush a library applier qualified_read_ms now redis_fails w ≡ ok (success, w')
    → (length w'.tally + length w'.buffer.held ≡ length w.tally + length w.buffer.held)
      × length w.tally ≤ length w'.tally
      × ((success ≡ true) ↔ (length w'.buffer.held ≡ 0))
unfolding flush touch
flush-accounts a library applier q now redis_fails w success w' h =
    step (is_empty w.buffer.held) refl h
  where
    step :
        (b : Bool)
        → is_empty w.buffer.held ≡ b
        → (if b
            then ok (true, record w { buffer = touch now w.buffer })
            else (sort_events library q w.buffer.held ([], w.tally) >>= λ filed.
                ok (settle a library applier now redis_fails w filed)))
          ≡ ok (success, w')
        → Accounted a library applier w (success, w')
    step true e k =
        subst (Accounted a library applier w)
          (ok-injective (true, record w { buffer = touch now w.buffer }) (success, w') k)
          (touched e)
      where
        touched :
            is_empty w.buffer.held ≡ true
            → Accounted a library applier w (true, record w { buffer = touch now w.buffer })
        touched e = (refl, omega arith, (λ z. (is_empty_iff w.buffer.held).0 e, λ z. refl))
    step false e k =
        let ((b, t), sorted, rest) =
          >>=-eq-ok (sort_events library q w.buffer.held ([], w.tally)) _ k in
        subst (Accounted a library applier w) (ok-injective _ (success, w') rest)
          (settle-Accounted a library applier q now redis_fails w b t sorted)
