-- ===== src/Worker/Interrupt.antt =====
-- `_flush` of main.py, cancelled at an `await` behind `drain`. `except Exception` does not catch the
-- cancellation, and the batch is a local variable of `_flush`, which nothing puts back.
use mathlib.Core.Option.{some-injective}
use oecophylla.Common.{
  String, zero, suc, ℕ, ◌+◌, ◌≤◌, ◌≡◌, refl, subst, Outcome, Option, none, some, List, [], ◌∷◌,
  ◌++◌, ok, ◌>>=◌, >>=-eq-ok, ok-injective, arith, if◌then◌else◌, length, length-append, is_empty,
  take, drop, Bool-cases, inl, inr,
}
use oecophylla.Common.Int.{ℤ}
use oecophylla.Common.Float.{Arith}
use oecophylla.Common.Value.{Fields}
use oecophylla.Common.Dict.{Dict}
use oecophylla.Batch.{drain}
use oecophylla.Worker.Envelope.{Crash, Library}
use oecophylla.Worker.Flush.{
  Applier, Flushing, Batches, Tally, Progress, apply_batches, sort_events,
}
use oecophylla.Worker.Account.{batched, WithIds, sort_events-accounts, apply_batches-accounts}

module _ (a : Arith) (library : Library a.F) (applier : Applier library) where
  -- The `await` that is cancelled: of `_apply_for_user`, after so many users are done, with the state that
  -- the cancelled call leaves; or of `_update_trending`, with the trending posts that it leaves.
  pub data Interruption : Type 0 where
    in_apply : ℕ → applier.State → Interruption
    in_trending : Dict String a.F → Interruption

  -- What a cancelled flush leaves, and the events whose users were not done.
  pub record Interrupted : Type 0 where
    pub worker : Flushing a library applier
    pub lost : List (Fields a.F)

  abbrev pub events_of : Batches library → List (Fields a.F)
  events_of [] = []
  events_of ((user, events) ∷ per_user) = events ++ events_of per_user

  abbrev pub progress_from : Flushing a library applier → Tally → Progress a.F applier.State
  progress_from w tally = record {
    state = w.state;
    tally = tally;
    failed_events = [];
    trending_events = [];
  }

  -- The second half of `_flush` up to the cancellation; `none` if it does not come to that `await`.
  unfoldable pub interrupt :
      Interruption → a.F → Flushing a library applier → Batches library × Tally → Option Interrupted
  interrupt (in_apply done state) now w (per_user, tally) =
      let p : Progress a.F applier.State =
        apply_batches library applier (take done per_user) (progress_from w tally) in
      let rest = drop done per_user in
      if is_empty rest
      then none
      else some (record {
        worker = record w { buffer = (drain now w.buffer).1; state = state; tally = p.tally };
        lost = p.failed_events ++ events_of rest;
      })
  interrupt (in_trending trending) now w (per_user, tally) =
      let p : Progress a.F applier.State =
        apply_batches library applier per_user (progress_from w tally) in
      if is_empty p.trending_events
      then none
      else some (record {
        worker = record {
          buffer = (drain now w.buffer).1;
          state = p.state;
          tally = p.tally;
          trending = trending;
        };
        lost = p.failed_events;
      })

  unfoldable pub flush_interrupted :
      ℤ → Interruption → a.F → Flushing a library applier → Outcome Crash (Option Interrupted)
  flush_interrupted qualified_read_ms i now w =
      if is_empty w.buffer.held
      then ok none
      else (sort_events library qualified_read_ms w.buffer.held ([], w.tally) >>= λ filed.
          ok (interrupt i now w filed))

  length-events_of : (b : Batches library) → length (events_of b) ≡ batched library b
  length-events_of [] = refl
  length-events_of ((user, events) ∷ b) =
      omega (arith, length-append events (events_of b), length-events_of b)

  batched-split :
      (n : ℕ) (b : Batches library)
      → batched library (take n b) + length (events_of (drop n b)) ≡ batched library b
  batched-split zero b = omega (arith, length-events_of b)
  batched-split (suc n) [] = refl
  batched-split (suc n) ((user, events) ∷ b) = omega (arith, batched-split n b)

  WithIds-take : (n : ℕ) (b : Batches library) → WithIds library b → WithIds library (take n b)
  WithIds-take zero b h = tt
  WithIds-take (suc n) [] h = tt
  WithIds-take (suc n) (x ∷ b) h = (h.0, WithIds-take n b h.1)

  -- A cancelled flush accounts for its batch, if the lost events are counted.
  pub record IsInterrupted (w : Flushing a library applier) (x : Interrupted) : Type 0 where
    pub total : length x.worker.tally + length x.lost ≡ length w.tally + length w.buffer.held
    pub grows : length w.tally ≤ length x.worker.tally
    pub empty : x.worker.buffer.held ≡ []

  interrupt-accounts :
      (q : ℤ) (i : Interruption) (now : a.F) (w : Flushing a library applier) (b : Batches library)
      (t : Tally) (x : Interrupted)
      → sort_events library q w.buffer.held ([], w.tally) ≡ ok (b, t)
      → interrupt i now w (b, t) ≡ some x
      → IsInterrupted w x
  unfolding interrupt drain
  interrupt-accounts q (in_apply n state) now w b t x h e =
      let (sorted, up, k) = sort_events-accounts library q w.buffer.held [] w.tally b t tt h in
      let (m, on) =
        apply_batches-accounts library applier (take n b) (progress_from w t)
          (WithIds-take n b k) in
      let p = apply_batches library applier (take n b) (progress_from w t) in
      let lost = length-append p.failed_events (events_of (drop n b)) in
      let parts = batched-split n b in
      elim (Bool-cases (is_empty (drop n b))) [
        | inl z ↦ cc (rw z at e)
        | inr z ↦
            subst (λ y. IsInterrupted w y) (some-injective _ x (rw z at e))
              (record {
                total = omega (arith, sorted, m, lost, parts);
                grows = omega (arith, up, on);
                empty = refl;
              })
      ]
  interrupt-accounts q (in_trending trending) now w b t x h e =
      let (sorted, up, k) = sort_events-accounts library q w.buffer.held [] w.tally b t tt h in
      let (m, on) = apply_batches-accounts library applier b (progress_from w t) k in
      let p = apply_batches library applier b (progress_from w t) in
      elim (Bool-cases (is_empty p.trending_events)) [
        | inl z ↦ cc (rw z at e)
        | inr z ↦
            subst (λ y. IsInterrupted w y) (some-injective _ x (rw z at e))
              (record {
                total = omega (arith, sorted, m);
                grows = omega (arith, up, on);
                empty = refl;
              })
      ]

  pub flush_interrupted-IsInterrupted :
      (q : ℤ) (i : Interruption) (now : a.F) (w : Flushing a library applier) (x : Interrupted)
      → flush_interrupted q i now w ≡ ok (some x)
      → IsInterrupted w x
  unfolding flush_interrupted
  flush_interrupted-IsInterrupted q i now w x h = elim (Bool-cases (is_empty w.buffer.held)) [
    | inl z ↦ cc (rw z at h)
    | inr z ↦
        let ((b, t), sorted, rest) =
          >>=-eq-ok (sort_events library q w.buffer.held ([], w.tally))
            (λ filed. ok (interrupt i now w filed)) (rw z at h) in
        interrupt-accounts q i now w b t x sorted
          (ok-injective (interrupt i now w (b, t)) (some x) rest)
  ]
