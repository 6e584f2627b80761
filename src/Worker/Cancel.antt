-- ===== src/Worker/Cancel.antt =====
-- `run` of main.py with its cancellation: at an `await` outside `_flush`, or at one inside it, behind
-- `drain`. Either way the handler flushes and commits, and the run ends. A second cancellation, of the
-- handler itself, is left out.
use oecophylla.Common.{
  ◌+◌, ◌≤◌, ◌≡◌, refl, ap, subst, Outcome, Bool, true, false, Option, none, some, List, [], ok,
  ◌>>=◌, >>=-eq-ok, ok-injective, arith, if◌then◌else◌, length, is_empty, Bool-cases, inl, inr,
}
use mathlib.Core.Option.{some-injective}
use oecophylla.Common.Int.{ℤ}
use oecophylla.Common.Float.{Arith}
use oecophylla.Common.Value.{Fields}
use oecophylla.Batch.{ready, touch}
use oecophylla.Worker.Envelope.{Crash, Library}
use oecophylla.Worker.Flush.{Applier, Flushing, flush}
use oecophylla.Worker.Interrupt.{
  Interruption, Interrupted, IsInterrupted, flush_interrupted, flush_interrupted-IsInterrupted,
}
use oecophylla.Worker.Loop.{
  Run, Turn, poll, turn, flush_and_commit, IsSound, poll-IsSound, turn-IsSound,
  flush_and_commit-IsSound,
}

module _ (a : Arith) (library : Library a.F) (applier : Applier library)
    (qualified_read_ms : ℤ) where
  abbrev Runs : Type 0
  Runs = Run a library applier qualified_read_ms

  abbrev Turns : Type 0
  Turns = Turn a library applier qualified_read_ms

  -- The handler, after a cancelled flush.
  unfoldable pub handle_interrupted :
      a.F
      → Runs
      → Option (Interrupted a library applier)
      → Outcome Crash (Option (Runs × List (Fields a.F)))
  handle_interrupted now r none = ok none
  handle_interrupted now r (some x) =
      flush_and_commit a library applier qualified_read_ms now false
        (record r { worker = x.worker })
      >>= λ r'. ok (some (r', x.lost))

  -- A turn whose flush is cancelled, and the handler at its own reading of the clock: the run as it ends,
  -- with the lost events; `none` if the turn does not come to that `await`.
  unfoldable pub turn_interrupted :
      Turns
      → Interruption a library applier
      → a.F
      → Runs
      → Outcome Crash (Option (Runs × List (Fields a.F)))
  turn_interrupted t i handled_at r =
      let r' = poll a library applier qualified_read_ms t.records r in
      if ready a t.checked_at r'.worker.buffer
      then (flush_interrupted a library applier qualified_read_ms i t.drained_at r'.worker
          >>= handle_interrupted handled_at r')
      else ok none

  -- The states that the loop goes through, with the events lost on the way: turns, then the flush of a run
  -- cancelled outside `_flush`, or a turn cancelled inside it.
  pub data Reaches : Runs → List (Fields a.F) → Runs → Type 0 where
    here : {r : Runs} → Reaches r [] r
    turns :
        {r r' r'' : Runs} {lost : List (Fields a.F)} (t : Turns)
        → turn a library applier qualified_read_ms t r ≡ ok r'
        → Reaches r' lost r''
        → Reaches r lost r''
    cancelled :
        {r r' : Runs} (now : a.F) (redis_fails : Bool)
        → flush_and_commit a library applier qualified_read_ms now redis_fails r ≡ ok r'
        → Reaches r [] r'
    interrupted :
        {r r' : Runs} {lost : List (Fields a.F)} (t : Turns) (i : Interruption a library applier)
        (handled_at : a.F)
        → turn_interrupted t i handled_at r ≡ ok (some (r', lost))
        → Reaches r lost r'

  -- Each value polled has an outcome, is held or is lost; the committed ones have an outcome or are lost.
  pub record IsAccounted (lost : List (Fields a.F)) (r : Runs) : Type 0 where
    pub accounted : length r.worker.tally + length r.worker.buffer.held + length lost ≡ r.polled
    pub behind : r.committed ≤ length r.worker.tally + length lost

  IsSound-IsAccounted :
      {r : Runs} → IsSound a library applier qualified_read_ms r → IsAccounted [] r
  IsSound-IsAccounted i = record {
    accounted = omega (arith, i.accounted);
    behind = omega (arith, i.behind);
  }

  -- What a cancelled turn leaves: all that was polled is committed, and nothing is held.
  pub record IsAbandoned (lost : List (Fields a.F)) (r : Runs) : Type 0 where
    pub committed_all : r.committed ≡ r.polled
    pub none_held : length r.worker.buffer.held ≡ 0
    pub outcomes : length r.worker.tally + length lost ≡ r.polled

  handle-IsAbandoned :
      (now : a.F) (r r' : Runs) (x : Interrupted a library applier) (lost : List (Fields a.F))
      → IsSound a library applier qualified_read_ms r
      → IsInterrupted a library applier r.worker x
      → handle_interrupted now r (some x) ≡ ok (some (r', lost))
      → IsAbandoned lost r'
  unfolding handle_interrupted flush_and_commit flush touch
  handle-IsAbandoned now r r' x lost s i h =
      let w : Flushing a library applier = record x.worker { buffer = touch now x.worker.buffer } in
      let end : Runs = record { worker = w; polled = r.polled; committed = r.polled } in
      let none_held : length x.worker.buffer.held ≡ 0 = ap length i.empty in
      let idle : is_empty x.worker.buffer.held ≡ true = ap is_empty i.empty in
      let same = ok-injective (some (end, x.lost)) (some (r', lost)) (rw idle at h) in
      subst (λ z. IsAbandoned z.1 z.0) (some-injective (end, x.lost) (r', lost) same)
        (record {
          committed_all = refl;
          none_held = none_held;
          outcomes = omega (arith, i.total, s.accounted);
        })

  pub turn_interrupted-IsAbandoned :
      (t : Turns) (i : Interruption a library applier) (handled_at : a.F) (r r' : Runs)
      (lost : List (Fields a.F))
      → IsSound a library applier qualified_read_ms r
      → turn_interrupted t i handled_at r ≡ ok (some (r', lost))
      → IsAbandoned lost r'
  unfolding turn_interrupted handle_interrupted
  turn_interrupted-IsAbandoned t i handled_at r r' lost s h =
      let p = poll a library applier qualified_read_ms t.records r in
      let polled = poll-IsSound a library applier qualified_read_ms t.records r s in
      elim (Bool-cases (ready a t.checked_at p.worker.buffer)) [
        | inr z ↦ cc (rw z at h)
        | inl z ↦
            let (o, stopped, rest) =
              >>=-eq-ok
                (flush_interrupted a library applier qualified_read_ms i t.drained_at p.worker)
                (handle_interrupted handled_at p) (rw z at h) in
            after p o polled stopped rest
      ]
    where
      after :
          (p : Runs) (o : Option (Interrupted a library applier))
          → IsSound a library applier qualified_read_ms p
          → flush_interrupted a library applier qualified_read_ms i t.drained_at p.worker ≡ ok o
          → handle_interrupted handled_at p o ≡ ok (some (r', lost))
          → IsAbandoned lost r'
      after p none polled stopped rest = cc
      after p (some x) polled stopped rest =
          handle-IsAbandoned handled_at p r' x lost polled
            (flush_interrupted-IsInterrupted a library applier qualified_read_ms i t.drained_at
              p.worker x stopped)
            rest

  -- Delivery, and where it fails: in every state that `run` reaches from a sound one, every
  -- value polled has an outcome counted, is held in the buffer or is lost, and no more positions are
  -- committed than events have an outcome or are lost. The lost events are those of the cancellation
  -- inside `_flush`, behind `drain`, that the path ends with, and none if it ends in another way.
  pub Reaches-IsAccounted :
      {r r' : Runs} {lost : List (Fields a.F)}
      → IsSound a library applier qualified_read_ms r
      → Reaches r lost r'
      → IsAccounted lost r'
  Reaches-IsAccounted s here = IsSound-IsAccounted s
  Reaches-IsAccounted s (turns t e path) =
      Reaches-IsAccounted (turn-IsSound a library applier qualified_read_ms t _ _ s e) path
  Reaches-IsAccounted s (cancelled now redis_fails e) =
      IsSound-IsAccounted
        (flush_and_commit-IsSound a library applier qualified_read_ms now redis_fails _ _ s e)
  Reaches-IsAccounted s (interrupted t i handled_at e) =
      let b = turn_interrupted-IsAbandoned t i handled_at _ _ _ s e in
      record {
        accounted = omega (arith, b.none_held, b.outcomes);
        behind = omega (arith, b.committed_all, b.outcomes);
      }
