-- ===== src/Worker/Loop.antt =====
-- A turn of `run` of main.py: polls, flushes and commits of the consumer's position, without the refresh of the
-- recent topics, which touches none of these. A crash loses the buffer, and the next start polls from
-- the committed position.
use oecophylla.Common.{
  ℕ, ◌+◌, ◌≤◌, String, ◌≡◌, refl, subst, Outcome, Bool, true, false, Option, none, some, List, [],
  ◌∷◌, ◌++◌, ok, ◌>>=◌, >>=-eq-ok, ok-injective, arith, if◌then◌else◌, length, length-append,
}
use oecophylla.Common.Int.{ℤ}
use oecophylla.Common.Float.{Arith}
use oecophylla.Common.Value.{Value}
use oecophylla.Common.Dict.{Dict}
use oecophylla.Batch.{extend_partition, extend_held, extend_records, ready}
use oecophylla.Worker.Envelope.{Crash, Library}
use oecophylla.Worker.Flush.{Applier, Flushing, flush}
use oecophylla.Worker.Account.{flush-accounts}

module _ (a : Arith) (library : Library a.F) (applier : Applier library)
    (qualified_read_ms : ℤ) where
  abbrev pub Records : Type 0
  Records = Dict String (List (Option (Value a.F)))

  -- The records with a value, by which the positions are counted.
  abbrev pub values_in : List (Option (Value a.F)) → ℕ
  values_in [] = 0
  values_in (none ∷ records) = values_in records
  values_in (some v ∷ records) = values_in records + 1

  abbrev pub records_in : Records → ℕ
  records_in [] = 0
  records_in ((partition, records) ∷ partitions) = values_in records + records_in partitions

  -- The worker, how far it has polled, and the committed position.
  pub record Run : Type 0 where
    pub worker : Flushing a library applier
    pub polled : ℕ
    pub committed : ℕ

  -- What one turn of the loop meets: the records, the two readings of the clock, and Redis.
  pub record Turn : Type 0 where
    pub records : Records
    pub checked_at : a.F
    pub drained_at : a.F
    pub redis_fails : Bool

  -- `ok = await self._flush(); if ok: await self.consumer.commit()`
  unfoldable pub flush_and_commit : a.F → Bool → Run → Outcome Crash Run
  flush_and_commit now redis_fails r =
      flush a library applier qualified_read_ms now redis_fails r.worker >>= λ (success, worker).
      ok (record {
        worker = worker;
        polled = r.polled;
        committed = if success then r.polled else r.committed;
      })

  abbrev pub poll : Records → Run → Run
  poll records r = record r {
    worker = record r.worker { buffer = extend_records records r.worker.buffer };
    polled = r.polled + records_in records;
  }

  -- The body of `while True`.
  unfoldable pub turn : Turn → Run → Outcome Crash Run
  turn t r =
      let r' = poll t.records r in
      if ready a t.checked_at r'.worker.buffer
      then flush_and_commit t.drained_at t.redis_fails r'
      else ok r'

  -- Each value polled has an outcome or is held, and the committed ones have an outcome.
  pub record IsSound (r : Run) : Type 0 where
    pub accounted : length r.worker.tally + length r.worker.buffer.held ≡ r.polled
    pub behind : r.committed ≤ length r.worker.tally

  length-extend_partition :
      (held : List (Value a.F)) (records : List (Option (Value a.F)))
      → length (extend_partition held records) ≡ length held + values_in records
  unfolding extend_partition
  length-extend_partition held [] = omega arith
  length-extend_partition held (none ∷ records) = length-extend_partition held records
  length-extend_partition held (some v ∷ records) =
      omega (arith, length-extend_partition (held ++ v ∷ []) records, length-append held (v ∷ []))

  length-extend_held :
      (partitions : Records) (held : List (Value a.F))
      → length (extend_held held partitions) ≡ length held + records_in partitions
  unfolding extend_held
  length-extend_held [] held = omega arith
  length-extend_held ((p, records) ∷ partitions) held = omega (
    arith,
    length-extend_partition held records,
    length-extend_held partitions (extend_partition held records),
  )

  pub flush_and_commit-IsSound :
      (now : a.F) (redis_fails : Bool) (r r' : Run)
      → IsSound r
      → flush_and_commit now redis_fails r ≡ ok r'
      → IsSound r'
  unfolding flush_and_commit
  flush_and_commit-IsSound now redis_fails r r' i h =
      let ((success, w), flushed, rest) =
        >>=-eq-ok (flush a library applier qualified_read_ms now redis_fails r.worker) _ h in
      let (total, up, emptied) =
        flush-accounts a library applier qualified_read_ms now redis_fails r.worker success w
          flushed in
      subst IsSound (ok-injective _ r' rest) (sound success w total up emptied.0)
    where
      sound :
          (b : Bool) (w : Flushing a library applier)
          → length w.tally + length w.buffer.held
            ≡ length r.worker.tally + length r.worker.buffer.held
          → length r.worker.tally ≤ length w.tally
          → (b ≡ true → length w.buffer.held ≡ 0)
          → IsSound (record {
            worker = w;
            polled = r.polled;
            committed = if b then r.polled else r.committed;
          })
      sound true w total up emptied = record {
        accounted = omega (arith, total, i.accounted);
        behind = omega (arith, total, i.accounted, emptied refl);
      }
      sound false w total up emptied = record {
        accounted = omega (arith, total, i.accounted);
        behind = omega (arith, up, i.behind);
      }

  pub poll-IsSound : (records : Records) (r : Run) → IsSound r → IsSound (poll records r)
  unfolding extend_records
  poll-IsSound records r i = record {
    accounted = omega (arith, i.accounted, length-extend_held records r.worker.buffer.held);
    behind = i.behind;
  }

  pub turn-IsSound : (t : Turn) (r r' : Run) → IsSound r → turn t r ≡ ok r' → IsSound r'
  unfolding turn
  turn-IsSound t r r' i h = step (ready a t.checked_at (poll t.records r).worker.buffer) h
    where
      step :
          (b : Bool)
          → (if b
              then flush_and_commit t.drained_at t.redis_fails (poll t.records r)
              else ok (poll t.records r))
            ≡ ok r'
          → IsSound r'
      step true k =
          flush_and_commit-IsSound t.drained_at t.redis_fails (poll t.records r) r'
            (poll-IsSound t.records r i) k
      step false k =
          subst IsSound (ok-injective (poll t.records r) r' k) (poll-IsSound t.records r i)
