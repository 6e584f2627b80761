-- ===== src/Batch.antt =====
-- workers/common/oecophylla_worker_common/kafka.py: `MicroBatchBuffer`. A method that reads the
-- clock takes the reading as an argument; the batch size is a natural number, since the
-- constructor refuses the others.
use oecophylla.Common.{
  ℕ, Bool, ◌&&◌, ◌||◌, not, Option, none, some, List, [], ◌∷◌, ◌++◌, Outcome, ok, raised,
  if◌then◌else◌, ltb, leb, length, is_empty,
}
use oecophylla.Common.Int.{ℤ, pos, ltb_ℤ}
use oecophylla.Common.Float.{Arith, whole, zero_f}
use oecophylla.Common.Dict.{Dict}

pub data BatchError : Type 0 where
  batch_size_below_one interval_not_positive : BatchError

-- `flush_interval` is `flush_interval_seconds`.
pub record Buffer (F A : Type 0) : Type 0 where
  pub batch_size : ℕ
  pub flush_interval : F
  pub held : List A
  pub last_flush : F

module _ {A : Type 0} where
  -- The values of the records, partition by partition, that are not `None`.
  unfoldable pub extend_partition : List A → List (Option A) → List A
  extend_partition held [] = held
  extend_partition held (none ∷ records) = extend_partition held records
  extend_partition held (some value ∷ records) = extend_partition (held ++ value ∷ []) records

  unfoldable pub extend_held : {K : Type 0} → List A → Dict K (List (Option A)) → List A
  unfolding extend_partition
  extend_held held [] = held
  extend_held held ((k, records) ∷ partitions) =
      extend_held (extend_partition held records) partitions

module _ {F A : Type 0} where
  unfoldable pub extend_records : {K : Type 0} → Dict K (List (Option A)) → Buffer F A → Buffer F A
  extend_records partitions b = record b { held = extend_held b.held partitions }

  unfoldable pub extend_values : List A → Buffer F A → Buffer F A
  extend_values values b = record b { held = b.held ++ values }

  unfoldable pub replace : List A → Buffer F A → Buffer F A
  replace values b = record b { held = values }

  unfoldable pub prepend : List A → Buffer F A → Buffer F A
  prepend values b = record b { held = values ++ b.held }

  unfoldable pub touch : F → Buffer F A → Buffer F A
  touch now b = record b { last_flush = now }

  -- `drain`: the held values, and the emptied buffer with the clock read.
  unfoldable pub drain : F → Buffer F A → List A × Buffer F A
  unfolding touch
  drain now b = (b.held, touch now (record b { held = [] }))

module _ (a : Arith) {A : Type 0} where
  open a use {F, sub, mul, le, trunc}

  -- `__init__`
  unfoldable pub make : ℕ → F → F → Outcome BatchError (Buffer F A)
  make batch_size interval now =
      if ltb batch_size 1
      then raised batch_size_below_one
      else (if le interval (zero_f a)
          then raised interval_not_positive
          else ok (record {
            batch_size = batch_size;
            flush_interval = interval;
            held = [];
            last_flush = now;
          }))

  -- `timeout_ms`
  unfoldable pub timeout_ms : Buffer F A → ℤ
  timeout_ms b =
      let ms = trunc (mul b.flush_interval (whole a 1000)) in if ltb_ℤ (pos 1) ms then ms else pos 1

  -- `ready`, with the clock read only if the buffer is neither empty nor full.
  unfoldable pub ready : F → Buffer F A → Bool
  ready now b =
      not (is_empty b.held)
      && (leb b.batch_size (length b.held) || le b.flush_interval (sub now b.last_flush))
