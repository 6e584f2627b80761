-- ===== src/Worker/Backfill.antt =====
-- `_backfill_v2` of main.py: the users with rows in `behavior_events` and no vector of the second version,
-- rebuilt in batches until there is none.
use oecophylla.Common.{
  ℕ, zero, suc, String, Bool, not, ◌&&◌, List, [], ◌∷◌, Outcome, ok, raised, ◌>>=◌, as_error,
  if◌then◌else◌, keep_if, take, is_empty, max,
}
use oecophylla.Common.Dict.{keys, contains}
use oecophylla.Common.Eq.{string_eq}
use oecophylla.Common.Float.{Arith}
use oecophylla.Common.Keys.{by, number_key, text_key, always}
use oecophylla.Common.Sort.{sort}
use oecophylla.Worker.Store.{Store, Row, rows_of}
use oecophylla.Worker.Apply.{ApplyError, Config}
use oecophylla.Worker.Rebuild.{rebuild_v2_for_user}

pub data BackfillError : Type 0 where
  failed : ApplyError → BackfillError
  out_of_turns : BackfillError

-- `MAX(occurred_at)`
abbrev pub last_event_at : List Row → ℕ
last_event_at [] = 0
last_event_at (r ∷ rows) = max r.occurred_at (last_event_at rows)

module _ {F : Type 0} where
  -- A user of the view without a vector.
  abbrev pub is_pending : Store F → String → Bool
  is_pending s user = not (is_empty (rows_of user s)) && not (contains user s.vectors)

  unfoldable pub pending : Store F → List String
  pending s = keep_if (is_pending s) (keys s.behavior)

  unfoldable pub queue_le : Store F → String → String → Bool
  queue_le s = by number_key (λ u. last_event_at (rows_of u s)) (by text_key (λ u. u) always)

  -- The query of a batch.
  unfoldable pub next_batch : ℕ → Store F → List String
  next_batch size s = take size (sort (queue_le s) (pending s))

module _ (a : Arith) (cfg : Config a) where
  -- The loop over a batch.
  unfoldable pub backfill_users : List String → Store a.F → Outcome BackfillError (Store a.F)
  backfill_users [] s = ok s
  backfill_users (user ∷ users) s =
      as_error failed (rebuild_v2_for_user a cfg user s) >>= λ r. backfill_users users r.0

  -- `_backfill_v2`, for so many turns.
  unfoldable pub backfill_v2 : ℕ → ℕ → Store a.F → Outcome BackfillError (Store a.F)
  backfill_v2 size zero s = raised out_of_turns
  backfill_v2 size (suc turns) s =
      let batch = next_batch size s in
      if is_empty batch then ok s else (backfill_users batch s >>= backfill_v2 size turns)
