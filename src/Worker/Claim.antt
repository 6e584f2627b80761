-- ===== src/Worker/Claim.antt =====
-- The receipts of main.py: how `_apply_for_user` divides a user's batch into first and repeated
-- events, and what `CLAIM_RECEIPTS_SQL` inserts and returns.
use oecophylla.Common.{String, Bool, false, none, some, List, [], ◌∷◌, ◌++◌, if◌then◌else◌}
use oecophylla.Common.Value.{Fields}
use oecophylla.Common.Eq.{string_eq, elem}
use oecophylla.Worker.Envelope.{Library, event_id}

-- The rows that an insertion of ids adds, `ON CONFLICT (event_id) DO NOTHING`: the table after it,
-- and the ids returned.
unfoldable pub claim : List String → List String → List String × List String
claim receipts [] = (receipts, [])
claim receipts (id ∷ ids) =
    let present = elem id receipts in
    let (receipts', claimed) = claim (if present then receipts else id ∷ receipts) ids in
    (receipts', if present then claimed else id ∷ claimed)

-- The variables of the loop that looks for duplicates within the batch.
pub record Split (F : Type 0) : Type 0 where
  pub unique : List (Fields F)
  pub duplicate : List (Fields F)
  pub seen_ids : List String

abbrev pub no_split : {F : Type 0} → Split F
no_split = record { unique = []; duplicate = []; seen_ids = [] }

module _ {F : Type 0} (library : Library F) where
  unfoldable pub split_one : Fields F → Split F → Split F
  split_one env s = elim (event_id library env) [
    | none ↦ s
    | some id ↦
        if elem id s.seen_ids
        then record s { duplicate = s.duplicate ++ env ∷ [] }
        else record s { unique = s.unique ++ env ∷ []; seen_ids = id ∷ s.seen_ids }
  ]

  unfoldable pub split_batch : Split F → List (Fields F) → Split F
  split_batch s [] = s
  split_batch s (env ∷ envs) = split_batch (split_one env s) envs

  -- `[_event_id(env) for env in events]`, of the events that have one.
  abbrev pub ids : List (Fields F) → List String
  ids [] = []
  ids (env ∷ envs) = elim (event_id library env) [ none ↦ ids envs | some id ↦ id ∷ ids envs ]

  -- `str(_event_id(env)) in claimed_ids`
  unfoldable pub is_claimed : List String → Fields F → Bool
  is_claimed claimed env = elim (event_id library env) [ none ↦ false | some id ↦ elem id claimed ]
