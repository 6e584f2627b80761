-- ===== src/Paging.antt =====
-- `replay_user` and `replay_all` of workers/feature_store_worker/app/rebuild_v2.py. The tables are a type
-- `S` with the users of the queue and of the vectors; a user id is its canonical text, in the UUIDs' order.
pub mod Order
pub mod Complete
mod Tests
use oecophylla.Common.{
  ℕ, zero, suc, ◌+◌, String, Bool, true, false, not, ◌&&◌, Option, none, some, List, [], ◌∷◌, ◌++◌,
  Outcome, ok, raised, ◌>>=◌, if◌then◌else◌, keep_if, take, is_empty,
}
use oecophylla.Common.Eq.{string_eq, elem}
use oecophylla.Common.Sort.{sort}
use oecophylla.Common.Text.{str_le}

pub data ReplayError : Type 0 where
  no_source : String → ReplayError
  has_vector : String → ReplayError
  has_vectors : ReplayError
  rebuild_failed : ReplayError
  out_of_turns : ReplayError

pub record Tables (S : Type 0) : Type 0 where
  -- The users of the two tables of `PAGE_USERS_SQL`.
  pub queued : S → List String
  pub built : S → List String
  -- `has_source`
  pub has_source : S → String → Bool
  -- `_rebuild_v2_for_user`
  pub rebuild : String → S → Outcome ReplayError S

-- A `UNION` has no duplicates.
unfoldable pub union : List String → List String
union [] = []
union (u ∷ us) = let others = union us in if elem u others then others else u ∷ others

-- `$1 IS NULL OR user_id > $1`
abbrev pub is_after : Option String → String → Bool
is_after none u = true
is_after (some cursor) u = not (str_le u cursor)

-- What the loop of `replay_all` holds.
pub record Position (S : Type 0) : Type 0 where
  pub cursor : Option String
  pub rebuilt : ℕ
  pub state : S

module _ {S : Type 0} where
  abbrev pub moved : String → Position S → S → Position S
  moved user p s = record { cursor = some user; rebuilt = p.rebuilt + 1; state = s }

  abbrev pub start : S → Position S
  start s = record { cursor = none; rebuilt = 0; state = s }

module _ {S : Type 0} (tables : Tables S) where
  open tables use {queued, built, has_source, rebuild}

  -- Every user, in order.
  unfoldable pub all_users : S → List String
  all_users s = sort str_le (union (queued s ++ built s))

  -- `PAGE_USERS_SQL`
  unfoldable pub page_users : ℕ → Option String → S → List String
  page_users batch_size cursor s = take batch_size (keep_if (is_after cursor) (all_users s))

  -- `replay_user`
  unfoldable pub replay_user : Bool → String → S → Outcome ReplayError S
  replay_user replace user s =
      if not (has_source s user)
      then raised (no_source user)
      else (if elem user (built s) && not replace then raised (has_vector user) else rebuild user s)

  -- The loop over a page.
  unfoldable pub replay_page : Bool → List String → Position S → Outcome ReplayError (Position S)
  replay_page replace [] p = ok p
  replay_page replace (user ∷ users) p =
      replay_user replace user p.state >>= λ s. replay_page replace users (moved user p s)

  -- The loop over the pages, for so many turns: what it has rebuilt when a page is empty.
  unfoldable pub replay_pages : Bool → ℕ → ℕ → Position S → Outcome ReplayError (Position S)
  replay_pages replace batch_size zero p = raised out_of_turns
  replay_pages replace batch_size (suc turns) p =
      let page = page_users batch_size p.cursor p.state in
      if is_empty page
      then ok p
      else (replay_page replace page p >>= replay_pages replace batch_size turns)

  -- `replay_all`, from its check on, for so many turns.
  unfoldable pub replay_all : Bool → ℕ → ℕ → S → Outcome ReplayError (Position S)
  replay_all replace batch_size turns s =
      if not replace && not (is_empty (built s))
      then raised has_vectors
      else replay_pages replace batch_size turns (start s)
