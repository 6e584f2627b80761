-- ===== src/Dataset/Split.antt =====
-- `_split_rows`, `_split_ranking_rows` and `_snap_split_boundary` of build_dataset.py: whole requests,
-- in the order of time, and boundaries that no two requests of one time straddle.
use oecophylla.Common.{
  ℕ, zero, suc, ◌+◌, ◌-◌, String, Bool, true, false, ◌&&◌, not, List, [], ◌∷◌, ◌++◌, map, Outcome,
  ok, raised, if◌then◌else◌, length, any, eqb, ltb, leb, max,
}
use oecophylla.Common.Int.{pos_part}
use oecophylla.Common.Float.{Arith, whole}
use oecophylla.Common.Dict.{values}
use oecophylla.Common.Groups.{group_by}
use oecophylla.Common.Eq.{string_eq, ◌==◌}
use oecophylla.Common.Keys.{by, text_key, number_key, always}
use oecophylla.Common.Sort.{sort}
use oecophylla.Dataset.Rows.{SplitName, train, validation, test, RowType}

-- `list[i]`, 0 out of range, which the loops rule out before they read.
abbrev pub nth : ℕ → List ℕ → ℕ
nth n [] = 0
nth zero (t ∷ ts) = t
nth (suc n) (t ∷ ts) = nth n ts

-- Whether the groups on the two sides of a boundary have one time.
abbrev pub straddles : List ℕ → ℕ → Bool
straddles times k = ltb 0 k && (ltb k (length times) && eqb (nth (k - 1) times) (nth k times))

-- `while lowest < k < n and times[k - 1] == times[k]: k -= 1`
unfoldable pub snap_down : ℕ → List ℕ → ℕ → ℕ
snap_down lowest times zero = zero
snap_down lowest times (suc k) =
    let lower = snap_down lowest times k in
    if ltb lowest (suc k) && straddles times (suc k) then lower else suc k

-- `while 0 < k < n and times[k - 1] == times[k]: k += 1`, for so many turns.
unfoldable pub snap_up : List ℕ → ℕ → ℕ → ℕ
snap_up times zero k = k
snap_up times (suc turns) k =
    let higher = snap_up times turns (suc k) in if straddles times k then higher else k

-- `prefer_non_empty_side`
pub data Side : Type 0 where
  left right : Side

-- `score` of a candidate: the tuple without its last part, the signs turned so that less is better.
unfoldable pub empty_sides : ℕ → ℕ → ℕ
empty_sides group_count candidate =
    (if ltb 0 candidate then 0 else 1) + (if ltb candidate group_count then 0 else 1)

unfoldable pub preferred_empty : Side → ℕ → ℕ → ℕ
preferred_empty left group_count candidate = if ltb 0 candidate then 0 else 1
preferred_empty right group_count candidate = if ltb candidate group_count then 0 else 1

abbrev distance : ℕ → ℕ → ℕ
distance a b = (a - b) + (b - a)

-- Whether `score(x) <= score(y)`.
unfoldable pub score_le : Side → ℕ → ℕ → ℕ → ℕ → Bool
score_le side group_count boundary = by number_key (empty_sides group_count) (
    by number_key (preferred_empty side group_count)
      (by number_key (λ c. distance c boundary) (by number_key (λ c. c) always)))

-- `_snap_split_boundary`
unfoldable pub snap_split_boundary : ℕ → List ℕ → Side → ℕ
snap_split_boundary boundary times side =
    let group_count = length times in
    let low = snap_down 0 times boundary in
    let high = snap_up times (group_count - boundary) boundary in
    if leb boundary 0
    then 0
    else (if leb group_count boundary
        then group_count
        else (if not (straddles times boundary)
            then boundary
            else (if score_le side group_count boundary low high then low else high)))

-- The numbers of test and validation groups, from the fractions.
module _ (a : Arith) where
  -- `max(1, round(count * fraction))`
  abbrev share_of : ℕ → a.F → ℕ
  share_of count fraction = max 1 (pos_part (a.trunc (a.round (a.mul (whole a count) fraction) 0)))

  unfoldable pub test_count : a.F → a.F → ℕ → ℕ
  test_count train_fraction validation_fraction count =
      share_of count (a.sub (a.sub (whole a 1) train_fraction) validation_fraction)

  unfoldable pub validation_count : a.F → a.F → ℕ → ℕ
  validation_count train_fraction validation_fraction count =
      let tests = test_count train_fraction validation_fraction count in
      let wanted = if leb 3 count then share_of count validation_fraction else 0 in
      if leb count (tests + wanted) then count - tests - 1 else wanted

-- The ends of the train and the validation groups.
pub record Ends : Type 0 where
  pub train_end : ℕ
  pub validation_end : ℕ

-- The ends before they are snapped. A negative training end of the source acts as 0 does here.
abbrev pub ends_of : ℕ → ℕ → ℕ → Ends
ends_of count validations tests =
    let t = count - validations - tests in
    record { train_end = t; validation_end = t + validations }

-- The ends that the fractions give.
abbrev pub ends_for : (a : Arith) → a.F → a.F → ℕ → Ends
ends_for a train_fraction validation_fraction count =
    ends_of count (validation_count a train_fraction validation_fraction count)
      (test_count a train_fraction validation_fraction count)

-- The loops of `_split_rows`.
unfoldable pub snapped_ends : List ℕ → Ends → Ends
snapped_ends times e =
    let t = snap_down 0 times e.train_end in
    record { train_end = t; validation_end = max t (snap_down t times e.validation_end) }

-- The calls of `_split_ranking_rows`.
unfoldable pub balanced_ends : List ℕ → Ends → Ends
balanced_ends times e =
    let t = snap_split_boundary e.train_end times left in
    record {
      train_end = t;
      validation_end = max t (snap_split_boundary e.validation_end times right);
    }

-- The split of the group with an index.
unfoldable pub choose : Ends → ℕ → SplitName
choose e index =
    if ltb index e.train_end
    then train
    else (if ltb index e.validation_end then validation else test)

pub data SplitError : Type 0 where
  candidate_dropped request_crossed : SplitError

-- `Counter(...)`, by the number of each element
abbrev pub occurrences : String → List String → ℕ
occurrences s [] = 0
occurrences s (t ∷ ts) = if t == s then occurrences s ts + 1 else occurrences s ts

abbrev pub split_eq : SplitName → SplitName → Bool
split_eq train train = true
split_eq validation validation = true
split_eq test test = true
split_eq _ _ = false

module _ {Row : Type 0} (type : RowType Row) where
  open type use {identity, served_at, sample_id, split_of, with_split, row_le}

  -- `min(candidate.served_at for candidate in candidates)`; a group is never empty.
  unfoldable pub group_time : List Row → ℕ
  group_time [] = 0
  group_time (r ∷ []) = served_at r
  group_time (r ∷ s ∷ rows) =
      let later = group_time (s ∷ rows) in if ltb later (served_at r) then later else served_at r

  -- `candidates[0].audit_request_identity`
  abbrev pub group_identity : List Row → String
  group_identity [] = ""
  group_identity (r ∷ rows) = identity r

  unfoldable pub group_le : List Row → List Row → Bool
  group_le = by number_key group_time (by text_key group_identity always)

  unfoldable pub ordered_groups : List Row → List (List Row)
  ordered_groups rows = sort group_le (values (group_by identity rows))

  -- The loop that replaces the splits, from an index.
  unfoldable pub assign : Ends → ℕ → List (List Row) → List Row
  assign e index [] = []
  assign e index (group ∷ groups) =
      map (with_split (choose e index)) group ++ assign e (index + 1) groups

  abbrev pub ids : List Row → List String
  ids rows = map sample_id rows

  abbrev pub differs : List Row → List Row → String → Bool
  differs xs ys s = not (eqb (occurrences s (ids xs)) (occurrences s (ids ys)))

  -- Two rows of one request with different splits.
  abbrev pub crossed : List Row → Row → Bool
  crossed rows r =
      any (λ s. (identity s == identity r) && not (split_eq (split_of s) (split_of r))) rows

  -- `_assert_atomic_request_splits`
  unfoldable pub assert_atomic_request_splits : List Row → List Row → Outcome SplitError (List Row)
  assert_atomic_request_splits source_rows split_rows =
      if any (differs source_rows split_rows) (ids source_rows ++ ids split_rows)
      then raised candidate_dropped
      else (if any (crossed split_rows) split_rows then raised request_crossed else ok split_rows)

  -- The rows of several groups, with the ends of the splits.
  unfoldable pub split_at : Ends → List (List Row) → List Row
  split_at e groups = sort row_le (assign e 0 groups)

  module _ (a : Arith) where
    -- `_split_rows`, from the ordered groups.
    unfoldable pub split_groups :
        a.F → a.F → List Row → List (List Row) → Outcome SplitError (List Row)
    split_groups train_fraction validation_fraction rows [] = ok []
    split_groups train_fraction validation_fraction rows (group ∷ []) =
        ok (map (with_split train) group)
    split_groups train_fraction validation_fraction rows (first ∷ second ∷ others) =
        let groups = first ∷ second ∷ others in
        let ends = ends_for a train_fraction validation_fraction (length groups) in
        assert_atomic_request_splits rows
          (split_at (snapped_ends (map group_time groups) ends) groups)

    -- `_split_rows`
    unfoldable pub split_rows : a.F → a.F → List Row → Outcome SplitError (List Row)
    split_rows train_fraction validation_fraction rows =
        split_groups train_fraction validation_fraction rows (ordered_groups rows)

    -- `_split_ranking_rows`, from the ordered groups.
    unfoldable pub split_ranking_groups : a.F → a.F → List (List Row) → List Row
    split_ranking_groups train_fraction validation_fraction [] = []
    split_ranking_groups train_fraction validation_fraction (group ∷ []) =
        map (with_split train) group
    split_ranking_groups train_fraction validation_fraction (first ∷ second ∷ others) =
        let groups = first ∷ second ∷ others in
        let ends = ends_for a train_fraction validation_fraction (length groups) in
        split_at (balanced_ends (map group_time groups) ends) groups

    -- `_split_ranking_rows`
    unfoldable pub split_ranking_rows : a.F → a.F → List Row → List Row
    split_ranking_rows train_fraction validation_fraction rows =
        split_ranking_groups train_fraction validation_fraction (ordered_groups rows)
