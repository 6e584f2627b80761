-- ===== src/Dataset/Order.antt =====
-- Boundaries in the sorted times of the groups: across a clear one, time moves on.
use oecophylla.Common.{
  ℕ, zero, suc, ◌-◌, ◌≤◌, ◌<◌, ◌≡◌, true, false, ◌&&◌, List, [], ◌∷◌, map, some, arith, length, ltb,
  leb, eqb, Bool-cases, inl, inr, All,
}
use oecophylla.Common.Positions.{get_elem?}
use oecophylla.Common.Sort.{IsSorted}
use oecophylla.Dataset.Rows.{SplitName, train, validation, test, RowType}
use oecophylla.Dataset.Split.{nth, straddles, Ends, choose, group_time, group_le}
use oecophylla.Dataset.Boundary.{IsClear}

-- The splits in the order of time.
abbrev pub rank : SplitName → ℕ
rank train = 0
rank validation = 1
rank test = 2

nth-lower :
    (t : ℕ) (times : List ℕ) (n : ℕ)
    → All (λ u. leb t u ≡ true) times
    → n < length times
    → t ≤ nth n times
nth-lower t [] n h k = omega arith
nth-lower t (u ∷ times) zero h k = ground (arith, h.0)
nth-lower t (u ∷ times) (suc n) h k = nth-lower t times n h.1 (omega arith)

pub nth_mono :
    (times : List ℕ) (i j : ℕ)
    → IsSorted leb times
    → i ≤ j
    → j < length times
    → nth i times ≤ nth j times
nth_mono [] i j s h k = omega arith
nth_mono (t ∷ times) zero zero s h k = omega arith
nth_mono (t ∷ times) zero (suc j) s h k = nth-lower t times j s.0 (omega arith)
nth_mono (t ∷ times) (suc i) zero s h k = omega arith
nth_mono (t ∷ times) (suc i) (suc j) s h k = nth_mono times i j s.1 (omega arith) (omega arith)

nth-lt :
    (times : List ℕ) (b i j : ℕ)
    → IsSorted leb times
    → straddles times b ≡ false
    → i < b
    → b ≤ j
    → j < length times
    → nth i times < nth j times
nth-lt times b i j s c h k l =
    let before = nth_mono times i (b - 1) s (omega arith) (omega arith) in
    let across = nth_mono times (b - 1) b s (omega arith) (omega arith) in
    let after = nth_mono times b j s (omega arith) l in
    let apart : eqb (nth (b - 1) times) (nth b times) ≡ false = ground arith in
    ground (arith, before, across, after, apart)

-- Groups of an earlier and a later split are apart in time.
pub choose-lt :
    (times : List ℕ) (e : Ends) (i j : ℕ)
    → IsSorted leb times
    → IsClear times e
    → j < length times
    → rank (choose e i) < rank (choose e j)
    → nth i times < nth j times
unfolding choose
choose-lt times e i j s c l r = elim (Bool-cases (ltb i e.train_end && leb e.train_end j)) [
  | inl h ↦ nth-lt times e.train_end i j s c.train_clear (ground (arith, h)) (ground (arith, h)) l
  | inr h ↦
      let o = c.ordered in
      let low : i < e.validation_end = ground (arith, h, r, o) in
      let high : e.validation_end ≤ j = ground (arith, h, r, o) in
      nth-lt times e.validation_end i j s c.validation_clear low high l
]

module _ {Row : Type 0} (type : RowType Row) where
  pub nth-group_time :
      (groups : List (List Row)) (n : ℕ) (group : List Row)
      → get_elem? groups n ≡ some group
      → nth n (map (group_time type) groups) ≡ group_time type group
  nth-group_time [] n group h = cc
  nth-group_time (g ∷ groups) zero group h = cc
  nth-group_time (g ∷ groups) (suc n) group h = nth-group_time groups n group h

  group_le-leb :
      (g h : List Row)
      → group_le type g h ≡ true
      → leb (group_time type g) (group_time type h) ≡ true
  unfolding group_le
  group_le-leb g h k = ground arith

  times_above :
      (group : List Row) (groups : List (List Row))
      → All (λ g. group_le type group g ≡ true) groups
      → All (λ t. leb (group_time type group) t ≡ true) (map (group_time type) groups)
  times_above group [] h = tt
  times_above group (g ∷ groups) h = (group_le-leb group g h.0, times_above group groups h.1)

  pub times-IsSorted :
      (groups : List (List Row))
      → IsSorted (group_le type) groups
      → IsSorted leb (map (group_time type) groups)
  times-IsSorted [] h = tt
  times-IsSorted (g ∷ groups) h = (times_above g groups h.0, times-IsSorted groups h.1)

  pub group_time-same :
      (t : ℕ) (r : Row) (rows : List Row)
      → All (λ s. type.served_at s ≡ t) (r ∷ rows)
      → group_time type (r ∷ rows) ≡ t
  unfolding group_time
  group_time-same t r [] h = h.0
  group_time-same t r (s ∷ rows) h = ground (arith, h.0, group_time-same t s rows h.1)
