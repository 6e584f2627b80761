-- ===== src/Dataset/Splits.antt =====
-- `_split_rows` and `_split_ranking_rows` assign by clear ends; the assertion of the first always holds.
use mathlib.Core.List.Permᴰ
use oecophylla.Common.{
  ℕ, ◌+◌, ◌<◌, ◌≡◌, refl, sym, ap, ◌∙◌, subst, String, true, false, ◌&&◌, not, List, [], ◌∷◌, ◌++◌,
  map, Memᴰ, Permᴰ, ok, arith, inl, inr, Bool-cases, if◌then◌else◌, length, any, eqb_iff, eqb_iff,
}
use oecophylla.Common.Float.{Arith}
use oecophylla.Common.Eq.{string_eq, ◌==◌}
use oecophylla.Common.Positions.{any-none}
use oecophylla.Common.Sort.{sort-perm}
use oecophylla.Dataset.Rows.{SplitName, train, validation, test, RowType}
use oecophylla.Dataset.Split.{
  Ends, choose, group_time, ordered_groups, assign, split_at, split_rows, split_groups,
  split_ranking_groups, split_ranking_rows, snapped_ends, balanced_ends, ends_for, occurrences,
  differs, crossed, ids, assert_atomic_request_splits, split_eq,
}
use oecophylla.Dataset.Boundary.{IsClear, snapped_ends-IsClear, balanced_ends-IsClear}
use oecophylla.Dataset.Order.{rank}
use oecophylla.Dataset.Temporal.{SameTime, Shape, Shape-lt, Shape-atomic, Shape-perm}

occurrences-perm :
    (s : String) {xs ys : List String} → Permᴰ xs ys → occurrences s xs ≡ occurrences s ys
occurrences-perm s Permᴰ.nil = refl
occurrences-perm s (Permᴰ.cons {b = b} e p) =
    rw e (ap (λ (n : ℕ). if b == s then n + 1 else n) (occurrences-perm s p))
occurrences-perm s (Permᴰ.swap d e) = rw d (rw e (ground arith))
occurrences-perm s (Permᴰ.trans p q) = occurrences-perm s p ∙ occurrences-perm s q

split_eq_self : (s : SplitName) → split_eq s s ≡ true
split_eq_self train = refl
split_eq_self validation = refl
split_eq_self test = refl

module _ {Row : Type 0} (type : RowType Row) where
  -- The assertion of `_split_rows` holds.
  atomic_holds :
      (rows result : List Row)
      → Shape type rows result
      → assert_atomic_request_splits type rows result ≡ ok result
  unfolding assert_atomic_request_splits
  atomic_holds rows result h =
      let kept : any (differs type rows result) (ids type rows ++ ids type result) ≡ false =
        any-none (differs type rows result) (ids type rows ++ ids type result) (λ s m. ap not (
          (eqb_iff (occurrences s (ids type rows)) (occurrences s (ids type result))).1
            (sym (occurrences-perm s (Shape-perm type rows result h))))) in
      let whole : any (crossed type result) result ≡ false =
        any-none (crossed type result) result (λ x mx.
          any-none
            (λ s.
              (type.identity s == type.identity x)
              && not (split_eq (type.split_of s) (type.split_of x)))
            result
            (λ y my. elim (Bool-cases (type.identity y == type.identity x)) [
              | inl q ↦
                  let t =
                    Shape-atomic type rows result h y x my mx
                      ((string_eq.beq_iff (type.identity y) (type.identity x)).0 q) in
                  rw q (
                    ap not (
                      subst (λ t. split_eq (type.split_of y) t ≡ true) t
                        (split_eq_self (type.split_of y))))
              | inr q ↦ rw q refl
            ])) in
      rw kept (rw whole refl)

  split_at-Shape :
      (rows : List Row) (groups : List (List Row)) (e : Ends)
      → ordered_groups type rows ≡ groups
      → IsClear (map (group_time type) groups) e
      → Shape type rows (split_at type e groups)
  unfolding split_at
  split_at-Shape rows groups e h c = record {
    ends = e;
    clear = rw h c;
    assigned = rw h (sort-perm type.row_le (assign type e 0 groups));
  }

  empty-Shape : (rows : List Row) → ordered_groups type rows ≡ [] → Shape type rows []
  unfolding assign
  empty-Shape rows h = record {
    ends = record { train_end = 0; validation_end = 0 };
    clear = record { train_clear = refl; validation_clear = refl; ordered = omega arith };
    assigned = rw h Permᴰ.nil;
  }

  single-Shape :
      (rows group : List Row)
      → ordered_groups type rows ≡ group ∷ []
      → Shape type rows (map (type.with_split train) group)
  unfolding assign choose
  single-Shape rows group h = record {
    ends = record { train_end = 1; validation_end = 1 };
    clear = rw h (record { train_clear = refl; validation_clear = refl; ordered = omega arith });
    assigned = rw h (Permᴰ.symm (Permᴰ.append-nil (map (type.with_split train) group)));
  }

  module _ (a : Arith) (train_fraction validation_fraction : a.F) where
    split_groups-Shape :
        (rows : List Row) (groups : List (List Row))
        → ordered_groups type rows ≡ groups
        → (result : List Row) × (split_groups type a train_fraction validation_fraction rows groups
            ≡ ok result)
          × Shape type rows result
    unfolding split_groups
    split_groups-Shape rows [] h = ([], refl, empty-Shape rows h)
    split_groups-Shape rows (group ∷ []) h =
        (map (type.with_split train) group, refl, single-Shape rows group h)
    split_groups-Shape rows (first ∷ second ∷ others) h =
        let groups = first ∷ second ∷ others in
        let ends = ends_for a train_fraction validation_fraction (length groups) in
        let e = snapped_ends (map (group_time type) groups) ends in
        let s =
          split_at-Shape rows groups e h
            (snapped_ends-IsClear (map (group_time type) groups) ends) in
        (split_at type e groups, atomic_holds rows (split_at type e groups) s, s)

    split_ranking_groups-Shape :
        (rows : List Row) (groups : List (List Row))
        → ordered_groups type rows ≡ groups
        → Shape type rows (split_ranking_groups type a train_fraction validation_fraction groups)
    unfolding split_ranking_groups
    split_ranking_groups-Shape rows [] h = empty-Shape rows h
    split_ranking_groups-Shape rows (group ∷ []) h = single-Shape rows group h
    split_ranking_groups-Shape rows (first ∷ second ∷ others) h =
        let groups = first ∷ second ∷ others in
        let ends = ends_for a train_fraction validation_fraction (length groups) in
        split_at-Shape rows groups (balanced_ends (map (group_time type) groups) ends) h
          (balanced_ends-IsClear (map (group_time type) groups) ends)

    pub split_rows-Shape :
        (rows : List Row)
        → (result : List Row) × (split_rows type a train_fraction validation_fraction rows
            ≡ ok result)
          × Shape type rows result
    unfolding split_rows
    split_rows-Shape rows = split_groups-Shape rows (ordered_groups type rows) refl

    pub split_ranking_rows-Shape :
        (rows : List Row)
        → Shape type rows (split_ranking_rows type a train_fraction validation_fraction rows)
    unfolding split_ranking_rows
    split_ranking_rows-Shape rows = split_ranking_groups-Shape rows (ordered_groups type rows) refl

    -- `_split_ranking_rows`, on rows whose requests have one time each: a row of an earlier split was served
    -- strictly before every row of a later split.
    pub split_ranking_rows-lt :
        (rows : List Row) (x y : Row)
        → SameTime type rows
        → Memᴰ x (split_ranking_rows type a train_fraction validation_fraction rows)
        → Memᴰ y (split_ranking_rows type a train_fraction validation_fraction rows)
        → rank (type.split_of x) < rank (type.split_of y)
        → type.served_at x < type.served_at y
    split_ranking_rows-lt rows x y =
        Shape-lt type rows (split_ranking_rows type a train_fraction validation_fraction rows)
          (split_ranking_rows-Shape rows) x y

    -- `_split_ranking_rows` returns the rows it is given, by their sample ids, each once.
    pub split_ranking_rows-perm :
        (rows : List Row)
        → Permᴰ
            (map type.sample_id (split_ranking_rows type a train_fraction validation_fraction rows))
            (map type.sample_id rows)
    split_ranking_rows-perm rows =
        Shape-perm type rows (split_ranking_rows type a train_fraction validation_fraction rows)
          (split_ranking_rows-Shape rows)

    -- `_split_ranking_rows` leaves the rows of one request in one split.
    pub split_ranking_rows-atomic :
        (rows : List Row) (x y : Row)
        → Memᴰ x (split_ranking_rows type a train_fraction validation_fraction rows)
        → Memᴰ y (split_ranking_rows type a train_fraction validation_fraction rows)
        → type.identity x ≡ type.identity y
        → type.split_of x ≡ type.split_of y
    split_ranking_rows-atomic rows x y =
        Shape-atomic type rows (split_ranking_rows type a train_fraction validation_fraction rows)
          (split_ranking_rows-Shape rows) x y
