-- ===== src/Dataset/Temporal.antt =====
-- Rows assigned by clear ends are separate in time, in whole requests, and none is lost.
use mathlib.Core.List.Permᴰ
use oecophylla.Common.{
  ℕ, ◌+◌, ◌<◌, ◌≡◌, refl, sym, ap, ◌∙◌, subst, List, [], ◌∷◌, ◌++◌, map, Memᴰ, Permᴰ, arith, All,
  All-mem, All-perm, All-append, All-append_inv, All-intro, length-map,
}
use oecophylla.Common.Eq.{string_eq}
use oecophylla.Common.Groups.{concat}
use oecophylla.Common.Positions.{get_elem?-lt, get_elem?-mem, get_elem?-position}
use oecophylla.Common.Sort.{Permᴰ-mem}
use oecophylla.Dataset.Rows.{SplitName, RowType}
use oecophylla.Dataset.Split.{
  nth, Ends, choose, group_time, group_identity, ordered_groups, assign, ids,
}
use oecophylla.Dataset.Boundary.{IsClear}
use oecophylla.Dataset.Order.{rank, choose-lt, nth-group_time, times-IsSorted, group_time-same}
use oecophylla.Dataset.Origin.{
  IsRequest, Origin, assign-Origin, Origin-mem, ordered_groups-IsSorted, ordered_groups-IsRequest,
  ordered_groups-Unique, ordered_groups-perm,
}

module _ {Row : Type 0} (type : RowType Row) where
  -- The rows of one request have one time.
  abbrev pub SameTime : List Row → Type 0
  SameTime rows =
      (r s : Row)
      → Memᴰ r rows
      → Memᴰ s rows
      → type.identity r ≡ type.identity s
      → type.served_at r ≡ type.served_at s

  module _ (rows : List Row) (e : Ends) where
    abbrev groups : List (List Row)
    groups = ordered_groups type rows

    abbrev times : List ℕ
    times = map (group_time type) groups

    request : (x : Row) (o : Origin type e 0 groups x) → IsRequest type o.group
    request x o =
        All-mem (IsRequest type) groups (ordered_groups-IsRequest type rows)
          (get_elem?-mem groups o.position o.group o.found)

    member_identity :
        (x : Row) (o : Origin type e 0 groups x) (r : Row)
        → Memᴰ r o.group
        → type.identity r ≡ group_identity type o.group
    member_identity x o r m =
        All-mem (λ s. type.identity s ≡ group_identity type o.group) o.group (request x o).same m

    Origin-identity :
        (x : Row) (o : Origin type e 0 groups x) → type.identity x ≡ group_identity type o.group
    Origin-identity x o = o.same_identity ∙ member_identity x o o.row o.member

    -- A row's time is its group's.
    Origin-time :
        (x : Row) (o : Origin type e 0 groups x)
        → SameTime rows
        → nth o.position times ≡ type.served_at x
    Origin-time x o same =
        let q = request x o in
        let equal : All (λ s. type.served_at s ≡ type.served_at o.row) o.group =
          All-intro (λ s. type.served_at s ≡ type.served_at o.row) o.group
            (λ s m.
              same s o.row (Origin-mem type e 0 rows x o s m)
                (Origin-mem type e 0 rows x o o.row o.member)
                (member_identity x o s m ∙ sym (member_identity x o o.row o.member))) in
        let t : group_time type o.group ≡ type.served_at o.row =
          subst (λ l. group_time type l ≡ type.served_at o.row) (sym q.shape)
            (group_time-same type (type.served_at o.row) q.first q.others
              (subst (λ l. All (λ s. type.served_at s ≡ type.served_at o.row) l) q.shape equal)) in
        nth-group_time type groups o.position o.group o.found ∙ t ∙ sym o.same_time

    origin : (x : Row) → Memᴰ x (assign type e 0 groups) → Origin type e 0 groups x
    origin x m =
        All-mem (Origin type e 0 groups) (assign type e 0 groups) (assign-Origin type e 0 groups) m

    Origin-split : (x : Row) (o : Origin type e 0 groups x) → type.split_of x ≡ choose e o.position
    Origin-split x o = o.chosen ∙ ap (choose e) (omega arith)

    assign-lt :
        (x y : Row)
        → IsClear times e
        → SameTime rows
        → Memᴰ x (assign type e 0 groups)
        → Memᴰ y (assign type e 0 groups)
        → rank (type.split_of x) < rank (type.split_of y)
        → type.served_at x < type.served_at y
    assign-lt x y c same mx my h =
        let o = origin x mx in
        let p = origin y my in
        let l =
          choose-lt times e o.position p.position
            (times-IsSorted type groups (ordered_groups-IsSorted type rows)) c
            (omega (
              arith,
              length-map (group_time type) groups,
              get_elem?-lt groups p.position p.group p.found,
            ))
            (subst (λ s. rank s < rank (choose e p.position)) (Origin-split x o)
              (subst (λ s. rank (type.split_of x) < rank s) (Origin-split y p) h)) in
        omega (arith, l, Origin-time x o same, Origin-time y p same)

    assign-atomic :
        (x y : Row)
        → Memᴰ x (assign type e 0 groups)
        → Memᴰ y (assign type e 0 groups)
        → type.identity x ≡ type.identity y
        → type.split_of x ≡ type.split_of y
    assign-atomic x y mx my h =
        let o = origin x mx in
        let p = origin y my in
        let q =
          get_elem?-position (group_identity type) groups o.position p.position o.group p.group
            (ordered_groups-Unique type rows) o.found p.found
            (sym (Origin-identity x o) ∙ h ∙ Origin-identity y p) in
        Origin-split x o ∙ ap (choose e) q ∙ sym (Origin-split y p)

  ids_of_group :
      (s : SplitName) (group rest : List Row)
      → ids type (map (type.with_split s) group ++ rest) ≡ ids type group ++ ids type rest
  ids_of_group s [] rest = refl
  ids_of_group s (r ∷ group) rest = cc (type.sample_id-with_split s r, ids_of_group s group rest)

  ids-append : (xs ys : List Row) → ids type (xs ++ ys) ≡ ids type xs ++ ids type ys
  ids-append [] ys = refl
  ids-append (x ∷ xs) ys = cc (ids-append xs ys)

  ids_of_assign :
      (e : Ends) (index : ℕ) (groups : List (List Row))
      → ids type (assign type e index groups) ≡ ids type (concat groups)
  unfolding assign
  ids_of_assign e index [] = refl
  ids_of_assign e index (group ∷ groups) =
      ids_of_group (choose e index) group (assign type e (index + 1) groups)
      ∙ ap (λ l. ids type group ++ l) (ids_of_assign e (index + 1) groups)
      ∙ sym (ids-append group (concat groups))

  assign-perm :
      (e : Ends) (rows : List Row)
      → Permᴰ (ids type (assign type e 0 (ordered_groups type rows))) (ids type rows)
  assign-perm e rows =
      subst (λ l. Permᴰ l (ids type rows)) (sym (ids_of_assign e 0 (ordered_groups type rows)))
        (Permᴰ.map type.sample_id (ordered_groups-perm type rows))

  -- A result that the ends of its splits describe.
  pub record Shape (rows result : List Row) : Type 0 where
    pub ends : Ends
    pub clear : IsClear (map (group_time type) (ordered_groups type rows)) ends
    pub assigned : Permᴰ result (assign type ends 0 (ordered_groups type rows))

  module _ {κ} (P : Row → Type κ)
      (stable : (s : SplitName) (r : Row) → P r → P (type.with_split s r)) where
    map-All : (s : SplitName) (rows : List Row) → All P rows → All P (map (type.with_split s) rows)
    map-All s [] h = tt
    map-All s (r ∷ rows) h = (stable s r h.0, map-All s rows h.1)

    assign-All :
        (e : Ends) (index : ℕ) (groups : List (List Row))
        → All P (concat groups)
        → All P (assign type e index groups)
    unfolding assign
    assign-All e index [] h = tt
    assign-All e index (group ∷ groups) h =
        let (first, others) = All-append_inv P group (concat groups) h in
        All-append P (map (type.with_split (choose e index)) group)
          (assign type e (index + 1) groups) (map-All (choose e index) group first)
          (assign-All e (index + 1) groups others)

    -- What a change of split keeps holds of the result if it holds of the rows.
    pub Shape-All : (rows result : List Row) → Shape rows result → All P rows → All P result
    Shape-All rows result h k = All-perm P (Permᴰ.symm h.assigned) (
        assign-All h.ends 0 (ordered_groups type rows)
          (All-perm P (Permᴰ.symm (ordered_groups-perm type rows)) k))

  module _ (rows result : List Row) (h : Shape rows result) where
    pub Shape-lt :
        (x y : Row)
        → SameTime rows
        → Memᴰ x result
        → Memᴰ y result
        → rank (type.split_of x) < rank (type.split_of y)
        → type.served_at x < type.served_at y
    Shape-lt x y same mx my =
        let back = Permᴰ.symm h.assigned in
        assign-lt rows h.ends x y h.clear same (Permᴰ-mem back mx) (Permᴰ-mem back my)

    pub Shape-atomic :
        (x y : Row)
        → Memᴰ x result
        → Memᴰ y result
        → type.identity x ≡ type.identity y
        → type.split_of x ≡ type.split_of y
    Shape-atomic x y mx my =
        let back = Permᴰ.symm h.assigned in
        assign-atomic rows h.ends x y (Permᴰ-mem back mx) (Permᴰ-mem back my)

    pub Shape-perm : Permᴰ (ids type result) (ids type rows)
    Shape-perm = Permᴰ.trans (Permᴰ.map type.sample_id h.assigned) (assign-perm h.ends rows)
