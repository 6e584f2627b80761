-- ===== src/Dataset/Origin.antt =====
-- Where the rows of a split come from: a request's group, at a position in the order of time.
use mathlib.Core.List.Permᴰ
use oecophylla.Common.{
  ℕ, suc, ◌+◌, ◌≡◌, refl, sym, ap, ◌∙◌, subst, String, List, [], ◌∷◌, ◌++◌, map, Memᴰ, Permᴰ, some,
  arith, All, All-append, All-map_weaken, inl, inr, ◌⊎◌,
}
use oecophylla.Common.Dict.{Dict, values, keys}
use oecophylla.Common.Eq.{string_eq}
use oecophylla.Common.Groups.{
  concat, concat-perm, group_by, group_by-perm, IsGroup, Grouped, group_from-Grouped,
  group_from-Unique,
}
use oecophylla.Common.Positions.{get_elem?, get_elem?-mem}
use oecophylla.Common.Sort.{sort-perm, sort-All, IsSorted, sort-IsSorted, IsOrder, Permᴰ-mem}
use oecophylla.Common.Keys.{by, by-IsOrder, number_key, text_key, always, always-IsOrder}
use oecophylla.Common.Unique.{Unique, Unique-perm}
use oecophylla.Dataset.Rows.{RowType}
use oecophylla.Dataset.Split.{
  Ends, choose, assign, group_time, group_identity, group_le, ordered_groups,
}

module _ {ℓ} {A : Type ℓ} where
  mem-append_cases : {x : A} (xs ys : List A) → Memᴰ x (xs ++ ys) → Memᴰ x xs ⊎ Memᴰ x ys
  mem-append_cases [] ys m = inr m
  mem-append_cases (y ∷ xs) ys (Memᴰ.head e) = inl (Memᴰ.head e)
  mem-append_cases (y ∷ xs) ys (Memᴰ.tail m) = elim (mem-append_cases xs ys m) [
    | inl k ↦ inl (Memᴰ.tail k)
    | inr k ↦ inr k
  ]

  mem-append_left : {x : A} (xs ys : List A) → Memᴰ x xs → Memᴰ x (xs ++ ys)
  mem-append_left [] ys m = elim m [ ]
  mem-append_left (y ∷ xs) ys (Memᴰ.head e) = Memᴰ.head e
  mem-append_left (y ∷ xs) ys (Memᴰ.tail m) = Memᴰ.tail (mem-append_left xs ys m)

  mem-append_right : {x : A} (xs ys : List A) → Memᴰ x ys → Memᴰ x (xs ++ ys)
  mem-append_right [] ys m = m
  mem-append_right (y ∷ xs) ys m = Memᴰ.tail (mem-append_right xs ys m)

  mem-concat :
      {x : A} (xs : List A) (xss : List (List A)) → Memᴰ x xs → Memᴰ xs xss → Memᴰ x (concat xss)
  mem-concat xs [] m n = elim n [ ]
  mem-concat {x} xs (ys ∷ xss) m (Memᴰ.head e) =
      mem-append_left ys (concat xss) (subst (λ l. Memᴰ x l) e m)
  mem-concat xs (ys ∷ xss) m (Memᴰ.tail n) =
      mem-append_right ys (concat xss) (mem-concat xs xss m n)

module _ {Row : Type 0} (type : RowType Row) where
  -- All rows of a group have the group's request, and there is one.
  pub record IsRequest (group : List Row) : Type 0 where
    pub first : Row
    pub others : List Row
    pub shape : group ≡ first ∷ others
    pub same : All (λ r. type.identity r ≡ group_identity type group) group

  IsRequest-of_group :
      (k : String) (group : List Row)
      → IsGroup type.identity k group
      → IsRequest group × (group_identity type group ≡ k)
  IsRequest-of_group k group g =
      let named : group_identity type group ≡ k =
        subst (λ l. group_identity type l ≡ k) (sym g.shape)
          ((subst (λ l. All (λ x. type.identity x ≡ k) l) g.shape g.keyed).0) in
      (
        record {
          first = g.head;
          others = g.tail;
          shape = g.shape;
          same =
              All-map_weaken (λ x. type.identity x ≡ k)
                (λ x. type.identity x ≡ group_identity type group) (λ x h. h ∙ sym named) group
                g.keyed;
        },
        named,
      )

  requests_of : (d : Dict String (List Row)) → Grouped type.identity d → All IsRequest (values d)
  requests_of [] h = tt
  requests_of ((k, g) ∷ d) h = ((IsRequest-of_group k g h.0).0, requests_of d h.1)

  names_of :
      (d : Dict String (List Row))
      → Grouped type.identity d
      → map (group_identity type) (values d) ≡ keys d
  names_of [] h = refl
  names_of ((k, g) ∷ d) h = cc ((IsRequest-of_group k g h.0).1, names_of d h.1)

  group_le-IsOrder : IsOrder (group_le type)
  unfolding group_le
  group_le-IsOrder =
      by-IsOrder number_key (group_time type) (by text_key (group_identity type) always)
        (by-IsOrder text_key (group_identity type) always always-IsOrder)

  pub ordered_groups-IsSorted :
      (rows : List Row) → IsSorted (group_le type) (ordered_groups type rows)
  unfolding ordered_groups
  ordered_groups-IsSorted rows =
      sort-IsSorted (group_le type) group_le-IsOrder (values (group_by type.identity rows))

  pub ordered_groups-IsRequest : (rows : List Row) → All IsRequest (ordered_groups type rows)
  unfolding ordered_groups
  ordered_groups-IsRequest rows =
      sort-All (group_le type) IsRequest (values (group_by type.identity rows))
        (requests_of (group_by type.identity rows) (group_from-Grouped type.identity [] rows tt))

  pub ordered_groups-Unique :
      (rows : List Row) → Unique (map (group_identity type) (ordered_groups type rows))
  unfolding ordered_groups
  ordered_groups-Unique rows =
      let d = group_by type.identity rows in
      Unique-perm
        (Permᴰ.symm (Permᴰ.map (group_identity type) (sort-perm (group_le type) (values d))))
        (subst (λ ks. Unique ks) (sym (names_of d (group_from-Grouped type.identity [] rows tt)))
          (group_from-Unique type.identity [] rows tt))

  -- The groups hold the rows, each once.
  pub ordered_groups-perm : (rows : List Row) → Permᴰ (concat (ordered_groups type rows)) rows
  unfolding ordered_groups
  ordered_groups-perm rows =
      Permᴰ.trans (concat-perm (sort-perm (group_le type) (values (group_by type.identity rows))))
        (group_by-perm type.identity rows)

  pub record Origin (e : Ends) (index : ℕ) (groups : List (List Row)) (x : Row) : Type 0 where
    pub position : ℕ
    pub group : List Row
    pub row : Row
    pub found : get_elem? groups position ≡ some group
    pub member : Memᴰ row group
    pub chosen : type.split_of x ≡ choose e (index + position)
    pub same_identity : type.identity x ≡ type.identity row
    pub same_time : type.served_at x ≡ type.served_at row

  origins_of_group :
      (e : Ends) (index : ℕ) (group : List Row) (groups : List (List Row)) (rows : List Row)
      → ((r : Row) → Memᴰ r rows → Memᴰ r group)
      → All (Origin e index (group ∷ groups)) (map (type.with_split (choose e index)) rows)
  origins_of_group e index group groups [] sub = tt
  origins_of_group e index group groups (r ∷ rows) sub = (
    record {
      position = 0;
      group = group;
      row = r;
      found = refl;
      member = sub r (Memᴰ.head refl);
      chosen = type.split_of-with_split (choose e index) r ∙ ap (choose e) (omega arith);
      same_identity = type.identity-with_split (choose e index) r;
      same_time = type.served_at-with_split (choose e index) r;
    },
    origins_of_group e index group groups rows (λ s m. sub s (Memᴰ.tail m)),
  )

  later-Origin :
      (e : Ends) (index : ℕ) (group : List Row) (groups : List (List Row)) (x : Row)
      → Origin e (index + 1) groups x
      → Origin e index (group ∷ groups) x
  later-Origin e index group groups x o = record {
    position = suc o.position;
    group = o.group;
    row = o.row;
    found = o.found;
    member = o.member;
    chosen = o.chosen ∙ ap (choose e) (omega arith);
    same_identity = o.same_identity;
    same_time = o.same_time;
  }

  pub assign-Origin :
      (e : Ends) (index : ℕ) (groups : List (List Row))
      → All (Origin e index groups) (assign type e index groups)
  unfolding assign
  assign-Origin e index [] = tt
  assign-Origin e index (group ∷ groups) =
      All-append (Origin e index (group ∷ groups)) (map (type.with_split (choose e index)) group)
        (assign type e (index + 1) groups) (origins_of_group e index group groups group (λ r m. m))
        (All-map_weaken (Origin e (index + 1) groups) (Origin e index (group ∷ groups))
          (later-Origin e index group groups) (assign type e (index + 1) groups)
          (assign-Origin e (index + 1) groups))

  -- A group's rows are among the rows.
  pub Origin-mem :
      (e : Ends) (index : ℕ) (rows : List Row) (x : Row)
      → (o : Origin e index (ordered_groups type rows) x) → (r : Row) → Memᴰ r o.group
      → Memᴰ r rows
  Origin-mem e index rows x o r m = Permᴰ-mem (Permᴰ.symm (ordered_groups-perm rows)) (
      mem-concat o.group (ordered_groups type rows) m
        (get_elem?-mem (ordered_groups type rows) o.position o.group o.found))
