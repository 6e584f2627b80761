-- ===== src/Common/Groups.antt =====
-- `defaultdict(list)`: grouping the elements of a list by a key.
use mathlib.Core.List.Permᴰ
use mathlib.Core.List.{append_assoc}
use oecophylla.Common.{
  ◌≡◌, refl, sym, ap, true, List, [], ◌∷◌, ◌++◌, Permᴰ, arith, if◌then◌else◌, Bool-cases, inl, inr,
  All, All-append,
}
use oecophylla.Common.Dict.{Dict, values, keys}
use oecophylla.Common.Eq.{Eq, ◌==◌, elem}
use oecophylla.Common.Unique.{Unique}

module _ {ℓ} {A : Type ℓ} where
  abbrev pub concat : List (List A) → List A
  concat [] = []
  concat (xs ∷ xss) = xs ++ concat xss

  pub concat-perm : {xss yss : List (List A)} → Permᴰ xss yss → Permᴰ (concat xss) (concat yss)
  concat-perm Permᴰ.nil = Permᴰ.nil
  concat-perm (Permᴰ.cons {a} {b} {l₁} {l₂} e p) = rw e (Permᴰ.append_left b (concat-perm p))
  concat-perm (Permᴰ.swap {a} {b} {a'} {b'} {l} d e) = rw d (
      rw e (
        rw (← append_assoc b' a' (concat l)) (
          rw (← append_assoc a' b' (concat l))
            (Permᴰ.append_right (concat l) (Permᴰ.append_comm b' a')))))
  concat-perm (Permᴰ.trans p q) = Permᴰ.trans (concat-perm p) (concat-perm q)

module _ {ℓ κ} {K : Type ℓ} {A : Type κ} ⦃e : Eq K⦄ where
  -- `d[k].append(x)`
  abbrev pub append_to : K → A → Dict K (List A) → Dict K (List A)
  append_to k x [] = (k, x ∷ []) ∷ []
  append_to k x ((j, xs) ∷ d) = if j == k then (j, xs ++ x ∷ []) ∷ d else (j, xs) ∷ append_to k x d

  -- The loop over a list, from a dict.
  unfoldable pub group_from : (A → K) → Dict K (List A) → List A → Dict K (List A)
  group_from key d [] = d
  group_from key d (x ∷ xs) = group_from key (append_to (key x) x d) xs

  abbrev pub group_by : (A → K) → List A → Dict K (List A)
  group_by key xs = group_from key [] xs

  append_to-perm :
      (k : K) (x : A) (d : Dict K (List A))
      → Permᴰ (concat (values (append_to k x d))) (x ∷ concat (values d))
  append_to-perm k x [] = Permᴰ.refl (x ∷ [])
  append_to-perm k x ((j, xs) ∷ d) = elim (Bool-cases (j == k)) [
    | inl q ↦
        rw q (
          rw (append_assoc xs (x ∷ []) (concat (values d))) (Permᴰ.middle x xs (concat (values d))))
    | inr q ↦ rw q (
        Permᴰ.trans (Permᴰ.append_left xs (append_to-perm k x d))
          (Permᴰ.middle x xs (concat (values d))))
  ]

  group_from-perm :
      (key : A → K) (d : Dict K (List A)) (xs : List A)
      → Permᴰ (concat (values (group_from key d xs))) (xs ++ concat (values d))
  unfolding group_from
  group_from-perm key d [] = Permᴰ.refl _
  group_from-perm key d (x ∷ xs) = Permᴰ.trans (group_from-perm key (append_to (key x) x d) xs) (
      Permᴰ.trans (Permᴰ.append_left xs (append_to-perm (key x) x d))
        (Permᴰ.middle x xs (concat (values d))))

  -- Grouping loses nothing and repeats nothing.
  pub group_by-perm : (key : A → K) (xs : List A) → Permᴰ (concat (values (group_by key xs))) xs
  group_by-perm key xs = Permᴰ.trans (group_from-perm key [] xs) (Permᴰ.append-nil xs)

  -- A group has its key, and is not empty.
  pub record IsGroup (key : A → K) (k : K) (xs : List A) : Type (ℓ ⊔ κ) where
    pub head : A
    pub tail : List A
    pub shape : xs ≡ head ∷ tail
    pub keyed : All (λ x. key x ≡ k) xs

  abbrev pub Grouped : (A → K) → Dict K (List A) → Type (ℓ ⊔ κ)
  Grouped key = All (λ g. IsGroup key g.0 g.1)

  append_to-Grouped :
      (key : A → K) (x : A) (d : Dict K (List A))
      → Grouped key d
      → Grouped key (append_to (key x) x d)
  append_to-Grouped key x [] h =
      (record { head = x; tail = []; shape = refl; keyed = (refl, tt) }, tt)
  append_to-Grouped key x ((j, xs) ∷ d) h = elim (Bool-cases (j == key x)) [
    | inl q ↦ rw q (
      record {
        head = h.0.head;
        tail = h.0.tail ++ x ∷ [];
        shape = ap (λ l. l ++ x ∷ []) h.0.shape;
        keyed =
            All-append (λ y. key y ≡ j) xs (x ∷ []) h.0.keyed (sym ((e.beq_iff j (key x)).0 q), tt);
      },
      h.1,
    )
    | inr q ↦ rw q (h.0, append_to-Grouped key x d h.1)
  ]

  pub group_from-Grouped :
      (key : A → K) (d : Dict K (List A)) (xs : List A)
      → Grouped key d
      → Grouped key (group_from key d xs)
  unfolding group_from
  group_from-Grouped key d [] h = h
  group_from-Grouped key d (x ∷ xs) h =
      group_from-Grouped key (append_to (key x) x d) xs (append_to-Grouped key x d h)

  elem-append_to-keys :
      (j k : K) (x : A) (d : Dict K (List A))
      → elem j (keys (append_to k x d)) ≡ (if k == j then true else elem j (keys d))
  elem-append_to-keys j k x [] = refl
  elem-append_to-keys j k x ((i, xs) ∷ d) =
      ground (arith, elem-append_to-keys j k x d, e.beq_iff i k, e.beq_iff i j, e.beq_iff k j)

  append_to-Unique :
      (k : K) (x : A) (d : Dict K (List A)) → Unique (keys d) → Unique (keys (append_to k x d))
  append_to-Unique k x [] h = (refl, tt)
  append_to-Unique k x ((i, xs) ∷ d) h = ground (
    arith,
    elem-append_to-keys i k x d,
    append_to-Unique k x d h.1,
    h.0,
    h.1,
    e.beq_iff i k,
    e.beq_iff k i,
  )

  pub group_from-Unique :
      (key : A → K) (d : Dict K (List A)) (xs : List A)
      → Unique (keys d)
      → Unique (keys (group_from key d xs))
  unfolding group_from
  group_from-Unique key d [] h = h
  group_from-Unique key d (x ∷ xs) h =
      group_from-Unique key (append_to (key x) x d) xs (append_to-Unique (key x) x d h)
