-- ===== src/Worker/Receipts.antt =====
-- The ids that a claim inserts and returns, and the events of a batch that its ids stand for.
use oecophylla.Common.{
  String, ◌≡◌, refl, ◌∙◌, inl, inr, true, false, ◌||◌, Option, none, some, List, [], ◌∷◌, ◌++◌,
  arith, if◌then◌else◌, Bool-cases, Option-cases, keep_if,
}
use oecophylla.Common.Value.{Fields}
use oecophylla.Common.Eq.{string_eq, elem}
use oecophylla.Common.Unique.{Unique, Unique-snoc, elem-append}
use oecophylla.Worker.Envelope.{Library, event_id}
use oecophylla.Worker.Claim.{claim, Split, no_split, split_one, split_batch, ids, is_claimed}

-- The table after a claim holds the ids of before and the claimed ones.
pub elem-claim_receipts :
    (x : String) (receipts new : List String)
    → elem x (claim receipts new).0 ≡ elem x receipts || elem x new
unfolding claim
elem-claim_receipts x receipts [] = ground arith
elem-claim_receipts x receipts (id ∷ new) = ground (
  arith,
  elem-claim_receipts x receipts new,
  elem-claim_receipts x (id ∷ receipts) new,
  string_eq.beq_iff id x,
)

-- What a claim returns was not in the table.
pub elem-claimed :
    (x : String) (receipts new : List String)
    → elem x (claim receipts new).1 ≡ true
    → elem x receipts ≡ false
unfolding claim
elem-claimed x receipts [] h = cc
elem-claimed x receipts (id ∷ new) h =
    ground (
      arith,
      elem-claimed x receipts new,
      elem-claimed x (id ∷ receipts) new,
      string_eq.beq_iff id x,
    )

module _ {F : Type 0} (library : Library F) where
  pub ids-append :
      (xs ys : List (Fields F)) → ids library (xs ++ ys) ≡ ids library xs ++ ids library ys
  ids-append [] ys = refl
  ids-append (env ∷ xs) ys = ground (arith, ids-append xs ys)

  pub elem-ids_claimed :
      (x : String) (claimed : List String) (xs : List (Fields F))
      → elem x (ids library (keep_if (is_claimed library claimed) xs)) ≡ true
      → (elem x claimed ≡ true) × (elem x (ids library xs) ≡ true)
  unfolding is_claimed
  elem-ids_claimed x claimed [] h = cc
  elem-ids_claimed x claimed (env ∷ xs) h = elim (Option-cases (event_id library env)) [
    | inl e ↦ ground (arith, elem-ids_claimed x claimed xs, e)
    | inr (id, e) ↦ ground (arith, elem-ids_claimed x claimed xs, e, string_eq.beq_iff id x)
  ]

  pub Unique-ids_claimed :
      (claimed : List String) (xs : List (Fields F))
      → Unique (ids library xs)
      → Unique (ids library (keep_if (is_claimed library claimed) xs))
  unfolding is_claimed
  Unique-ids_claimed claimed [] h = tt
  Unique-ids_claimed claimed (env ∷ xs) h = elim (Option-cases (event_id library env)) [
    | inl e ↦ ground (arith, Unique-ids_claimed claimed xs, e)
    | inr (id, e) ↦
        ground (arith, Unique-ids_claimed claimed xs, e, elem-ids_claimed id claimed xs, h)
  ]

  -- The loop's variables: the first events have the ids seen, each once.
  pub record IsSplit (s : Split F) : Type 0 where
    pub once : Unique (ids library s.unique)
    pub seen : (x : String) → elem x (ids library s.unique) ≡ elem x s.seen_ids

  pub no_split-IsSplit : IsSplit no_split
  no_split-IsSplit = record { once = tt; seen = λ x. refl }

  split_one-IsSplit : (env : Fields F) (s : Split F) → IsSplit s → IsSplit (split_one library env s)
  unfolding split_one
  split_one-IsSplit env s h = step (event_id library env) refl
    where
      fresh :
          (id : String)
          → event_id library env ≡ some id
          → elem id s.seen_ids ≡ false
          → IsSplit (record s { unique = s.unique ++ env ∷ []; seen_ids = id ∷ s.seen_ids })
      fresh id e new = record {
        once = rw (append id e) (Unique-snoc id (ids library s.unique) h.once (h.seen id ∙ new));
        seen = λ x.
            rw (append id e)
              (elem-append x (ids library s.unique) (id ∷ []) ∙ ground (arith, h.seen x));
      }
        where
          append :
              (id : String)
              → event_id library env ≡ some id
              → ids library (s.unique ++ env ∷ []) ≡ ids library s.unique ++ id ∷ []
          append id e = ids-append s.unique (env ∷ []) ∙ ground (arith, e)

      step :
          (o : Option String)
          → event_id library env ≡ o
          → IsSplit (elim o [
            | none ↦ s
            | some id ↦
                if elem id s.seen_ids
                then record s { duplicate = s.duplicate ++ env ∷ [] }
                else record s { unique = s.unique ++ env ∷ []; seen_ids = id ∷ s.seen_ids }
          ])
      step none e = h
      step (some id) e = elim (Bool-cases (elem id s.seen_ids)) [
        | inl old ↦ rw old (record { once = h.once; seen = h.seen })
        | inr new ↦ rw new (fresh id e new)
      ]

  pub split_batch-IsSplit :
      (envs : List (Fields F)) (s : Split F) → IsSplit s → IsSplit (split_batch library s envs)
  unfolding split_batch
  split_batch-IsSplit [] s h = h
  split_batch-IsSplit (env ∷ envs) s h =
      split_batch-IsSplit envs (split_one library env s) (split_one-IsSplit env s h)
