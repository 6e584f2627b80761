-- ===== src/Worker/Pending.antt =====
-- The users that the backfill still has to do, and a step that leaves fewer of them.
use mathlib.Core.List.Permᴰ
use oecophylla.Common.{
  ℕ, suc, ◌≤◌, ◌<◌, ◌≡◌, ◌⊎◌, refl, sym, ap, ◌∙◌, subst, String, Bool, true, false, List, [], ◌∷◌,
  Memᴰ, Permᴰ-length, arith, keep_if, take, length, is_empty, Bool-cases, inl, inr, All, All-mem,
}
use oecophylla.Common.Dict.{keys, contains}
use oecophylla.Common.Eq.{string_eq}
use oecophylla.Common.Sort.{sort, sort-perm, Permᴰ-mem}
use oecophylla.Worker.Store.{Store, rows_of}
use oecophylla.Worker.Backfill.{is_pending, pending, queue_le, next_batch}

no_suc : (n : ℕ) → 0 ≡ suc n → ⊥
no_suc n h = omega arith

module _ {ℓ} {A : Type ℓ} where
  pub list_cases : (xs : List A) → (xs ≡ []) ⊎ ((x : A) × (l : List A) × (xs ≡ x ∷ l))
  list_cases [] = inl refl
  list_cases (x ∷ l) = inr (x, l, refl)

  mem_cases : (x y : A) (l : List A) → Memᴰ x (y ∷ l) → (x ≡ y) ⊎ Memᴰ x l
  mem_cases x y l (Memᴰ.head e) = inl e
  mem_cases x y l (Memᴰ.tail m) = inr m

  keep_if-All : (p : A → Bool) (xs : List A) → All (λ x. p x ≡ true) (keep_if p xs)
  keep_if-All p [] = tt
  keep_if-All p (x ∷ xs) = elim (Bool-cases (p x)) [
    | inl e ↦ rw e (e, keep_if-All p xs)
    | inr e ↦ rw e (keep_if-All p xs)
  ]

  length-keep_if_mono :
      (p q : A → Bool) (xs : List A)
      → ((x : A) → q x ≡ true → p x ≡ true)
      → length (keep_if q xs) ≤ length (keep_if p xs)
  length-keep_if_mono p q [] h = omega arith
  length-keep_if_mono p q (x ∷ xs) h = ground (arith, length-keep_if_mono p q xs h, h x)

  length-keep_if-lt :
      (p q : A → Bool) (xs : List A) (x : A)
      → ((x : A) → q x ≡ true → p x ≡ true)
      → Memᴰ x (keep_if p xs)
      → q x ≡ false
      → length (keep_if q xs) < length (keep_if p xs)
  length-keep_if-lt p q [] x h m n = elim m [ ]
  length-keep_if-lt p q (y ∷ xs) x h m n = elim (Bool-cases (p y)) [
    | inr e ↦
        let below = length-keep_if-lt p q xs x h (rw e at m) n in
        let away : q y ≡ false = ground (arith, h y, e) in rw e (rw away below)
    | inl e ↦ elim (mem_cases x y (keep_if p xs) (rw e at m)) [
      | inl s ↦
          let away : q y ≡ false = subst (λ z. q z ≡ false) s n in
          let least = length-keep_if_mono p q xs h in rw e (rw away (omega (arith, least)))
      | inr k ↦ let below = length-keep_if-lt p q xs x h k n in ground (arith, below, e)
    ]
  ]

module _ {F : Type 0} where
  -- A step that keeps the rows, and the vectors that there are.
  pub record IsKept (s t : Store F) : Type 0 where
    pub behavior : t.behavior ≡ s.behavior
    pub vectors : (u : String) → contains u s.vectors ≡ true → contains u t.vectors ≡ true

  pub IsKept-trans : (s t r : Store F) → IsKept s t → IsKept t r → IsKept s r
  IsKept-trans s t r h k = record {
    behavior = k.behavior ∙ h.behavior;
    vectors = λ u c. k.vectors u (h.vectors u c);
  }

  rows_kept : (s t : Store F) → IsKept s t → (u : String) → rows_of u t ≡ rows_of u s
  rows_kept s t h u = ap (λ b. rows_of u (record s { behavior = b })) h.behavior

  pending_back :
      (s t : Store F) → IsKept s t → (u : String) → is_pending t u ≡ true → is_pending s u ≡ true
  pending_back s t h u p =
      let rows = rows_kept s t h u in
      let kept = h.vectors u in ground (arith, ap is_empty rows, kept, p)

  pub pending-lt :
      (s t : Store F) (u : String)
      → IsKept s t
      → Memᴰ u (pending s)
      → contains u t.vectors ≡ true
      → length (pending t) < length (pending s)
  unfolding pending
  pending-lt s t u h m c =
      let q : is_pending t u ≡ false = ground (arith, c) in
      subst
        (λ b.
          length (keep_if (is_pending t) (keys b))
          < length (keep_if (is_pending s) (keys s.behavior)))
        (sym h.behavior)
        (length-keep_if-lt (is_pending s) (is_pending t) (keys s.behavior) u (pending_back s t h) m
          q)

  pub batch_head :
      (size : ℕ) (s : Store F) (u : String) (us : List String)
      → next_batch (suc size) s ≡ u ∷ us
      → Memᴰ u (pending s)
  unfolding next_batch
  batch_head size s u us h =
      let order = sort-perm (queue_le s) (pending s) in
      elim (list_cases (sort (queue_le s) (pending s))) [
        | inl e ↦ cc (ap (take (suc size)) e, h)
        | inr (x, l, e) ↦
            let q = sym (ap (take (suc size)) e) ∙ h in
            let same : x ≡ u = cc in
            Permᴰ-mem (Permᴰ.symm order) (subst (λ k. Memᴰ u k) (sym e) (Memᴰ.head (sym same)))
      ]

  pub pending_rows :
      (s : Store F) (u : String) → Memᴰ u (pending s) → is_empty (rows_of u s) ≡ false
  unfolding pending
  pending_rows s u m =
      let p =
        All-mem (λ x. is_pending s x ≡ true) (pending s)
          (keep_if-All (is_pending s) (keys s.behavior)) m in
      ground (arith, p)

  pub batch_empty : (size : ℕ) (s : Store F) → next_batch (suc size) s ≡ [] → pending s ≡ []
  unfolding next_batch
  batch_empty size s h =
      let order = Permᴰ-length (sort-perm (queue_le s) (pending s)) in
      elim (list_cases (sort (queue_le s) (pending s))) [
        | inl e ↦ elim (list_cases (pending s)) [
          | inl p ↦ p
          | inr (x, l, p) ↦
              let n : length (pending s) ≡ 0 = sym order ∙ ap length e in
              let m : length (pending s) ≡ suc (length l) = ap length p in
              elim (no_suc (length l) (sym n ∙ m)) [ ]
        ]
        | inr (x, l, e) ↦ cc (ap (take (suc size)) e, h)
      ]
