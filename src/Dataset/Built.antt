-- ===== src/Dataset/Built.antt =====
-- What the loop of `build_samples` leaves: every row is of a mature impression in the window, and every
-- such impression is counted once.
use mathlib.Core.Option.{some-injective}
use oecophylla.Common.{
  ℕ, ◌+◌, ◌≤◌, ◌≡◌, refl, sym, ap, subst, true, some, List, [], ◌∷◌, Memᴰ, ok, ◌>>=◌, >>=-elim,
  >>=-eq-ok, ok-injective, arith, if◌then◌else◌, Bool-cases, Option-cases, inl, inr, All,
  All-append, length, length-append, keep_if, ltb,
}
use oecophylla.Label.{LabelVersion, LabelResult}
use oecophylla.Common.Int.{ℤ}
use oecophylla.Dataset.Records.{Library, DatasetConfig, Impression, BehaviorEvent, DatasetRow}
use oecophylla.Dataset.Checks.{
  verified_exposure_at, shows, least, validate_snapshot, canonical_request_identity,
}
use oecophylla.Dataset.Row.{row_of, row_label, read_features, make_row, groups_of, Features}
use oecophylla.Dataset.Samples.{
  Progress, in_window, is_linked, window_end, in_label_window, label_row, judged, with_row,
  add_impression, add_impressions,
}

verified_exposure_at-le :
    {F : Type 0} (i : Impression F) (events : List (BehaviorEvent F)) (t : ℕ)
    → verified_exposure_at i events ≡ some t
    → i.served_at ≤ t
unfolding verified_exposure_at
verified_exposure_at-le i [] t h = cc
verified_exposure_at-le i (e ∷ events) t h = elim (Bool-cases (shows i e)) [
  | inr n ↦ verified_exposure_at-le i events t (rw n at h)
  | inl y ↦
      let q : least (verified_exposure_at i events) e.occurred_at ≡ t =
        some-injective (least (verified_exposure_at i events) e.occurred_at) t (rw y at h) in
      let here : i.served_at ≤ e.occurred_at = ground (arith, y) in
      elim (Option-cases (verified_exposure_at i events)) [
        | inl o ↦ omega (arith, here, (rw o at q))
        | inr (u, o) ↦
            let later = verified_exposure_at-le i events u o in
            let q : (if ltb u e.occurred_at then u else e.occurred_at) ≡ t = rw o at q in
            ground (arith, q, later, here)
      ]
]

module _ {F : Type 0} (library : Library F) (config : DatasetConfig F) where
  -- A row is of an impression that was served in the window, and seen long enough before the extraction.
  pub record IsSound (i : Impression F) (r : DatasetRow F) : Type 0 where
    pub time : r.served_at ≡ i.served_at
    pub named : r.audit_request_identity ≡ canonical_request_identity i
    pub included : in_window library config i ≡ true
    pub shown : i.served_at ≤ r.visible_at
    pub mature : window_end library config r.visible_at ≤ config.extraction_time

  row_of-eq :
      (count : ℕ) (version : LabelVersion) (result : LabelResult) (t : ℕ) (i : Impression F)
      (r : DatasetRow F)
      → row_of library config count version result t i ≡ ok r
      → (r.served_at ≡ i.served_at)
        × (r.audit_request_identity ≡ canonical_request_identity i)
        × (r.visible_at ≡ t)
  unfolding row_of
  row_of-eq count version result t i r h =
      let P : Type 0 =
        (r.served_at ≡ i.served_at)
        × (r.audit_request_identity ≡ canonical_request_identity i)
        × (r.visible_at ≡ t) in
      let made : ℤ → Features library config → DatasetRow F =
        λ l f. make_row library config (groups_of library config count i) l result.semantic f t i in
      >>=-elim P (row_label version result)
        (λ l. read_features library config i.feature_snapshot >>= λ f. ok (made l f)) h
        (λ l _ h.
          >>=-elim P (read_features library config i.feature_snapshot) (λ f. ok (made l f)) h
            (λ f _ h.
              let q = ok-injective (made l f) r h in
              (
                sym (ap (λ x. x.served_at) q),
                sym (ap (λ x. x.audit_request_identity) q),
                sym (ap (λ x. x.visible_at) q),
              )))

  -- The rows of some impressions, and how many of them the loop has seen.
  pub record Tracks (all : List (Impression F)) (n : ℕ) (p : Progress F) : Type 0 where
    pub total :
        p.served_without_visible
          + p.immature_impressions
          + p.unsupported_feature_schema
          + length p.rows
        ≡ n
    pub sound : All (λ r. (i : Impression F) × Memᴰ i all × IsSound i r) p.rows

  label_row-eq :
      (p q : Progress F) (i : Impression F) (t : ℕ) (label_events : List (BehaviorEvent F))
      → label_row library config p i t label_events ≡ ok q
      → (version : LabelVersion) × (r : DatasetRow F) × (q ≡ with_row library config p version r)
        × (r.served_at ≡ i.served_at)
        × (r.audit_request_identity ≡ canonical_request_identity i)
        × (r.visible_at ≡ t)
  unfolding label_row
  label_row-eq p q i t label_events h =
      let (j, _, h) =
        >>=-eq-ok (judged library config p.observed label_events)
          (λ j. row_of library config (length p.rows) j.0 j.1 t i >>= λ row.
            ok (with_row library config p j.0 row))
          h in
      let (r, e, h) =
        >>=-eq-ok (row_of library config (length p.rows) j.0 j.1 t i)
          (λ row. ok (with_row library config p j.0 row)) h in
      let (a, b, c) = row_of-eq (length p.rows) j.0 j.1 t i r e in
      (j.0, r, sym (ok-injective (with_row library config p j.0 r) q h), a, b, c)

  module _ (all : List (Impression F)) where
    abbrev Sourced : DatasetRow F → Type 0
    Sourced r = (i : Impression F) × Memᴰ i all × IsSound i r

    -- What one impression adds to the count.
    abbrev counted : Impression F → ℕ
    counted i = if in_window library config i then 1 else 0

    -- A step that keeps the rows moves a counter.
    kept-Tracks :
        (n m : ℕ) (p p' q : Progress F)
        → p' ≡ q
        → p'.rows ≡ p.rows
        → p'.served_without_visible
            + p'.immature_impressions
            + p'.unsupported_feature_schema
            + length p'.rows
          ≡ m
        → Tracks all n p
        → Tracks all m q
    kept-Tracks n m p p' q e rows t k =
        subst (λ x. Tracks all m x) e
          (record { total = t; sound = subst (λ l. All Sourced l) (sym rows) k.sound })

    with_row-Tracks :
        (n : ℕ) (p : Progress F) (version : LabelVersion) (r : DatasetRow F)
        → Tracks all n p
        → Sourced r
        → Tracks all (n + 1) (with_row library config p version r)
    with_row-Tracks n p version r k s = record {
      total = omega (arith, k.total, length-append p.rows (r ∷ []));
      sound = All-append Sourced p.rows (r ∷ []) k.sound (s, tt);
    }

    add_impression-Tracks :
        (events : List (BehaviorEvent F)) (n : ℕ) (p q : Progress F) (i : Impression F)
        → Memᴰ i all
        → Tracks all n p
        → add_impression library config events p i ≡ ok q
        → Tracks all (n + counted i) q
    unfolding add_impression
    add_impression-Tracks events n p q i m k h =
        let linked = keep_if (is_linked library config i) events in
        elim (Bool-cases (in_window library config i)) [
          | inr w ↦ rw w (
              kept-Tracks n (n + 0) p p q (ok-injective p q (rw w at h)) refl
                (omega (arith, k.total)) k)
          | inl w ↦
              let h = rw w at h in
              elim (Option-cases (verified_exposure_at i linked)) [
                | inl v ↦ rw w (
                    kept-Tracks n (n + 1) p _ q (ok-injective _ q (rw v at h)) refl
                      (omega (arith, k.total)) k)
                | inr (t, v) ↦
                    let h = rw v at h in
                    elim (Bool-cases (ltb config.extraction_time (window_end library config t))) [
                      | inl u ↦ rw w (
                          kept-Tracks n (n + 1) p _ q (ok-injective _ q (rw u at h)) refl
                            (omega (arith, k.total)) k)
                      | inr u ↦
                          let h = rw u at h in
                          elim (Bool-cases (validate_snapshot library i.feature_snapshot)) [
                            | inr g ↦ rw w (
                                kept-Tracks n (n + 1) p _ q (ok-injective _ q (rw g at h)) refl
                                  (omega (arith, k.total)) k)
                            | inl g ↦
                                let (version, r, e, a, b, c) =
                                  label_row-eq p q i t
                                    (keep_if (in_label_window library config t) linked)
                                    (rw g at h) in
                                let s : IsSound i r = record {
                                  time = a;
                                  named = b;
                                  included = w;
                                  shown = omega (arith, verified_exposure_at-le i linked t v, c);
                                  mature = ground (arith, u, c);
                                } in
                                rw w (
                                  subst (λ x. Tracks all (n + 1) x) (sym e)
                                    (with_row-Tracks n p version r k (i, m, s)))
                          ]
                    ]
              ]
        ]

    pub add_impressions-Tracks :
        (events : List (BehaviorEvent F)) (n : ℕ) (p q : Progress F) (l : List (Impression F))
        → ((i : Impression F) → Memᴰ i l → Memᴰ i all)
        → Tracks all n p
        → add_impressions library config events p l ≡ ok q
        → Tracks all (n + length (keep_if (in_window library config) l)) q
    unfolding add_impressions
    add_impressions-Tracks events n p q [] sub k h =
        kept-Tracks n (n + 0) p p q (ok-injective p q h) refl (omega (arith, k.total)) k
    add_impressions-Tracks events n p q (i ∷ l) sub k h =
        let (p', e, h) =
          >>=-eq-ok (add_impression library config events p i)
            (λ x. add_impressions library config events x l) h in
        let k = add_impression-Tracks events n p p' i (sub i (Memᴰ.head refl)) k e in
        let k =
          add_impressions-Tracks events (n + counted i) p' q l (λ j m. sub j (Memᴰ.tail m)) k h in
        subst (λ c. Tracks all c q) (ground arith) k
