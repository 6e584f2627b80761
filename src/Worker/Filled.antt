-- ===== src/Worker/Filled.antt =====
-- What `_backfill_v2` leaves in the table of vectors.
use mathlib.Core.List.Permᴰ
use oecophylla.Common.{
  ℕ, zero, suc, ◌<◌, ◌≡◌, ◌≢◌, ◌⊎◌, refl, sym, ap, ◌∙◌, subst, String, Bool, true, false, some,
  List, [], ◌∷◌, Memᴰ, Outcome, Outcome-cases, ok, raised, ◌>>=◌, arith, length, is_empty, inl, inr,
  keep_if, Bool-cases, All, All-perm, All-map_weaken,
}
use text.Mathlib.Text.{◌==◌ as str_eq}
use text.Mathlib.TextEquality.{eq_iff}
use oecophylla.Common.Dict.{keys, lookup, insert, lookup-insert}
use oecophylla.Common.Eq.{string_eq}
use oecophylla.Common.Float.{Arith}
use oecophylla.Common.Sort.{sort-perm}
use oecophylla.Preference.{PreferenceEvent, PreferenceVectorV2}
use oecophylla.Preference.Replay.{build_preference_vector_v2}
use oecophylla.Worker.Store.{Store, rows_of, canonical_preference_events}
use oecophylla.Worker.Apply.{ApplyError, Config, upsert_vector_v2, lift_preference}
use oecophylla.Worker.Rebuild.{rebuild_v2_for_user, rebuild_from, delete, preference_cache_keys}
use oecophylla.Worker.Backfill.{
  BackfillError, failed, out_of_turns, is_pending, pending, queue_le, next_batch, backfill_users,
  backfill_v2,
}
use oecophylla.Worker.Queued.{
  is_some, contains-lookup, keep_if-mem, All-take_kept, All-kept, rows-mem,
}
use oecophylla.Worker.Pending.{list_cases, batch_empty}
use oecophylla.Worker.Caught.{canonical_empty, backfill_v2-ne-out_of_turns}

module _ (a : Arith) (cfg : Config a) where
  -- The vector that is built of a user's rows.
  abbrev pub vector_of : String → Store a.F → Outcome ApplyError (PreferenceVectorV2 a.F)
  vector_of u s =
      lift_preference
        (build_preference_vector_v2 a cfg.settings (canonical_preference_events (rows_of u s)))

  -- The user's vector after a backfill, by whether there was a need for it before.
  abbrev pub Filled : Store a.F → Store a.F → String → Bool → Type 0
  Filled s t u true =
      (v : PreferenceVectorV2 a.F) × (vector_of u s ≡ ok v) × (lookup u t.vectors ≡ some v)
  Filled s t u false = lookup u t.vectors ≡ lookup u s.vectors

  pub record IsFilled (s t : Store a.F) : Type 0 where
    pub behavior : t.behavior ≡ s.behavior
    pub vectors : (u : String) → Filled s t u (is_pending s u)

  -- How a backfill ends: every pending user has got the vector of their rows, or that of one cannot be built.
  abbrev pub Ends : Store a.F → Outcome BackfillError (Store a.F) → Type 0
  Ends s (ok t) = IsFilled s t
  Ends s (raised (failed e)) = (u : String) × (is_pending s u ≡ true) × (vector_of u s ≡ raised e)
  Ends s (raised out_of_turns) = ⊥

  module _ (s : Store a.F) where
    -- A state on the way: a user's vector is the one before, or the one built for a pending user.
    record IsUnderway (t : Store a.F) : Type 0 where
      behavior : t.behavior ≡ s.behavior
      vectors :
          (u : String)
          → (lookup u t.vectors ≡ lookup u s.vectors) ⊎ (is_pending s u ≡ true) × Filled s t u true

    rows_same : (t : Store a.F) → IsUnderway t → (u : String) → rows_of u t ≡ rows_of u s
    rows_same t h u = ap (λ b. rows_of u (record s { behavior = b })) h.behavior

    was_pending :
        (t : Store a.F)
        → IsUnderway t
        → (u : String) → is_pending t u ≡ true
        → is_pending s u ≡ true
    was_pending t h u p = elim (h.vectors u) [
      | inl same ↦
          let rows = ap is_empty (rows_same t h u) in
          let known =
            contains-lookup u t.vectors ∙ ap is_some same ∙ sym (contains-lookup u s.vectors) in
          ground (arith, rows, known, p)
      | inr (q, _) ↦ q
    ]

    put : String → PreferenceVectorV2 a.F → Store a.F → Store a.F
    put u v t = record t { vectors = insert u v t.vectors }

    put-IsUnderway :
        (t : Store a.F) (u : String) (v : PreferenceVectorV2 a.F)
        → IsUnderway t
        → is_pending s u ≡ true
        → vector_of u s ≡ ok v
        → IsUnderway (put u v t)
    unfolding put
    put-IsUnderway t u v h p e = record {
      behavior = h.behavior;
      vectors = λ x. elim (Bool-cases (str_eq u x)) [
        | inl same ↦
            let q = (eq_iff u x).0 same in
            inr (
              subst (λ y. is_pending s y ≡ true) q p,
              (
                v,
                subst (λ y. vector_of y s ≡ ok v) q e,
                lookup-insert u x v t.vectors ∙ rw same refl,
              ),
            )
        | inr other ↦
            let unchanged : lookup x (insert u v t.vectors) ≡ lookup x t.vectors =
              lookup-insert u x v t.vectors ∙ rw other refl in
            elim (h.vectors x) [
              | inl same ↦ inl (unchanged ∙ same)
              | inr (q, (w, built, found)) ↦ inr (q, (w, built, unchanged ∙ found))
            ]
      ];
    }

    rebuild_from-eq :
        (u : String) (t : Store a.F) (events : List PreferenceEvent)
        → is_empty events ≡ false
        → rebuild_from a cfg u t events ≡ (
            lift_preference (build_preference_vector_v2 a cfg.settings events) >>= λ v.
            ok (put u v t, delete (preference_cache_keys u) ∷ []))
    unfolding rebuild_from upsert_vector_v2 put
    rebuild_from-eq u t [] h = cc
    rebuild_from-eq u t (e ∷ events) h = refl

    -- A rebuild of a pending user, by the vector of their rows.
    rebuild-eq :
        (u : String) (t : Store a.F)
        → IsUnderway t
        → is_pending s u ≡ true
        → rebuild_v2_for_user a cfg u t
          ≡ (vector_of u s >>= λ v. ok (put u v t, delete (preference_cache_keys u) ∷ []))
    unfolding rebuild_v2_for_user
    rebuild-eq u t h p =
        let some_rows : is_empty (rows_of u s) ≡ false = ground (arith, p) in
        let rows = rows_same t h u in
        ap (λ l. rebuild_from a cfg u t (canonical_preference_events l)) rows
        ∙ rebuild_from-eq u t (canonical_preference_events (rows_of u s))
            (canonical_empty (rows_of u s) ∙ some_rows)

    -- A part of the backfill, which may run out of turns.
    abbrev Goes : (Store a.F → Type 0) → Outcome BackfillError (Store a.F) → Type 0
    Goes P (ok t) = P t
    Goes P (raised (failed e)) = Ends s (raised (failed e))
    Goes P (raised out_of_turns) = Unit

    users-IsUnderway :
        (us : List String) (t : Store a.F)
        → IsUnderway t
        → All (λ u. is_pending s u ≡ true) us
        → Goes IsUnderway (backfill_users a cfg us t)
    unfolding backfill_users
    users-IsUnderway [] t h p = h
    users-IsUnderway (u ∷ us) t h p = elim (Outcome-cases (vector_of u s)) [
      | inl (v, e) ↦
          rw (rebuild-eq u t h p.0)
            (rw e (users-IsUnderway us (put u v t) (put-IsUnderway t u v h p.0 e) p.1))
      | inr (x, e) ↦ rw (rebuild-eq u t h p.0) (rw e (u, p.0, e))
    ]

    batch-pending :
        (size : ℕ) (t : Store a.F)
        → IsUnderway t
        → All (λ u. is_pending s u ≡ true) (next_batch size t)
    unfolding next_batch pending
    batch-pending size t h =
        All-map_weaken (λ u. is_pending t u ≡ true) (λ u. is_pending s u ≡ true) (was_pending t h) _
          (All-take_kept (is_pending t) size _ (
            All-perm (λ u. is_pending t u ≡ true)
              (Permᴰ.symm (sort-perm (queue_le t) (keep_if (is_pending t) (keys t.behavior))))
              (All-kept (is_pending t) (keys t.behavior))))

    still_pending :
        (t : Store a.F) (u : String)
        → IsUnderway t
        → lookup u t.vectors ≡ lookup u s.vectors
        → is_pending s u ≡ true
        → Memᴰ u (pending t)
    unfolding pending
    still_pending t u h same p =
        let rows = ap is_empty (rows_same t h u) in
        let known =
          contains-lookup u t.vectors ∙ ap is_some same ∙ sym (contains-lookup u s.vectors) in
        let some_rows : is_empty (rows_of u t) ≡ false = ground (arith, rows, p) in
        keep_if-mem (is_pending t) u (keys t.behavior) (rows-mem u t.behavior some_rows)
          (ground (arith, rows, known, p))

    filled :
        (t : Store a.F) (u : String) (b : Bool)
        → IsUnderway t
        → pending t ≡ []
        → is_pending s u ≡ b
        → Filled s t u b
    filled t u true h n p = elim (h.vectors u) [
      | inl same ↦ elim (subst (λ l. Memᴰ u l) n (still_pending t u h same p)) [ ]
      | inr (_, f) ↦ f
    ]
    filled t u false h n p = elim (h.vectors u) [ inl same ↦ same | inr (q, _) ↦ cc ]

    done-IsFilled : (t : Store a.F) → IsUnderway t → pending t ≡ [] → IsFilled s t
    done-IsFilled t h n = record {
      behavior = h.behavior;
      vectors = λ u. filled t u (is_pending s u) h n refl;
    }

    Goes-next :
        (o : Outcome BackfillError (Store a.F)) (f : Store a.F → Outcome BackfillError (Store a.F))
        → Goes IsUnderway o
        → ((t : Store a.F) → IsUnderway t → Goes (IsFilled s) (f t))
        → Goes (IsFilled s) (o >>= f)
    Goes-next (ok t) f k next = next t k
    Goes-next (raised (failed x)) f k next = k
    Goes-next (raised out_of_turns) f k next = tt

    loop-Goes :
        (size turns : ℕ) (t : Store a.F)
        → IsUnderway t
        → Goes (IsFilled s) (backfill_v2 a cfg (suc size) turns t)
    unfolding backfill_v2
    loop-Goes size zero t h = tt
    loop-Goes size (suc turns) t h = elim (list_cases (next_batch (suc size) t)) [
      | inl e ↦ rw e (done-IsFilled t h (batch_empty size t e))
      | inr (u, us, e) ↦
          let waiting =
            subst (λ l. All (λ x. is_pending s x ≡ true) l) e (batch-pending (suc size) t h) in
          let users = users-IsUnderway (u ∷ us) t h waiting in
          rw e (
            Goes-next (backfill_users a cfg (u ∷ us) t) (backfill_v2 a cfg (suc size) turns) users
              (loop-Goes size turns))
    ]

  -- With more turns than pending users and a positive batch size, `_backfill_v2` ends: either each pending
  -- user has the vector that is built of their rows, the vectors of all other users are as they were,
  -- and so are the rows; or it raises the error with which the vector of a pending user cannot be
  -- built.
  pub backfill_v2-Ends :
      (size turns : ℕ) (s : Store a.F)
      → length (pending s) < turns
      → Ends s (backfill_v2 a cfg (suc size) turns s)
  backfill_v2-Ends size turns s l =
      decide (backfill_v2 a cfg (suc size) turns s)
        (loop-Goes s size turns s (record { behavior = refl; vectors = λ u. inl refl }))
        (backfill_v2-ne-out_of_turns a cfg size turns s l)
    where
      decide :
          (o : Outcome BackfillError (Store a.F))
          → Goes s (IsFilled s) o
          → o ≢ raised out_of_turns
          → Ends s o
      decide (ok t) k n = k
      decide (raised (failed e)) k n = k
      decide (raised out_of_turns) k n = n refl
