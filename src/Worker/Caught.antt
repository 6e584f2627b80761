-- ===== src/Worker/Caught.antt =====
-- The backfill ends: each batch leaves fewer users without a vector.
use oecophylla.Common.{
  ℕ, zero, suc, ◌<◌, ◌≡◌, ◌≢◌, refl, ap, ◌∙◌, subst, String, true, false, List, [], ◌∷◌, Outcome,
  Outcome-cases, ok, raised, some, >>=-eq-ok, ok-injective, as_error, as_error-eq-ok, arith, length,
  is_empty, inl, inr, >>=-ne-raised,
}
use oecophylla.Common.Dict.{insert, contains, contains-insert}
use oecophylla.Common.Eq.{string_eq}
use oecophylla.Common.Float.{Arith}
use oecophylla.Preference.{PreferenceEvent, PreferenceVectorV2}
use oecophylla.Preference.Replay.{build_preference_vector_v2}
use oecophylla.Worker.Store.{Store, Row, rows_of, canonical_preference_events}
use oecophylla.Worker.Apply.{ApplyError, Config, upsert_vector_v2, lift_preference}
use oecophylla.Worker.Rebuild.{
  rebuild_v2_for_user, rebuild_from, Command, delete, preference_cache_keys,
}
use oecophylla.Worker.Backfill.{
  failed, out_of_turns, pending, next_batch, backfill_users, backfill_v2,
}
use oecophylla.Worker.Pending.{
  IsKept, IsKept-trans, list_cases, batch_head, pending_rows, pending-lt,
}

lt_zero : (n : ℕ) → n < 0 → ⊥
lt_zero n h = omega arith

never {ℓ} : {A : Type ℓ} (m : Outcome ApplyError A) → as_error failed m ≢ raised out_of_turns
never (ok x) = λ h. cc
never (raised e) = λ h. cc

pub canonical_empty :
    (rows : List Row) → is_empty (canonical_preference_events rows) ≡ is_empty rows
unfolding canonical_preference_events
canonical_empty [] = refl
canonical_empty (r ∷ rows) = refl

module _ (a : Arith) (cfg : Config a) where
  rebuild_from-IsKept :
      (user : String) (s : Store a.F) (events : List PreferenceEvent)
      (r : Store a.F × List (Command a.F))
      → rebuild_from a cfg user s events ≡ ok r
      → IsKept s r.0 × (is_empty events ≡ false → contains user r.0.vectors ≡ true)
  unfolding rebuild_from upsert_vector_v2
  rebuild_from-IsKept user s [] r h =
      let q = ap (λ x. x.0) (ok-injective (s, []) r h) in
      (subst (λ x. IsKept s x) q (record { behavior = refl; vectors = λ u c. c }), λ n. cc)
  rebuild_from-IsKept user s (e ∷ es) r h =
      let made : PreferenceVectorV2 a.F → Store a.F × List (Command a.F) =
        λ v. (upsert_vector_v2 a cfg user (some v) s, delete (preference_cache_keys user) ∷ []) in
      let (v, _, h) =
        >>=-eq-ok (lift_preference (build_preference_vector_v2 a cfg.settings (e ∷ es)))
          (λ v. ok (made v)) h in
      let q = ap (λ x. x.0) (ok-injective (made v) r h) in
      let known : (u : String)
          → contains u s.vectors ≡ true
          → contains u (insert user v s.vectors) ≡ true =
        λ u c. contains-insert user u v s.vectors ∙ ground (arith, c) in
      let self : contains user (insert user v s.vectors) ≡ true =
        contains-insert user user v s.vectors ∙ rw ((string_eq.beq_iff user user).1 refl) refl in
      (
        subst (λ x. IsKept s x) q (record { behavior = refl; vectors = known }),
        λ n. subst (λ x. contains user x.vectors ≡ true) q self,
      )

  rebuilt-IsKept :
      (user : String) (s : Store a.F) (r : Store a.F × List (Command a.F))
      → rebuild_v2_for_user a cfg user s ≡ ok r
      → IsKept s r.0 × (is_empty (rows_of user s) ≡ false → contains user r.0.vectors ≡ true)
  unfolding rebuild_v2_for_user
  rebuilt-IsKept user s r h =
      let (k, c) = rebuild_from-IsKept user s (canonical_preference_events (rows_of user s)) r h in
      (k, λ n. c (canonical_empty (rows_of user s) ∙ n))

  users-IsKept :
      (us : List String) (s t : Store a.F) → backfill_users a cfg us s ≡ ok t → IsKept s t
  unfolding backfill_users
  users-IsKept [] s t h =
      subst (λ x. IsKept s x) (ok-injective s t h) (record { behavior = refl; vectors = λ u c. c })
  users-IsKept (u ∷ us) s t h =
      let (r, e, h) =
        >>=-eq-ok (as_error failed (rebuild_v2_for_user a cfg u s))
          (λ r. backfill_users a cfg us r.0) h in
      IsKept-trans s r.0 t
        (rebuilt-IsKept u s r (as_error-eq-ok failed (rebuild_v2_for_user a cfg u s) e)).0
        (users-IsKept us r.0 t h)

  users-contains :
      (u : String) (us : List String) (s t : Store a.F)
      → is_empty (rows_of u s) ≡ false
      → backfill_users a cfg (u ∷ us) s ≡ ok t
      → contains u t.vectors ≡ true
  unfolding backfill_users
  users-contains u us s t n h =
      let (r, e, h) =
        >>=-eq-ok (as_error failed (rebuild_v2_for_user a cfg u s))
          (λ r. backfill_users a cfg us r.0) h in
      let (_, c) = rebuilt-IsKept u s r (as_error-eq-ok failed (rebuild_v2_for_user a cfg u s) e) in
      (users-IsKept us r.0 t h).vectors u (c n)

  users_fail : (us : List String) (s : Store a.F) → backfill_users a cfg us s ≢ raised out_of_turns
  unfolding backfill_users
  users_fail [] s = λ h. cc
  users_fail (u ∷ us) s =
      >>=-ne-raised (as_error failed (rebuild_v2_for_user a cfg u s))
        (λ r. backfill_users a cfg us r.0) (never (rebuild_v2_for_user a cfg u s))
        (λ r. users_fail us r.0)

  pub backfill_v2-ne-out_of_turns :
      (size turns : ℕ) (s : Store a.F)
      → length (pending s) < turns
      → backfill_v2 a cfg (suc size) turns s ≢ raised out_of_turns
  unfolding backfill_v2
  backfill_v2-ne-out_of_turns size zero s l = elim (lt_zero (length (pending s)) l) [ ]
  backfill_v2-ne-out_of_turns size (suc turns) s l = elim (list_cases (next_batch (suc size) s)) [
    | inl e ↦ rw e (λ h. cc)
    | inr (u, us, e) ↦
        let m = batch_head size s u us e in
        elim (Outcome-cases (backfill_users a cfg (u ∷ us) s)) [
          | inr (x, f) ↦ let other = users_fail (u ∷ us) s in rw e (rw f (λ h. other (f ∙ h)))
          | inl (t, f) ↦
              let waiting = pending_rows s u m in
              let fewer =
                pending-lt s t u (users-IsKept (u ∷ us) s t f) m
                  (users-contains u us s t waiting f) in
              rw e (rw f (backfill_v2-ne-out_of_turns size turns t (omega (arith, fewer, l))))
        ]
  ]
